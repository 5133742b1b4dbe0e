-- ===== src/BlobmsgJson/Quote.antt =====
-- The strings of blobmsg_json.c read back.
use libubox.Base.{
  ℕ, zero, suc, ◌+◌, ◌*◌, ◌/◌, ◌%◌, ◌<◌, ◌≡◌, ◌⊎◌, inl, inr, refl, ap, ◌∙◌, false, none, some, [],
  ◌∷◌, ◌++◌, append_assoc, arith, ltb, ◌==◌, Option-cases,
}
use libubox.BlobmsgJson.{Str, escape, hex_digit, escaped}
use libubox.BlobmsgJson.Print.{quoted}
use libubox.BlobmsgJson.Read.{plain, backslash, hex, unescape, un_hex, cons, read_string}

un_hex-digit : (d : ℕ) → d < 16 → un_hex (hex_digit d) ≡ some d
unfolding un_hex
un_hex-digit d small = ground arith

plain_char :
    (c : ℕ) → escape c ≡ none → ((c == 34) ≡ false) × ((c == 92) ≡ false) × (ltb c 32 ≡ false)
unfolding escape
plain_char c none_such = (ground arith, ground arith, ground arith)

special_char :
    (c e : ℕ)
    → escape c ≡ some e
    → ((e ≡ b'u') × (c < 32)) ⊎ (((e == b'u') ≡ false) × (unescape e ≡ some c))
unfolding escape unescape
special_char c e special = ground arith

read_string-plain :
    (c : ℕ) (r : Str) → escape c ≡ none → read_string plain (c ∷ r) ≡ cons c (read_string plain r)
unfolding read_string
read_string-plain c r none_such =
    let k = plain_char c none_such in simp (read_string, k.0, k.1, k.2)

read_backslash :
    (c e : ℕ) (r : Str)
    → (e == b'u') ≡ false
    → unescape e ≡ some c
    → read_string backslash (e ∷ r) ≡ cons c (read_string plain r)
unfolding read_string
read_backslash c e r two back = simp (read_string, two, back)

read_two :
    (c e : ℕ) (r : Str)
    → (e == b'u') ≡ false
    → unescape e ≡ some c
    → read_string plain (92 ∷ e ∷ r) ≡ cons c (read_string plain r)
unfolding read_string
read_two c e r two back = read_backslash c e r two back

read_digit :
    (k acc d : ℕ) (r : Str)
    → d < 16
    → read_string (hex (suc k) acc) (hex_digit d ∷ r) ≡ read_string (hex k (acc * 16 + d)) r
unfolding read_string
read_digit k acc d r small = simp (read_string, un_hex-digit d small)

read_last :
    (acc d : ℕ) (r : Str)
    → d < 16
    → read_string (hex zero acc) (hex_digit d ∷ r) ≡ cons (acc * 16 + d) (read_string plain r)
unfolding read_string
read_last acc d r small = simp (read_string, un_hex-digit d small)

read_hex :
    (c : ℕ) (r : Str)
    → c < 32
    → read_string plain (escaped b'u' c ++ r) ≡ cons c (read_string plain r)
unfolding read_string escaped un_hex
read_hex c r small =
    read_digit 0 0 (c / 16) (hex_digit (c % 16) ∷ r) (omega arith)
    ∙ read_last (0 * 16 + c / 16) (c % 16) r (omega arith)
    ∙ ap (λ n. cons n (read_string plain r)) (omega arith)

read_string-escaped :
    (c e : ℕ) (r : Str)
    → escape c ≡ some e
    → read_string plain (escaped e c ++ r) ≡ cons c (read_string plain r)
unfolding escaped
read_string-escaped c e r special = elim (special_char c e special) [
  | inl (u, small) ↦ rw u (read_hex c r small)
  | inr (two, back) ↦ rw two (read_two c e r two back)
]

closing : (r : Str) → read_string plain (34 ∷ r) ≡ some ([], r)
unfolding read_string
closing r = refl

pub read_string-quoted : (s r : Str) → read_string plain (quoted s ++ (34 ∷ r)) ≡ some (s, r)
unfolding quoted
read_string-quoted [] r = closing r
read_string-quoted (c ∷ s) r =
    let rest = read_string-quoted s r in
    elim (Option-cases (escape c)) [
      | inl none_such ↦
          rw none_such (read_string-plain c (quoted s ++ (34 ∷ r)) none_such ∙ ap (cons c) rest)
      | inr (e, special) ↦
          rw (special, append_assoc)
            (read_string-escaped c e (quoted s ++ (34 ∷ r)) special ∙ ap (cons c) rest)
    ]

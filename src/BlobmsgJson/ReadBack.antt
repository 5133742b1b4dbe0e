-- ===== src/BlobmsgJson/ReadBack.antt =====
-- The text of a value, read back (blobmsg_json.c).
use libubox.Base.{
  ℕ, zero, suc, ◌-◌, ◌*◌, ◌≡◌, inl, inr, refl, ap, ◌∙◌, Bool, true, false, not, Option, none, some,
  [], ◌∷◌, ◌++◌, append_assoc, arith, ltb, ◌==◌, Bool-cases, ◌>>=◌, replicate, All, min,
}
use libubox.BlobmsgJson.{Str}
use libubox.BlobmsgJson.Format.{
  Value, unspec, int8, int16, int32, int64, string, array, table, Fields, decimal, signed, truth,
  Custom,
}
use libubox.BlobmsgJson.Print.{print_string, separator, print_value, print_items}
use libubox.BlobmsgJson.Read.{
  boolean, number, text, Elements, is_blank, skip, expect_all, is_digit, read_number, value_at,
  signed_number,
}
use libubox.BlobmsgJson.Quote.{read_string-quoted}
use libubox.BlobmsgJson.Number.{Ends, decimal-head, read_number-decimal}

pub skip-blank : (xs r : Str) → All (λ c. is_blank c ≡ true) xs → skip (xs ++ r) ≡ skip r
unfolding skip
skip-blank [] r v = refl
skip-blank (x ∷ xs) r v = simp (skip, v.0) (skip-blank xs r v.1)

tabs-blank : (k : ℕ) → All (λ c. is_blank c ≡ true) (replicate k 9)
tabs-blank zero = tt
tabs-blank (suc k) = (refl, tabs-blank k)

pub separator-blank : (ind : Bool) (level : ℕ) → All (λ c. is_blank c ≡ true) (separator ind level)
separator-blank false level = tt
separator-blank true level = (refl, tabs-blank (min 16 level))

pub skip-here : (c : ℕ) (r : Str) → is_blank c ≡ false → skip (c ∷ r) ≡ c ∷ r
unfolding skip
skip-here c r v = simp (skip, v)

-- Nothing is a digit where a list goes on or ends.
pub separator-Ends :
    (ind : Bool) (level c : ℕ) (r : Str)
    → is_digit c ≡ false
    → Ends (separator ind level ++ (c ∷ r))
unfolding is_digit
separator-Ends false level c r v = v
separator-Ends true level c r v = refl

abbrev pub none_custom : Custom
none_custom f = none

module _ (ind : Bool) where
  abbrev pub value_text : ℕ → Value → Str
  value_text level v = print_value none_custom ind level v

  abbrev pub items_text : ℕ → Bool → Bool → Fields → Str
  items_text level is_array first fs = print_items none_custom ind level is_array first fs

  pub digit-value_at :
      (items : Bool → Str → Option (Elements × Str)) (c : ℕ) (r : Str)
      → is_digit c ≡ true
      → value_at items (c ∷ r) ≡ read_number false (c ∷ r)
  unfolding value_at is_digit
  digit-value_at items c r digit =
      let k1 : (c == 34) ≡ false = ground arith in
      let k2 : (c == 91) ≡ false = ground arith in
      let k3 : (c == 123) ≡ false = ground arith in
      let k4 : (c == b'n') ≡ false = ground arith in
      let k5 : (c == b't') ≡ false = ground arith in
      let k6 : (c == b'f') ≡ false = ground arith in
      let k7 : (c == 45) ≡ false = ground arith in simp (value_at, k1, k2, k3, k4, k5, k6, k7)

  pub decimal-value_at :
      (items : Bool → Str → Option (Elements × Str)) (n : ℕ) (r : Str)
      → Ends r
      → value_at items (decimal n ++ r) ≡ some (number false n, r)
  decimal-value_at items n r e =
      let (c, t, begins, digit) = decimal-head n in
      let read : read_number false (c ∷ (t ++ r)) ≡ some (number false n, r) =
        rw begins at (read_number-decimal false n r e) in
      rw begins (digit-value_at items c (t ++ r) digit ∙ read)

  minus-value_at :
      (items : Bool → Str → Option (Elements × Str)) (r : Str)
      → value_at items (45 ∷ r) ≡ read_number true r
  unfolding value_at
  minus-value_at items r = refl

  pub signed-value_at :
      (items : Bool → Str → Option (Elements × Str)) (half n : ℕ) (r : Str)
      → Ends r
      → value_at items (signed half n ++ r) ≡ some (signed_number half n, r)
  signed-value_at items half n r e = elim (Bool-cases (ltb n half)) [
    | inl small ↦ rw small (decimal-value_at items n r e)
    | inr large ↦ rw large (
        minus-value_at items (decimal (2 * half - n) ++ r)
        ∙ read_number-decimal true (2 * half - n) r e)
  ]

  pub truth-value_at :
      (items : Bool → Str → Option (Elements × Str)) (b : ℕ) (r : Str)
      → value_at items (truth b ++ r) ≡ some (boolean (not (b == 0)), r)
  unfolding value_at expect_all
  truth-value_at items b r = elim (Bool-cases (b == 0)) [
    | inl no_bit ↦ rw no_bit refl
    | inr bit ↦ rw bit refl
  ]

  pub string-value_at :
      (items : Bool → Str → Option (Elements × Str)) (s r : Str)
      → value_at items (print_string s ++ r) ≡ some (text s, r)
  unfolding value_at
  string-value_at items s r =
      rw append_assoc (ap (λ o. o >>= λ p. some (text p.0, p.1)) (read_string-quoted s r))

  skip-decimal : (n : ℕ) (r : Str) → skip (decimal n ++ r) ≡ decimal n ++ r
  unfolding is_digit
  skip-decimal n r =
      let (c, t, begins, digit) = decimal-head n in
      rw begins (skip-here c (t ++ r) (ground (arith, digit)))

  skip-signed : (half n : ℕ) (r : Str) → skip (signed half n ++ r) ≡ signed half n ++ r
  unfolding skip
  skip-signed half n r = elim (Bool-cases (ltb n half)) [
    | inl small ↦ rw small (skip-decimal n r)
    | inr large ↦ rw large refl
  ]

  -- A value begins with no blank.
  pub skip-value :
      (level : ℕ) (v : Value) (r : Str) → skip (value_text level v ++ r) ≡ value_text level v ++ r
  unfolding skip print_value
  skip-value level unspec r = refl
  skip-value level (int8 b) r = elim (Bool-cases (b == 0)) [
    | inl no_bit ↦ rw no_bit refl
    | inr bit ↦ rw bit refl
  ]
  skip-value level (int16 w) r = skip-decimal w r
  skip-value level (int32 w) r = skip-signed 2147483648 w r
  skip-value level (int64 w) r = skip-signed 9223372036854775808 w r
  skip-value level (string s) r = refl
  skip-value level (array fs) r = refl
  skip-value level (table fs) r = refl

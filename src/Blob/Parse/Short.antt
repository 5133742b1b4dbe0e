-- ===== src/Blob/Parse/Short.antt =====
-- What `blob_parse` does with a nested attribute that is shorter than a header (blob.c, blob.h).
use libubox.Base.{
  get_elem-none, ℕ, zero, suc, ◌+◌, ◌-◌, ◌*◌, ◌/◌, ◌%◌, ◌≤◌, ◌<◌, ◌≡◌, inl, inr, refl, ap, true,
  false, ◌&&◌, Option, none, some, List, [], ◌∷◌, arith, leb, ltb, if◌then◌else◌, ◌==◌, Yields,
  Option-cases, length, drop, length-drop,
}
use libubox.Blob.{id_len, blob_data, blob_id, blob_len, blob_pad_len, blob_pad_len-bounds}
use libubox.Blob.Iterate.{for_each, for_each_attr, for_each-Inside}
use libubox.Blob.Parse.{
  attr_string, check_len, blob_check_type, AttrInfo, accept, accept_for, Entries, parse_loop,
  blob_parse,
}

-- The attribute that is visited first.
abbrev pub first_of : List (List ℕ) → Option (List ℕ)
first_of [] = none
first_of (cur ∷ r) = some cur

for_each-first :
    (n : ℕ) (mem : List ℕ) (rem w : ℕ)
    → (rem + 3) / 4 * 4 ≤ length mem
    → rem < n
    → 4 ≤ rem
    → id_len mem ≡ some w
    → 0 < w % 16777216
    → w % 16777216 < 4
    → Yields (λ l. first_of l ≡ some mem) (for_each n mem rem)
unfolding for_each
for_each-first zero mem rem w room fuel left header positive short = absurd (omega arith)
for_each-first (suc n) mem rem w room fuel left header positive short =
    let p = blob_pad_len-bounds w in
    let some_left : (rem == 0) ≡ false = ground arith in
    let fits : (leb (blob_pad_len w) rem && leb 4 (blob_pad_len w)) ≡ true = ground arith in
    let more =
      for_each-Inside n (drop (blob_pad_len w) mem) (rem - blob_pad_len w)
        (omega (arith, length-drop (blob_pad_len w) mem)) (omega arith) in
    elim (Option-cases (for_each n (drop (blob_pad_len w) mem) (rem - blob_pad_len w))) [
      | inl fault ↦ absurd (rw fault at more)
      | inr (l, visits) ↦ simp (for_each, some_left, header, fits, visits, Yields) refl
    ]

for_each_attr-first :
    (attr : List ℕ) (word w : ℕ)
    → id_len attr ≡ some word
    → blob_pad_len word ≤ length attr
    → 8 ≤ word % 16777216
    → id_len (blob_data attr) ≡ some w
    → 0 < w % 16777216
    → w % 16777216 < 4
    → Yields (λ l. first_of l ≡ some (blob_data attr)) (for_each_attr attr)
unfolding for_each_attr
for_each_attr-first attr word w outer room sized header positive short =
    let p = blob_pad_len-bounds word in
    let positive_len : ltb (blob_len word) 2147483648 ≡ true = ground arith in
    simp (for_each_attr, outer, positive_len)
      (for_each-first (blob_len word + 1) (blob_data attr) (blob_len word) w
        (omega (arith, length-drop 4 attr)) (omega arith) (omega arith) header positive short)

-- `blob_check_type` of a string finds no last byte.
short_string :
    (cur : List ℕ) (w : ℕ)
    → 0 < w % 16777216
    → w % 16777216 < 4
    → length cur < 4294967296
    → blob_check_type (blob_data cur) (blob_len w) attr_string ≡ none
unfolding blob_check_type check_len
short_string cur w positive short below =
    let beyond =
      get_elem-none (blob_len w - 1) (blob_data cur) (omega (arith, length-drop 4 cur)) in
    let long : leb 1 (blob_len w) ≡ true = ground arith in simp (long, beyond)

parse_loop-short :
    (info : ℕ → AttrInfo) (max w : ℕ) (l : List (List ℕ)) (cur : List ℕ) (tb : Entries) (found : ℕ)
    → first_of l ≡ some cur
    → id_len cur ≡ some w
    → blob_id w < max
    → (info (blob_id w)).type ≡ attr_string
    → blob_check_type (blob_data cur) (blob_len w) attr_string ≡ none
    → parse_loop (some info) max l tb found ≡ none
unfolding parse_loop accept_for accept
parse_loop-short info max w [] cur tb found first header known string fault = absurd cc
parse_loop-short info max w (c ∷ r) cur tb found first header known string fault =
    let same : c ≡ cur = ap (λ o. elim o [ none ↦ cur | some x ↦ x ]) first in
    let below : leb max (blob_id w) ≡ false = ground arith in
    let header' : id_len c ≡ some w = rw same header in
    let fault' : blob_check_type (blob_data c) (blob_len w) attr_string ≡ none = rw same fault in
    simp (parse_loop, header', below, accept_for, accept, string, fault')

-- A first nested attribute whose length is 1, 2 or 3, of an attribute that lies in the memory with its padding:
-- `blob_for_each_attr` reads nothing outside of the memory, and visits it. `blob_parse` where `info` has a string
-- for its id, which is below `max`, reads past any memory below 4 GB: the length of the payload wraps around.
pub blob_parse_overread :
    (attr : List ℕ) (word w : ℕ) (tb : Entries) (info : ℕ → AttrInfo) (max : ℕ)
    → id_len attr ≡ some word
    → blob_pad_len word ≤ length attr
    → 8 ≤ word % 16777216
    → length attr < 4294967296
    → id_len (blob_data attr) ≡ some w
    → 0 < w % 16777216
    → w % 16777216 < 4
    → blob_id w < max
    → (info (blob_id w)).type ≡ attr_string
    → Yields (λ l. first_of l ≡ some (blob_data attr)) (for_each_attr attr)
      × (blob_parse attr tb (some info) max ≡ none)
unfolding blob_parse
blob_parse_overread attr word w tb info max outer room sized below header positive short known
      string =
    let first = for_each_attr-first attr word w outer room sized header positive short in
    let fault =
      short_string (blob_data attr) w positive short (omega (arith, length-drop 4 attr)) in
    (
      first,
      elim (Option-cases (for_each_attr attr)) [
        | inl bad ↦ absurd (rw bad at first)
        | inr (l, visits) ↦
            rw (visits, blob_parse)
              (parse_loop-short info max w l (blob_data attr)
                (λ i. if ltb i max then none else tb i) 0 (rw visits at first) header known string
                fault)
      ],
    )

-- ===== src/Blob/Iterate.antt =====
-- `blob_for_each_attr` (blob.h): the attributes that it visits.
use libubox.Base.{
  ℕ, zero, suc, ◌+◌, ◌-◌, ◌*◌, ◌/◌, ◌%◌, ◌≤◌, ◌<◌, ◌≡◌, inl, inr, refl, sym, ◌∙◌, ◌&&◌, Option,
  none, some, List, [], ◌∷◌, arith, ltb, leb, ◌==◌, if◌then◌else◌, tests, Yields, Bool-cases,
  length, drop, All, length-drop, drop-drop,
}
use libubox.Base.Int.{pos, negsuc}
use libubox.Links.{All-mono}
use libubox.Blob.{
  id_len, blob_data, blob_len, blob_pad_len, to_int, blob_pad_len-bounds, id_len-some,
}

-- `__blob_for_each_attr` on fuel, from `pos` on: the attributes visited. `none` is a read past the end
-- of the memory, or fuel that ran out.
unfoldable pub for_each : ℕ → List ℕ → ℕ → Option (List (List ℕ))
for_each zero cur rem = none
for_each (suc n) cur rem = if rem == 0 then some [] else elim (id_len cur) [
  | none ↦ none
  | some w ↦
      let rest = for_each n (drop (blob_pad_len w) cur) (rem - blob_pad_len w) in
      if leb (blob_pad_len w) rem && leb 4 (blob_pad_len w)
      then (elim rest [ none ↦ none | some l ↦ some (cur ∷ l) ])
      else some []
]

-- `blob_for_each_attr` over the attribute `attr`. Each round takes 4 bytes or more, so more rounds
-- than bytes are enough.
unfoldable pub for_each_attr : List ℕ → Option (List (List ℕ))
for_each_attr attr = elim (id_len attr) [
  | none ↦ none
  | some w ↦ elim (to_int (blob_len w)) [
    | pos rem ↦ for_each (rem + 1) (blob_data attr) rem
    | negsuc _ ↦ some []
  ]
]

-- An attribute at an offset in `mem`, that ends within the first `rem` bytes.
pub record Inside (mem : List ℕ) (rem : ℕ) (attr : List ℕ) : Type 0 where
  pub offset : ℕ
  pub word : ℕ
  pub at : attr ≡ drop offset mem
  pub header : id_len attr ≡ some word
  pub has_header : 4 ≤ blob_pad_len word
  pub ends : offset + blob_pad_len word ≤ rem

Inside-drop :
    (mem : List ℕ) (rem len : ℕ) (attr : List ℕ)
    → len ≤ rem
    → Inside (drop len mem) (rem - len) attr
    → Inside mem rem attr
Inside-drop mem rem len attr le v = record {
  offset = len + v.offset;
  word = v.word;
  at = v.at ∙ drop-drop len v.offset (len + v.offset) mem refl;
  header = v.header;
  has_header = v.has_header;
  ends = omega (arith, v.ends);
}

Inside-cons :
    (mem : List ℕ) (rem w : ℕ) (o : Option (List (List ℕ)))
    → id_len mem ≡ some w
    → 4 ≤ blob_pad_len w
    → blob_pad_len w ≤ rem
    → Yields (All (Inside (drop (blob_pad_len w) mem) (rem - blob_pad_len w))) o
    → Yields (All (Inside mem rem)) (elim o [ none ↦ none | some l ↦ some (mem ∷ l) ])
Inside-cons mem rem w none header big fits y = y
Inside-cons mem rem w (some l) header big fits y = (
  record {
    offset = 0;
    word = w;
    at = refl;
    header = header;
    has_header = big;
    ends = omega (arith, fits);
  },
  All-mono (λ attr. Inside-drop mem rem (blob_pad_len w) attr fits) l y,
)

-- With the room of a whole word beyond the last byte, the loop ends, reads no header outside of the
-- memory, and visits only attributes that lie inside of what it is given.
pub for_each-Inside :
    (n : ℕ) (mem : List ℕ) (rem : ℕ)
    → (rem + 3) / 4 * 4 ≤ length mem
    → rem < n
    → Yields (All (Inside mem rem)) (for_each n mem rem)
unfolding for_each
for_each-Inside zero mem rem room fuel = absurd (omega arith)
for_each-Inside (suc n) mem rem room fuel = elim (Bool-cases (rem == 0)) [
  | inl none_left ↦ simp (for_each, none_left, Yields) tt
  | inr some_left ↦
      let (w, header) = id_len-some mem (omega tests) in
      elim (Bool-cases (leb (blob_pad_len w) rem && leb 4 (blob_pad_len w))) [
        | inr stop ↦ simp (for_each, some_left, header, stop, Yields) tt
        | inl fits ↦
            let p = blob_pad_len-bounds w in
            let le : blob_pad_len w ≤ rem = ground arith in
            let big : 4 ≤ blob_pad_len w = ground arith in
            simp (for_each, some_left, header, fits)
              (Inside-cons mem rem w (for_each n (drop (blob_pad_len w) mem) (rem - blob_pad_len w))
                header big le
                (for_each-Inside n (drop (blob_pad_len w) mem) (rem - blob_pad_len w)
                  (omega (arith, length-drop (blob_pad_len w) mem)) (omega arith)))
      ]
]

-- `blob_for_each_attr` over an attribute that lies in the memory with its padding ends, reads nothing
-- outside of the memory, and visits only attributes that lie inside of the payload.
pub for_each_attr-Inside :
    (attr : List ℕ) (w : ℕ)
    → id_len attr ≡ some w
    → blob_pad_len w ≤ length attr
    → Yields (All (Inside (blob_data attr) (w % 16777216 - 4))) (for_each_attr attr)
unfolding for_each_attr
for_each_attr-Inside attr w header room = elim (Bool-cases (ltb (blob_len w) 2147483648)) [
  | inr negative ↦ simp (for_each_attr, header, negative, Yields) tt
  | inl positive ↦
      let p = blob_pad_len-bounds w in
      let same : blob_len w ≡ w % 16777216 - 4 = omega tests in
      simp (for_each_attr, header, positive)
        (rw (sym same) (
          for_each-Inside (blob_len w + 1) (blob_data attr) (blob_len w)
            (omega (tests, length-drop 4 attr)) (omega arith)))
]

-- ===== src/BlobmsgJson/Items.antt =====
-- The text of the elements of a list, read back (blobmsg_json.c).
use libubox.Base.{
  ℕ, zero, suc, ◌≤◌, ◌<◌, ◌≡◌, inl, inr, refl, ap, ◌∙◌, Bool, true, false, ◌||◌, Option, some, [],
  ◌∷◌, ◌++◌, append_assoc, arith, ltb, ◌==◌, if◌then◌else◌, Bool-cases, length, All,
}
use libubox.BlobmsgJson.{Str}
use libubox.BlobmsgJson.Format.{
  field, refused, Value, unspec, int8, int16, int32, int64, string, array, table, Fields, end, item,
}
use libubox.BlobmsgJson.Print.{quoted, separator, print_name, print_items}
use libubox.BlobmsgJson.Read.{
  Json, Elements, done, element, is_blank, skip, expect, is_digit, value_at, label_at, more_at,
  items_at, read_value, read_items, json_of, elements_of, size_of, size_of_fields, AreNamed,
}
use libubox.BlobmsgJson.Quote.{read_string-quoted}
use libubox.BlobmsgJson.Number.{Ends}
use libubox.BlobmsgJson.ReadBack.{
  skip-blank, separator-blank, skip-here, separator-Ends, none_custom, skip-value, value_text,
  items_text,
}

module _ (ind : Bool) where
  -- What stands behind the elements of a list.
  abbrev pub close_text : ℕ → Bool → Str → Str
  close_text level is_array r = separator ind level ++ ((if is_array then 93 else 125) ∷ r)

  -- The elements from one on are read back.
  abbrev pub Back : Bool → Fields → Type 0
  Back is_array end = Unit {0}
  Back is_array (item refused tl) = Unit {0}
  Back is_array (item (field name v) tl) =
      (n level : ℕ) (blanks r : Str)
      → All (λ c. is_blank c ≡ true) blanks
      → size_of_fields (item (field name v) tl) ≤ n
      → read_items n is_array (
          blanks
          ++ (print_name none_custom ind is_array name
              ++ (value_text ind (suc level) v
                  ++ (items_text ind (suc level) is_array false tl
                      ++ close_text level is_array r))))
        ≡ some (elements_of is_array (item (field name v) tl), r)

  abbrev pub ValueBack : Value → Type 0
  ValueBack v =
      (n level : ℕ) (r : Str)
      → size_of v ≤ suc n
      → Ends r
      → value_at (read_items n) (value_text ind level v ++ r) ≡ some (json_of v, r)

  size_positive : (v : Value) → 0 < size_of v
  unfolding size_of
  size_positive unspec = omega arith
  size_positive (int8 b) = omega arith
  size_positive (int16 w) = omega arith
  size_positive (int32 w) = omega arith
  size_positive (int64 w) = omega arith
  size_positive (string s) = omega arith
  size_positive (array fs) = omega arith
  size_positive (table fs) = omega arith

  read_value-back :
      (v : Value) (n level : ℕ) (blanks r : Str)
      → ValueBack v
      → All (λ c. is_blank c ≡ true) blanks
      → size_of v ≤ n
      → Ends r
      → read_value n (blanks ++ (value_text ind level v ++ r)) ≡ some (json_of v, r)
  unfolding read_value
  read_value-back v zero level blanks r back b fuel e = absurd (omega (arith, size_positive v))
  read_value-back v (suc n) level blanks r back b fuel e =
      ap (value_at (read_items n))
        (skip-blank blanks (value_text ind level v ++ r) b ∙ skip-value ind level v r)
      ∙ back n level r fuel e

  -- The blanks before a value, after its name.
  abbrev gap : Bool → Str → Str
  gap true blanks = blanks
  gap false blanks = if ind then 32 ∷ [] else []

  gap-blank :
      (is_array : Bool) (blanks : Str)
      → All (λ c. is_blank c ≡ true) blanks
      → All (λ c. is_blank c ≡ true) (gap is_array blanks)
  gap-blank true blanks b = b
  gap-blank false blanks b = elim (Bool-cases ind) [
    | inl on ↦ rw on (refl, tt)
    | inr off ↦ rw off tt
  ]

  expect-colon :
      (r : Str)
      → expect 58 (skip ((if ind then 58 ∷ 32 ∷ [] else 58 ∷ []) ++ r)) ≡ some (gap false [] ++ r)
  unfolding expect skip
  expect-colon r = elim (Bool-cases ind) [ inl on ↦ rw on refl | inr off ↦ rw off refl ]

  label_at-back :
      (is_array : Bool) (name blanks r : Str)
      → All (λ c. is_blank c ≡ true) blanks
      → (is_array || ltb 0 (length name)) ≡ true
      → label_at is_array (blanks ++ (print_name none_custom ind is_array name ++ r))
        ≡ some (if is_array then [] else name, gap is_array blanks ++ r)
  unfolding label_at expect
  label_at-back true name blanks r b named = refl
  label_at-back false name blanks r b named =
      let colon : Str = if ind then 58 ∷ 32 ∷ [] else 58 ∷ [] in
      let some_name : (length name == 0) ≡ false = ground (arith, named) in
      let begins : print_name none_custom ind false name ++ r
          ≡ 34 ∷ (quoted name ++ (34 ∷ (colon ++ r))) =
        simp (some_name, append_assoc) in
      let opened : skip (blanks ++ (print_name none_custom ind false name ++ r))
          ≡ 34 ∷ (quoted name ++ (34 ∷ (colon ++ r))) =
        skip-blank blanks (print_name none_custom ind false name ++ r) b
        ∙ ap skip begins
        ∙ skip-here 34 (quoted name ++ (34 ∷ (colon ++ r))) refl in
      rw opened (rw (read_string-quoted name (colon ++ r)) (rw (expect-colon r) refl))

  pub skip-close :
      (is_array : Bool) (level : ℕ) (r : Str)
      → skip (close_text level is_array r) ≡ (if is_array then 93 else 125) ∷ r
  unfolding skip
  skip-close true level r = skip-blank (separator ind level) (93 ∷ r) (separator-blank ind level)
  skip-close false level r = skip-blank (separator ind level) (125 ∷ r) (separator-blank ind level)

  last-back :
      (items : Str → Option (Elements × Str)) (is_array : Bool) (name : Str) (j : Json) (x r : Str)
      → skip x ≡ (if is_array then 93 else 125) ∷ r
      → more_at items is_array name j x ≡ some (element name j done, r)
  unfolding expect
  last-back items true name j x r e = simp (more_at, e)
  last-back items false name j x r e = simp (more_at, e)

  next-back :
      (items : Str → Option (Elements × Str)) (is_array : Bool) (name : Str) (j : Json) (x : Str)
      (es : Elements) (r : Str)
      → items x ≡ some (es, r)
      → more_at items is_array name j (44 ∷ x) ≡ some (element name j es, r)
  unfolding expect skip
  next-back items is_array name j x es r got = rw got refl

  more_at-Back :
      (is_array : Bool) (name : Str) (j : Json) (tl : Fields) (n level : ℕ) (r : Str)
      → AreNamed is_array tl
      → Back is_array tl
      → size_of_fields tl ≤ n
      → more_at
          (read_items n is_array)
          is_array
          name
          j
          (items_text ind (suc level) is_array false tl ++ close_text level is_array r)
        ≡ some (element name j (elements_of is_array tl), r)
  unfolding AreNamed print_items elements_of
  more_at-Back is_array name j end n level r v back fuel =
      last-back (read_items n is_array) is_array name j (close_text level is_array r) r
        (skip-close is_array level r)
  more_at-Back is_array name j (item refused tl) n level r v back fuel = absurd v
  more_at-Back is_array name j (item (field m v) tl) n level r k back fuel =
      let sep = separator ind (suc level) in
      let x =
        sep
        ++ (print_name none_custom ind is_array m
            ++ (value_text ind (suc level) v
                ++ (items_text ind (suc level) is_array false tl
                    ++ close_text level is_array r))) in
      let shape : items_text ind (suc level) is_array false (item (field m v) tl)
            ++ close_text level is_array r
          ≡ 44 ∷ x =
        simp append_assoc in
      rw shape (
        next-back (read_items n is_array) is_array name j x
          (elements_of is_array (item (field m v) tl)) r
          (back n level sep r (separator-blank ind (suc level)) fuel))

  -- The texts that may follow an element.
  rest-Ends :
      (is_array : Bool) (tl : Fields) (level : ℕ) (r : Str)
      → AreNamed is_array tl
      → Ends (items_text ind (suc level) is_array false tl ++ close_text level is_array r)
  unfolding print_items AreNamed is_digit
  rest-Ends true end level r v = separator-Ends ind level 93 r refl
  rest-Ends false end level r v = separator-Ends ind level 125 r refl
  rest-Ends is_array (item refused tl) level r v = absurd v
  rest-Ends is_array (item (field m w) tl) level r v = refl

  pub item-Back :
      (is_array : Bool) (name : Str) (v : Value) (tl : Fields)
      → AreNamed is_array (item (field name v) tl)
      → ValueBack v
      → Back is_array tl
      → Back is_array (item (field name v) tl)
  unfolding read_items AreNamed size_of_fields elements_of items_at
  item-Back is_array name v tl k back rest zero level blanks r b fuel = absurd (omega (arith, fuel))
  item-Back is_array name v tl k back rest (suc n) level blanks r b fuel =
      let t = items_text ind (suc level) is_array false tl ++ close_text level is_array r in
      let called : Str = if is_array then [] else name in
      let e1 = label_at-back is_array name blanks (value_text ind (suc level) v ++ t) b k.0 in
      let e2 =
        read_value-back v n (suc level) (gap is_array blanks) t back (gap-blank is_array blanks b)
          (omega (arith, fuel)) (rest-Ends is_array tl level r k.2) in
      let e3 =
        more_at-Back is_array called (json_of v) tl n level r k.2 rest (omega (arith, fuel)) in
      rw e1 (rw e2 e3)

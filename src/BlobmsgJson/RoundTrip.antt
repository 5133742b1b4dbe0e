-- ===== src/BlobmsgJson/RoundTrip.antt =====
-- The whole text of a field, read back (blobmsg_json.c).
use libubox.Base.{
  ℕ, suc, ◌≤◌, ◌<◌, ◌≡◌, inl, inr, refl, sym, ap, ◌∙◌, Bool, true, false, ◌||◌, Option, none, some,
  [], ◌∷◌, ◌++◌, append-nil, append_assoc, arith, ltb, ◌==◌, if◌then◌else◌, Yields, Bool-cases,
  length,
}
use libubox.Blob.{blob_len}
use libubox.BlobmsgJson.{Str}
use libubox.BlobmsgJson.Format.{
  Field, field, refused, Value, unspec, int8, int16, int32, int64, string, array, table, Fields,
  end, item, decimal, signed, is_indented, first_level, is_array, format_json_with_cb,
}
use libubox.BlobmsgJson.Print.{
  separator, print_name, brackets, print_value, print_items, print_json,
}
use libubox.BlobmsgJson.Read.{
  null, Elements, done, skip, made, expect, expect_all, is_digit, enclosed, value_at, read_value,
  read_items, json_of, elements_of, size_of, size_of_fields, IsNamed, AreNamed,
}
use libubox.BlobmsgJson.Number.{decimal-head}
use libubox.BlobmsgJson.ReadBack.{
  skip-blank, separator-blank, skip-here, none_custom, signed-value_at, truth-value_at,
  string-value_at, decimal-value_at, skip-value, value_text, items_text,
}
use libubox.BlobmsgJson.Items.{skip-close, item-Back, close_text, Back, ValueBack}
use libubox.BlobmsgJson.Written.{format_json_with_cb-print}

module _ (ind : Bool) where
  expect-decimal : (n : ℕ) (r : Str) → expect 93 (decimal n ++ r) ≡ none
  unfolding expect is_digit
  expect-decimal n r =
      let (c, t, begins, digit) = decimal-head n in
      let apart : (c == 93) ≡ false = ground arith in rw begins (rw apart refl)

  expect-signed : (half n : ℕ) (r : Str) → expect 93 (signed half n ++ r) ≡ none
  unfolding expect
  expect-signed half n r = elim (Bool-cases (ltb n half)) [
    | inl small ↦ rw small (expect-decimal n r)
    | inr large ↦ rw large refl
  ]

  -- No value begins with what closes an array.
  expect-value : (level : ℕ) (v : Value) (r : Str) → expect 93 (value_text ind level v ++ r) ≡ none
  unfolding expect print_value
  expect-value level unspec r = refl
  expect-value level (int8 b) r = elim (Bool-cases (b == 0)) [
    | inl no_bit ↦ rw no_bit refl
    | inr bit ↦ rw bit refl
  ]
  expect-value level (int16 w) r = expect-decimal w r
  expect-value level (int32 w) r = expect-signed 2147483648 w r
  expect-value level (int64 w) r = expect-signed 9223372036854775808 w r
  expect-value level (string s) r = refl
  expect-value level (array fs) r = refl
  expect-value level (table fs) r = refl

  enclosed-empty :
      (is_array : Bool) (items : Str → Option (Elements × Str)) (s r : Str)
      → skip s ≡ (if is_array then 93 else 125) ∷ r
      → enclosed is_array items s ≡ some (made is_array done, r)
  unfolding expect
  enclosed-empty true items s r e = simp (enclosed, e)
  enclosed-empty false items s r e = simp (enclosed, e)

  enclosed-some :
      (is_array : Bool) (items : Str → Option (Elements × Str)) (s r : Str) (es : Elements)
      → expect (if is_array then 93 else 125) (skip s) ≡ none
      → items s ≡ some (es, r)
      → enclosed is_array items s ≡ some (made is_array es, r)
  enclosed-some true items s r es opened got = simp (enclosed, opened, got)
  enclosed-some false items s r es opened got = simp (enclosed, opened, got)

  not_closed :
      (is_array : Bool) (name : Str) (level : ℕ) (v : Value) (r : Str)
      → (is_array || ltb 0 (length name)) ≡ true
      → expect
          (if is_array then 93 else 125)
          (skip (print_name none_custom ind is_array name ++ (value_text ind level v ++ r)))
        ≡ none
  unfolding expect skip
  not_closed true name level v r named = rw (skip-value ind level v r) (expect-value level v r)
  not_closed false name level v r named =
      let some_name : (length name == 0) ≡ false = ground (arith, named) in rw some_name refl

  enclosed-Back :
      (is_array : Bool) (fs : Fields) (n level : ℕ) (r : Str)
      → AreNamed is_array fs
      → Back ind is_array fs
      → size_of_fields fs ≤ n
      → enclosed is_array (read_items n is_array) (
          separator ind (suc level)
          ++ (items_text ind (suc level) is_array true fs ++ close_text ind level is_array r))
        ≡ some (made is_array (elements_of is_array fs), r)
  unfolding print_items AreNamed elements_of
  enclosed-Back is_array end n level r k back fuel =
      enclosed-empty is_array (read_items n is_array)
        (separator ind (suc level) ++ close_text ind level is_array r) r
        (skip-blank (separator ind (suc level)) (close_text ind level is_array r)
            (separator-blank ind (suc level))
          ∙ skip-close ind is_array level r)
  enclosed-Back is_array (item refused tl) n level r k back fuel = absurd k
  enclosed-Back is_array (item (field m v) tl) n level r k back fuel =
      let sep = separator ind (suc level) in
      let t = items_text ind (suc level) is_array false tl ++ close_text ind level is_array r in
      let x = print_name none_custom ind is_array m ++ (value_text ind (suc level) v ++ t) in
      let shape : items_text ind (suc level) is_array true (item (field m v) tl)
            ++ close_text ind level is_array r
          ≡ x =
        simp append_assoc in
      let blanks = separator-blank ind (suc level) in
      rw shape (
        enclosed-some is_array (read_items n is_array) (sep ++ x) r
          (elements_of is_array (item (field m v) tl))
          (ap (expect (if is_array then 93 else 125)) (skip-blank sep x blanks)
            ∙ not_closed is_array m (suc level) v t k.0)
          (back n level sep r blanks fuel))

  list-Back :
      (is_array : Bool) (fs : Fields) (n level : ℕ) (r : Str)
      → AreNamed is_array fs
      → Back ind is_array fs
      → size_of_fields fs ≤ n
      → value_at (read_items n) (
          brackets none_custom ind is_array level (items_text ind (suc level) is_array true fs)
          ++ r)
        ≡ some (made is_array (elements_of is_array fs), r)
  unfolding value_at
  list-Back true fs n level r k back fuel =
      ap (enclosed true (read_items n true)) (simp append_assoc)
      ∙ enclosed-Back true fs n level r k back fuel
  list-Back false fs n level r k back fuel =
      ap (enclosed false (read_items n false)) (simp append_assoc)
      ∙ enclosed-Back false fs n level r k back fuel

  null-back :
      (items : Bool → Str → Option (Elements × Str)) (r : Str)
      → value_at items ((b'n' ∷ b'u' ∷ b'l' ∷ b'l' ∷ []) ++ r) ≡ some (null, r)
  unfolding value_at expect_all
  null-back items r = refl

  mutual
    unfolding IsNamed json_of size_of print_value

    value-back : (v : Value) → IsNamed v → ValueBack ind v
    value-back unspec k n level r fuel e = null-back (read_items n) r
    value-back (int8 b) k n level r fuel e = truth-value_at ind (read_items n) b r
    value-back (int16 w) k n level r fuel e = decimal-value_at ind (read_items n) w r e
    value-back (int32 w) k n level r fuel e = signed-value_at ind (read_items n) 2147483648 w r e
    value-back (int64 w) k n level r fuel e =
        signed-value_at ind (read_items n) 9223372036854775808 w r e
    value-back (string s) k n level r fuel e = string-value_at ind (read_items n) s r
    value-back (array fs) k n level r fuel e =
        list-Back true fs n level r k (fields-Back true fs k) (omega (arith, fuel))
    value-back (table fs) k n level r fuel e =
        list-Back false fs n level r k (fields-Back false fs k) (omega (arith, fuel))

    fields-Back : (is_array : Bool) (fs : Fields) → AreNamed is_array fs → Back ind is_array fs
    fields-Back is_array end k = tt
    fields-Back is_array (item refused tl) k = tt
    fields-Back is_array (item (field m v) tl) k =
        item-Back ind is_array m v tl k (value-back v k.1) (fields-Back is_array tl k.2)

  print_json-read :
      (is_array : Bool) (fs : Fields) (level : ℕ)
      → AreNamed is_array fs
      → read_value
          (suc (size_of_fields fs))
          (brackets none_custom ind is_array level (items_text ind (suc level) is_array true fs))
        ≡ some (made is_array (elements_of is_array fs), [])
  unfolding read_value
  print_json-read is_array fs level k =
      let whole =
        brackets none_custom ind is_array level (items_text ind (suc level) is_array true fs) in
      let at_once : skip whole ≡ whole ++ [] =
        begins is_array level (items_text ind (suc level) is_array true fs)
        ∙ sym (append-nil whole) in
      ap (value_at (read_items (size_of_fields fs))) at_once
      ∙ list-Back is_array fs (size_of_fields fs) level [] k (fields-Back is_array fs k)
          (omega arith)
    where
      begins :
          (is_array : Bool) (level : ℕ) (inner : Str)
          → skip (brackets none_custom ind is_array level inner)
            ≡ brackets none_custom ind is_array level inner
      begins true level inner = skip-here 91 _ refl
      begins false level inner = skip-here 123 _ refl

-- Where no allocation fails, the text that `blobmsg_format_json_with_cb` gives for the attributes in the data of an
-- attribute, without a callback and indented or not, is JSON that reads back as those attributes: the array of
-- their values, or the object of their names and values. The attributes are accepted, and the fields of tables
-- have names; a number reads back as itself, as a signed one where its type is int32 or int64.
pub format_json_with_cb-read :
    (alloc : ℕ → Bool) (w : ℕ) (f : Field) (fs : Fields) (indent : Option ℕ)
    → ((n : ℕ) → alloc n ≡ true)
    → 0 < blob_len w
    → AreNamed (is_array w) fs
    → Yields
        (Yields (λ text.
          read_value (suc (size_of_fields fs)) text
          ≡ some (made (is_array w) (elements_of (is_array w) fs), [])))
        (format_json_with_cb alloc none_custom w f fs true indent)
unfolding print_json
format_json_with_cb-read alloc w f fs indent enough some_data k =
    rw (format_json_with_cb-print alloc none_custom w f fs true indent enough some_data)
      (print_json-read (is_indented indent) (is_array w) fs (first_level indent) k)

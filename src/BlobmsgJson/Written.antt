-- ===== src/BlobmsgJson/Written.antt =====
-- What blobmsg_json.c writes for a field.
use libubox.Base.{
  ℕ, suc, ◌+◌, ◌<◌, ◌≡◌, inl, inr, refl, ap, Bool, true, false, not, Option, none, some, [], ◌∷◌,
  ◌++◌, append-nil, append_assoc, arith, ◌==◌, if◌then◌else◌, Yields, Bool-cases, Option-cases,
  ◌>>=◌, length,
}
use libubox.Blob.{blob_len}
use libubox.BlobmsgJson.{Str, Strbuf, puts}
use libubox.BlobmsgJson.Format.{
  Field, field, refused, Value, unspec, int8, int16, int32, int64, string, array, table, Fields,
  end, item, Custom, format_name, format_comma, format_element, format_value, list_loop,
  format_json_list, finish, is_indented, first_level, is_array, format_json_with_cb,
}
use libubox.BlobmsgJson.Print.{
  separator, print_name, brackets, print_field, print_value, print_items, print_json,
}
use libubox.BlobmsgJson.Buffer.{Holds, retext, and_then, puts-Holds, format_string-Holds}
use libubox.BlobmsgJson.Lists.{format_name-Holds, format_comma-Holds, list-Holds}

module _ (alloc : ℕ → Bool) (enough : (n : ℕ) → alloc n ≡ true) (ind : Bool) where
  module _ (custom : Custom) where
    mutual
      unfolding format_element print_field

      format_element-Holds :
          (is_array : Bool) (f : Field) (level : ℕ) (text : Str) (s : Strbuf)
          → Holds ind level text s
          → Yields
              (Holds ind level (text ++ print_field custom ind level is_array f))
              (format_element alloc custom is_array f s)
      format_element-Holds is_array refused level text s h =
          retext ind level text (text ++ []) (some s) (rw append-nil refl) h
      format_element-Holds is_array (field name v) level text s h =
          let t1 = text ++ print_name custom ind is_array name in
          let body : Str = elim (custom (field name v)) [
            | some str ↦ str
            | none ↦ print_value custom ind level v
          ] in
          retext ind level (t1 ++ body)
            (text ++ print_field custom ind level is_array (field name v))
            (format_element alloc custom is_array (field name v) s) (simp append_assoc)
            (and_then alloc enough ind level t1 level (t1 ++ body)
              (format_name alloc is_array name s)
              (λ s1. elim (custom (field name v)) [
                | some str ↦ puts alloc s1 str
                | none ↦ format_value alloc custom v s1
              ])
              (format_name-Holds alloc enough ind custom level text is_array name s h)
              (λ s1 h1. elim (Option-cases (custom (field name v))) [
                | inl plain ↦ rw plain (format_value-Holds v level t1 s1 h1)
                | inr (str, special) ↦ rw special (puts-Holds alloc enough ind level t1 s1 str h1)
              ]))

      format_value-Holds :
          (v : Value) (level : ℕ) (text : Str) (s : Strbuf)
          → Holds ind level text s
          → Yields
              (Holds ind level (text ++ print_value custom ind level v))
              (format_value alloc custom v s)
      format_value-Holds (string str) level text s h =
          format_string-Holds alloc enough ind level text str s h
      format_value-Holds (array fs) level text s h =
          list-Holds alloc enough ind custom level text true
            (print_items custom ind (suc level) true true fs) (list_loop alloc custom true true fs)
            s (λ t s1 h1. list_loop-Holds true true fs (suc level) t s1 h1) h
      format_value-Holds (table fs) level text s h =
          list-Holds alloc enough ind custom level text false
            (print_items custom ind (suc level) false true fs)
            (list_loop alloc custom false true fs) s
            (λ t s1 h1. list_loop-Holds false true fs (suc level) t s1 h1) h
      format_value-Holds unspec level text s h = puts-Holds alloc enough ind level text s _ h
      format_value-Holds (int8 b) level text s h = puts-Holds alloc enough ind level text s _ h
      format_value-Holds (int16 w) level text s h = puts-Holds alloc enough ind level text s _ h
      format_value-Holds (int32 w) level text s h = puts-Holds alloc enough ind level text s _ h
      format_value-Holds (int64 w) level text s h = puts-Holds alloc enough ind level text s _ h

      list_loop-Holds :
          (is_array first : Bool) (fs : Fields) (level : ℕ) (text : Str) (s : Strbuf)
          → Holds ind level text s
          → Yields
              (Holds ind level (text ++ print_items custom ind level is_array first fs))
              (list_loop alloc custom is_array first fs s)
      list_loop-Holds is_array first end level text s h =
          retext ind level text (text ++ []) (some s) (rw append-nil refl) h
      list_loop-Holds is_array first (item f r) level text s h =
          let t1 = text ++ (if first then [] else 44 ∷ separator ind level) in
          let t2 = t1 ++ print_field custom ind level is_array f in
          let t3 = t2 ++ print_items custom ind level is_array false r in
          retext ind level t3 (text ++ print_items custom ind level is_array first (item f r))
            (list_loop alloc custom is_array first (item f r) s) (simp append_assoc)
            (and_then alloc enough ind level t1 level t3 (format_comma alloc first s)
              (λ s1. format_element alloc custom is_array f s1 >>= λ s2.
                list_loop alloc custom is_array false r s2)
              (format_comma-Holds alloc enough ind level text first s h)
              (λ s1 h1.
                and_then alloc enough ind level t2 level t3
                  (format_element alloc custom is_array f s1)
                  (λ s2. list_loop alloc custom is_array false r s2)
                  (format_element-Holds is_array f level t1 s1 h1)
                  (λ s2 h2. list_loop-Holds is_array false r level t2 s2 h2)))

  finish-Holds :
      (level : ℕ) (text : Str) (o : Option Strbuf)
      → Yields (Holds ind level text) o
      → (o >>= λ s. finish alloc s) ≡ some (some text)
  unfolding finish
  finish-Holds level text none y = absurd y
  finish-Holds level text (some s) h =
      let some_room : (s.len == 0) ≡ false = ground (arith, h.some_room) in
      simp (finish, some_room, enough (length s.text + 1)) (ap (λ t. some (some t)) h.written)

module _ (alloc : ℕ → Bool) (custom : Custom) where
  -- Where no allocation fails, `blobmsg_format_json_with_cb` of an attribute with some data writes nothing outside
  -- of its buffer or through NULL, and gives the text that is printed without one: that of the attribute, or of the
  -- list of the attributes in its data.
  pub format_json_with_cb-print :
      (w : ℕ) (f : Field) (fs : Fields) (list : Bool) (indent : Option ℕ)
      → ((n : ℕ) → alloc n ≡ true)
      → 0 < blob_len w
      → format_json_with_cb alloc custom w f fs list indent
        ≡ some (some (print_json custom (is_array w) f fs list indent))
  unfolding format_json_with_cb print_json
  format_json_with_cb-print w f fs list indent enough some_data =
      let ind = is_indented indent in
      let level = first_level indent in
      let start : Strbuf = record {
        len = blob_len w;
        null = not (alloc (blob_len w));
        text = [];
        indent = ind;
        indent_level = level;
      } in
      let h : Holds ind level [] start = record {
        room = omega arith;
        some_room = some_data;
        live = rw (enough (blob_len w)) refl;
        written = refl;
        indented = refl;
        leveled = refl;
      } in
      elim (Bool-cases list) [
        | inl whole ↦ rw whole (
            finish-Holds alloc enough ind level
              (brackets custom ind (is_array w) level
                (print_items custom ind (suc level) (is_array w) true fs))
              (format_json_list alloc custom (is_array w) fs start)
              (list-Holds alloc enough ind custom level [] (is_array w)
                (print_items custom ind (suc level) (is_array w) true fs)
                (list_loop alloc custom (is_array w) true fs) start
                (λ t s h'.
                  list_loop-Holds alloc enough ind custom (is_array w) true fs (suc level) t s h')
                h))
        | inr one ↦ rw one (
            finish-Holds alloc enough ind level (print_field custom ind level false f)
              (format_element alloc custom false f start)
              (format_element-Holds alloc enough ind custom false f level [] start h))
      ]

-- ===== src/BlobmsgJson/Print.antt =====
-- The text of fields, without the buffer (blobmsg_json.c).
use libubox.Base.{
  ℕ, suc, Bool, true, false, ◌||◌, Option, none, some, [], ◌∷◌, ◌++◌, ◌==◌, if◌then◌else◌, length,
  replicate, min,
}
use libubox.BlobmsgJson.{Str, escape, escaped}
use libubox.BlobmsgJson.Format.{
  Field, field, refused, Value, unspec, int8, int16, int32, int64, string, array, table, Fields,
  end, item, decimal, signed, truth, Custom, is_indented, first_level,
}

-- The characters of a string between the quotes.
unfoldable pub quoted : Str → Str
quoted [] = []
quoted (c ∷ r) = (elim (escape c) [ none ↦ c ∷ [] | some e ↦ escaped e c ]) ++ quoted r

abbrev pub print_string : Str → Str
print_string str = 34 ∷ (quoted str ++ (34 ∷ []))

-- A line break and a tab for each level, 16 at most, where the text is indented.
abbrev pub separator : Bool → ℕ → Str
separator ind level = if ind then 10 ∷ replicate (min 16 level) 9 else []

module _ (custom : Custom) (ind : Bool) where
  abbrev pub print_name : Bool → Str → Str
  print_name is_array name =
      if is_array || length name == 0
      then []
      else print_string name ++ (if ind then 58 ∷ 32 ∷ [] else 58 ∷ [])

  -- A list with the text of its elements.
  abbrev pub brackets : Bool → ℕ → Str → Str
  brackets is_array level inner =
      ((if is_array then 91 else 123) ∷ separator ind (suc level))
      ++ (inner ++ (separator ind level ++ ((if is_array then 93 else 125) ∷ [])))

  unfoldable mutual
    pub print_field : ℕ → Bool → Field → Str
    print_field level is_array refused = []
    print_field level is_array (field name v) =
        print_name is_array name
        ++ (elim (custom (field name v)) [ some str ↦ str | none ↦ print_value level v ])

    pub print_value : ℕ → Value → Str
    print_value level (string str) = print_string str
    print_value level (array fs) = brackets true level (print_items (suc level) true true fs)
    print_value level (table fs) = brackets false level (print_items (suc level) false true fs)
    print_value level unspec = b'n' ∷ b'u' ∷ b'l' ∷ b'l' ∷ []
    print_value level (int8 b) = truth b
    print_value level (int16 w) = decimal w
    print_value level (int32 w) = signed 2147483648 w
    print_value level (int64 w) = signed 9223372036854775808 w

    pub print_items : ℕ → Bool → Bool → Fields → Str
    print_items level is_array first end = []
    print_items level is_array first (item f r) =
        (if first then [] else 44 ∷ separator ind level)
        ++ (print_field level is_array f ++ print_items level is_array false r)

-- An attribute, or the list of the attributes in its data.
unfoldable pub print_json : Custom → Bool → Field → Fields → Bool → Option ℕ → Str
print_json custom is_array f fs list indent =
    let ind = is_indented indent in
    let level = first_level indent in
    if list
    then brackets custom ind is_array level (print_items custom ind (suc level) is_array true fs)
    else print_field custom ind level false f

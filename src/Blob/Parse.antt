-- ===== src/Blob/Parse.antt =====
-- `blob_parse` and `blob_check_type` (blob.c): the table of the attributes by their id.
pub mod Checks
pub mod Table
pub mod Short
use libubox.Base.{
  ℕ, ◌+◌, ◌-◌, Bool, true, false, not, ◌&&◌, ◌||◌, Option, none, some, List, [], ◌∷◌, ltb, leb,
  ◌==◌, if◌then◌else◌, get_elem?,
}
use libubox.Blob.{id_len, blob_data, blob_id, blob_len}
use libubox.Blob.Iterate.{for_each_attr}

-- The types that the parser tells apart: BLOB_ATTR_STRING to BLOB_ATTR_INT64, and BLOB_ATTR_LAST.
abbrev pub attr_string : ℕ
attr_string = 3

abbrev pub attr_int8 : ℕ
attr_int8 = 4

abbrev pub attr_int64 : ℕ
attr_int64 = 7

abbrev pub attr_last : ℕ
attr_last = 8

-- `blob_type_minlen`.
abbrev pub type_minlen : ℕ → ℕ
type_minlen type =
    if type == 3 || type == 4
    then 1
    else if type == 5
    then 2
    else if type == 6
    then 4
    else if type == 7
    then 8
    else 0

-- The test of the length in `blob_check_type`.
unfoldable pub check_len : ℕ → ℕ → Bool
check_len len type =
    if leb attr_int8 type && leb type attr_int64
    then len == type_minlen type
    else leb (type_minlen type) len

-- `blob_check_type`; `none` is a read past the end of the memory.
unfoldable pub blob_check_type : List ℕ → ℕ → ℕ → Option Bool
blob_check_type bytes len type =
    if leb attr_last type
    then some false
    else if not (check_len len type)
    then some false
    else if type == attr_string
    then (elim (get_elem? bytes (len - 1)) [ none ↦ none | some c ↦ some (c == 0) ])
    else some true

-- `struct blob_attr_info`.
pub record AttrInfo : Type 0 where
  pub type : ℕ
  pub minlen : ℕ
  pub maxlen : ℕ
  pub validate : Option (List ℕ → Bool)

-- The tests of `blob_parse` after that of the type.
abbrev pub check_limits : AttrInfo → List ℕ → ℕ → Bool
check_limits info cur len =
    if not (info.minlen == 0) && ltb len info.minlen
    then false
    else if not (info.maxlen == 0) && ltb info.maxlen len
    then false
    else elim info.validate [ none ↦ true | some validate ↦ validate cur ]

-- Whether `blob_parse` takes the attribute `cur` of length `len`, from its entry of `info`.
unfoldable pub accept : AttrInfo → List ℕ → ℕ → Option Bool
accept info cur len =
    if ltb info.type attr_last
    then (elim (blob_check_type (blob_data cur) len info.type) [
      | none ↦ none
      | some ok ↦ some (if ok then check_limits info cur len else false)
    ])
    else some (check_limits info cur len)

-- The same, where `info` may be NULL.
unfoldable pub accept_for : Option (ℕ → AttrInfo) → ℕ → List ℕ → ℕ → Option Bool
accept_for none id cur len = some true
accept_for (some info) id cur len = accept (info id) cur len

-- The table `data` that the caller gives: the attribute of each id, or NULL.
abbrev pub Entries : Type 0
Entries = ℕ → Option (List ℕ)

abbrev pub is_null : Option (List ℕ) → ℕ
is_null none = 1
is_null (some p) = 0

-- The loop of `blob_parse` over the attributes, with `found`.
unfoldable pub parse_loop :
    Option (ℕ → AttrInfo) → ℕ → List (List ℕ) → Entries → ℕ → Option (Entries × ℕ)
parse_loop info max [] tb found = some (tb, found)
parse_loop info max (cur ∷ r) tb found = elim (id_len cur) [
  | none ↦ none
  | some w ↦
      let id = blob_id w in
      elim (leb max id) [
        | true ↦ parse_loop info max r tb found
        | false ↦ elim (accept_for info id cur (blob_len w)) [
          | none ↦ none
          | some false ↦ parse_loop info max r tb found
          | some true ↦
              parse_loop info max r (λ i. if i == id then some cur else tb i)
                (found + is_null (tb id))
        ]
      ]
]

-- `blob_parse` of an attribute that is not NULL: the table and the number of entries found.
unfoldable pub blob_parse : List ℕ → Entries → Option (ℕ → AttrInfo) → ℕ → Option (Entries × ℕ)
unfolding parse_loop
blob_parse attr tb info max = elim (for_each_attr attr) [
  | none ↦ none
  | some l ↦ parse_loop info max l (λ i. if ltb i max then none else tb i) 0
]

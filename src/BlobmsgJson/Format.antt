-- ===== src/BlobmsgJson/Format.antt =====
-- The fields of blobmsg_json.c as text.
use libubox.Base.{
  ℕ, zero, suc, ◌+◌, ◌-◌, ◌*◌, ◌/◌, ◌%◌, Bool, true, false, not, ◌&&◌, ◌||◌, Option, none, some, [],
  ◌∷◌, ◌++◌, ltb, ◌==◌, if◌then◌else◌, ◌>>=◌, length,
}
use libubox.Blob.{blob_id, blob_is_extended, blob_len}
use libubox.Blobmsg.{type_array}
use libubox.BlobmsgJson.{Str, Strbuf, puts, add_separator, format_string}

-- An attribute that is iterated over: a field with its name and value, or one that `blobmsg_check_attr` refuses.
-- A number is the one that its bytes are in big-endian order.
mutual
  pub data Field : Type 0 where
    field : Str → Value → Field
    refused : Field

  pub data Value : Type 0 where
    unspec : Value
    int8 : ℕ → Value
    int16 : ℕ → Value
    int32 : ℕ → Value
    int64 : ℕ → Value
    string : Str → Value
    array : Fields → Value
    table : Fields → Value

  pub data Fields : Type 0 where
    end : Fields
    item : Field → Fields → Fields

-- The digits of "%d" on fuel, of which more than the number is enough.
unfoldable pub digits : ℕ → ℕ → Str
digits zero n = []
digits (suc k) n = if ltb n 10 then (48 + n) ∷ [] else digits k (n / 10) ++ ((48 + n % 10) ∷ [])

unfoldable pub decimal : ℕ → Str
decimal n = digits (suc n) n

-- A number that is cast to a signed type of `2 * half` values.
abbrev pub signed : ℕ → ℕ → Str
signed half n = if ltb n half then decimal n else 45 ∷ decimal (2 * half - n)

abbrev pub truth : ℕ → Str
truth b = if b == 0 then b'f' ∷ b'a' ∷ b'l' ∷ b's' ∷ b'e' ∷ [] else b't' ∷ b'r' ∷ b'u' ∷ b'e' ∷ []

module _ (alloc : ℕ → Bool) where
  -- The name of a field.
  unfoldable pub format_name : Bool → Str → Strbuf → Option Strbuf
  format_name is_array name s =
      if is_array || length name == 0
      then some s
      else format_string alloc name s >>= λ s1.
          puts alloc s1 (if s1.indent then 58 ∷ 32 ∷ [] else 58 ∷ [])

  -- What comes before an attribute of a list.
  unfoldable pub format_comma : Bool → Strbuf → Option Strbuf
  format_comma true s = some s
  format_comma false s = puts alloc s (44 ∷ []) >>= λ s1. add_separator alloc s1

  unfoldable pub open_list : Bool → Strbuf → Option Strbuf
  open_list is_array s = puts alloc s ((if is_array then 91 else 123) ∷ []) >>= λ s1.
      add_separator alloc (record s1 { indent_level = suc s1.indent_level })

  unfoldable pub close_list : Bool → Strbuf → Option Strbuf
  close_list is_array s =
      add_separator alloc (record s { indent_level = s.indent_level - 1 }) >>= λ s1.
      puts alloc s1 ((if is_array then 93 else 125) ∷ [])

  -- The end of `blobmsg_format_json_with_cb`.
  unfoldable pub finish : Strbuf → Option (Option Str)
  finish s =
      if s.len == 0
      then some none
      else if alloc (length s.text + 1)
      then some (some s.text)
      else none

-- The argument `indent`, where `none` is a negative one.
abbrev pub is_indented : Option ℕ → Bool
is_indented none = false
is_indented (some _) = true

abbrev pub first_level : Option ℕ → ℕ
first_level none = 0
first_level (some level) = level

-- The variable `array`, from the header of an attribute.
abbrev pub is_array : ℕ → Bool
is_array w = blob_is_extended w && blob_id w == type_array

-- The callback `custom_format`, `none` also where it is NULL.
abbrev pub Custom : Type 0
Custom = Field → Option Str

module _ (alloc : ℕ → Bool) (custom : Custom) where
  -- `blobmsg_format_element`, which is never called with `head`, and from its `switch` on; the loop of
  -- `blobmsg_format_json_list`, with `first`.
  unfoldable mutual
    pub format_element : Bool → Field → Strbuf → Option Strbuf
    format_element is_array refused s = some s
    format_element is_array (field name v) s = format_name alloc is_array name s >>= λ s1.
        elim (custom (field name v)) [ some str ↦ puts alloc s1 str | none ↦ format_value v s1 ]

    pub format_value : Value → Strbuf → Option Strbuf
    format_value (string str) s = format_string alloc str s
    format_value (array fs) s = open_list alloc true s >>= λ s1.
        list_loop true true fs s1 >>= λ s2. close_list alloc true s2
    format_value (table fs) s = open_list alloc false s >>= λ s1.
        list_loop false true fs s1 >>= λ s2. close_list alloc false s2
    format_value unspec s = puts alloc s (b'n' ∷ b'u' ∷ b'l' ∷ b'l' ∷ [])
    format_value (int8 b) s = puts alloc s (truth b)
    format_value (int16 w) s = puts alloc s (decimal w)
    format_value (int32 w) s = puts alloc s (signed 2147483648 w)
    format_value (int64 w) s = puts alloc s (signed 9223372036854775808 w)

    pub list_loop : Bool → Bool → Fields → Strbuf → Option Strbuf
    list_loop is_array first end s = some s
    list_loop is_array first (item f r) s = format_comma alloc first s >>= λ s1.
        format_element is_array f s1 >>= λ s2. list_loop is_array false r s2

  -- `blobmsg_format_json_list`.
  abbrev pub format_json_list : Bool → Fields → Strbuf → Option Strbuf
  format_json_list is_array fs s = open_list alloc is_array s >>= λ s1.
      list_loop is_array true fs s1 >>= λ s2. close_list alloc is_array s2

  -- `blobmsg_format_json_with_cb` of an attribute: its header, the attribute as a field, and the attributes in its
  -- data.
  unfoldable pub format_json_with_cb : ℕ → Field → Fields → Bool → Option ℕ → Option (Option Str)
  format_json_with_cb w f fs list indent =
      let s : Strbuf = record {
        len = blob_len w;
        null = not (alloc (blob_len w));
        text = [];
        indent = is_indented indent;
        indent_level = first_level indent;
      } in
      (if list then format_json_list (is_array w) fs s else format_element false f s) >>= λ s1.
      finish alloc s1

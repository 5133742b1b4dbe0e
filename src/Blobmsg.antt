-- ===== src/Blobmsg.antt =====
-- blobmsg.c and blobmsg.h, attributes with a name and a type: their header, the check of one attribute,
-- and the check and the parsing of tables and arrays.
pub mod Payload
pub mod Check
pub mod Parse
mod Tests
use libubox.Base.{
  ℕ, ◌+◌, ◌-◌, ◌*◌, ◌/◌, ◌%◌, Bool, true, false, not, ◌&&◌, ◌||◌, Option, none, some, List, [], ◌∷◌,
  ltb, ◌==◌, if◌then◌else◌, ◌>>=◌, get_elem?, drop,
}
use libubox.Base.Int.{pos, negsuc}
use libubox.Blob.{id_len, blob_data, blob_id, blob_is_extended, blob_len, to_int}
use libubox.Blob.Iterate.{for_each}
use libubox.Blob.Parse.{blob_check_type}

-- `enum blobmsg_type`, as far as the code names its members.
abbrev pub type_unspec : ℕ
type_unspec = 0

abbrev pub type_array : ℕ
type_array = 1

abbrev pub type_table : ℕ
type_table = 2

abbrev pub type_last : ℕ
type_last = 7

-- The table `blob_type`: 2 is BLOB_ATTR_BINARY, 3 BLOB_ATTR_STRING, and 4 to 7 the integers.
abbrev pub blob_type : ℕ → ℕ
blob_type id =
    if id == 0
    then 2
    else if id == 3
    then 3
    else if id == 4
    then 7
    else if id == 5
    then 6
    else if id == 6
    then 5
    else if id == 7
    then 4
    else 0

-- `blobmsg_namelen` of the header behind `blob_data`: 16 bits, big-endian.
unfoldable pub blobmsg_namelen : List ℕ → Option ℕ
blobmsg_namelen (a ∷ b ∷ _) = some (a * 256 + b)
blobmsg_namelen _ = none

-- `blobmsg_hdrlen`: the header, the name and its NUL, rounded up to a multiple of 4.
abbrev pub blobmsg_hdrlen : ℕ → ℕ
blobmsg_hdrlen namelen = (2 + namelen + 1 + 3) / 4 * 4

-- How far `blobmsg_data` lies behind `blob_data`.
unfoldable pub data_offset : List ℕ → ℕ → Option ℕ
data_offset attr w =
    if blob_is_extended w
    then (do namelen ← blobmsg_namelen (blob_data attr); some (blobmsg_hdrlen namelen))
    else some 0

-- `blobmsg_data_len`, in 32 bits.
abbrev pub blobmsg_data_len : ℕ → ℕ → ℕ
blobmsg_data_len w offset = (blob_len w + 4294967296 - offset) % 4294967296

-- The tests of the type and the payload at the end of `blobmsg_check_attr`.
unfoldable pub check_typed : ℕ → List ℕ → ℕ → Option Bool
check_typed id bytes len =
    if ltb type_last id
    then some false
    else if blob_type id == 0
    then some true
    else blob_check_type bytes len (blob_type id)

-- The end of `blobmsg_check_attr`, from the test of the id on.
unfoldable pub check_payload : List ℕ → ℕ → Option Bool
check_payload attr w = do
  offset ← data_offset attr w
  check_typed (blob_id w) (drop offset (blob_data attr)) (blobmsg_data_len w offset)

-- The tests of the name in `blobmsg_check_attr`.
unfoldable pub check_name : List ℕ → ℕ → ℕ → Bool → Option Bool
check_name attr w namelen name =
    if namelen == 0 && name
    then some false
    else if ltb (blob_len w - 2) namelen
    then some false
    else (do
      c ← get_elem? (blob_data attr) (2 + namelen)
      (if c == 0 then check_payload attr w else some false))

-- `blobmsg_check_attr`; `none` is a read past the end of the memory.
unfoldable pub blobmsg_check_attr : List ℕ → Bool → Option Bool
blobmsg_check_attr attr name = do
  w ← id_len attr
  (if ltb (blob_len w) 2
      then some false
      else (do namelen ← blobmsg_namelen (blob_data attr); check_name attr w namelen name))

-- The loop of `blobmsg_check_array`: the number of attributes, or `none` for -1.
pub check_loop : ℕ → Bool → List (List ℕ) → Option (Option ℕ)
check_loop type name [] = some (some 0)
check_loop type name (cur ∷ r) = do
  w ← id_len cur
  (if not (type == type_unspec) && not (blob_id w == type) then some none else (do
    ok ← blobmsg_check_attr cur name
    (if ok
        then (do
          size ← check_loop type name r
          some (elim size [ none ↦ none | some n ↦ some (n + 1) ]))
        else some none)))

-- `blobmsg_for_each_attr`, on more rounds than bytes: the attributes visited.
unfoldable pub blobmsg_for_each : List ℕ → ℕ → Option (List (List ℕ))
blobmsg_for_each attr w = do
  offset ← data_offset attr w
  (elim (to_int (blobmsg_data_len w offset)) [
    | pos rem ↦ for_each (rem + 1) (drop offset (blob_data attr)) rem
    | negsuc _ ↦ some []
  ])

-- `blobmsg_check_array`. The headers of the elements are read first, where the source reads each
-- before it checks the element.
unfoldable pub blobmsg_check_array : List ℕ → ℕ → Option (Option ℕ)
unfolding check_loop
blobmsg_check_array attr type = do
  w ← id_len attr
  (if blob_id w == type_table || blob_id w == type_array
      then (do l ← blobmsg_for_each attr w; check_loop type (blob_id w == type_table) l)
      else some none)

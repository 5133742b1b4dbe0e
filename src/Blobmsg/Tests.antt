-- ===== src/Blobmsg/Tests.antt =====
-- The theorems about fields at concrete bytes, and runs of the model.
use libubox.Base.{ℕ, ◌≡◌, refl, true, false, none, some, List, [], ◌∷◌, arith, take, drop}
use libubox.Blob.{id_len, blob_data, blob_pad_len}
use libubox.Blob.Iterate.{for_each}
use libubox.Blob.Parse.{check_len, blob_check_type}
use libubox.Blobmsg.{
  type_unspec, blobmsg_namelen, data_offset, check_typed, check_payload, check_name,
  blobmsg_check_attr,
}
use libubox.Blobmsg.Check.{padded_name-overread}
use libubox.Blobmsg.Parse.{
  Policy, str_eq, match_name, match_policy, match_loop, fields_loop, blobmsg_parse,
}

-- The string "x" under the name "a", the number 7 in 32 bits under the name "n".
abbrev fields : List ℕ
fields =
    131 ∷ 0 ∷ 0 ∷ 10 ∷ 0 ∷ 1 ∷ 97 ∷ 0 ∷ 120 ∷ 0 ∷ 0 ∷ 0 ∷ 133 ∷ 0 ∷ 0 ∷ 12 ∷ 0 ∷ 1 ∷ 110 ∷ 0 ∷ 0 ∷ 0
    ∷ 0 ∷ 7 ∷ []

-- They as a table.
abbrev table : List ℕ
table = 2 ∷ 0 ∷ 0 ∷ 28 ∷ fields

-- The string under "a".
abbrev wants_a : Policy
wants_a = record { name = some (97 ∷ []); type = 3 }

-- Anything under "n".
abbrev wants_n : Policy
wants_n = record { name = some (110 ∷ []); type = type_unspec }

string_accepted : blobmsg_check_attr fields true ≡ some true
unfolding id_len blobmsg_namelen data_offset check_typed check_payload check_name blobmsg_check_attr
    blob_check_type check_len
string_accepted = refl

-- Each policy takes the first field that it asks for.
parse_runs :
    blobmsg_parse (wants_n ∷ wants_a ∷ wants_a ∷ []) fields 24
    ≡ some (some (some (drop 12 fields) ∷ some fields ∷ some fields ∷ []))
unfolding id_len blob_pad_len for_each blobmsg_namelen data_offset check_typed check_payload
    check_name blobmsg_check_attr blob_check_type check_len str_eq match_name match_policy
    match_loop fields_loop blobmsg_parse
parse_runs = refl

-- The last field of a message that the memory ends with.
number_accepted : blobmsg_check_attr (take 12 (drop 12 fields)) true ≡ some true
unfolding id_len blobmsg_namelen data_offset check_typed check_payload check_name blobmsg_check_attr
    blob_check_type check_len
number_accepted = refl

-- The name "ab" reaches up to the end of the memory.
unended_name : blobmsg_check_attr (3 ∷ 0 ∷ 0 ∷ 8 ∷ 0 ∷ 2 ∷ 97 ∷ 98 ∷ []) true ≡ none
unfolding id_len blobmsg_namelen check_name blobmsg_check_attr
unended_name = refl

-- The string under "ab" whose length leaves no room for the padding of the name.
abbrev unpadded : List ℕ
unpadded = 131 ∷ 0 ∷ 0 ∷ 9 ∷ 0 ∷ 2 ∷ 97 ∷ 98 ∷ 0 ∷ 0 ∷ 0 ∷ 0 ∷ []

unpadded_header : id_len unpadded ≡ some 2197815305
unfolding id_len
unpadded_header = refl

unpadded_name : blobmsg_namelen (blob_data unpadded) ≡ some 2
unfolding blobmsg_namelen
unpadded_name = refl

padded_name-overread_example : blobmsg_check_attr unpadded false ≡ none
padded_name-overread_example =
    padded_name-overread unpadded 2197815305 2 unpadded_header (omega arith) refl refl unpadded_name
      (omega arith) (omega arith) refl (omega arith)

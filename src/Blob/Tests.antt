-- ===== src/Blob/Tests.antt =====
-- The theorems about attributes at concrete bytes, and runs of the model.
use libubox.Base.{
  ℕ, ◌-◌, ◌%◌, ◌≤◌, ◌≡◌, refl, Option, none, some, List, [], ◌∷◌, arith, Yields, length, drop, All,
}
use libubox.Blob.{id_len, blob_data, blob_pad_len}
use libubox.Blob.Iterate.{for_each, for_each_attr, Inside, for_each_attr-Inside}
use libubox.Blob.Parse.{
  attr_string, check_len, blob_check_type, AttrInfo, accept, accept_for, parse_loop, blob_parse,
}
use libubox.Blob.Parse.Table.{Sized, ParseOf, blob_parse-ParseOf}
use libubox.Blob.Parse.Short.{first_of, blob_parse_overread}

-- The string "a" with id 1, and the number 7 in 32 bits with id 2, in an attribute of id 0.
abbrev message : List ℕ
message = 0 ∷ 0 ∷ 0 ∷ 20 ∷ 1 ∷ 0 ∷ 0 ∷ 6 ∷ 97 ∷ 0 ∷ 0 ∷ 0 ∷ 2 ∷ 0 ∷ 0 ∷ 8 ∷ 0 ∷ 0 ∷ 0 ∷ 7 ∷ []

-- Strings are asked for, of a byte at most two.
abbrev strings : ℕ → AttrInfo
strings i = record { type = attr_string; minlen = 0; maxlen = 2; validate = none }

abbrev empty : ℕ → Option (List ℕ)
empty i = none

header_20 : id_len message ≡ some 20
unfolding id_len
header_20 = refl

fits : blob_pad_len 20 ≤ length message
unfolding blob_pad_len
fits = omega arith

visits_two : Yields (λ l. l ≡ drop 4 message ∷ drop 12 message ∷ []) (for_each_attr message)
unfolding id_len blob_pad_len for_each for_each_attr
visits_two = refl

nested_lengths : Yields (All Sized) (for_each_attr message)
unfolding id_len blob_pad_len for_each for_each_attr
nested_lengths = (
  record { word = 16777222; header = refl; sized = omega arith },
  (record { word = 33554440; header = refl; sized = omega arith }, tt),
)

-- The string is taken, and the number is not.
one_found :
    Yields (λ res. (res.1 ≡ 1) × (res.0 2 ≡ none)) (blob_parse message empty (some strings) 3)
unfolding id_len blob_pad_len for_each for_each_attr blob_parse parse_loop accept_for accept
    blob_check_type check_len
one_found = (refl, refl)

for_each_attr-Inside_example :
    Yields (All (Inside (blob_data message) (20 % 16777216 - 4))) (for_each_attr message)
for_each_attr-Inside_example = for_each_attr-Inside message 20 header_20 fits

blob_parse-ParseOf_example : ParseOf message empty (some strings) 3
blob_parse-ParseOf_example =
    blob_parse-ParseOf message 20 empty (some strings) 3 header_20 fits nested_lengths

-- An attribute of id 0 whose only nested attribute says that it is two bytes long.
abbrev short : List ℕ
short = 0 ∷ 0 ∷ 0 ∷ 8 ∷ 1 ∷ 0 ∷ 0 ∷ 2 ∷ []

header_short : id_len short ≡ some 8
unfolding id_len
header_short = refl

fits_short : blob_pad_len 8 ≤ length short
unfolding blob_pad_len
fits_short = omega arith

nested_short : id_len (blob_data short) ≡ some 16777218
unfolding id_len
nested_short = refl

blob_parse_overread_example :
    Yields (λ l. first_of l ≡ some (blob_data short)) (for_each_attr short)
    × (blob_parse short empty (some strings) 3 ≡ none)
blob_parse_overread_example =
    blob_parse_overread short 8 16777218 empty strings 3 header_short fits_short (omega arith)
      (omega arith) nested_short (omega arith) (omega arith) (omega arith) refl

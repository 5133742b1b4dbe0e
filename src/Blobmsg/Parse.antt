-- ===== src/Blobmsg/Parse.antt =====
-- `blobmsg_parse` (blobmsg.c): the table of the fields that a policy names.
pub mod Rounds
pub mod Fields
pub mod Table
use libubox.Base.{
  ℕ, ◌+◌, ◌%◌, Bool, true, false, not, ◌&&◌, Option, none, some, List, [], ◌∷◌, ◌==◌, if◌then◌else◌,
  ◌>>=◌, length, drop, replicate,
}
use libubox.Blob.{id_len, blob_data, blob_id}
use libubox.Blob.Iterate.{for_each}
use libubox.Blobmsg.{type_unspec, blobmsg_namelen, blobmsg_check_attr}

-- `struct blobmsg_policy`; the name is a C string without its NUL, or NULL.
pub record Policy : Type 0 where
  pub name : Option (List ℕ)
  pub type : ℕ

-- `strcmp` of a string and a string in the memory, whether it is 0.
unfoldable pub str_eq : List ℕ → List ℕ → Option Bool
str_eq xs [] = none
str_eq [] (c ∷ r) = some (c == 0)
str_eq (x ∷ xs) (c ∷ r) = if x == c then str_eq xs r else some false

-- `pslen[i]`, of 8 bits.
abbrev pub pslen : List ℕ → ℕ
pslen name = length name % 256

-- What a round of the inner loop of `blobmsg_parse` does to an entry.
pub data Round : Type 0 where
  keep : Round
  enter : Round
  invalid : Round

-- The end of a round, where name length and type are those of the policy.
unfoldable pub match_name : List ℕ → Option (List ℕ) → List ℕ → Option Round
match_name name old cur = do
  ok ← blobmsg_check_attr cur true
  (if not ok then some invalid else (elim old [
    | some _ ↦ some keep
    | none ↦ (do same ← str_eq name (drop 2 (blob_data cur)); some (if same then enter else keep))
  ]))

-- A round of the inner loop.
unfoldable pub match_policy : Policy → Option (List ℕ) → List ℕ → ℕ → Option Round
match_policy p old cur w = elim p.name [
  | none ↦ some keep
  | some name ↦ if not (p.type == type_unspec) && not (blob_id w == p.type) then some keep else (do
    namelen ← blobmsg_namelen (blob_data cur)
    (if namelen == pslen name then match_name name old cur else some keep))
]

-- The inner loop, over the policies and the table; `none` in the result is -1.
unfoldable pub match_loop :
    List Policy → List (Option (List ℕ)) → List ℕ → ℕ → Option (Option (List (Option (List ℕ))))
match_loop [] tb cur w = some (some [])
match_loop (p ∷ ps) [] cur w = none
match_loop (p ∷ ps) (t ∷ tb) cur w = do
  round ← match_policy p t cur w
  (elim round [
    | invalid ↦ some none
    | keep ↦ (do
      rest ← match_loop ps tb cur w
      some (elim rest [ none ↦ none | some r ↦ some (t ∷ r) ]))
    | enter ↦ (do
      rest ← match_loop ps tb cur w
      some (elim rest [ none ↦ none | some r ↦ some (some cur ∷ r) ]))
  ])

-- The outer loop.
unfoldable pub fields_loop :
    List Policy → List (List ℕ) → List (Option (List ℕ)) → Option (Option (List (Option (List ℕ))))
fields_loop policy [] tb = some (some tb)
fields_loop policy (cur ∷ r) tb = do
  w ← id_len cur
  tb' ← match_loop policy tb cur w
  (elim tb' [ none ↦ some none | some t ↦ fields_loop policy r t ])

-- `blobmsg_parse` of the `len` bytes at `bytes`: the table, or `none` for -1. The headers of the fields are
-- read first, where the source reads each before it looks at the field.
unfoldable pub blobmsg_parse : List Policy → List ℕ → ℕ → Option (Option (List (Option (List ℕ))))
blobmsg_parse policy bytes len = do
  l ← for_each (len + 1) bytes len
  fields_loop policy l (replicate (length policy) none)

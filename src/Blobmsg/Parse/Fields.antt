-- ===== src/Blobmsg/Parse/Fields.antt =====
-- The outer loop of `blobmsg_parse`, over the fields, and its result (blobmsg.c).
use libubox.Base.{
  ℕ, ◌≡◌, ◌⊎◌, Bool, true, false, Option, none, some, List, [], ◌∷◌, map, if◌then◌else◌,
}
use libubox.Blob.{id_len}
use libubox.Blobmsg.{blobmsg_check_attr}
use libubox.Blobmsg.Parse.{Policy}
use libubox.Blobmsg.Parse.Rounds.{enters}

-- The first field of a list that a policy takes, where its entry is empty.
abbrev pub takes : Policy → List ℕ → Bool
takes p cur = elim (id_len cur) [ none ↦ false | some w ↦ enters p cur w ]

abbrev pub first_taken : Policy → List (List ℕ) → Option (List ℕ) → Option (List ℕ)
first_taken p [] old = old
first_taken p (cur ∷ r) (some x) = some x
first_taken p (cur ∷ r) none = if takes p cur then some cur else first_taken p r none

-- Some field of a list is none that `blobmsg_check_attr` accepts.
abbrev pub HasInvalid : List (List ℕ) → Type 0
HasInvalid [] = ⊥
HasInvalid (cur ∷ r) = (blobmsg_check_attr cur true ≡ some false) ⊎ HasInvalid r

-- What `blobmsg_parse` promises: the table of the first fields taken, or -1 for an invalid field.
abbrev pub IsParse : List Policy → List (List ℕ) → Option (List (Option (List ℕ))) → Type 0
IsParse policy l none = HasInvalid l
IsParse policy l (some tb) = tb ≡ map (λ p. first_taken p l none) policy

firsts : List Policy → List (List ℕ) → List (Option (List ℕ)) → List (Option (List ℕ))
firsts [] l tb = []
firsts (p ∷ ps) l [] = []
firsts (p ∷ ps) l (t ∷ tb) = first_taken p l t ∷ firsts ps l tb

abbrev Filled :
    List Policy → List (List ℕ) → List (Option (List ℕ)) → Option (List (Option (List ℕ))) → Type 0
Filled policy l tb none = HasInvalid l
Filled policy l tb (some tb') = tb' ≡ firsts policy l tb

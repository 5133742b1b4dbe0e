-- ===== src/Kvlist.antt =====
-- kvlist.c and kvlist.h, a store of values under names. The AVL tree is a parameter, and a name is a number.
pub mod Store
mod Tests
use libubox.Base.{
  ℕ, ◌+◌, Bool, true, false, Option, none, some, List, [], ◌∷◌, leb, ◌==◌, if◌then◌else◌, ◌>>=◌,
  length, take,
}
use libubox.Avl.{Avl}
use libubox.Blob.{id_len, blob_pad_len}

-- `kvlist_strlen` of the memory from the value on; `none` is a read past its end.
unfoldable pub kvlist_strlen : List ℕ → Option ℕ
kvlist_strlen [] = none
kvlist_strlen (c ∷ r) =
    let rest = kvlist_strlen r in if c == 0 then some 1 else (rest >>= (λ n. some (n + 1)))

-- `kvlist_blob_len`.
unfoldable pub kvlist_blob_len : List ℕ → Option ℕ
kvlist_blob_len bytes = do w ← id_len bytes; some (blob_pad_len w)

-- A pointer to a value: into memory of the caller, or to the value of a node.
pub data Source : Type 0 where
  outside : List ℕ → Source
  stored : ℕ → Source

module _ (A : Avl) (get_len : List ℕ → Option ℕ) where
  -- `struct kvlist`, and the values of the nodes that are allocated.
  pub record Kvlist : Type 0 where
    pub avl : A.Tree
    pub block : ℕ → Option (List ℕ)

  -- The memory from a pointer on.
  abbrev pub source : Kvlist → Source → Option (List ℕ)
  source s (outside bytes) = some bytes
  source s (stored node) = s.block node

  abbrev pub set_block : Kvlist → ℕ → Option (List ℕ) → Kvlist
  set_block s node b = record s { block = λ i. if i == node then b else s.block i }

  -- `kvlist_init`; `get_len` is a parameter.
  abbrev pub kvlist_init : Kvlist → Kvlist
  kvlist_init s = record s { avl = A.empty }

  -- `kvlist_get`: the node that the pointer leads into, or NULL.
  abbrev pub kvlist_get : Kvlist → ℕ → Option ℕ
  kvlist_get s name = A.find s.avl name

  -- `kvlist_delete`.
  unfoldable pub kvlist_delete : Kvlist → ℕ → Kvlist × Bool
  kvlist_delete s name = elim (kvlist_get s name) [
    | none ↦ (s, false)
    | some node ↦ (set_block (record s { avl = A.delete s.avl name }) node none, true)
  ]

  -- `kvlist_set`; `calloc` is the address that `calloc_a` returns, and `none` an access through NULL or to memory
  -- that is not allocated.
  unfoldable pub kvlist_set : Kvlist → ℕ → Source → Option ℕ → Option Kvlist
  kvlist_set s name src calloc = do
    bytes ← source s src
    len ← get_len bytes
    node ← calloc
    copied ← source (kvlist_delete s name).0 src
    (if leb len (length copied)
        then some (
            set_block
              (record (kvlist_delete s name).0 {
                avl = A.insert (kvlist_delete s name).0.avl name node;
              })
              node (some (take len copied)))
        else none)

  -- The loop of `kvlist_free`.
  unfoldable pub free_loop : List (ℕ × ℕ) → Kvlist → Kvlist
  free_loop [] s = s
  free_loop (e ∷ r) s = free_loop r (set_block s e.1 none)

  -- `kvlist_free`.
  unfoldable pub kvlist_free : Kvlist → Kvlist
  kvlist_free s = free_loop (A.elements s.avl) (record s { avl = A.empty })

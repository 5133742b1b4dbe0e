-- ===== src/Vlist.antt =====
-- vlist.c and vlist.h, trees whose elements carry the version that they were last added with. The AVL tree
-- below is a parameter.
pub mod Flush
pub mod Reload
mod Tests
use libubox.Base.{
  ℕ, ◌+◌, Bool, true, false, not, ◌&&◌, ◌||◌, Option, none, some, List, [], ◌∷◌, ◌==◌,
  if◌then◌else◌,
}
use libubox.Base.Int.{ℤ, pos, negsuc}
use libubox.Base.Int.{◌+ℤ◌}
use libubox.Avl.{Avl}

-- A call of `update`: the new node and the old one, or NULL.
pub record Update : Type 0 where
  pub new : Option ℕ
  pub old : Option ℕ

abbrev pub same : ℤ → ℤ → Bool
same (pos a) (pos b) = a == b
same (pos a) (negsuc b) = false
same (negsuc a) (pos b) = false
same (negsuc a) (negsuc b) = a == b

module _ (A : Avl) where
  -- `struct vlist_tree`, the versions of the nodes, and the calls of `update` so far, the last first.
  pub record Vlist : Type 0 where
    pub avl : A.Tree
    pub keep_old : Bool
    pub no_delete : Bool
    pub version : ℤ
    pub node_version : ℕ → ℤ
    pub calls : List Update

  abbrev pub set_version : Vlist → ℕ → ℤ → Vlist
  set_version s node v = record s { node_version = λ i. if i == node then v else s.node_version i }

  -- `vlist_init`, which leaves the other members as they are.
  abbrev pub vlist_init : Vlist → Vlist
  vlist_init s = record s { avl = A.empty; version = pos 1 }

  -- `vlist_update`.
  abbrev pub vlist_update : Vlist → Vlist
  vlist_update s = record s { version = s.version +ℤ pos 1 }

  -- `vlist_delete` of a node and its key.
  unfoldable pub vlist_delete : Vlist → ℕ × ℕ → Vlist
  vlist_delete s e = record s {
    avl = if not s.no_delete then A.delete s.avl e.0 else s.avl;
    calls = record { new = none; old = some e.1 } ∷ s.calls;
  }

  -- `vlist_add` of the node `e.1` under the key `e.0`.
  unfoldable pub vlist_add : Vlist → ℕ × ℕ → Vlist
  vlist_add s e =
      let t = set_version s e.1 s.version in
      elim (A.find s.avl e.0) [
        | none ↦ record t {
          avl = A.insert s.avl e.0 e.1;
          calls = record { new = some e.1; old = none } ∷ s.calls;
        }
        | some old ↦
            let called = record { new = some e.1; old = some old } ∷ s.calls in
            if s.keep_old || s.no_delete
            then record (set_version t old s.version) { calls = called }
            else record t { avl = A.insert (A.delete s.avl e.0) e.0 e.1; calls = called }
      ]

  -- The test of `vlist_flush`: whether a node stays.
  unfoldable pub is_fresh : Vlist → ℕ → Bool
  is_fresh s node =
      (same (s.node_version node) s.version || same (s.node_version node) (negsuc 0))
      && not (same s.version (negsuc 0))

  -- The loop of `vlist_flush`, over the elements that it has not visited.
  unfoldable pub flush_loop : List (ℕ × ℕ) → Vlist → Vlist
  flush_loop [] s = s
  flush_loop (e ∷ r) s = elim (is_fresh s e.1) [
    | true ↦ flush_loop r s
    | false ↦ flush_loop r (vlist_delete s e)
  ]

  -- `vlist_flush`.
  unfoldable pub vlist_flush : Vlist → Vlist
  vlist_flush s = flush_loop (A.elements s.avl) s

  -- `vlist_flush_all`.
  unfoldable pub vlist_flush_all : Vlist → Vlist
  vlist_flush_all s = vlist_flush (record s { version = negsuc 0 })

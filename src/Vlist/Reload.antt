-- ===== src/Vlist/Reload.antt =====
-- A reload of a vlist: a new version, the elements that it has, and a flush (vlist.c).
use libubox.Base.{ℕ, ◌≡◌, false, Option, some, List, [], ◌∷◌, map, ◌==◌, if◌then◌else◌}
use libubox.Links.{has}
use libubox.Avl.{Avl}
use libubox.Vlist.{Vlist, vlist_update, vlist_add, vlist_flush}

-- The last node that a list has for a key, or else what was there.
abbrev pub latest : ℕ → List (ℕ × ℕ) → Option ℕ → Option ℕ
latest k [] o = o
latest k (e ∷ r) o = latest k r (if k == e.0 then some e.1 else o)

abbrev pub nodes : List (ℕ × ℕ) → List ℕ
nodes = map (λ e. e.1)

module _ (A : Avl) where
  -- The calls of `vlist_add` of a client, in order.
  abbrev pub add_all : List (ℕ × ℕ) → Vlist A → Vlist A
  add_all [] s = s
  add_all (e ∷ r) s = add_all r (vlist_add A s e)

  -- A reload.
  abbrev pub reload : List (ℕ × ℕ) → Vlist A → Vlist A
  reload l s = vlist_flush A (add_all l (vlist_update A s))

  -- The tree takes new nodes for old ones.
  pub record Replaces (s : Vlist A) : Type 0 where
    pub keep_old : s.keep_old ≡ false
    pub no_delete : s.no_delete ≡ false

  -- What the calls of `vlist_add` of a list make of a tree.
  pub record Added (l : List (ℕ × ℕ)) (s t : Vlist A) : Type 0 where
    pub replaces : Replaces t
    pub version : t.version ≡ s.version
    pub node_version :
        (n : ℕ) → t.node_version n ≡ (if has (nodes l) n then s.version else s.node_version n)
    pub find : (k : ℕ) → A.find t.avl k ≡ latest k l (A.find s.avl k)

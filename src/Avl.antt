-- ===== src/Avl.antt =====
-- The AVL trees that vlist.c and kvlist.c keep their elements in: an interface of the operations, and what
-- they promise.
pub mod Assoc
use libubox.Base.{ℕ, ◌-◌, ◌≡◌, true, Option, none, some, List, map, ◌==◌, if◌then◌else◌, All}
use libubox.Links.{has, Distinct}

-- The operations of an AVL tree with distinct keys. Nodes and keys are numbers, equal keys are the same number;
-- an element is a key and its node. `delete` unlinks the node of a key.
pub record Avl : Type 1 where
  pub Tree : Type 0
  pub empty : Tree
  pub find : Tree → ℕ → Option ℕ
  pub insert : Tree → ℕ → ℕ → Tree
  pub delete : Tree → ℕ → Tree
  pub elements : Tree → List (ℕ × ℕ)

-- What the tree promises: a node is found under its key from its insertion to its deletion, and the iteration
-- visits each element once.
pub record IsAvl (A : Avl) : Type 0 where
  pub find-empty : (k : ℕ) → A.find A.empty k ≡ none
  pub find-insert :
      (t : A.Tree) (k n i : ℕ)
      → A.find t k ≡ none
      → A.find (A.insert t k n) i ≡ (if i == k then some n else A.find t i)
  pub find-delete :
      (t : A.Tree) (k i : ℕ) → A.find (A.delete t k) i ≡ (if i == k then none else A.find t i)
  pub sound : (t : A.Tree) → All (λ e. A.find t e.0 ≡ some e.1) (A.elements t)
  pub complete :
      (t : A.Tree) (k n : ℕ) → A.find t k ≡ some n → has (map (λ e. e.0) (A.elements t)) k ≡ true
  pub distinct : (t : A.Tree) → Distinct (map (λ e. e.0) (A.elements t))

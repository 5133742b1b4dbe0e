-- ===== src/Avl/Assoc.antt =====
-- An implementation of the interface of the AVL trees: an association list.
use libubox.Base.{
  ℕ, ◌≡◌, inl, inr, refl, ◌∙◌, true, not, ◌&&◌, Option, none, some, List, [], ◌∷◌, map, arith, ◌==◌,
  if◌then◌else◌, Bool-cases, All,
}
use libubox.Links.{has, Distinct}
use libubox.Avl.{Avl, IsAvl}

abbrev pub Assoc : Type 0
Assoc = List (ℕ × ℕ)

unfoldable pub lookup : Assoc → ℕ → Option ℕ
lookup [] k = none
lookup (e ∷ r) k = if k == e.0 then some e.1 else lookup r k

unfoldable pub remove_key : Assoc → ℕ → Assoc
remove_key [] k = []
remove_key (e ∷ r) k = if e.0 == k then remove_key r k else e ∷ remove_key r k

-- The elements that `lookup` finds.
unfoldable pub visible : Assoc → Assoc
visible [] = []
visible (e ∷ r) = e ∷ remove_key (visible r) e.0

abbrev pub assoc : Avl
assoc = record {
  Tree = Assoc;
  empty = [];
  find = lookup;
  insert = λ t k n. (k, n) ∷ t;
  delete = remove_key;
  elements = visible;
}

abbrev keys : Assoc → List ℕ
keys = map (λ e. e.0)

lookup-remove_key :
    (t : Assoc) (k i : ℕ) → lookup (remove_key t k) i ≡ (if i == k then none else lookup t i)
unfolding lookup remove_key
lookup-remove_key [] k i = elim (Bool-cases (i == k)) [ inl is ↦ simp is | inr other ↦ simp other ]
lookup-remove_key (e ∷ r) k i = ground (arith, lookup-remove_key r k i)

has-remove_key :
    (t : Assoc) (k i : ℕ) → has (keys (remove_key t k)) i ≡ (has (keys t) i && not (i == k))
unfolding remove_key
has-remove_key [] k i = refl
has-remove_key (e ∷ r) k i = ground (arith, has-remove_key r k i)

Distinct-remove_key : (t : Assoc) (k : ℕ) → Distinct (keys t) → Distinct (keys (remove_key t k))
unfolding remove_key
Distinct-remove_key [] k d = tt
Distinct-remove_key (e ∷ r) k d = elim (Bool-cases (e.0 == k)) [
  | inl this ↦ rw this (Distinct-remove_key r k d.1)
  | inr other ↦ rw other (has-remove_key r k e.0 ∙ simp d.0, Distinct-remove_key r k d.1)
]

visible-Distinct : (t : Assoc) → Distinct (keys (visible t))
unfolding visible
visible-Distinct [] = tt
visible-Distinct (e ∷ r) = (
  has-remove_key (visible r) e.0 e.0 ∙ ground arith,
  Distinct-remove_key (visible r) e.0 (visible-Distinct r),
)

visible_complete : (t : Assoc) (k n : ℕ) → lookup t k ≡ some n → has (keys (visible t)) k ≡ true
unfolding visible lookup
visible_complete [] k n found = absurd cc
visible_complete (e ∷ r) k n found = elim (Bool-cases (k == e.0)) [
  | inl here ↦ simp here
  | inr there ↦
      let later : lookup r k ≡ some n = rw there at found in
      let listed = visible_complete r k n later in
      simp there (has-remove_key (visible r) e.0 k ∙ simp (there, listed))
]

below :
    (e : ℕ × ℕ) (r xs : Assoc)
    → All (λ x. lookup r x.0 ≡ some x.1) xs
    → All (λ x. lookup (e ∷ r) x.0 ≡ some x.1) (remove_key xs e.0)
unfolding lookup remove_key
below e r [] found = tt
below e r (x ∷ xs) found = elim (Bool-cases (x.0 == e.0)) [
  | inl this ↦ rw this (below e r xs found.1)
  | inr other ↦ simp other (found.0, below e r xs found.1)
]

visible_sound : (t : Assoc) → All (λ e. lookup t e.0 ≡ some e.1) (visible t)
unfolding visible lookup
visible_sound [] = tt
visible_sound (e ∷ r) = (
  let same : (e.0 == e.0) ≡ true = ground arith in simp same,
  below e r (visible r) (visible_sound r),
)

pub assoc-IsAvl : IsAvl assoc
unfolding lookup
assoc-IsAvl = record {
  find-empty = λ k. refl;
  find-insert = λ t k n i absent. refl;
  find-delete = lookup-remove_key;
  sound = visible_sound;
  complete = visible_complete;
  distinct = visible-Distinct;
}

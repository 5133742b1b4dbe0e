-- ===== src/Links.antt =====
-- Lists of the addresses of linked structures (list.h): membership, and unlinking one of them.
use libubox.Base.{
  ℕ, ◌≡◌, inl, inr, refl, Bool, true, false, not, ◌&&◌, ◌||◌, List, [], ◌∷◌, arith, ◌==◌,
  if◌then◌else◌, ==→eq, Bool-cases, All,
}

abbrev pub has : List ℕ → ℕ → Bool
has [] i = false
has (x ∷ xs) i = (i == x) || has xs i

abbrev pub Distinct : List ℕ → Type 0
Distinct [] = Unit {0}
Distinct (x ∷ xs) = (has xs x ≡ false) × Distinct xs

-- `list_del` of a structure that is linked in the list.
unfoldable pub remove : ℕ → List ℕ → List ℕ
remove id [] = []
remove id (x ∷ r) = if x == id then r else x ∷ remove id r

pub has-remove :
    (id : ℕ) (xs : List ℕ) (i : ℕ)
    → Distinct xs
    → has (remove id xs) i ≡ (has xs i && not (i == id))
unfolding remove
has-remove id [] i d = refl
has-remove id (x ∷ xs) i d = ground (arith, has-remove id xs i)

pub Distinct-remove : (id : ℕ) (xs : List ℕ) → Distinct xs → Distinct (remove id xs)
unfolding remove
Distinct-remove id [] d = tt
Distinct-remove id (x ∷ xs) d = ground (arith, has-remove id xs x, Distinct-remove id xs)

pub All-remove : (P : ℕ → Type 0) (id : ℕ) (xs : List ℕ) → All P xs → All P (remove id xs)
unfolding remove
All-remove P id [] ps = tt
All-remove P id (x ∷ xs) ps = elim (Bool-cases (x == id)) [
  | inl this ↦ rw this ps.1
  | inr other ↦ rw other (ps.0, All-remove P id xs ps.1)
]

pub All-mono :
    {A : Type 0} {P Q : A → Type 0} → ((i : A) → P i → Q i) → (xs : List A) → All P xs → All Q xs
All-mono f [] ps = tt
All-mono f (x ∷ xs) ps = (f x ps.0, All-mono f xs ps.1)

pub all_of_has : (P : ℕ → Type 0) (xs : List ℕ) (i : ℕ) → All P xs → has xs i ≡ true → P i
all_of_has P [] i ps h = cc
all_of_has P (x ∷ xs) i ps h = elim (Bool-cases (i == x)) [
  | inl this ↦ let e : i ≡ x = ==→eq i x this in rw e ps.0
  | inr other ↦ all_of_has P xs i ps.1 (ground arith)
]

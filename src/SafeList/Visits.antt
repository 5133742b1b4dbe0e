-- ===== src/SafeList/Visits.antt =====
-- The elements that safe_list_for_each visits.
use libubox.Base.{
  ℕ, zero, suc, ◌≤◌, ◌<◌, ◌≡◌, inl, inr, refl, sym, ◌∙◌, Bool, true, false, List, [], ◌∷◌, ◌++◌,
  append_assoc, arith, ◌==◌, if◌then◌else◌, Yields, Bool-cases, Option-cases, length,
}
use mathlib.Core.Path.{subst}
use libubox.Links.{has, remove, has-remove, Distinct-remove}
use libubox.SafeList.{
  SafeList, first, next_node, set_iterator, del_iterator, move_iterator, safe_list_del,
  for_each_loop, safe_list_for_each,
}
use libubox.SafeList.Points.{
  IsSafe, Points, next_node-split, safe_list_del-IsSafe, safe_list_del-Points, remove-absent,
  has-append,
}

-- A callback that deletes those of some elements that are linked.
unfoldable pub delete_all : List ℕ → SafeList → SafeList
delete_all [] s = s
delete_all (e ∷ es) s =
    let gone = delete_all es (safe_list_del s e) in
    let kept = delete_all es s in if has s.items e then gone else kept

abbrev pub deletes : (ℕ → List ℕ) → (ℕ → Bool) → ℕ → SafeList → SafeList × Bool
deletes dels stop x s = (delete_all (dels x) s, stop x)

unfoldable pub remove_all : List ℕ → List ℕ → List ℕ
remove_all [] r = r
remove_all (e ∷ es) r = remove_all es (remove e r)

-- What is visited of a list: its first element, and after that what is visited of those behind it that were not
-- deleted, or nothing where the callback stops.
pub data Visits (dels : ℕ → List ℕ) (stop : ℕ → Bool) : List ℕ → List ℕ → Type 0 where
  ended : Visits dels stop [] []
  stopped : {x : ℕ} {r : List ℕ} → stop x ≡ true → Visits dels stop (x ∷ r) (x ∷ [])
  visited :
      {x : ℕ} {r l : List ℕ}
      → stop x ≡ false
      → Visits dels stop (remove_all (dels x) r) l
      → Visits dels stop (x ∷ r) (x ∷ l)

delete_all-Points :
    (es : List ℕ) (s : SafeList) (i : ℕ) (rest : List ℕ)
    → IsSafe s
    → Points s i rest
    → IsSafe (delete_all es s)
      × Points (delete_all es s) i (remove_all es rest)
      × ((delete_all es s).head ≡ s.head)
unfolding delete_all remove_all safe_list_del
delete_all-Points [] s i rest v p = (v, p, refl)
delete_all-Points (e ∷ es) s i rest v p = elim (Bool-cases (has s.items e)) [
  | inl linked ↦
      let out =
        delete_all-Points es (safe_list_del s e) i (remove e rest)
          (safe_list_del-IsSafe s e v linked) (safe_list_del-Points s e i rest v linked p) in
      rw linked (out.0, out.1, out.2)
  | inr gone ↦
      let same : remove e rest ≡ rest =
        remove-absent e rest (ground (arith, p.split, has-append p.before rest e)) in
      rw (gone, same) (delete_all-Points es s i rest v p)
]

set_iterator-IsSafe :
    (s : SafeList) (i x : ℕ)
    → IsSafe s
    → ((n : ℕ) → has (s.chain n) i ≡ false)
    → IsSafe (set_iterator s x i)
unfolding set_iterator
set_iterator-IsSafe s i x v free = record {
  hung = λ n j h. ground (arith, h, v.hung n j, free n);
  chains = λ n. elim (Bool-cases (n == next_node s x)) [
    | inl this ↦ rw this (free (next_node s x), v.chains (next_node s x))
    | inr other ↦ rw other (v.chains n)
  ];
  distinct = v.distinct;
  no_head = v.no_head;
}

set_iterator-Points :
    (s : SafeList) (i x : ℕ) (before rest : List ℕ)
    → IsSafe s
    → s.items ≡ before ++ (x ∷ rest)
    → ((x == s.head) ≡ false) × Points (set_iterator s x i) i rest
unfolding set_iterator
set_iterator-Points s i x before rest v split =
    let (apart, behind) = next_node-split s before rest x v split in
    let here : (i == i) ≡ true = ground arith in
    let onto : (next_node s x == next_node s x) ≡ true = ground arith in
    (
      apart,
      record {
        before = before ++ (x ∷ []);
        split = split ∙ sym (append_assoc before (x ∷ []) rest);
        next = rw here behind;
        there = rw here (rw onto (rw here refl));
      },
    )

del_iterator-IsSafe :
    (s : SafeList) (i : ℕ)
    → IsSafe s
    → IsSafe (del_iterator s i) × ((n : ℕ) → has ((del_iterator s i).chain n) i ≡ false)
unfolding del_iterator
del_iterator-IsSafe s i v =
    let here : (i == i) ≡ true = ground arith in
    (
      record {
        hung = λ n j h.
            ground
              (arith, h, v.hung n j, has-remove i (s.chain (s.next i)) j (v.chains (s.next i)));
        chains = λ n. elim (Bool-cases (n == s.next i)) [
          | inl this ↦ rw this (Distinct-remove i (s.chain (s.next i)) (v.chains (s.next i)))
          | inr other ↦ rw other (v.chains n)
        ];
        distinct = v.distinct;
        no_head = v.no_head;
      },
      λ n.
          ground
            (arith, here, v.hung n i, has-remove i (s.chain (s.next i)) i (v.chains (s.next i))),
    )

length-remove : (e : ℕ) (r : List ℕ) → length (remove e r) ≤ length r
unfolding remove
length-remove e [] = omega arith
length-remove e (x ∷ r) = elim (Bool-cases (x == e)) [
  | inl this ↦ rw this (omega arith)
  | inr other ↦ let rest = length-remove e r in rw other (omega (arith, rest))
]

length-remove_all : (es r : List ℕ) → length (remove_all es r) ≤ length r
unfolding remove_all
length-remove_all [] r = omega arith
length-remove_all (e ∷ es) r =
    let all = length-remove_all es (remove e r) in
    let one = length-remove e r in omega (arith, all, one)

-- What holds of the list when the loop is at the first of these elements, or at the head.
abbrev Ready : SafeList → ℕ → List ℕ → Type 0
Ready s i [] = Unit {0}
Ready s i (x ∷ r) = ((x == s.head) ≡ false) × Points s i r

moved-Ready :
    (s : SafeList) (i : ℕ) (r : List ℕ)
    → IsSafe s
    → Points s i r
    → Ready (move_iterator s (first r s.head) i) i r
unfolding move_iterator del_iterator set_iterator
moved-Ready s i [] v p = tt
moved-Ready s i (x ∷ r) v p =
    let out = del_iterator-IsSafe s i v in
    set_iterator-Points (del_iterator s i) i x p.before r out.0 p.split

move_iterator-IsSafe : (s : SafeList) (i node : ℕ) → IsSafe s → IsSafe (move_iterator s node i)
unfolding move_iterator
move_iterator-IsSafe s i node v =
    let out = del_iterator-IsSafe s i v in set_iterator-IsSafe (del_iterator s i) i node out.0 out.1

module _ (dels : ℕ → List ℕ) (stop : ℕ → Bool) (i : ℕ) where
  pub record Visited (r : List ℕ) (out : SafeList × List ℕ) : Type 0 where
    pub visits : Visits dels stop r out.1
    pub safe : IsSafe out.0
    pub unhung : (n : ℕ) → has (out.0.chain n) i ≡ false

  for_each_loop-Visited :
      (n : ℕ) (r : List ℕ) (s : SafeList)
      → length r < n
      → IsSafe s
      → Ready s i r
      → Yields (Visited r) (for_each_loop n (deletes dels stop) i (first r s.head) s)
  unfolding for_each_loop move_iterator set_iterator del_iterator
  for_each_loop-Visited zero r s fuel v ready = absurd (omega (arith, fuel))
  for_each_loop-Visited (suc n) [] s fuel v ready =
      let here : (s.head == s.head) ≡ true = ground arith in
      let out = del_iterator-IsSafe s i v in
      simp (for_each_loop, here) (record { visits = ended; safe = out.0; unhung = out.1 })
  for_each_loop-Visited (suc n) (x ∷ r) s fuel v ready =
      let (v1, p1, same) = delete_all-Points (dels x) s i r v ready.1 in
      elim (Bool-cases (stop x)) [
        | inl over ↦
            let out = del_iterator-IsSafe (delete_all (dels x) s) i v1 in
            simp (for_each_loop, ready.0, over)
              (record { visits = stopped over; safe = out.0; unhung = out.1 })
        | inr on ↦
            let s1 = delete_all (dels x) s in
            let r1 = remove_all (dels x) r in
            let node = first r1 s1.head in
            let fewer = length-remove_all (dels x) r in
            let back : Yields (Visited r1)
                (for_each_loop n (deletes dels stop) i node (move_iterator s1 node i)) =
              for_each_loop-Visited n r1 (move_iterator s1 node i) (omega (arith, fewer, fuel))
                (move_iterator-IsSafe s1 i node v1) (moved-Ready s1 i r1 v1 p1) in
            let loop =
              subst
                (λ node.
                  Yields (Visited r1)
                    (for_each_loop n (deletes dels stop) i node (move_iterator s1 node i)))
                (sym p1.next) back in
            elim (Option-cases (
              for_each_loop n (deletes dels stop) i (s1.next i) (move_iterator s1 (s1.next i) i))) [
                | inl bad ↦ absurd (rw bad at loop)
                | inr ((s', l), got) ↦
                    let w : Visited r1 (s', l) = rw got at loop in
                    simp (for_each_loop, ready.0, on, got)
                      (record { visits = visited on w.visits; safe = w.safe; unhung = w.unhung })
              ]
      ]

  -- `safe_list_for_each` with a callback that deletes any elements, of those that are linked, and maybe stops: it
  -- ends, visits the elements in order, each that is not deleted before its turn and no other, until the callback
  -- stops it, and leaves the iterators right, its own hanging nowhere.
  pub safe_list_for_each-Visited :
      (s : SafeList)
      → IsSafe s
      → ((n : ℕ) → has (s.chain n) i ≡ false)
      → Yields (Visited s.items) (safe_list_for_each (suc (length s.items)) (deletes dels stop) i s)
  unfolding safe_list_for_each set_iterator
  safe_list_for_each-Visited s v free =
      for_each_loop-Visited (suc (length s.items)) s.items (set_iterator s (first s.items s.head) i)
        (omega arith) (set_iterator-IsSafe s i (first s.items s.head) v free) (begins s.items refl)
    where
      begins : (r : List ℕ) → s.items ≡ r → Ready (set_iterator s (first r s.head) i) i r
      begins [] e = tt
      begins (x ∷ r) e = set_iterator-Points s i x [] r v e

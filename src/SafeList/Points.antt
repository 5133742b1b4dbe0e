-- ===== src/SafeList/Points.antt =====
-- What an iterator of safe_list.c points at, and what a deletion makes of it.
use libubox.Base.{
  ℕ, ◌≡◌, inl, inr, refl, sym, ap, ◌∙◌, true, false, ◌||◌, List, [], ◌∷◌, ◌++◌, arith, ◌==◌, ==→eq,
  Bool-cases,
}
use libubox.Links.{has, Distinct, remove, has-remove, Distinct-remove}
use libubox.SafeList.{SafeList, first, next_of, next_node, safe_list_del}

-- An iterator that hangs at a node has it as its next one, and hangs there once; each element is linked once, and
-- the head is none.
pub record IsSafe (s : SafeList) : Type 0 where
  pub hung : (n i : ℕ) → has (s.chain n) i ≡ true → s.next i ≡ n
  pub chains : (n : ℕ) → Distinct (s.chain n)
  pub distinct : Distinct s.items
  pub no_head : has s.items s.head ≡ false

-- An iterator that hangs where it should, with these elements to come.
pub record Points (s : SafeList) (i : ℕ) (rest : List ℕ) : Type 0 where
  pub before : List ℕ
  pub split : s.items ≡ before ++ rest
  pub next : s.next i ≡ first rest s.head
  pub there : has (s.chain (s.next i)) i ≡ true

pub remove-absent : (e : ℕ) (r : List ℕ) → has r e ≡ false → remove e r ≡ r
unfolding remove
remove-absent e [] h = refl
remove-absent e (x ∷ r) h =
    let other : (x == e) ≡ false = ground (arith, h) in
    rw (other, remove-absent e r (ground (arith, h))) refl

pub has-append : (xs ys : List ℕ) (i : ℕ) → has (xs ++ ys) i ≡ (has xs i || has ys i)
has-append [] ys i = refl
has-append (x ∷ xs) ys i = ground (arith, has-append xs ys i)

remove-split :
    (e : ℕ) (before rest : List ℕ)
    → Distinct (before ++ rest)
    → (l : List ℕ) × (remove e (before ++ rest) ≡ l ++ remove e rest)
unfolding remove
remove-split e [] rest d = ([], refl)
remove-split e (x ∷ before) rest d = elim (Bool-cases (x == e)) [
  | inl this ↦
      let absent : has rest e ≡ false = ground (arith, d.0, has-append before rest x) in
      (before, rw (this, remove-absent e rest absent) refl)
  | inr other ↦
      let (l, eq) = remove-split e before rest d.1 in (x ∷ l, rw other (ap (λ l. x ∷ l) eq))
]

next_of-split :
    (before rest : List ℕ) (e head : ℕ)
    → Distinct (before ++ (e ∷ rest))
    → next_of (before ++ (e ∷ rest)) e head ≡ first rest head
unfolding next_of
next_of-split [] rest e head d = let same : (e == e) ≡ true = ground arith in rw same refl
next_of-split (x ∷ before) rest e head d =
    let other : (x == e) ≡ false = ground (arith, d.0, has-append before (e ∷ rest) x) in
    rw other (next_of-split before rest e head d.1)

remove_first : (e : ℕ) (r : List ℕ) → remove e (e ∷ r) ≡ r
unfolding remove
remove_first e r = let same : (e == e) ≡ true = ground arith in rw same refl

later_apart :
    (before later : List ℕ) (e : ℕ) → Distinct (before ++ (e ∷ later)) → has later e ≡ false
later_apart [] later e d = d.0
later_apart (x ∷ before) later e d = later_apart before later e d.1

first_apart :
    (before later : List ℕ) (e head : ℕ)
    → Distinct (before ++ (e ∷ later))
    → (e == head) ≡ false
    → (first later head == e) ≡ false
first_apart before [] e head d h = ground (arith, h)
first_apart before (x ∷ r) e head d h = ground (arith, later_apart before (x ∷ r) e d)

Distinct-append :
    (xs ys : List ℕ)
    → Distinct xs
    → Distinct ys
    → ((j : ℕ) → has xs j ≡ true → has ys j ≡ false)
    → Distinct (xs ++ ys)
Distinct-append [] ys d e apart = e
Distinct-append (x ∷ xs) ys d e apart = (
  ground (arith, has-append xs ys x, apart x, d.0),
  Distinct-append xs ys d.1 e (λ j h. apart j (ground (arith, h))),
)

has-split :
    (xs : List ℕ) (e : ℕ)
    → has xs e ≡ true
    → (before : List ℕ) × (rest : List ℕ) × (xs ≡ before ++ (e ∷ rest))
has-split [] e h = absurd cc
has-split (x ∷ xs) e h = elim (Bool-cases (e == x)) [
  | inl this ↦ let eq : e ≡ x = ==→eq e x this in ([], xs, rw eq refl)
  | inr other ↦
      let (before, rest, eq) = has-split xs e (ground (arith, h)) in
      (x ∷ before, rest, ap (λ l. x ∷ l) eq)
]

not_head : (s : SafeList) (e : ℕ) → IsSafe s → has s.items e ≡ true → (e == s.head) ≡ false
not_head s e v linked = elim (Bool-cases (e == s.head)) [
  | inl same ↦
      let eq : e ≡ s.head = ==→eq e s.head same in
      let bad : has s.items s.head ≡ true = rw eq at linked in
      absurd (ground (arith, bad, v.no_head))
  | inr apart ↦ apart
]

-- The node behind an element is the first of what is behind it.
pub next_node-split :
    (s : SafeList) (before rest : List ℕ) (e : ℕ)
    → IsSafe s
    → s.items ≡ before ++ (e ∷ rest)
    → ((e == s.head) ≡ false) × (next_node s e ≡ first rest s.head)
next_node-split s before rest e v split =
    let linked : has s.items e ≡ true = rw split (has-append before (e ∷ rest) e ∙ ground arith) in
    let d : Distinct (before ++ (e ∷ rest)) = rw split at v.distinct in
    let apart = not_head s e v linked in
    (apart, rw (apart, split) (next_of-split before rest e s.head d))

next_node_apart :
    (s : SafeList) (e : ℕ) → IsSafe s → has s.items e ≡ true → (next_node s e == e) ≡ false
next_node_apart s e v linked =
    let (before, rest, split) = has-split s.items e linked in
    let d : Distinct (before ++ (e ∷ rest)) = rw split at v.distinct in
    let (apart, behind) = next_node-split s before rest e v split in
    rw behind (first_apart before rest e s.head d apart)

pub safe_list_del-IsSafe :
    (s : SafeList) (e : ℕ) → IsSafe s → has s.items e ≡ true → IsSafe (safe_list_del s e)
unfolding safe_list_del
safe_list_del-IsSafe s e v linked = record {
  hung = λ n i h.
      ground (arith, h, v.hung n i, v.hung e i, has-append (s.chain e) (s.chain (next_node s e)) i);
  chains = λ n. elim (Bool-cases (n == e)) [
    | inl this ↦ rw this tt
    | inr other ↦ elim (Bool-cases (n == next_node s e)) [
      | inl onto ↦
          rw (other, onto)
            (Distinct-append (s.chain e) (s.chain (next_node s e)) (v.chains e)
              (v.chains (next_node s e))
              (λ j here. elim (Bool-cases (has (s.chain (next_node s e)) j)) [
                | inr absent ↦ absent
                | inl both ↦
                    let one = v.hung e j here in
                    let two = v.hung (next_node s e) j both in
                    absurd (ground (arith, one, two, next_node_apart s e v linked))
              ]))
      | inr apart ↦ rw (other, apart) (v.chains n)
    ]
  ];
  distinct = Distinct-remove e s.items v.distinct;
  no_head = ground (arith, has-remove e s.items s.head v.distinct, v.no_head);
}

module _ (s : SafeList) (e i : ℕ) (v : IsSafe s) (linked : has s.items e ≡ true) where
  stays : (s.next i == e) ≡ false → has (s.chain e) i ≡ false
  stays apart = ground (arith, v.hung e i)

  -- An iterator that hangs at another element, or at the head.
  stays-Points :
      (rest later : List ℕ)
      → Points s i rest
      → (s.next i == e) ≡ false
      → (l : List ℕ) × (remove e s.items ≡ l ++ later)
      → first later s.head ≡ first rest s.head
      → Points (safe_list_del s e) i later
  unfolding safe_list_del
  stays-Points rest later p apart shape same =
      let k = stays apart in
      let held : has (s.chain (s.next i)) i ≡ true = p.there in
      record {
        before = shape.0;
        split = shape.1;
        next = rw k (p.next ∙ sym same);
        there =
            rw (k, apart)
              (elim (Bool-cases (s.next i == next_node s e)) [
                | inl onto ↦
                    let eq : s.next i ≡ next_node s e = ==→eq (s.next i) (next_node s e) onto in
                    let now : has (s.chain (next_node s e)) i ≡ true = rw eq at held in
                    simp (onto, has-append, now) (ground arith)
                | inr other ↦ rw other held
              ]);
      }

  -- An iterator that hangs at the element.
  moves-Points : (later : List ℕ) → Points s i (e ∷ later) → Points (safe_list_del s e) i later
  unfolding safe_list_del
  moves-Points later p =
      let d : Distinct (p.before ++ (e ∷ later)) = rw p.split at v.distinct in
      let behind = (next_node-split s p.before later e v p.split).1 in
      let moved : has (s.chain e) i ≡ true = rw p.next at p.there in
      let apart = next_node_apart s e v linked in
      let (l, eq) = remove-split e p.before (e ∷ later) d in
      record {
        before = l;
        split = ap (remove e) p.split ∙ eq ∙ ap (λ r. l ++ r) (remove_first e later);
        next = rw moved behind;
        there =
            (let onto : (next_node s e == next_node s e) ≡ true = ground arith in
              rw moved (
                rw apart
                  (rw onto (has-append (s.chain e) (s.chain (next_node s e)) i ∙ rw moved refl))));
      }

pub safe_list_del-Points :
    (s : SafeList) (e i : ℕ) (rest : List ℕ)
    → IsSafe s
    → has s.items e ≡ true
    → Points s i rest
    → Points (safe_list_del s e) i (remove e rest)
unfolding remove
safe_list_del-Points s e i [] v linked p =
    stays-Points s e i v linked [] [] p (rw p.next (ground (arith, not_head s e v linked)))
      (let (l, eq) = remove-split e p.before [] (rw p.split at v.distinct) in
        (l, ap (remove e) p.split ∙ eq))
      refl
safe_list_del-Points s e i (x ∷ rest) v linked p = elim (Bool-cases (x == e)) [
  | inl this ↦
      let eq : x ≡ e = ==→eq x e this in
      let here : Points s i (e ∷ rest) = rw eq at p in
      rw this (moves-Points s e i v linked rest here)
  | inr other ↦
      let (l, eq) = remove-split e p.before (x ∷ rest) (rw p.split at v.distinct) in
      let eq' : remove e (p.before ++ (x ∷ rest)) ≡ l ++ (x ∷ remove e rest) =
        simp (remove, other) at eq in
      rw other (
        stays-Points s e i v linked (x ∷ rest) (x ∷ remove e rest) p (rw p.next other)
          (l, ap (remove e) p.split ∙ eq') refl)
]

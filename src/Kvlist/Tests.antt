-- ===== src/Kvlist/Tests.antt =====
-- The theorems about stored values at a concrete store, and runs of the model.
use libubox.Base.{
  ℕ, ◌≡◌, ◌≢◌, ◌⊎◌, inl, inr, refl, sym, ap, none, some, [], ◌∷◌, arith, ◌==◌, if◌then◌else◌, ==→eq,
  Yields, Bool-cases,
}
use libubox.Avl.Assoc.{lookup, remove_key, visible, assoc, assoc-IsAvl}
use libubox.Kvlist.{
  kvlist_strlen, outside, stored, Kvlist, kvlist_delete, kvlist_set, free_loop, kvlist_free,
}
use libubox.Kvlist.Store.{value, kvlist_set-value}

-- The string "a" in the node 70 under the name 5, and "b" in 71 under 6.
abbrev two_names : Kvlist assoc kvlist_strlen
two_names = record {
  avl = (5, 70) ∷ (6, 71) ∷ [];
  block = λ i. if i == 70 then some (97 ∷ 0 ∷ []) else if i == 71 then some (98 ∷ 0 ∷ []) else none;
}

-- The bytes behind the string are not copied.
set_runs :
    Yields
      (λ t. value assoc kvlist_strlen t 6 ≡ some (99 ∷ 0 ∷ []))
      (kvlist_set assoc kvlist_strlen two_names 6 (outside (99 ∷ 0 ∷ 1 ∷ [])) (some 72))
unfolding kvlist_set kvlist_delete kvlist_strlen lookup remove_key
set_runs = refl

free_runs : (kvlist_free assoc kvlist_strlen two_names).block 71 ≡ none
unfolding kvlist_free free_loop visible remove_key
free_runs = refl

which_node :
    (k n : ℕ) → lookup two_names.avl k ≡ some n → ((k ≡ 5) × (n ≡ 70)) ⊎ ((k ≡ 6) × (n ≡ 71))
unfolding lookup
which_node k n found = elim (Bool-cases (k == 5)) [
  | inl five ↦
      let e : some 70 ≡ some n = rw five at found in
      inl (==→eq k 5 five, sym (ap (λ o. elim o [ none ↦ 0 | some x ↦ x ]) e))
  | inr other ↦ elim (Bool-cases (k == 6)) [
    | inl six ↦
        let e : some 71 ≡ some n = rw (other, six) at found in
        inr (==→eq k 6 six, sym (ap (λ o. elim o [ none ↦ 0 | some x ↦ x ]) e))
    | inr third ↦ let e : none ≡ some n = rw (other, third) at found in absurd cc
  ]
]

nodes_apart :
    (k l n : ℕ) → lookup two_names.avl k ≡ some n → lookup two_names.avl l ≡ some n → k ≡ l
nodes_apart k l n one other = elim (which_node k n one) [
  | inl a ↦ elim (which_node l n other) [
    | inl b ↦ omega (arith, a.0, b.0)
    | inr b ↦ absurd (omega (arith, a.1, b.1))
  ]
  | inr a ↦ elim (which_node l n other) [
    | inl b ↦ absurd (omega (arith, a.1, b.1))
    | inr b ↦ omega (arith, a.0, b.0)
  ]
]

new_node : (k : ℕ) → lookup two_names.avl k ≢ some 72
new_node k found = elim (which_node k 72 found) [
  | inl a ↦ absurd (omega (arith, a.1))
  | inr a ↦ absurd (omega (arith, a.1))
]

three_bytes : kvlist_strlen (99 ∷ 0 ∷ 1 ∷ []) ≡ some 2
unfolding kvlist_strlen
three_bytes = refl

kvlist_set-value_example :
    Yields
      (λ t. value assoc kvlist_strlen t 6 ≡ some (99 ∷ 0 ∷ []))
      (kvlist_set assoc kvlist_strlen two_names 6 (outside (99 ∷ 0 ∷ 1 ∷ [])) (some 72))
kvlist_set-value_example =
    kvlist_set-value assoc assoc-IsAvl kvlist_strlen two_names 6 72 2 (99 ∷ 0 ∷ 1 ∷ []) nodes_apart
      new_node three_bytes (omega arith) 6

-- The value of a name, stored under it again, is read after it is freed.
same_value : kvlist_set assoc kvlist_strlen two_names 6 (stored 71) (some 72) ≡ none
unfolding kvlist_set kvlist_delete kvlist_strlen lookup remove_key
same_value = refl

-- ===== src/Vlist/Flush.antt =====
-- What `vlist_flush` leaves in the tree (vlist.c).
use libubox.Base.{
  ℕ, ◌≡◌, inl, inr, refl, ap, ◌∙◌, Bool, true, false, Option, none, some, List, [], ◌∷◌, map, arith,
  ◌==◌, if◌then◌else◌, ==→eq, Bool-cases, Option-cases, All,
}
use libubox.Links.{has, Distinct}
use libubox.Avl.{Avl, IsAvl}
use libubox.Vlist.{Vlist, vlist_delete, is_fresh, flush_loop, vlist_flush}

module _ (A : Avl) where
  abbrev pub keys : List (ℕ × ℕ) → List ℕ
  keys = map (λ e. e.0)

  -- What is left of what is found under a key.
  abbrev pub kept : Vlist A → Option ℕ → Option ℕ
  kept s none = none
  kept s (some n) = if is_fresh A s n then some n else none

  deleted_fresh :
      (s : Vlist A) (e : ℕ × ℕ) (n : ℕ) → is_fresh A (vlist_delete A s e) n ≡ is_fresh A s n
  unfolding is_fresh vlist_delete
  deleted_fresh s e n = refl

  deleted_kept : (s : Vlist A) (e : ℕ × ℕ) (o : Option ℕ) → kept (vlist_delete A s e) o ≡ kept s o
  deleted_kept s e none = refl
  deleted_kept s e (some n) = rw (deleted_fresh s e n) refl

  loop_keeps :
      (e : ℕ × ℕ) (r : List (ℕ × ℕ)) (s : Vlist A)
      → is_fresh A s e.1 ≡ true
      → flush_loop A (e ∷ r) s ≡ flush_loop A r s
  unfolding flush_loop
  loop_keeps e r s fresh = simp (flush_loop, fresh)

  loop_deletes :
      (e : ℕ × ℕ) (r : List (ℕ × ℕ)) (s : Vlist A)
      → is_fresh A s e.1 ≡ false
      → flush_loop A (e ∷ r) s ≡ flush_loop A r (vlist_delete A s e)
  unfolding flush_loop
  loop_deletes e r s stale = simp (flush_loop, stale)

same_either : (b : Bool) → ◌≡◌ {A = Option ℕ} (if b then none else none) none
same_either true = refl
same_either false = refl

module _ (A : Avl) (laws : IsAvl A) where
  deleted_find :
      (s : Vlist A) (e : ℕ × ℕ) (i : ℕ)
      → s.no_delete ≡ false
      → A.find (vlist_delete A s e).avl i ≡ (if i == e.0 then none else A.find s.avl i)
  unfolding vlist_delete
  deleted_find s e i on = rw on (laws.find-delete s.avl e.0 i)

  others_found :
      (s : Vlist A) (e : ℕ × ℕ) (r : List (ℕ × ℕ))
      → s.no_delete ≡ false
      → has (keys A r) e.0 ≡ false
      → All (λ x. A.find s.avl x.0 ≡ some x.1) r
      → All (λ x. A.find (vlist_delete A s e).avl x.0 ≡ some x.1) r
  others_found s e [] on d found = tt
  others_found s e (x ∷ r) on d found =
      let other : (x.0 == e.0) ≡ false = ground arith in
      (deleted_find s e x.0 on ∙ simp other found.0, others_found s e r on (ground arith) found.1)

  flush_loop-find :
      (r : List (ℕ × ℕ)) (s : Vlist A) (i : ℕ)
      → s.no_delete ≡ false
      → Distinct (keys A r)
      → All (λ e. A.find s.avl e.0 ≡ some e.1) r
      → A.find (flush_loop A r s).avl i
        ≡ (if has (keys A r) i then kept A s (A.find s.avl i) else A.find s.avl i)
  unfolding flush_loop vlist_delete
  flush_loop-find [] s i on d found = refl
  flush_loop-find (e ∷ r) s i on d found = elim (Bool-cases (is_fresh A s e.1)) [
    | inl fresh ↦
        ap (λ t. A.find t.avl i) (loop_keeps A e r s fresh)
        ∙ flush_loop-find r s i on d.1 found.1
        ∙ (elim (Bool-cases (i == e.0)) [
          | inl here ↦
              let at : i ≡ e.0 = ==→eq i e.0 here in
              let gone : has (keys A r) i ≡ false = rw at d.0 in
              let node : A.find s.avl i ≡ some e.1 = rw at found.0 in
              simp (gone, here, node, kept, fresh)
          | inr there ↦ simp there
        ])
    | inr stale ↦
        let t = vlist_delete A s e in
        ap (λ u. A.find u.avl i) (loop_deletes A e r s stale)
        ∙ flush_loop-find r t i on d.1 (others_found s e r on d.0 found.1)
        ∙ (elim (Bool-cases (i == e.0)) [
          | inl here ↦
              let at : i ≡ e.0 = ==→eq i e.0 here in
              let gone : has (keys A r) i ≡ false = rw at d.0 in
              let node : A.find s.avl i ≡ some e.1 = rw at found.0 in
              let deleted : A.find t.avl i ≡ none = deleted_find s e i on ∙ simp here in
              simp (gone, here, node, deleted, kept, stale)
          | inr there ↦
              let other : A.find t.avl i ≡ A.find s.avl i = deleted_find s e i on ∙ simp there in
              simp (there, other, deleted_kept A s e (A.find s.avl i))
        ])
  ]

  flush_loop-off :
      (r : List (ℕ × ℕ)) (s : Vlist A) → s.no_delete ≡ true → (flush_loop A r s).avl ≡ s.avl
  unfolding flush_loop vlist_delete
  flush_loop-off [] s off = refl
  flush_loop-off (e ∷ r) s off = elim (Bool-cases (is_fresh A s e.1)) [
    | inl fresh ↦ ap (λ t. t.avl) (loop_keeps A e r s fresh) ∙ flush_loop-off r s off
    | inr stale ↦
        ap (λ t. t.avl) (loop_deletes A e r s stale)
        ∙ flush_loop-off r (vlist_delete A s e) off
        ∙ simp off
  ]

  -- `vlist_flush` leaves under each key the node that is there, if it is of the version of the tree or of version
  -- -1 and the tree is not of version -1, and nothing else; with `no_delete` it leaves the tree as it is.
  pub vlist_flush-find :
      (s : Vlist A) (i : ℕ)
      → A.find (vlist_flush A s).avl i
        ≡ (if s.no_delete then A.find s.avl i else kept A s (A.find s.avl i))
  unfolding vlist_flush
  vlist_flush-find s i = elim (Bool-cases s.no_delete) [
    | inl off ↦ ap (λ t. A.find t i) (flush_loop-off (A.elements s.avl) s off) ∙ simp off
    | inr on ↦
        flush_loop-find (A.elements s.avl) s i on (laws.distinct s.avl) (laws.sound s.avl)
        ∙ simp on (elim (Option-cases (A.find s.avl i)) [
          | inl none_there ↦ simp none_there (same_either (has (keys A (A.elements s.avl)) i))
          | inr (n, there) ↦ let listed = laws.complete s.avl i n there in simp (keys, listed)
        ])
  ]

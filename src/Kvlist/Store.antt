-- ===== src/Kvlist/Store.antt =====
-- What `kvlist_set` stores (kvlist.c).
use libubox.Base.{
  ℕ, ◌≤◌, ◌≡◌, ◌≢◌, inl, inr, ◌∙◌, true, Option, none, some, List, arith, leb, ◌==◌, if◌then◌else◌,
  ==→eq, ==→ne, Yields, Bool-cases, Option-cases, ◌>>=◌, length, take,
}
use libubox.Avl.{Avl, IsAvl}
use libubox.Kvlist.{outside, stored, Kvlist, kvlist_get, kvlist_delete, kvlist_set}

module _ (A : Avl) (get_len : List ℕ → Option ℕ) where
  -- The value that is stored under a name.
  abbrev pub value : Kvlist A get_len → ℕ → Option (List ℕ)
  value s name = kvlist_get A get_len s name >>= s.block

same_name : (k : ℕ) → (k == k) ≡ true
same_name k = ground arith

module _ (A : Avl) (laws : IsAvl A) (get_len : List ℕ → Option ℕ) where
  delete-find :
      (s : Kvlist A get_len) (name i : ℕ)
      → A.find (kvlist_delete A get_len s name).0.avl i
        ≡ (if i == name then none else A.find s.avl i)
  unfolding kvlist_delete
  delete-find s name i = elim (Option-cases (A.find s.avl name)) [
    | inl absent ↦
        simp (kvlist_delete, absent)
          (elim (Bool-cases (i == name)) [
            | inl here ↦
                let at : i ≡ name = ==→eq i name here in
                let gone : A.find s.avl i ≡ none = rw at absent in simp (here, gone)
            | inr there ↦ simp there
          ])
    | inr (node, there) ↦ simp (kvlist_delete, there) (laws.find-delete s.avl name i)
  ]

  delete-block :
      (s : Kvlist A get_len) (name node i : ℕ)
      → i ≢ name
      → A.find s.avl i ≡ some node
      → ((k l n : ℕ) → A.find s.avl k ≡ some n → A.find s.avl l ≡ some n → k ≡ l)
      → (kvlist_delete A get_len s name).0.block node ≡ s.block node
  unfolding kvlist_delete
  delete-block s name node i other found apart = elim (Option-cases (A.find s.avl name)) [
    | inl absent ↦ simp (kvlist_delete, absent)
    | inr (old, there) ↦ elim (Bool-cases (node == old)) [
      | inl same ↦
          let at : node ≡ old = ==→eq node old same in
          absurd (other (apart i name node found (rw at there)))
      | inr apart_from ↦ simp (kvlist_delete, there, apart_from)
    ]
  ]

  delete-value :
      (s : Kvlist A get_len) (name i : ℕ)
      → ((k l n : ℕ) → A.find s.avl k ≡ some n → A.find s.avl l ≡ some n → k ≡ l)
      → value A get_len (kvlist_delete A get_len s name).0 i
        ≡ (if i == name then none else value A get_len s i)
  delete-value s name i apart = elim (Bool-cases (i == name)) [
    | inl here ↦
        let gone : A.find (kvlist_delete A get_len s name).0.avl i ≡ none =
          delete-find s name i ∙ simp here in
        simp (gone, here)
    | inr other ↦
        let same : A.find (kvlist_delete A get_len s name).0.avl i ≡ A.find s.avl i =
          delete-find s name i ∙ simp other in
        elim (Option-cases (A.find s.avl i)) [
          | inl absent ↦ simp (same, other, absent)
          | inr (node, found) ↦
              simp (same, other, found)
                (delete-block s name node i (==→ne i name other) found apart)
        ]
  ]

  -- `kvlist_set` of bytes of the caller, of which there are as many as `get_len` says, at a new node, stores a
  -- copy under the name and leaves the values of the other names as they are, if no two names have one node.
  pub kvlist_set-value :
      (s : Kvlist A get_len) (name node len : ℕ) (bytes : List ℕ)
      → ((k l n : ℕ) → A.find s.avl k ≡ some n → A.find s.avl l ≡ some n → k ≡ l)
      → ((k : ℕ) → A.find s.avl k ≢ some node)
      → get_len bytes ≡ some len
      → len ≤ length bytes
      → (i : ℕ)
      → Yields
          (λ t.
            value A get_len t i
            ≡ (if i == name then some (take len bytes) else value A get_len s i))
          (kvlist_set A get_len s name (outside bytes) (some node))
  unfolding kvlist_set
  kvlist_set-value s name node len bytes apart new has_len enough i =
      let d = (kvlist_delete A get_len s name).0 in
      let fits : leb len (length bytes) ≡ true = ground arith in
      let free : A.find d.avl name ≡ none = delete-find s name name ∙ simp (same_name name) in
      let insert = laws.find-insert d.avl name node i free in
      let kept = delete-value s name i apart in
      simp (has_len, fits)
        (elim (Bool-cases (i == name)) [
          | inl here ↦
              let found : A.find (A.insert d.avl name node) i ≡ some node = insert ∙ simp here in
              simp (found, here, same_name node)
          | inr other ↦
              let found : A.find (A.insert d.avl name node) i ≡ A.find s.avl i =
                insert ∙ simp other (delete-find s name i ∙ simp other) in
              elim (Option-cases (A.find s.avl i)) [
                | inl absent ↦ simp (found, other, absent)
                | inr (n, there) ↦ elim (Bool-cases (n == node)) [
                  | inl same ↦
                      let at : n ≡ node = ==→eq n node same in absurd (new i (rw at at there))
                  | inr apart_from ↦
                      simp (found, other, there, apart_from)
                        (delete-block s name n i (==→ne i name other) there apart)
                ]
              ]
        ])

  kvlist_set-freed :
      (s : Kvlist A get_len) (name node : ℕ) (calloc : Option ℕ)
      → kvlist_get A get_len s name ≡ some node
      → kvlist_set A get_len s name (stored node) calloc ≡ none
  unfolding kvlist_set kvlist_delete
  kvlist_set-freed s name node calloc there =
      let freed : (kvlist_delete A get_len s name).0.block node ≡ none =
        simp (kvlist_delete, there, same_name node) in
      elim (Option-cases (s.block node)) [
        | inl unset ↦ simp unset
        | inr (bytes, held) ↦ elim (Option-cases (get_len bytes)) [
          | inl unknown ↦ simp (held, unknown)
          | inr (len, known) ↦ elim (Option-cases calloc) [
            | inl null ↦ simp (held, known, null)
            | inr (new, some_node) ↦ simp (held, known, some_node, freed)
          ]
        ]
      ]

-- ===== src/Uloop/Processes/Invariant.antt =====
-- The invariant of the list of processes (uloop.c).
use libubox.Base.{
  ℕ, ◌≤◌, ◌≡◌, inl, inr, refl, ◌∙◌, Bool, true, false, not, ◌&&◌, ◌||◌, List, [], ◌∷◌, arith, ltb,
  ◌==◌, tests, Bool-cases, All,
}
use libubox.Links.{has, Distinct, remove, has-remove, Distinct-remove, All-remove, All-mono}
use libubox.Uloop.Processes.{Process, Processes, update, insert, process_add, process_delete}

module _ (process : ℕ → Process) where
  abbrev pub pid_of : ℕ → ℕ
  pid_of i = (process i).pid

  -- Ordered by pid.
  abbrev pub Sorted : List ℕ → Type 0
  Sorted [] = Unit {0}
  Sorted (x ∷ xs) = All (λ y. pid_of x ≤ pid_of y) xs × Sorted xs

  has-insert :
      (id : ℕ) (xs : List ℕ) (i : ℕ) → has (insert process id xs) i ≡ ((i == id) || has xs i)
  unfolding insert
  has-insert id [] i = refl
  has-insert id (x ∷ xs) i = ground (arith, has-insert id xs i)

  Distinct-insert :
      (id : ℕ) (xs : List ℕ) → has xs id ≡ false → Distinct xs → Distinct (insert process id xs)
  unfolding insert
  Distinct-insert id [] h d = (refl, tt)
  Distinct-insert id (x ∷ xs) h d = ground (arith, has-insert id xs x, Distinct-insert id xs)

  All-insert :
      (P : ℕ → Type 0) (id : ℕ) (xs : List ℕ) → P id → All P xs → All P (insert process id xs)
  unfolding insert
  All-insert P id [] p ps = (p, tt)
  All-insert P id (x ∷ xs) p ps = elim (Bool-cases (ltb (process id).pid (process x).pid)) [
    | inl before ↦ rw before (p, ps)
    | inr behind ↦ rw behind (ps.0, All-insert P id xs p ps.1)
  ]

  Sorted-insert : (id : ℕ) (xs : List ℕ) → Sorted xs → Sorted (insert process id xs)
  unfolding insert
  Sorted-insert id [] o = (tt, tt)
  Sorted-insert id (x ∷ xs) o = elim (Bool-cases (ltb (process id).pid (process x).pid)) [
    | inl before ↦ rw before ((omega tests, All-mono (λ y h. omega tests) xs o.0), o)
    | inr behind ↦
        rw behind
          (All-insert (λ y. pid_of x ≤ pid_of y) id xs (omega tests) o.0, Sorted-insert id xs o.1)
  ]

Sorted-remove :
    (process : ℕ → Process) (id : ℕ) (xs : List ℕ)
    → Sorted process xs
    → Sorted process (remove id xs)
unfolding remove
Sorted-remove process id [] o = tt
Sorted-remove process id (x ∷ xs) o = elim (Bool-cases (x == id)) [
  | inl this ↦ rw this o.1
  | inr other ↦ rw other (
    All-remove (λ y. pid_of process x ≤ pid_of process y) id xs o.0,
    Sorted-remove process id xs o.1,
  )
]

Above-same :
    (f g : ℕ → Process) (x : ℕ) (xs : List ℕ)
    → ((i : ℕ) → pid_of g i ≡ pid_of f i)
    → All (λ y. pid_of f x ≤ pid_of f y) xs
    → All (λ y. pid_of g x ≤ pid_of g y) xs
Above-same f g x [] h b = tt
Above-same f g x (y ∷ ys) h b = (omega (arith, h x, h y), Above-same f g x ys h b.1)

pub Sorted-same :
    (f g : ℕ → Process) (xs : List ℕ)
    → ((i : ℕ) → pid_of g i ≡ pid_of f i)
    → Sorted f xs
    → Sorted g xs
Sorted-same f g [] h o = tt
Sorted-same f g (x ∷ xs) h o = (Above-same f g x xs h o.0, Sorted-same f g xs h o.1)

-- The invariant of the processes.
pub record IsProcesses (s : Processes) : Type 0 where
  pub listed : (i : ℕ) → has s.list i ≡ (s.process i).pending
  pub distinct : Distinct s.list
  pub sorted : Sorted s.process s.list

update-pid :
    (f : ℕ → Process) (id : ℕ) (b : Bool) (i : ℕ)
    → pid_of (update f id (record (f id) { pending = b })) i ≡ pid_of f i
update-pid f id b i = ground arith

-- `uloop_process_add` keeps the invariant.
pub process_add-IsProcesses :
    (s : Processes) (id : ℕ) → IsProcesses s → IsProcesses (process_add s id).0
unfolding process_add
process_add-IsProcesses s id v = elim (Bool-cases (s.process id).pending) [
  | inl pending ↦ simp pending v
  | inr idle ↦ simp idle (record {
    listed = λ i. has-insert s.process id s.list i ∙ ground (arith, v.listed i);
    distinct = Distinct-insert s.process id s.list (v.listed id ∙ idle) v.distinct;
    sorted =
        Sorted-same s.process (update s.process id (record (s.process id) { pending = true }))
          (insert s.process id s.list) (update-pid s.process id true)
          (Sorted-insert s.process id s.list v.sorted);
  })
]

-- What `uloop_process_delete` does: the process is not linked afterwards, and the others are.
pub record Deleted (s : Processes) (id : ℕ) (s' : Processes) : Type 0 where
  pub valid : IsProcesses s'
  pub member : (i : ℕ) → has s'.list i ≡ (has s.list i && not (i == id))
  pub pids : (i : ℕ) → pid_of s'.process i ≡ pid_of s.process i
  pub calls : s'.calls ≡ s.calls

pub process_delete-Deleted :
    (s : Processes) (id : ℕ) → IsProcesses s → Deleted s id (process_delete s id).0
unfolding process_delete
process_delete-Deleted s id v = elim (Bool-cases (s.process id).pending) [
  | inr idle ↦ simp idle (record {
    valid = v;
    member = λ i. ground (arith, v.listed i);
    pids = λ i. refl;
    calls = refl;
  })
  | inl pending ↦ simp pending (record {
    valid = record {
      listed = λ i. has-remove id s.list i v.distinct ∙ ground (arith, v.listed i);
      distinct = Distinct-remove id s.list v.distinct;
      sorted =
          Sorted-same s.process (update s.process id (record (s.process id) { pending = false }))
            (remove id s.list) (update-pid s.process id false)
            (Sorted-remove s.process id s.list v.sorted);
    };
    member = λ i. has-remove id s.list i v.distinct;
    pids = update-pid s.process id false;
    calls = refl;
  })
]

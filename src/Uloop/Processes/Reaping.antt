-- ===== src/Uloop/Processes/Reaping.antt =====
-- `uloop_handle_processes` and `uloop_clear_processes` (uloop.c).
use libubox.Base.{ap}
use libubox.Base.{
  ℕ, ◌<◌, ◌≡◌, inl, inr, refl, sym, ◌∙◌, true, false, not, ◌&&◌, ◌||◌, List, [], ◌∷◌, ◌++◌,
  append-nil, append_assoc, arith, ltb, ◌==◌, if◌then◌else◌, ==→eq, tests, Bool-cases, All,
}
use libubox.Links.{has, remove, All-mono, all_of_has}
use libubox.Uloop.Processes.{Processes, process_delete, reap_loop, handle_exits, handle_processes}
use libubox.Uloop.Processes.{clear_processes_loop, clear_processes}
use libubox.Uloop.Processes.Invariant.{
  pid_of, Sorted, Sorted-same, IsProcesses, Deleted, process_delete-Deleted,
}

-- The calls that an exit of `pid` is to make: one for each process of that pid, in the order of the list.
abbrev pub calls_for : (ℕ → ℕ) → ℕ → ℕ → List ℕ → List (ℕ × ℕ)
calls_for pids pid ret [] = []
calls_for pids pid ret (p ∷ r) =
    if pids p == pid then (p, ret) ∷ calls_for pids pid ret r else calls_for pids pid ret r

-- What the loop for one exit does, over the part `l` of the list.
pub record Reaped (pid ret : ℕ) (l : List ℕ) (s s' : Processes) : Type 0 where
  pub valid : IsProcesses s'
  pub calls : s'.calls ≡ s.calls ++ calls_for (pid_of s.process) pid ret l
  pub pids : (i : ℕ) → pid_of s'.process i ≡ pid_of s.process i
  pub member :
      (i : ℕ) → has s'.list i ≡ (has s.list i && not (has l i && (pid_of s.process i == pid)))

calls_for-nil :
    (pids : ℕ → ℕ) (pid ret : ℕ) (l : List ℕ)
    → All (λ y. pid < pids y) l
    → calls_for pids pid ret l ≡ []
calls_for-nil pids pid ret [] h = refl
calls_for-nil pids pid ret (p ∷ r) h = ground (arith, calls_for-nil pids pid ret r)

calls_for-same :
    (f g : ℕ → ℕ) (pid ret : ℕ) (l : List ℕ)
    → ((i : ℕ) → g i ≡ f i)
    → calls_for g pid ret l ≡ calls_for f pid ret l
calls_for-same f g pid ret [] h = refl
calls_for-same f g pid ret (p ∷ r) h = rw (h p, calls_for-same f g pid ret r h)

module _ (pid ret : ℕ) where
  -- A round that passes `p` over.
  Reaped-skip :
      (p : ℕ) (r : List ℕ) (s s' : Processes)
      → (pid_of s.process p == pid) ≡ false
      → Reaped pid ret r s s'
      → Reaped pid ret (p ∷ r) s s'
  Reaped-skip p r s s' ne h = record {
    valid = h.valid;
    calls = rw ne h.calls;
    pids = h.pids;
    member = λ i. h.member i ∙ ground (arith, skip i);
  }
    where
      skip :
          (i : ℕ)
          → (has r i && (pid_of s.process i == pid))
            ≡ (((i == p) || has r i) && (pid_of s.process i == pid))
      skip i = elim (Bool-cases (i == p)) [
        | inl this ↦
            let e : i ≡ p = ==→eq i p this in
            let f : (pid_of s.process i == pid) ≡ false = rw e ne in ground arith
        | inr other ↦ rw other
      ]

  -- A round that deletes `p` and calls its callback.
  Reaped-call :
      (p : ℕ) (r : List ℕ) (s d s' : Processes)
      → (pid_of s.process p == pid) ≡ true
      → Deleted s p d
      → Reaped pid ret r (record d { calls = d.calls ++ ((p, ret) ∷ []) }) s'
      → Reaped pid ret (p ∷ r) s s'
  Reaped-call p r s d s' e k h = record {
    valid = h.valid;
    calls = rw e (
        h.calls
        ∙ rw (k.calls, calls_for-same (pid_of s.process) (pid_of d.process) pid ret r k.pids)
            (append_assoc s.calls ((p, ret) ∷ []) (calls_for (pid_of s.process) pid ret r)));
    pids = λ i. h.pids i ∙ k.pids i;
    member = λ i. h.member i ∙ drop_it i;
  }
    where
      drop_it :
          (i : ℕ)
          → (has d.list i && not (has r i && (pid_of d.process i == pid)))
            ≡ (has s.list i && not (((i == p) || has r i) && (pid_of s.process i == pid)))
      drop_it i = elim (Bool-cases (i == p)) [
        | inl this ↦
            let e' : i ≡ p = ==→eq i p this in
            let f : (pid_of s.process i == pid) ≡ true = rw e' e in
            rw (k.member i, k.pids i, this, f) (ground arith)
        | inr other ↦ rw (k.member i, k.pids i, other) (ground arith)
      ]

  -- All pids from here on are higher.
  Reaped-stop :
      (l : List ℕ) (s : Processes)
      → IsProcesses s
      → All (λ y. pid < pid_of s.process y) l
      → Reaped pid ret l s s
  Reaped-stop l s v above = record {
    valid = v;
    calls = rw (calls_for-nil (pid_of s.process) pid ret l above) (sym (append-nil s.calls));
    pids = λ i. refl;
    member = λ i. elim (Bool-cases (has l i)) [
      | inl inside ↦
          let lt : pid < pid_of s.process i =
            all_of_has (λ y. pid < pid_of s.process y) l i above inside in
          ground arith
      | inr outside ↦ rw outside (ground arith)
    ];
  }

  reap_loop-Reaped :
      (l : List ℕ) (s : Processes)
      → IsProcesses s
      → Sorted s.process l
      → Reaped pid ret l s (reap_loop l pid ret s)
  unfolding reap_loop
  reap_loop-Reaped [] s v o = record {
    valid = v;
    calls = sym (append-nil s.calls);
    pids = λ i. refl;
    member = λ i. ground arith;
  }
  reap_loop-Reaped (p ∷ r) s v o = elim (Bool-cases (ltb pid (s.process p).pid)) [
    | inl stop ↦
        rw stop (Reaped-stop (p ∷ r) s v (omega tests, All-mono (λ y h. omega tests) r o.0))
    | inr no_stop ↦ elim (Bool-cases (ltb (s.process p).pid pid)) [
      | inl low ↦
          simp (no_stop, low) (Reaped-skip p r s _ (ground arith) (reap_loop-Reaped r s v o.1))
      | inr same ↦
          let k = process_delete-Deleted s p v in
          let d = (process_delete s p).0 in
          let called = record d { calls = d.calls ++ ((p, ret) ∷ []) } in
          let w : IsProcesses called = record {
            listed = k.valid.listed;
            distinct = k.valid.distinct;
            sorted = k.valid.sorted;
          } in
          simp (no_stop, same)
            (Reaped-call p r s d _ (ground arith) k
              (reap_loop-Reaped r called w (Sorted-same s.process d.process r k.pids o.1)))
    ]
  ]

-- For one child that has exited, the loop of `uloop_handle_processes` calls the callback of each process
-- of that pid once, in the order of the list and with the exit status, and of no other. Exactly those
-- are unlinked, and the invariant is kept.
pub reap-Reaped :
    (s : Processes) (pid ret : ℕ)
    → IsProcesses s
    → Reaped pid ret s.list s (reap_loop s.list pid ret s)
reap-Reaped s pid ret v = reap_loop-Reaped pid ret s.list s v v.sorted

handle_exits-IsProcesses :
    (exits : List (ℕ × ℕ)) (s : Processes) → IsProcesses s → IsProcesses (handle_exits exits s)
unfolding handle_exits
handle_exits-IsProcesses [] s v = v
handle_exits-IsProcesses ((pid, ret) ∷ r) s v =
    handle_exits-IsProcesses r (reap_loop s.list pid ret s) (reap-Reaped s pid ret v).valid

-- `uloop_handle_processes` keeps the invariant, whatever children exit.
pub handle_processes-IsProcesses :
    (exits : List (ℕ × ℕ)) (s : Processes) → IsProcesses s → IsProcesses (handle_processes exits s)
unfolding handle_processes
handle_processes-IsProcesses exits s v =
    handle_exits-IsProcesses exits (record s { do_sigchld = false })
      (record { listed = v.listed; distinct = v.distinct; sorted = v.sorted })

-- `uloop_process_delete` of the first of the list leaves the others.
process_delete-tail :
    (s : Processes) (p : ℕ) (r : List ℕ)
    → IsProcesses s
    → s.list ≡ p ∷ r
    → (process_delete s p).0.list ≡ r
unfolding process_delete remove
process_delete-tail s p r v e =
    let pending : (s.process p).pending ≡ true = sym (v.listed p) ∙ rw e (ground arith) in
    let head : remove p s.list ≡ r = rw e (ground arith) in simp (pending, head)

clear_processes_loop-idle :
    (l : List ℕ) (s : Processes)
    → IsProcesses s
    → s.list ≡ l
    → IsProcesses (clear_processes_loop l s)
      × ((clear_processes_loop l s).list ≡ [])
      × ((clear_processes_loop l s).calls ≡ s.calls)
unfolding clear_processes_loop
clear_processes_loop-idle [] s v e = (v, e, refl)
clear_processes_loop-idle (p ∷ r) s v e =
    let d = process_delete-Deleted s p v in
    let rest =
      clear_processes_loop-idle r (process_delete s p).0 d.valid (process_delete-tail s p r v e) in
    (rest.0, rest.1, rest.2 ∙ d.calls)

-- `uloop_clear_processes` leaves no process linked and none pending, and calls no callback.
pub clear_processes-idle :
    (s : Processes)
    → IsProcesses s
    → ((clear_processes s).list ≡ [])
      × ((i : ℕ) → ((clear_processes s).process i).pending ≡ false)
      × ((clear_processes s).calls ≡ s.calls)
unfolding clear_processes
clear_processes-idle s v =
    let (w, none_left, same) = clear_processes_loop-idle s.list s v refl in
    (none_left, λ i. sym (w.listed i) ∙ ap (λ l. has l i) none_left, same)

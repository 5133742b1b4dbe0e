-- ===== src/Uloop/Fds/Run.antt =====
-- The rounds of `uloop_run_events` and of its callbacks (uloop.c).
use libubox.Base.{
  ℕ, zero, suc, ◌+◌, ◌<◌, ◌≡◌, ◌⊎◌, inl, inr, refl, ap, ◌∙◌, Bool, true, false, not, ◌||◌, Option,
  none, some, List, [], ◌∷◌, map, arith, ◌==◌, if◌then◌else◌, Yields, Bool-cases, Option-cases,
  length,
}
use libubox.Uloop.Fds.{
  Events, Slot, Loop, with_fd, names, no_events, stack_loop, fd_stack_event, forget, fd_delete,
}
use libubox.Uloop.Fds.Fetch.{Polled, fetch_events, fetch_loop, fetch_one, fetch_error, mark_error}
use libubox.Uloop.Fds.Rounds.{next_event, Callback, clear_top, again, call_loop, run_events}
use libubox.Uloop.Fds.Stack.{WhenFound, stack_loop-hit, stack_loop-pass, found-cons}

-- As many entries are on the stack.
abbrev pub SameDepth : Loop → Loop → Type 0
SameDepth s t = length t.stack ≡ length s.stack

stack_loop-length :
    (u : ℕ) (e : Option Events) (xs : List Slot)
    → WhenFound (λ st. length st ≡ length xs) (stack_loop u e xs)
unfolding stack_loop
stack_loop-length u e [] = tt
stack_loop-length u e (cur ∷ r) = elim (Bool-cases (names cur u)) [
  | inl is ↦ elim (Option-cases e) [
    | inl gone ↦ rw (stack_loop-hit u e cur r is, gone) refl
    | inr (new, some_events) ↦ rw (stack_loop-hit u e cur r is, some_events) refl
  ]
  | inr other ↦ rw (stack_loop-pass u e cur r other) (
      found-cons (λ st. length st ≡ length (cur ∷ r)) (λ st. length st ≡ length r) cur
        (stack_loop u e r) (λ st p. ap suc p) (stack_loop-length u e r))
]

pub event-SameDepth : (s : Loop) (u : ℕ) (e : Option Events) → SameDepth s (fd_stack_event s u e).0
unfolding fd_stack_event
event-SameDepth s u e = elim (Bool-cases (s.fd u).flags.edge_trigger) [
  | inr level ↦ rw level refl
  | inl edge ↦
      let left = stack_loop-length u e s.stack in
      elim (Option-cases (stack_loop u e s.stack)) [
        | inl gone ↦ rw (edge, gone) refl
        | inr (st, got) ↦ rw (edge, got) (rw got at left)
      ]
]

fd_delete-SameDepth : (s : Loop) (u : ℕ) → SameDepth s (fd_delete s u)
unfolding fd_delete
fd_delete-SameDepth s u = elim (Bool-cases (s.fd u).registered) [
  | inr idle ↦ rw idle refl
  | inl live ↦ rw live (
      event-SameDepth
        (with_fd (record s { queue = map (forget u) s.queue }) u
          (record (s.fd u) { registered = false }))
        u none)
]

fetch_error-SameDepth : (s : Loop) (u : ℕ) (failed : Bool) → SameDepth s (fetch_error s u failed)
unfolding fetch_error
fetch_error-SameDepth s u false = refl
fetch_error-SameDepth s u true = elim (Bool-cases (s.fd u).flags.error_cb) [
  | inl callback ↦ simp callback
  | inr none_such ↦ simp none_such (fd_delete-SameDepth (mark_error s u) u)
]

fetch_one-SameDepth : (s : Loop) (p : Polled) → SameDepth s (fetch_one s p).0
unfolding fetch_one
fetch_one-SameDepth s p = elim (Option-cases p.ptr) [
  | inl null ↦ let e : (fetch_one s p).0 ≡ s = simp (fetch_one, null) in ap (λ t. length t.stack) e
  | inr (u, is) ↦
      let t = fetch_error s u p.err_or_hup in
      let depth = fetch_error-SameDepth s u p.err_or_hup in
      elim (Bool-cases p.rdhup) [
        | inl hangs_up ↦ simp (SameDepth, fetch_one, is, hangs_up) depth
        | inr stays ↦ elim (Bool-cases (not (p.readable || p.writable || p.err_or_hup))) [
          | inl nothing ↦ simp (SameDepth, fetch_one, is, stays, nothing) depth
          | inr something ↦ simp (SameDepth, fetch_one, is, stays, something) depth
        ]
      ]
]

fetch_loop-SameDepth : (s : Loop) (ps : List Polled) → SameDepth s (fetch_loop s ps).0
unfolding fetch_loop
fetch_loop-SameDepth s [] = refl
fetch_loop-SameDepth s (p ∷ r) = fetch_loop-SameDepth (fetch_one s p).0 r ∙ fetch_one-SameDepth s p

fetch_events-SameDepth :
    (s : Loop) (waited : Option (List Polled)) → SameDepth s (fetch_events s waited)
unfolding fetch_events
fetch_events-SameDepth s none = refl
fetch_events-SameDepth s (some ps) = fetch_loop-SameDepth s ps

next_event-SameDepth : (s : Loop) (q : List Slot) → SameDepth s (next_event s q).0
unfolding next_event
next_event-SameDepth s [] = refl
next_event-SameDepth s (cur ∷ r) = elim (Option-cases cur.fd) [
  | inl null ↦ simp null (next_event-SameDepth s r)
  | inr (v, is) ↦ elim (Bool-cases (s.fd v).cb) [
    | inr no_cb ↦ simp (is, no_cb) (next_event-SameDepth s r)
    | inl has_cb ↦ elim (Bool-cases (fd_stack_event s v (some cur.events)).1) [
      | inl buffered ↦
          simp (is, has_cb, buffered)
            (next_event-SameDepth (fd_stack_event s v (some cur.events)).0 r
              ∙ event-SameDepth s v (some cur.events))
      | inr delivered ↦ simp (is, has_cb, delivered) refl
    ]
  ]
]

-- What a callback finds: no events in the entry on top.
abbrev pub cleared : Loop → Loop
cleared s = record s { stack = clear_top s.stack }

clear_top-length : (xs : List Slot) → length (clear_top xs) ≡ length xs
clear_top-length [] = refl
clear_top-length (x ∷ xs) = refl

-- Whether the entry on top is to be called again.
abbrev pub more : List Slot → Bool
more [] = false
more (cur ∷ next) = elim (again cur) [ none ↦ false | some _ ↦ true ]

stack_cases : (xs : List Slot) → (xs ≡ []) ⊎ ((cur : Slot) × (next : List Slot) × (xs ≡ cur ∷ next))
stack_cases [] = inl refl
stack_cases (cur ∷ next) = inr (cur, next, refl)

fetched-SameDepth :
    (s : Loop) (waited : Option (List Polled))
    → SameDepth s (if length s.queue == 0 then fetch_events s waited else s)
fetched-SameDepth s waited = elim (Bool-cases (length s.queue == 0)) [
  | inl idle ↦ rw idle (fetch_events-SameDepth s waited)
  | inr busy ↦ rw busy refl
]

shallower :
    (a b : Loop) (depth : ℕ) (o : Option Loop)
    → Yields (λ t. length t.stack + 1 ≡ depth) o
    → depth ≡ length a.stack + 1
    → SameDepth b a
    → Yields (SameDepth b) o
shallower a b depth none y deeper same = y
shallower a b depth (some t) y deeper same = omega arith

module _ (cb : Callback) (m : Loop → ℕ)
    (keep : (u : ℕ) (e : Events) (s : Loop) → SameDepth s (cb u e s))
    (down : (u : ℕ) (e : Events) (s : Loop)
      → more (cb u e (cleared s)).stack ≡ true
      → m (cb u e (cleared s)) < m s) where
  call_loop-returns :
      (n u : ℕ) (e : Events) (s : Loop)
      → m s < n
      → 0 < length s.stack
      → Yields (λ t. length t.stack + 1 ≡ length s.stack) (call_loop n cb u e s)
  unfolding call_loop
  call_loop-returns zero u e s fuel some_entry = absurd (omega arith)
  call_loop-returns (suc n) u e s fuel some_entry =
      let t = cb u e (cleared s) in
      let depth : length t.stack ≡ length s.stack =
        keep u e (cleared s) ∙ clear_top-length s.stack in
      elim (stack_cases t.stack) [
        | inl empty ↦ absurd (omega (arith, depth, ap length empty))
        | inr (cur, next, is) ↦ elim (Option-cases (again cur)) [
          | inl over ↦ simp (call_loop, Yields, is, over) (omega (arith, depth, ap length is))
          | inr (e', goes_on) ↦
              simp (call_loop, Yields, is, goes_on)
                (rw depth at (
                  call_loop-returns n u e' t (omega (arith, down u e s (simp (more, is, goes_on))))
                    (omega (arith, depth))))
        ]
      ]

  run_from :
      (t s : Loop)
      → SameDepth s t
      → (n : ℕ) × Yields (SameDepth s) (elim (next_event t t.queue).1 [
        | none ↦ some (next_event t t.queue).0
        | some ev ↦ call_loop n cb ev.0 ev.1 (record (next_event t t.queue).0 {
          stack = record { fd = some ev.0; events = no_events } ∷ (next_event t t.queue).0.stack;
        })
      ])
  run_from t s depth =
      let r = next_event t t.queue in
      let same : SameDepth s r.0 = next_event-SameDepth t t.queue ∙ depth in
      elim (Option-cases r.1) [
        | inl nothing ↦ (0, rw nothing same)
        | inr (ev, next) ↦
            let started = record r.0 {
              stack = record { fd = some ev.0; events = no_events } ∷ r.0.stack;
            } in
            (
              suc (m started),
              rw next (
                  shallower r.0 s (length started.stack) _
                    (call_loop-returns (suc (m started)) ev.0 ev.1 started (omega arith)
                      (omega arith))
                    (omega arith) same),
            )
      ]

  -- `uloop_run_events` returns, with some fuel, and leaves as many callbacks running as there were, whatever the
  -- callbacks do that return with the stack as deep as they found it, and that diminish a measure where
  -- they leave events for themselves.
  pub run_events-returns :
      (waited : Option (List Polled)) (s : Loop)
      → (n : ℕ) × Yields (SameDepth s) (run_events n cb waited s)
  unfolding run_events
  run_events-returns waited s =
      run_from (if length s.queue == 0 then fetch_events s waited else s) s
        (fetched-SameDepth s waited)

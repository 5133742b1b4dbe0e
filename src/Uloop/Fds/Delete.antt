-- ===== src/Uloop/Fds/Delete.antt =====
-- What `uloop_fd_delete` leaves of a descriptor (uloop.c).
use libubox.Base.{
  ℕ, ◌≡◌, ◌⊎◌, inl, inr, refl, sym, ap, ◌∙◌, Bool, true, false, Option, none, some, List, [], ◌∷◌,
  map, arith, ◌==◌, Bool-cases, Option-cases, All,
}
use libubox.Uloop.Fds.{
  Events, Slot, Loop, with_fd, names, buffer_events, stack_loop, fd_stack_event, forget, fd_delete,
}
use libubox.Uloop.Fds.Rounds.{next_event}
use libubox.Uloop.Fds.Stack.{
  names-none, names-events, WhenFound, stack_loop-hit, stack_loop-pass, found-cons,
  fd_stack_event-same,
}

-- No entry names the descriptor.
abbrev pub AreFree : ℕ → List Slot → Type 0
AreFree u = All (λ cur. names cur u ≡ false)

-- One entry at most names it.
abbrev pub AtMostOnce : ℕ → List Slot → Type 0
AtMostOnce u [] = Unit {0}
AtMostOnce u (cur ∷ next) = ((names cur u ≡ false) × AtMostOnce u next) ⊎ AreFree u next

-- What the loop has left of a descriptor: nothing.
pub record IsForgotten (u : ℕ) (s : Loop) : Type 0 where
  pub unregistered : (s.fd u).registered ≡ false
  pub queue : AreFree u s.queue
  pub stack : AreFree u s.stack

-- A descriptor whose callback may run: it does once at most, and if it does, then the descriptor is registered
-- and edge-triggered.
pub record IsStacked (u : ℕ) (s : Loop) : Type 0 where
  pub once : AtMostOnce u s.stack
  pub running :
      AreFree u s.stack ⊎ (((s.fd u).registered ≡ true) × ((s.fd u).flags.edge_trigger ≡ true))

-- Whether the callback to run is that of the descriptor.
abbrev pub calls : Option (ℕ × Events) → ℕ → Bool
calls none u = false
calls (some e) u = e.0 == u

forget-free : (u : ℕ) (xs : List Slot) → AreFree u (map (forget u) xs)
unfolding forget
forget-free u [] = tt
forget-free u (cur ∷ r) = elim (Bool-cases (names cur u)) [
  | inl is ↦ rw is (names-none cur u, forget-free u r)
  | inr other ↦ rw other (other, forget-free u r)
]

stack_loop-free :
    (u v : ℕ) (e : Option Events) (xs : List Slot)
    → AreFree u xs
    → WhenFound (AreFree u) (stack_loop v e xs)
unfolding stack_loop
stack_loop-free u v e [] free = tt
stack_loop-free u v none (cur ∷ r) free = elim (Bool-cases (names cur v)) [
  | inl is ↦ rw (stack_loop-hit v none cur r is) (names-none cur u, free.1)
  | inr other ↦ rw (stack_loop-pass v none cur r other) (
      found-cons (AreFree u) (AreFree u) cur (stack_loop v none r) (λ st p. (free.0, p))
        (stack_loop-free u v none r free.1))
]
stack_loop-free u v (some e) (cur ∷ r) free = elim (Bool-cases (names cur v)) [
  | inl is ↦
      rw (stack_loop-hit v (some e) cur r is)
        (names-events cur (buffer_events cur.events e) u ∙ free.0, free.1)
  | inr other ↦ rw (stack_loop-pass v (some e) cur r other) (
      found-cons (AreFree u) (AreFree u) cur (stack_loop v (some e) r) (λ st p. (free.0, p))
        (stack_loop-free u v (some e) r free.1))
]

stack_loop-none :
    (u : ℕ) (xs : List Slot) → AtMostOnce u xs → WhenFound (AreFree u) (stack_loop u none xs)
unfolding stack_loop
stack_loop-none u [] once = tt
stack_loop-none u (cur ∷ r) (inl other) = rw (stack_loop-pass u none cur r other.0) (
    found-cons (AreFree u) (AreFree u) cur (stack_loop u none r) (λ st p. (other.0, p))
      (stack_loop-none u r other.1))
stack_loop-none u (cur ∷ r) (inr free) = elim (Bool-cases (names cur u)) [
  | inl is ↦ rw (stack_loop-hit u none cur r is) (names-none cur u, free)
  | inr other ↦ rw (stack_loop-pass u none cur r other) (
      found-cons (AreFree u) (AreFree u) cur (stack_loop u none r) (λ st p. (other, p))
        (stack_loop-free u u none r free))
]

-- An edge-triggered descriptor that is on the stack is found there.
stack_loop-missing : (u : ℕ) (xs : List Slot) → stack_loop u none xs ≡ none → AreFree u xs
stack_loop-missing u [] e = tt
stack_loop-missing u (cur ∷ r) e = elim (Bool-cases (names cur u)) [
  | inl is ↦ let hit = sym (stack_loop-hit u none cur r is) ∙ e in absurd cc
  | inr other ↦ elim (Option-cases (stack_loop u none r)) [
    | inl gone ↦ (other, stack_loop-missing u r gone)
    | inr (st, got) ↦
        let pass : some (cur ∷ st) ≡ none =
          rw got at (sym (stack_loop-pass u none cur r other) ∙ e) in
        absurd cc
  ]
]

-- The stack after the event -1.
minus_one-free :
    (s : Loop) (u : ℕ)
    → AtMostOnce u s.stack
    → AreFree u s.stack ⊎ ((s.fd u).flags.edge_trigger ≡ true)
    → AreFree u (fd_stack_event s u none).0.stack
unfolding fd_stack_event
minus_one-free s u once run = elim (Bool-cases (s.fd u).flags.edge_trigger) [
  | inr level ↦ elim run [ inl free ↦ rw level free | inr edge ↦ absurd cc ]
  | inl edge ↦
      let left = stack_loop-none u s.stack once in
      elim (Option-cases (stack_loop u none s.stack)) [
        | inl gone ↦ rw (edge, gone) (stack_loop-missing u s.stack gone)
        | inr (st, got) ↦ rw (edge, got) (rw got at left)
      ]
]

fd_delete-free : (s : Loop) (u : ℕ) → IsStacked u s → IsForgotten u (fd_delete s u)
unfolding fd_delete
fd_delete-free s u v = elim (Bool-cases (s.fd u).registered) [
  | inr idle ↦ rw idle (record {
    unregistered = idle;
    queue = forget-free u s.queue;
    stack = elim v.running [ inl free ↦ free | inr run ↦ absurd cc ];
  })
  | inl live ↦
      let t =
        with_fd (record s { queue = map (forget u) s.queue }) u
          (record (s.fd u) { registered = false }) in
      let same = fd_stack_event-same t u none in
      let here : (u == u) ≡ true = ground arith in
      let gone : (t.fd u).registered ≡ false = simp here in
      rw live (record {
        unregistered = simp here (ap (λ f. (f u).registered) same.0 ∙ gone);
        queue = rw (same.1) (forget-free u s.queue);
        stack =
            minus_one-free t u v.once
              (elim v.running [ inl free ↦ inl free | inr run ↦ inr (simp (here, run.1)) ]);
      })
]

plus_one-free :
    (s : Loop) (u v : ℕ) (e : Events)
    → AreFree u s.stack
    → AreFree u (fd_stack_event s v (some e)).0.stack
unfolding fd_stack_event
plus_one-free s u v e free = elim (Bool-cases (s.fd v).flags.edge_trigger) [
  | inr level ↦ rw level free
  | inl edge ↦
      let left = stack_loop-free u v (some e) s.stack free in
      elim (Option-cases (stack_loop v (some e) s.stack)) [
        | inl gone ↦ rw (edge, gone) free
        | inr (st, got) ↦ rw (edge, got) (rw got at left)
      ]
]

other_fd : (cur : Slot) (u v : ℕ) → cur.fd ≡ some v → names cur u ≡ false → (v == u) ≡ false
unfolding names
other_fd cur u v is other = rw is at other

next_event-free :
    (s : Loop) (q : List Slot) (u : ℕ)
    → (s.fd u).registered ≡ false
    → AreFree u q
    → AreFree u s.stack
    → IsForgotten u (next_event s q).0 × (calls (next_event s q).1 u ≡ false)
unfolding next_event
next_event-free s [] u idle free stack =
    (record { unregistered = idle; queue = tt; stack = stack }, refl)
next_event-free s (cur ∷ r) u idle free stack = elim (Option-cases cur.fd) [
  | inl null ↦ simp null (next_event-free s r u idle free.1 stack)
  | inr (v, is) ↦ elim (Bool-cases (s.fd v).cb) [
    | inr no_cb ↦ simp (is, no_cb) (next_event-free s r u idle free.1 stack)
    | inl has_cb ↦
        let same = fd_stack_event-same s v (some cur.events) in
        elim (Bool-cases (fd_stack_event s v (some cur.events)).1) [
          | inl buffered ↦
              simp (is, has_cb, buffered)
                (next_event-free (fd_stack_event s v (some cur.events)).0 r u
                  (ap (λ f. (f u).registered) same.0 ∙ idle) free.1
                  (plus_one-free s u v cur.events stack))
          | inr delivered ↦
              simp (is, has_cb, delivered)
                (
                  record { unregistered = idle; queue = free.1; stack = stack },
                  other_fd cur u v is free.0,
                )
        ]
  ]
]

-- After `uloop_fd_delete` of a descriptor whose callback runs once at most, and only where it is registered
-- and edge-triggered, no fetched event and no running callback names it, and the events that are left call
-- the others only.
pub fd_delete-IsForgotten :
    (s : Loop) (u : ℕ)
    → IsStacked u s
    → IsForgotten u (fd_delete s u)
      × (IsForgotten u (next_event (fd_delete s u) (fd_delete s u).queue).0
          × (calls (next_event (fd_delete s u) (fd_delete s u).queue).1 u ≡ false))
fd_delete-IsForgotten s u v =
    let f = fd_delete-free s u v in
    (f, next_event-free (fd_delete s u) (fd_delete s u).queue u f.unregistered f.queue f.stack)

-- ===== src/Uloop/Fds/Delivery.antt =====
-- The events that `uloop_run_events` delivers (uloop.c).
use libubox.Base.{
  ℕ, ◌≡◌, ◌⊎◌, inl, inr, refl, ap, ◌∙◌, Bool, true, false, not, ◌&&◌, ◌||◌, Option, none, some,
  List, [], ◌∷◌, ◌++◌, arith, Bool-cases, Option-cases, All,
}
use libubox.Uloop.Fds.{Events, Fd, Slot, Loop, names, buffer_events, stack_loop, fd_stack_event}
use libubox.Uloop.Fds.Rounds.{next_event}
use libubox.Uloop.Fds.Stack.{
  names-events, WhenFound, stack_loop-hit, stack_loop-pass, found-any, found-cons,
  fd_stack_event-same,
}

-- Whether the events are among those of an entry that are buffered.
abbrev pub holds : Events → Events → Bool
holds e f = ((not e.read || f.read) && (not e.write || f.write)) && f.buffered

-- A callback of the descriptor is running, and it will be called again with these events.
abbrev pub IsBuffered : ℕ → Events → List Slot → Type 0
IsBuffered u e [] = ⊥
IsBuffered u e (cur ∷ next) =
    ((names cur u ≡ true) × (holds e cur.events ≡ true)) ⊎ IsBuffered u e next

-- An event that nothing is called for: of no descriptor, of one without a callback, or buffered.
abbrev pub IsHandled : (ℕ → Fd) → List Slot → Slot → Type 0
IsHandled fd stack cur =
    (cur.fd ≡ none)
    ⊎ ((u : ℕ) × (cur.fd ≡ some u) × (((fd u).cb ≡ false) ⊎ IsBuffered u cur.events stack))

-- What becomes of the entries of the queue: those that are skipped are handled, and the first other one is
-- called for, with its events and with those after it still to come.
abbrev pub Delivered : (ℕ → Fd) → List Slot → Loop → Option (ℕ × Events) → Type 0
Delivered fd q t none = All (IsHandled fd t.stack) q × (t.queue ≡ [])
Delivered fd q t (some ev) =
    (skipped : List Slot) × (q ≡ skipped ++ (record { fd = some ev.0; events = ev.1 } ∷ t.queue))
    × All (IsHandled fd t.stack) skipped
    × ((fd ev.0).cb ≡ true)

new_events-holds : (old e : Events) → holds e (buffer_events old e) ≡ true
new_events-holds old e = ground arith

more_events-holds : (old e e' : Events) → holds e old ≡ true → holds e (buffer_events old e') ≡ true
more_events-holds old e e' h = ground arith

stack_loop-IsBuffered :
    (v : ℕ) (e : Events) (xs : List Slot) → WhenFound (IsBuffered v e) (stack_loop v (some e) xs)
unfolding stack_loop
stack_loop-IsBuffered v e [] = tt
stack_loop-IsBuffered v e (cur ∷ r) = elim (Bool-cases (names cur v)) [
  | inl is ↦
      rw (stack_loop-hit v (some e) cur r is)
        (inl (names-events cur (buffer_events cur.events e) v ∙ is, new_events-holds cur.events e))
  | inr other ↦ rw (stack_loop-pass v (some e) cur r other) (
      found-cons (IsBuffered v e) (IsBuffered v e) cur (stack_loop v (some e) r) (λ st p. inr p)
        (stack_loop-IsBuffered v e r))
]

stack_loop-keeps :
    (u v : ℕ) (e e' : Events) (xs : List Slot)
    → IsBuffered u e xs
    → WhenFound (IsBuffered u e) (stack_loop v (some e') xs)
unfolding stack_loop
stack_loop-keeps u v e e' [] b = tt
stack_loop-keeps u v e e' (cur ∷ r) b = elim (Bool-cases (names cur v)) [
  | inl is ↦ rw (stack_loop-hit v (some e') cur r is) (elim b [
    | inl here ↦ inl (
      names-events cur (buffer_events cur.events e') u ∙ here.0,
      more_events-holds cur.events e e' here.1,
    )
    | inr later ↦ inr later
  ])
  | inr other ↦ rw (stack_loop-pass v (some e') cur r other) (elim b [
    | inl here ↦
        found-cons (IsBuffered u e) (λ st. Unit {0}) cur (stack_loop v (some e') r)
          (λ st p. inl here) (found-any (stack_loop v (some e') r))
    | inr later ↦
        found-cons (IsBuffered u e) (IsBuffered u e) cur (stack_loop v (some e') r) (λ st p. inr p)
          (stack_loop-keeps u v e e' r later)
  ])
]

event-keeps :
    (s : Loop) (u v : ℕ) (e e' : Events)
    → IsBuffered u e s.stack
    → IsBuffered u e (fd_stack_event s v (some e')).0.stack
unfolding fd_stack_event
event-keeps s u v e e' b = elim (Bool-cases (s.fd v).flags.edge_trigger) [
  | inr level ↦ rw level b
  | inl edge ↦
      let left = stack_loop-keeps u v e e' s.stack b in
      elim (Option-cases (stack_loop v (some e') s.stack)) [
        | inl gone ↦ rw (edge, gone) b
        | inr (st, got) ↦ rw (edge, got) (rw got at left)
      ]
]

event-IsBuffered :
    (s : Loop) (v : ℕ) (e : Events)
    → (fd_stack_event s v (some e)).1 ≡ true
    → IsBuffered v e (fd_stack_event s v (some e)).0.stack
unfolding fd_stack_event
event-IsBuffered s v e h = elim (Bool-cases (s.fd v).flags.edge_trigger) [
  | inr level ↦ let h' : false ≡ true = rw level at h in absurd cc
  | inl edge ↦
      let left = stack_loop-IsBuffered v e s.stack in
      elim (Option-cases (stack_loop v (some e) s.stack)) [
        | inl gone ↦ let h' : false ≡ true = rw (edge, gone) at h in absurd cc
        | inr (st, got) ↦ rw (edge, got) (rw got at left)
      ]
]

next_event-keeps :
    (s : Loop) (q : List Slot) (u : ℕ) (e : Events)
    → IsBuffered u e s.stack
    → IsBuffered u e (next_event s q).0.stack
unfolding next_event
next_event-keeps s [] u e b = b
next_event-keeps s (cur ∷ r) u e b = elim (Option-cases cur.fd) [
  | inl null ↦ simp null (next_event-keeps s r u e b)
  | inr (v, is) ↦ elim (Bool-cases (s.fd v).cb) [
    | inr no_cb ↦ simp (is, no_cb) (next_event-keeps s r u e b)
    | inl has_cb ↦ elim (Bool-cases (fd_stack_event s v (some cur.events)).1) [
      | inl buffered ↦
          simp (is, has_cb, buffered)
            (next_event-keeps (fd_stack_event s v (some cur.events)).0 r u e
              (event-keeps s u v e cur.events b))
      | inr delivered ↦ simp (is, has_cb, delivered) b
    ]
  ]
]

-- The entry that a round skips.
Delivered-skip :
    (fd : ℕ → Fd) (t : Loop) (cur : Slot) (q : List Slot) (e : Option (ℕ × Events))
    → IsHandled fd t.stack cur
    → Delivered fd q t e
    → Delivered fd (cur ∷ q) t e
Delivered-skip fd t cur q none h d = ((h, d.0), d.1)
Delivered-skip fd t cur q (some e) h d = (cur ∷ d.0, ap (λ xs. cur ∷ xs) d.1, (h, d.2), d.3)

-- The rounds of `uloop_run_events` up to a callback lose no event: each entry that they take off the queue is of
-- no descriptor, of one without a callback, or is kept for a callback that is running, which will be called
-- again with its events; and the callback called next is that of the first other entry, with its events.
pub next_event-Delivered :
    (s : Loop) (q : List Slot) → Delivered s.fd q (next_event s q).0 (next_event s q).1
unfolding next_event
next_event-Delivered s [] = (tt, refl)
next_event-Delivered s (cur ∷ r) = elim (Option-cases cur.fd) [
  | inl null ↦ simp null (
      Delivered-skip s.fd (next_event s r).0 cur r (next_event s r).1 (inl null)
        (next_event-Delivered s r))
  | inr (v, is) ↦ elim (Bool-cases (s.fd v).cb) [
    | inr no_cb ↦
        simp (is, no_cb)
          (Delivered-skip s.fd (next_event s r).0 cur r (next_event s r).1 (inr (v, is, inl no_cb))
            (next_event-Delivered s r))
    | inl has_cb ↦
        let t = (fd_stack_event s v (some cur.events)).0 in
        let same = fd_stack_event-same s v (some cur.events) in
        elim (Bool-cases (fd_stack_event s v (some cur.events)).1) [
          | inl buffered ↦
              simp (is, has_cb, buffered)
                (Delivered-skip s.fd (next_event t r).0 cur r (next_event t r).1
                  (inr (
                    v,
                    is,
                    inr (
                        next_event-keeps t r v cur.events
                          (event-IsBuffered s v cur.events buffered)),
                  ))
                  (rw same.0 at (next_event-Delivered t r)))
          | inr delivered ↦
              simp (is, has_cb, delivered) ([], ap (λ o. record cur { fd = o } ∷ r) is, tt, refl)
        ]
  ]
]

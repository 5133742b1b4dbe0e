-- ===== src/Uloop/Fds/Stack.antt =====
-- The entries that `uloop_fd_stack_event` finds and changes (uloop.c).
use libubox.Base.{
  ℕ, ◌≡◌, inl, inr, refl, true, false, Option, none, some, List, ◌∷◌, Bool-cases, Option-cases,
}
use libubox.Uloop.Fds.{Events, Slot, Loop, names, buffer_events, stack_loop, fd_stack_event}

pub names-none : (cur : Slot) (u : ℕ) → names (record cur { fd = none }) u ≡ false
unfolding names
names-none cur u = refl

pub names-events :
    (cur : Slot) (e : Events) (u : ℕ) → names (record cur { events = e }) u ≡ names cur u
unfolding names
names-events cur e u = refl

-- Of the entries that the loop of `uloop_fd_stack_event` leaves, if it finds one.
abbrev pub WhenFound : (List Slot → Type 0) → Option (List Slot) → Type 0
WhenFound P none = Unit {0}
WhenFound P (some st) = P st

pub stack_loop-hit :
    (u : ℕ) (e : Option Events) (cur : Slot) (next : List Slot)
    → names cur u ≡ true
    → stack_loop u e (cur ∷ next)
      ≡ some (elim e [
        | none ↦ record cur { fd = none } ∷ next
        | some new ↦ record cur { events = buffer_events cur.events new } ∷ next
      ])
unfolding stack_loop
stack_loop-hit u e cur next is = simp (stack_loop, is)

pub stack_loop-pass :
    (u : ℕ) (e : Option Events) (cur : Slot) (next : List Slot)
    → names cur u ≡ false
    → stack_loop u e (cur ∷ next)
      ≡ elim (stack_loop u e next) [ none ↦ none | some r ↦ some (cur ∷ r) ]
unfolding stack_loop
stack_loop-pass u e cur next other = simp (stack_loop, other)

pub found-any : (o : Option (List Slot)) → WhenFound (λ st. Unit {0}) o
found-any none = tt
found-any (some st) = tt

pub found-cons :
    (P R : List Slot → Type 0) (cur : Slot) (o : Option (List Slot))
    → ((st : List Slot) → R st → P (cur ∷ st))
    → WhenFound R o
    → WhenFound P (elim o [ none ↦ none | some r ↦ some (cur ∷ r) ])
found-cons P R cur none f p = tt
found-cons P R cur (some st) f p = f st p

pub fd_stack_event-same :
    (s : Loop) (u : ℕ) (e : Option Events)
    → ((fd_stack_event s u e).0.fd ≡ s.fd) × ((fd_stack_event s u e).0.queue ≡ s.queue)
unfolding fd_stack_event
fd_stack_event-same s u e = elim (Bool-cases (s.fd u).flags.edge_trigger) [
  | inr level ↦ rw level (refl, refl)
  | inl edge ↦ elim (Option-cases (stack_loop u e s.stack)) [
    | inl gone ↦ rw (edge, gone) (refl, refl)
    | inr (st, got) ↦ rw (edge, got) (refl, refl)
  ]
]

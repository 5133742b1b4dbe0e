-- ===== src/Uloop/Fds/Rounds.antt =====
-- `uloop_run_events` and its loops (uloop.c).
use libubox.Base.{
  ℕ, zero, suc, true, false, ◌||◌, Option, none, some, List, [], ◌∷◌, ◌==◌, if◌then◌else◌, length,
}
use libubox.Uloop.Fds.{Events, no_events, Slot, Loop, fd_stack_event}
use libubox.Uloop.Fds.Fetch.{Polled, fetch_events}

-- The rounds of `uloop_run_events` that call nothing, and the descriptor and the events to call with.
unfoldable pub next_event : Loop → List Slot → Loop × Option (ℕ × Events)
next_event s [] = (record s { queue = [] }, none)
next_event s (cur ∷ r) = elim cur.fd [
  | none ↦ next_event s r
  | some u ↦ elim (s.fd u).cb [
    | false ↦ next_event s r
    | true ↦
        let (t, buffered) = fd_stack_event s u (some cur.events) in
        elim buffered [
          | true ↦ next_event t r
          | false ↦ (record s { queue = r }, some (u, cur.events))
        ]
  ]
]

-- `stack_cur.events = 0` of the entry on top.
abbrev pub clear_top : List Slot → List Slot
clear_top [] = []
clear_top (cur ∷ next) = record cur { events = no_events } ∷ next

abbrev pub Callback : Type 0
Callback = ℕ → Events → Loop → Loop

-- Whether the `do` loop goes on after a round: with which events.
abbrev pub again : Slot → Option Events
again cur = elim cur.fd [
  | none ↦ none
  | some _ ↦
      if cur.events.read || cur.events.write
      then some (record cur.events { buffered = false })
      else none
]

-- The `do` loop of `uloop_run_events`, on fuel. A callback that runs the loop itself has taken its entries
-- off the stack when it returns, so that the entry on top is that of `u` again; `none` is a stack without it.
unfoldable pub call_loop : ℕ → Callback → ℕ → Events → Loop → Option Loop
call_loop zero cb u e s = none
call_loop (suc n) cb u e s =
    let t = cb u e (record s { stack = clear_top s.stack }) in
    elim t.stack [
      | [] ↦ none
      | cur ∷ next ↦ elim (again cur) [
        | none ↦ some (record t { stack = next })
        | some e' ↦ call_loop n cb u e' t
      ]
    ]

-- `uloop_run_events`.
unfoldable pub run_events : ℕ → Callback → Option (List Polled) → Loop → Option Loop
run_events n cb waited s =
    let fetched = if length s.queue == 0 then fetch_events s waited else s in
    let (t, e) = next_event fetched fetched.queue in
    elim e [
      | none ↦ some t
      | some ev ↦
          call_loop n cb ev.0 ev.1
            (record t { stack = record { fd = some ev.0; events = no_events } ∷ t.stack })
    ]

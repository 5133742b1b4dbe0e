-- ===== src/Uloop/Fds/Tests.antt =====
-- The theorems about descriptors at concrete ones, and runs of the model.
use libubox.Base.{
  ℕ, ◌<◌, ◌≡◌, inl, inr, refl, true, false, none, some, List, [], ◌∷◌, arith, ltb, Yields,
  Option-cases, length,
}
use libubox.Uloop.Fds.{
  Events, no_events, Flags, Fd, Slot, ctl_del, Loop, names, stack_loop, fd_stack_event, forget,
  fd_delete, fd_add,
}
use libubox.Uloop.Fds.Fetch.{Polled, fetch_error, fetch_one, fetch_loop, fetch_events}
use libubox.Uloop.Fds.Rounds.{next_event, clear_top, Callback, call_loop, run_events}
use libubox.Uloop.Fds.Stack.{fd_stack_event-same}
use libubox.Uloop.Fds.Delete.{IsForgotten, calls, fd_delete-IsForgotten}
use libubox.Uloop.Fds.Delivery.{Delivered, next_event-Delivered}
use libubox.Uloop.Fds.Run.{SameDepth, event-SameDepth, cleared, more, run_events-returns}

abbrev edge : Flags
edge = record {
  read = true;
  write = false;
  edge_trigger = true;
  blocking = false;
  error_cb = false;
}

abbrev level : Flags
level = record {
  read = true;
  write = false;
  edge_trigger = false;
  blocking = false;
  error_cb = false;
}

abbrev read_event : Events
read_event = record { read = true; write = false; buffered = false }

-- Each descriptor below 5 is registered, edge-triggered and has a callback, the others have none.
abbrev descriptors : ℕ → Fd
descriptors i = record {
  cb = ltb i 5;
  eof = false;
  error = false;
  registered = ltb i 5;
  flags = edge;
}

-- The callback of 3 runs, and events are left for 3, 7 and 4, the latter twice.
abbrev busy : Loop
busy = record {
  fd = descriptors;
  stack = record { fd = some 3; events = no_events } ∷ [];
  queue =
      record { fd = some 3; events = read_event }
      ∷ record { fd = some 7; events = read_event }
      ∷ record { fd = some 4; events = read_event }
      ∷ record { fd = some 4; events = read_event }
      ∷ [];
  calls = [];
}

-- Its own event is kept for it, that of 7 has no callback, and that of 4 is called for.
skips_two : (next_event busy busy.queue).1 ≡ some (4, read_event)
unfolding next_event fd_stack_event stack_loop names
skips_two = refl

fd_delete-IsForgotten_example :
    IsForgotten 3 (fd_delete busy 3)
    × (IsForgotten 3 (next_event (fd_delete busy 3) (fd_delete busy 3).queue).0
        × (calls (next_event (fd_delete busy 3) (fd_delete busy 3).queue).1 3 ≡ false))
fd_delete-IsForgotten_example =
    fd_delete-IsForgotten busy 3 (record { once = inr tt; running = inr (refl, refl) })

next_event-Delivered_example :
    Delivered busy.fd busy.queue (next_event busy busy.queue).0 (next_event busy busy.queue).1
next_event-Delivered_example = next_event-Delivered busy busy.queue

-- A descriptor that was made level-triggered is not taken off the stack when it is deleted.
stale_entry : (fd_delete (fd_add busy 3 level true) 3).stack ≡ busy.stack
unfolding fd_delete fd_add fd_stack_event stack_loop names
stale_entry = refl

-- Without ULOOP_ERROR_CB a descriptor that hangs up is deleted, and its callback is called all the same.
abbrev idle : Loop
idle = record { fd = descriptors; stack = []; queue = []; calls = [] }

abbrev hang_up : Polled
hang_up = record {
  ptr = some 2;
  err_or_hup = true;
  rdhup = false;
  readable = false;
  writable = false;
}

hang_up_called :
    (fetch_events idle (some (hang_up ∷ []))).queue
    ≡ record { fd = some 2; events = no_events } ∷ []
unfolding fetch_events fetch_loop fetch_one fetch_error fd_delete fd_stack_event stack_loop names
    forget
hang_up_called = refl

hang_up_deleted : (fetch_events idle (some (hang_up ∷ []))).calls ≡ ctl_del 2 ∷ []
unfolding fetch_events fetch_loop fetch_one fetch_error fd_delete fd_stack_event stack_loop names
    forget
hang_up_deleted = refl

-- A callback that takes an event off the queue and leaves it for itself.
abbrev take_first : List Slot → ℕ → Loop → Loop
take_first [] u s = s
take_first (cur ∷ r) u s = (fd_stack_event (record s { queue = r }) u (some cur.events)).0

abbrev takes_one : Callback
takes_one u e s = take_first s.queue u s

run_runs : Yields (λ t. t.queue ≡ []) (run_events 9 takes_one none busy)
unfolding run_events next_event call_loop fd_stack_event stack_loop names
run_runs = refl

takes_one-keeps : (u : ℕ) (e : Events) (s : Loop) → SameDepth s (takes_one u e s)
takes_one-keeps u e s = depth s.queue
  where
    depth : (q : List Slot) → SameDepth s (take_first q u s)
    depth [] = refl
    depth (cur ∷ r) = event-SameDepth (record s { queue = r }) u (some cur.events)

nothing_more : (xs : List Slot) → more (clear_top xs) ≡ false
nothing_more [] = refl
nothing_more (cur ∷ r) = elim (Option-cases cur.fd) [
  | inl null ↦ simp (more, null)
  | inr (u, is) ↦ simp (more, is)
]

takes_one-fewer :
    (u : ℕ) (e : Events) (s : Loop)
    → more (takes_one u e (cleared s)).stack ≡ true
    → length (takes_one u e (cleared s)).queue < length s.queue
takes_one-fewer u e s h = fewer s.queue h
  where
    fewer :
        (q : List Slot)
        → more (take_first q u (cleared s)).stack ≡ true
        → length (take_first q u (cleared s)).queue < length q
    fewer [] h' = let bad = nothing_more s.stack in absurd cc
    fewer (cur ∷ r) h' =
        rw (fd_stack_event-same (record (cleared s) { queue = r }) u (some cur.events)).1
          (omega arith)

run_events-returns_example : (n : ℕ) × Yields (SameDepth busy) (run_events n takes_one none busy)
run_events-returns_example =
    run_events-returns takes_one (λ s. length s.queue) takes_one-keeps takes_one-fewer none busy

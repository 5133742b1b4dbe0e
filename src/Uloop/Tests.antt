-- ===== src/Uloop/Tests.antt =====
-- The theorems about timers and processes at concrete lists, and runs of the model.
use libubox.Base.{
  some, none, ℕ, ◌≤◌, ◌<◌, ◌≡◌, ◌⊎◌, ◌↔◌, refl, true, false, ◌||◌, List, [], ◌∷◌, map, arith, ◌==◌,
  if◌then◌else◌, Yields,
}
use libubox.Base.Int.{pos, negsuc}
use libubox.Base.Int.{◌+ℤ◌}
use libubox.Links.{remove}
use libubox.Uloop.Time.{Timeval, micros, add_msecs, add_msecs_exact, tv_diff}
use libubox.Uloop.Timers.{
  Timer, Timeouts, timeout_cancel, timeout_set, get_next_timeout, process_timeouts,
}
use libubox.Uloop.Timers.Invariant.{IsTimeouts, Armed, timeout_set-Armed}
use libubox.Uloop.Timers.Expiry.{
  IsCallback, due, Processed, process_timeouts-Processed, Wait, get_next_timeout-Wait,
}
use libubox.Uloop.Done.{Uloop, uloop_init, uloop_done, IsIdle, uloop_done-IsIdle}
use libubox.Uloop.Processes.{Process, Processes, process_delete, reap_loop}
use libubox.Uloop.Processes.Invariant.{IsProcesses}
use libubox.Uloop.Processes.Reaping.{Reaped, reap-Reaped}
use libubox.Uloop.Processes.Events.{Call, add, delete, handle, after_calls, after_calls-IsProcesses}
use libubox.Uloop.Signals.Restore.{IsSystem, Restored, setup_signals-Restored}
use libubox.Uloop.Signals.{System, Signals, setup_signals}

abbrev at_time : ℕ → ℕ → Timeval
at_time sec usec = record { tv_sec = sec; tv_usec = usec }

-- Timers 1 and 2 are pending; 2 is half a millisecond later, and comes first.
abbrev timers : ℕ → Timer
timers i =
    if i == 1
    then record { pending = true; time = at_time 5 1000 }
    else if i == 2
    then record { pending = true; time = at_time 5 1500 }
    else record { pending = false; time = at_time 0 0 }

abbrev timeouts : Timeouts
timeouts = record { timer = timers; list = 2 ∷ 1 ∷ [] }

timeouts-IsTimeouts : IsTimeouts timeouts
timeouts-IsTimeouts = record {
  listed = λ i. ground arith;
  distinct = (refl, (refl, tt));
  ordered = omega arith;
}

abbrev noon : Timeval
noon = at_time 5 999000

-- The seconds are not carried at a whole second.
whole_second : add_msecs noon 1 ≡ at_time 5 1000000
unfolding add_msecs
whole_second = refl

abbrev no_change : ℕ → Timeouts → Timeouts
no_change id s = s

fires_both :
    Yields
      (λ res. (res.0.list ≡ []) × (map (λ f. f.0) res.1 ≡ 2 ∷ 1 ∷ []))
      (process_timeouts no_change 3 timeouts noon)
unfolding process_timeouts timeout_cancel tv_diff ◌+ℤ◌ remove
fires_both = (refl, refl)

timeout_set-Armed_example : Armed timeouts 1 1 noon (timeout_set timeouts 1 1 noon)
timeout_set-Armed_example = timeout_set-Armed timeouts 1 1 noon timeouts-IsTimeouts (omega arith)

add_msecs_exact_example :
    (micros (add_msecs noon 1) ≡ 6000000)
    × ((add_msecs noon 1).tv_usec ≤ 1000000)
    × (((add_msecs noon 1).tv_usec ≡ 1000000) ↔ (◌≡◌ {A = ℕ} 1000000 1000000))
add_msecs_exact_example = add_msecs_exact noon 1 (omega arith)

both_due : due timeouts noon < 3
unfolding tv_diff ◌+ℤ◌
both_due = omega arith

no_change-IsCallback : IsCallback no_change noon
no_change-IsCallback = record { valid = λ id s v. v; no_new_due = λ id s v. omega arith }

process_timeouts-Processed_example :
    Yields (Processed noon) (process_timeouts no_change 3 timeouts noon)
process_timeouts-Processed_example =
    process_timeouts-Processed no_change noon 3 timeouts no_change-IsCallback timeouts-IsTimeouts
      both_due

get_next_timeout-Wait_example :
    ((timeouts.list ≡ []) × (get_next_timeout timeouts (at_time 4 0) ≡ negsuc 0))
    ⊎ ((id : ℕ) × (r : List ℕ) × (ms : ℕ) × (timeouts.list ≡ id ∷ r)
        × (get_next_timeout timeouts (at_time 4 0) ≡ pos ms)
        × Wait timeouts (at_time 4 0) id ms)
get_next_timeout-Wait_example = get_next_timeout-Wait timeouts (at_time 4 0) timeouts-IsTimeouts

-- Processes 1, 2 and 3 are pending; 2 and 3 watch the same child.
abbrev table : ℕ → Process
table i =
    if i == 1
    then record { pending = true; pid = 40 }
    else if i == 2 || i == 3
    then record { pending = true; pid = 50 }
    else record { pending = false; pid = 60 }

abbrev children : Processes
children = record { process = table; list = 1 ∷ 2 ∷ 3 ∷ []; do_sigchld = true; calls = [] }

children-IsProcesses : IsProcesses children
children-IsProcesses = record {
  listed = λ i. ground arith;
  distinct = (refl, (refl, (refl, tt)));
  sorted = omega arith;
}

reap_runs : (reap_loop (1 ∷ 2 ∷ 3 ∷ []) 50 7 children).calls ≡ (2, 7) ∷ (3, 7) ∷ []
unfolding reap_loop process_delete
reap_runs = refl

reap-Reaped_example :
    Reaped 50 7 (1 ∷ 2 ∷ 3 ∷ []) children (reap_loop (1 ∷ 2 ∷ 3 ∷ []) 50 7 children)
reap-Reaped_example = reap-Reaped children 50 7 children-IsProcesses

abbrev calls : List Call
calls = add 4 ∷ handle ((50, 7) ∷ (40, 0) ∷ []) ∷ delete 4 ∷ []

after_calls-IsProcesses_example : IsProcesses (after_calls calls children)
after_calls-IsProcesses_example = after_calls-IsProcesses calls children children-IsProcesses

abbrev linux : System
linux = record {
  sigint = 2;
  sigterm = 15;
  sigchld = 17;
  sigpipe = 13;
  sig_dfl = 0;
  sig_ign = 1;
  handle_sigint = 100;
  handle_sigchld = 200;
}

linux-IsSystem : IsSystem linux
linux-IsSystem = record {
  int_term = refl;
  int_chld = refl;
  int_pipe = refl;
  term_chld = refl;
  term_pipe = refl;
  chld_pipe = refl;
  sig_dfl = refl;
  sig_ign = omega arith;
}

-- The program has a handler of its own for signal 2 only.
abbrev own_sigint : Signals
own_sigint = record {
  action = λ i. record { sa_handler = if i == 2 then 300 else 0; sa_flags = 0; sa_mask = 0 };
  old_sigint = record { sa_handler = 0; sa_flags = 0; sa_mask = 0 };
  old_sigchld = record { sa_handler = 0; sa_flags = 0; sa_mask = 0 };
  old_sigterm = record { sa_handler = 0; sa_flags = 0; sa_mask = 0 };
}

setup_signals-Restored_example :
    Restored linux own_sigint (setup_signals linux (setup_signals linux own_sigint true) false)
setup_signals-Restored_example =
    setup_signals-Restored linux own_sigint linux-IsSystem
      (record { int = refl; term = refl; chld = refl })

-- The event loop with both.
abbrev busy_loop : Uloop
busy_loop = record { poll_fd = none; timeouts = timeouts; processes = children }

uloop_done-IsIdle_example :
    IsIdle (uloop_done (uloop_init (some 3) busy_loop).0)
    × ((uloop_done (uloop_init (some 3) busy_loop).0).processes.calls ≡ [])
    × (uloop_init (some 4) (uloop_done (uloop_init (some 3) busy_loop).0)
        ≡ (record (uloop_done (uloop_init (some 3) busy_loop).0) { poll_fd = some 4 }, true))
uloop_done-IsIdle_example = uloop_done-IsIdle busy_loop 3 4 timeouts-IsTimeouts children-IsProcesses

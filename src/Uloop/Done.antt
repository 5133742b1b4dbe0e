-- ===== src/Uloop/Done.antt =====
-- Setting up and closing the event loop: `uloop_init` with epoll, and `uloop_done` (uloop.c).
use libubox.Base.{ℕ, ◌≡◌, refl, Bool, true, false, Option, none, some, []}
use libubox.Uloop.Timers.{Timeouts, clear_timeouts}
use libubox.Uloop.Timers.Invariant.{IsTimeouts}
use libubox.Uloop.Timers.Expiry.{clear_timeouts-idle}
use libubox.Uloop.Processes.{Processes, clear_processes}
use libubox.Uloop.Processes.Invariant.{IsProcesses}
use libubox.Uloop.Processes.Reaping.{clear_processes-idle}

-- `poll_fd`, none for -1, with the timers and the processes.
pub record Uloop : Type 0 where
  pub poll_fd : Option ℕ
  pub timeouts : Timeouts
  pub processes : Processes

-- `uloop_init`, and whether it returns 0; `created` is what `epoll_create` returns, none for an error.
unfoldable pub uloop_init : Option ℕ → Uloop → Uloop × Bool
uloop_init created s = elim s.poll_fd [
  | some _ ↦ (s, true)
  | none ↦ elim created [ none ↦ (s, false) | some fd ↦ (record s { poll_fd = some fd }, true) ]
]

-- `uloop_done`.
unfoldable pub uloop_done : Uloop → Uloop
uloop_done s = elim s.poll_fd [
  | none ↦ s
  | some _ ↦ record {
    poll_fd = none;
    timeouts = clear_timeouts s.timeouts;
    processes = clear_processes s.processes;
  }
]

-- Nothing is left to wait for.
pub record IsIdle (s : Uloop) : Type 0 where
  pub poll_fd : s.poll_fd ≡ none
  pub timers : s.timeouts.list ≡ []
  pub no_timer : (i : ℕ) → (s.timeouts.timer i).pending ≡ false
  pub processes : s.processes.list ≡ []
  pub no_process : (i : ℕ) → (s.processes.process i).pending ≡ false

done_clears :
    (fd : ℕ) (o : Option ℕ) (ts : Timeouts) (ps : Processes)
    → uloop_done (uloop_init (some fd) (record { poll_fd = o; timeouts = ts; processes = ps })).0
      ≡ record { poll_fd = none; timeouts = clear_timeouts ts; processes = clear_processes ps }
unfolding uloop_done uloop_init
done_clears fd none ts ps = refl
done_clears fd (some old) ts ps = refl

-- After `uloop_init` succeeded, `uloop_done` leaves no timer and no process linked or pending and calls no
-- callback of a process, and `uloop_init` opens the loop again, if `epoll_create` does.
pub uloop_done-IsIdle :
    (s : Uloop) (fd again : ℕ)
    → IsTimeouts s.timeouts
    → IsProcesses s.processes
    → let t = uloop_done (uloop_init (some fd) s).0 in
      IsIdle t
      × (t.processes.calls ≡ s.processes.calls)
      × (uloop_init (some again) t ≡ (record t { poll_fd = some again }, true))
unfolding uloop_init
uloop_done-IsIdle s fd again timers processes =
    let a = clear_timeouts-idle s.timeouts timers in
    let b = clear_processes-idle s.processes processes in
    rw (done_clears fd s.poll_fd s.timeouts s.processes) (
      record { poll_fd = refl; timers = a.0; no_timer = a.1; processes = b.0; no_process = b.1 },
      b.2,
      refl,
    )

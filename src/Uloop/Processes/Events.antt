-- ===== src/Uloop/Processes/Events.antt =====
-- The processes under any sequence of calls (uloop.c).
use libubox.Base.{ℕ, List, [], ◌∷◌}
use libubox.Uloop.Processes.{Processes, process_add, process_delete, handle_processes}
use libubox.Uloop.Processes.Invariant.{IsProcesses, process_add-IsProcesses, process_delete-Deleted}
use libubox.Uloop.Processes.Reaping.{handle_processes-IsProcesses}

-- A call of `uloop_process_add`, `uloop_process_delete` or `uloop_handle_processes`, with what `waitpid` returns.
pub data Call : Type 0 where
  add : ℕ → Call
  delete : ℕ → Call
  handle : List (ℕ × ℕ) → Call

unfoldable pub after_calls : List Call → Processes → Processes
after_calls [] s = s
after_calls (add id ∷ r) s = after_calls r (process_add s id).0
after_calls (delete id ∷ r) s = after_calls r (process_delete s id).0
after_calls (handle exits ∷ r) s = after_calls r (handle_processes exits s)

-- Any sequence of calls of `uloop_process_add`, `uloop_process_delete` and `uloop_handle_processes`, whatever
-- children exit, keeps the list of processes: exactly the pending ones, each once, ordered by pid.
pub after_calls-IsProcesses :
    (calls : List Call) (s : Processes) → IsProcesses s → IsProcesses (after_calls calls s)
unfolding after_calls
after_calls-IsProcesses [] s v = v
after_calls-IsProcesses (add id ∷ r) s v =
    after_calls-IsProcesses r (process_add s id).0 (process_add-IsProcesses s id v)
after_calls-IsProcesses (delete id ∷ r) s v =
    after_calls-IsProcesses r (process_delete s id).0 (process_delete-Deleted s id v).valid
after_calls-IsProcesses (handle exits ∷ r) s v =
    after_calls-IsProcesses r (handle_processes exits s) (handle_processes-IsProcesses exits s v)

-- ===== src/Uloop/Processes.antt =====
-- The child processes of uloop.c: a list ordered by pid, and what is done when children exit.
pub mod Invariant
pub mod Reaping
pub mod Events
use libubox.Base.{ℕ, ◌+◌, Bool, true, false, List, [], ◌∷◌, ◌++◌, ltb, ◌==◌, if◌then◌else◌}
use libubox.Links.{remove}

-- `struct uloop_process` without its links and callback.
pub record Process : Type 0 where
  pub pending : Bool
  pub pid : ℕ

-- The processes of the program by address, the list `processes`, the flag `do_sigchld`, and the calls
-- of callbacks with the exit status. The callbacks are a log: what they do to the list is not modelled.
pub record Processes : Type 0 where
  pub process : ℕ → Process
  pub list : List ℕ
  pub do_sigchld : Bool
  pub calls : List (ℕ × ℕ)

abbrev pub update : (ℕ → Process) → ℕ → Process → ℕ → Process
update f id p i = if i == id then p else f i

-- The place that `uloop_process_add` looks for, and `list_add_tail` there.
unfoldable pub insert : (ℕ → Process) → ℕ → List ℕ → List ℕ
insert process id [] = id ∷ []
insert process id (tmp ∷ r) =
    if ltb (process id).pid (process tmp).pid then id ∷ tmp ∷ r else tmp ∷ insert process id r

-- `uloop_process_add`, whether it returns 0.
unfoldable pub process_add : Processes → ℕ → Processes × Bool
unfolding insert
process_add s id = if (s.process id).pending then (s, false) else (
  record s {
    process = update s.process id (record (s.process id) { pending = true });
    list = insert s.process id s.list;
  },
  true,
)

-- `uloop_process_delete`, whether it returns 0.
unfoldable pub process_delete : Processes → ℕ → Processes × Bool
unfolding remove
process_delete s id =
    if (s.process id).pending
    then (
      record s {
        process = update s.process id (record (s.process id) { pending = false });
        list = remove id s.list;
      },
      true,
    )
    else (s, false)

-- The loop over the list for one child that has exited with `ret`: the list is what is still to be
-- visited. Lower pids are passed over, and a higher one ends the loop.
unfoldable pub reap_loop : List ℕ → ℕ → ℕ → Processes → Processes
reap_loop [] pid ret s = s
reap_loop (p ∷ r) pid ret s =
    let s' = (process_delete s p).0 in
    let called = record s' { calls = s'.calls ++ ((p, ret) ∷ []) } in
    let next = if ltb (s.process p).pid pid then s else called in
    let rest = reap_loop r pid ret next in if ltb pid (s.process p).pid then s else rest

-- The loop of `uloop_handle_processes` over what `waitpid` returns.
pub handle_exits : List (ℕ × ℕ) → Processes → Processes
handle_exits [] s = s
handle_exits ((pid, ret) ∷ r) s = handle_exits r (reap_loop s.list pid ret s)

-- `uloop_handle_processes`. The list is what `waitpid` returns, call by call, up to the first result
-- that is no child.
unfoldable pub handle_processes : List (ℕ × ℕ) → Processes → Processes
unfolding handle_exits
handle_processes exits s = handle_exits exits (record s { do_sigchld = false })

-- The loop of `uloop_clear_processes` over the processes that are still to be visited.
pub clear_processes_loop : List ℕ → Processes → Processes
clear_processes_loop [] s = s
clear_processes_loop (p ∷ r) s = clear_processes_loop r (process_delete s p).0

-- `uloop_clear_processes`.
unfoldable pub clear_processes : Processes → Processes
unfolding clear_processes_loop
clear_processes s = clear_processes_loop s.list s

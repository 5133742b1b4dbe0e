-- ===== src/Runqueue.antt =====
-- runqueue.c, a queue of tasks of which a limited number runs at a time. The tasks of one queue are named
-- by numbers, the addresses of their structures.
pub mod Links
pub mod Start
pub mod Tasks
pub mod Events
mod Tests
use libubox.Base.{
  ℕ, zero, suc, ◌+◌, ◌-◌, Bool, true, false, not, ◌&&◌, Option, none, some, List, [], ◌∷◌, ◌++◌,
  leb, ◌==◌, if◌then◌else◌, length,
}
use libubox.Links.{remove}

-- `struct runqueue_task` without its links and callbacks. The timer is `none` where it is not pending,
-- and else the delay that it was set to.
pub record Task : Type 0 where
  pub timeout : Option ℕ
  pub run_timeout : ℕ
  pub cancel_timeout : ℕ
  pub cancel_type : ℕ
  pub queued : Bool
  pub running : Bool
  pub cancelled : Bool

-- The callback of the timer of a queue.
pub data QueueCb : Type 0 where
  start_next_cb : QueueCb
  empty_cb : QueueCb

-- `struct runqueue` and its tasks. The timer is `none` where it is not pending; it is always set to 1 ms.
pub record Queue : Type 0 where
  pub task : ℕ → Task
  pub active : List ℕ
  pub inactive : List ℕ
  pub timeout : Option QueueCb
  pub running_tasks : ℕ
  pub max_running_tasks : ℕ
  pub stopped : Bool
  pub empty : Bool

-- The callbacks of the tasks, `struct runqueue_task_type` and `complete`, where they are not NULL, and
-- whether the queue has an `empty_cb`.
pub record Ops : Type 0 where
  pub run : ℕ → Option (Queue → Queue)
  pub cancel : ℕ → Option (ℕ → Queue → Queue)
  pub kill : ℕ → Option (Queue → Queue)
  pub complete : ℕ → Option (Queue → Queue)
  pub has_empty_cb : Bool

abbrev pub update : (ℕ → Task) → ℕ → Task → ℕ → Task
update f id t i = if i == id then t else f i

-- A callback that may be NULL.
abbrev pub call : Option (Queue → Queue) → Queue → Queue
call none q = q
call (some f) q = f q

-- `runqueue_init`.
unfoldable pub init : Queue → Queue
init q = record q { active = []; inactive = [] }

-- `runqueue_start_next`.
unfoldable pub start_next : Queue → Queue
start_next q = if q.empty then q else record q { timeout = some start_next_cb }

-- `runqueue_task_complete` up to the callback. `safe_list_del` unlinks the task from the list that it
-- is in.
unfoldable pub unlink_task : Queue → ℕ → Queue
unlink_task q t = record q {
  running_tasks = if (q.task t).running then q.running_tasks - 1 else q.running_tasks;
  active = remove t q.active;
  inactive = remove t q.inactive;
  task =
      update q.task t
        (record (q.task t) { timeout = none; queued = false; running = false; cancelled = false });
}

-- `safe_list_add_first` or `safe_list_add`.
unfoldable pub add_to : Bool → ℕ → List ℕ → List ℕ
add_to true t l = t ∷ l
add_to false t l = l ++ (t ∷ [])

-- `_runqueue_task_add` from the test of `running` on, up to `runqueue_start_next`.
unfoldable pub link_task : Queue → ℕ → Bool → Bool → Queue
link_task q t running first = record q {
  running_tasks = if running then q.running_tasks + 1 else q.running_tasks;
  active = if running then add_to first t q.active else q.active;
  inactive = if running then q.inactive else add_to first t q.inactive;
  task =
      update q.task t (record (q.task t) { cancelled = false; queued = true; running = running });
  empty = false;
}

-- `runqueue_task_cancel` of a running task, up to the callback.
unfoldable pub mark_cancelled : Queue → ℕ → Queue
mark_cancelled q t = record q {
  task = update q.task t (record (q.task t) {
    cancelled = true;
    timeout =
        if (q.task t).cancel_timeout == 0
        then (q.task t).timeout
        else some (q.task t).cancel_timeout;
  });
}

-- The body of the loop of `__runqueue_start_next`, up to the callback: `t` is the first of
-- `tasks_inactive` and `r` the others.
unfoldable pub activate : Queue → ℕ → List ℕ → Queue
activate q t r = record q {
  inactive = r;
  active = q.active ++ (t ∷ []);
  running_tasks = q.running_tasks + 1;
  task = update q.task t (record (q.task t) {
    running = true;
    timeout =
        if (q.task t).run_timeout == 0 then (q.task t).timeout else some (q.task t).run_timeout;
  });
}

-- `q->max_running_tasks && q->running_tasks >= q->max_running_tasks`.
abbrev pub full : Queue → Bool
full q = not (q.max_running_tasks == 0) && leb q.max_running_tasks q.running_tasks

-- The end of `__runqueue_start_next`.
unfoldable pub finish_start : Bool → Queue → Queue
finish_start has_empty_cb q =
    if not q.empty && (length q.active + length q.inactive == 0)
    then record q { empty = true; timeout = if has_empty_cb then some empty_cb else q.timeout }
    else q

-- `runqueue_stop`.
unfoldable pub stop : Queue → Queue
stop q = record q { stopped = true }

-- `runqueue_resume`.
unfoldable pub resume : Queue → Queue
unfolding start_next
resume q = start_next (record q { stopped = false })

module _ (ops : Ops) where
  -- `runqueue_task_complete`.
  unfoldable pub task_complete : Queue → ℕ → Queue
  task_complete q t =
      if (q.task t).queued then start_next (call (ops.complete t) (unlink_task q t)) else q

  -- `runqueue_task_cancel`.
  unfoldable pub task_cancel : Queue → ℕ → ℕ → Queue
  task_cancel q t type =
      if not (q.task t).queued
      then q
      else if not (q.task t).running
      then task_complete q t
      else elim (ops.cancel t) [
        | none ↦ mark_cancelled q t
        | some cancel ↦ cancel type (mark_cancelled q t)
      ]

  -- `runqueue_task_kill`.
  unfoldable pub task_kill : Queue → ℕ → Queue
  task_kill q t =
      if not (q.task t).queued
      then q
      else start_next
          (if (q.task t).running then call (ops.kill t) (task_complete q t) else task_complete q t)

  -- `__runqueue_task_timeout`, the callback of the timer of a task.
  unfoldable pub task_timeout : Queue → ℕ → Queue
  task_timeout q t =
      if (q.task t).cancelled then task_kill q t else task_cancel q t (q.task t).cancel_type

  -- `_runqueue_task_add`.
  unfoldable pub task_add : Queue → ℕ → Bool → Bool → Queue
  task_add q t running first = if (q.task t).queued then q else elim (ops.run t) [
    | none ↦ if running then start_next (link_task q t running first) else q
    | some run ↦ start_next (link_task q t running first)
  ]

  -- The loop of `__runqueue_start_next` on fuel; a NULL `run` is a fault.
  unfoldable pub start_loop : ℕ → Queue → Option Queue
  start_loop zero q = none
  start_loop (suc n) q = elim q.stopped [
    | true ↦ some q
    | false ↦ elim q.inactive [
      | [] ↦ some q
      | t ∷ r ↦ elim (full q) [
        | true ↦ some q
        | false ↦ elim (ops.run t) [ none ↦ none | some run ↦ start_loop n (run (activate q t r)) ]
      ]
    ]
  ]

  -- `__runqueue_start_next`, the callback of the timer of the queue.
  unfoldable pub start_tasks : ℕ → Queue → Option Queue
  start_tasks n q = elim (start_loop n q) [
    | none ↦ none
    | some q' ↦ some (finish_start ops.has_empty_cb q')
  ]

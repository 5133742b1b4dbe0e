-- ===== src/Runqueue/Tests.antt =====
-- The theorems about queues at concrete tasks, and runs of the model.
use libubox.Base.{
  ℕ, ◌≡◌, inr, refl, sym, ap, true, false, ◌||◌, none, some, [], ◌∷◌, arith, ◌==◌, if◌then◌else◌,
  Yields, List, inl, take,
}
use libubox.Links.{remove}
use libubox.Runqueue.{
  Task, Queue, Ops, init, link_task, add_to, mark_cancelled, start_next, start_next_cb, unlink_task,
  activate, finish_start, task_complete, task_cancel, task_kill, task_timeout, task_add, start_loop,
  start_tasks,
}
use libubox.Runqueue.Links.{IsLinked}
use libubox.Runqueue.Start.{IsRun, Started, start_tasks-Started}
use libubox.Runqueue.Tasks.{IsQueue, IsCallback, IsOps}
use libubox.Runqueue.Events.{
  Event, add, complete, cancel, task_timer, queue_timer, expire_task, timer_due, step, steps,
  steps-IsQueue,
}

abbrev unchanged : Queue → Queue
unchanged q = q

-- The callbacks change nothing, and there is none to cancel a task.
abbrev ops : Ops
ops = record {
  run = λ t. some unchanged;
  cancel = λ t. none;
  kill = λ t. some unchanged;
  complete = λ t. some unchanged;
  has_empty_cb = true;
}

-- Task 1 runs, with a timer; tasks 2 and 3 wait. Two may run at a time.
abbrev tasks : ℕ → Task
tasks i = record {
  timeout = if i == 1 then some 500 else none;
  run_timeout = 500;
  cancel_timeout = 100;
  cancel_type = 15;
  queued = i == 1 || i == 2 || i == 3;
  running = i == 1;
  cancelled = false;
}

abbrev queue : Queue
queue = record {
  task = tasks;
  active = 1 ∷ [];
  inactive = 2 ∷ 3 ∷ [];
  timeout = some start_next_cb;
  running_tasks = 1;
  max_running_tasks = 2;
  stopped = false;
  empty = false;
}

queue-IsLinked : IsLinked ops queue
queue-IsLinked = record {
  active = λ i. ground arith;
  inactive = λ i. ground arith;
  distinct_active = (refl, tt);
  distinct_inactive = (refl, (refl, tt));
  count = refl;
  timers = λ i h. ground arith;
  empty = λ h. absurd (ground arith);
  runnable = λ i h. absurd (ground arith);
}

queue-IsQueue : IsQueue ops queue
queue-IsQueue = record { linked = queue-IsLinked; wakes = inr refl }

is_unchanged : (f : Queue → Queue) → some unchanged ≡ some f → unchanged ≡ f
is_unchanged f e = ap (λ o. elim o [ none ↦ unchanged | some g ↦ g ]) e

unchanged-IsCallback : (f : Queue → Queue) → some unchanged ≡ some f → IsCallback ops f
unchanged-IsCallback f e =
    rw (sym (is_unchanged f e)) (record { keeps_linked = λ q v. v; keeps_wakes = λ q v w. w })

ops-IsOps : IsOps ops
ops-IsOps = record {
  cancel = λ t type f e. absurd cc;
  kill = λ t f e. unchanged-IsCallback f e;
  complete = λ t f e. unchanged-IsCallback f e;
}

ops-IsRun : IsRun ops
ops-IsRun = record {
  keeps_linked = λ t f e. (unchanged-IsCallback f e).keeps_linked;
  adds_none = λ t f e q v. rw (sym (is_unchanged f e)) (omega arith);
}

-- One task can start, and the other cannot.
starts_one :
    Yields
      (λ q. (q.active ≡ 1 ∷ 2 ∷ []) × (q.inactive ≡ 3 ∷ []) × ((q.task 2).timeout ≡ some 500))
      (start_tasks ops 3 queue)
unfolding start_tasks start_loop activate finish_start
starts_one = (refl, refl, refl)

-- A task that is cancelled before it runs is complete.
cancels_waiting : (task_cancel ops queue 3 0).inactive ≡ 2 ∷ []
unfolding task_cancel task_complete unlink_task start_next remove
cancels_waiting = refl

start_tasks-Started_example : Yields (Started ops) (start_tasks ops 3 queue)
start_tasks-Started_example = start_tasks-Started ops 3 queue ops-IsRun queue-IsLinked (omega arith)

-- A queue in memory that was cleared.
abbrev fresh : Queue
fresh = record {
  task = λ i. record {
    timeout = none;
    run_timeout = 0;
    cancel_timeout = 100;
    cancel_type = 15;
    queued = false;
    running = false;
    cancelled = false;
  };
  active = [];
  inactive = [];
  timeout = none;
  running_tasks = 0;
  max_running_tasks = 1;
  stopped = false;
  empty = false;
}

fresh-IsQueue : IsQueue ops (init fresh)
unfolding init
fresh-IsQueue = record {
  linked = record {
    active = λ i. refl;
    inactive = λ i. refl;
    distinct_active = tt;
    distinct_inactive = tt;
    count = refl;
    timers = λ i h. refl;
    empty = λ h. absurd (ground arith);
    runnable = λ i h. refl;
  };
  wakes = inl refl;
}

-- Two tasks are added, one starts, it is cancelled and its timer kills it, and the other starts.
abbrev events : List Event
events =
    add 1 false false
    ∷ add 2 false false
    ∷ queue_timer
    ∷ cancel 1 15
    ∷ task_timer 1
    ∷ queue_timer
    ∷ complete 2
    ∷ queue_timer
    ∷ queue_timer
    ∷ []

steps-IsQueue_example : Yields (IsQueue ops) (steps ops unchanged (init fresh) events)
steps-IsQueue_example =
    steps-IsQueue ops unchanged ops-IsOps ops-IsRun unchanged-callback (init fresh) events
      fresh-IsQueue
  where
    unchanged-callback : IsCallback ops unchanged
    unchanged-callback = record { keeps_linked = λ q v. v; keeps_wakes = λ q v w. w }

second_runs :
    Yields
      (λ q. (q.active ≡ 2 ∷ []) × (q.running_tasks ≡ 1))
      (steps ops unchanged (init fresh) (take 6 events))
unfolding steps step timer_due expire_task start_tasks start_loop activate finish_start task_add
    link_task add_to task_cancel task_kill task_timeout mark_cancelled task_complete unlink_task
    start_next remove init
second_runs = (refl, refl)

-- ===== src/Runqueue/Events.antt =====
-- Queues under any sequence of calls and timers (runqueue.c).
use libubox.Base.{
  Yields-map, ℕ, suc, ◌≡◌, inl, inr, refl, sym, ◌∙◌, Bool, false, Option, none, some, List, [], ◌∷◌,
  arith, Yields, Option-cases, length,
}
use libubox.Runqueue.{
  Queue, start_next_cb, empty_cb, Ops, update, stop, resume, task_complete, task_cancel, task_kill,
  task_timeout, task_add, start_tasks,
}
use libubox.Runqueue.Links.{IsLinked, startable}
use libubox.Runqueue.Start.{IsRun, Started, start_tasks-Started}
use libubox.Runqueue.Tasks.{
  IsQueue, IsCallback, IsOps, task_complete-IsQueue, task_cancel-IsQueue, task_kill-IsQueue,
  task_timeout-IsQueue, task_add-IsQueue, resume-IsQueue,
}

-- What happens to a queue: a call of one of its functions, or a timer that is due.
pub data Event : Type 0 where
  add : ℕ → Bool → Bool → Event
  complete : ℕ → Event
  cancel : ℕ → ℕ → Event
  kill : ℕ → Event
  stopped : Event
  resumed : Event
  task_timer : ℕ → Event
  queue_timer : Event

-- A timer that expires is pending no more when its callback is called.
unfoldable pub expire_task : Queue → ℕ → Queue
expire_task q t = record q { task = update q.task t (record (q.task t) { timeout = none }) }

-- The callback of the timer of a queue: `__runqueue_start_next`, with as many rounds as tasks wait and one
-- more, or `__runqueue_empty_cb`, which calls `q->empty_cb`.
unfoldable pub timer_due : Ops → (Queue → Queue) → Queue → Option Queue
timer_due ops empty_called q = elim q.timeout [
  | none ↦ some q
  | some start_next_cb ↦ start_tasks ops (suc (length q.inactive)) (record q { timeout = none })
  | some empty_cb ↦ some (empty_called (record q { timeout = none }))
]

unfoldable pub step : Ops → (Queue → Queue) → Queue → Event → Option Queue
step ops empty_called q (add t running first) = some (task_add ops q t running first)
step ops empty_called q (complete t) = some (task_complete ops q t)
step ops empty_called q (cancel t type) = some (task_cancel ops q t type)
step ops empty_called q (kill t) = some (task_kill ops q t)
step ops empty_called q stopped = some (stop q)
step ops empty_called q resumed = some (resume q)
step ops empty_called q (task_timer t) = elim (q.task t).timeout [
  | none ↦ some q
  | some _ ↦ some (task_timeout ops (expire_task q t) t)
]
step ops empty_called q queue_timer = timer_due ops empty_called q

unfoldable pub steps : Ops → (Queue → Queue) → Queue → List Event → Option Queue
steps ops empty_called q [] = some q
steps ops empty_called q (e ∷ es) = elim (step ops empty_called q e) [
  | none ↦ none
  | some q' ↦ steps ops empty_called q' es
]

module _ (ops : Ops) (empty_called : Queue → Queue) where
  expire_task-IsQueue : (q : Queue) (t : ℕ) → IsQueue ops q → IsQueue ops (expire_task q t)
  unfolding expire_task
  expire_task-IsQueue q t v = record {
    linked = record {
      active = λ i. v.linked.active i ∙ ground arith;
      inactive = λ i. v.linked.inactive i ∙ ground arith;
      distinct_active = v.linked.distinct_active;
      distinct_inactive = v.linked.distinct_inactive;
      count = v.linked.count;
      timers = λ i e. ground (arith, v.linked.timers i);
      empty = v.linked.empty;
      runnable = v.linked.runnable;
    };
    wakes = v.wakes;
  }

  stop-IsQueue : (q : Queue) → IsQueue ops q → IsQueue ops (stop q)
  unfolding stop
  stop-IsQueue q v = record {
    linked = record {
      active = v.linked.active;
      inactive = v.linked.inactive;
      distinct_active = v.linked.distinct_active;
      distinct_inactive = v.linked.distinct_inactive;
      count = v.linked.count;
      timers = v.linked.timers;
      empty = v.linked.empty;
      runnable = v.linked.runnable;
    };
    wakes = inl refl;
  }

  idle-IsLinked : (q : Queue) → IsLinked ops q → IsLinked ops (record q { timeout = none })
  idle-IsLinked q v = record {
    active = v.active;
    inactive = v.inactive;
    distinct_active = v.distinct_active;
    distinct_inactive = v.distinct_inactive;
    count = v.count;
    timers = v.timers;
    empty = v.empty;
    runnable = v.runnable;
  }

  timer_due-IsQueue :
      (q : Queue)
      → IsRun ops
      → IsCallback ops empty_called
      → IsQueue ops q
      → Yields (IsQueue ops) (timer_due ops empty_called q)
  unfolding timer_due
  timer_due-IsQueue q r c v = elim (Option-cases q.timeout) [
    | inl idle ↦ simp (timer_due, idle) v
    | inr (start_next_cb, due) ↦
        simp (timer_due, due)
          (Yields-map (Started ops) (IsQueue ops)
            (λ q' s. record { linked = s.linked; wakes = inl s.all_started })
            (start_tasks ops (suc (length q.inactive)) (record q { timeout = none }))
            (start_tasks-Started ops (suc (length q.inactive)) (record q { timeout = none }) r
              (idle-IsLinked q v.linked) (omega arith)))
    | inr (empty_cb, due) ↦
        let none_waits : startable q ≡ false = elim v.wakes [
          | inl w ↦ w
          | inr set ↦ let e : some empty_cb ≡ some start_next_cb = sym due ∙ set in absurd cc
        ] in
        let before = idle-IsLinked q v.linked in
        simp (timer_due, due)
          (record {
            linked = c.keeps_linked (record q { timeout = none }) before;
            wakes = c.keeps_wakes (record q { timeout = none }) before (inl none_waits);
          })
  ]

  module _ (o : IsOps ops) (r : IsRun ops) (c : IsCallback ops empty_called) where
    step-IsQueue :
        (q : Queue) (e : Event) → IsQueue ops q → Yields (IsQueue ops) (step ops empty_called q e)
    unfolding step
    step-IsQueue q (add t running first) v = task_add-IsQueue ops q t running first v
    step-IsQueue q (complete t) v = task_complete-IsQueue ops o q t v
    step-IsQueue q (cancel t type) v = task_cancel-IsQueue ops o q t type v
    step-IsQueue q (kill t) v = task_kill-IsQueue ops o q t v
    step-IsQueue q stopped v = stop-IsQueue q v
    step-IsQueue q resumed v = resume-IsQueue ops q v
    step-IsQueue q (task_timer t) v = elim (Option-cases (q.task t).timeout) [
      | inl idle ↦ simp (step, idle) v
      | inr (d, due) ↦
          simp (step, due)
            (task_timeout-IsQueue ops o (expire_task q t) t (expire_task-IsQueue q t v))
    ]
    step-IsQueue q queue_timer v = timer_due-IsQueue q r c v

    -- Whatever is called and whichever timers expire, in whatever order, each call returns, the lists stay right
    -- (active and waiting tasks, each once, counted, no timer of a task that is not queued), and no wakeup is
    -- lost: a queue that could start a task has its timer set to do that. The callbacks are those that keep both,
    -- and `run` adds no waiting task.
    pub steps-IsQueue :
        (q : Queue) (es : List Event)
        → IsQueue ops q
        → Yields (IsQueue ops) (steps ops empty_called q es)
    unfolding steps
    steps-IsQueue q [] v = v
    steps-IsQueue q (e ∷ es) v =
        let out = step-IsQueue q e v in
        elim (Option-cases (step ops empty_called q e)) [
          | inl bad ↦ absurd (rw bad at out)
          | inr (q', got) ↦ simp (steps, got) (steps-IsQueue q' es (rw got at out))
        ]

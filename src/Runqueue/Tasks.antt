-- ===== src/Runqueue/Tasks.antt =====
-- The operations on the tasks of a queue, and its wakeups (runqueue.c).
use libubox.Base.{
  ℕ, ◌≡◌, inl, inr, refl, sym, ◌∙◌, Bool, true, false, Option, none, some, arith, Bool-cases,
  Option-cases,
}
use libubox.Runqueue.{
  Queue, Ops, call, start_next, unlink_task, link_task, mark_cancelled, resume, task_complete,
  task_cancel, task_kill, task_timeout, task_add,
}
use libubox.Runqueue.Links.{
  IsLinked, Wakes, start_next-IsLinked, unlink_task-IsLinked, link_task-IsLinked,
  mark_cancelled-IsLinked, mark_cancelled-Wakes,
}

-- The lists are right, and a queue that could start a task has its timer set to do that.
pub record IsQueue (ops : Ops) (q : Queue) : Type 0 where
  pub linked : IsLinked ops q
  pub wakes : Wakes q

-- What is asked of a callback: it keeps both, as every operation of the queue does. A task may be
-- unlinked without a wakeup when the callback is called.
pub record IsCallback (ops : Ops) (f : Queue → Queue) : Type 0 where
  pub keeps_linked : (q : Queue) → IsLinked ops q → IsLinked ops (f q)
  pub keeps_wakes : (q : Queue) → IsLinked ops q → Wakes q → Wakes (f q)

pub record IsOps (ops : Ops) : Type 0 where
  pub cancel :
      (t type : ℕ) (f : ℕ → Queue → Queue) → ops.cancel t ≡ some f → IsCallback ops (f type)
  pub kill : (t : ℕ) (f : Queue → Queue) → ops.kill t ≡ some f → IsCallback ops f
  pub complete : (t : ℕ) (f : Queue → Queue) → ops.complete t ≡ some f → IsCallback ops f

module _ (ops : Ops) where
  start_next-IsQueue : (q : Queue) → IsLinked ops q → IsQueue ops (start_next q)
  unfolding start_next
  start_next-IsQueue q v = record {
    linked = start_next-IsLinked ops q v;
    wakes = elim (Bool-cases q.empty) [
      | inl idle ↦ inl (rw idle (ground (arith, v.empty idle)))
      | inr busy ↦ inr (rw busy refl)
    ];
  }

  call-IsLinked :
      (o : Option (Queue → Queue)) (q : Queue)
      → ((f : Queue → Queue) → o ≡ some f → IsCallback ops f)
      → IsLinked ops q
      → IsLinked ops (call o q)
  call-IsLinked none q c v = v
  call-IsLinked (some f) q c v = (c f refl).keeps_linked q v

  call-IsQueue :
      (o : Option (Queue → Queue)) (q : Queue)
      → ((f : Queue → Queue) → o ≡ some f → IsCallback ops f)
      → IsQueue ops q
      → IsQueue ops (call o q)
  call-IsQueue none q c v = v
  call-IsQueue (some f) q c v = record {
    linked = (c f refl).keeps_linked q v.linked;
    wakes = (c f refl).keeps_wakes q v.linked v.wakes;
  }

  module _ (c : IsOps ops) where
    -- `runqueue_task_complete` keeps the lists right and loses no wakeup.
    pub task_complete-IsQueue :
        (q : Queue) (t : ℕ) → IsQueue ops q → IsQueue ops (task_complete ops q t)
    unfolding task_complete
    task_complete-IsQueue q t v = elim (Bool-cases (q.task t).queued) [
      | inr idle ↦ simp idle v
      | inl queued ↦ simp queued (
          start_next-IsQueue (call (ops.complete t) (unlink_task q t)) (
            call-IsLinked (ops.complete t) (unlink_task q t) (c.complete t)
              (unlink_task-IsLinked ops q t v.linked queued)))
    ]

    -- `runqueue_task_cancel` keeps the lists right and loses no wakeup.
    pub task_cancel-IsQueue :
        (q : Queue) (t type : ℕ) → IsQueue ops q → IsQueue ops (task_cancel ops q t type)
    unfolding task_cancel
    task_cancel-IsQueue q t type v = elim (Bool-cases (q.task t).queued) [
      | inr idle ↦ simp idle v
      | inl queued ↦ elim (Bool-cases (q.task t).running) [
        | inr waiting ↦ simp (queued, waiting) (task_complete-IsQueue q t v)
        | inl running ↦
            let marked : IsQueue ops (mark_cancelled q t) = record {
              linked = mark_cancelled-IsLinked ops q t v.linked queued;
              wakes = mark_cancelled-Wakes q t v.wakes;
            } in
            elim (Option-cases (ops.cancel t)) [
              | inl null ↦ simp (queued, running, null) marked
              | inr (f, e) ↦
                  let k = c.cancel t type f e in
                  simp (queued, running, e)
                    (record {
                      linked = k.keeps_linked (mark_cancelled q t) marked.linked;
                      wakes = k.keeps_wakes (mark_cancelled q t) marked.linked marked.wakes;
                    })
            ]
      ]
    ]

    -- `runqueue_task_kill` keeps the lists right and loses no wakeup.
    pub task_kill-IsQueue : (q : Queue) (t : ℕ) → IsQueue ops q → IsQueue ops (task_kill ops q t)
    unfolding task_kill
    task_kill-IsQueue q t v =
        let done = (task_complete-IsQueue q t v).linked in
        elim (Bool-cases (q.task t).queued) [
          | inr idle ↦ simp idle v
          | inl queued ↦ elim (Bool-cases (q.task t).running) [
            | inr waiting ↦ simp (queued, waiting) (start_next-IsQueue (task_complete ops q t) done)
            | inl running ↦
                simp (queued, running)
                  (start_next-IsQueue (call (ops.kill t) (task_complete ops q t))
                    (call-IsLinked (ops.kill t) (task_complete ops q t) (c.kill t) done))
          ]
        ]

    -- The timer of a task keeps the lists right and loses no wakeup.
    pub task_timeout-IsQueue :
        (q : Queue) (t : ℕ) → IsQueue ops q → IsQueue ops (task_timeout ops q t)
    unfolding task_timeout
    task_timeout-IsQueue q t v = elim (Bool-cases (q.task t).cancelled) [
      | inl cancelled ↦ simp cancelled (task_kill-IsQueue q t v)
      | inr fresh ↦ simp fresh (task_cancel-IsQueue q t (q.task t).cancel_type v)
    ]

  -- `_runqueue_task_add` keeps the lists right and loses no wakeup.
  pub task_add-IsQueue :
      (q : Queue) (t : ℕ) (running first : Bool)
      → IsQueue ops q
      → IsQueue ops (task_add ops q t running first)
  unfolding task_add
  task_add-IsQueue q t running first v = elim (Bool-cases (q.task t).queued) [
    | inl queued ↦ simp queued v
    | inr idle ↦ elim (Option-cases (ops.run t)) [
      | inr (f, e) ↦
          simp (idle, e)
            (start_next-IsQueue (link_task q t running first) (
              link_task-IsLinked ops q t running first v.linked idle
                (inr (λ n. some_not_none f (sym e ∙ n)))))
      | inl null ↦ elim (Bool-cases running) [
        | inl active ↦
            simp (idle, null, active)
              (start_next-IsQueue (link_task q t true first)
                (link_task-IsLinked ops q t true first v.linked idle (inl refl)))
        | inr refused ↦ simp (idle, null, refused) v
      ]
    ]
  ]
    where
      some_not_none : (f : Queue → Queue) → some f ≡ none → ⊥
      some_not_none f e = cc

  -- `runqueue_resume` loses no wakeup.
  pub resume-IsQueue : (q : Queue) → IsQueue ops q → IsQueue ops (resume q)
  unfolding resume
  resume-IsQueue q v =
      start_next-IsQueue (record q { stopped = false })
        (record {
          active = v.linked.active;
          inactive = v.linked.inactive;
          distinct_active = v.linked.distinct_active;
          distinct_inactive = v.linked.distinct_inactive;
          count = v.linked.count;
          timers = v.linked.timers;
          empty = v.linked.empty;
          runnable = v.linked.runnable;
        })

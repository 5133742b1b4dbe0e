-- ===== src/Runqueue/Start.antt =====
-- The timer of a queue, `__runqueue_start_next` (runqueue.c).
use libubox.Base.{
  ℕ, zero, suc, ◌+◌, ◌≤◌, ◌<◌, ◌≡◌, inl, inr, refl, sym, ap, ◌∙◌, true, false, Option, none, some,
  List, [], ◌∷◌, arith, ◌==◌, ==→eq, Yields, Bool-cases, Option-cases, length,
}
use libubox.Links.{has}
use libubox.Runqueue.{Queue, Ops, activate, full, finish_start, start_loop, start_tasks}
use libubox.Runqueue.Links.{IsLinked, startable, activate-IsLinked}

-- What is asked of the callback `run`: it keeps the lists right, and adds no task that waits.
pub record IsRun (ops : Ops) : Type 0 where
  pub keeps_linked :
      (t : ℕ) (f : Queue → Queue)
      → ops.run t ≡ some f
      → (q : Queue) → IsLinked ops q
      → IsLinked ops (f q)
  pub adds_none :
      (t : ℕ) (f : Queue → Queue)
      → ops.run t ≡ some f
      → (q : Queue) → IsLinked ops q
      → length (f q).inactive ≤ length q.inactive

-- What holds afterwards: nothing that could start is left, and an empty queue is marked so.
pub record Started (ops : Ops) (q : Queue) : Type 0 where
  pub linked : IsLinked ops q
  pub all_started : startable q ≡ false
  pub marked : q.empty ≡ (length q.active + length q.inactive == 0)

module _ (ops : Ops) where
  record Looped (q : Queue) : Type 0 where
    linked : IsLinked ops q
    all_started : startable q ≡ false

  activate-inactive : (q : Queue) (t : ℕ) (r : List ℕ) → (activate q t r).inactive ≡ r
  unfolding activate
  activate-inactive q t r = refl

  start_loop-list :
      (n : ℕ) (l : List ℕ) (q : Queue)
      → IsRun ops
      → IsLinked ops q
      → q.inactive ≡ l
      → length l < n
      → Yields Looped (start_loop ops n q)
  unfolding start_loop
  start_loop-list zero l q c v e fuel = absurd (omega arith)
  start_loop-list (suc n) [] q c v e fuel = elim (Bool-cases q.stopped) [
    | inl stopped ↦
        simp (start_loop, Yields, stopped) (record { linked = v; all_started = rw stopped refl })
    | inr on ↦
        simp (start_loop, Yields, on, e)
          (record { linked = v; all_started = ground (arith, ap length e) })
  ]
  start_loop-list (suc n) (t ∷ r) q c v e fuel = elim (Bool-cases q.stopped) [
    | inl stopped ↦
        simp (start_loop, Yields, stopped) (record { linked = v; all_started = rw stopped refl })
    | inr on ↦ elim (Bool-cases (full q)) [
      | inl filled ↦
          simp (start_loop, Yields, on, e, filled)
            (record { linked = v; all_started = rw (on, filled) refl })
      | inr room ↦ elim (Option-cases (ops.run t)) [
        | inl null ↦
            let waits : has q.inactive t ≡ true = ap (λ l. has l t) e ∙ ground arith in
            absurd (ground (arith, v.runnable t null))
        | inr (f, is) ↦
            let w = activate-IsLinked ops q t r v e in
            let q' = f (activate q t r) in
            let fewer = c.adds_none t f is (activate q t r) w in
            let left = ap length (activate-inactive q t r) in
            simp (start_loop, Yields, on, e, room, is)
              (start_loop-list n q'.inactive q' c (c.keeps_linked t f is (activate q t r) w) refl
                (omega (arith, fewer, left)))
      ]
    ]
  ]

  finish_start-Started :
      (o : Option Queue)
      → Yields Looped o
      → Yields
          (Started ops)
          (elim o [ none ↦ none | some q' ↦ some (finish_start ops.has_empty_cb q') ])
  unfolding finish_start
  finish_start-Started none y = y
  finish_start-Started (some q) y = elim (Bool-cases q.empty) [
    | inl idle ↦ simp idle (record {
      linked = y.linked;
      all_started = y.all_started;
      marked = idle ∙ ground (arith, y.linked.empty idle);
    })
    | inr busy ↦ elim (Bool-cases (length q.active + length q.inactive == 0)) [
      | inr some_left ↦
          simp (busy, some_left)
            (record {
              linked = y.linked;
              all_started = y.all_started;
              marked = busy ∙ sym some_left;
            })
      | inl none_left ↦
          simp (busy, none_left)
            (record {
              linked = record {
                active = y.linked.active;
                inactive = y.linked.inactive;
                distinct_active = y.linked.distinct_active;
                distinct_inactive = y.linked.distinct_inactive;
                count = y.linked.count;
                timers = y.linked.timers;
                empty = λ h. ==→eq _ 0 none_left;
                runnable = y.linked.runnable;
              };
              all_started = y.all_started;
              marked = sym none_left;
            })
    ]
  ]

  -- `__runqueue_start_next` ends, with more rounds than tasks wait, and calls no NULL `run`, whatever
  -- the callbacks do that add no waiting task. It keeps the lists right and leaves nothing that could
  -- start: the queue is stopped, or no task waits, or as many run as may. A queue is marked empty
  -- exactly if it is.
  pub start_tasks-Started :
      (n : ℕ) (q : Queue)
      → IsRun ops
      → IsLinked ops q
      → length q.inactive < n
      → Yields (Started ops) (start_tasks ops n q)
  unfolding start_tasks
  start_tasks-Started n q c v fuel =
      finish_start-Started (start_loop ops n q) (start_loop-list n q.inactive q c v refl fuel)

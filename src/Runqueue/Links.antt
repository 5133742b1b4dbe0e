-- ===== src/Runqueue/Links.antt =====
-- The lists of a queue and its tasks (runqueue.c): linking, unlinking and activating one.
use libubox.Base.{
  ℕ, suc, ◌+◌, ◌≤◌, ◌≡◌, ◌≢◌, ◌⊎◌, inl, inr, refl, sym, ap, ◌∙◌, Bool, true, false, not, ◌&&◌, ◌||◌,
  none, some, List, [], ◌∷◌, ◌++◌, arith, ltb, ◌==◌, ==→eq, Bool-cases, length, length-append,
}
use libubox.Links.{has, Distinct, remove, has-remove, Distinct-remove}
use libubox.Runqueue.{
  Queue, Ops, start_next, start_next_cb, unlink_task, add_to, link_task, mark_cancelled, activate,
  full,
}

pub has-append : (xs ys : List ℕ) (i : ℕ) → has (xs ++ ys) i ≡ (has xs i || has ys i)
has-append [] ys i = refl
has-append (x ∷ xs) ys i = ground (arith, has-append xs ys i)

Distinct-snoc : (xs : List ℕ) (t : ℕ) → Distinct xs → has xs t ≡ false → Distinct (xs ++ (t ∷ []))
Distinct-snoc [] t d h = (refl, tt)
Distinct-snoc (x ∷ xs) t d h =
    (has-append xs (t ∷ []) x ∙ ground (arith, d.0), Distinct-snoc xs t d.1 (ground arith))

has-add_to :
    (first : Bool) (t : ℕ) (xs : List ℕ) (i : ℕ)
    → has (add_to first t xs) i ≡ ((i == t) || has xs i)
unfolding add_to
has-add_to true t xs i = refl
has-add_to false t xs i = has-append xs (t ∷ []) i ∙ ground arith

Distinct-add_to :
    (first : Bool) (t : ℕ) (xs : List ℕ)
    → Distinct xs
    → has xs t ≡ false
    → Distinct (add_to first t xs)
unfolding add_to
Distinct-add_to true t xs d h = (h, d)
Distinct-add_to false t xs d h = Distinct-snoc xs t d h

length-add_to : (first : Bool) (t : ℕ) (xs : List ℕ) → length (add_to first t xs) ≡ length xs + 1
unfolding add_to
length-add_to true t xs = omega arith
length-add_to false t xs = length-append xs (t ∷ [])

remove-absent : (t : ℕ) (xs : List ℕ) → has xs t ≡ false → remove t xs ≡ xs
unfolding remove
remove-absent t [] h = refl
remove-absent t (x ∷ xs) h = ground (arith, remove-absent t xs)

length-remove : (t : ℕ) (xs : List ℕ) → has xs t ≡ true → suc (length (remove t xs)) ≡ length xs
unfolding remove
length-remove t [] h = cc
length-remove t (x ∷ xs) h = ground (arith, length-remove t xs)

length-remove_le : (t : ℕ) (xs : List ℕ) → length (remove t xs) ≤ length xs
unfolding remove
length-remove_le t [] = omega arith
length-remove_le t (x ∷ xs) = ground (arith, length-remove_le t xs)

-- The invariant of a queue. A task that is not queued has no timer that is pending, and one that waits
-- can be run.
pub record IsLinked (ops : Ops) (q : Queue) : Type 0 where
  pub active : (i : ℕ) → has q.active i ≡ ((q.task i).queued && (q.task i).running)
  pub inactive : (i : ℕ) → has q.inactive i ≡ ((q.task i).queued && not (q.task i).running)
  pub distinct_active : Distinct q.active
  pub distinct_inactive : Distinct q.inactive
  pub count : q.running_tasks ≡ length q.active
  pub timers : (i : ℕ) → (q.task i).queued ≡ false → (q.task i).timeout ≡ none
  pub empty : q.empty ≡ true → length q.active + length q.inactive ≡ 0
  pub runnable : (i : ℕ) → ops.run i ≡ none → has q.inactive i ≡ false

-- A queue that could start a task has its timer set to do that.
abbrev pub startable : Queue → Bool
startable q = not q.stopped && not (full q) && ltb 0 (length q.inactive)

abbrev pub Wakes : Queue → Type 0
Wakes q = (startable q ≡ false) ⊎ (q.timeout ≡ some start_next_cb)

module _ (ops : Ops) where
  pub start_next-IsLinked : (q : Queue) → IsLinked ops q → IsLinked ops (start_next q)
  unfolding start_next
  start_next-IsLinked q v = elim (Bool-cases q.empty) [
    | inl idle ↦ simp idle v
    | inr busy ↦ simp busy (record {
      active = v.active;
      inactive = v.inactive;
      distinct_active = v.distinct_active;
      distinct_inactive = v.distinct_inactive;
      count = v.count;
      timers = v.timers;
      empty = λ e. absurd (ground arith);
      runnable = v.runnable;
    })
  ]

  pub unlink_task-IsLinked :
      (q : Queue) (t : ℕ)
      → IsLinked ops q
      → (q.task t).queued ≡ true
      → IsLinked ops (unlink_task q t)
  unfolding unlink_task
  unlink_task-IsLinked q t v queued = record {
    active = λ i. has-remove t q.active i v.distinct_active ∙ ground (arith, v.active i);
    inactive = λ i. has-remove t q.inactive i v.distinct_inactive ∙ ground (arith, v.inactive i);
    distinct_active = Distinct-remove t q.active v.distinct_active;
    distinct_inactive = Distinct-remove t q.inactive v.distinct_inactive;
    count = elim (Bool-cases (q.task t).running) [
      | inl running ↦
          let inside : has q.active t ≡ true = v.active t ∙ ground arith in
          rw running (omega (arith, v.count, length-remove t q.active inside))
      | inr waiting ↦
          let outside : has q.active t ≡ false = v.active t ∙ ground arith in
          rw waiting (v.count ∙ ap length (sym (remove-absent t q.active outside)))
    ];
    timers = λ i. ground (arith, v.timers i);
    empty =
        λ e. omega (arith, v.empty e, length-remove_le t q.active, length-remove_le t q.inactive);
    runnable =
        λ i h. has-remove t q.inactive i v.distinct_inactive ∙ ground (arith, v.runnable i h);
  }

  length-snoc : (xs : List ℕ) (t : ℕ) → length (xs ++ (t ∷ [])) ≡ length xs + 1
  length-snoc xs t = length-append xs (t ∷ [])

  pub link_task-IsLinked :
      (q : Queue) (t : ℕ) (running first : Bool)
      → IsLinked ops q
      → (q.task t).queued ≡ false
      → (running ≡ true) ⊎ (ops.run t ≢ none)
      → IsLinked ops (link_task q t running first)
  unfolding link_task
  link_task-IsLinked q t true first v idle can = record {
    active = λ i. has-add_to first t q.active i ∙ ground (arith, v.active i);
    inactive = λ i. ground (arith, v.inactive i);
    distinct_active =
        Distinct-add_to first t q.active v.distinct_active (v.active t ∙ ground arith);
    distinct_inactive = v.distinct_inactive;
    count = omega (arith, v.count, length-add_to first t q.active);
    timers = λ i h. ground (arith, v.timers i);
    empty = λ h. absurd (ground arith);
    runnable = v.runnable;
  }
  link_task-IsLinked q t false first v idle can = record {
    active = λ i. ground (arith, v.active i);
    inactive = λ i. has-add_to first t q.inactive i ∙ ground (arith, v.inactive i);
    distinct_active = v.distinct_active;
    distinct_inactive =
        Distinct-add_to first t q.inactive v.distinct_inactive (v.inactive t ∙ ground arith);
    count = v.count;
    timers = λ i h. ground (arith, v.timers i);
    empty = λ h. absurd (ground arith);
    runnable = λ i h. has-add_to first t q.inactive i ∙ (elim (Bool-cases (i == t)) [
      | inl this ↦ let e : i ≡ t = ==→eq i t this in absurd (not_null can (ap ops.run (sym e) ∙ h))
      | inr other ↦ rw other (v.runnable i h)
    ]);
  }
    where
      not_null : (false ≡ true) ⊎ (ops.run t ≢ none) → ops.run t ≡ none → ⊥
      not_null (inl impossible) h = absurd (ground arith)
      not_null (inr can) h = can h

  pub activate-IsLinked :
      (q : Queue) (t : ℕ) (r : List ℕ)
      → IsLinked ops q
      → q.inactive ≡ t ∷ r
      → IsLinked ops (activate q t r)
  unfolding activate
  activate-IsLinked q t r v e =
      let listed : (i : ℕ) → has q.inactive i ≡ ((i == t) || has r i) = λ i. ap (λ l. has l i) e in
      let d : Distinct (t ∷ r) = rw e at v.distinct_inactive in
      let waits : ((q.task t).queued && not (q.task t).running) ≡ true =
        sym (v.inactive t) ∙ listed t ∙ ground arith in
      let outside : has q.active t ≡ false = v.active t ∙ ground arith in
      record {
        active = λ i.
            has-append q.active (t ∷ []) i ∙ ground (arith, v.active i, v.inactive i, listed i);
        inactive = λ i. ground (arith, v.active i, v.inactive i, listed i, d.0);
        distinct_active = Distinct-snoc q.active t v.distinct_active outside;
        distinct_inactive = d.1;
        count = omega (arith, v.count, length-snoc q.active t);
        timers = λ i h. ground (arith, v.timers i);
        empty = λ h. absurd (omega (arith, v.empty h, ap length e));
        runnable = λ i h. ground (arith, v.runnable i h, listed i);
      }

  pub mark_cancelled-IsLinked :
      (q : Queue) (t : ℕ)
      → IsLinked ops q
      → (q.task t).queued ≡ true
      → IsLinked ops (mark_cancelled q t)
  unfolding mark_cancelled
  mark_cancelled-IsLinked q t v queued = record {
    active = λ i. v.active i ∙ ground arith;
    inactive = λ i. v.inactive i ∙ ground arith;
    distinct_active = v.distinct_active;
    distinct_inactive = v.distinct_inactive;
    count = v.count;
    timers = λ i h. ground (arith, v.timers i);
    empty = v.empty;
    runnable = v.runnable;
  }

pub mark_cancelled-Wakes : (q : Queue) (t : ℕ) → Wakes q → Wakes (mark_cancelled q t)
unfolding mark_cancelled
mark_cancelled-Wakes q t w = w

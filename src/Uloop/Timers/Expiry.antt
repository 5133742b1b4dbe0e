-- ===== src/Uloop/Timers/Expiry.antt =====
-- Which timers fire, how long the loop waits, and clearing the list (uloop.c).
use libubox.Base.{
  ℕ, zero, suc, ◌+◌, ◌*◌, ◌≤◌, ◌<◌, ◌≡◌, ◌⊎◌, inl, inr, refl, sym, ap, ap₂, ◌∙◌, Bool, true, false,
  Option, none, some, List, [], ◌∷◌, arith, if◌then◌else◌, Yields, Bool-cases, All,
}
use libubox.Base.Int.{ℤ, pos, negsuc, ltb_ℤ}
use libubox.Base.Int.{pos_part, neg_part}
use libubox.Uloop.Time.{Timeval, micros, later, later→lt, not_later→lt, tv_diff, tv_diff-near}
use libubox.Links.{has, remove, All-mono}
use libubox.Uloop.Timers.{
  Timer, Timeouts, update, timeout_cancel, get_next_timeout, clear_loop, clear_timeouts,
  process_timeouts,
}
use libubox.Uloop.Timers.Invariant.{at, Ordered, IsTimeouts, timeout_cancel-IsTimeouts}

-- How many of the timers of a list are due at `tv`.
abbrev pub due_count : (ℕ → Timer) → Timeval → List ℕ → ℕ
due_count timer tv [] = 0
due_count timer tv (x ∷ xs) = (if later (timer x).time tv then 0 else 1) + due_count timer tv xs

abbrev pub due : Timeouts → Timeval → ℕ
due s tv = due_count s.timer tv s.list

-- What the loop asks of the callbacks: they keep the invariant, and arm no timer that is already due.
pub record IsCallback (cb : ℕ → Timeouts → Timeouts) (tv : Timeval) : Type 0 where
  pub valid : (id : ℕ) (s : Timeouts) → IsTimeouts s → IsTimeouts (cb id s)
  pub no_new_due : (id : ℕ) (s : Timeouts) → IsTimeouts s → due (cb id s) tv ≤ due s tv

-- What holds when the loop ends.
pub record Processed (tv : Timeval) (res : Timeouts × List (ℕ × Timeval)) : Type 0 where
  pub valid : IsTimeouts res.0
  -- No timer is left that is overdue by a millisecond.
  pub left : All (λ i. micros tv < at res.0.timer i + 1000) res.0.list
  -- None has fired a millisecond early.
  pub not_early : All (λ f. micros f.1 < micros tv + 1000) res.1

due_count-same :
    (f : ℕ → Timer) (tv : Timeval) (id : ℕ) (b : Bool) (xs : List ℕ)
    → due_count (update f id (record (f id) { pending = b })) tv xs ≡ due_count f tv xs
due_count-same f tv id b [] = refl
due_count-same f tv id b (x ∷ xs) = ap₂ ◌+◌ (ground arith) (due_count-same f tv id b xs)

-- Cancelling a due timer at the head leaves one due timer fewer.
due-timeout_cancel :
    (s : Timeouts) (id : ℕ) (r : List ℕ) (tv : Timeval)
    → IsTimeouts s
    → s.list ≡ id ∷ r
    → later (s.timer id).time tv ≡ false
    → due s tv ≡ suc (due (timeout_cancel s id).0 tv)
unfolding timeout_cancel remove
due-timeout_cancel s id r tv v e h =
    let pending : (s.timer id).pending ≡ true = sym (v.listed id) ∙ rw e (ground arith) in
    let head : remove id s.list ≡ r = rw e (ground arith) in
    let before : due s tv ≡ suc (due_count s.timer tv r) =
      ap (due_count s.timer tv) e ∙ ground arith in
    let after : due (timeout_cancel s id).0 tv ≡ due_count s.timer tv r =
      simp (pending, head) (due_count-same s.timer tv id false r) in
    omega arith

module _ (cb : ℕ → Timeouts → Timeouts) (tv : Timeval) where
  fire-Processed :
      (id : ℕ) (t : Timeval) (o : Option (Timeouts × List (ℕ × Timeval)))
      → micros t < micros tv + 1000
      → Yields (Processed tv) o
      → Yields
          (Processed tv)
          (elim o [ none ↦ none | some (s', fired) ↦ some (s', (id, t) ∷ fired) ])
  fire-Processed id t none h p = p
  fire-Processed id t (some (s', fired)) h p = record {
    valid = p.valid;
    left = p.left;
    not_early = (h, p.not_early);
  }

  process_timeouts-list :
      (n : ℕ) (list : List ℕ) (s : Timeouts)
      → IsCallback cb tv
      → IsTimeouts s
      → s.list ≡ list
      → due s tv < n
      → Yields (Processed tv) (process_timeouts cb n s tv)
  unfolding process_timeouts
  process_timeouts-list zero list s c v e fuel = absurd (omega arith)
  process_timeouts-list (suc n) [] s c v e fuel =
      simp (process_timeouts, Yields, e) (record { valid = v; left = rw e tt; not_early = tt })
  process_timeouts-list (suc n) (id ∷ r) s c v e fuel =
      elim (Bool-cases (later (s.timer id).time tv)) [
        | inl future ↦
            simp (process_timeouts, Yields, e, future)
              (record {
                valid = v;
                left =
                    let o : Ordered s.timer (id ∷ r) = rw e at v.ordered in
                    let lt = later→lt (s.timer id).time tv future in
                    let all_left : All (λ i. micros tv < at s.timer i + 1000) (id ∷ r) =
                      (omega arith, All-mono (λ i h. omega arith) r o.0) in
                    rw e all_left;
                not_early = tt;
              })
        | inr now ↦
            let s' = cb id (timeout_cancel s id).0 in
            let w = timeout_cancel-IsTimeouts s id v in
            simp (process_timeouts, Yields, e, now)
              (fire-Processed id (s.timer id).time (process_timeouts cb n s' tv)
                (not_later→lt (s.timer id).time tv now)
                (process_timeouts-list n s'.list s' c (c.valid id _ w) refl (
                  omega (
                    arith,
                    c.no_new_due id (timeout_cancel s id).0 w,
                    due-timeout_cancel s id r tv v e now,
                  ))))
      ]

  -- `uloop_process_timeouts` ends, with more rounds of fuel than timers are due, whatever the callbacks
  -- do that arm no due timer. It keeps the invariant, fires no timer a millisecond or more before its
  -- time, and leaves none that is overdue by a millisecond or more.
  pub process_timeouts-Processed :
      (n : ℕ) (s : Timeouts)
      → IsCallback cb tv
      → IsTimeouts s
      → due s tv < n
      → Yields (Processed tv) (process_timeouts cb n s tv)
  process_timeouts-Processed n s c v fuel = process_timeouts-list n s.list s c v refl fuel

-- A wait of `ms` milliseconds from `tv` on: it ends less than a millisecond before the first timer or
-- later, and, unless it is no wait at all, less than two milliseconds after any timer.
pub record Wait (s : Timeouts) (tv : Timeval) (first ms : ℕ) : Type 0 where
  pub long_enough : at s.timer first < micros tv + ms * 1000 + 1000
  pub no_oversleep : (ms ≡ 0) ⊎ All (λ i. micros tv + ms * 1000 < at s.timer i + 2000) s.list

wait_of_diff :
    (d : ℤ) (a t : ℕ)
    → pos_part d * 1000 + t < neg_part d * 1000 + a + 1000
    → neg_part d * 1000 + a < pos_part d * 1000 + t + 1000
    → (ms : ℕ) × ((if ltb_ℤ d (pos 0) then pos 0 else d) ≡ pos ms)
      × (a < t + ms * 1000 + 1000)
      × ((ms ≡ 0) ⊎ (t + ms * 1000 < a + 1000))
wait_of_diff (pos n) a t lo hi = (n, ground arith, omega arith, inr (omega arith))
wait_of_diff (negsuc n) a t lo hi = (0, ground arith, omega arith, inl refl)

-- `uloop_get_next_timeout` is -1, to wait for ever, if no timer is pending. Else it is a number of
-- milliseconds that neither ends a millisecond before the first timer nor sleeps two milliseconds
-- past any timer.
pub get_next_timeout-Wait :
    (s : Timeouts) (tv : Timeval)
    → IsTimeouts s
    → ((s.list ≡ []) × (get_next_timeout s tv ≡ negsuc 0))
      ⊎ ((id : ℕ) × (r : List ℕ) × (ms : ℕ) × (s.list ≡ id ∷ r)
          × (get_next_timeout s tv ≡ pos ms)
          × Wait s tv id ms)
unfolding get_next_timeout
get_next_timeout-Wait s tv v = go s.list refl
  where
    go :
        (l : List ℕ)
        → s.list ≡ l
        → ((s.list ≡ []) × (get_next_timeout s tv ≡ negsuc 0))
          ⊎ ((id : ℕ) × (r : List ℕ) × (ms : ℕ) × (s.list ≡ id ∷ r)
              × (get_next_timeout s tv ≡ pos ms)
              × Wait s tv id ms)
    go [] e = inl (e, simp (get_next_timeout, e))
    go (id ∷ r) e =
        let d = tv_diff (s.timer id).time tv in
        let near = tv_diff-near (s.timer id).time tv in
        let (ms, is, covers, over) = wait_of_diff d (at s.timer id) (micros tv) near.0 near.1 in
        let o : Ordered s.timer (id ∷ r) = rw e at v.ordered in
        inr (
          id,
          r,
          ms,
          e,
          simp (get_next_timeout, e) is,
          record {
            long_enough = covers;
            no_oversleep = elim over [
              | inl none_at_all ↦ inl none_at_all
              | inr past ↦
                  let all : All (λ i. micros tv + ms * 1000 < at s.timer i + 2000) (id ∷ r) =
                    (omega arith, All-mono (λ i h. omega arith) r o.0) in
                  inr (rw e all)
            ];
          },
        )

clear_loop-IsTimeouts : (l : List ℕ) (s : Timeouts) → IsTimeouts s → IsTimeouts (clear_loop l s)
unfolding clear_loop
clear_loop-IsTimeouts [] s v = v
clear_loop-IsTimeouts (t ∷ r) s v =
    clear_loop-IsTimeouts r (timeout_cancel s t).0 (timeout_cancel-IsTimeouts s t v)

cancel-tail :
    (s : Timeouts) (id : ℕ) (r : List ℕ)
    → IsTimeouts s
    → s.list ≡ id ∷ r
    → (timeout_cancel s id).0.list ≡ r
unfolding timeout_cancel remove
cancel-tail s id r v e =
    let pending : (s.timer id).pending ≡ true = sym (v.listed id) ∙ rw e (ground arith) in
    let head : remove id s.list ≡ r = rw e (ground arith) in simp (pending, head)

clear_loop-nil :
    (l : List ℕ) (s : Timeouts) → IsTimeouts s → s.list ≡ l → (clear_loop l s).list ≡ []
unfolding clear_loop
clear_loop-nil [] s v e = e
clear_loop-nil (t ∷ r) s v e =
    clear_loop-nil r (timeout_cancel s t).0 (timeout_cancel-IsTimeouts s t v)
      (cancel-tail s t r v e)

-- `uloop_clear_timeouts` leaves no timer linked and none pending.
pub clear_timeouts-idle :
    (s : Timeouts)
    → IsTimeouts s
    → ((clear_timeouts s).list ≡ []) × ((i : ℕ) → ((clear_timeouts s).timer i).pending ≡ false)
unfolding clear_timeouts
clear_timeouts-idle s v =
    let none_left = clear_loop-nil s.list s v refl in
    (
      none_left,
      λ i. sym ((clear_loop-IsTimeouts s.list s v).listed i) ∙ ap (λ l. has l i) none_left,
    )

-- ===== src/Uloop/Timers/Invariant.antt =====
-- The invariant of the list of timers, and setting one (uloop.c).
use libubox.Base.{
  ℕ, ◌+◌, ◌*◌, ◌<◌, ◌≡◌, inl, inr, refl, sym, ap, ◌∙◌, Bool, true, false, ◌||◌, List, [], ◌∷◌,
  arith, ◌==◌, ==→eq, Bool-cases, All,
}
use libubox.Base.Int.{ℤ, pos}
use libubox.Uloop.Time.{Timeval, micros, later, later→lt, not_later→lt, add_msecs, add_msecs_exact}
use libubox.Links.{has, Distinct, remove, has-remove, Distinct-remove, All-remove, All-mono}
use libubox.Uloop.Timers.{
  Timer, Timeouts, update, insert, timeout_add, timeout_cancel, set_time, stop_pending, timeout_set,
}

module _ (timer : ℕ → Timer) where
  abbrev pub at : ℕ → ℕ
  at i = micros (timer i).time

  -- A timer is less than a millisecond later than any behind it.
  abbrev pub Ordered : List ℕ → Type 0
  Ordered [] = Unit {0}
  Ordered (x ∷ xs) = All (λ y. at x < at y + 1000) xs × Ordered xs

  has-insert : (id : ℕ) (xs : List ℕ) (i : ℕ) → has (insert timer id xs) i ≡ ((i == id) || has xs i)
  unfolding insert
  has-insert id [] i = refl
  has-insert id (x ∷ xs) i = ground (arith, has-insert id xs i)

  Distinct-insert :
      (id : ℕ) (xs : List ℕ) → has xs id ≡ false → Distinct xs → Distinct (insert timer id xs)
  unfolding insert
  Distinct-insert id [] h d = (refl, tt)
  Distinct-insert id (x ∷ xs) h d = ground (arith, has-insert id xs x, Distinct-insert id xs)

  All-insert :
      (P : ℕ → Type 0) (id : ℕ) (xs : List ℕ) → P id → All P xs → All P (insert timer id xs)
  unfolding insert
  All-insert P id [] p ps = (p, tt)
  All-insert P id (x ∷ xs) p ps = elim (Bool-cases (later (timer x).time (timer id).time)) [
    | inl before ↦ rw before (p, ps)
    | inr behind ↦ rw behind (ps.0, All-insert P id xs p ps.1)
  ]

  -- Inserting keeps the order.
  Ordered-insert : (id : ℕ) (xs : List ℕ) → Ordered xs → Ordered (insert timer id xs)
  unfolding insert
  Ordered-insert id [] o = (tt, tt)
  Ordered-insert id (x ∷ xs) o = elim (Bool-cases (later (timer x).time (timer id).time)) [
    | inl before ↦
        let lt = later→lt (timer x).time (timer id).time before in
        rw before ((omega arith, All-mono (λ y h. omega arith) xs o.0), o)
    | inr behind ↦
        let lt = not_later→lt (timer x).time (timer id).time behind in
        rw behind (All-insert (λ y. at x < at y + 1000) id xs lt o.0, Ordered-insert id xs o.1)
  ]

Ordered-remove :
    (timer : ℕ → Timer) (id : ℕ) (xs : List ℕ) → Ordered timer xs → Ordered timer (remove id xs)
unfolding remove
Ordered-remove timer id [] o = tt
Ordered-remove timer id (x ∷ xs) o = elim (Bool-cases (x == id)) [
  | inl this ↦ rw this o.1
  | inr other ↦
      rw other
        (All-remove (λ y. at timer x < at timer y + 1000) id xs o.0, Ordered-remove timer id xs o.1)
]

-- What the order reads of the timers is the times of those in the list.
Below-same :
    (f g : ℕ → Timer) (x : ℕ) (xs : List ℕ)
    → at g x ≡ at f x
    → ((i : ℕ) → has xs i ≡ true → at g i ≡ at f i)
    → All (λ y. at f x < at f y + 1000) xs
    → All (λ y. at g x < at g y + 1000) xs
Below-same f g x [] e h b = tt
Below-same f g x (y ∷ ys) e h b =
    (omega (arith, h y (ground arith)), Below-same f g x ys e (λ i m. h i (ground arith)) b.1)

pub Ordered-same :
    (f g : ℕ → Timer) (xs : List ℕ)
    → ((i : ℕ) → has xs i ≡ true → at g i ≡ at f i)
    → Ordered f xs
    → Ordered g xs
Ordered-same f g [] h o = tt
Ordered-same f g (x ∷ xs) h o = (
  Below-same f g x xs (h x (ground arith)) (λ i m. h i (ground arith)) o.0,
  Ordered-same f g xs (λ i m. h i (ground arith)) o.1,
)

-- The invariant of the timers.
pub record IsTimeouts (s : Timeouts) : Type 0 where
  pub listed : (i : ℕ) → has s.list i ≡ (s.timer i).pending
  pub distinct : Distinct s.list
  pub ordered : Ordered s.timer s.list

update-at :
    (f : ℕ → Timer) (id : ℕ) (b : Bool) (i : ℕ)
    → at (update f id (record (f id) { pending = b })) i ≡ at f i
update-at f id b i = elim (Bool-cases (i == id)) [
  | inl this ↦ let e : i ≡ id = ==→eq i id this in rw this (ap (at f) (sym e))
  | inr other ↦ rw other
]

-- `uloop_timeout_add` keeps the invariant.
pub timeout_add-IsTimeouts :
    (s : Timeouts) (id : ℕ) → IsTimeouts s → IsTimeouts (timeout_add s id).0
unfolding timeout_add
timeout_add-IsTimeouts s id v = elim (Bool-cases (s.timer id).pending) [
  | inl pending ↦ simp pending v
  | inr idle ↦ simp idle (record {
    listed = λ i. has-insert s.timer id s.list i ∙ ground (arith, v.listed i);
    distinct = Distinct-insert s.timer id s.list (v.listed id ∙ idle) v.distinct;
    ordered =
        Ordered-same s.timer (update s.timer id (record (s.timer id) { pending = true }))
          (insert s.timer id s.list) (λ i m. update-at s.timer id true i)
          (Ordered-insert s.timer id s.list v.ordered);
  })
]

-- `uloop_timeout_cancel` keeps the invariant.
pub timeout_cancel-IsTimeouts :
    (s : Timeouts) (id : ℕ) → IsTimeouts s → IsTimeouts (timeout_cancel s id).0
unfolding timeout_cancel
timeout_cancel-IsTimeouts s id v = elim (Bool-cases (s.timer id).pending) [
  | inr idle ↦ simp idle v
  | inl pending ↦ simp pending (record {
    listed = λ i. has-remove id s.list i v.distinct ∙ ground (arith, v.listed i);
    distinct = Distinct-remove id s.list v.distinct;
    ordered =
        Ordered-same s.timer (update s.timer id (record (s.timer id) { pending = false }))
          (remove id s.list) (λ i m. update-at s.timer id false i)
          (Ordered-remove s.timer id s.list v.ordered);
  })
]

-- After `uloop_timeout_cancel` the timer is not pending, and the other timers are as they were.
timeout_cancel-idle : (s : Timeouts) (id : ℕ) → ((timeout_cancel s id).0.timer id).pending ≡ false
unfolding timeout_cancel
timeout_cancel-idle s id = ground arith

timeout_cancel-other :
    (s : Timeouts) (id j : ℕ) → (j == id) ≡ false → (timeout_cancel s id).0.timer j ≡ s.timer j
unfolding timeout_cancel
timeout_cancel-other s id j h = ground arith

record Stopped (s : Timeouts) (id : ℕ) (s' : Timeouts) : Type 0 where
  valid : IsTimeouts s'
  idle : (s'.timer id).pending ≡ false
  others : (j : ℕ) → (j == id) ≡ false → s'.timer j ≡ s.timer j

stop_pending-Stopped : (s : Timeouts) (id : ℕ) → IsTimeouts s → Stopped s id (stop_pending s id)
unfolding stop_pending
stop_pending-Stopped s id v = elim (Bool-cases (s.timer id).pending) [
  | inl pending ↦ simp pending (record {
    valid = timeout_cancel-IsTimeouts s id v;
    idle = timeout_cancel-idle s id;
    others = timeout_cancel-other s id;
  })
  | inr idle ↦ simp idle (record { valid = v; idle = idle; others = λ j h. refl })
]

set_time-IsTimeouts :
    (s : Timeouts) (id : ℕ) (t : Timeval)
    → IsTimeouts s
    → (s.timer id).pending ≡ false
    → IsTimeouts (set_time s id t)
set_time-IsTimeouts s id t v idle = record {
  listed = λ i. ground (arith, v.listed i);
  distinct = v.distinct;
  ordered =
      Ordered-same s.timer (set_time s id t).timer s.list (λ i m. ground (arith, v.listed i))
        v.ordered;
}

-- What `uloop_timeout_set` has done.
pub record Armed (s : Timeouts) (id msecs : ℕ) (now : Timeval) (res : Timeouts × ℤ) : Type 0 where
  pub valid : IsTimeouts res.0
  pub pending : (res.0.timer id).pending ≡ true
  pub due : at res.0.timer id ≡ micros now + msecs * 1000
  pub others : (j : ℕ) → (j == id) ≡ false → res.0.timer j ≡ s.timer j
  pub result : res.1 ≡ pos 0

timeout_add-idle :
    (s : Timeouts) (id : ℕ)
    → (s.timer id).pending ≡ false
    → let res = timeout_add s id in
      ((res.0.timer id).pending ≡ true)
      × (at res.0.timer id ≡ at s.timer id)
      × ((j : ℕ) → (j == id) ≡ false → res.0.timer j ≡ s.timer j)
      × (res.1 ≡ pos 0)
unfolding timeout_add
timeout_add-idle s id h = simp h (ground arith, ground arith, λ j ne. ground arith, refl)

-- `uloop_timeout_set`, whether or not the timer is pending, keeps the invariant, leaves it pending
-- with the time `msecs` after `now` exactly, touches no other timer and returns 0. The time `now` is
-- normalised.
pub timeout_set-Armed :
    (s : Timeouts) (id msecs : ℕ) (now : Timeval)
    → IsTimeouts s
    → now.tv_usec < 1000000
    → Armed s id msecs now (timeout_set s id msecs now)
unfolding timeout_set
timeout_set-Armed s id msecs now v h =
    let stop = stop_pending-Stopped s id v in
    let t = add_msecs now msecs in
    let s' = set_time (stop_pending s id) id t in
    let idle : (s'.timer id).pending ≡ false = ground (arith, stop.idle) in
    let added = timeout_add-idle s' id idle in
    record {
      valid =
          timeout_add-IsTimeouts s' id
            (set_time-IsTimeouts (stop_pending s id) id t stop.valid stop.idle);
      pending = added.0;
      due = added.1 ∙ ground (arith, add_msecs_exact now msecs h);
      others = λ j ne. added.2 j ne ∙ rw ne (stop.others j ne);
      result = added.3;
    }

-- ===== src/Uloop/Time.antt =====
-- `struct timeval` and the differences of times that the loop computes (uloop.c).
use libubox.Base.{
  ℕ, suc, ◌+◌, ◌-◌, ◌*◌, ◌/◌, ◌%◌, ◌≤◌, ◌<◌, ◌≡◌, ◌↔◌, refl, Bool, true, false, arith, ltb,
  if◌then◌else◌,
}
use libubox.Base.Int.{ℤ, pos, negsuc, ltb_ℤ, ◌+ℤ◌, sub_ℕ, pos_part, neg_part, int_laws}

-- `struct timeval`, of a monotonic clock: not negative.
pub record Timeval : Type 0 where
  pub tv_sec : ℕ
  pub tv_usec : ℕ

-- The same time in microseconds.
abbrev pub micros : Timeval → ℕ
micros t = t.tv_sec * 1000000 + t.tv_usec

-- Division of an `int` by 1000, which rounds towards zero.
abbrev pub quot_1000 : ℤ → ℤ
quot_1000 (pos n) = pos (n / 1000)
quot_1000 (negsuc n) = sub_ℕ 0 (suc n / 1000)

-- `tv_diff`, in milliseconds. Overflow of the `int` is not modelled.
unfoldable pub tv_diff : Timeval → Timeval → ℤ
tv_diff t1 t2 =
    sub_ℕ (t1.tv_sec * 1000) (t2.tv_sec * 1000) +ℤ quot_1000 (sub_ℕ t1.tv_usec t2.tv_usec)

-- `tv_diff(t1, t2) > 0`.
abbrev pub later : Timeval → Timeval → Bool
later t1 t2 = ltb_ℤ (pos 0) (tv_diff t1 t2)

-- `time` after the additions of `uloop_timeout_set`.
unfoldable pub add_msecs : Timeval → ℕ → Timeval
add_msecs t msecs =
    let sec = t.tv_sec + msecs / 1000 in
    let usec = t.tv_usec + msecs % 1000 * 1000 in
    if ltb 1000000 usec
    then record { tv_sec = sec + 1; tv_usec = usec - 1000000 }
    else record { tv_sec = sec; tv_usec = usec }

-- The division rounds by less than a millisecond.
quot_1000-near :
    (a b : ℕ)
    → let q = quot_1000 (sub_ℕ a b) in
      (pos_part q * 1000 + b < neg_part q * 1000 + a + 1000)
      × (neg_part q * 1000 + a < pos_part q * 1000 + b + 1000)
quot_1000-near a b = ground arith

sub_ℕ_parts : (a b : ℕ) → pos_part (sub_ℕ a b) + b ≡ neg_part (sub_ℕ a b) + a
sub_ℕ_parts a b = ground arith

sum-near :
    (s1 s2 u1 u2 : ℕ) (x q : ℤ)
    → pos_part x + s2 * 1000 ≡ neg_part x + s1 * 1000
    → pos_part q * 1000 + u2 < neg_part q * 1000 + u1 + 1000
    → neg_part q * 1000 + u1 < pos_part q * 1000 + u2 + 1000
    → (pos_part (x +ℤ q) * 1000 + (s2 * 1000000 + u2)
        < neg_part (x +ℤ q) * 1000 + (s1 * 1000000 + u1) + 1000)
      × (neg_part (x +ℤ q) * 1000 + (s1 * 1000000 + u1)
          < pos_part (x +ℤ q) * 1000 + (s2 * 1000000 + u2) + 1000)
sum-near s1 s2 u1 u2 x q h k l = omega int_laws

-- `tv_diff` is less than a millisecond from the exact difference, also where it borrows a second.
pub tv_diff-near :
    (t1 t2 : Timeval)
    → let d = tv_diff t1 t2 in
      (pos_part d * 1000 + micros t2 < neg_part d * 1000 + micros t1 + 1000)
      × (neg_part d * 1000 + micros t1 < pos_part d * 1000 + micros t2 + 1000)
unfolding tv_diff
tv_diff-near t1 t2 =
    let (lo, hi) = quot_1000-near t1.tv_usec t2.tv_usec in
    sum-near t1.tv_sec t2.tv_sec t1.tv_usec t2.tv_usec (sub_ℕ (t1.tv_sec * 1000) (t2.tv_sec * 1000))
      (quot_1000 (sub_ℕ t1.tv_usec t2.tv_usec)) (sub_ℕ_parts (t1.tv_sec * 1000) (t2.tv_sec * 1000))
      lo hi

positive : (d : ℤ) → ltb_ℤ (pos 0) d ≡ true → (neg_part d ≡ 0) × (0 < pos_part d)
positive (pos n) h = ground arith
positive (negsuc n) h = ground arith

not_positive : (d : ℤ) → ltb_ℤ (pos 0) d ≡ false → pos_part d ≡ 0
not_positive (pos n) h = ground arith
not_positive (negsuc n) h = refl

-- A positive difference means later, and a difference that is not positive less than 1 ms later.
pub later→lt : (t1 t2 : Timeval) → later t1 t2 ≡ true → micros t2 < micros t1
later→lt t1 t2 h = omega (arith, tv_diff-near t1 t2, positive (tv_diff t1 t2) h)

pub not_later→lt : (t1 t2 : Timeval) → later t1 t2 ≡ false → micros t1 < micros t2 + 1000
not_later→lt t1 t2 h = omega (arith, tv_diff-near t1 t2, not_positive (tv_diff t1 t2) h)

-- Adding milliseconds to a normalised time is exact. The microseconds stay in a second, but they may
-- be a whole second: the code carries only where they are above 1000000.
pub add_msecs_exact :
    (t : Timeval) (msecs : ℕ)
    → t.tv_usec < 1000000
    → (micros (add_msecs t msecs) ≡ micros t + msecs * 1000)
      × ((add_msecs t msecs).tv_usec ≤ 1000000)
      × (((add_msecs t msecs).tv_usec ≡ 1000000) ↔ (t.tv_usec + msecs % 1000 * 1000 ≡ 1000000))
unfolding add_msecs
add_msecs_exact t msecs h = (ground arith, ground arith, (λ e. ground arith, λ e. ground arith))

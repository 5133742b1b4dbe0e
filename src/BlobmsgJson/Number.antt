-- ===== src/BlobmsgJson/Number.antt =====
-- The numbers that blobmsg_json.c writes, read back.
use libubox.Base.{
  ℕ, zero, suc, ◌+◌, ◌-◌, ◌*◌, ◌/◌, ◌%◌, ◌≤◌, ◌<◌, ◌≡◌, inl, inr, refl, ap, ◌∙◌, Bool, true, false,
  some, [], ◌∷◌, ◌++◌, arith, ltb, ltb→ge, Bool-cases, length, All, length-append, All-append,
}
use libubox.BlobmsgJson.{Str}
use libubox.BlobmsgJson.Format.{digits, decimal}
use libubox.BlobmsgJson.Read.{number, is_digit, read_digits, read_number}

-- No digit comes next.
abbrev pub Ends : Str → Type 0
Ends [] = Unit {0}
Ends (c ∷ r) = is_digit c ≡ false

-- The number of some digits.
unfoldable value_of : ℕ → Str → ℕ
value_of acc [] = acc
value_of acc (c ∷ r) = value_of (acc * 10 + (c - 48)) r

value_of-append : (acc : ℕ) (xs ys : Str) → value_of acc (xs ++ ys) ≡ value_of (value_of acc xs) ys
unfolding value_of
value_of-append acc [] ys = refl
value_of-append acc (x ∷ xs) ys = value_of-append (acc * 10 + (x - 48)) xs ys

AllDigits : Str → Type 0
AllDigits xs = All (λ c. is_digit c ≡ true) xs

digits-AllDigits : (k n : ℕ) → All (λ c. is_digit c ≡ true) (digits k n)
unfolding digits is_digit
digits-AllDigits zero n = tt
digits-AllDigits (suc k) n = elim (Bool-cases (ltb n 10)) [
  | inl small ↦ simp (digits, small) (ground (arith, small), tt)
  | inr large ↦
      simp (digits, large)
        (All-append (λ c. is_digit c ≡ true) (digits k (n / 10)) ((48 + n % 10) ∷ [])
          (digits-AllDigits k (n / 10)) (ground arith, tt))
]

digits-value : (k n : ℕ) → n < k → value_of 0 (digits k n) ≡ n
unfolding digits value_of
digits-value zero n fuel = absurd (omega arith)
digits-value (suc k) n fuel = elim (Bool-cases (ltb n 10)) [
  | inl small ↦ simp (digits, small) (omega arith)
  | inr large ↦
      let ten : 10 ≤ n = ltb→ge n 10 large in
      let rest = digits-value k (n / 10) (omega arith) in
      simp (digits, large)
        (value_of-append 0 (digits k (n / 10)) ((48 + n % 10) ∷ []) ∙ rw rest (omega arith))
]

digits_end : (acc : ℕ) → read_digits acc [] ≡ (acc, [])
unfolding read_digits
digits_end acc = refl

digits_over : (acc c : ℕ) (r : Str) → is_digit c ≡ false → read_digits acc (c ∷ r) ≡ (acc, c ∷ r)
unfolding read_digits
digits_over acc c r over = simp (read_digits, over)

digits_step :
    (acc c : ℕ) (r : Str)
    → is_digit c ≡ true
    → read_digits acc (c ∷ r) ≡ read_digits (acc * 10 + (c - 48)) r
unfolding read_digits
digits_step acc c r digit = simp (read_digits, digit)

read_digits-append :
    (acc : ℕ) (xs r : Str)
    → All (λ c. is_digit c ≡ true) xs
    → Ends r
    → read_digits acc (xs ++ r) ≡ (value_of acc xs, r)
unfolding value_of
read_digits-append acc [] [] v e = digits_end acc
read_digits-append acc [] (c ∷ r) v e = digits_over acc c r e
read_digits-append acc (x ∷ xs) r v e =
    digits_step acc x (xs ++ r) v.0 ∙ read_digits-append (acc * 10 + (x - 48)) xs r v.1 e

digits-some : (k n : ℕ) → 0 < length (digits (suc k) n)
unfolding digits
digits-some k n = elim (Bool-cases (ltb n 10)) [
  | inl small ↦ simp (digits, small) (omega arith)
  | inr large ↦ simp (digits, large, length-append) (omega arith)
]

first_of : (xs : Str) → 0 < length xs → (c : ℕ) × (t : Str) × (xs ≡ c ∷ t)
first_of [] h = absurd (omega (arith, h))
first_of (c ∷ t) h = (c, t, refl)

-- A number begins with a digit.
pub decimal-head : (n : ℕ) → (c : ℕ) × (t : Str) × (decimal n ≡ c ∷ t) × (is_digit c ≡ true)
unfolding decimal
decimal-head n =
    let (c, t, e) = first_of (digits (suc n) n) (digits-some n n) in
    let all : All (λ c. is_digit c ≡ true) (c ∷ t) = rw e at (digits-AllDigits (suc n) n) in
    (c, t, e, all.0)

pub read_number-decimal :
    (negative : Bool) (n : ℕ) (r : Str)
    → Ends r
    → read_number negative (decimal n ++ r) ≡ some (number negative n, r)
unfolding read_number decimal
read_number-decimal negative n r e =
    let (c, t, begins, digit) = decimal-head n in
    let read : read_digits 0 (decimal n ++ r) ≡ (n, r) =
      read_digits-append 0 (decimal n) r (digits-AllDigits (suc n) n) e
      ∙ ap (λ m. (m, r)) (digits-value (suc n) n (omega arith)) in
    let read' : read_digits 0 (c ∷ (t ++ r)) ≡ (n, r) = rw begins at read in
    rw begins (simp (read_number, digit, read'))

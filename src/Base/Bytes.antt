-- ===== src/Base/Bytes.antt =====
-- Memory as a list of bytes: reading a region, and `memcpy` into one.
use libubox.Base.{
  ℕ, zero, suc, ◌+◌, ◌-◌, ◌≤◌, ◌≡◌, refl, ap, ◌∙◌, List, [], ◌∷◌, ◌++◌, arith, length, take, drop,
  length-take, length-drop, take-add, drop-drop, drop-take, sym, ap₂,
}

-- The `n` bytes from index `i` on.
abbrev pub region : List ℕ → ℕ → ℕ → List ℕ
region mem i n = take n (drop i mem)

-- `memcpy(mem + i, src, n)`, where `src` has `n` bytes. Bytes past the end of `mem` are not written.
abbrev pub write_at : List ℕ → ℕ → List ℕ → List ℕ
write_at [] i src = []
write_at (x ∷ mem) (suc i) src = x ∷ write_at mem i src
write_at (x ∷ mem) zero [] = x ∷ mem
write_at (x ∷ mem) zero (y ∷ src) = y ∷ write_at mem zero src

pub length-write_at :
    (mem : List ℕ) (i : ℕ) (src : List ℕ) → length (write_at mem i src) ≡ length mem
length-write_at [] i src = refl
length-write_at (x ∷ mem) (suc i) src = ap suc (length-write_at mem i src)
length-write_at (x ∷ mem) zero [] = refl
length-write_at (x ∷ mem) zero (y ∷ src) = ap suc (length-write_at mem zero src)

pub length-region : (mem : List ℕ) (i n : ℕ) → i + n ≤ length mem → length (region mem i n) ≡ n
length-region mem i n h = omega (arith, length-take n (drop i mem), length-drop i mem)

-- A write at or past the end of a region leaves it.
pub region-write_at_after :
    (mem : List ℕ) (i n j : ℕ) (src : List ℕ)
    → i + n ≤ j
    → region (write_at mem j src) i n ≡ region mem i n
region-write_at_after [] i n j src h = refl
region-write_at_after (x ∷ mem) (suc i) n zero src h = absurd (omega arith)
region-write_at_after (x ∷ mem) (suc i) n (suc j) src h =
    region-write_at_after mem i n j src (omega arith)
region-write_at_after (x ∷ mem) zero zero j src h = refl
region-write_at_after (x ∷ mem) zero (suc n) zero src h = absurd (omega arith)
region-write_at_after (x ∷ mem) zero (suc n) (suc j) src h =
    ap (λ t. x ∷ t) (region-write_at_after mem zero n j src (omega arith))

-- The bytes written can be read back.
pub region-write_at_self :
    (mem : List ℕ) (i n : ℕ) (src : List ℕ)
    → n ≡ length src
    → i + n ≤ length mem
    → region (write_at mem i src) i n ≡ src
region-write_at_self [] i zero [] e h = ap (λ (t : List ℕ). take 0 t) {x = drop i []} refl
region-write_at_self [] i zero (y ∷ src) e h = absurd (omega arith)
region-write_at_self [] i (suc n) src e h = absurd (omega arith)
region-write_at_self (x ∷ mem) (suc i) n src e h = region-write_at_self mem i n src e (omega arith)
region-write_at_self (x ∷ mem) zero zero [] e h = refl
region-write_at_self (x ∷ mem) zero zero (y ∷ src) e h = absurd (omega arith)
region-write_at_self (x ∷ mem) zero (suc n) [] e h = absurd (omega arith)
region-write_at_self (x ∷ mem) zero (suc n) (y ∷ src) e h =
    ap (λ t. y ∷ t) (region-write_at_self mem zero n src (omega arith) (omega arith))

-- Two adjacent regions are one.
pub region-append :
    (mem : List ℕ) (i n m j k : ℕ)
    → i + n ≡ j
    → n + m ≡ k
    → region mem i n ++ region mem j m ≡ region mem i k
region-append mem i n m j k e f =
    ap (λ t. take n (drop i mem) ++ take m t) (sym (drop-drop i n j mem e))
    ∙ take-add n m k (drop i mem) f

-- A region without its first bytes is a region.
pub drop-region :
    (mem : List ℕ) (i n k j m : ℕ)
    → i + k ≡ j
    → m ≡ n - k
    → drop k (region mem i n) ≡ region mem j m
drop-region mem i n k j m e f =
    drop-take k n (drop i mem) ∙ ap₂ take (sym f) (drop-drop i k j mem e)

-- ===== src/Blobmsg/Payload.antt =====
-- The payload that the type of a field asks for (blobmsg.c).
use libubox.Base.{
  get_elem-some, ℕ, zero, suc, ◌-◌, ◌≤◌, ◌<◌, ◌≡◌, ◌⊎◌, ◌↔◌, inl, inr, refl, sym, ap, ◌∙◌, Bool,
  true, false, Option, none, some, List, arith, ltb, leb, ◌==◌, ==→eq, eq→==, ==→ne, Yields,
  Bool-cases, length, get_elem?,
}
use libubox.Blob.Parse.{blob_check_type, check_len}
use libubox.Blobmsg.{check_typed}

-- What the type of a field asks of its payload.
pub record IsPayload (id : ℕ) (bytes : List ℕ) (len : ℕ) : Type 0 where
  pub string : ((id == 3) ≡ false) ⊎ ((1 ≤ len) × (get_elem? bytes (len - 1) ≡ some 0))
  pub int64 : ((id == 4) ≡ false) ⊎ (len ≡ 8)
  pub int32 : ((id == 5) ≡ false) ⊎ (len ≡ 4)
  pub int16 : ((id == 6) ≡ false) ⊎ (len ≡ 2)
  pub int8 : ((id == 7) ≡ false) ⊎ (len ≡ 1)

asked : {P : Type 0} → (true ≡ false) ⊎ P → P
asked (inl e) = absurd (ground arith)
asked (inr p) = p

pub some_zero : (c : ℕ) → ((c == 0) ≡ true) ↔ (some c ≡ some 0)
some_zero c =
    (λ e. ap some (==→eq c 0 e), λ e. eq→== c 0 (ap (λ o. elim o [ none ↦ 1 | some x ↦ x ]) e))

module _ (bytes : List ℕ) where
  empty_string : (len : ℕ) → leb 1 len ≡ false → 1 ≤ len → ⊥
  empty_string len h le = ground arith

  string-IsPayload :
      (len : ℕ)
      → len ≤ length bytes
      → Yields (λ ok. (ok ≡ true) ↔ IsPayload 3 bytes len) (blob_check_type bytes len 3)
  unfolding blob_check_type check_len
  string-IsPayload len room = elim (Bool-cases (leb 1 len)) [
    | inr empty ↦
        rw empty
          (λ e. absurd (ground arith), λ p. absurd (empty_string len empty (asked p.string).0))
    | inl some_len ↦
        let le : 1 ≤ len = ground arith in
        let (c, at) = get_elem-some (len - 1) bytes (omega arith) in
        rw (some_len, at)
          (
            λ e. record {
              string = inr (le, at ∙ (some_zero c).0 e);
              int64 = inl refl;
              int32 = inl refl;
              int16 = inl refl;
              int8 = inl refl;
            },
            λ p. (some_zero c).1 (sym at ∙ (asked p.string).1),
          )
  ]

  int64-IsPayload :
      (len : ℕ) → Yields (λ ok. (ok ≡ true) ↔ IsPayload 4 bytes len) (blob_check_type bytes len 7)
  unfolding blob_check_type check_len
  int64-IsPayload len = elim (Bool-cases (len == 8)) [
    | inl same ↦ rw same (
      λ e. record {
        string = inl refl;
        int64 = inr (==→eq len 8 same);
        int32 = inl refl;
        int16 = inl refl;
        int8 = inl refl;
      },
      λ p. refl,
    )
    | inr other ↦
        rw other (λ e. absurd (ground arith), λ p. absurd (==→ne len 8 other (asked p.int64)))
  ]

  int32-IsPayload :
      (len : ℕ) → Yields (λ ok. (ok ≡ true) ↔ IsPayload 5 bytes len) (blob_check_type bytes len 6)
  unfolding blob_check_type check_len
  int32-IsPayload len = elim (Bool-cases (len == 4)) [
    | inl same ↦ rw same (
      λ e. record {
        string = inl refl;
        int64 = inl refl;
        int32 = inr (==→eq len 4 same);
        int16 = inl refl;
        int8 = inl refl;
      },
      λ p. refl,
    )
    | inr other ↦
        rw other (λ e. absurd (ground arith), λ p. absurd (==→ne len 4 other (asked p.int32)))
  ]

  int16-IsPayload :
      (len : ℕ) → Yields (λ ok. (ok ≡ true) ↔ IsPayload 6 bytes len) (blob_check_type bytes len 5)
  unfolding blob_check_type check_len
  int16-IsPayload len = elim (Bool-cases (len == 2)) [
    | inl same ↦ rw same (
      λ e. record {
        string = inl refl;
        int64 = inl refl;
        int32 = inl refl;
        int16 = inr (==→eq len 2 same);
        int8 = inl refl;
      },
      λ p. refl,
    )
    | inr other ↦
        rw other (λ e. absurd (ground arith), λ p. absurd (==→ne len 2 other (asked p.int16)))
  ]

  int8-IsPayload :
      (len : ℕ) → Yields (λ ok. (ok ≡ true) ↔ IsPayload 7 bytes len) (blob_check_type bytes len 4)
  unfolding blob_check_type check_len
  int8-IsPayload len = elim (Bool-cases (len == 1)) [
    | inl same ↦ rw same (
      λ e. record {
        string = inl refl;
        int64 = inl refl;
        int32 = inl refl;
        int16 = inl refl;
        int8 = inr (==→eq len 1 same);
      },
      λ p. refl,
    )
    | inr other ↦
        rw other (λ e. absurd (ground arith), λ p. absurd (==→ne len 1 other (asked p.int8)))
  ]

  binary-IsPayload :
      (len : ℕ) → Yields (λ ok. (ok ≡ true) ↔ IsPayload 0 bytes len) (blob_check_type bytes len 2)
  unfolding blob_check_type check_len
  binary-IsPayload len = rw (any_length len) (
    λ e. record {
      string = inl refl;
      int64 = inl refl;
      int32 = inl refl;
      int16 = inl refl;
      int8 = inl refl;
    },
    λ p. refl,
  )
    where
      any_length : (len : ℕ) → leb 0 len ≡ true
      any_length len = ground arith

any-IsPayload : (id : ℕ) (bytes : List ℕ) (len : ℕ) → id < 3 → IsPayload id bytes len
any-IsPayload id bytes len h = record {
  string = inl (ground arith);
  int64 = inl (ground arith);
  int32 = inl (ground arith);
  int16 = inl (ground arith);
  int8 = inl (ground arith);
}

with_known :
    (id : ℕ) (P : Type 0) (o : Option Bool)
    → id ≤ 7
    → Yields (λ ok. (ok ≡ true) ↔ P) o
    → Yields (λ ok. (ok ≡ true) ↔ ((id ≤ 7) × P)) o
with_known id P none h y = y
with_known id P (some ok) h y = (λ e. (h, y.0 e), λ p. y.1 p.1)

pub check_typed-IsPayload :
    (id : ℕ) (bytes : List ℕ) (len : ℕ)
    → len ≤ length bytes
    → Yields (λ ok. (ok ≡ true) ↔ ((id ≤ 7) × IsPayload id bytes len)) (check_typed id bytes len)
unfolding check_typed
check_typed-IsPayload zero bytes len room =
    with_known 0 _ _ (omega arith) (binary-IsPayload bytes len)
check_typed-IsPayload (suc zero) bytes len room =
    (λ e. (omega arith, any-IsPayload 1 bytes len (omega arith)), λ p. refl)
check_typed-IsPayload (suc (suc zero)) bytes len room =
    (λ e. (omega arith, any-IsPayload 2 bytes len (omega arith)), λ p. refl)
check_typed-IsPayload (suc (suc (suc zero))) bytes len room =
    with_known 3 _ _ (omega arith) (string-IsPayload bytes len room)
check_typed-IsPayload (suc (suc (suc (suc zero)))) bytes len room =
    with_known 4 _ _ (omega arith) (int64-IsPayload bytes len)
check_typed-IsPayload (suc (suc (suc (suc (suc zero))))) bytes len room =
    with_known 5 _ _ (omega arith) (int32-IsPayload bytes len)
check_typed-IsPayload (suc (suc (suc (suc (suc (suc zero)))))) bytes len room =
    with_known 6 _ _ (omega arith) (int16-IsPayload bytes len)
check_typed-IsPayload (suc (suc (suc (suc (suc (suc (suc zero))))))) bytes len room =
    with_known 7 _ _ (omega arith) (int8-IsPayload bytes len)
check_typed-IsPayload (suc (suc (suc (suc (suc (suc (suc (suc id)))))))) bytes len room =
    let over : ltb 7 (suc (suc (suc (suc (suc (suc (suc (suc id)))))))) ≡ true = ground arith in
    simp (check_typed, over) (λ e. absurd (ground arith), λ p. absurd (omega (arith, p.0)))

pub iff_map :
    (P Q : Type 0) (o : Option Bool)
    → Yields (λ ok. (ok ≡ true) ↔ P) o
    → (P → Q)
    → (Q → P)
    → Yields (λ ok. (ok ≡ true) ↔ Q) o
iff_map P Q none y f g = y
iff_map P Q (some ok) y f g = (λ e. f (y.0 e), λ q. y.1 (g q))

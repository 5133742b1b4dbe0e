-- ===== src/Blobmsg/Parse/Table.antt =====
-- The table that `blobmsg_parse` fills (blobmsg.c).
use libubox.Base.{
  ℕ, zero, suc, ◌+◌, ◌<◌, ◌≡◌, ◌⊎◌, ◌↔◌, inl, inr, refl, sym, ap, ap₂, ◌∙◌, true, false, not, ◌&&◌,
  none, some, List, [], ◌∷◌, arith, ltb, ◌==◌, ltb→lt, ==→eq, eq→==, ==→ne, tests, Yields,
  Bool-cases, Option-cases, length, get_elem?, take, drop, All,
}
use libubox.Blob.{blob_data, blob_id}
use libubox.Blobmsg.{type_unspec, blobmsg_check_attr}
use libubox.Blobmsg.Check.{IsField, IsFramed, reads_behind, accepts-IsField}
use libubox.Blobmsg.Payload.{iff_map}
use libubox.Blobmsg.Parse.{Policy, str_eq, pslen, keep, enter, invalid, match_name, match_policy}

-- The bytes of a C string.
abbrev pub IsName : List ℕ → Type 0
IsName name = All (λ c. 0 < c) name

head_of : List ℕ → ℕ
head_of [] = 0
head_of (x ∷ xs) = x

same_head : (x y : ℕ) (xs ys : List ℕ) → ◌≡◌ {A = List ℕ} (x ∷ xs) (y ∷ ys) → x ≡ y
unfolding head_of
same_head x y xs ys e = ap head_of e

same_tail : (x y : ℕ) (xs ys : List ℕ) → ◌≡◌ {A = List ℕ} (x ∷ xs) (y ∷ ys) → xs ≡ ys
same_tail x y xs ys e = ap (drop 1) e

some_eq : (x y : ℕ) → some x ≡ some y → x ≡ y
some_eq x y e = ap (λ o. elim o [ none ↦ 0 | some z ↦ z ]) e

-- `strcmp` with a string in the memory that ends.
str_eq-prefix :
    (name mem : List ℕ) (n : ℕ)
    → IsName name
    → get_elem? mem n ≡ some 0
    → Yields
        (λ same.
          (same ≡ true)
          ↔ ((take (length name) mem ≡ name) × (get_elem? mem (length name) ≡ some 0)))
        (str_eq name mem)
unfolding str_eq
str_eq-prefix name [] n nz ends = absurd cc
str_eq-prefix [] (c ∷ r) n nz ends =
    (λ e. (refl, ap some (==→eq c 0 e)), λ p. eq→== c 0 (some_eq c 0 p.1))
str_eq-prefix (x ∷ xs) (c ∷ r) zero nz ends =
    let z : c ≡ 0 = some_eq c 0 ends in
    let differ : (x == c) ≡ false = ground (arith, nz.0) in
    rw differ (
      λ e. absurd (ground arith),
      λ p. absurd (==→ne x c differ (sym (same_head c x (take (length xs) r) xs p.0))),
    )
str_eq-prefix (x ∷ xs) (c ∷ r) (suc n) nz ends = elim (Bool-cases (x == c)) [
  | inl same ↦
      let e : c ≡ x = sym (==→eq x c same) in
      rw same (
        iff_map _ _ (str_eq xs r) (str_eq-prefix xs r n nz.1 ends)
          (λ p. (ap₂ (λ y ys. y ∷ ys) e p.0, p.1))
          (λ p. (same_tail c x (take (length xs) r) xs p.0, p.1)))
  | inr other ↦ rw other (
    λ e. absurd (ground arith),
    λ p. absurd (==→ne x c other (sym (same_head c x (take (length xs) r) xs p.0))),
  )
]

-- No byte of a name is NUL.
prefix-nonzero :
    (name mem : List ℕ) (n : ℕ)
    → IsName name
    → take (length name) mem ≡ name
    → n < length name
    → get_elem? mem n ≡ some 0
    → ⊥
prefix-nonzero [] mem n nz e lt ends = absurd (omega arith)
prefix-nonzero (x ∷ xs) [] n nz e lt ends = absurd cc
prefix-nonzero (x ∷ xs) (c ∷ r) zero nz e lt ends =
    absurd (omega (arith, nz.0, same_head c x (take (length xs) r) xs e, some_eq c 0 ends))
prefix-nonzero (x ∷ xs) (c ∷ r) (suc n) nz e lt ends =
    prefix-nonzero xs r n nz.1 (same_tail c x (take (length xs) r) xs e) (omega arith) ends

get_elem-drop : (xs : List ℕ) (n : ℕ) → get_elem? (drop 2 xs) n ≡ get_elem? xs (2 + n)
get_elem-drop [] n = refl
get_elem-drop (x ∷ []) n = let e : 2 + n ≡ suc (suc n) = omega arith in rw e refl
get_elem-drop (x ∷ y ∷ r) n = let e : 2 + n ≡ suc (suc n) = omega arith in rw e refl

-- The fields that a policy asks for, with a name of fewer than 256 bytes.
pub record IsWanted (p : Policy) (name cur : List ℕ) (w namelen offset : ℕ) : Type 0 where
  pub short : length name < 256
  pub type : (p.type ≡ type_unspec) ⊎ (blob_id w ≡ p.type)
  pub field : IsField cur w namelen offset true
  pub name_len : namelen ≡ length name
  pub name_is : take (length name) (drop 2 (blob_data cur)) ≡ name

true_not_false : true ≡ false → ⊥
true_not_false e = ground arith

kept : {Q : Type 0} → (Q → ⊥) → (keep ≡ enter) ↔ Q
kept f = (λ e. absurd cc, λ q. absurd (f q))

refused : {Q : Type 0} → (Q → ⊥) → (invalid ≡ enter) ↔ Q
refused f = (λ e. absurd cc, λ q. absurd (f q))

type_asked :
    (type id : ℕ)
    → (not (type == type_unspec) && not (id == type)) ≡ false
    → (type ≡ type_unspec) ⊎ (id ≡ type)
type_asked type id h = elim (Bool-cases (type == 0)) [
  | inl any ↦ inl (==→eq type 0 any)
  | inr one ↦ inr (ground arith)
]

type_refused :
    (type id : ℕ)
    → (not (type == type_unspec) && not (id == type)) ≡ true
    → (type ≡ type_unspec) ⊎ (id ≡ type)
    → ⊥
type_refused type id h (inl e) = ground arith
type_refused type id h (inr e) = ground arith

module _ (p : Policy) (name cur : List ℕ) (w namelen offset : ℕ) (v : IsFramed cur w namelen offset)
    (apart : reads_behind cur w namelen true ≡ false) (nz : IsName name) where
  wanted :
      (p.type ≡ type_unspec) ⊎ (blob_id w ≡ p.type)
      → (namelen == pslen name) ≡ true
      → IsField cur w namelen offset true
      → take (length name) (drop 2 (blob_data cur)) ≡ name
      → IsWanted p name cur w namelen offset
  wanted type len f prefix = elim (Bool-cases (ltb namelen (length name))) [
    | inl inside ↦ absurd (
        prefix-nonzero name (drop 2 (blob_data cur)) namelen nz prefix
          (ltb→lt namelen (length name) inside)
          (get_elem-drop (blob_data cur) namelen ∙ f.terminated))
    | inr whole ↦ record {
      short = omega (tests, len);
      type = type;
      field = f;
      name_len = omega (tests, len);
      name_is = prefix;
    }
  ]

  named :
      (p.type ≡ type_unspec) ⊎ (blob_id w ≡ p.type)
      → (namelen == pslen name) ≡ true
      → Yields
          (λ round. (round ≡ enter) ↔ IsWanted p name cur w namelen offset)
          (match_name name none cur)
  unfolding match_name
  named type len =
      let checked = accepts-IsField cur w namelen offset true v apart in
      elim (Option-cases (blobmsg_check_attr cur true)) [
        | inl bad ↦ absurd (rw bad at checked)
        | inr (ok, got) ↦
            let field : (ok ≡ true) ↔ IsField cur w namelen offset true = rw got at checked in
            elim (Bool-cases ok) [
              | inr no_field ↦
                  rw (got, no_field)
                    (refused (λ q. true_not_false (sym (field.1 q.field) ∙ no_field)))
              | inl is_field ↦
                  let f = field.0 is_field in
                  let mem = drop 2 (blob_data cur) in
                  let ends : get_elem? mem namelen ≡ some 0 =
                    get_elem-drop (blob_data cur) namelen ∙ f.terminated in
                  let compared = str_eq-prefix name mem namelen nz ends in
                  elim (Option-cases (str_eq name mem)) [
                    | inl bad ↦ absurd (rw bad at compared)
                    | inr (same, got') ↦
                        let equal : (same ≡ true) ↔ (
                            (take (length name) mem ≡ name)
                            × (get_elem? mem (length name) ≡ some 0)) =
                          rw got' at compared in
                        elim (Bool-cases same) [
                          | inr differ ↦
                              rw (got, is_field, got', differ)
                                (kept (λ q. true_not_false (
                                  sym (
                                    equal.1 (q.name_is, ap (get_elem? mem) (sym q.name_len) ∙ ends))
                                  ∙ differ)))
                          | inl alike ↦
                              let prefix = (equal.0 alike).0 in
                              rw (got, is_field, got', alike)
                                (λ e. wanted type len f prefix, λ q. refl)
                        ]
                  ]
            ]
      ]

  pub match_policy-IsWanted :
      p.name ≡ some name
      → Yields
          (λ round. (round ≡ enter) ↔ IsWanted p name cur w namelen offset)
          (match_policy p none cur w)
  unfolding match_policy match_name
  match_policy-IsWanted is =
      elim (Bool-cases (not (p.type == type_unspec) && not (blob_id w == p.type))) [
        | inl wrong ↦
            simp (match_policy, is, wrong)
              (kept (λ q. type_refused p.type (blob_id w) wrong q.type))
        | inr right ↦ elim (Bool-cases (namelen == pslen name)) [
          | inr other ↦
              simp (match_policy, is, right, v.name_header, other)
                (kept (λ q. ==→ne namelen (pslen name) other (omega (arith, q.name_len, q.short))))
          | inl len ↦
              simp (match_policy, is, right, v.name_header, len)
                (named (type_asked p.type (blob_id w) right) len)
        ]
      ]

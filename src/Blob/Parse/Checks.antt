-- ===== src/Blob/Parse/Checks.antt =====
-- `blob_check_type` and the tests of `blob_parse` answer where the bytes are there (blob.c).
use libubox.Base.{
  get_elem-some, ℕ, ◌-◌, ◌≤◌, ◌<◌, ◌≡◌, inl, inr, refl, Bool, true, false, Option, none, some, List,
  arith, ltb, leb, ◌==◌, if◌then◌else◌, Bool-cases, length,
}
use libubox.Blob.{blob_data}
use libubox.Blob.Parse.{
  attr_string, attr_last, check_len, blob_check_type, AttrInfo, check_limits, accept, accept_for,
}

check_len-string :
    (len type : ℕ) → (type == attr_string) ≡ true → check_len len type ≡ true → 0 < len
unfolding check_len
check_len-string len type t h = ground arith

-- `blob_check_type` answers, if the bytes that it is told of are there.
blob_check_type-some :
    (bytes : List ℕ) (len type : ℕ)
    → len ≤ length bytes
    → (ok : Bool) × (blob_check_type bytes len type ≡ some ok)
unfolding blob_check_type
blob_check_type-some bytes len type h = elim (Bool-cases (leb attr_last type)) [
  | inl over ↦ (false, simp (blob_check_type, over))
  | inr known ↦ elim (Bool-cases (check_len len type)) [
    | inr bad ↦ (false, simp (blob_check_type, known, bad))
    | inl good ↦ elim (Bool-cases (type == attr_string)) [
      | inr other ↦ (true, simp (blob_check_type, known, good, other))
      | inl string ↦
          let positive = check_len-string len type string good in
          let (c, at) = get_elem-some (len - 1) bytes (omega arith) in
          (c == 0, simp (blob_check_type, known, good, string, at))
    ]
  ]
]

pub accept_for-some :
    (info : Option (ℕ → AttrInfo)) (id : ℕ) (cur : List ℕ) (len : ℕ)
    → len ≤ length (blob_data cur)
    → (ok : Bool) × (accept_for info id cur len ≡ some ok)
unfolding accept_for accept
accept_for-some none id cur len h = (true, refl)
accept_for-some (some info) id cur len h = elim (Bool-cases (ltb (info id).type attr_last)) [
  | inr any ↦ (check_limits (info id) cur len, rw any refl)
  | inl typed ↦
      let (ok, e) = blob_check_type-some (blob_data cur) len (info id).type h in
      (if ok then check_limits (info id) cur len else false, rw (typed, e) refl)
]

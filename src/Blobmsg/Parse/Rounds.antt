-- ===== src/Blobmsg/Parse/Rounds.antt =====
-- The inner loop of `blobmsg_parse`, over the policies (blobmsg.c).
use libubox.Base.{
  ℕ, ◌≡◌, ◌↔◌, inl, inr, refl, sym, ap, ap₂, ◌∙◌, Bool, true, false, not, ◌&&◌, Option, none, some,
  List, [], ◌∷◌, arith, ◌==◌, if◌then◌else◌, Yields, Bool-cases, Option-cases, ◌>>=◌, length, drop,
  All,
}
use libubox.Blob.{blob_data, blob_id}
use libubox.Blobmsg.{type_unspec, blobmsg_check_attr}
use libubox.Blobmsg.Check.{IsFramed, reads_behind, accepts-IsField}
use libubox.Blobmsg.Parse.{
  Policy, str_eq, pslen, Round, keep, enter, invalid, match_name, match_policy, match_loop,
}
use libubox.Blobmsg.Parse.Table.{IsName, IsWanted, match_policy-IsWanted}

-- Whether a policy whose entry is empty takes a field.
abbrev pub enters : Policy → List ℕ → ℕ → Bool
enters p cur w = elim (match_policy p none cur w) [
  | none ↦ false
  | some round ↦ elim round [ keep ↦ false | enter ↦ true | invalid ↦ false ]
]

-- What a field makes of the entry of a policy: the first that is taken stays.
abbrev pub step : Policy → Option (List ℕ) → List ℕ → ℕ → Option (List ℕ)
step p (some x) cur w = some x
step p none cur w = if enters p cur w then some cur else none

-- What the field is known to be after a round.
abbrev Outcome : Policy → Option (List ℕ) → List ℕ → ℕ → Round → Type 0
Outcome p old cur w keep = step p old cur w ≡ old
Outcome p old cur w enter = step p old cur w ≡ some cur
Outcome p old cur w invalid = blobmsg_check_attr cur true ≡ some false

-- A policy without a name, or with one that is a C string.
abbrev pub IsPolicy : Policy → Type 0
IsPolicy p = elim p.name [ none ↦ Unit {0} | some name ↦ IsName name ]

-- A field that can be looked at: it lies in the memory, its padded name ends inside of it if it is extended, and
-- its name does not reach up to the end of both the field and the memory.
pub record IsReadable (cur : List ℕ) : Type 0 where
  pub word : ℕ
  pub namelen : ℕ
  pub offset : ℕ
  pub framed : IsFramed cur word namelen offset
  pub apart : reads_behind cur word namelen true ≡ false

Outcome-none :
    (p : Policy) (cur : List ℕ) (w : ℕ) (r : Round)
    → match_policy p none cur w ≡ some r
    → (r ≡ invalid → blobmsg_check_attr cur true ≡ some false)
    → Outcome p none cur w r
Outcome-none p cur w keep m h = simp (Outcome, step, enters, m)
Outcome-none p cur w enter m h = simp (Outcome, step, enters, m)
Outcome-none p cur w invalid m h = h refl

keep_same :
    (p : Policy) (old : Option (List ℕ)) (cur : List ℕ) (w : ℕ)
    → match_policy p none cur w ≡ some keep
    → step p old cur w ≡ old
keep_same p none cur w m = simp (step, enters, m)
keep_same p (some x) cur w m = refl

-- A field is refused only if it is none.
match_name-invalid :
    (name cur : List ℕ)
    → match_name name none cur ≡ some invalid
    → blobmsg_check_attr cur true ≡ some false
unfolding match_name
match_name-invalid name cur e = elim (Option-cases (blobmsg_check_attr cur true)) [
  | inl bad ↦ let e' : none ≡ some invalid = rw bad at e in absurd cc
  | inr (false, got) ↦ got
  | inr (true, got) ↦ elim (Option-cases (str_eq name (drop 2 (blob_data cur)))) [
    | inl bad ↦ let e' : none ≡ some invalid = rw (got, bad) at e in absurd cc
    | inr (true, same) ↦ let e' : some enter ≡ some invalid = rw (got, same) at e in absurd cc
    | inr (false, same) ↦ let e' : some keep ≡ some invalid = rw (got, same) at e in absurd cc
  ]
]

module _ (cur : List ℕ) (v : IsReadable cur) where
  match_name-Outcome :
      (p : Policy) (name : List ℕ) (old : Option (List ℕ))
      → match_policy p none cur v.word ≡ match_name name none cur
      → Yields
          (λ round. (round ≡ enter) ↔ IsWanted p name cur v.word v.namelen v.offset)
          (match_policy p none cur v.word)
      → Yields (Outcome p old cur v.word) (match_name name old cur)
  unfolding match_name
  match_name-Outcome p name (some x) same wanted =
      let checked = accepts-IsField cur v.word v.namelen v.offset true v.framed v.apart in
      elim (Option-cases (blobmsg_check_attr cur true)) [
        | inl bad ↦ absurd (rw bad at checked)
        | inr (false, got) ↦ rw got got
        | inr (true, got) ↦ rw got refl
      ]
  match_name-Outcome p name none same wanted = elim (Option-cases (match_name name none cur)) [
    | inl bad ↦ absurd (rw (same ∙ bad) at wanted)
    | inr (r, got) ↦ rw got (
        Outcome-none p cur v.word r (same ∙ got)
          (λ e. match_name-invalid name cur (got ∙ ap some e)))
  ]

  match_policy-Outcome :
      (p : Policy) (old : Option (List ℕ))
      → IsPolicy p
      → Yields (Outcome p old cur v.word) (match_policy p old cur v.word)
  unfolding match_policy
  match_policy-Outcome p old ok = elim (Option-cases p.name) [
    | inl nameless ↦
        simp (match_policy, nameless) (keep_same p old cur v.word (simp (match_policy, nameless)))
    | inr (name, is) ↦
        let nz : IsName name = rw is at ok in
        let wanted =
          match_policy-IsWanted p name cur v.word v.namelen v.offset v.framed v.apart nz is in
        let f = v.framed in
        elim (Bool-cases (not (p.type == type_unspec) && not (blob_id v.word == p.type))) [
          | inl wrong ↦
              simp (match_policy, is, wrong)
                (keep_same p old cur v.word (simp (match_policy, is, wrong)))
          | inr right ↦ elim (Bool-cases (v.namelen == pslen name)) [
            | inr other ↦
                simp (match_policy, is, right, f.name_header, other)
                  (keep_same p old cur v.word
                    (simp (match_policy, is, right, f.name_header, other)))
            | inl len ↦
                simp (match_policy, is, right, f.name_header, len)
                  (match_name-Outcome p name old
                    (simp (match_policy, is, right, f.name_header, len)) wanted)
          ]
        ]
  ]

  -- The entries after a field.
  abbrev pub steps : List Policy → List (Option (List ℕ)) → List (Option (List ℕ))
  steps [] tb = []
  steps (p ∷ ps) [] = []
  steps (p ∷ ps) (t ∷ tb) = step p t cur v.word ∷ steps ps tb

  abbrev pub StepsTo :
      List Policy → List (Option (List ℕ)) → Option (List (Option (List ℕ))) → Type 0
  StepsTo ps tb none = blobmsg_check_attr cur true ≡ some false
  StepsTo ps tb (some tb') = tb' ≡ steps ps tb

  cons-StepsTo :
      (p : Policy) (ps : List Policy) (t t' : Option (List ℕ)) (tb : List (Option (List ℕ)))
      (o : Option (Option (List (Option (List ℕ)))))
      → step p t cur v.word ≡ t'
      → Yields (StepsTo ps tb) o
      → Yields
          (StepsTo (p ∷ ps) (t ∷ tb))
          (o >>= (λ rest. some (elim rest [ none ↦ none | some r ↦ some (t' ∷ r) ])))
  cons-StepsTo p ps t t' tb none e y = y
  cons-StepsTo p ps t t' tb (some none) e y = y
  cons-StepsTo p ps t t' tb (some (some r)) e y = ap₂ (λ x xs. x ∷ xs) (sym e) y

  pub match_loop-StepsTo :
      (ps : List Policy) (tb : List (Option (List ℕ)))
      → All IsPolicy ps
      → length tb ≡ length ps
      → Yields (StepsTo ps tb) (match_loop ps tb cur v.word)
  unfolding match_loop
  match_loop-StepsTo [] tb ok len = refl
  match_loop-StepsTo (p ∷ ps) [] ok len = absurd (omega arith)
  match_loop-StepsTo (p ∷ ps) (t ∷ tb) ok len =
      let out = match_policy-Outcome p t ok.0 in
      let rest = match_loop-StepsTo ps tb ok.1 (omega arith) in
      elim (Option-cases (match_policy p t cur v.word)) [
        | inl bad ↦ absurd (rw bad at out)
        | inr (keep, got) ↦ rw got (cons-StepsTo p ps t t tb _ (rw got at out) rest)
        | inr (enter, got) ↦ rw got (cons-StepsTo p ps t (some cur) tb _ (rw got at out) rest)
        | inr (invalid, got) ↦ rw got (rw got at out)
      ]

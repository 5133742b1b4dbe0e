-- ===== src/JsonScript/Template.antt =====
-- `eval_string` of json_script.c, which puts the values of variables into a string.
use libubox.Base.{
  ℕ, ◌<◌, ◌≡◌, inl, inr, refl, ap, ◌∙◌, Bool, true, false, not, Option, none, some, List, [], ◌∷◌,
  ◌++◌, arith, ◌==◌, if◌then◌else◌, ==→eq, Bool-cases, length, All,
}
use libubox.JsonScript.{Str}

-- '%'.
abbrev pub percent : ℕ
percent = 37

-- The strings between the signs, as `strchr` cuts them in `eval_string`.
unfoldable pub cut : Str → List Str
cut [] = [] ∷ []
cut (x ∷ r) =
    let rest = cut r in
    if x == percent then [] ∷ rest else (elim rest [ [] ↦ [] | s ∷ ss ↦ (x ∷ s) ∷ ss ])

-- What a round of the loop appends: `var` is whether the string stands between two signs.
unfoldable pub piece : (Str → Option Str) → Bool → Str → Str
piece find false s = s
piece find true [] = percent ∷ []
piece find true (x ∷ s) = elim (find (x ∷ s)) [ none ↦ [] | some value ↦ value ]

-- The loop, with `var` at its end.
unfoldable pub eval_loop : (Str → Option Str) → Bool → List Str → Str × Bool
eval_loop find var [] = ([], var)
eval_loop find var (s ∷ r) = elim r [
  | [] ↦ (piece find var s, var)
  | _ ∷ _ ↦ let (rest, last) = eval_loop find (not var) r in (piece find var s ++ rest, last)
]

-- `eval_string`: the string that it adds to the buffer, and whether it returns 0. No call of the allocator
-- fails.
unfoldable pub eval_string : (Str → Option Str) → Str → Str × Bool
eval_string find pattern = let (text, var) = eval_loop find false (cut pattern) in (text, not var)

-- A part of a template: text, or the name of a variable.
pub data Part : Type 0 where
  text : Str → Part
  variable : Str → Part

-- Text with each sign doubled.
unfoldable pub double_signs : Str → Str
double_signs [] = []
double_signs (x ∷ r) =
    if x == percent then percent ∷ percent ∷ double_signs r else x ∷ double_signs r

-- The template as a string.
unfoldable pub render : List Part → Str
render [] = []
render (text s ∷ r) = double_signs s ++ render r
render (variable n ∷ r) = (percent ∷ n) ++ (percent ∷ render r)

-- Its meaning.
unfoldable pub expand : (Str → Option Str) → List Part → Str
expand find [] = []
expand find (text s ∷ r) = s ++ expand find r
expand find (variable n ∷ r) = (elim (find n) [ none ↦ [] | some value ↦ value ]) ++ expand find r

-- A name of a variable has a byte, and no sign.
abbrev pub IsPart : Part → Type 0
IsPart (text s) = Unit {0}
IsPart (variable n) = (0 < length n) × All (λ x. (x == percent) ≡ false) n

cut-cons : (xs : Str) → (s : Str) × (ss : List Str) × (cut xs ≡ s ∷ ss)
unfolding cut
cut-cons [] = ([], [], refl)
cut-cons (x ∷ r) = elim (Bool-cases (x == percent)) [
  | inl sign ↦ ([], cut r, simp sign)
  | inr plain ↦ let (s, ss, e) = cut-cons r in (x ∷ s, ss, simp (plain, e))
]

module _ (find : Str → Option Str) where
  abbrev run : Str → Str × Bool
  run xs = eval_loop find false (cut xs)

  eval_loop-head :
      (x : ℕ) (s : Str) (ss : List Str)
      → eval_loop find false ((x ∷ s) ∷ ss)
        ≡ (x ∷ (eval_loop find false (s ∷ ss)).0, (eval_loop find false (s ∷ ss)).1)
  unfolding eval_loop piece
  eval_loop-head x s [] = refl
  eval_loop-head x s (t ∷ ss) = refl

  run-plain : (x : ℕ) (r : Str) → (x == percent) ≡ false → run (x ∷ r) ≡ (x ∷ (run r).0, (run r).1)
  unfolding cut
  run-plain x r plain = let (s, ss, e) = cut-cons r in rw (plain, e) (eval_loop-head x s ss)

  eval_loop-cons :
      (var : Bool) (s : Str) (xs : Str)
      → eval_loop find var (s ∷ cut xs) ≡ (
        piece find var s ++ (eval_loop find (not var) (cut xs)).0,
        (eval_loop find (not var) (cut xs)).1,
      )
  unfolding eval_loop
  eval_loop-cons var s xs = let (t, ss, e) = cut-cons xs in rw e refl

  -- A sign that is doubled.
  run-sign : (r : Str) → run (percent ∷ percent ∷ r) ≡ (percent ∷ (run r).0, (run r).1)
  unfolding cut piece
  run-sign r =
      eval_loop-cons false [] (percent ∷ r) ∙ ap (λ p. (p.0, p.1)) (eval_loop-cons true [] r)

  cut-name :
      (n r : Str) → All (λ x. (x == percent) ≡ false) n → cut (n ++ (percent ∷ r)) ≡ n ∷ cut r
  unfolding cut
  cut-name [] r plain = refl
  cut-name (x ∷ n) r plain = rw (plain.0, cut-name n r plain.1) refl

  run-variable :
      (n r : Str)
      → IsPart (variable n)
      → run ((percent ∷ n) ++ (percent ∷ r))
        ≡ ((elim (find n) [ none ↦ [] | some value ↦ value ]) ++ (run r).0, (run r).1)
  unfolding cut piece
  run-variable [] r v = absurd (omega (arith, v.0))
  run-variable (x ∷ n) r v =
      eval_loop-cons false [] ((x ∷ n) ++ (percent ∷ r))
      ∙ ap (λ l. ((eval_loop find true l).0, (eval_loop find true l).1)) (cut-name (x ∷ n) r v.1)
      ∙ ap (λ p. (p.0, p.1)) (eval_loop-cons true (x ∷ n) r)

  run-double_signs : (s r : Str) → run (double_signs s ++ r) ≡ (s ++ (run r).0, (run r).1)
  unfolding double_signs
  run-double_signs [] r = refl
  run-double_signs (x ∷ s) r =
      let rest = run-double_signs s r in
      elim (Bool-cases (x == percent)) [
        | inl sign ↦
            let e : x ≡ percent = ==→eq x percent sign in
            rw (sign, e) (run-sign (double_signs s ++ r) ∙ ap (λ p. (percent ∷ p.0, p.1)) rest)
        | inr plain ↦
            rw plain (run-plain x (double_signs s ++ r) plain ∙ ap (λ p. (x ∷ p.0, p.1)) rest)
      ]

  run-empty : run [] ≡ ([], false)
  unfolding cut eval_loop piece
  run-empty = refl

  run-render : (ps : List Part) → All IsPart ps → run (render ps) ≡ (expand find ps, false)
  unfolding render expand
  run-render [] v = run-empty
  run-render (text s ∷ ps) v =
      run-double_signs s (render ps) ∙ ap (λ p. (s ++ p.0, p.1)) (run-render ps v.1)
  run-render (variable n ∷ ps) v =
      run-variable n (render ps) v.0
      ∙ ap (λ p. ((elim (find n) [ none ↦ [] | some value ↦ value ]) ++ p.0, p.1))
          (run-render ps v.1)

  -- `eval_string` of a template, of text with each '%' doubled and names of variables between two '%', is the
  -- text with the values of the variables, and nothing for a variable that has none; it returns 0.
  pub eval_string-render :
      (ps : List Part) → All IsPart ps → eval_string find (render ps) ≡ (expand find ps, true)
  unfolding eval_string
  eval_string-render ps v = rw (run-render ps v) refl

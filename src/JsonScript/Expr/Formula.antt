-- ===== src/JsonScript/Expr/Formula.antt =====
-- The expressions of json_script.c as formulas: what they mean, apart from the code that evaluates them.
use libubox.Base.{
  ◌≡◌, inl, inr, refl, ap, Bool, true, false, not, ◌&&◌, ◌||◌, Option, none, some, List, [], ◌∷◌,
  Bool-cases,
}
use libubox.Blobmsg.{type_array}
use libubox.JsonScript.{
  blobmsg_type, Str, Attr, string, array, Attrs, end, item, strcmp, parse_array, Ctx, Handlers,
  Call, find_var,
}
use libubox.JsonScript.Expr.{
  Eval, process_type, any_string, test_strings, eq_regex_cmp, expr_eq_regex, expr_has, and_or_loop,
  expr_and_or, expr_not, expr_array, process_expr, elements, items,
}

-- A formula over variables: the value of one is one of the strings, one of the names has a value, and the
-- connectives.
mutual
  pub data Formula : Type 0 where
    equals : Str → List Str → Formula
    matches : Str → List Str → Formula
    is_one_set : List Str → Formula
    all_of : Formulas → Formula
    any_of : Formulas → Formula
    negation : Formula → Formula

  pub data Formulas : Type 0 where
    nil : Formulas
    cons : Formula → Formulas → Formulas

abbrev pub strings : List Str → Attrs
strings [] = end
strings (s ∷ r) = item (string [] s) (strings r)

abbrev pub form : Str → Attrs → Attr
form name xs = array [] (item (string [] name) xs)

-- How a formula is written.
unfoldable mutual
  pub write : Formula → Attr
  write (equals var values) =
      form (b'e' ∷ b'q' ∷ []) (item (string [] var) (item (array [] (strings values)) end))
  write (matches var patterns) =
      form (b'r' ∷ b'e' ∷ b'g' ∷ b'e' ∷ b'x' ∷ [])
        (item (string [] var) (item (array [] (strings patterns)) end))
  write (is_one_set vars) = form (b'h' ∷ b'a' ∷ b's' ∷ []) (item (array [] (strings vars)) end)
  write (all_of fs) = form (b'a' ∷ b'n' ∷ b'd' ∷ []) (write_all fs)
  write (any_of fs) = form (b'o' ∷ b'r' ∷ []) (write_all fs)
  write (negation f) = form (b'n' ∷ b'o' ∷ b't' ∷ []) (item (write f) end)

  pub write_all : Formulas → Attrs
  write_all nil = end
  write_all (cons f fs) = item (write f) (write_all fs)

-- Whether some string of a list passes a test.
unfoldable pub any : (Str → Bool) → List Str → Bool
any test [] = false
any test (s ∷ r) = test s || any test r

-- Whether a string has a match of a pattern; no string has one of a pattern that is none.
abbrev is_match : (Str → Str → Option Bool) → Str → Str → Bool
is_match regex value pattern = elim (regex pattern value) [ none ↦ false | some found ↦ found ]

abbrev has_value : Option Str → (Str → Bool) → Bool
has_value none test = false
has_value (some value) test = test value

-- Whether a formula is true, where `find` has the values of the variables, and `regex` tells whether a string
-- has a match of a pattern.
unfoldable mutual
  pub holds : (Str → Str → Option Bool) → (Str → Option Str) → Formula → Bool
  holds regex find (equals var values) =
      has_value (find var) (λ value. any (λ s. strcmp value s) values)
  holds regex find (matches var patterns) =
      has_value (find var) (λ value. any (λ p. is_match regex value p) patterns)
  holds regex find (is_one_set vars) = any (λ v. has_value (find v) (λ value. true)) vars
  holds regex find (all_of fs) = all_hold regex find fs
  holds regex find (any_of fs) = some_hold regex find fs
  holds regex find (negation f) = not (holds regex find f)

  pub all_hold : (Str → Str → Option Bool) → (Str → Option Str) → Formulas → Bool
  all_hold regex find nil = true
  all_hold regex find (cons f fs) = holds regex find f && all_hold regex find fs

  pub some_hold : (Str → Str → Option Bool) → (Str → Option Str) → Formulas → Bool
  some_hold regex find nil = false
  some_hold regex find (cons f fs) = holds regex find f || some_hold regex find fs

write-array : (f : Formula) → blobmsg_type (write f) ≡ type_array
unfolding write
write-array (equals var values) = refl
write-array (matches var patterns) = refl
write-array (is_one_set vars) = refl
write-array (all_of fs) = refl
write-array (any_of fs) = refl
write-array (negation f) = refl

module _ (h : Handlers) (call : Call) where
  any_string-any :
      (test spec : Str → Bool) (values : List Str) (c : Ctx)
      → ((s : Str) → test s ≡ spec s)
      → any_string h call test (items (strings values)) c ≡ (c, some (any spec values))
  unfolding any_string any
  any_string-any test spec [] c same = refl
  any_string-any test spec (s ∷ r) c same = elim (Bool-cases (spec s)) [
    | inl passes ↦ rw (same s, passes) refl
    | inr fails ↦ rw (same s, fails) (any_string-any test spec r c same)
  ]

  found_value :
      (regex : Bool) (spec : Str → Str → Bool) (values : List Str) (c : Ctx) (o : Option Str)
      → ((value s : Str) → eq_regex_cmp h call value s regex ≡ spec value s)
      → ◌≡◌ {A = Option (Ctx × Option Bool)}
          (elim o [
            | none ↦ some (c, some false)
            | some var ↦ some (
                test_strings h call
                  (λ s. eq_regex_cmp h call var s regex)
                  (array [] (strings values))
                  c)
          ])
          (some (c, some (has_value o (λ value. any (λ s. spec value s) values))))
  unfolding test_strings
  found_value regex spec values c none same = refl
  found_value regex spec values c (some value) same =
      ap some (any_string-any _ _ values c (same value))

  expr_eq_regex-any :
      (regex : Bool) (spec : Str → Str → Bool) (name var : Str) (values : List Str) (x y z : Eval)
      (c : Ctx)
      → ((value s : Str) → eq_regex_cmp h call value s regex ≡ spec value s)
      → expr_eq_regex h call regex
          ((string [] name, x) ∷ (string [] var, y) ∷ (array [] (strings values), z) ∷ [])
          c
        ≡ some (
          c,
          some (has_value (find_var h call.vars var) (λ value. any (λ s. spec value s) values)),
        )
  unfolding expr_eq_regex parse_array
  expr_eq_regex-any regex spec name var values x y z c same =
      found_value regex spec values c (find_var h call.vars var) same

  tested_value :
      (o : Option Str)
      → ◌≡◌ {A = Bool} (elim o [ none ↦ false | some _ ↦ true ]) (has_value o (λ v. true))
  tested_value none = refl
  tested_value (some value) = refl

  expr_has-any :
      (name : Str) (vars : List Str) (x y : Eval) (c : Ctx)
      → expr_has h call ((string [] name, x) ∷ (array [] (strings vars), y) ∷ []) c
        ≡ some (c, some (any (λ v. has_value (find_var h call.vars v) (λ value. true)) vars))
  unfolding expr_has parse_array test_strings
  expr_has-any name vars x y c =
      ap some (any_string-any _ _ vars c (λ v. tested_value (find_var h call.vars v)))

  and_step :
      (cur : Attr × Eval) (r : List (Attr × Eval)) (c : Ctx) (b rest : Bool)
      → cur.1 c ≡ some (c, some b)
      → and_or_loop h call true r c ≡ some (c, some rest)
      → and_or_loop h call true (cur ∷ r) c ≡ some (c, some (b && rest))
  unfolding and_or_loop
  and_step cur r c true rest e next = simp (and_or_loop, e, next)
  and_step cur r c false rest e next = simp (and_or_loop, e)

  or_step :
      (cur : Attr × Eval) (r : List (Attr × Eval)) (c : Ctx) (b rest : Bool)
      → cur.1 c ≡ some (c, some b)
      → and_or_loop h call false r c ≡ some (c, some rest)
      → and_or_loop h call false (cur ∷ r) c ≡ some (c, some (b || rest))
  unfolding and_or_loop
  or_step cur r c true rest e next = simp (and_or_loop, e)
  or_step cur r c false rest e next = simp (and_or_loop, e, next)

  not_step :
      (name : Str) (a : Attr) (x y : Eval) (c : Ctx) (b : Bool)
      → blobmsg_type a ≡ type_array
      → y c ≡ some (c, some b)
      → expr_not h call ((string [] name, x) ∷ (a, y) ∷ []) c ≡ some (c, some (not b))
  unfolding expr_not parse_array
  not_step name a x y c b typed e = rw (expr_not, typed, e) refl

  loop_end : (conj : Bool) (c : Ctx) → and_or_loop h call conj [] c ≡ some (c, some conj)
  unfolding and_or_loop
  loop_end conj c = refl

  mutual
    unfolding write holds process_expr expr_array process_type strcmp expr_and_or eq_regex_cmp

    process_expr-write :
        (f : Formula) (c : Ctx)
        → process_expr h call (write f) c ≡ some (c, some (holds h.regex (find_var h call.vars) f))
    process_expr-write (equals var values) c =
        expr_eq_regex-any false strcmp (b'e' ∷ b'q' ∷ []) var values _ _ _ c (λ value s. refl)
    process_expr-write (matches var patterns) c =
        expr_eq_regex-any true (is_match h.regex) (b'r' ∷ b'e' ∷ b'g' ∷ b'e' ∷ b'x' ∷ []) var
          patterns _ _ _ c (λ value s. refl)
    process_expr-write (is_one_set vars) c = expr_has-any (b'h' ∷ b'a' ∷ b's' ∷ []) vars _ _ c
    process_expr-write (all_of fs) c = all_hold-loop fs c
    process_expr-write (any_of fs) c = some_hold-loop fs c
    process_expr-write (negation f) c =
        not_step (b'n' ∷ b'o' ∷ b't' ∷ []) (write f) _ _ c (holds h.regex (find_var h call.vars) f)
          (write-array f) (process_expr-write f c)

    all_hold-loop :
        (fs : Formulas) (c : Ctx)
        → and_or_loop h call true (elements h call (write_all fs)) c
          ≡ some (c, some (all_hold h.regex (find_var h call.vars) fs))
    all_hold-loop nil c = loop_end true c
    all_hold-loop (cons f fs) c =
        and_step (write f, process_expr h call (write f)) (elements h call (write_all fs)) c
          (holds h.regex (find_var h call.vars) f) (all_hold h.regex (find_var h call.vars) fs)
          (process_expr-write f c) (all_hold-loop fs c)

    some_hold-loop :
        (fs : Formulas) (c : Ctx)
        → and_or_loop h call false (elements h call (write_all fs)) c
          ≡ some (c, some (some_hold h.regex (find_var h call.vars) fs))
    some_hold-loop nil c = loop_end false c
    some_hold-loop (cons f fs) c =
        or_step (write f, process_expr h call (write f)) (elements h call (write_all fs)) c
          (holds h.regex (find_var h call.vars) f) (some_hold h.regex (find_var h call.vars) fs)
          (process_expr-write f c) (some_hold-loop fs c)

  -- `json_process_expr` of a formula, written with the words of the table `expr`, does not touch the context, and
  -- its result is whether the formula is true of the values that `json_script_find_var` and the regular
  -- expressions give.
  pub process_expr-holds :
      (f : Formula) (c : Ctx)
      → process_expr h call (write f) c ≡ some (c, some (holds h.regex (find_var h call.vars) f))
  process_expr-holds f c = process_expr-write f c

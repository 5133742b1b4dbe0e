-- ===== src/JsonScript/Run/Keeps.antt =====
-- What the expressions and commands of json_script.c keep of a context, and that they return.
use libubox.Base.{
  ℕ, zero, suc, inl, inr, Bool, true, false, not, ◌&&◌, Option, none, some, List, [], ◌∷◌, map,
  ◌==◌, if◌then◌else◌, Yields, Bool-cases, Option-cases, drop, All,
}
use libubox.Blobmsg.{type_array}
use libubox.JsonScript.{
  Str, Attr, string, array, table, other, Attrs, end, item, type_string, parse_array, entry,
  blobmsg_type, Event, Ctx, Handlers, Call, find_var,
}
use libubox.JsonScript.Expr.{
  Eval, Kind as ExprKind, process_type, get_tuple, string_of, any_string, test_strings,
  expr_eq_regex, expr_has, and_or_loop, expr_and_or, expr_not, expr_cb, expr_array, process_expr,
  elements, items, names, eq_regex_cmp, is_set, eq_expr, regex_expr, has_expr, and_expr, or_expr,
  not_expr,
}

-- No array of an attribute is empty.
unfoldable mutual
  pub Solid : Attr → Type 0
  Solid (string n s) = Unit {0}
  Solid (array n end) = ⊥
  Solid (array n (item a r)) = Solid a × AllSolid r
  Solid (table n xs) = AllSolid xs
  Solid (other n t xs) = Unit {0}

  pub AllSolid : Attrs → Type 0
  AllSolid end = Unit {0}
  AllSolid (item a r) = Solid a × AllSolid r

unfoldable pub WhenSome : {A : Type 0} → (A → Type 0) → Option A → Type 0
WhenSome P none = Unit {0}
WhenSome P (some x) = P x

pub parse_array-All :
    {A : Type 0} (P : Attr × A → Type 0) (ts : List ℕ) (xs : List (Attr × A))
    → All P xs
    → All (WhenSome P) (parse_array ts xs)
unfolding parse_array WhenSome
parse_array-All P ts [] v = nothing ts
  where
    nothing : (ts : List ℕ) → All (WhenSome P) (map (λ t. none) ts)
    nothing [] = tt
    nothing (t ∷ ts) = (tt, nothing ts)
parse_array-All P [] (cur ∷ r) v = tt
parse_array-All P (t ∷ ts) (cur ∷ r) v =
    elim (Bool-cases (not (t == 0) && not (blobmsg_type cur.0 == t))) [
      | inl another ↦ simp (parse_array, another) (parse_array-All P (t ∷ ts) r v.1)
      | inr this ↦ simp (parse_array, this) (v.0, parse_array-All P ts r v.1)
    ]

pub entry-WhenSome :
    {A : Type 0} (P : A → Type 0) (tb : List (Option A)) (i : ℕ)
    → All (WhenSome P) tb
    → WhenSome P (entry tb i)
unfolding WhenSome
entry-WhenSome P [] i v = tt
entry-WhenSome P (o ∷ tb) zero v = v.0
entry-WhenSome P (o ∷ tb) (suc i) v = entry-WhenSome P tb i v.1

-- What runs on a context that has a property returns one that has it.
abbrev pub Keeps : (Ctx → Type 0) → {A : Type 0} → (Ctx → Option (Ctx × A)) → Type 0
Keeps P run = (c : Ctx) → P c → Yields (λ res. P res.0) (run c)

module _ (h : Handlers) (call : Call) (P : Ctx → Type 0)
    (logs : (c : Ctx) (b : Bool) (l : List Event) → P c → P (record c { abort = b; log = l })) where
  any_string-keeps :
      (test : Str → Bool) (xs : List Attr) (c : Ctx) → P c → P (any_string h call test xs c).0
  unfolding any_string
  any_string-keeps test [] c p = p
  any_string-keeps test (string n s ∷ r) c p = elim (Bool-cases (test s)) [
    | inl found ↦ rw found p
    | inr differs ↦ rw differs (any_string-keeps test r c p)
  ]
  any_string-keeps test (array n xs ∷ r) c p = logs c _ _ p
  any_string-keeps test (table n xs ∷ r) c p = logs c _ _ p
  any_string-keeps test (other n t xs ∷ r) c p = logs c _ _ p

  test_strings-keeps :
      (test : Str → Bool) (a : Attr) (c : Ctx) → P c → P (test_strings h call test a c).0
  unfolding test_strings
  test_strings-keeps test (string n s) c p = p
  test_strings-keeps test (array n xs) c p = any_string-keeps test (items xs) c p
  test_strings-keeps test (table n xs) c p = logs c _ _ p
  test_strings-keeps test (other n t xs) c p = logs c _ _ p

  expr_eq_regex-Keeps :
      (regex : Bool) (xs : List (Attr × Eval)) → Keeps P (expr_eq_regex h call regex xs)
  unfolding expr_eq_regex
  expr_eq_regex-Keeps regex xs c p =
      let tb = get_tuple xs type_string 0 in
      elim (Option-cases (entry tb 1)) [
        | inl no_name ↦ simp (expr_eq_regex, no_name) p
        | inr (name, first) ↦ elim (Option-cases (entry tb 2)) [
          | inl no_value ↦ simp (expr_eq_regex, first, no_value) p
          | inr (value, second) ↦ elim (Option-cases (find_var h call.vars (string_of name.0))) [
            | inl unset ↦ simp (expr_eq_regex, first, second, unset) p
            | inr (var, set) ↦
                simp (expr_eq_regex, first, second, set)
                  (test_strings-keeps (λ s. eq_regex_cmp h call var s regex) value.0 c p)
          ]
        ]
      ]

  expr_has-Keeps : (xs : List (Attr × Eval)) → Keeps P (expr_has h call xs)
  unfolding expr_has
  expr_has-Keeps xs c p = elim (Option-cases (entry (get_tuple xs 0 0) 1)) [
    | inl no_name ↦ simp (expr_has, no_name) p
    | inr (name, first) ↦ simp (expr_has, first) (test_strings-keeps (is_set h call) name.0 c p)
  ]

  and_or_loop-Keeps :
      (conj : Bool) (xs : List (Attr × Eval))
      → All (λ x. Keeps P x.1) xs
      → Keeps P (and_or_loop h call conj xs)
  unfolding and_or_loop
  and_or_loop-Keeps conj [] v c p = p
  and_or_loop-Keeps conj (cur ∷ r) v c p =
      let out = v.0 c p in
      elim (Option-cases (cur.1 c)) [
        | inl bad ↦ absurd (rw bad at out)
        | inr ((c', none), got) ↦ simp (and_or_loop, got) (rw got at out)
        | inr ((c', some ret), got) ↦
            let kept : P c' = rw got at out in
            elim (Bool-cases (if conj then ret else not ret)) [
              | inl again ↦ simp (and_or_loop, got, again) (and_or_loop-Keeps conj r v.1 c' kept)
              | inr over ↦ simp (and_or_loop, got, over) kept
            ]
      ]

  expr_not-Keeps :
      (xs : List (Attr × Eval)) → All (λ x. Keeps P x.1) xs → Keeps P (expr_not h call xs)
  unfolding expr_not WhenSome
  expr_not-Keeps xs v c p =
      let tb = get_tuple xs type_array 0 in
      let kept =
        entry-WhenSome (λ x. Keeps P x.1) tb 1 (parse_array-All (λ x. Keeps P x.1) _ xs v) in
      elim (Option-cases (entry tb 1)) [
        | inl no_array ↦ simp (expr_not, no_array) p
        | inr (cur, first) ↦
            let run : Keeps P cur.1 = rw first at kept in
            let out = run c p in
            elim (Option-cases (cur.1 c)) [
              | inl bad ↦ absurd (rw bad at out)
              | inr (res, got) ↦ simp (expr_not, first, got) (rw got at out)
            ]
      ]

  All-drop :
      (xs : List (Attr × Eval)) → All (λ x. Keeps P x.1) xs → All (λ x. Keeps P x.1) (drop 1 xs)
  All-drop [] v = tt
  All-drop (x ∷ xs) v = v.1

  expr_cb-Keeps :
      (kind : ExprKind) (xs : List (Attr × Eval))
      → All (λ x. Keeps P x.1) xs
      → Keeps P (expr_cb h call kind xs)
  unfolding expr_and_or
  expr_cb-Keeps eq_expr xs v = expr_eq_regex-Keeps false xs
  expr_cb-Keeps regex_expr xs v = expr_eq_regex-Keeps true xs
  expr_cb-Keeps has_expr xs v = expr_has-Keeps xs
  expr_cb-Keeps and_expr xs v = and_or_loop-Keeps true (drop 1 xs) (All-drop xs v)
  expr_cb-Keeps or_expr xs v = and_or_loop-Keeps false (drop 1 xs) (All-drop xs v)
  expr_cb-Keeps not_expr xs v = expr_not-Keeps xs v

  expr_array-Keeps :
      (cur : Attr) (first : Attr × Eval) (r : List (Attr × Eval))
      → All (λ x. Keeps P x.1) (first ∷ r)
      → Keeps P (expr_array h call cur (first ∷ r))
  unfolding expr_array
  expr_array-Keeps cur (string n name, e) r v c p = elim (Option-cases (process_type names name)) [
    | inl unknown ↦ simp (expr_array, unknown) (logs c _ _ p)
    | inr (kind, known) ↦
        simp (expr_array, known) (expr_cb-Keeps kind ((string n name, e) ∷ r) v c p)
  ]
  expr_array-Keeps cur (array n xs, e) r v c p = logs c _ _ p
  expr_array-Keeps cur (table n xs, e) r v c p = logs c _ _ p
  expr_array-Keeps cur (other n t xs, e) r v c p = logs c _ _ p

  mutual
    unfolding process_expr Solid

    pub process_expr-Keeps : (a : Attr) → Solid a → Keeps P (process_expr h call a)
    process_expr-Keeps (string n s) v c p = logs c _ _ p
    process_expr-Keeps (array n end) v c p = elim v [ ]
    process_expr-Keeps (array n (item a r)) v c p =
        expr_array-Keeps (array n (item a r)) (a, process_expr h call a) (elements h call r)
          (process_expr-Keeps a v.0, elements-Keeps r v.1) c p
    process_expr-Keeps (table n xs) v c p = logs c _ _ p
    process_expr-Keeps (other n t xs) v c p = logs c _ _ p

    elements-Keeps : (xs : Attrs) → AllSolid xs → All (λ x. Keeps P x.1) (elements h call xs)
    elements-Keeps end v = tt
    elements-Keeps (item a r) v = (process_expr-Keeps a v.0, elements-Keeps r v.1)

-- ===== src/JsonScript/Expr.antt =====
-- The expressions of json_script.c.
pub mod Formula
use libubox.Base.{ℕ, Bool, true, false, not, Option, none, some, List, [], ◌∷◌, if◌then◌else◌, drop}
use libubox.Blobmsg.{type_array}
use libubox.JsonScript.{
  Str, Attr, string, array, table, other, Attrs, end, item, type_string, strcmp, parse_array, entry,
  unexpected_type, unknown_expression, Ctx, Handlers, Call, handle_error, find_var,
}

-- What an expression does to a context: its result is `none` for -1. Outside, `none` is a read past the end of an
-- attribute.
abbrev pub Eval : Type 0
Eval = Ctx → Option (Ctx × Option Bool)

-- The table `expr`.
pub data Kind : Type 0 where
  eq_expr : Kind
  regex_expr : Kind
  has_expr : Kind
  and_expr : Kind
  or_expr : Kind
  not_expr : Kind

abbrev pub names : List (Str × Kind)
names =
    (b'e' ∷ b'q' ∷ [], eq_expr)
    ∷ (b'r' ∷ b'e' ∷ b'g' ∷ b'e' ∷ b'x' ∷ [], regex_expr)
    ∷ (b'h' ∷ b'a' ∷ b's' ∷ [], has_expr)
    ∷ (b'a' ∷ b'n' ∷ b'd' ∷ [], and_expr)
    ∷ (b'o' ∷ b'r' ∷ [], or_expr)
    ∷ (b'n' ∷ b'o' ∷ b't' ∷ [], not_expr)
    ∷ []

-- The loop of `__json_process_type`, up to the callback.
unfoldable pub process_type : {A : Type 0} → List (Str × A) → Str → Option A
process_type [] name = none
process_type (h ∷ r) name = if strcmp name h.0 then some h.1 else process_type r name

-- `json_get_tuple`.
abbrev pub get_tuple : {A : Type 0} → List (Attr × A) → ℕ → ℕ → List (Option (Attr × A))
get_tuple xs t1 t2 = parse_array (type_string ∷ t1 ∷ t2 ∷ []) xs

-- The string of an attribute of type BLOBMSG_TYPE_STRING.
abbrev pub string_of : Attr → Str
string_of (string n s) = s
string_of _ = []

-- The attributes alone.
abbrev pub items : Attrs → List Attr
items end = []
items (item a r) = a ∷ items r

module _ (h : Handlers) (call : Call) where
  -- `eq_regex_cmp`.
  unfoldable pub eq_regex_cmp : Str → Str → Bool → Bool
  eq_regex_cmp str pattern false = strcmp str pattern
  eq_regex_cmp str pattern true = elim (h.regex pattern str) [ none ↦ false | some found ↦ found ]

  -- The loop of `expr_eq_regex` over an array, and that of `handle_expr_has`: whether a string passes a test.
  unfoldable pub any_string : (Str → Bool) → List Attr → Ctx → Ctx × Option Bool
  any_string test [] c = (c, some false)
  any_string test (string n s ∷ r) c = if test s then (c, some true) else any_string test r c
  any_string test (array n xs ∷ r) c = (handle_error unexpected_type (array n xs) c, none)
  any_string test (table n xs ∷ r) c = (handle_error unexpected_type (table n xs) c, none)
  any_string test (other n t xs ∷ r) c = (handle_error unexpected_type (other n t xs) c, none)

  -- The `switch` of `expr_eq_regex` and of `handle_expr_has`.
  unfoldable pub test_strings : (Str → Bool) → Attr → Ctx → Ctx × Option Bool
  test_strings test (string n s) c = (c, some (test s))
  test_strings test (array n xs) c = any_string test (items xs) c
  test_strings test (table n xs) c = (handle_error unexpected_type (table n xs) c, none)
  test_strings test (other n t xs) c = (handle_error unexpected_type (other n t xs) c, none)

  abbrev pub is_set : Str → Bool
  is_set name = elim (find_var h call.vars name) [ none ↦ false | some _ ↦ true ]

  -- `expr_eq_regex`.
  unfoldable pub expr_eq_regex : Bool → List (Attr × Eval) → Eval
  expr_eq_regex regex xs c =
      let tb = get_tuple xs type_string 0 in
      elim (entry tb 1) [
        | none ↦ some (c, none)
        | some name ↦ elim (entry tb 2) [
          | none ↦ some (c, none)
          | some value ↦ elim (find_var h call.vars (string_of name.0)) [
            | none ↦ some (c, some false)
            | some var ↦ some (test_strings (λ s. eq_regex_cmp var s regex) value.0 c)
          ]
        ]
      ]

  -- `handle_expr_has`.
  unfoldable pub expr_has : List (Attr × Eval) → Eval
  expr_has xs c = elim (entry (get_tuple xs 0 0) 1) [
    | none ↦ some (c, none)
    | some name ↦ some (test_strings is_set name.0 c)
  ]

  -- The loop of `expr_and_or`, from the second attribute on.
  unfoldable pub and_or_loop : Bool → List (Attr × Eval) → Eval
  and_or_loop conj [] c = some (c, some conj)
  and_or_loop conj (cur ∷ r) c = elim (cur.1 c) [
    | none ↦ none
    | some res ↦ elim res.1 [
      | none ↦ some (res.0, none)
      | some ret ↦ elim (if conj then ret else not ret) [
        | true ↦ and_or_loop conj r res.0
        | false ↦ some (res.0, some ret)
      ]
    ]
  ]

  -- `expr_and_or`.
  unfoldable pub expr_and_or : Bool → List (Attr × Eval) → Eval
  expr_and_or conj xs = and_or_loop conj (drop 1 xs)

  -- `handle_expr_not`.
  unfoldable pub expr_not : List (Attr × Eval) → Eval
  expr_not xs c = elim (entry (get_tuple xs type_array 0) 1) [
    | none ↦ some (c, none)
    | some cur ↦ elim (cur.1 c) [
      | none ↦ none
      | some res ↦ some (res.0, elim res.1 [ none ↦ none | some ret ↦ some (not ret) ])
    ]
  ]

  -- The callbacks of the table.
  abbrev pub expr_cb : Kind → List (Attr × Eval) → Eval
  expr_cb eq_expr = expr_eq_regex false
  expr_cb regex_expr = expr_eq_regex true
  expr_cb has_expr = expr_has
  expr_cb and_expr = expr_and_or true
  expr_cb or_expr = expr_and_or false
  expr_cb not_expr = expr_not

  -- `json_process_expr` of an array, whose elements come with what evaluates them. An array of none has no
  -- first element to look at.
  unfoldable pub expr_array : Attr → List (Attr × Eval) → Eval
  expr_array cur [] c = none
  expr_array cur (first ∷ r) c = elim first.0 [
    | string n name ↦ elim (process_type names name) [
      | none ↦ some (handle_error unknown_expression cur c, none)
      | some kind ↦ expr_cb kind (first ∷ r) c
    ]
    | _ ↦ some (handle_error unexpected_type cur c, none)
  ]

  -- `json_process_expr`, and the elements of an array with it.
  unfoldable mutual
    pub process_expr : Attr → Eval
    process_expr (string n s) c = some (handle_error unexpected_type (string n s) c, none)
    process_expr (array n xs) c = expr_array (array n xs) (elements xs) c
    process_expr (table n xs) c = some (handle_error unexpected_type (table n xs) c, none)
    process_expr (other n t xs) c = some (handle_error unexpected_type (other n t xs) c, none)

    pub elements : Attrs → List (Attr × Eval)
    elements end = []
    elements (item a r) = (a, process_expr a) ∷ elements r

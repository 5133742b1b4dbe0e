-- ===== src/JsonScript/Tests.antt =====
-- Tests of the model of json_script.c, and instances of what is proved of it.
use libubox.Base.{
  ℕ, suc, ◌≤◌, ◌≡◌, inl, inr, refl, sym, true, false, Option, none, some, List, [], ◌∷◌, arith,
  ◌==◌, if◌then◌else◌, Yields, Bool-cases, All,
}
use libubox.JsonScript.{
  Str, Attr, string, array, Attrs, end, item, recursive_include, Event, command, error, Ctx,
  Handlers, strcmp, parse_array, find_var, find_string,
}
use libubox.JsonScript.Template.{
  eval_string, eval_loop, cut, piece, Part, text, variable, render, expand, eval_string-render,
}
use libubox.JsonScript.Expr.{
  process_expr, process_type, expr_array, expr_eq_regex, eq_regex_cmp, test_strings,
}
use libubox.JsonScript.Expr.Formula.{
  Formula, equals, matches, is_one_set, all_of, any_of, negation, nil, cons, write, holds, all_hold,
  some_hold, any, process_expr-holds,
}
use libubox.JsonScript.Cmd.{
  process_cmd, run_block, block_loop, run_command, handle_if, handle_include, strings_loop,
  get_file,
}
use libubox.JsonScript.Run.{json_script_run, json_script_run_file, script_run, chain_loop}
use libubox.JsonScript.Run.Returns.{count, IsKnown, json_script_run-returns}
use libubox.JsonScript.Run.Keeps.{Solid}
use libubox.Links.{has}

abbrev word : Str → Attr
word s = string [] s

abbrev list : List Attr → Attr
list xs = array [] (chain xs)
  where
    chain : List Attr → Attrs
    chain [] = end
    chain (x ∷ r) = item x (chain r)

-- The variable `a` is "x%"; `b` is not set.
abbrev vars : Attrs
vars = item (string (b'a' ∷ []) (b'x' ∷ 37 ∷ [])) end

-- ["if", ["eq", "a", "x%"], ["say", "%a%!"], ["say", "no"]]
abbrev branch : Attr
branch = list (
    word (b'i' ∷ b'f' ∷ [])
    ∷ list (word (b'e' ∷ b'q' ∷ []) ∷ word (b'a' ∷ []) ∷ word (b'x' ∷ 37 ∷ []) ∷ [])
    ∷ list (word (b's' ∷ []) ∷ word (37 ∷ b'a' ∷ 37 ∷ b'!' ∷ []) ∷ [])
    ∷ list (word (b's' ∷ []) ∷ word (b'n' ∷ []) ∷ [])
    ∷ [])

-- Two files that include each other; the first includes the second twice, and ends with a `return`.
abbrev include : Str → Attr
include name = list (word (b'i' ∷ b'n' ∷ b'c' ∷ b'l' ∷ b'u' ∷ b'd' ∷ b'e' ∷ []) ∷ word name ∷ [])

abbrev return : Attr
return = list (word (b'r' ∷ b'e' ∷ b't' ∷ b'u' ∷ b'r' ∷ b'n' ∷ []) ∷ [])

abbrev say : Attr
say = list (word (b's' ∷ []) ∷ [])

abbrev first : Attr
first = list (branch ∷ include (2 ∷ []) ∷ include (2 ∷ []) ∷ return ∷ say ∷ [])

abbrev second : Attr
second = list (include (1 ∷ []) ∷ say ∷ [])

abbrev files : ℕ → List Attr
files f = if f == 1 then first ∷ [] else if f == 2 then second ∷ [] else []

abbrev name_file : Str → Option ℕ
name_file [] = none
name_file (n ∷ _) = if n == 1 then some 1 else if n == 2 then some 2 else none

abbrev handlers : Handlers
handlers = record {
  handle_var = λ n. none;
  aborts = λ n a. false;
  handle_file = name_file;
  regex = λ p s. none;
  file_key = λ f. f ∷ [];
  file_data = files;
}

abbrev idle : Ctx
idle = record {
  abort = false;
  files = λ n. none;
  file_seq = λ f. 0;
  run_seq = 0;
  entered = [];
  log = [];
}

abbrev log_of : Option Ctx → List Event
log_of none = []
log_of (some c) = c.log

-- The branch says the variable's value, the second file finds the first in its run, and is not run again.
run_of_first :
    log_of (json_script_run 3 handlers vars (1 ∷ []) idle)
    ≡ error recursive_include (include (2 ∷ []))
      ∷ command (b's' ∷ []) []
      ∷ error recursive_include (include (1 ∷ []))
      ∷ command (b's' ∷ []) (word (b'x' ∷ 37 ∷ b'!' ∷ []) ∷ [])
      ∷ []
unfolding json_script_run get_file json_script_run_file script_run chain_loop process_cmd run_block
    block_loop run_command process_type strcmp handle_if parse_array process_expr expr_array
    expr_eq_regex find_var handle_include strings_loop eq_regex_cmp test_strings cut eval_loop
    eval_string piece find_string
run_of_first = refl

name_file-known : (n : Str) (f : ℕ) → name_file n ≡ some f → has (1 ∷ 2 ∷ []) f ≡ true
name_file-known [] f e = absurd cc
name_file-known (n ∷ r) f e = elim (Bool-cases (n == 1)) [
  | inl one ↦ let e' : some 1 ≡ some f = rw one at e in let eq : 1 ≡ f = cc in rw (sym eq) refl
  | inr not_one ↦ elim (Bool-cases (n == 2)) [
    | inl two ↦
        let e' : some 2 ≡ some f = simp (not_one, two) at e in
        let eq : 2 ≡ f = cc in rw (sym eq) refl
    | inr not_two ↦ let bad : none ≡ some f = simp (not_one, not_two) at e in absurd cc
  ]
]

first-Solid : Solid first
unfolding Solid
first-Solid = (
  (tt, ((tt, (tt, (tt, tt))), ((tt, (tt, tt)), ((tt, (tt, tt)), tt)))),
  ((tt, (tt, tt)), ((tt, (tt, tt)), ((tt, tt), ((tt, tt), tt)))),
)

second-Solid : Solid second
unfolding Solid
second-Solid = ((tt, (tt, tt)), ((tt, tt), tt))

files-Solid : (f : ℕ) → All Solid (files f)
files-Solid f = elim (Bool-cases (f == 1)) [
  | inl one ↦ rw one (first-Solid, tt)
  | inr not_one ↦ elim (Bool-cases (f == 2)) [
    | inl two ↦ simp (not_one, two) (second-Solid, tt)
    | inr not_two ↦ simp (not_one, not_two) tt
  ]
]

json_script_run-returns_example :
    Yields
      (λ c'. IsKnown (1 ∷ 2 ∷ []) c' × ((f : ℕ) → count f c'.entered ≤ suc (count f [])))
      (json_script_run 3 handlers vars (1 ∷ []) idle)
json_script_run-returns_example =
    json_script_run-returns handlers (1 ∷ 2 ∷ []) name_file-known files-Solid vars (1 ∷ []) idle
      (record { files = λ n f e. absurd cc })

-- "50%% of %a%" where `a` is "x%".
abbrev template : List Part
template = text (b'5' ∷ 37 ∷ []) ∷ variable (b'a' ∷ []) ∷ []

eval_string-render_example :
    eval_string (λ n. some (b'x' ∷ 37 ∷ [])) (render template)
    ≡ (expand (λ n. some (b'x' ∷ 37 ∷ [])) template, true)
eval_string-render_example =
    eval_string-render (λ n. some (b'x' ∷ 37 ∷ [])) template (tt, ((omega arith, (refl, tt)), tt))

-- A sign alone is an error.
unterminated : (eval_string (λ n. none) (b'5' ∷ 37 ∷ [])).1 ≡ false
unfolding eval_string eval_loop cut
unterminated = refl

-- Whether "b" has no value, and "a" is "y" or "x%", or "c" has a match of a pattern.
abbrev formula : Formula
formula = all_of (
    cons (negation (is_one_set ((b'b' ∷ []) ∷ []))) (
      cons
        (any_of (
          cons (equals (b'a' ∷ []) ((b'y' ∷ []) ∷ (b'x' ∷ 37 ∷ []) ∷ []))
            (cons (matches (b'c' ∷ []) ((b'.' ∷ []) ∷ [])) nil)))
        nil))

process_expr-holds_example :
    process_expr handlers (record { vars = vars; seq = 1 }) (write formula) idle
    ≡ some (idle, some (holds handlers.regex (find_var handlers vars) formula))
process_expr-holds_example =
    process_expr-holds handlers (record { vars = vars; seq = 1 }) formula idle

result_is_true : holds handlers.regex (find_var handlers vars) formula ≡ true
unfolding holds all_hold some_hold any find_var find_string strcmp
result_is_true = refl

-- The condition [] has no first element.
empty_condition :
    process_cmd handlers
      (record { vars = vars; seq = 1 })
      (λ f e c. some c)
      (list (word (b'i' ∷ b'f' ∷ []) ∷ list [] ∷ say ∷ []))
      idle
    ≡ none
unfolding process_cmd run_block run_command process_type strcmp handle_if parse_array process_expr
    expr_array
empty_condition = refl

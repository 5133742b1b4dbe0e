-- ===== src/JsonScript/Run/Commands.antt =====
-- What the commands of json_script.c keep of a context, and that they return.
use libubox.Base.{
  ℕ, ◌≡◌, inl, inr, Bool, true, false, Option, none, some, List, [], ◌∷◌, Yields, Bool-cases,
  Option-cases, drop, All,
}
use libubox.Blobmsg.{type_array, type_table}
use libubox.JsonScript.{
  Str, Attr, string, array, table, other, Attrs, end, item, type_string, blobmsg_name, strcmp,
  parse_array, entry, Event, Ctx, Handlers, Call, find_var,
}
use libubox.JsonScript.Expr.{process_type, get_tuple, string_of, process_expr}
use libubox.JsonScript.Cmd.{
  done, failed, returned, Run, Child, Kind, if_cmd, case_cmd, return_cmd, include_cmd, names,
  get_file, handle_if, case_loop, handle_case, handle_include, cmd_cb, strings_loop, run_command,
  block_loop, run_block, process_cmd, members, children, runs,
}
use libubox.JsonScript.Run.Keeps.{
  Solid, AllSolid, WhenSome, parse_array-All, entry-WhenSome, Keeps, process_expr-Keeps,
}

-- An element that runs and whose members run.
pub record Runs (P : Ctx → Type 0) (x : Attr × Child) : Type 0 where
  pub solid : Solid x.0
  pub run : Keeps P x.1.run
  pub members : All (λ y. Keeps P y.1) x.1.members

module _ (h : Handlers) (call : Call) (script : ℕ → Option Attr → Ctx → Option Ctx)
    (P : Ctx → Type 0)
    (logs : (c : Ctx) (b : Bool) (l : List Event) → P c → P (record c { abort = b; log = l }))
    (files : (name : Str) (c : Ctx) → P c → P (get_file h name c).0)
    (scripts : (name : Str) (f : ℕ) (expr : Option Attr) (c : Ctx)
      → P c
      → (get_file h name c).1 ≡ some f
      → Yields P (script f expr (get_file h name c).0)) where
  handle_if-Keeps :
      (xs : List (Attr × Child)) → All (Runs P) xs → Keeps P (handle_if h call script xs)
  unfolding handle_if WhenSome
  handle_if-Keeps xs v c p =
      let tb = parse_array (type_string ∷ type_array ∷ type_array ∷ type_array ∷ []) xs in
      let all =
        parse_array-All (Runs P) (type_string ∷ type_array ∷ type_array ∷ type_array ∷ []) xs v in
      elim (Option-cases (entry tb 1)) [
        | inl no_cond ↦ simp (handle_if, no_cond) p
        | inr (cond, first) ↦ elim (Option-cases (entry tb 2)) [
          | inl no_cmd ↦ simp (handle_if, first, no_cmd) p
          | inr (yes_cmd, second) ↦
              let k1 : Runs P cond = rw first at (entry-WhenSome (Runs P) tb 1 all) in
              let k2 : Runs P yes_cmd = rw second at (entry-WhenSome (Runs P) tb 2 all) in
              let out = process_expr-Keeps h call P logs cond.0 k1.solid c p in
              elim (Option-cases (process_expr h call cond.0 c)) [
                | inl bad ↦ absurd (rw bad at out)
                | inr ((c', none), got) ↦ simp (handle_if, first, second, got) (rw got at out)
                | inr ((c', some true), got) ↦
                    simp (handle_if, first, second, got) (k2.run c' (rw got at out))
                | inr ((c', some false), got) ↦
                    let kept : P c' = rw got at out in
                    elim (Option-cases (entry tb 3)) [
                      | inl no_other ↦ simp (handle_if, first, second, got, no_other) kept
                      | inr (no_cmd, third) ↦
                          let k3 : Runs P no_cmd = rw third at (entry-WhenSome (Runs P) tb 3 all) in
                          simp (handle_if, first, second, got, third) (k3.run c' kept)
                    ]
              ]
        ]
      ]

  case_loop-Keeps :
      (var : Str) (xs : List (Attr × Run))
      → All (λ x. Keeps P x.1) xs
      → Keeps P (case_loop h call script var xs)
  unfolding case_loop
  case_loop-Keeps var [] v c p = p
  case_loop-Keeps var (cur ∷ r) v c p = elim (Bool-cases (strcmp var (blobmsg_name cur.0))) [
    | inl this ↦ simp (case_loop, this) (v.0 c p)
    | inr another ↦ simp (case_loop, another) (case_loop-Keeps var r v.1 c p)
  ]

  handle_case-Keeps :
      (xs : List (Attr × Child)) → All (Runs P) xs → Keeps P (handle_case h call script xs)
  unfolding handle_case WhenSome
  handle_case-Keeps xs v c p =
      let tb = get_tuple xs type_string type_table in
      let all = parse_array-All (Runs P) (type_string ∷ type_string ∷ type_table ∷ []) xs v in
      elim (Option-cases (entry tb 1)) [
        | inl no_name ↦ simp (handle_case, no_name) p
        | inr (name, first) ↦ elim (Option-cases (entry tb 2)) [
          | inl no_cases ↦ simp (handle_case, first, no_cases) p
          | inr (cases, second) ↦ elim (Option-cases (find_var h call.vars (string_of name.0))) [
            | inl unset ↦ simp (handle_case, first, second, unset) p
            | inr (var, set) ↦
                let k : Runs P cases = rw second at (entry-WhenSome (Runs P) tb 2 all) in
                simp (handle_case, first, second, set)
                  (case_loop-Keeps var cases.1.members k.members c p)
          ]
        ]
      ]

  handle_include-Keeps :
      (expr : Attr) (xs : List (Attr × Child)) → Keeps P (handle_include h call script expr xs)
  unfolding handle_include
  handle_include-Keeps expr xs c p = elim (Option-cases (entry (get_tuple xs type_string 0) 1)) [
    | inl no_name ↦ simp (handle_include, no_name) p
    | inr (name, first) ↦
        let file = string_of name.0 in
        elim (Option-cases (get_file h file c).1) [
          | inl missing ↦ simp (handle_include, first, missing) (files file c p)
          | inr (f, found) ↦
              let out = scripts file f (some expr) c p found in
              elim (Option-cases (script f (some expr) (get_file h file c).0)) [
                | inl bad ↦ absurd (rw bad at out)
                | inr (c', got) ↦ simp (handle_include, first, found, got) (rw got at out)
              ]
        ]
  ]

  cmd_cb-Keeps :
      (kind : Kind) (expr : Attr) (xs : List (Attr × Child))
      → All (Runs P) xs
      → Keeps P (cmd_cb h call script kind expr xs)
  cmd_cb-Keeps if_cmd expr xs v = handle_if-Keeps xs v
  cmd_cb-Keeps case_cmd expr xs v = handle_case-Keeps xs v
  cmd_cb-Keeps return_cmd expr xs v = λ c p. p
  cmd_cb-Keeps include_cmd expr xs v = handle_include-Keeps expr xs

  run_command-Keeps :
      (cur : Attr) (name : Str) (xs : List (Attr × Child))
      → All (Runs P) xs
      → Keeps P (run_command h call script cur name xs)
  unfolding run_command
  run_command-Keeps cur name xs v c p = elim (Option-cases (process_type names name)) [
    | inr (kind, known) ↦ simp (run_command, known) (cmd_cb-Keeps kind cur xs v c p)
    | inl unknown ↦ elim (Option-cases (strings_loop h call script (drop 1 xs))) [
      | inl bad ↦ simp (run_command, unknown, bad) (logs c _ _ p)
      | inr (args, good) ↦ simp (run_command, unknown, good) (logs c _ _ p)
    ]
  ]

  block_loop-Keeps :
      (xs : List (Attr × Child)) → All (Runs P) xs → Keeps P (block_loop h call script xs)
  unfolding block_loop
  block_loop-Keeps [] v c p = p
  block_loop-Keeps (cur ∷ r) v c p = elim (Bool-cases c.abort) [
    | inl stop ↦ simp (block_loop, stop) p
    | inr go ↦
        let out = v.0.run c p in
        elim (Option-cases (cur.1.run c)) [
          | inl bad ↦ absurd (rw bad at out)
          | inr ((c', returned), got) ↦ simp (block_loop, go, got) (rw got at out)
          | inr ((c', done), got) ↦
              simp (block_loop, go, got) (block_loop-Keeps r v.1 c' (rw got at out))
          | inr ((c', failed), got) ↦
              simp (block_loop, go, got) (block_loop-Keeps r v.1 c' (rw got at out))
        ]
  ]

  unless_aborted :
      (run : Run)
      → Keeps P run
      → Keeps P (λ c. elim c.abort [ true ↦ some (c, done) | false ↦ run c ])
  unless_aborted run kept c p = elim (Bool-cases c.abort) [
    | inl stop ↦ rw stop p
    | inr go ↦ rw go (kept c p)
  ]

  run_block-Keeps :
      (block : Attr) (xs : List (Attr × Child))
      → All (Runs P) xs
      → Keeps P (run_block h call script block xs)
  unfolding run_block
  run_block-Keeps block [] v = λ c p. p
  run_block-Keeps block ((string n name, x) ∷ r) v =
      unless_aborted (run_command h call script block name ((string n name, x) ∷ r))
        (run_command-Keeps block name ((string n name, x) ∷ r) v)
  run_block-Keeps block ((array n xs, x) ∷ r) v =
      unless_aborted (block_loop h call script ((array n xs, x) ∷ r))
        (block_loop-Keeps ((array n xs, x) ∷ r) v)
  run_block-Keeps block ((table n xs, x) ∷ r) v =
      unless_aborted (block_loop h call script ((table n xs, x) ∷ r))
        (block_loop-Keeps ((table n xs, x) ∷ r) v)
  run_block-Keeps block ((other n t xs, x) ∷ r) v =
      unless_aborted (block_loop h call script ((other n t xs, x) ∷ r))
        (block_loop-Keeps ((other n t xs, x) ∷ r) v)

  mutual
    unfolding process_cmd Solid

    pub process_cmd-Keeps : (a : Attr) → Solid a → Keeps P (process_cmd h call script a)
    process_cmd-Keeps (string n s) v c p = logs c _ _ p
    process_cmd-Keeps (array n end) v c p = elim v [ ]
    process_cmd-Keeps (array n (item a r)) v c p =
        run_block-Keeps (array n (item a r)) (children h call script (item a r))
          (children-Runs (item a r) v) c p
    process_cmd-Keeps (table n xs) v c p = logs c _ _ p
    process_cmd-Keeps (other n t xs) v c p = logs c _ _ p

    members-Keeps : (a : Attr) → Solid a → All (λ y. Keeps P y.1) (members h call script a)
    members-Keeps (table n xs) v = runs-Keeps xs v
    members-Keeps (string n s) v = tt
    members-Keeps (array n xs) v = tt
    members-Keeps (other n t xs) v = tt

    children-Runs : (xs : Attrs) → AllSolid xs → All (Runs P) (children h call script xs)
    children-Runs end v = tt
    children-Runs (item a r) v = (
      record { solid = v.0; run = process_cmd-Keeps a v.0; members = members-Keeps a v.0 },
      children-Runs r v.1,
    )

    runs-Keeps : (xs : Attrs) → AllSolid xs → All (λ y. Keeps P y.1) (runs h call script xs)
    runs-Keeps end v = tt
    runs-Keeps (item a r) v = (process_cmd-Keeps a v.0, runs-Keeps r v.1)

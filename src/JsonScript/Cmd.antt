-- ===== src/JsonScript/Cmd.antt =====
-- The commands of json_script.c.
use libubox.Base.{ℕ, true, false, ◌||◌, Option, none, some, List, [], ◌∷◌, if◌then◌else◌, drop}
use libubox.Blobmsg.{type_array, type_table}
use libubox.JsonScript.{
  Str, Attr, string, array, table, other, Attrs, end, item, type_string, blobmsg_name, strcmp,
  parse_array, entry, unexpected_type, unterminated_reference, command, Ctx, Handlers, Call,
  handle_error, find_var,
}
use libubox.JsonScript.Template.{eval_string}
use libubox.JsonScript.Expr.{process_type, get_tuple, string_of, process_expr}

-- The results 0, -1 and -2.
pub data Status : Type 0 where
  done : Status
  failed : Status
  returned : Status

-- What a command does to a context; `none` is a read past the end of an attribute, or fuel that ran out.
abbrev pub Run : Type 0
Run = Ctx → Option (Ctx × Status)

-- An element of a block with what runs it, and of a table what runs its members.
pub record Child : Type 0 where
  pub run : Run
  pub members : List (Attr × Run)

-- The table `cmd`.
pub data Kind : Type 0 where
  if_cmd : Kind
  case_cmd : Kind
  return_cmd : Kind
  include_cmd : Kind

abbrev pub names : List (Str × Kind)
names =
    (b'i' ∷ b'f' ∷ [], if_cmd)
    ∷ (b'c' ∷ b'a' ∷ b's' ∷ b'e' ∷ [], case_cmd)
    ∷ (b'r' ∷ b'e' ∷ b't' ∷ b'u' ∷ b'r' ∷ b'n' ∷ [], return_cmd)
    ∷ (b'i' ∷ b'n' ∷ b'c' ∷ b'l' ∷ b'u' ∷ b'd' ∷ b'e' ∷ [], include_cmd)
    ∷ []

-- `json_script_get_file`. `avl_insert` of a key that is there fails.
unfoldable pub get_file : Handlers → Str → Ctx → Ctx × Option ℕ
get_file h name c = elim (c.files name) [
  | some f ↦ (c, some f)
  | none ↦ elim (h.handle_file name) [
    | none ↦ (c, none)
    | some f ↦ (
      record c {
        files = λ n. elim (c.files n) [
          | some g ↦ some g
          | none ↦ if strcmp n (h.file_key f) then some f else none
        ];
      },
      some f,
    )
  ]
]

-- The command runs `__json_script_run` of a file, of which it is the context, by `script`.
module _ (h : Handlers) (call : Call) (script : ℕ → Option Attr → Ctx → Option Ctx) where
  -- `handle_if`.
  unfoldable pub handle_if : List (Attr × Child) → Run
  handle_if xs c =
      let tb = parse_array (type_string ∷ type_array ∷ type_array ∷ type_array ∷ []) xs in
      elim (entry tb 1) [
        | none ↦ some (c, done)
        | some cond ↦ elim (entry tb 2) [
          | none ↦ some (c, done)
          | some yes_cmd ↦ elim (process_expr h call cond.0 c) [
            | none ↦ none
            | some res ↦ elim res.1 [
              | none ↦ some (res.0, done)
              | some true ↦ yes_cmd.1.run res.0
              | some false ↦ elim (entry tb 3) [
                | none ↦ some (res.0, done)
                | some no_cmd ↦ no_cmd.1.run res.0
              ]
            ]
          ]
        ]
      ]

  -- The loop of `handle_case`.
  unfoldable pub case_loop : Str → List (Attr × Run) → Run
  case_loop var [] c = some (c, done)
  case_loop var (cur ∷ r) c = elim (strcmp var (blobmsg_name cur.0)) [
    | true ↦ cur.1 c
    | false ↦ case_loop var r c
  ]

  -- `handle_case`.
  unfoldable pub handle_case : List (Attr × Child) → Run
  handle_case xs c =
      let tb = get_tuple xs type_string type_table in
      elim (entry tb 1) [
        | none ↦ some (c, done)
        | some name ↦ elim (entry tb 2) [
          | none ↦ some (c, done)
          | some cases ↦ elim (find_var h call.vars (string_of name.0)) [
            | none ↦ some (c, done)
            | some var ↦ case_loop var cases.1.members c
          ]
        ]
      ]

  -- `handle_include` of the command `expr`.
  unfoldable pub handle_include : Attr → List (Attr × Child) → Run
  handle_include expr xs c = elim (entry (get_tuple xs type_string 0) 1) [
    | none ↦ some (c, done)
    | some name ↦
        let found = get_file h (string_of name.0) c in
        elim found.1 [
          | none ↦ some (found.0, done)
          | some f ↦ elim (script f (some expr) found.0) [ none ↦ none | some c' ↦ some (c', done) ]
        ]
  ]

  -- The callbacks of the table.
  abbrev pub cmd_cb : Kind → Attr → List (Attr × Child) → Run
  cmd_cb if_cmd expr xs = handle_if xs
  cmd_cb case_cmd expr xs = handle_case xs
  cmd_cb return_cmd expr xs = λ c. some (c, returned)
  cmd_cb include_cmd expr xs = handle_include expr xs

  -- The loop of `cmd_process_strings`, after the first attribute: the array that it builds, or `none` for a
  -- reference that is not closed.
  unfoldable pub strings_loop : List (Attr × Child) → Option (List Attr)
  strings_loop [] = some []
  strings_loop (cur ∷ r) =
      let rest = strings_loop r in
      elim cur.0 [
        | string n s ↦
            let (text, ok) = eval_string (find_var h call.vars) s in
            if ok then (elim rest [ none ↦ none | some l ↦ some (string [] text ∷ l) ]) else none
        | a ↦ elim rest [ none ↦ none | some l ↦ some (a ∷ l) ]
      ]

  -- `__json_process_cmd` of an array whose first element is the string `name`, from the call of
  -- `__json_process_type` on.
  unfoldable pub run_command : Attr → Str → List (Attr × Child) → Run
  run_command cur name xs c = elim (process_type names name) [
    | some kind ↦ cmd_cb kind cur xs c
    | none ↦ elim (strings_loop (drop 1 xs)) [
      | none ↦ some (handle_error unterminated_reference cur c, failed)
      | some args ↦ some (
        record c { abort = c.abort || h.aborts name args; log = command name args ∷ c.log },
        done,
      )
    ]
  ]

  -- The loop of `json_process_cmd` after the first element.
  unfoldable pub block_loop : List (Attr × Child) → Run
  block_loop [] c = some (c, done)
  block_loop (cur ∷ r) c = elim c.abort [
    | true ↦ some (c, done)
    | false ↦ elim (cur.1.run c) [
      | none ↦ none
      | some res ↦ elim res.1 [ returned ↦ some (res.0, returned) | _ ↦ block_loop r res.0 ]
    ]
  ]

  -- The loop of `json_process_cmd`.
  unfoldable pub run_block : Attr → List (Attr × Child) → Run
  run_block block [] c = some (c, done)
  run_block block (cur ∷ r) c = elim c.abort [
    | true ↦ some (c, done)
    | false ↦ elim cur.0 [
      | string n name ↦ run_command block name (cur ∷ r) c
      | _ ↦ block_loop (cur ∷ r) c
    ]
  ]

  -- `json_process_cmd`, and the elements of an array and the members of a table with it.
  unfoldable mutual
    pub process_cmd : Attr → Run
    process_cmd (string n s) c = some (handle_error unexpected_type (string n s) c, failed)
    process_cmd (array n xs) c = run_block (array n xs) (children xs) c
    process_cmd (table n xs) c = some (handle_error unexpected_type (table n xs) c, failed)
    process_cmd (other n t xs) c = some (handle_error unexpected_type (other n t xs) c, failed)

    pub members : Attr → List (Attr × Run)
    members (table n xs) = runs xs
    members (string n s) = []
    members (array n xs) = []
    members (other n t xs) = []

    pub children : Attrs → List (Attr × Child)
    children end = []
    children (item a r) = (a, record { run = process_cmd a; members = members a }) ∷ children r

    pub runs : Attrs → List (Attr × Run)
    runs end = []
    runs (item a r) = (a, process_cmd a) ∷ runs r

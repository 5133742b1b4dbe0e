-- ===== src/JsonScript.antt =====
-- json_script.c and json_script.h, scripts of blobmsg attributes: their attributes, and what a run keeps. The
-- attributes are those that `blobmsg_check_attr` accepts, decoded; a string is its bytes without the NUL.
pub mod Template
pub mod Expr
pub mod Cmd
pub mod Run
mod Tests
use libubox.Base.{
  ℕ, Bool, true, false, not, ◌&&◌, Option, none, some, List, [], ◌∷◌, map, ◌==◌, if◌then◌else◌,
  get_elem?,
}
use libubox.Blobmsg.{type_unspec, type_array, type_table}

abbrev pub Str : Type 0
Str = List ℕ

-- An attribute, with its name; those of the other types are a type and the bytes.
mutual
  pub data Attr : Type 0 where
    string : Str → Str → Attr
    array : Str → Attrs → Attr
    table : Str → Attrs → Attr
    other : Str → ℕ → List ℕ → Attr

  -- What `blobmsg_for_each_attr` visits.
  pub data Attrs : Type 0 where
    end : Attrs
    item : Attr → Attrs → Attrs

-- BLOBMSG_TYPE_STRING.
abbrev pub type_string : ℕ
type_string = 3

abbrev pub blobmsg_type : Attr → ℕ
blobmsg_type (string _ _) = type_string
blobmsg_type (array _ _) = type_array
blobmsg_type (table _ _) = type_table
blobmsg_type (other _ t _) = t

abbrev pub blobmsg_name : Attr → Str
blobmsg_name (string n _) = n
blobmsg_name (array n _) = n
blobmsg_name (table n _) = n
blobmsg_name (other n _ _) = n

-- `strcmp`, whether it is 0.
unfoldable pub strcmp : Str → Str → Bool
strcmp [] [] = true
strcmp [] (y ∷ ys) = false
strcmp (x ∷ xs) [] = false
strcmp (x ∷ xs) (y ∷ ys) = if x == y then strcmp xs ys else false

-- `blobmsg_parse_array`: of a policy only the types count. The attributes come with what is computed of
-- them; those of another type are passed over.
unfoldable pub parse_array : {A : Type 0} → List ℕ → List (Attr × A) → List (Option (Attr × A))
parse_array types [] = map (λ t. none) types
parse_array [] (cur ∷ r) = []
parse_array (t ∷ ts) (cur ∷ r) = elim (not (t == type_unspec) && not (blobmsg_type cur.0 == t)) [
  | true ↦ parse_array (t ∷ ts) r
  | false ↦ some cur ∷ parse_array ts r
]

-- `tb[i]`.
abbrev pub entry : {A : Type 0} → List (Option A) → ℕ → Option A
entry tb i = elim (get_elem? tb i) [ none ↦ none | some e ↦ e ]

-- The messages of the errors.
pub data Message : Type 0 where
  unexpected_type : Message
  unknown_expression : Message
  unterminated_reference : Message
  recursive_include : Message

-- What the callbacks `handle_command` and `handle_error` are told.
pub data Event : Type 0 where
  command : Str → List Attr → Event
  error : Message → Attr → Event

-- `struct json_script_ctx`, with the number of the run that each file was last in, and the events so far, the
-- last first. A file is named by a number, its address. `entered` has the file of each pass through the loop
-- of `__json_script_run`, the last first, which the code does not keep.
pub record Ctx : Type 0 where
  pub abort : Bool
  pub files : Str → Option ℕ
  pub file_seq : ℕ → ℕ
  pub run_seq : ℕ
  pub entered : List ℕ
  pub log : List Event

-- The callbacks, and what the code takes from the C library and from the files: the value of a variable that
-- is none of a run, whether a command calls `json_script_abort`, the file of a name, `regcomp` and `regexec`
-- of a pattern and a string, `none` if the pattern is none; the key of a file, and the blocks of its chain.
pub record Handlers : Type 0 where
  pub handle_var : Str → Option Str
  pub aborts : Str → List Attr → Bool
  pub handle_file : Str → Option ℕ
  pub regex : Str → Str → Option Bool
  pub file_key : ℕ → Str
  pub file_data : ℕ → List Attr

-- `struct json_call` without the context.
pub record Call : Type 0 where
  pub vars : Attrs
  pub seq : ℕ

abbrev pub handle_error : Message → Attr → Ctx → Ctx
handle_error m a c = record c { log = error m a ∷ c.log }

-- The loop of `json_script_find_var`.
unfoldable pub find_string : Attrs → Str → Option Str
find_string end name = none
find_string (item (string n s) r) name = if strcmp n name then some s else find_string r name
find_string (item (array n xs) r) name = find_string r name
find_string (item (table n xs) r) name = find_string r name
find_string (item (other n t xs) r) name = find_string r name

-- `json_script_find_var`.
unfoldable pub find_var : Handlers → Attrs → Str → Option Str
find_var h vars name = elim (find_string vars name) [ none ↦ h.handle_var name | some s ↦ some s ]

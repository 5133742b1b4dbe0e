-- ===== src/JsonScript/Run.antt =====
-- Running the files of json_script.c.
pub mod Keeps
pub mod Commands
pub mod Returns
use libubox.Base.{
  ℕ, zero, suc, ◌+◌, ◌%◌, true, false, Option, none, some, List, [], ◌∷◌, ◌==◌, if◌then◌else◌,
}
use libubox.JsonScript.{Str, Attr, Attrs, recursive_include, Ctx, Handlers, Call, handle_error}
use libubox.JsonScript.Cmd.{get_file, process_cmd}

-- The loop of `__json_script_run` over the chain of a file.
unfoldable pub chain_loop :
    Handlers → Call → (ℕ → Option Attr → Ctx → Option Ctx) → List Attr → Ctx → Option Ctx
chain_loop h call script [] c = some c
chain_loop h call script (block ∷ r) c = elim (process_cmd h call script block c) [
  | none ↦ none
  | some res ↦ chain_loop h call script r res.0
]

-- `__json_script_run`, on fuel, which an include spends.
unfoldable pub script_run : ℕ → Handlers → Call → ℕ → Option Attr → Ctx → Option Ctx
script_run zero h call file context c = none
script_run (suc n) h call file context c = elim (c.file_seq file == call.seq) [
  | true ↦ some (elim context [ none ↦ c | some a ↦ handle_error recursive_include a c ])
  | false ↦ chain_loop h call (script_run n h call) (h.file_data file) (record c {
    file_seq = λ i. if i == file then call.seq else c.file_seq i;
    entered = file ∷ c.entered;
  })
]

-- `++_seq` in 32 bits, and once more if it is 0.
abbrev pub next_seq : ℕ → ℕ
next_seq seq = if (seq + 1) % 4294967296 == 0 then 1 else (seq + 1) % 4294967296

-- `json_script_run_file`.
unfoldable pub json_script_run_file : ℕ → Handlers → Attrs → ℕ → Ctx → Option Ctx
json_script_run_file n h vars file c =
    let seq = next_seq c.run_seq in
    script_run n h (record { vars = vars; seq = seq }) file none
      (record c { run_seq = seq; abort = false })

-- `json_script_run`.
unfoldable pub json_script_run : ℕ → Handlers → Attrs → Str → Ctx → Option Ctx
json_script_run n h vars name c =
    let found = get_file h name c in
    elim found.1 [ none ↦ some found.0 | some file ↦ json_script_run_file n h vars file found.0 ]

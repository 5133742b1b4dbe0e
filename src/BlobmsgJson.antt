-- ===== src/BlobmsgJson.antt =====
-- blobmsg_json.c, fields as JSON text: the buffer that the text is written to. A string is its bytes without the
-- NUL.
pub mod Format
pub mod Print
pub mod Buffer
pub mod Lists
pub mod Written
pub mod Read
pub mod Quote
pub mod Number
pub mod ReadBack
pub mod Items
pub mod RoundTrip
mod Tests
use libubox.Base.{
  ℕ, ◌+◌, ◌/◌, ◌%◌, Bool, true, not, ◌||◌, Option, none, some, List, [], ◌∷◌, ◌++◌, ltb, leb, ◌==◌,
  if◌then◌else◌, ◌>>=◌, length, replicate,
}

abbrev pub Str : Type 0
Str = List ℕ

-- `struct strbuf`, without the callback: the room of the memory, whether its pointer is NULL, and what was
-- written to it, of which `pos` is the length.
pub record Strbuf : Type 0 where
  pub len : ℕ
  pub null : Bool
  pub text : Str
  pub indent : Bool
  pub indent_level : ℕ

-- Whether `malloc` and `realloc` give so many bytes.
module _ (alloc : ℕ → Bool) where
  -- `memcpy` at `pos`, a fault through NULL or past the room.
  unfoldable pub put_at : Strbuf → Str → Option Strbuf
  put_at s c =
      if s.null || ltb s.len (length s.text + length c)
      then none
      else some (record s { text = s.text ++ c })

  -- `blobmsg_puts`, without its result, which no caller looks at.
  -- A growth after one that failed is a fault too, although `realloc` of NULL could give memory then.
  unfoldable pub puts : Strbuf → Str → Option Strbuf
  puts s c =
      if length c == 0
      then some s
      else if leb s.len (length s.text + length c)
      then (let len = s.len + (16 + length c) in
          if alloc len
          then put_at (record s { len = len }) c
          else some (record s { len = len; null = true }))
      else put_at s c

  -- `add_separator`.
  unfoldable pub add_separator : Strbuf → Option Strbuf
  add_separator s =
      if not s.indent
      then some s
      else puts s (10 ∷ replicate (if ltb 16 s.indent_level then 16 else s.indent_level) 9)

-- The variable `escape` after the `switch`, `none` for 0.
unfoldable pub escape : ℕ → Option ℕ
escape c =
    if c == 8
    then some b'b'
    else if c == 10
    then some b'n'
    else if c == 9
    then some b't'
    else if c == 13
    then some b'r'
    else if c == 34 || c == 92 || c == 47
    then some c
    else if ltb c 32
    then some b'u'
    else none

-- A digit of "%02x".
abbrev pub hex_digit : ℕ → ℕ
hex_digit d = if ltb d 10 then 48 + d else 87 + d

-- The bytes of `buf` that are written.
unfoldable pub escaped : ℕ → ℕ → Str
escaped e c =
    if e == b'u'
    then 92 ∷ b'u' ∷ 48 ∷ 48 ∷ hex_digit (c / 16) ∷ hex_digit (c % 16) ∷ []
    else 92 ∷ e ∷ []

module _ (alloc : ℕ → Bool) where
  -- The loop of `blobmsg_format_string`, and the write after it; `run` is what is from `last` to `p`.
  unfoldable pub format_loop : Str → Str → Strbuf → Option Strbuf
  format_loop run [] s = puts alloc s run
  format_loop run (c ∷ r) s = elim (escape c) [
    | none ↦ format_loop (run ++ (c ∷ [])) r s
    | some e ↦ puts alloc s run >>= λ s1. puts alloc s1 (escaped e c) >>= λ s2. format_loop [] r s2
  ]

  -- `blobmsg_format_string`.
  unfoldable pub format_string : Str → Strbuf → Option Strbuf
  format_string str s =
      puts alloc s (34 ∷ []) >>= λ s1. format_loop [] str s1 >>= λ s2. puts alloc s2 (34 ∷ [])

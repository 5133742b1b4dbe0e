-- ===== src/Ustream.antt =====
-- ustream.c and ustream.h: the buffers of a stream and the operations on one list of them.
-- The reading and the writing side are in the children.
pub mod Consume
pub mod Fill
pub mod Invariant
pub mod Prepare
pub mod Read
pub mod Setup
mod Tests
pub mod Write
pub mod Flush
use mathlib.Core.Bool.{xor}
use libubox.Base.{
  ℕ, ◌+◌, ◌-◌, ◌/◌, Bool, true, false, not, ◌&&◌, ◌||◌, Option, none, some, List, [], ◌∷◌, ◌++◌,
  ltb, leb, ◌==◌, if◌then◌else◌, replicate,
}
use libubox.Base.Bytes.{region, write_at}
use libubox.Base.Int.{ℤ, pos, ltb_ℤ}

-- `struct ustream_buf`. The flexible array `head[]` is `mem`; the pointers `data`, `tail` and
-- `end` are offsets from `head`.
pub record Buf : Type 0 where
  pub mem : List ℕ
  pub data_off : ℕ
  pub tail_off : ℕ
  pub end_off : ℕ

-- `struct ustream_buf_list`. The chain from `head` is `before` (the buffers ahead of `data_tail`)
-- and then `rest` (`data_tail` and the buffers behind it); `data_tail` is NULL if `rest` is empty.
pub record BufList : Type 0 where
  pub before : List Buf
  pub rest : List Buf
  pub data_bytes : ℕ
  pub min_buffers : ℕ
  pub max_buffers : ℤ
  pub buffer_len : ℕ
  pub buffers : ℕ

-- The callbacks that the core calls, in the order of the calls.
pub data Event : Type 0 where
  read_blocked_changed : Event
  notify_read : ℕ → Event
  notify_write : ℕ → Event
  notify_state : Event

-- `struct ustream`, with the two bits of `enum read_blocked_reason` as two fields. `state_pending`
-- says that the timer `state_change` is set.
pub record Ustream : Type 0 where
  pub r : BufList
  pub w : BufList
  pub string_data : Bool
  pub write_error : Bool
  pub eof : Bool
  pub blocked_user : Bool
  pub blocked_full : Bool
  pub state_pending : Bool
  pub events : List Event

-- `ustream_init_buf` on memory of the right size: `abort()` is `none`.
unfoldable pub init_buf : List ℕ → ℕ → Option Buf
init_buf mem len =
    if len == 0
    then none
    else some (record { mem = write_at mem 0 (0 ∷ []); data_off = 0; tail_off = 0; end_off = len })

-- `ustream_add_buf`.
unfoldable pub add_buf : BufList → Buf → BufList
add_buf l buf = elim l.rest [
  | [] ↦ record l { before = []; rest = l.before ++ (buf ∷ []); buffers = l.buffers + 1 }
  | c ∷ r ↦ record l { rest = c ∷ (r ++ (buf ∷ [])); buffers = l.buffers + 1 }
]

-- `ustream_can_alloc`.
unfoldable pub can_alloc : BufList → Bool
can_alloc l = if ltb_ℤ (pos 0) l.max_buffers then ltb_ℤ (pos l.buffers) l.max_buffers else true

-- One byte more than `buffer_len` is allocated where strings are terminated.
abbrev pub terminator : Bool → ℕ
terminator string_data = if string_data then 1 else 0

-- `ustream_alloc_default`. `malloc` succeeds; the contents of fresh memory are never read before
-- they are written, and are zeros here. The inner `none` is the result -1, the outer an `abort()`.
unfoldable pub alloc_default : Bool → BufList → Option (Option BufList)
unfolding can_alloc init_buf add_buf
alloc_default string_data l =
    if can_alloc l
    then elim (init_buf (replicate (l.buffer_len + terminator string_data) 0) l.buffer_len) [
      | none ↦ none
      | some buf ↦ some (some (add_buf l buf))
    ]
    else some none

-- `ustream_free_buffers`. The counters stay as they are.
unfoldable pub free_buffers : BufList → BufList
free_buffers l = record l { before = []; rest = [] }

-- `ustream_should_move`, where `is_tail` is `buf == l->tail`.
unfoldable pub should_move : BufList → Buf → Bool → ℕ → Bool
unfolding can_alloc
should_move l buf is_tail len =
    if buf.data_off == 0
    then false
    else if ltb (buf.end_off / 2) buf.data_off
    then true
    else if ltb (buf.tail_off - buf.data_off) 32 && ltb (buf.end_off / 4) buf.data_off
    then true
    else if not is_tail || can_alloc l
    then false
    else ltb (buf.end_off - buf.tail_off) len

-- The buffers that `ustream_free_buf` leaves once `head` and `data_tail` have moved past the head.
abbrev pub unlink_head : BufList → BufList
unlink_head l = elim l.before [
  | b ∷ bs ↦ record l { before = bs; buffers = l.buffers - 1 }
  | [] ↦ elim l.rest [ b ∷ bs ↦ record l { rest = bs; buffers = l.buffers - 1 } | [] ↦ l ]
]

-- `ustream_free_buf` of `buf`, which is the head of the list in every call of it.
unfoldable pub free_buf : BufList → Buf → Option BufList
unfolding init_buf add_buf
free_buf l buf =
    let l' = unlink_head l in
    if leb l.min_buffers l'.buffers
    then some l'
    else elim (init_buf buf.mem buf.end_off) [ none ↦ none | some fresh ↦ some (add_buf l' fresh) ]

-- `__ustream_set_read_blocked`, given the two bits of `val`.
unfoldable pub set_blocked : Ustream → (user full : Bool) → Ustream
set_blocked s user full =
    let changed = xor (s.blocked_user || s.blocked_full) (user || full) in
    record s {
      blocked_user = user;
      blocked_full = full;
      events = if changed then s.events ++ (read_blocked_changed ∷ []) else s.events;
    }

-- `ustream_set_read_blocked`.
unfoldable pub set_read_blocked : Ustream → Bool → Ustream
unfolding set_blocked
set_read_blocked s set = set_blocked s set s.blocked_full

-- `ustream_fixup_string`: the byte behind the data is zeroed.
unfoldable pub fixup_string : Bool → Buf → Buf
fixup_string string_data buf =
    if string_data then record buf { mem = write_at buf.mem buf.tail_off (0 ∷ []) } else buf

-- The data of a buffer goes to its front, by `memmove`.
unfoldable pub move_data : Buf → Buf
move_data buf =
    let len = buf.tail_off - buf.data_off in
    record buf {
      mem = write_at buf.mem 0 (region buf.mem buf.data_off len);
      data_off = 0;
      tail_off = len;
    }

-- The first half of `ustream_prepare_buf`: the data of `data_tail` is moved if that pays.
-- `is_read` is `l == &s->r`.
unfoldable pub squeeze : Bool → Bool → BufList → Buf → Bool → ℕ → Buf
unfolding should_move move_data fixup_string
squeeze string_data is_read l buf is_tail len =
    if should_move l buf is_tail len
    then if is_read then fixup_string string_data (move_data buf) else move_data buf
    else buf

-- `l->data_tail = l->tail`.
abbrev pub to_tail : List Buf → List Buf → List Buf × List Buf
to_tail before [] = (before, [])
to_tail before (b ∷ []) = (before, b ∷ [])
to_tail before (b ∷ c ∷ r) = to_tail (before ++ (b ∷ [])) (c ∷ r)

-- The last part of `ustream_prepare_buf`: a new buffer, if one may be had.
unfoldable pub prepare_alloc : Bool → BufList → Option (Bool × BufList)
prepare_alloc string_data l =
    if can_alloc l
    then elim (alloc_default string_data l) [
      | none ↦ none
      | some none ↦ some (false, l)
      | some (some l') ↦
          let (before, rest) = to_tail l'.before l'.rest in
          some (true, record l' { before = before; rest = rest })
    ]
    else some (false, l)

-- `ustream_prepare_buf`: whether `data_tail` has room. `none` is an `abort()`.
unfoldable pub prepare_buf : Bool → Bool → BufList → ℕ → Option (Bool × BufList)
prepare_buf string_data is_read l len = elim l.rest [
  | [] ↦ prepare_alloc string_data l
  | b ∷ [] ↦
      let b' = squeeze string_data is_read l b true len in
      if b'.tail_off == b'.end_off
      then prepare_alloc string_data (record l { rest = b' ∷ [] })
      else some (true, record l { rest = b' ∷ [] })
  | b ∷ c ∷ r ↦
      let b' = squeeze string_data is_read l b false len in
      if b'.tail_off == b'.end_off
      then some (true, record l { before = l.before ++ (b' ∷ []); rest = c ∷ r })
      else some (true, record l { rest = b' ∷ c ∷ r })
]

-- ===== src/Ustream/Tests.antt =====
-- The theorems about streams at concrete streams, and runs of the model.
use libubox.Base.{ℕ, ◌+◌, ◌≡◌, refl, true, false, some, [], ◌∷◌, arith, Yields, length, min}
use libubox.Base.Int.{pos}
use libubox.Ustream.{
  Buf, BufList, Ustream, can_alloc, free_buf, set_blocked, squeeze, prepare_alloc, prepare_buf,
}
use libubox.Ustream.Invariant.{pending, IsList}
use libubox.Ustream.Consume.{consume, Consumed, consume-Consumed}
use libubox.Ustream.Prepare.{Prepared, prepare_buf-Prepared}
use libubox.Ustream.Read.{read, get_read_buf, Taken, read-Taken}
use libubox.Ustream.Fill.{reserve, Reserved, reserve-Reserved, fill_read, Filled, fill_read-Filled}
use libubox.Ustream.Write.{Port, WriteCb, IsWriter, write, write_buffered, append_chunk}
use libubox.Ustream.Write.Written.{Written, write-Written}
use libubox.Ustream.Flush.{write_pending, round_result}
use libubox.Ustream.Flush.Flushed.{Flushed, write_pending-Flushed}
use libubox.Ustream.Setup.{
  init_defaults, init_defaults-IsList, state_change_cb, pending_data, state_change_cb-stale,
}

-- Two buffers of four bytes: the first has been read in part, the second is `data_tail`.
abbrev first : Buf
first = record { mem = 1 ∷ 2 ∷ 3 ∷ 4 ∷ 0 ∷ []; data_off = 1; tail_off = 4; end_off = 4 }

abbrev second : Buf
second = record { mem = 5 ∷ 6 ∷ 0 ∷ 0 ∷ 0 ∷ []; data_off = 0; tail_off = 1; end_off = 4 }

abbrev buffered : BufList
buffered = record {
  before = first ∷ [];
  rest = second ∷ [];
  data_bytes = 4;
  min_buffers = 1;
  max_buffers = pos 2;
  buffer_len = 4;
  buffers = 2;
}

abbrev stream : Ustream
stream = record {
  r = buffered;
  w = buffered;
  string_data = true;
  write_error = false;
  eof = false;
  blocked_user = false;
  blocked_full = true;
  state_pending = false;
  events = [];
}

buffered-IsList : IsList true buffered
buffered-IsList = omega arith

-- A device that accepts at most two bytes of each call, and counts the calls.
abbrev slow : WriteCb ℕ
slow d chunk more = (some (min 2 (length chunk)), d + 1)

slow-IsWriter : IsWriter slow
slow-IsWriter d chunk more n h = ground arith

abbrev port : Port ℕ
port = record { s = stream; dev = 0; sent = 9 ∷ [] }

-- Reading five bytes of four.
read_runs :
    Yields (λ res. (res.1 ≡ 2 ∷ 3 ∷ 4 ∷ 5 ∷ []) × (res.0.blocked_full ≡ false)) (read stream 5)
unfolding read consume free_buf set_blocked get_read_buf
read_runs = (refl, refl)

-- The device takes two of the three bytes of the first buffer, and the loop is left.
flush_runs :
    Yields
      (λ res. (res.0.sent ≡ 9 ∷ 2 ∷ 3 ∷ []) × (pending res.0.s.w ≡ 4 ∷ 5 ∷ []) × (res.1 ≡ false))
      (write_pending slow port)
unfolding write_pending round_result free_buf
flush_runs = (refl, refl, refl)

-- Three bytes of five fit behind the second buffer, and a third buffer may not be allocated.
write_runs :
    Yields
      (λ res. (res.1 ≡ some 3) × (pending res.0.s.w ≡ 2 ∷ 3 ∷ 4 ∷ 5 ∷ 7 ∷ 7 ∷ 7 ∷ []))
      (write slow port (7 ∷ 7 ∷ 7 ∷ 8 ∷ 8 ∷ []) false)
unfolding write write_buffered prepare_buf squeeze prepare_alloc can_alloc append_chunk
write_runs = (refl, refl)

consume-Consumed_example : Yields (Consumed true 3 stream) (consume stream 3)
consume-Consumed_example = consume-Consumed true stream 3 buffered-IsList (omega arith)

read-Taken_example : Yields (Taken true 5 [] stream) (read stream 5)
read-Taken_example = read-Taken true stream 5 buffered-IsList

prepare_buf-Prepared_example : Yields (Prepared true buffered) (prepare_buf true true buffered 4)
prepare_buf-Prepared_example = prepare_buf-Prepared true true buffered 4 buffered-IsList.chained

reserve-Reserved_example : Yields (Reserved stream) (reserve stream 4)
reserve-Reserved_example = reserve-Reserved stream 4 buffered-IsList

fill_read-Filled_example : Yields (Filled (6 ∷ 0 ∷ []) stream) (fill_read stream 2)
fill_read-Filled_example =
    fill_read-Filled stream second [] (6 ∷ 0 ∷ []) buffered-IsList refl (omega arith) refl

write-Written_example :
    Yields (Written port (7 ∷ 7 ∷ 7 ∷ 8 ∷ 8 ∷ [])) (write slow port (7 ∷ 7 ∷ 7 ∷ 8 ∷ 8 ∷ []) false)
write-Written_example =
    write-Written slow port (7 ∷ 7 ∷ 7 ∷ 8 ∷ 8 ∷ []) false slow-IsWriter buffered-IsList

write_pending-Flushed_example : Yields (Flushed port) (write_pending slow port)
write_pending-Flushed_example = write_pending-Flushed slow port slow-IsWriter buffered-IsList

-- A zeroed structure.
abbrev zeroed_list : BufList
zeroed_list = record {
  before = [];
  rest = [];
  data_bytes = 0;
  min_buffers = 0;
  max_buffers = pos 0;
  buffer_len = 0;
  buffers = 0;
}

abbrev zeroed : Ustream
zeroed = record stream { r = zeroed_list; w = zeroed_list }

init_defaults-IsList_example :
    IsList true (init_defaults zeroed).r
    × IsList true (init_defaults zeroed).w
    × (pending (init_defaults zeroed).r ≡ [])
    × (pending (init_defaults zeroed).w ≡ [])
    × ((init_defaults zeroed).blocked_full ≡ false)
unfolding init_defaults
init_defaults-IsList_example = init_defaults-IsList zeroed (refl, refl) (refl, refl)

abbrev broken : Ustream
broken = record stream { write_error = true }

state_change_cb-stale_example :
    (pending (state_change_cb broken).w ≡ []) × (pending_data (state_change_cb broken) true ≡ 4)
state_change_cb-stale_example = state_change_cb-stale true broken buffered-IsList refl

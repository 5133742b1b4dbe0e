-- ===== src/Ustream/Setup.antt =====
-- Setting a stream up and tearing it down (ustream.c, ustream.h), and what it says of itself.
use libubox.Base.{
  ℕ, zero, ◌<◌, ◌≡◌, refl, ap, Bool, true, false, ◌&&◌, [], ◌∷◌, ◌++◌, arith, ◌==◌, if◌then◌else◌,
  length,
}
use libubox.Base.Int.{ℤ, pos, negsuc}
use libubox.Ustream.{BufList, notify_state, Ustream, free_buffers}
use libubox.Ustream.Invariant.{pending, IsList}

-- `DEFAULT_SET`, on a count and on a limit.
abbrev default_to : ℕ → ℕ → ℕ
default_to f d = if f == 0 then d else f

abbrev default_limit : ℤ → ℤ → ℤ
default_limit (pos zero) d = d
default_limit f d = f

-- `ustream_init_defaults`. The callbacks `alloc` are the default ones. The chains stay as they are:
-- the caller has zeroed the structure.
unfoldable pub init_defaults : Ustream → Ustream
init_defaults s =
    let r = s.r in
    let w = s.w in
    record s {
      r = record r {
        min_buffers = default_to r.min_buffers 1;
        max_buffers = default_limit r.max_buffers (pos 1);
        buffer_len = default_to r.buffer_len 4096;
        buffers = 0;
        data_bytes = 0;
      };
      w = record w {
        min_buffers = default_to w.min_buffers 2;
        max_buffers = default_limit w.max_buffers (negsuc 0);
        buffer_len = default_to w.buffer_len 256;
        buffers = 0;
        data_bytes = 0;
      };
      write_error = false;
      eof = false;
      blocked_user = false;
      blocked_full = false;
    }

-- `ustream_free`: the timer is cancelled and the buffers are freed.
unfoldable pub free : Ustream → Ustream
free s = record s { r = free_buffers s.r; w = free_buffers s.w; state_pending = false }

-- `ustream_state_change_cb`, with the callback `notify_state` set. The timer has fired.
unfoldable pub state_change_cb : Ustream → Ustream
state_change_cb s = record s {
  w = if s.write_error then free_buffers s.w else s.w;
  state_pending = false;
  events = s.events ++ (notify_state ∷ []);
}

-- `ustream_pending_data`.
unfoldable pub pending_data : Ustream → Bool → ℕ
pending_data s write = if write then s.w.data_bytes else s.r.data_bytes

-- The test `max == n` on an `int` limit.
abbrev equals : ℤ → ℕ → Bool
equals (pos n) k = k == n
equals (negsuc n) k = false

-- `ustream_read_buf_full`.
unfoldable pub read_buf_full : Ustream → Bool
read_buf_full s = elim s.r.rest [
  | [] ↦ false
  | buf ∷ _ ↦
      buf.data_off == 0 && (buf.tail_off == buf.end_off) && equals s.r.max_buffers s.r.buffers
]

-- A chain with no buffer.
abbrev pub IsEmptyChain : BufList → Type 0
IsEmptyChain l = (l.before ≡ []) × (l.rest ≡ [])

empty-IsList :
    (sd : Bool) (l : BufList)
    → IsEmptyChain l
    → l.buffers ≡ 0
    → l.data_bytes ≡ 0
    → 0 < l.buffer_len
    → IsList sd l
empty-IsList sd l e b d h = record {
  chained = record {
    chain = rw (e.0, e.1);
    count = omega (arith, ap length e.0, ap length e.1);
    buffer_len = h;
  };
  total = rw (e.0, e.1) d;
}

-- `ustream_init_defaults` of a zeroed structure, whatever sizes and limits the caller has chosen, gives
-- two sides that meet the invariant and hold no bytes, and a stream that is not blocked.
pub init_defaults-IsList :
    (s : Ustream)
    → IsEmptyChain s.r
    → IsEmptyChain s.w
    → let s' = init_defaults s in
      IsList s'.string_data s'.r
      × IsList s'.string_data s'.w
      × (pending s'.r ≡ [])
      × (pending s'.w ≡ [])
      × (s'.blocked_full ≡ false)
unfolding init_defaults
init_defaults-IsList s e f =
    let s' = init_defaults s in
    (
      empty-IsList s.string_data s'.r e refl refl (ground arith),
      empty-IsList s.string_data s'.w f refl refl (ground arith),
      rw (e.0, e.1),
      rw (f.0, f.1),
      refl,
    )

-- After a write error the callback drops the buffered bytes, but `ustream_pending_data` of the write
-- side still counts them.
pub state_change_cb-stale :
    (sd : Bool) (s : Ustream)
    → IsList sd s.w
    → s.write_error ≡ true
    → (pending (state_change_cb s).w ≡ [])
      × (pending_data (state_change_cb s) true ≡ length (pending s.w))
unfolding state_change_cb free_buffers pending_data
state_change_cb-stale sd s v failed = simp (failed) (refl, v.total)

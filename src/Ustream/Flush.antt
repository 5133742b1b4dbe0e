-- ===== src/Ustream/Flush.antt =====
-- `ustream_write_pending` (ustream.c): the buffered bytes go to the device.
pub mod Rounds
pub mod Flushed
use libubox.Base.{
  ℕ, zero, suc, ◌+◌, ◌-◌, Bool, true, false, not, ◌&&◌, Option, none, some, [], ◌∷◌, ◌++◌, ltb,
  ◌==◌, if◌then◌else◌, length, take,
}
use libubox.Ustream.{Buf, notify_write, free_buf}
use libubox.Ustream.Invariant.{contents}
use libubox.Ustream.Consume.{head_buf}
use libubox.Ustream.Consume.{set_head_buf}
use libubox.Ustream.Write.{Port, WriteCb, write_error}

-- How a round of the loop of `ustream_write_pending` ends: the loop is left, or goes on with the next
-- buffer, or there was an `abort()`.
pub data Round (D : Type 0) : Type 0 where
  leave : Port D → ℕ → Round D
  go_on : Port D → ℕ → Round D
  abort : Round D

module _ {D : Type 0} where
  -- A round, once the device has returned.
  unfoldable pub round_result : Port D → Buf → ℕ → Option ℕ → D → Round D
  round_result p buf wr none dev' = leave (record p { s = write_error p.s; dev = dev' }) wr
  round_result p buf wr (some zero) dev' = leave (record p { dev = dev' }) wr
  round_result p buf wr (some (suc k)) dev' =
      let len = suc k in
      let w = record p.s.w { data_bytes = p.s.w.data_bytes - len } in
      let sent' = p.sent ++ take len (contents buf) in
      if ltb len (buf.tail_off - buf.data_off)
      then (leave
          (record p {
            s = record p.s { w = set_head_buf w (record buf { data_off = buf.data_off + len }) };
            dev = dev';
            sent = sent';
          })
          (wr + len))
      else elim (free_buf w buf) [
        | none ↦ abort
        | some w' ↦
            go_on (record p { s = record p.s { w = w' }; dev = dev'; sent = sent' }) (wr + len)
      ]

  -- The end of `ustream_write_pending`: the callbacks, and whether everything is written.
  pub finish_pending : Port D → ℕ → Port D × Bool
  finish_pending p wr =
      let drained = p.s.w.data_bytes == 0 in
      let s = p.s in
      (
        record p {
          s = record s {
            events = s.events ++ (notify_write wr ∷ []);
            state_pending = if s.eof && not (wr == 0) && drained then true else s.state_pending;
          };
        },
        drained,
      )

module _ {D : Type 0} (cb : WriteCb D) where
  -- The loop of `ustream_write_pending`, with the bytes written so far. As in `ustream_consume`, `buf`
  -- is the head of the list and `n` counts the buffers from it to the end of the chain; here the loop
  -- ends where `buf` is NULL. `more` is `!!buf->next`.
  pub pending_loop : ℕ → Port D → ℕ → Option (Port D × ℕ)
  pending_loop zero p wr = some (p, wr)
  pending_loop (suc n) p wr = elim (p.s.w.data_bytes == 0) [
    | true ↦ some (p, wr)
    | false ↦ elim (head_buf p.s.w) [
      | none ↦ none
      | some buf ↦
          let (res, dev') = cb p.dev (contents buf) (ltb 0 n) in
          elim (round_result p buf wr res dev') [
            | leave p' wr' ↦ some (p', wr')
            | go_on p' wr' ↦ pending_loop n p' wr'
            | abort ↦ none
          ]
    ]
  ]

  -- `ustream_write_pending`, with the callback `notify_write` set.
  unfoldable pub write_pending : Port D → Option (Port D × Bool)
  unfolding pending_loop finish_pending
  write_pending p =
      if p.s.write_error
      then some (p, false)
      else elim (pending_loop (length p.s.w.before + length p.s.w.rest) p 0) [
        | none ↦ none
        | some (p', wr) ↦ some (finish_pending p' wr)
      ]

-- ===== src/Ustream/Write.antt =====
-- Writing to a stream (ustream.c): to the device while nothing is buffered, and else to the buffers.
pub mod Buffered
pub mod Written
use libubox.Base.{
  ℕ, zero, suc, ◌+◌, ◌-◌, ◌≤◌, ◌≡◌, Bool, true, false, Option, none, some, List, [], ◌∷◌, ◌++◌,
  ◌==◌, if◌then◌else◌, length, take, drop, min,
}
use libubox.Base.Bytes.{write_at}
use libubox.Ustream.{BufList, Ustream, prepare_buf}

-- A stream with the device behind its callback `write`, and the bytes that the device has accepted.
pub record Port (D : Type 0) : Type 0 where
  pub s : Ustream
  pub dev : D
  pub sent : List ℕ

-- The callback `write`, of the stream's implementation: how many bytes it accepts, or `none` for a
-- negative result, and the device afterwards.
abbrev pub WriteCb : Type 0 → Type 0
WriteCb D = D → List ℕ → Bool → Option ℕ × D

-- Its documented contract: what it returns is the number of bytes accepted, of those it was given.
abbrev pub IsWriter : {D : Type 0} → WriteCb D → Type 0
IsWriter {D} cb =
    (d : D) (chunk : List ℕ) (more : Bool) (n : ℕ) → (cb d chunk more).0 ≡ some n → n ≤ length chunk

-- `ustream_write_error`.
unfoldable pub write_error : Ustream → Ustream
write_error s = record s {
  state_pending = if s.write_error then s.state_pending else true;
  write_error = true;
}

-- The body of the loop of `ustream_write_buffered`: as much as fits goes behind `data_tail`. A NULL
-- `data_tail` is a fault.
unfoldable pub append_chunk : BufList → List ℕ → Option (ℕ × BufList)
append_chunk l chunk = elim l.rest [
  | [] ↦ none
  | buf ∷ r ↦
      let maxlen = min (buf.end_off - buf.tail_off) (length chunk) in
      some (
        maxlen,
        record l {
          rest =
              record buf {
                mem = write_at buf.mem buf.tail_off (take maxlen chunk);
                tail_off = buf.tail_off + maxlen;
              }
              ∷ r;
          data_bytes = l.data_bytes + maxlen;
        },
      )
]

-- The loop of `ustream_write_buffered`, on fuel.
pub write_buffered_loop : ℕ → Bool → BufList → List ℕ → ℕ → Option (BufList × ℕ)
write_buffered_loop n sd l [] wr = some (l, wr)
write_buffered_loop zero sd l (x ∷ xs) wr = none
write_buffered_loop (suc n) sd l (x ∷ xs) wr = elim (prepare_buf sd false l (length (x ∷ xs))) [
  | none ↦ none
  | some (ok, l') ↦ elim ok [
    | false ↦ some (l', wr)
    | true ↦ elim (append_chunk l' (x ∷ xs)) [
      | none ↦ none
      | some (maxlen, l'') ↦ write_buffered_loop n sd l'' (drop maxlen (x ∷ xs)) (wr + maxlen)
    ]
  ]
]

-- `ustream_write_buffered`: each round buffers a byte, so as many rounds as bytes are enough.
unfoldable pub write_buffered : Ustream → List ℕ → ℕ → Option (Ustream × ℕ)
unfolding write_buffered_loop
write_buffered s chunk wr = elim (write_buffered_loop (length chunk) s.string_data s.w chunk wr) [
  | none ↦ none
  | some (w, wr') ↦ some (record s { w = w }, wr')
]

module _ {D : Type 0} (cb : WriteCb D) where
  -- The call of `ustream_write_buffered` at the end of `ustream_write`.
  pub buffer_rest : Port D → List ℕ → ℕ → Option (Port D × Option ℕ)
  buffer_rest p chunk wr = elim (write_buffered p.s chunk wr) [
    | none ↦ none
    | some (s', wr') ↦ some (record p { s = s' }, some wr')
  ]

  -- What `ustream_write` does with the result of the device.
  pub write_result : Port D → List ℕ → Option ℕ → D → Option (Port D × Option ℕ)
  unfolding buffer_rest
  write_result p chunk none dev' = some (record p { s = write_error p.s; dev = dev' }, none)
  write_result p chunk (some wr) dev' =
      let p' = record p { dev = dev'; sent = p.sent ++ take wr chunk } in
      if wr == length chunk then some (p', some wr) else buffer_rest p' (drop wr chunk) wr

  -- `ustream_write`. The outer option is a fault or an `abort()`, the inner `none` a negative result.
  unfoldable pub write : Port D → List ℕ → Bool → Option (Port D × Option ℕ)
  unfolding buffer_rest write_result
  write p chunk more =
      if p.s.write_error
      then some (p, some 0)
      else if p.s.w.data_bytes == 0
      then write_result p chunk (cb p.dev chunk more).0 (cb p.dev chunk more).1
      else buffer_rest p chunk 0

-- ===== src/Ustream/Write/Written.antt =====
-- What `ustream_write` (ustream.c) has done when it returns.
use libubox.Base.{
  ℕ, ◌≤◌, ◌≡◌, ◌⊎◌, inl, inr, refl, sym, ap, ◌∙◌, Bool, true, false, Option, none, some, List, [],
  ◌++◌, append-nil, append_assoc, arith, ◌==◌, ==→eq, tests, Yields, Bool-cases, Option-cases,
  length, take, drop, length-drop, take-add, nil_of_length,
}
use libubox.Ustream.{Ustream, can_alloc}
use libubox.Ustream.Invariant.{pending, IsList}
use libubox.Ustream.Write.{
  Port, WriteCb, IsWriter, write_error, write_buffered_loop, write_buffered, buffer_rest,
  write_result, write,
}
use libubox.Ustream.Write.Buffered.{Buffered, write_buffered_loop-Buffered}

-- What the result of `ustream_write` says. The bytes accepted, in order, are behind those accepted
-- before, on the device or in the buffers.
abbrev pub Outcome : {D : Type 0} → Port D → List ℕ → Port D → Option ℕ → Type 0
Outcome p chunk p' none =
    (p'.s.write_error ≡ true) × (p'.sent ≡ p.sent) × (pending p'.s.w ≡ pending p.s.w)
Outcome p chunk p' (some wr) =
    (wr ≤ length chunk)
    × (p'.sent ++ pending p'.s.w ≡ p.sent ++ (pending p.s.w ++ take wr chunk))
    × ((wr ≡ length chunk) ⊎ ((p.s.write_error ≡ true) ⊎ (can_alloc p'.s.w ≡ false)))

pub record Written {D : Type 0} (p : Port D) (chunk : List ℕ) (res : Port D × Option ℕ)
    : Type 0 where
  pub valid : IsList p.s.string_data res.0.s.w
  pub outcome : Outcome p chunk res.0 res.1
  pub read_side : res.0.s.r ≡ p.s.r

module _ {D : Type 0} (cb : WriteCb D) where
  buffer_rest-Written :
      (p q : Port D) (chunk : List ℕ) (wr : ℕ)
      → IsList p.s.string_data p.s.w
      → q.s ≡ p.s
      → wr ≤ length chunk
      → q.sent ++ pending q.s.w ≡ p.sent ++ (pending p.s.w ++ take wr chunk)
      → Yields (Written p chunk) (buffer_rest cb q (drop wr chunk) wr)
  unfolding buffer_rest write_buffered
  buffer_rest-Written p q chunk wr v e h so_far =
      let sd = q.s.string_data in
      let rest = drop wr chunk in
      let w : IsList sd q.s.w = rw e v in
      let ran = write_buffered_loop-Buffered sd (length rest) q.s.w rest wr w (omega arith) in
      elim (Option-cases (write_buffered_loop (length rest) sd q.s.w rest wr)) [
        | inl bad ↦ absurd (rw bad at ran)
        | inr ((l, wr'), got) ↦
            let b : Buffered sd q.s.w rest wr (l, wr') = rw got at ran in
            rw (got, buffer_rest, write_buffered, Yields)
              (record {
                valid = rw (← e) b.valid;
                outcome = (
                  omega (arith, b.count, b.within, length-drop wr chunk),
                  ap (λ t. q.sent ++ t) b.appended
                      ∙ sym (append_assoc q.sent (pending q.s.w) (take b.taken rest))
                      ∙ ap (λ t. t ++ take b.taken rest) so_far
                      ∙ append_assoc p.sent (pending p.s.w ++ take wr chunk) (take b.taken rest)
                      ∙ ap (λ t. p.sent ++ t)
                          (append_assoc (pending p.s.w) (take wr chunk) (take b.taken rest)
                            ∙ ap (λ t. pending p.s.w ++ t)
                                (take-add wr b.taken wr' chunk (sym b.count))),
                  elim b.complete [
                    | inl all_taken ↦ inl (omega (arith, b.count, length-drop wr chunk))
                    | inr full ↦ inr (inr full)
                  ],
                );
                read_side = ap (λ (s : Ustream). s.r) e;
              })
      ]

  write_result-Written :
      (p : Port D) (chunk : List ℕ) (res : Option ℕ) (dev' : D)
      → IsList p.s.string_data p.s.w
      → pending p.s.w ≡ []
      → ((n : ℕ) → res ≡ some n → n ≤ length chunk)
      → Yields (Written p chunk) (write_result cb p chunk res dev')
  unfolding write_result write_error
  write_result-Written p chunk none dev' v e h = record {
    valid = v;
    outcome = (refl, refl, refl);
    read_side = refl;
  }
  write_result-Written p chunk (some wr) dev' v e h =
      let q : Port D = record p { dev = dev'; sent = p.sent ++ take wr chunk } in
      let so_far : q.sent ++ pending q.s.w ≡ p.sent ++ (pending p.s.w ++ take wr chunk) =
        rw e (append-nil (p.sent ++ take wr chunk)) in
      elim (Bool-cases (wr == length chunk)) [
        | inl all_sent ↦ rw all_sent (record {
          valid = v;
          outcome = (h wr refl, so_far, inl (==→eq _ _ all_sent));
          read_side = refl;
        })
        | inr some_left ↦ rw some_left (buffer_rest-Written p q chunk wr v refl (h wr refl) so_far)
      ]

  -- `ustream_write` over a device that keeps its contract neither faults nor aborts, and keeps the
  -- invariant and the read side. If it returns `wr`, then `wr` is at most the length of the chunk, and
  -- the bytes the device has accepted with those that are buffered behind them grow by exactly the
  -- first `wr` bytes, in order; `wr` is the whole length, unless the stream had failed before or no
  -- further buffer may be allocated. A negative result leaves both as they were and marks the error.
  pub write-Written :
      (p : Port D) (chunk : List ℕ) (more : Bool)
      → IsWriter cb
      → IsList p.s.string_data p.s.w
      → Yields (Written p chunk) (write cb p chunk more)
  unfolding write
  write-Written p chunk more contract v =
      let same : p.sent ++ pending p.s.w ≡ p.sent ++ (pending p.s.w ++ []) =
        ap (λ t. p.sent ++ t) (sym (append-nil (pending p.s.w))) in
      elim (Bool-cases p.s.write_error) [
        | inl failed ↦
            simp (failed, write, Yields)
              (record {
                valid = v;
                outcome = (omega arith, same, inr (inl failed));
                read_side = refl;
              })
        | inr working ↦ elim (Bool-cases (p.s.w.data_bytes == 0)) [
          | inl drained ↦
              let e : pending p.s.w ≡ [] = nil_of_length (pending p.s.w) (omega (tests, v.total)) in
              simp (working, write, Yields, drained)
                (write_result-Written p chunk (cb p.dev chunk more).0 (cb p.dev chunk more).1 v e
                  (contract p.dev chunk more))
          | inr busy ↦
              simp (working, write, Yields, busy)
                (buffer_rest-Written p p chunk 0 v refl (omega arith) same)
        ]
      ]

-- ===== src/Ustream/Flush/Flushed.antt =====
-- The loop of `ustream_write_pending` (ustream.c), and its result.
use libubox.Base.{
  ℕ, zero, suc, ◌+◌, ◌<◌, ◌≡◌, ◌⊎◌, ◌↔◌, inl, inr, refl, sym, ap, ◌∙◌, Bool, true, false, none,
  some, List, [], ◌∷◌, ◌++◌, arith, ltb, ◌==◌, eq→==, tests, Yields, Bool-cases, Option-cases,
  length, drop_all, nil_of_length,
}
use libubox.Ustream.{Buf}
use libubox.Ustream.Invariant.{contents, bytes, pending, Chain, IsList}
use libubox.Ustream.Consume.{head_buf-cases}
use libubox.Ustream.Consume.{pending-nil}
use libubox.Ustream.Write.{Port, WriteCb, IsWriter}
use libubox.Ustream.Flush.{
  Round, leave, go_on, abort, round_result, pending_loop, finish_pending, write_pending,
}
use libubox.Ustream.Flush.Rounds.{Passed, Passed-refl, Passed-cons, RoundIs, round_result-RoundIs}

-- What `ustream_write_pending` does.
pub record Flushed {D : Type 0} (p : Port D) (res : Port D × Bool) : Type 0 where
  pub valid : IsList p.s.string_data res.0.s.w
  pub fifo : res.0.sent ++ pending res.0.s.w ≡ p.sent ++ pending p.s.w
  pub done : (res.1 ≡ true) ↔ ((p.s.write_error ≡ false) × (pending res.0.s.w ≡ []))
  pub read_side : res.0.s.r ≡ p.s.r

module _ {D : Type 0} (cb : WriteCb D) where
  -- What the loop does after a round, given what it does from the next buffer on.
  round-Passed :
      (sd : Bool) (n : ℕ) (p : Port D) (wr : ℕ) (r : Round D)
      → (length p.s.w.before < suc n) ⊎ (pending p.s.w ≡ [])
      → RoundIs sd p wr r
      → ((p' : Port D) (wr' : ℕ)
          → IsList sd p'.s.w
          → (length p'.s.w.before < n) ⊎ (pending p'.s.w ≡ [])
          → Yields (Passed sd p' wr') (pending_loop cb n p' wr'))
      → Yields (Passed sd p wr) (elim r [
        | leave p' wr' ↦ some (p', wr')
        | go_on p' wr' ↦ pending_loop cb n p' wr'
        | abort ↦ none
      ])
  round-Passed sd n p wr (leave p' wr') fuel ok next = ok
  round-Passed sd n p wr abort fuel ok next = absurd ok
  round-Passed sd n p wr (go_on p' wr') fuel ok next =
      Passed-cons sd p p' wr ok.len _ ok.sent ok.left ok.within ok.read_side ok.eof (
        rw (← ok.count) (
          next p' wr' ok.valid (elim ok.shorter [
            | inr none_left ↦ inr none_left
            | inl less ↦ elim fuel [
              | inl f ↦ inl (omega arith)
              | inr none_yet ↦ inr (ok.left ∙ rw none_yet (drop_all ok.len [] (omega arith)))
            ]
          ])))

  pending_loop-Passed :
      (sd : Bool) (n : ℕ) (p : Port D) (wr : ℕ)
      → IsWriter cb
      → IsList sd p.s.w
      → (length p.s.w.before < n) ⊎ (pending p.s.w ≡ [])
      → Yields (Passed sd p wr) (pending_loop cb n p wr)
  unfolding pending_loop
  pending_loop-Passed sd zero p wr contract v fuel = Passed-refl sd p wr v
  pending_loop-Passed sd (suc n) p wr contract v fuel = elim (Bool-cases (p.s.w.data_bytes == 0)) [
    | inl drained ↦ simp (pending_loop, Yields, drained) (Passed-refl sd p wr v)
    | inr busy ↦ elim (head_buf-cases sd p.s.w.before p.s.w.rest p.s.w v.chained.chain) [
      | inl empty ↦ absurd (omega (tests, v.total, ap length (pending-nil sd p.s.w empty)))
      | inr (b, more, e, is, hd) ↦
          let res = cb p.dev (contents b) (ltb 0 n) in
          simp (pending_loop, Yields, busy, hd)
            (round-Passed sd n p wr (round_result p b wr res.0 res.1) fuel
              (round_result-RoundIs sd p b more wr res.0 res.1 v is e
                (contract p.dev (contents b) (ltb 0 n)))
              (λ p' wr' v' f. pending_loop-Passed sd n p' wr' contract v' f))
    ]
  ]

  finish_pending-Flushed :
      (p p' : Port D) (wr : ℕ)
      → p.s.write_error ≡ false
      → Passed p.s.string_data p 0 (p', wr)
      → Flushed p (finish_pending p' wr)
  unfolding finish_pending
  finish_pending-Flushed p p' wr working r = record {
    valid = record { chained = r.valid.chained; total = r.valid.total };
    fifo = r.fifo;
    done = (
      λ e. (working, nil_of_length (pending p'.s.w) (omega (tests, r.valid.total))),
      λ e. eq→== p'.s.w.data_bytes 0 (omega (arith, r.valid.total, ap length e.1)),
    );
    read_side = r.read_side;
  }

  blocks-ready :
      (sd : Bool) (before rest : List Buf)
      → Chain sd before rest
      → (length before < length before + length rest) ⊎ (bytes before ++ bytes rest ≡ [])
  blocks-ready sd before [] c = inr (rw c)
  blocks-ready sd before (b ∷ r) c = inl (omega arith)

  -- `ustream_write_pending` over a device that keeps its contract neither faults nor aborts. What the
  -- device has accepted, with what is buffered behind it, stays the same sequence of bytes, whatever
  -- the device does; the invariant and the read side are kept. The result is true exactly if the stream
  -- had not failed before the call and nothing is left in the buffers.
  pub write_pending-Flushed :
      (p : Port D)
      → IsWriter cb
      → IsList p.s.string_data p.s.w
      → Yields (Flushed p) (write_pending cb p)
  unfolding write_pending
  write_pending-Flushed p contract v = elim (Bool-cases p.s.write_error) [
    | inl failed ↦
        simp (failed, write_pending, Yields)
          (record {
            valid = v;
            fifo = refl;
            done = (λ e. cc, λ e. let bad : true ≡ false = sym failed ∙ e.0 in cc);
            read_side = refl;
          })
    | inr working ↦
        let n = length p.s.w.before + length p.s.w.rest in
        let ran =
          pending_loop-Passed p.s.string_data n p 0 contract v
            (blocks-ready p.s.string_data p.s.w.before p.s.w.rest v.chained.chain) in
        elim (Option-cases (pending_loop cb n p 0)) [
          | inl bad ↦ absurd (rw bad at ran)
          | inr ((p', wr), got) ↦
              simp (working, write_pending, Yields, got)
                (finish_pending-Flushed p p' wr working (rw got at ran))
        ]
  ]

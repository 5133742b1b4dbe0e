-- ===== src/Ustream/Flush/Rounds.antt =====
-- One round of `ustream_write_pending` (ustream.c).
use libubox.Base.{
  ℕ, zero, suc, ◌+◌, ◌-◌, ◌≤◌, ◌<◌, ◌≡◌, ◌⊎◌, inl, inr, refl, sym, ap, ◌∙◌, Bool, Option, none,
  some, List, [], ◌∷◌, ◌++◌, append_assoc, arith, ltb, tests, Yields, Bool-cases, Option-cases,
  length, take, drop, length-append, length-take, take-append_le, drop-append_ge, take-append-drop,
}
use libubox.Ustream.{Buf, BufList, free_buf}
use libubox.Ustream.Invariant.{
  contents, bytes, pending, bytes-append, IsBuf, IsChain, IsList, length-contents, Freed,
  free_buf-Freed,
}
use libubox.Ustream.Consume.{set_head_buf, set_head_buf-Advanced, Advanced-IsList}
use libubox.Ustream.Write.{Port, write_error}
use libubox.Ustream.Flush.{Round, leave, go_on, abort, round_result}

pending-head :
    (l : BufList) (b : Buf) (more : List Buf)
    → l.before ++ l.rest ≡ b ∷ more
    → pending l ≡ contents b ++ bytes more
pending-head l b more e = sym (bytes-append l.before l.rest) ∙ ap bytes e

take-head :
    (l : BufList) (b : Buf) (more : List Buf) (len : ℕ)
    → l.before ++ l.rest ≡ b ∷ more
    → len ≤ length (contents b)
    → (take len (contents b) ≡ take len (pending l)) × (len ≤ length (pending l))
take-head l b more len e h =
    let ph = pending-head l b more e in
    (
      rw ph (sym (take-append_le len (contents b) (bytes more) h)),
      omega (arith, ap length ph, length-append (contents b) (bytes more)),
    )

module _ {D : Type 0} where
  -- What a run of the loop does: bytes pass from the front of the buffers to the device.
  pub record Passed (sd : Bool) (p : Port D) (wr : ℕ) (res : Port D × ℕ) : Type 0 where
    pub valid : IsList sd res.0.s.w
    pub fifo : res.0.sent ++ pending res.0.s.w ≡ p.sent ++ pending p.s.w
    pub count : length res.0.sent + wr ≡ length p.sent + res.1
    pub read_side : res.0.s.r ≡ p.s.r
    pub eof : res.0.s.eof ≡ p.s.eof

  pub Passed-refl : (sd : Bool) (p : Port D) (wr : ℕ) → IsList sd p.s.w → Passed sd p wr (p, wr)
  Passed-refl sd p wr v = record {
    valid = v;
    fifo = refl;
    count = refl;
    read_side = refl;
    eof = refl;
  }

  -- A round that sends `len` bytes, and then the others.
  pub Passed-cons :
      (sd : Bool) (p p' : Port D) (wr len : ℕ) (o : Option (Port D × ℕ))
      → p'.sent ≡ p.sent ++ take len (pending p.s.w)
      → pending p'.s.w ≡ drop len (pending p.s.w)
      → len ≤ length (pending p.s.w)
      → p'.s.r ≡ p.s.r
      → p'.s.eof ≡ p.s.eof
      → Yields (Passed sd p' (wr + len)) o
      → Yields (Passed sd p wr) o
  Passed-cons sd p p' wr len none e f h g k t = t
  Passed-cons sd p p' wr len (some res) e f h g k t = record {
    valid = t.valid;
    fifo =
        t.fifo
        ∙ rw (e, f)
            (append_assoc p.sent (take len (pending p.s.w)) (drop len (pending p.s.w))
              ∙ ap (λ u. p.sent ++ u) (take-append-drop len (pending p.s.w)));
    count = omega (
      arith,
      t.count,
      ap length e,
      length-append p.sent (take len (pending p.s.w)),
      length-take len (pending p.s.w),
    );
    read_side = t.read_side ∙ g;
    eof = t.eof ∙ k;
  }

  -- What a round does where the loop goes on: a whole buffer has been sent.
  pub record Moved (sd : Bool) (p : Port D) (wr : ℕ) (p' : Port D) (wr' : ℕ) : Type 0 where
    pub valid : IsList sd p'.s.w
    pub len : ℕ
    pub sent : p'.sent ≡ p.sent ++ take len (pending p.s.w)
    pub left : pending p'.s.w ≡ drop len (pending p.s.w)
    pub within : len ≤ length (pending p.s.w)
    pub count : wr' ≡ wr + len
    pub read_side : p'.s.r ≡ p.s.r
    pub eof : p'.s.eof ≡ p.s.eof
    pub shorter : (length p'.s.w.before < length p.s.w.before) ⊎ (pending p'.s.w ≡ [])

  abbrev pub RoundIs : Bool → Port D → ℕ → Round D → Type 0
  RoundIs sd p wr (leave p' wr') = Passed sd p wr (p', wr')
  RoundIs sd p wr (go_on p' wr') = Moved sd p wr p' wr'
  RoundIs sd p wr abort = ⊥

  -- The device has accepted a part of the data of the head.
  part-Passed :
      (sd : Bool) (p : Port D) (b : Buf) (more : List Buf) (wr len : ℕ) (dev' : D)
      → IsList sd p.s.w
      → IsBuf sd b
      → p.s.w.before ++ p.s.w.rest ≡ b ∷ more
      → len < b.tail_off - b.data_off
      → let w = record p.s.w { data_bytes = p.s.w.data_bytes - len } in
        Passed sd p wr (
          record p {
            s = record p.s { w = set_head_buf w (record b { data_off = b.data_off + len }) };
            dev = dev';
            sent = p.sent ++ take len (contents b);
          },
          wr + len,
        )
  part-Passed sd p b more wr len dev' v is e h =
      let w = record p.s.w { data_bytes = p.s.w.data_bytes - len } in
      let a =
        set_head_buf-Advanced sd w b more len
          (record {
            chain = v.chained.chain;
            count = v.chained.count;
            buffer_len = v.chained.buffer_len;
          })
          is e h in
      let (cut, within) = take-head p.s.w b more len e (omega (arith, length-contents sd is)) in
      Passed-cons sd p _ wr len (some (_, wr + len)) (ap (λ t. p.sent ++ t) cut) a.bytes_left within
        refl refl
        (Passed-refl sd _ (wr + len)
          (Advanced-IsList sd len p.s.w _ v (omega (arith, v.total, within)) a))

  -- The device has accepted the data of the head, which is freed.
  whole-Moved :
      (sd : Bool) (p : Port D) (b : Buf) (more : List Buf) (wr len : ℕ) (dev' : D) (w' : BufList)
      → IsList sd p.s.w
      → IsBuf sd b
      → p.s.w.before ++ p.s.w.rest ≡ b ∷ more
      → len ≡ length (contents b)
      → Freed sd b (record p.s.w { data_bytes = p.s.w.data_bytes - len }) w'
      → Moved sd p wr
          (record p {
            s = record p.s { w = w' };
            dev = dev';
            sent = p.sent ++ take len (contents b);
          })
          (wr + len)
  whole-Moved sd p b more wr len dev' w' v is e h f =
      let (cut, within) = take-head p.s.w b more len e (omega arith) in
      let total : length (pending p.s.w) ≡ length (contents b) + length (pending w') =
        ap length f.bytes_left ∙ length-append (contents b) (pending w') in
      record {
        valid = record { chained = f.chained; total = omega (arith, f.data_bytes, v.total) };
        len = len;
        sent = ap (λ t. p.sent ++ t) cut;
        left = sym (
            ap (drop len) f.bytes_left
            ∙ drop-append_ge len (contents b) (pending w') (omega arith)
            ∙ (let z : len - length (contents b) ≡ 0 = omega arith in rw z));
        within = within;
        count = refl;
        read_side = refl;
        eof = refl;
        shorter = f.shorter;
      }

  pub round_result-RoundIs :
      (sd : Bool) (p : Port D) (b : Buf) (more : List Buf) (wr : ℕ) (res : Option ℕ) (dev' : D)
      → IsList sd p.s.w
      → IsBuf sd b
      → p.s.w.before ++ p.s.w.rest ≡ b ∷ more
      → ((n : ℕ) → res ≡ some n → n ≤ length (contents b))
      → RoundIs sd p wr (round_result p b wr res dev')
  unfolding round_result write_error
  round_result-RoundIs sd p b more wr none dev' v is e h = record {
    valid = v;
    fifo = refl;
    count = refl;
    read_side = refl;
    eof = refl;
  }
  round_result-RoundIs sd p b more wr (some zero) dev' v is e h = record {
    valid = v;
    fifo = refl;
    count = refl;
    read_side = refl;
    eof = refl;
  }
  round_result-RoundIs sd p b more wr (some (suc k)) dev' v is e h =
      let w = record p.s.w { data_bytes = p.s.w.data_bytes - suc k } in
      let c : IsChain sd w = record {
        chain = v.chained.chain;
        count = v.chained.count;
        buffer_len = v.chained.buffer_len;
      } in
      let ran = free_buf-Freed sd w b more c is e in
      elim (Bool-cases (ltb (suc k) (b.tail_off - b.data_off))) [
        | inl part ↦ rw part (part-Passed sd p b more wr (suc k) dev' v is e (omega tests))
        | inr whole ↦ elim (Option-cases (free_buf w b)) [
          | inl bad ↦ absurd (rw bad at ran)
          | inr (w', got) ↦
              rw (whole, got)
                (whole-Moved sd p b more wr (suc k) dev' w' v is e
                  (omega (tests, h (suc k) refl, length-contents sd is)) (rw got at ran))
        ]
      ]

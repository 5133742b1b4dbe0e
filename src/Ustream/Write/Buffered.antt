-- ===== src/Ustream/Write/Buffered.antt =====
-- The loop of `ustream_write_buffered` (ustream.c).
use libubox.Base.{
  ℕ, zero, suc, ◌+◌, ◌-◌, ◌≤◌, ◌<◌, ◌≡◌, ◌⊎◌, inl, inr, refl, sym, ap, ap₂, ◌∙◌, Bool, false,
  Option, none, some, List, [], ◌∷◌, ◌++◌, append-nil, append_assoc, arith, Yields, Bool-cases,
  Option-cases, length, take, drop, length-append, length-take, length-drop, take-add, min,
}
use libubox.Base.Bytes.{
  write_at, length-write_at, region-write_at_after, region-write_at_self, region-append,
}
use libubox.Ustream.{Buf, BufList, can_alloc, prepare_buf}
use libubox.Ustream.Invariant.{contents, pending, IsBuf, IsList, bytes-fresh, with_chain}
use libubox.Ustream.Fill.{extend-bytes, Prepared-IsList}
use libubox.Ustream.Prepare.{HasRoom, Prepared, prepare_buf-Prepared}
use libubox.Ustream.Write.{append_chunk, write_buffered_loop}

module _ (sd : Bool) where
  -- What one round of `ustream_write_buffered` does.
  record Appended (l : BufList) (chunk : List ℕ) (res : ℕ × BufList) : Type 0 where
    valid : IsList sd res.1
    appended : pending res.1 ≡ pending l ++ take res.0 chunk
    progress : 0 < res.0
    within : res.0 ≤ length chunk

  IsBuf-append :
      (b : Buf) (src : List ℕ)
      → IsBuf sd b
      → length src ≤ b.end_off - b.tail_off
      → IsBuf sd
          (record b { mem = write_at b.mem b.tail_off src; tail_off = b.tail_off + length src })
  IsBuf-append b src v h = record {
    data_le = omega (arith, v.data_le);
    tail_le = omega (arith, v.tail_le);
    end_le = omega (arith, v.end_le, length-write_at b.mem b.tail_off src);
    nonempty = v.nonempty;
    used = elim v.used [
      | inl none_yet ↦
          elim (length src) as (λ k. (b.tail_off + k ≡ 0) ⊎ (b.data_off < b.tail_off + k)) [
            | zero ↦ inl (omega (arith, none_yet))
            | suc m ↦ inr (omega (arith, none_yet, v.data_le))
          ]
      | inr some_data ↦ inr (omega arith)
    ];
  }

  contents-append :
      (b : Buf) (src : List ℕ)
      → IsBuf sd b
      → length src ≤ b.end_off - b.tail_off
      → contents
          (record b { mem = write_at b.mem b.tail_off src; tail_off = b.tail_off + length src })
        ≡ contents b ++ src
  contents-append b src v h =
      let mem' = write_at b.mem b.tail_off src in
      sym (
        region-append mem' b.data_off (b.tail_off - b.data_off) (length src) b.tail_off
          (b.tail_off + length src - b.data_off) (omega (arith, v.data_le))
          (omega (arith, v.data_le)))
      ∙ ap₂ ◌++◌
          (region-write_at_after b.mem b.data_off (b.tail_off - b.data_off) b.tail_off src
            (omega (arith, v.data_le)))
          (region-write_at_self b.mem b.tail_off (length src) src refl
            (omega (arith, v.end_le, v.tail_le)))

  with_chain-Appended :
      (before rest : List Buf) (l : BufList) (chunk : List ℕ)
      → IsList sd (with_chain l before rest)
      → HasRoom rest
      → 0 < length chunk
      → Yields
          (Appended (with_chain l before rest) chunk)
          (append_chunk (with_chain l before rest) chunk)
  unfolding append_chunk
  with_chain-Appended before [] l chunk v room h = absurd room
  with_chain-Appended before (b ∷ r) l chunk v room h =
      let n = min (b.end_off - b.tail_off) (length chunk) in
      let src = take n chunk in
      let len : length src ≡ n = omega (arith, length-take n chunk) in
      let c = v.chained.chain in
      let b' = record b { mem = write_at b.mem b.tail_off src; tail_off = b.tail_off + n } in
      let is : IsBuf sd b' = rw len at (IsBuf-append b src c.1 (omega arith)) in
      let grown : contents b' ≡ contents b ++ src =
        rw len at (contents-append b src c.1 (omega arith)) in
      let appended : pending (with_chain l before (b' ∷ r))
          ≡ pending (with_chain l before (b ∷ r)) ++ src =
        extend-bytes before r b b' src (bytes-fresh sd r c.2) grown in
      record {
        valid = record {
          chained = record {
            chain = (c.0, is, c.2);
            count = v.chained.count;
            buffer_len = v.chained.buffer_len;
          };
          total = omega (
            arith,
            v.total,
            len,
            ap length appended,
            length-append (pending (with_chain l before (b ∷ r))) src,
          );
        };
        appended = appended;
        progress = omega arith;
        within = omega arith;
      }

  append_chunk-Appended :
      (l : BufList) (chunk : List ℕ)
      → IsList sd l
      → HasRoom l.rest
      → 0 < length chunk
      → Yields (Appended l chunk) (append_chunk l chunk)
  append_chunk-Appended l chunk = with_chain-Appended l.before l.rest l chunk

  -- What `ustream_write_buffered` does to a list: the first `taken` bytes go behind the buffered ones,
  -- and that is all of them unless no further buffer may be allocated.
  pub record Buffered (l : BufList) (chunk : List ℕ) (wr : ℕ) (res : BufList × ℕ) : Type 0 where
    pub valid : IsList sd res.0
    pub taken : ℕ
    pub count : res.1 ≡ wr + taken
    pub within : taken ≤ length chunk
    pub appended : pending res.0 ≡ pending l ++ take taken chunk
    pub complete : (taken ≡ length chunk) ⊎ (can_alloc res.0 ≡ false)

  Buffered-nil :
      (l : BufList) (chunk : List ℕ) (wr : ℕ)
      → IsList sd l
      → (0 ≡ length chunk) ⊎ (can_alloc l ≡ false)
      → Buffered l chunk wr (l, wr)
  Buffered-nil l chunk wr v h = record {
    valid = v;
    taken = 0;
    count = omega arith;
    within = omega arith;
    appended = sym (append-nil (pending l));
    complete = h;
  }

  -- A round, and then the others.
  Buffered-cons :
      (l l' : BufList) (chunk : List ℕ) (wr n : ℕ) (o : Option (BufList × ℕ))
      → n ≤ length chunk
      → pending l' ≡ pending l ++ take n chunk
      → Yields (Buffered l' (drop n chunk) (wr + n)) o
      → Yields (Buffered l chunk wr) o
  Buffered-cons l l' chunk wr n none h e b = b
  Buffered-cons l l' chunk wr n (some res) h e b = record {
    valid = b.valid;
    taken = n + b.taken;
    count = omega (arith, b.count);
    within = omega (arith, b.within, length-drop n chunk);
    appended =
        b.appended
        ∙ ap (λ t. t ++ take b.taken (drop n chunk)) e
        ∙ append_assoc (pending l) (take n chunk) (take b.taken (drop n chunk))
        ∙ ap (λ t. pending l ++ t) (take-add n b.taken (n + b.taken) chunk refl);
    complete = elim b.complete [
      | inl all_taken ↦ inl (omega (arith, length-drop n chunk))
      | inr full ↦ inr full
    ];
  }

  Buffered-same :
      (l l' : BufList) (chunk : List ℕ) (wr : ℕ) (o : Option (BufList × ℕ))
      → pending l' ≡ pending l
      → Yields (Buffered l' chunk wr) o
      → Yields (Buffered l chunk wr) o
  Buffered-same l l' chunk wr none e b = b
  Buffered-same l l' chunk wr (some res) e b = record {
    valid = b.valid;
    taken = b.taken;
    count = b.count;
    within = b.within;
    appended = b.appended ∙ ap (λ t. t ++ take b.taken chunk) e;
    complete = b.complete;
  }

  pub write_buffered_loop-Buffered :
      (n : ℕ) (l : BufList) (chunk : List ℕ) (wr : ℕ)
      → IsList sd l
      → length chunk ≤ n
      → Yields (Buffered l chunk wr) (write_buffered_loop n sd l chunk wr)
  unfolding write_buffered_loop
  write_buffered_loop-Buffered zero l [] wr v fuel = Buffered-nil l [] wr v (inl refl)
  write_buffered_loop-Buffered (suc n) l [] wr v fuel = Buffered-nil l [] wr v (inl refl)
  write_buffered_loop-Buffered zero l (x ∷ xs) wr v fuel = absurd (omega arith)
  write_buffered_loop-Buffered (suc n) l (x ∷ xs) wr v fuel =
      let ran = prepare_buf-Prepared sd false l (length (x ∷ xs)) v.chained in
      elim (Option-cases (prepare_buf sd false l (length (x ∷ xs)))) [
        | inl bad ↦ absurd (rw bad at ran)
        | inr ((ok, l'), got) ↦
            let p : Prepared sd l (ok, l') = rw got at ran in
            let v' : IsList sd l' = Prepared-IsList sd l (ok, l') v p in
            elim (Bool-cases ok) [
              | inr refused ↦
                  rw (got, write_buffered_loop, Yields, refused)
                    (Buffered-same l l' (x ∷ xs) wr (some (l', wr)) p.same
                      (Buffered-nil l' (x ∷ xs) wr v' (inr (p.refused refused))))
              | inl granted ↦
                  let put = append_chunk-Appended l' (x ∷ xs) v' (p.room granted) (omega arith) in
                  elim (Option-cases (append_chunk l' (x ∷ xs))) [
                    | inl bad ↦ absurd (rw bad at put)
                    | inr ((maxlen, l''), done) ↦
                        let a : Appended l' (x ∷ xs) (maxlen, l'') = rw done at put in
                        rw (got, write_buffered_loop, Yields, granted, done)
                          (Buffered-same l l' (x ∷ xs) wr _ p.same (
                            Buffered-cons l' l'' (x ∷ xs) wr maxlen _ a.within a.appended (
                              write_buffered_loop-Buffered n l'' (drop maxlen (x ∷ xs))
                                (wr + maxlen) a.valid
                                (omega
                                  (arith, length-drop maxlen (x ∷ xs), a.progress, a.within)))))
                  ]
            ]
      ]

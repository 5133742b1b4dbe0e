-- ===== src/Ustream/Prepare.antt =====
-- `ustream_prepare_buf` (ustream.c): room behind the data of a list.
use libubox.Base.{
  ℕ, ◌+◌, ◌-◌, ◌<◌, ◌≡◌, inl, inr, refl, ◌∙◌, Bool, true, false, Option, none, some, List, [], ◌∷◌,
  append-nil, append_assoc, arith, ◌==◌, ==→eq, ==→ne, tests, Yields, Bool-cases, replicate, All,
  length-append, length-replicate, All-append,
}
use libubox.Base.Bytes.{region, length-write_at, region-write_at_after, region-write_at_self}
use libubox.Ustream.{
  Buf, BufList, add_buf, can_alloc, terminator, alloc_default, should_move, fixup_string, move_data,
  squeeze, prepare_alloc, prepare_buf,
}
use libubox.Ustream.Invariant.{
  contents, pending, bytes-append, contents-fresh, IsBuf, IsFull, IsFresh, IsChain, length-contents,
  init_buf-IsFresh, with_chain,
}

-- The first buffer of `rest`, which is `data_tail`, has room at its end.
abbrev pub HasRoom : List Buf → Type 0
HasRoom [] = ⊥
HasRoom (b ∷ r) = b.tail_off < b.end_off

-- A buffer with the same bytes.
pub record Same (sd : Bool) (b b' : Buf) : Type 0 where
  pub is : IsBuf sd b'
  pub bytes_same : contents b' ≡ contents b
  pub end_same : b'.end_off ≡ b.end_off

pub fixup_string-Same : (sd : Bool) (b : Buf) → IsBuf sd b → Same sd b (fixup_string sd b)
unfolding fixup_string
fixup_string-Same false b v = record { is = v; bytes_same = refl; end_same = refl }
fixup_string-Same true b v = record {
  is = record {
    data_le = v.data_le;
    tail_le = v.tail_le;
    end_le = omega (arith, v.end_le, length-write_at b.mem b.tail_off (0 ∷ []));
    nonempty = v.nonempty;
    used = v.used;
  };
  bytes_same =
      region-write_at_after b.mem b.data_off (b.tail_off - b.data_off) b.tail_off (0 ∷ [])
        (omega (arith, v.data_le));
  end_same = refl;
}

module _ (sd : Bool) where
  move_data-Same : (b : Buf) → IsBuf sd b → (b.data_off ≡ 0 → ⊥) → Same sd b (move_data b)
  unfolding move_data
  move_data-Same b v h = record {
    is = record {
      data_le = omega arith;
      tail_le = omega (arith, v.tail_le);
      end_le = omega (
        arith,
        v.end_le,
        length-write_at b.mem 0 (region b.mem b.data_off (b.tail_off - b.data_off)),
      );
      nonempty = v.nonempty;
      used = elim v.used [
        | inl none_yet ↦ absurd (h (omega (arith, v.data_le)))
        | inr some_left ↦ inr (omega arith)
      ];
    };
    bytes_same =
        region-write_at_self b.mem 0 (b.tail_off - b.data_off - 0)
          (region b.mem b.data_off (b.tail_off - b.data_off)) (omega (arith, length-contents sd v))
          (omega (arith, v.tail_le, v.end_le));
    end_same = refl;
  }

  Same-refl : (b : Buf) → IsBuf sd b → Same sd b b
  Same-refl b v = record { is = v; bytes_same = refl; end_same = refl }

  Same-trans : {b c d : Buf} → Same sd b c → Same sd c d → Same sd b d
  Same-trans p q = record {
    is = q.is;
    bytes_same = q.bytes_same ∙ p.bytes_same;
    end_same = q.end_same ∙ p.end_same;
  }

  should_move-pos :
      (l : BufList) (b : Buf) (is_tail : Bool) (len : ℕ)
      → should_move l b is_tail len ≡ true
      → b.data_off ≡ 0
      → ⊥
  unfolding should_move
  should_move-pos l b is_tail len h e = elim (Bool-cases (b.data_off == 0)) [
    | inl front ↦ let bad : false ≡ true = rw front at h in cc
    | inr later ↦ ==→ne _ _ later e
  ]

  squeeze-Same :
      (is_read : Bool) (l : BufList) (b : Buf) (is_tail : Bool) (len : ℕ)
      → IsBuf sd b
      → Same sd b (squeeze sd is_read l b is_tail len)
  unfolding squeeze
  squeeze-Same is_read l b is_tail len v = elim (Bool-cases (should_move l b is_tail len)) [
    | inr stay ↦ rw stay (Same-refl b v)
    | inl moves ↦
        let m = move_data-Same b v (should_move-pos l b is_tail len moves) in
        elim (Bool-cases is_read) [
          | inl reading ↦
              rw (moves, reading) (Same-trans m (fixup_string-Same sd (move_data b) m.is))
          | inr writing ↦ rw (moves, writing) m
        ]
  ]

  -- What `ustream_prepare_buf` does to a list, and what its result says.
  pub record Prepared (l : BufList) (out : Bool × BufList) : Type 0 where
    pub chained : IsChain sd out.1
    pub same : pending out.1 ≡ pending l
    pub data_bytes : out.1.data_bytes ≡ l.data_bytes
    pub room : out.0 ≡ true → HasRoom out.1.rest
    pub refused : out.0 ≡ false → can_alloc out.1 ≡ false

  -- Where `ustream_prepare_buf` allocates: there is no `data_tail`, or it is full and the last.
  abbrev AllocReady : List Buf → List Buf → Type 0
  AllocReady before [] = before ≡ []
  AllocReady before (b ∷ []) = All (IsFull sd) before × IsFull sd b
  AllocReady before (b ∷ c ∷ r) = ⊥

  alloc_default-some :
      (l : BufList)
      → 0 < l.buffer_len
      → can_alloc l ≡ true
      → (b : Buf) × (alloc_default sd l ≡ some (some (add_buf l b))) × IsFresh sd b
  unfolding alloc_default
  alloc_default-some l h can =
      let n = l.buffer_len + terminator sd in
      let (b, got, is, _) =
        init_buf-IsFresh sd (replicate n 0) l.buffer_len h
          (omega (arith, length-replicate {A = ℕ} n 0)) in
      (b, rw (can, got), is)

  with_chain-Prepared :
      (before rest : List Buf) (l : BufList)
      → IsChain sd (with_chain l before rest)
      → AllocReady before rest
      → Yields (Prepared (with_chain l before rest)) (prepare_alloc sd (with_chain l before rest))
  unfolding prepare_alloc add_buf
  with_chain-Prepared before (b ∷ c' ∷ r) l c ready = absurd ready
  with_chain-Prepared (d ∷ before) [] l c ready = cc
  with_chain-Prepared [] [] l c ready = elim (Bool-cases (can_alloc (with_chain l [] []))) [
    | inr full ↦ rw full (record {
      chained = c;
      same = refl;
      data_bytes = refl;
      room = λ e. cc;
      refused = λ e. full;
    })
    | inl can ↦
        let (buf, got, is) = alloc_default-some (with_chain l [] []) c.buffer_len can in
        rw (can, got)
          (record {
            chained = record {
              chain = (tt, is.0, tt);
              count = omega (arith, c.count);
              buffer_len = c.buffer_len;
            };
            same = rw (contents-fresh buf is.1);
            data_bytes = refl;
            room = λ e. omega (arith, is.0.nonempty, is.1);
            refused = λ e. cc;
          })
  ]
  with_chain-Prepared before (b ∷ []) l c ready =
      elim (Bool-cases (can_alloc (with_chain l before (b ∷ [])))) [
        | inr full ↦ rw full (record {
          chained = c;
          same = refl;
          data_bytes = refl;
          room = λ e. cc;
          refused = λ e. full;
        })
        | inl can ↦
            let (buf, got, is) =
              alloc_default-some (with_chain l before (b ∷ [])) c.buffer_len can in
            rw (can, got)
              (record {
                chained = record {
                  chain = (All-append (IsFull sd) before (b ∷ []) ready.0 (ready.1, tt), is.0, tt);
                  count = omega (arith, c.count, length-append before (b ∷ []));
                  buffer_len = c.buffer_len;
                };
                same = simp (contents-fresh buf is.1, bytes-append before (b ∷ []), append-nil);
                data_bytes = refl;
                room = λ e. omega (arith, is.0.nonempty, is.1);
                refused = λ e. cc;
              })
      ]

  prepare_alloc-Prepared :
      (l : BufList)
      → IsChain sd l
      → AllocReady l.before l.rest
      → Yields (Prepared l) (prepare_alloc sd l)
  prepare_alloc-Prepared l = with_chain-Prepared l.before l.rest l

  -- The same for a list that holds the same bytes.
  Prepared-same :
      (l l' : BufList) (o : Option (Bool × BufList))
      → pending l' ≡ pending l
      → l'.data_bytes ≡ l.data_bytes
      → Yields (Prepared l') o
      → Yields (Prepared l) o
  Prepared-same l l' none e f p = p
  Prepared-same l l' (some out) e f p = record {
    chained = p.chained;
    same = p.same ∙ e;
    data_bytes = p.data_bytes ∙ f;
    room = p.room;
    refused = p.refused;
  }

  prepare_chain-Prepared :
      (before rest : List Buf) (is_read : Bool) (l : BufList) (len : ℕ)
      → IsChain sd (with_chain l before rest)
      → Yields
          (Prepared (with_chain l before rest))
          (prepare_buf sd is_read (with_chain l before rest) len)
  unfolding prepare_buf
  prepare_chain-Prepared before [] is_read l len c =
      prepare_alloc-Prepared (with_chain l before []) c c.chain
  prepare_chain-Prepared before (b ∷ []) is_read l len c =
      let same = squeeze-Same is_read (with_chain l before (b ∷ [])) b true len c.chain.1 in
      let b' = squeeze sd is_read (with_chain l before (b ∷ [])) b true len in
      let c' : IsChain sd (with_chain l before (b' ∷ [])) = record {
        chain = (c.chain.0, same.is, tt);
        count = c.count;
        buffer_len = c.buffer_len;
      } in
      let bytes_same : pending (with_chain l before (b' ∷ []))
          ≡ pending (with_chain l before (b ∷ [])) =
        rw same.bytes_same in
      elim (Bool-cases (b'.tail_off == b'.end_off)) [
        | inl full ↦ rw full (
            Prepared-same (with_chain l before (b ∷ [])) (with_chain l before (b' ∷ [])) _
              bytes_same refl
              (prepare_alloc-Prepared (with_chain l before (b' ∷ [])) c'
                (c.chain.0, (same.is, ==→eq _ _ full))))
        | inr roomy ↦ rw roomy (record {
          chained = c';
          same = bytes_same;
          data_bytes = refl;
          room = λ e. omega (tests, same.is.tail_le);
          refused = λ e. cc;
        })
      ]
  prepare_chain-Prepared before (b ∷ d ∷ r) is_read l len c =
      let same = squeeze-Same is_read (with_chain l before (b ∷ d ∷ r)) b false len c.chain.1 in
      let b' = squeeze sd is_read (with_chain l before (b ∷ d ∷ r)) b false len in
      elim (Bool-cases (b'.tail_off == b'.end_off)) [
        | inl full ↦ rw full (record {
          chained = record {
            chain = (
              All-append (IsFull sd) before (b' ∷ []) c.chain.0 ((same.is, ==→eq _ _ full), tt),
              c.chain.2.0.0,
              c.chain.2.1,
            );
            count = omega (arith, c.count, length-append before (b' ∷ []));
            buffer_len = c.buffer_len;
          };
          same =
              rw (bytes-append before (b' ∷ []), same.bytes_same) (simp (append-nil, append_assoc));
          data_bytes = refl;
          room = λ e. omega (arith, c.chain.2.0.0.nonempty, c.chain.2.0.1);
          refused = λ e. cc;
        })
        | inr roomy ↦ rw roomy (record {
          chained = record {
            chain = (c.chain.0, same.is, c.chain.2);
            count = c.count;
            buffer_len = c.buffer_len;
          };
          same = rw same.bytes_same;
          data_bytes = refl;
          room = λ e. omega (tests, same.is.tail_le);
          refused = λ e. cc;
        })
      ]

  -- `ustream_prepare_buf` does not abort and keeps the invariant, the bytes and their count. If it
  -- returns true then `data_tail` has room; it returns false only where no buffer may be allocated.
  pub prepare_buf-Prepared :
      (is_read : Bool) (l : BufList) (len : ℕ)
      → IsChain sd l
      → Yields (Prepared l) (prepare_buf sd is_read l len)
  prepare_buf-Prepared is_read l len = prepare_chain-Prepared l.before l.rest is_read l len

-- ===== src/Ustream/Consume.antt =====
-- `ustream_consume` (ustream.c), at the front of the read side.
use libubox.Base.{
  ℕ, zero, suc, ◌+◌, ◌-◌, ◌≤◌, ◌<◌, ◌≡◌, ◌⊎◌, inl, inr, refl, sym, ap, ◌∙◌, Bool, true, false,
  Option, none, some, List, [], ◌∷◌, ◌++◌, append_assoc, arith, ltb, ◌==◌, if◌then◌else◌, ge→ltb,
  ==→eq, tests, Yields, Bool-cases, Option-cases, length, drop, length-append, length-drop,
  drop-append_le, drop-append_ge,
}
use libubox.Base.Bytes.{drop-region}
use libubox.Ustream.{Buf, BufList, Ustream, free_buf, set_blocked}
use libubox.Ustream.Invariant.{
  contents, bytes, pending, IsBuf, Chain, IsChain, IsList, length-contents, Freed, free_buf-Freed,
  with_chain,
}

-- The first buffer of the chain, and its replacement.
abbrev pub head_buf : BufList → Option Buf
head_buf l = elim l.before [ b ∷ bs ↦ some b | [] ↦ elim l.rest [ b ∷ bs ↦ some b | [] ↦ none ] ]

abbrev pub set_head_buf : BufList → Buf → BufList
set_head_buf l b = elim l.before [
  | c ∷ bs ↦ record l { before = b ∷ bs }
  | [] ↦ elim l.rest [ c ∷ bs ↦ record l { rest = b ∷ bs } | [] ↦ l ]
]

-- The loop of `ustream_consume`. Before each round `buf` is the head of the list, and `n` counts
-- the buffers from it to the end of the chain: at `zero` it is NULL, and reading it is a fault.
pub consume_loop : ℕ → ℕ → BufList → Option BufList
consume_loop zero len l = none
consume_loop (suc n) len l = elim (head_buf l) [
  | none ↦ none
  | some buf ↦
      let buf_len = buf.tail_off - buf.data_off in
      elim (ltb len buf_len) [
        | true ↦ some (set_head_buf l (record buf { data_off = buf.data_off + len }))
        | false ↦ elim (free_buf l buf) [
          | none ↦ none
          | some l' ↦ elim (len - buf_len == 0) [
            | true ↦ some l'
            | false ↦ consume_loop n (len - buf_len) l'
          ]
        ]
      ]
]

-- `ustream_consume`. A negative count of bytes is an `abort()`, here `none`.
unfoldable pub consume : Ustream → ℕ → Option Ustream
unfolding consume_loop set_blocked
consume s len =
    if len == 0
    then some s
    else if ltb s.r.data_bytes len
    then none
    else elim (consume_loop (length s.r.before + length s.r.rest) len
        (record s.r { data_bytes = s.r.data_bytes - len })) [
          | none ↦ none
          | some r ↦ some (set_blocked (record s { r = r }) s.blocked_user false)
        ]

module _ (sd : Bool) where
  -- The data of the head, less its first bytes, is the data of the chain, less those.
  pub record Advanced (len : ℕ) (l l' : BufList) : Type 0 where
    pub chained : IsChain sd l'
    pub bytes_left : pending l' ≡ drop len (pending l)
    pub data_bytes : l'.data_bytes ≡ l.data_bytes

  IsBuf-advance :
      {b : Buf} (len : ℕ)
      → IsBuf sd b
      → len < b.tail_off - b.data_off
      → IsBuf sd (record b { data_off = b.data_off + len })
  IsBuf-advance len v h = record {
    data_le = omega arith;
    tail_le = v.tail_le;
    end_le = v.end_le;
    nonempty = v.nonempty;
    used = inr (omega arith);
  }

  contents-advance :
      (b : Buf) (len : ℕ)
      → IsBuf sd b
      → len < b.tail_off - b.data_off
      → contents (record b { data_off = b.data_off + len }) ≡ drop len (contents b)
  contents-advance b len v h =
      sym (drop-region b.mem b.data_off (b.tail_off - b.data_off) len _ _ refl (omega arith))

  -- The head of a chain, with what the invariant says of it.
  pub head_buf-cases :
      (before rest : List Buf) (l : BufList)
      → Chain sd before rest
      → ((before ≡ []) × (rest ≡ []))
        ⊎ ((b : Buf) × (more : List Buf) × (before ++ rest ≡ b ∷ more)
            × IsBuf sd b
            × (head_buf (with_chain l before rest) ≡ some b))
  head_buf-cases [] [] l h = inl (refl, refl)
  head_buf-cases (c ∷ bs) [] l h = cc
  head_buf-cases [] (c ∷ r) l h = inr (c, r, refl, h.1, refl)
  head_buf-cases (c ∷ bs) (d ∷ r) l h = inr (c, bs ++ (d ∷ r), refl, h.0.0.0, refl)

  with_chain-Advanced :
      (before rest : List Buf) (b : Buf) (more : List Buf) (l : BufList) (len : ℕ)
      → IsChain sd (with_chain l before rest)
      → IsBuf sd b
      → before ++ rest ≡ b ∷ more
      → len < b.tail_off - b.data_off
      → Advanced len
          (with_chain l before rest)
          (set_head_buf (with_chain l before rest) (record b { data_off = b.data_off + len }))
  with_chain-Advanced [] [] b more l len c v e h = cc
  with_chain-Advanced (d ∷ bs) [] b more l len c v e h = cc
  with_chain-Advanced [] (d ∷ r) b more l len c v e h =
      let q : d ≡ b = cc in
      record {
        chained = record {
          chain = (tt, IsBuf-advance len v h, c.chain.2);
          count = c.count;
          buffer_len = c.buffer_len;
        };
        bytes_left =
            rw (q, contents-advance b len v h)
              (sym
                (drop-append_le len (contents b) (bytes r) (omega (arith, length-contents sd v))));
        data_bytes = refl;
      }
  with_chain-Advanced (d ∷ bs) (d' ∷ r) b more l len c v e h =
      let q : d ≡ b = cc in
      let full : d.tail_off ≡ d.end_off = c.chain.0.0.1 in
      record {
        chained = record {
          chain = (((IsBuf-advance len v h, rw q at full), c.chain.0.1), c.chain.1, c.chain.2);
          count = c.count;
          buffer_len = c.buffer_len;
        };
        bytes_left =
            rw (q, contents-advance b len v h, append_assoc)
              (rw append_assoc (
                sym (
                  drop-append_le len (contents b) (bytes bs ++ bytes (d' ∷ r))
                    (omega (arith, length-contents sd v)))));
        data_bytes = refl;
      }

  pub pending-nil : (l : BufList) → (l.before ≡ []) × (l.rest ≡ []) → pending l ≡ []
  pending-nil l (e, f) = rw (e, f)

  -- Once the head is freed, what is taken from the rest is what is left to take.
  Freed-Advanced :
      (l l' l'' : BufList) (b : Buf) (len k : ℕ)
      → Freed sd b l l'
      → IsBuf sd b
      → b.tail_off - b.data_off ≤ len
      → k ≡ len - (b.tail_off - b.data_off)
      → Advanced k l' l''
      → Advanced len l l''
  Freed-Advanced l l' l'' b len k f v h e a = record {
    chained = a.chained;
    bytes_left =
        a.bytes_left
        ∙ ap (λ t. drop t (pending l')) (omega (arith, length-contents sd v))
        ∙ sym (drop-append_ge len (contents b) (pending l') (omega (arith, length-contents sd v)))
        ∙ ap (drop len) (sym f.bytes_left);
    data_bytes = a.data_bytes ∙ f.data_bytes;
  }

  Advanced-zero : (l : BufList) → IsChain sd l → Advanced 0 l l
  Advanced-zero l c = record { chained = c; bytes_left = refl; data_bytes = refl }

  Yields-mono :
      {P Q : BufList → Type 0} (o : Option BufList)
      → ((l : BufList) → P l → Q l)
      → Yields P o
      → Yields Q o
  Yields-mono none weaken p = p
  Yields-mono (some l) weaken p = weaken l p

  consume_loop-Advanced :
      (n len : ℕ) (l : BufList)
      → IsChain sd l
      → length l.before < n
      → 0 < len
      → len ≤ length (pending l)
      → Yields (Advanced len l) (consume_loop n len l)
  unfolding consume_loop
  consume_loop-Advanced zero len l c fuel some_len enough = absurd (omega arith)
  consume_loop-Advanced (suc n) len l c fuel some_len enough =
      elim (head_buf-cases l.before l.rest l c.chain) [
        | inl empty ↦ absurd (omega (arith, ap length (pending-nil l empty)))
        | inr (b, more, e, v, hd) ↦
            rw (hd, consume_loop, Yields)
              (elim (Bool-cases (ltb len (b.tail_off - b.data_off))) [
                | inl part ↦
                    rw part (with_chain-Advanced l.before l.rest b more l len c v e (omega tests))
                | inr whole ↦ rw whole (elim (Option-cases (free_buf l b)) [
                  | inl bad ↦ absurd (rw bad at (free_buf-Freed sd l b more c v e))
                  | inr (l', got) ↦ rw got (
                      let f : Freed sd b l l' = rw got at (free_buf-Freed sd l b more c v e) in
                      let total : length (pending l) ≡ length (contents b) + length (pending l') =
                        ap length f.bytes_left ∙ length-append (contents b) (pending l') in
                      elim (Bool-cases (len - (b.tail_off - b.data_off) == 0)) [
                        | inl done ↦ rw done (
                            Freed-Advanced l l' l' b len 0 f v (omega tests) (sym (==→eq _ _ done))
                              (Advanced-zero l' f.chained))
                        | inr more_left ↦ rw more_left (
                            Yields-mono _
                              (λ l''. Freed-Advanced l l' l'' b len _ f v (omega tests) refl)
                              (consume_loop-Advanced n (len - (b.tail_off - b.data_off)) l'
                                f.chained
                                (elim f.shorter [
                                  | inl less ↦ omega arith
                                  | inr none_left ↦
                                      absurd
                                        (omega (tests, ap length none_left, length-contents sd v))
                                ])
                                (omega tests) (omega (tests, length-contents sd v))))
                      ])
                ])
              ])
      ]

  pub set_head_buf-Advanced :
      (l : BufList) (b : Buf) (more : List Buf) (len : ℕ)
      → IsChain sd l
      → IsBuf sd b
      → l.before ++ l.rest ≡ b ∷ more
      → len < b.tail_off - b.data_off
      → Advanced len l (set_head_buf l (record b { data_off = b.data_off + len }))
  set_head_buf-Advanced l b more len c v e h =
      with_chain-Advanced l.before l.rest b more l len c v e h

  -- What `ustream_consume` of `len` bytes does to a stream.
  pub record Consumed (len : ℕ) (s s' : Ustream) : Type 0 where
    pub valid : IsList sd s'.r
    pub bytes_left : pending s'.r ≡ drop len (pending s.r)
    pub write_side : s'.w ≡ s.w
    pub unblocked : s'.blocked_full ≡ (if len == 0 then s.blocked_full else false)
    pub user : s'.blocked_user ≡ s.blocked_user

  pub Advanced-IsList :
      (len : ℕ) (l l' : BufList)
      → IsList sd l
      → len ≤ l.data_bytes
      → Advanced len (record l { data_bytes = l.data_bytes - len }) l'
      → IsList sd l'
  Advanced-IsList len l l' v h a = record {
    chained = a.chained;
    total =
        omega (arith, v.total, a.data_bytes, ap length a.bytes_left, length-drop len (pending l));
  }

  consume-some :
      (s : Ustream) (len : ℕ) (r : BufList)
      → (len == 0) ≡ false
      → ltb s.r.data_bytes len ≡ false
      → consume_loop
          (length s.r.before + length s.r.rest)
          len
          (record s.r { data_bytes = s.r.data_bytes - len })
        ≡ some r
      → consume s len ≡ some (set_blocked (record s { r = r }) s.blocked_user false)
  unfolding consume
  consume-some s len r e f g = rw (e, f, g)

  blocks-enough :
      (before rest : List Buf)
      → Chain sd before rest
      → 0 < length (bytes before ++ bytes rest)
      → length before < length before + length rest
  blocks-enough before [] c h = let none_left : 1 ≤ 0 = rw c at h in absurd (omega arith)
  blocks-enough before (b ∷ r) c h = omega arith

  -- `ustream_consume` of no more bytes than are buffered neither aborts nor reads a NULL buffer. It
  -- removes exactly the first `len` bytes, keeps the invariant of the read side and the write side,
  -- and, unless `len` is zero, takes back the block that a full buffer had set.
  pub consume-Consumed :
      (s : Ustream) (len : ℕ)
      → IsList sd s.r
      → len ≤ s.r.data_bytes
      → Yields (Consumed len s) (consume s len)
  unfolding consume
  consume-Consumed s len v h = elim (Bool-cases (len == 0)) [
    | inl none_asked ↦ rw none_asked (record {
      valid = v;
      bytes_left = let e : len ≡ 0 = omega tests in rw e;
      write_side = refl;
      unblocked = rw none_asked;
      user = refl;
    })
    | inr some_asked ↦
        let l = record s.r { data_bytes = s.r.data_bytes - len } in
        let ran : Yields (Advanced len l)
            (consume_loop (length s.r.before + length s.r.rest) len l) =
          consume_loop-Advanced (length s.r.before + length s.r.rest) len l
            (record {
              chain = v.chained.chain;
              count = v.chained.count;
              buffer_len = v.chained.buffer_len;
            })
            (blocks-enough s.r.before s.r.rest v.chained.chain (omega (tests, v.total)))
            (omega tests) (omega (arith, v.total)) in
        elim (Option-cases (consume_loop (length s.r.before + length s.r.rest) len l)) [
          | inl bad ↦ absurd (rw bad at ran)
          | inr (r, got) ↦
              let a : Advanced len l r = rw got at ran in
              rw (consume-some s len r some_asked (ge→ltb _ _ h) got) (record {
                valid = Advanced-IsList len s.r r v h a;
                bytes_left = a.bytes_left;
                write_side = refl;
                unblocked = rw some_asked;
                user = refl;
              })
        ]
  ]

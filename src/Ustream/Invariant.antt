-- ===== src/Ustream/Invariant.antt =====
-- The representation invariant of a buffer list (ustream.c), and what it holds as a queue of bytes.
use libubox.Base.{
  ℕ, suc, ◌+◌, ◌-◌, ◌≤◌, ◌<◌, ◌≡◌, ◌⊎◌, inl, inr, refl, sym, ap, ◌∙◌, Bool, some, List, [], ◌∷◌,
  ◌++◌, append-nil, append_assoc, arith, leb, Yields, Bool-cases, length, All, length-append,
  All-append,
}
use libubox.Base.Bytes.{region, write_at, length-write_at, length-region}
use libubox.Ustream.{Buf, BufList, init_buf, add_buf, terminator, unlink_head, free_buf}

-- The bytes of a buffer that are to be read, and those of a chain.
abbrev pub contents : Buf → List ℕ
contents b = region b.mem b.data_off (b.tail_off - b.data_off)

abbrev pub bytes : List Buf → List ℕ
bytes [] = []
bytes (b ∷ bs) = contents b ++ bytes bs

-- What a list holds: the abstract view of a side of the stream is a queue of bytes.
abbrev pub pending : BufList → List ℕ
pending l = bytes l.before ++ bytes l.rest

pub bytes-append : (xs ys : List Buf) → bytes (xs ++ ys) ≡ bytes xs ++ bytes ys
bytes-append [] ys = refl
bytes-append (b ∷ xs) ys = rw (bytes-append xs ys, append_assoc)

pub contents-fresh : (b : Buf) → b.tail_off ≡ 0 → contents b ≡ []
contents-fresh b e = let e' : b.tail_off - b.data_off ≡ 0 = omega arith in rw e'

-- The same list with another chain. A list is `with_chain` of its own chain, by computation.
abbrev pub with_chain : BufList → List Buf → List Buf → BufList
with_chain l before rest = record l { before = before; rest = rest }

module _ (sd : Bool) where
  -- The offsets lie in the memory, and a buffer without data has never been filled.
  pub record IsBuf (b : Buf) : Type 0 where
    pub data_le : b.data_off ≤ b.tail_off
    pub tail_le : b.tail_off ≤ b.end_off
    pub end_le : b.end_off + terminator sd ≤ length b.mem
    pub nonempty : 0 < b.end_off
    pub used : (b.tail_off ≡ 0) ⊎ (b.data_off < b.tail_off)

  abbrev pub IsFull : Buf → Type 0
  IsFull b = IsBuf b × (b.tail_off ≡ b.end_off)

  abbrev pub IsFresh : Buf → Type 0
  IsFresh b = IsBuf b × (b.tail_off ≡ 0)

  -- Buffers ahead of `data_tail` are full, and buffers behind it have no data.
  abbrev pub Chain : List Buf → List Buf → Type 0
  Chain before [] = before ≡ []
  Chain before (b ∷ r) = All IsFull before × IsBuf b × All IsFresh r

  pub record IsChain (l : BufList) : Type 0 where
    pub chain : Chain l.before l.rest
    pub count : l.buffers ≡ length l.before + length l.rest
    pub buffer_len : 0 < l.buffer_len

  -- The invariant of a side of the stream.
  pub record IsList (l : BufList) : Type 0 where
    pub chained : IsChain l
    pub total : l.data_bytes ≡ length (pending l)

  pub length-contents : {b : Buf} → IsBuf b → length (contents b) ≡ b.tail_off - b.data_off
  length-contents {b} v = length-region b.mem b.data_off (b.tail_off - b.data_off) (omega arith)

  pub bytes-fresh : (r : List Buf) → All IsFresh r → bytes r ≡ []
  bytes-fresh [] h = refl
  bytes-fresh (b ∷ r) h = rw (contents-fresh b h.0.1, bytes-fresh r h.1)

  pub write_at-IsFresh :
      (mem : List ℕ) (len : ℕ)
      → 0 < len
      → len + terminator sd ≤ length mem
      → IsFresh
          (record { mem = write_at mem 0 (0 ∷ []); data_off = 0; tail_off = 0; end_off = len })
  write_at-IsFresh mem len h k = (
    record {
      data_le = omega arith;
      tail_le = omega arith;
      end_le = omega (arith, length-write_at mem 0 (0 ∷ []));
      nonempty = h;
      used = inl refl;
    },
    refl,
  )

  -- `ustream_init_buf` does not abort on a positive length, and gives a buffer with no data.
  pub init_buf-IsFresh :
      (mem : List ℕ) (len : ℕ)
      → 0 < len
      → len + terminator sd ≤ length mem
      → (b : Buf) × (init_buf mem len ≡ some b) × IsFresh b × (b.end_off ≡ len)
  unfolding init_buf
  init_buf-IsFresh mem len h k = (_, ground arith, write_at-IsFresh mem len h k, refl)

  -- `ustream_add_buf` of a buffer with no data.
  pub record Added (l l' : BufList) : Type 0 where
    pub chain : Chain l'.before l'.rest
    pub same : pending l' ≡ pending l
    pub count : length l'.before + length l'.rest ≡ length l.before + length l.rest + 1
    pub ahead : length l'.before ≤ length l.before
    pub buffers : l'.buffers ≡ l.buffers + 1
    pub data_bytes : l'.data_bytes ≡ l.data_bytes
    pub buffer_len : l'.buffer_len ≡ l.buffer_len

  with_chain-Added :
      (before rest : List Buf) (buf : Buf) (l : BufList)
      → Chain before rest
      → IsFresh buf
      → Added (with_chain l before rest) (add_buf (with_chain l before rest) buf)
  unfolding add_buf
  with_chain-Added before [] buf l h g = record {
    chain = rw h (tt, g.0, tt);
    same = rw (h, contents-fresh buf g.1);
    count = rw h (omega arith);
    ahead = omega arith;
    buffers = refl;
    data_bytes = refl;
    buffer_len = refl;
  }
  with_chain-Added before (c ∷ r) buf l h g = record {
    chain = (h.0, h.1, All-append IsFresh r (buf ∷ []) h.2 (g, tt));
    same = rw (bytes-append r (buf ∷ []), contents-fresh buf g.1, append-nil);
    count = omega (arith, length-append r (buf ∷ []));
    ahead = omega arith;
    buffers = refl;
    data_bytes = refl;
    buffer_len = refl;
  }

  pub add_buf-Added :
      (l : BufList) (buf : Buf) → Chain l.before l.rest → IsFresh buf → Added l (add_buf l buf)
  add_buf-Added l buf = with_chain-Added l.before l.rest buf l

  -- What is left once the head `b` is unlinked.
  pub record Unlinked (b : Buf) (l l' : BufList) : Type 0 where
    pub chain : Chain l'.before l'.rest
    pub bytes_left : pending l ≡ contents b ++ pending l'
    pub count : length l.before + length l.rest ≡ suc (length l'.before + length l'.rest)
    pub shorter : (length l'.before < length l.before) ⊎ (pending l' ≡ [])
    pub data_bytes : l'.data_bytes ≡ l.data_bytes
    pub buffer_len : l'.buffer_len ≡ l.buffer_len
    pub buffers : l'.buffers ≡ l.buffers - 1

  Chain-fresh : (r : List Buf) → All IsFresh r → Chain [] r
  Chain-fresh [] h = refl
  Chain-fresh (b ∷ r) h = (tt, h.0.0, h.1)

  with_chain-Unlinked :
      (before rest : List Buf) (b : Buf) (more : List Buf) (l : BufList)
      → Chain before rest
      → before ++ rest ≡ b ∷ more
      → Unlinked b (with_chain l before rest) (unlink_head (with_chain l before rest))
  with_chain-Unlinked [] [] b more l h e = cc
  with_chain-Unlinked (c ∷ bs) [] b more l h e = cc
  with_chain-Unlinked [] (c ∷ r) b more l h e = record {
    chain = Chain-fresh r h.2;
    bytes_left = let q : c ≡ b = cc in rw q;
    count = omega arith;
    shorter = inr (bytes-fresh r h.2);
    data_bytes = refl;
    buffer_len = refl;
    buffers = refl;
  }
  with_chain-Unlinked (c ∷ bs) (d ∷ r) b more l h e = record {
    chain = (h.0.1, h.1, h.2);
    bytes_left = let q : c ≡ b = cc in rw (q, append_assoc);
    count = omega arith;
    shorter = inl (omega arith);
    data_bytes = refl;
    buffer_len = refl;
    buffers = refl;
  }

  pub unlink_head-Unlinked :
      (l : BufList) (b : Buf) (more : List Buf)
      → Chain l.before l.rest
      → l.before ++ l.rest ≡ b ∷ more
      → Unlinked b l (unlink_head l)
  unlink_head-Unlinked l b more = with_chain-Unlinked l.before l.rest b more l

  -- What `ustream_free_buf` leaves: the list without the bytes of the buffer.
  pub record Freed (b : Buf) (l l' : BufList) : Type 0 where
    pub chained : IsChain l'
    pub bytes_left : pending l ≡ contents b ++ pending l'
    pub shorter : (length l'.before < length l.before) ⊎ (pending l' ≡ [])
    pub data_bytes : l'.data_bytes ≡ l.data_bytes

  -- `ustream_free_buf` of the head does not abort. It drops the bytes of that buffer, and keeps the
  -- chain well formed whether it frees the buffer or appends it again.
  pub free_buf-Freed :
      (l : BufList) (b : Buf) (more : List Buf)
      → IsChain l
      → IsBuf b
      → l.before ++ l.rest ≡ b ∷ more
      → Yields (Freed b l) (free_buf l b)
  unfolding free_buf
  free_buf-Freed l b more c v e =
      let u = unlink_head-Unlinked l b more c.chain e in
      elim (Bool-cases (leb l.min_buffers (unlink_head l).buffers)) [
        | inl keep ↦ rw keep (record {
          chained = record {
            chain = u.chain;
            count = omega (arith, u.count, u.buffers, c.count);
            buffer_len = omega (arith, u.buffer_len, c.buffer_len);
          };
          bytes_left = u.bytes_left;
          shorter = u.shorter;
          data_bytes = u.data_bytes;
        })
        | inr recycle ↦
            let (fresh, got, is, same_end) = init_buf-IsFresh b.mem b.end_off v.nonempty v.end_le in
            let a = add_buf-Added (unlink_head l) fresh u.chain is in
            rw (recycle, got)
              (record {
                chained = record {
                  chain = a.chain;
                  count = omega (arith, a.count, a.buffers, u.count, u.buffers, c.count);
                  buffer_len = omega (arith, a.buffer_len, u.buffer_len, c.buffer_len);
                };
                bytes_left = u.bytes_left ∙ ap (λ t. contents b ++ t) (sym a.same);
                shorter = elim u.shorter [
                  | inl less ↦ inl (omega (arith, a.ahead))
                  | inr none_left ↦ inr (a.same ∙ none_left)
                ];
                data_bytes = a.data_bytes ∙ u.data_bytes;
              })
      ]

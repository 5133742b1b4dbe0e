-- ===== src/Ustream/Read.antt =====
-- The read side of a stream (ustream.c): what a reader gets.
use libubox.Base.{
  ℕ, zero, suc, ◌+◌, ◌-◌, ◌<◌, ◌≡◌, ◌⊎◌, inl, inr, refl, sym, ap, ◌∙◌, Bool, true, false, Option,
  none, some, List, [], ◌∷◌, ◌++◌, append-nil, append_assoc, arith, ltb, if◌then◌else◌, lt→ltb,
  tests, Yields, Bool-cases, Option-cases, length, take, drop, length-append, length-take, take_all,
  drop_all, take-append_le, take-add, drop-drop, min,
}
use libubox.Ustream.{Buf, BufList, Ustream}
use libubox.Ustream.Invariant.{
  contents, bytes, pending, contents-fresh, IsBuf, Chain, IsList, length-contents, bytes-fresh,
  with_chain,
}
use libubox.Ustream.Consume.{head_buf, consume, Consumed, consume-Consumed}

-- `ustream_get_read_buf`: the data of the first buffer, if it has any.
unfoldable pub get_read_buf : BufList → Option (List ℕ)
get_read_buf l = elim (head_buf l) [
  | none ↦ none
  | some b ↦ if ltb 0 (b.tail_off - b.data_off) then some (contents b) else none
]

-- The loop of `ustream_read`; `out` is what has been copied. `none` is a fault, or fuel that ran out.
pub read_loop : ℕ → Ustream → ℕ → List ℕ → Option (Ustream × List ℕ)
read_loop zero s buflen out = none
read_loop (suc n) s buflen out = elim (get_read_buf s.r) [
  | none ↦ some (s, out)
  | some chunk ↦
      let chunk_len = min (length chunk) (buflen - length out) in
      elim (consume s chunk_len) [
        | none ↦ none
        | some s' ↦
            let out' = out ++ take chunk_len chunk in
            elim (ltb (length out') buflen) [
              | true ↦ read_loop n s' buflen out'
              | false ↦ some (s', out')
            ]
      ]
]

-- `ustream_read`. Each round but the last copies a byte, so `buflen + 1` rounds are enough.
unfoldable pub read : Ustream → ℕ → Option (Ustream × List ℕ)
unfolding read_loop
read s buflen = read_loop (buflen + 1) s buflen []

module _ (sd : Bool) where
  -- What `ustream_get_read_buf` returns is nothing if there is no data, and else a prefix of it.
  record Chunk (l : BufList) (chunk : List ℕ) : Type 0 where
    got : get_read_buf l ≡ some chunk
    more : List ℕ
    prefix : pending l ≡ chunk ++ more
    some_bytes : 0 < length chunk

  with_chain-Chunk :
      (before rest : List Buf) (l : BufList)
      → Chain sd before rest
      → ((get_read_buf (with_chain l before rest) ≡ none)
          × (pending (with_chain l before rest) ≡ []))
        ⊎ ((chunk : List ℕ) × Chunk (with_chain l before rest) chunk)
  unfolding get_read_buf
  with_chain-Chunk [] [] l c = inl (refl, refl)
  with_chain-Chunk (b ∷ bs) [] l c = cc
  with_chain-Chunk [] (b ∷ r) l c = elim (Bool-cases (ltb 0 (b.tail_off - b.data_off))) [
    | inl some_data ↦ inr (
      contents b,
      record {
        got = rw some_data;
        more = bytes r;
        prefix = refl;
        some_bytes = omega (tests, length-contents sd c.1);
      },
    )
    | inr no_data ↦
        let e : b.tail_off ≡ 0 = omega (tests, c.1.data_le, c.1.used) in
        inl (rw no_data, rw (contents-fresh b e, bytes-fresh sd r c.2))
  ]
  with_chain-Chunk (b ∷ bs) (d ∷ r) l c =
      let v : IsBuf sd b = c.0.0.0 in
      let some_data : 0 < b.tail_off - b.data_off = omega (arith, c.0.0.1, v.nonempty, v.used) in
      inr (
        contents b,
        record {
          got = rw (lt→ltb _ _ some_data);
          more = bytes bs ++ bytes (d ∷ r);
          prefix = append_assoc (contents b) (bytes bs) (bytes (d ∷ r));
          some_bytes = omega (arith, length-contents sd v);
        },
      )

  get_read_buf-Chunk :
      (l : BufList)
      → Chain sd l.before l.rest
      → ((get_read_buf l ≡ none) × (pending l ≡ [])) ⊎ ((chunk : List ℕ) × Chunk l chunk)
  get_read_buf-Chunk l = with_chain-Chunk l.before l.rest l

  -- What reading `n` bytes does: `out` grows by the first bytes, and they are removed.
  pub record Taken (n : ℕ) (out : List ℕ) (s : Ustream) (res : Ustream × List ℕ) : Type 0 where
    pub valid : IsList sd res.0.r
    pub copied : res.1 ≡ out ++ take n (pending s.r)
    pub bytes_left : pending res.0.r ≡ drop n (pending s.r)
    pub write_side : res.0.w ≡ s.w

  -- Taking `k` bytes and then `m` is taking `n`.
  Taken-trans :
      (k m n : ℕ) (out chunk : List ℕ) (s s' : Ustream) (o : Option (Ustream × List ℕ))
      → k + m ≡ n
      → chunk ≡ take k (pending s.r)
      → pending s'.r ≡ drop k (pending s.r)
      → s'.w ≡ s.w
      → Yields (Taken m (out ++ chunk) s') o
      → Yields (Taken n out s) o
  Taken-trans k m n out chunk s s' none e c f g t = t
  Taken-trans k m n out chunk s s' (some res) e c f g t = record {
    valid = t.valid;
    copied =
        t.copied
        ∙ rw (f, c)
            (append_assoc out (take k (pending s.r)) (take m (drop k (pending s.r)))
              ∙ ap (λ u. out ++ u) (take-add k m n (pending s.r) e));
    bytes_left = t.bytes_left ∙ rw f (drop-drop k m n (pending s.r) e);
    write_side = t.write_side ∙ g;
  }

  read_loop-Taken :
      (n : ℕ) (s : Ustream) (buflen : ℕ) (out : List ℕ) (want : ℕ)
      → IsList sd s.r
      → length out + want ≡ buflen
      → want < n
      → Yields (Taken want out s) (read_loop n s buflen out)
  unfolding read_loop
  read_loop-Taken zero s buflen out want v e fuel = absurd (omega arith)
  read_loop-Taken (suc n) s buflen out want v e fuel =
      elim (get_read_buf-Chunk s.r v.chained.chain) [
        | inl (nothing, no_bytes) ↦
            rw (nothing, read_loop, Yields)
              (record {
                valid = v;
                copied =
                    rw no_bytes
                      (sym (ap (λ u. out ++ u) (take_all want [] (omega arith)) ∙ append-nil out));
                bytes_left = rw no_bytes (sym (drop_all want [] (omega arith)));
                write_side = refl;
              })
        | inr (chunk, ch) ↦
            let k = min (length chunk) (buflen - length out) in
            let total : length (pending s.r) ≡ length chunk + length ch.more =
              ap length ch.prefix ∙ length-append chunk ch.more in
            let cut : take k chunk ≡ take k (pending s.r) =
              rw ch.prefix (sym (take-append_le k chunk ch.more (omega arith))) in
            let longer : length (out ++ take k chunk) ≡ length out + k =
              omega (arith, length-append out (take k chunk), length-take k chunk) in
            let ran = consume-Consumed sd s k v (omega (arith, v.total, total)) in
            elim (Option-cases (consume s k)) [
              | inl bad ↦ absurd (rw bad at ran)
              | inr (s', got) ↦
                  let d : Consumed sd k s s' = rw got at ran in
                  elim (Bool-cases (ltb (length (out ++ take k chunk)) buflen)) [
                    | inl again ↦
                        rw (ch.got, read_loop, Yields, got, again)
                          (Taken-trans k (want - k) want out (take k chunk) s s' _ (omega arith) cut
                            d.bytes_left d.write_side
                            (read_loop-Taken n s' buflen (out ++ take k chunk) (want - k) d.valid
                              (omega arith) (omega (tests, ch.some_bytes))))
                    | inr enough ↦
                        rw (ch.got, read_loop, Yields, got, enough)
                          (Taken-trans k 0 want out (take k chunk) s s'
                            (some (s', out ++ take k chunk)) (omega tests) cut d.bytes_left
                            d.write_side
                            (record {
                              valid = d.valid;
                              copied = sym (append-nil (out ++ take k chunk));
                              bytes_left = refl;
                              write_side = refl;
                            }))
                  ]
            ]
      ]

  -- `ustream_read` returns, with no fault, the first `buflen` buffered bytes in order, or all of them
  -- if there are fewer. Exactly those bytes leave the buffers, and the write side stays.
  pub read-Taken :
      (s : Ustream) (buflen : ℕ) → IsList sd s.r → Yields (Taken buflen [] s) (read s buflen)
  unfolding read
  read-Taken s buflen v =
      read_loop-Taken (buflen + 1) s buflen [] buflen v (omega arith) (omega arith)

-- ===== src/Ustream/Fill.antt =====
-- Filling the read side (ustream.c): the implementation reserves room, writes into it, and says how much.
use libubox.Base.{
  ℕ, zero, suc, ◌+◌, ◌-◌, ◌≤◌, ◌<◌, ◌≡◌, ◌⊎◌, inl, inr, refl, sym, ap, ◌∙◌, Bool, true, false,
  Option, none, some, List, [], ◌∷◌, ◌++◌, append-nil, append_assoc, arith, ◌==◌, Yields,
  Option-cases, length, length-append, min,
}
use libubox.Base.Bytes.{region, region-append}
use libubox.Ustream.{
  Buf, BufList, notify_read, Ustream, can_alloc, set_blocked, fixup_string, prepare_buf,
}
use libubox.Ustream.Invariant.{
  contents, bytes, pending, IsBuf, Chain, IsList, bytes-fresh, with_chain,
}
use libubox.Ustream.Prepare.{Prepared, prepare_buf-Prepared, fixup_string-Same}

-- The end of `ustream_reserve`, after `ustream_prepare_buf` has returned `ok` and left the list `r`,
-- whose buffers from `data_tail` on are `rest`.
pub reserve_result : Ustream → BufList → Bool → List Buf → Option (Ustream × Option ℕ)
reserve_result s r false rest = some (set_blocked (record s { r = r }) s.blocked_user true, none)
reserve_result s r true [] = none
reserve_result s r true (buf ∷ _) = some (record s { r = r }, some (buf.end_off - buf.tail_off))

-- `ustream_reserve`: the room at `data_tail` (its pointer is `data_tail->tail`), or nothing and a
-- blocked stream.
unfoldable pub reserve : Ustream → ℕ → Option (Ustream × Option ℕ)
unfolding reserve_result
reserve s len = elim (prepare_buf s.string_data true s.r len) [
  | none ↦ none
  | some (ok, r) ↦ reserve_result s r ok r.rest
]

-- The loop of `ustream_fill_read`: it gives the chain with `data_tail` at the last buffer filled.
-- With no buffer left it aborts.
pub fill_loop : Bool → List Buf → List Buf → ℕ → Option (List Buf × List Buf)
fill_loop sd before [] len = none
fill_loop sd before (buf ∷ r) len =
    let maxlen = min len (buf.end_off - buf.tail_off) in
    let buf' = fixup_string sd (record buf { tail_off = buf.tail_off + maxlen }) in
    elim (len - maxlen == 0) [
      | true ↦ some (before, buf' ∷ r)
      | false ↦ fill_loop sd (before ++ (buf' ∷ [])) r (len - maxlen)
    ]

-- `ustream_fill_read`, with the callback `notify_read` set.
unfoldable pub fill_read : Ustream → ℕ → Option Ustream
unfolding fill_loop
fill_read s len = elim (fill_loop s.string_data s.r.before s.r.rest len) [
  | none ↦ none
  | some (before, rest) ↦ some (record s {
    r = record s.r { before = before; rest = rest; data_bytes = s.r.data_bytes + len };
    events = s.events ++ (notify_read len ∷ []);
  })
]

-- What `ustream_reserve` does to a stream, and what it says of the room.
pub record Reserved (s : Ustream) (res : Ustream × Option ℕ) : Type 0 where
  pub valid : IsList s.string_data res.0.r
  pub same : pending res.0.r ≡ pending s.r
  pub write_side : res.0.w ≡ s.w
  pub room :
      ((n : ℕ) × (res.1 ≡ some n) × (0 < n) × (res.0.blocked_full ≡ s.blocked_full))
      ⊎ ((res.1 ≡ none) × (res.0.blocked_full ≡ true) × (can_alloc res.0.r ≡ false))

pub Prepared-IsList :
    (sd : Bool) (l : BufList) (out : Bool × BufList)
    → IsList sd l
    → Prepared sd l out
    → IsList sd out.1
Prepared-IsList sd l out v p = record {
  chained = p.chained;
  total = p.data_bytes ∙ v.total ∙ ap length (sym p.same);
}

reserve_result-Reserved :
    (s : Ustream) (ok : Bool) (rest : List Buf) (r : BufList)
    → IsList s.string_data s.r
    → Prepared s.string_data s.r (ok, with_chain r r.before rest)
    → Yields (Reserved s) (reserve_result s (with_chain r r.before rest) ok rest)
unfolding reserve_result set_blocked
reserve_result-Reserved s false rest r v p = record {
  valid = Prepared-IsList s.string_data s.r _ v p;
  same = p.same;
  write_side = refl;
  room = inr (refl, refl, p.refused refl);
}
reserve_result-Reserved s true [] r v p = absurd (p.room refl)
reserve_result-Reserved s true (buf ∷ more) r v p = record {
  valid = Prepared-IsList s.string_data s.r _ v p;
  same = p.same;
  write_side = refl;
  room = inl (buf.end_off - buf.tail_off, refl, omega (arith, p.room refl), refl);
}

-- `ustream_reserve` keeps the bytes and the invariant. Either it gives a positive room and leaves
-- the full block as it was, or no buffer may be allocated and it sets that block.
pub reserve-Reserved :
    (s : Ustream) (len : ℕ) → IsList s.string_data s.r → Yields (Reserved s) (reserve s len)
unfolding reserve
reserve-Reserved s len v =
    let ran = prepare_buf-Prepared s.string_data true s.r len v.chained in
    elim (Option-cases (prepare_buf s.string_data true s.r len)) [
      | inl bad ↦ absurd (rw bad at ran)
      | inr ((ok, r), got) ↦
          rw (got, Yields, reserve) (reserve_result-Reserved s ok r.rest r v (rw got at ran))
    ]

-- What `ustream_fill_read` does once the implementation has put `bytes` in the room.
pub record Filled (data_in : List ℕ) (s s' : Ustream) : Type 0 where
  pub valid : IsList s.string_data s'.r
  pub appended : pending s'.r ≡ pending s.r ++ data_in
  pub notified : s'.events ≡ s.events ++ (notify_read (length data_in) ∷ [])
  pub write_side : s'.w ≡ s.w

pub extend-bytes :
    (before r : List Buf) (b b' : Buf) (data_in : List ℕ)
    → bytes r ≡ []
    → contents b' ≡ contents b ++ data_in
    → bytes before ++ bytes (b' ∷ r) ≡ bytes before ++ bytes (b ∷ r) ++ data_in
extend-bytes before r b b' data_in h e = simp (h, e, append-nil, append_assoc)

extend-Same :
    (sd : Bool) (b : Buf) (n : ℕ)
    → IsBuf sd b
    → n ≤ b.end_off - b.tail_off
    → IsBuf sd (fixup_string sd (record b { tail_off = b.tail_off + n }))
      × (contents (fixup_string sd (record b { tail_off = b.tail_off + n }))
          ≡ contents b ++ region b.mem b.tail_off n)
extend-Same sd b n v h =
    let w : IsBuf sd (record b { tail_off = b.tail_off + n }) = record {
      data_le = omega (arith, v.data_le);
      tail_le = omega (arith, v.tail_le);
      end_le = v.end_le;
      nonempty = v.nonempty;
      used = elim v.used [
        | inl none_yet ↦ elim n as (λ k. (b.tail_off + k ≡ 0) ⊎ (b.data_off < b.tail_off + k)) [
          | zero ↦ inl (omega (arith, none_yet))
          | suc m ↦ inr (omega (arith, none_yet, v.data_le))
        ]
        | inr some_data ↦ inr (omega arith)
      ];
    } in
    let f = fixup_string-Same sd _ w in
    (
      f.is,
      f.bytes_same
          ∙ sym (
              region-append b.mem b.data_off (b.tail_off - b.data_off) n b.tail_off
                (b.tail_off + n - b.data_off) (omega (arith, v.data_le))
                (omega (arith, v.data_le))),
    )

fill_chain-some :
    (sd : Bool) (before r : List Buf) (b : Buf) (len : ℕ)
    → len ≤ b.end_off - b.tail_off
    → fill_loop sd before (b ∷ r) len
      ≡ some (before, fixup_string sd (record b { tail_off = b.tail_off + len }) ∷ r)
unfolding fill_loop
fill_chain-some sd before r b len h = ground (arith)

-- `ustream_fill_read` of no more bytes than `ustream_reserve` gave does not abort: the bytes that the
-- implementation has put there go behind the buffered ones, the invariant holds, and the reader is
-- notified of their number.
pub fill_read-Filled :
    (s : Ustream) (b : Buf) (r : List Buf) (data_in : List ℕ)
    → IsList s.string_data s.r
    → s.r.rest ≡ b ∷ r
    → length data_in ≤ b.end_off - b.tail_off
    → region b.mem b.tail_off (length data_in) ≡ data_in
    → Yields (Filled data_in s) (fill_read s (length data_in))
unfolding fill_read
fill_read-Filled s b r data_in v e h g =
    let c : Chain s.string_data s.r.before (b ∷ r) = rw e at v.chained.chain in
    let (is, grown) = extend-Same s.string_data b (length data_in) c.1 h in
    let b' = fixup_string s.string_data (record b { tail_off = b.tail_off + length data_in }) in
    let appended : bytes s.r.before ++ bytes (b' ∷ r) ≡ pending s.r ++ data_in =
      extend-bytes s.r.before r b b' data_in (bytes-fresh s.string_data r c.2)
        (grown ∙ ap (λ t. contents b ++ t) g)
      ∙ ap (λ t. bytes s.r.before ++ bytes t ++ data_in) (sym e) in
    let done : fill_loop s.string_data s.r.before s.r.rest (length data_in)
        ≡ some (
          s.r.before,
          fixup_string s.string_data (record b { tail_off = b.tail_off + length data_in }) ∷ r,
        ) =
      rw e (fill_chain-some s.string_data s.r.before r b (length data_in) h) in
    rw (done, fill_read, Yields)
      (record {
        valid = record {
          chained = record {
            chain = (c.0, is, c.2);
            count = omega (arith, v.chained.count, ap length e);
            buffer_len = v.chained.buffer_len;
          };
          total = omega (arith, v.total, ap length appended, length-append (pending s.r) data_in);
        };
        appended = appended;
        notified = refl;
        write_side = refl;
      })

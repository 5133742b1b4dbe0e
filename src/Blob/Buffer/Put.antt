-- ===== src/Blob/Buffer/Put.antt =====
-- What a blob buffer holds: the attributes put into it, in order, after the header of their parent (blob.c).
use libubox.Base.{
  ℕ, ◌+◌, ◌-◌, ◌*◌, ◌/◌, ◌%◌, ◌≤◌, ◌<◌, ◌≡◌, ◌⊎◌, inl, inr, refl, sym, ap, ap₂, ◌∙◌, Bool, Option,
  none, some, List, [], ◌∷◌, ◌++◌, append-nil, append_assoc, arith, ltb, tests, Yields, Bool-cases,
  Option-cases, length, take, drop, replicate, All, length-append, length-take, length-drop,
  length-replicate, All-append,
}
use libubox.Blob.{blob_pad_len, blob_pad_len-raw}
use libubox.Blob.Buffer.{
  BlobBuf, put_be32, load, blob_buffer_grow, init_word, blob_add, link_attr, blob_new, fill_data,
  blob_put,
}
use libubox.Blob.Buffer.Memory.{store-split, load-split, blob_set_raw_len-split, pad, place-split}

-- The format: the header word of an attribute, its bytes, and those of a list of attributes.
abbrev pub attr_word : ℕ → ℕ → ℕ
attr_word id len = id * 16777216 + len

abbrev pub encode_attr : ℕ → List ℕ → List ℕ
encode_attr id src =
    put_be32 (attr_word id (length src + 4)) ++ (src ++ replicate (pad (length src)) 0)

abbrev pub encode : List (ℕ × List ℕ) → List ℕ
encode [] = []
encode ((id, src) ∷ r) = encode_attr id src ++ encode r

-- The space that an attribute takes.
abbrev pub room_of : List ℕ → ℕ
room_of src = 4 + length src + pad (length src)

pub length-encode_attr : (id : ℕ) (src : List ℕ) → length (encode_attr id src) ≡ room_of src
length-encode_attr id src = omega (
  arith,
  length-append src (replicate (pad (length src)) 0),
  length-replicate {A = ℕ} (pad (length src)) 0,
)

pub length-encode : (l : List (ℕ × List ℕ)) → length (encode l) % 4 ≡ 0
length-encode [] = refl
length-encode ((id, src) ∷ r) = omega (
  arith,
  length-append (encode_attr id src) (encode r),
  length-encode_attr id src,
  length-encode r,
)

pub encode-snoc :
    (l : List (ℕ × List ℕ)) (id : ℕ) (src : List ℕ)
    → encode (l ++ ((id, src) ∷ [])) ≡ encode l ++ encode_attr id src
encode-snoc [] id src = append-nil (encode_attr id src)
encode-snoc ((i, s) ∷ r) id src =
    ap (λ t. encode_attr i s ++ t) (encode-snoc r id src)
    ∙ sym (append_assoc (encode_attr i s) (encode r) (encode_attr id src))

-- The head of the buffer stands behind `before`, has the id `id`, and holds the attributes `l`.
pub record Holds (before : List ℕ) (id : ℕ) (l : List (ℕ × List ℕ)) (b : BlobBuf) : Type 0 where
  pub after : List ℕ
  pub buf :
      b.buf ≡ before ++ (put_be32 (attr_word id (length (encode l) + 4)) ++ (encode l ++ after))
  pub head : b.head ≡ some (length before)
  pub aligned_before : length before % 4 ≡ 0
  pub aligned_after : length after % 4 ≡ 0
  pub id_fits : id < 128
  pub ids_fit : All (λ a. a.0 < 128) l
  pub len_fits : length (encode l) + 4 < 16777216

module _ (alloc : ℕ → Bool) where
  -- `blob_add` at the end of what is there: the room is there or is allocated.
  pub record Added (xs ys : List ℕ) (b : BlobBuf) (id n : ℕ) (res : BlobBuf × Option ℕ)
      : Type 0 where
    pub ys' : List ℕ
    pub more : List ℕ
    pub enough : 4 + n + pad n ≤ length ys'
    pub longer : ys' ≡ ys ++ more
    pub aligned : length ys' % 4 ≡ 0
    pub mem :
        res.0.buf
        ≡ xs
          ++ (put_be32 (init_word id (n + 4))
              ++ (take n (drop 4 ys') ++ (replicate (pad n) 0 ++ drop (4 + n + pad n) ys')))
    pub head : res.0.head ≡ b.head
    pub at : res.1 ≡ some (length xs)

  pub blob_add-Added :
      (b : BlobBuf) (xs ys : List ℕ) (off id n : ℕ)
      → b.buf ≡ xs ++ ys
      → off ≡ length xs
      → length xs % 4 ≡ 0
      → length ys % 4 ≡ 0
      → n + 4 < 16777216
      → Yields (λ res. (res ≡ (b, none)) ⊎ Added xs ys b id n res) (blob_add alloc b off id n)
  unfolding blob_add blob_buffer_grow
  blob_add-Added b xs ys off id n e at ax ay small =
      let len = ap length e ∙ length-append xs ys in
      let required = off + 4 + n - length b.buf in
      let delta = (required / 256 + 1) * 256 in
      elim (Bool-cases (ltb 0 required)) [
        | inr roomy ↦
            let room : 4 + n + pad n ≤ length ys = omega (tests, len) in
            rw (roomy, place-split b xs ys off id n e at room small)
              (inr (record {
                ys' = ys;
                more = [];
                enough = room;
                longer = sym (append-nil ys);
                aligned = ay;
                mem = refl;
                head = refl;
                at = ap some at;
              }))
        | inl short ↦ elim (Bool-cases (alloc (length b.buf + delta))) [
          | inr refused ↦ rw (short, refused) (inl refl)
          | inl granted ↦
              let ys' = ys ++ replicate delta 0 in
              let l' = length-append ys (replicate delta 0) in
              let l'' = length-replicate {A = ℕ} delta 0 in
              let room : 4 + n + pad n ≤ length ys' = omega (tests, len, l', l'') in
              let b' = record b { buf = b.buf ++ replicate delta 0 } in
              let e' : b'.buf ≡ xs ++ ys' =
                ap (λ t. t ++ replicate delta 0) e ∙ append_assoc xs ys (replicate delta 0) in
              rw (short, granted, place-split b' xs ys' off id n e' at room small)
                (inr (record {
                  ys' = ys';
                  more = replicate delta 0;
                  enough = room;
                  longer = refl;
                  aligned = omega (arith, l', l'');
                  mem = refl;
                  head = refl;
                  at = ap some at;
                }))
        ]
      ]

  link_attr-null : (b : BlobBuf) (head : ℕ) → link_attr b head none ≡ some (b, none)
  unfolding link_attr
  link_attr-null b head = refl

  -- `blob_new`: the attribute is linked, and its payload is to be written.
  pub record New (before : List ℕ) (id : ℕ) (l : List (ℕ × List ℕ)) (aid n : ℕ)
      (res : BlobBuf × Option ℕ) : Type 0 where
    pub payload : List ℕ
    pub rest : List ℕ
    pub buf :
        res.0.buf
        ≡ before
          ++ (put_be32 (attr_word id (length (encode l) + 4 + (4 + n + pad n)))
              ++ (encode l
                  ++ (put_be32 (attr_word aid (n + 4))
                      ++ (payload ++ (replicate (pad n) 0 ++ rest)))))
    pub len : length payload ≡ n
    pub aligned : length rest % 4 ≡ 0
    pub head : res.0.head ≡ some (length before)
    pub at : res.1 ≡ some (length before + 4 + length (encode l))

  module _ (before : List ℕ) (id : ℕ) (l : List (ℕ × List ℕ)) (b : BlobBuf)
      (v : Holds before id l b) where
    -- The end of `blob_new`, where the attribute was added.
    linked :
        (aid n : ℕ)
        → aid < 128
        → length (encode l) + 4 + (4 + n + pad n) < 16777216
        → (res : BlobBuf × Option ℕ)
        → Added
            (before ++ (put_be32 (attr_word id (length (encode l) + 4)) ++ encode l))
            v.after
            b
            aid
            n
            res
        → Yields
            (λ res'. (res' ≡ (b, none)) ⊎ New before id l aid n res')
            (link_attr res.0 (length before) (
              some
                (length (before ++ (put_be32 (attr_word id (length (encode l) + 4)) ++ encode l)))))
    unfolding link_attr init_word
    linked aid n ok small res a =
        let w = attr_word id (length (encode l) + 4) in
        let u = attr_word aid (n + 4) in
        let xs = before ++ (put_be32 w ++ encode l) in
        let lx : length xs ≡ length before + 4 + length (encode l) =
          omega (arith, length-append before (put_be32 w ++ encode l)) in
        let payload = take n (drop 4 a.ys') in
        let rest = drop (4 + n + pad n) a.ys' in
        let tail = payload ++ (replicate (pad n) 0 ++ rest) in
        let is_u : init_word aid (n + 4) ≡ u = omega (arith, ok, small) in
        let mem : res.0.buf ≡ xs ++ (put_be32 u ++ tail) =
          a.mem ∙ ap (λ t. xs ++ (put_be32 t ++ tail)) is_u in
        let mem' : res.0.buf ≡ before ++ (put_be32 w ++ (encode l ++ (put_be32 u ++ tail))) =
          mem ∙ simp append_assoc in
        let al = length-encode l in
        let w_fits : w < 4294967296 = omega (arith, v.id_fits, v.len_fits) in
        let u_fits : u < 4294967296 = omega (arith, ok, small) in
        let pad_w : blob_pad_len w ≡ length (encode l) + 4 =
          blob_pad_len-raw w ∙ omega (arith, al, v.len_fits) in
        let pad_u : blob_pad_len u ≡ 4 + n + pad n = blob_pad_len-raw u ∙ omega (arith, small) in
        let new_word : w - w % 16777216 + (length (encode l) + 4 + (4 + n + pad n)) % 16777216
            ≡ attr_word id (length (encode l) + 4 + (4 + n + pad n)) =
          omega (arith, small, v.len_fits) in
        let set =
          blob_set_raw_len-split res.0.buf before (encode l ++ (put_be32 u ++ tail)) w
            (length before) (length (encode l) + 4 + (4 + n + pad n)) mem' refl w_fits in
        rw
          (
            load-split res.0.buf before (encode l ++ (put_be32 u ++ tail)) w (length before) mem'
                refl w_fits,
            load-split res.0.buf xs tail u (length xs) mem refl u_fits,
            pad_w,
            pad_u,
            set,
          )
          (inr (record {
            payload = payload;
            rest = rest;
            buf = ap (λ t. before ++ (put_be32 t ++ (encode l ++ (put_be32 u ++ tail)))) new_word;
            len = omega (arith, length-take n (drop 4 a.ys'), length-drop 4 a.ys', a.enough);
            aligned = omega (arith, length-drop (4 + n + pad n) a.ys', a.enough, a.aligned);
            head = a.head ∙ v.head;
            at = ap some lx;
          }))

    pub blob_new-New :
        (aid n : ℕ)
        → aid < 128
        → length (encode l) + 4 + (4 + n + pad n) < 16777216
        → Yields (λ res. (res ≡ (b, none)) ⊎ New before id l aid n res) (blob_new alloc b aid n)
    unfolding blob_new
    blob_new-New aid n ok small =
        let w = attr_word id (length (encode l) + 4) in
        let xs = before ++ (put_be32 w ++ encode l) in
        let lx : length xs ≡ length before + (4 + length (encode l)) =
          omega (arith, length-append before (put_be32 w ++ encode l)) in
        let al = length-encode l in
        let word : load b.buf (length before) ≡ some w =
          load-split b.buf before (encode l ++ v.after) w (length before) v.buf refl
            (omega (arith, v.id_fits, v.len_fits)) in
        let next : length before + blob_pad_len w ≡ length xs =
          ap (λ t. length before + t) (blob_pad_len-raw w) ∙ omega (arith, lx, al, v.len_fits) in
        let start : b.buf ≡ xs ++ v.after = v.buf ∙ simp append_assoc in
        let added =
          blob_add-Added b xs v.after (length before + blob_pad_len w) aid n start next
            (omega (arith, lx, al, v.aligned_before)) v.aligned_after (omega (arith, small)) in
        elim (Option-cases (blob_add alloc b (length before + blob_pad_len w) aid n)) [
          | inl bad ↦ absurd (rw bad at added)
          | inr (res, got) ↦
              simp (v.head, word, got)
                (elim (rw got at added) [
                  | inl null ↦ rw (null, link_attr-null b (length before)) (inl refl)
                  | inr a ↦ rw a.at (linked aid n ok small res a)
                ])
        ]

    -- `blob_put` puts an attribute of up to 16 MB behind those that the head of the buffer holds, or
    -- finds no memory and leaves the buffer as it is; it writes nothing outside of the buffer.
    pub blob_put-Holds :
        (aid : ℕ) (src : List ℕ)
        → aid < 128
        → length (encode l) + 4 + room_of src < 16777216
        → Yields
            (λ res.
              (res ≡ (b, none))
              ⊎ (Holds before id (l ++ ((aid, src) ∷ [])) res.0
                  × (res.1 ≡ some (length before + 4 + length (encode l)))))
            (blob_put alloc b aid src)
    unfolding blob_put fill_data
    blob_put-Holds aid src ok small =
        let n = length src in
        let new = blob_new-New aid n ok small in
        elim (Option-cases (blob_new alloc b aid n)) [
          | inl bad ↦ absurd (rw bad at new)
          | inr (res, got) ↦ rw got (elim (rw got at new) [
            | inl null ↦ rw null (inl refl)
            | inr a ↦
                let head_bytes = put_be32 (attr_word id (length (encode l) + 4 + room_of src)) in
                let attr_bytes = put_be32 (attr_word aid (n + 4)) in
                let xs = before ++ (head_bytes ++ (encode l ++ attr_bytes)) in
                let zs = replicate (pad n) 0 ++ a.rest in
                let put =
                  store-split res.0.buf xs a.payload zs src
                    (length before + 4 + length (encode l) + 4) (a.buf ∙ simp append_assoc)
                    (omega (
                      arith,
                      length-append before (head_bytes ++ (encode l ++ attr_bytes)),
                      length-append (encode l) attr_bytes,
                    ))
                    a.len in
                let le : length (encode l) + 4 + room_of src
                    ≡ length (encode (l ++ ((aid, src) ∷ []))) + 4 =
                  omega (
                    arith,
                    ap length (encode-snoc l aid src),
                    length-append (encode l) (encode_attr aid src),
                    length-encode_attr aid src,
                  ) in
                let tail = encode l ++ (attr_bytes ++ (src ++ zs)) in
                let joined : encode (l ++ ((aid, src) ∷ [])) ++ a.rest ≡ tail =
                  ap (λ t. t ++ a.rest) (encode-snoc l aid src) ∙ simp append_assoc in
                let flat : xs ++ (src ++ zs) ≡ before ++ (head_bytes ++ tail) = simp append_assoc in
                rw (a.at, put)
                  (inr (
                    record {
                      after = a.rest;
                      buf =
                          flat
                          ∙ ap₂ (λ t u. before ++ (put_be32 (attr_word id t) ++ u)) le (sym joined);
                      head = a.head;
                      aligned_before = v.aligned_before;
                      aligned_after = a.aligned;
                      id_fits = v.id_fits;
                      ids_fit = All-append (λ a. a.0 < 128) l ((aid, src) ∷ []) v.ids_fit (ok, tt);
                      len_fits = omega (arith, le, small);
                    },
                    refl,
                  ))
          ])
        ]

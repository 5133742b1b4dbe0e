-- ===== src/Blob/Buffer/Nest.antt =====
-- Nested attributes in a blob buffer: `blob_nest_start` and `blob_nest_end` (blob.c).
use libubox.Base.{
  ℕ, ◌+◌, ◌-◌, ◌%◌, ◌<◌, ◌≡◌, ◌⊎◌, inl, inr, refl, sym, ap, ap₂, ◌∙◌, Bool, none, some, List, [],
  ◌∷◌, ◌++◌, append-nil, append_assoc, arith, Yields, Option-cases, length, All, length-append,
  nil_of_length, All-append,
}
use libubox.Blob.{blob_len, blob_pad_len, blob_pad_len-raw}
use libubox.Blob.Buffer.{BlobBuf, put_be32, blob_new, blob_nest_start, blob_nest_end}
use libubox.Blob.Buffer.Memory.{load-split, blob_set_raw_len-split, pad}
use libubox.Blob.Buffer.Put.{
  attr_word, encode_attr, encode, length-encode_attr, length-encode, encode-snoc, Holds,
  blob_new-New,
}

-- What stands before a nested attribute that is open: `before`, the header of the parent, which counts
-- the header of the nested attribute so far, and the attributes `l` ahead of it.
abbrev pub opened : List ℕ → ℕ → List (ℕ × List ℕ) → List ℕ
opened before id l = before ++ (put_be32 (attr_word id (length (encode l) + 8)) ++ encode l)

module _ (before : List ℕ) (id : ℕ) (l : List (ℕ × List ℕ)) where
  -- `blob_nest_start` opens an empty attribute behind those that the head holds, which becomes the head,
  -- and returns the old head, or finds no memory.
  pub blob_nest_start-Holds :
      (alloc : ℕ → Bool) (b : BlobBuf) (aid : ℕ)
      → Holds before id l b
      → aid < 128
      → length (encode l) + 8 < 16777216
      → Yields
          (λ res.
            (res ≡ (record b { head = none }, none))
            ⊎ (Holds (opened before id l) aid [] res.0 × (res.1 ≡ some (length before))))
          (blob_nest_start alloc b aid)
  unfolding blob_nest_start
  blob_nest_start-Holds alloc b aid v ok small =
      let new = blob_new-New alloc before id l b v aid 0 ok (omega (arith, small)) in
      elim (Option-cases (blob_new alloc b aid 0)) [
        | inl bad ↦ absurd (rw bad at new)
        | inr (res, got) ↦
            simp (v.head, got)
              (elim (rw got at new) [
                | inl null ↦ rw null (inl refl)
                | inr a ↦
                    let xs = opened before id l in
                    let none_yet : a.payload ≡ [] = nil_of_length a.payload a.len in
                    let lx : length xs ≡ length before + 4 + length (encode l) = omega (
                      arith,
                      length-append before
                          (put_be32 (attr_word id (length (encode l) + 8)) ++ encode l),
                    ) in
                    let eight : length (encode l) + 4 + 4 ≡ length (encode l) + 8 = omega arith in
                    simp a.at (
                      inr (
                        record {
                          after = a.rest;
                          buf =
                              a.buf
                              ∙ ap₂
                                  (λ t p.
                                    before
                                    ++ (put_be32 (attr_word id t)
                                        ++ (encode l
                                            ++ (put_be32 (attr_word aid 4) ++ (p ++ a.rest)))))
                                  eight none_yet
                              ∙ simp append_assoc;
                          head = ap some (sym lx);
                          aligned_before = omega (arith, lx, v.aligned_before, length-encode l);
                          aligned_after = a.aligned;
                          id_fits = ok;
                          ids_fit = tt;
                          len_fits = omega arith;
                        },
                        refl,
                      ))
              ])
      ]

  -- `blob_nest_end` makes the open attribute, with all that was put into it, one of its parent.
  pub blob_nest_end-Holds :
      (b : BlobBuf) (aid : ℕ) (inner : List (ℕ × List ℕ))
      → Holds (opened before id l) aid inner b
      → length before % 4 ≡ 0
      → id < 128
      → All (λ a. a.0 < 128) l
      → length (encode l) + 8 + length (encode inner) < 16777216
      → Yields (Holds before id (l ++ ((aid, encode inner) ∷ []))) (blob_nest_end b (length before))
  unfolding blob_nest_end
  blob_nest_end-Holds b aid inner v al ok fit small =
      let w = attr_word id (length (encode l) + 8) in
      let u = attr_word aid (length (encode inner) + 4) in
      let xs = opened before id l in
      let lx : length xs ≡ length before + 4 + length (encode l) =
        omega (arith, length-append before (put_be32 w ++ encode l)) in
      let tail = put_be32 u ++ (encode inner ++ v.after) in
      let mem : b.buf ≡ before ++ (put_be32 w ++ (encode l ++ tail)) = v.buf ∙ simp append_assoc in
      let w_fits : w < 4294967296 = omega (arith, ok, small) in
      let ll = length-encode l in
      let li = length-encode inner in
      let pad_w : blob_pad_len w ≡ length (encode l) + 8 =
        blob_pad_len-raw w ∙ omega (arith, ll, small) in
      let len_u : blob_len u ≡ length (encode inner) = omega (arith, v.len_fits) in
      let total = length (encode l) + 8 + length (encode inner) in
      let none_needed : pad (length (encode inner)) ≡ 0 = omega (arith, li) in
      let grown : total ≡ length (encode (l ++ ((aid, encode inner) ∷ []))) + 4 = omega (
        arith,
        ap length (encode-snoc l aid (encode inner)),
        length-append (encode l) (encode_attr aid (encode inner)),
        length-encode_attr aid (encode inner),
        none_needed,
      ) in
      let new_word : w - w % 16777216 + total % 16777216 ≡ attr_word id total =
        omega (arith, small) in
      let set =
        blob_set_raw_len-split b.buf before (encode l ++ tail) w (length before) total mem refl
          w_fits in
      let joined : encode (l ++ ((aid, encode inner) ∷ [])) ++ v.after ≡ encode l ++ tail =
        ap (λ t. t ++ v.after) (encode-snoc l aid (encode inner))
        ∙ rw none_needed (simp (append_assoc, append-nil)) in
      simp
        (
          load-split b.buf before (encode l ++ tail) w (length before) mem refl w_fits,
          v.head,
          load-split b.buf xs (encode inner ++ v.after) u (length xs) v.buf refl
              (omega (arith, v.id_fits, v.len_fits)),
          pad_w,
          len_u,
          set,
        )
        (record {
          after = v.after;
          buf =
              ap₂ (λ t s. before ++ (put_be32 t ++ s)) (new_word ∙ ap (attr_word id) grown)
                (sym joined);
          head = refl;
          aligned_before = al;
          aligned_after = v.aligned_after;
          id_fits = ok;
          ids_fit = All-append (λ a. a.0 < 128) l ((aid, encode inner) ∷ []) fit (v.id_fits, tt);
          len_fits = omega (arith, grown, small);
        })

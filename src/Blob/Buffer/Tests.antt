-- ===== src/Blob/Buffer/Tests.antt =====
-- The theorems about blob buffers at concrete buffers, and runs of the model.
use libubox.Base.{
  ℕ, ◌≡◌, ◌⊎◌, refl, Bool, true, none, some, [], ◌∷◌, ◌++◌, arith, Yields, take, drop, replicate,
}
use libubox.Blob.{id_len, blob_pad_len}
use libubox.Blob.Iterate.{for_each_attr}
use libubox.Blob.Buffer.{
  BlobBuf, put_be32, load, store, blob_buffer_grow, init_word, blob_init, blob_fill_pad,
  blob_set_raw_len, place, blob_add, link_attr, blob_new, fill_data, blob_put, blob_nest_end,
  blob_buf_init,
}
use libubox.Blob.Buffer.Put.{Holds, encode, blob_put-Holds, attr_word}
use libubox.Blob.Buffer.Nest.{opened, blob_nest_end-Holds}
use libubox.Blob.Buffer.RoundTrip.{AreAttrs, for_each_attr-AreAttrs}

abbrev plenty : ℕ → Bool
plenty n = true

abbrev unset : BlobBuf
unset = record { head = none; buf = [] }

-- What `blob_buf_init` makes of it.
abbrev started : BlobBuf
started = record { head = some 0; buf = put_be32 4 ++ replicate 252 0 }

init_runs : blob_buf_init plenty unset 0 ≡ some (started, true)
unfolding blob_buf_init blob_add blob_buffer_grow place blob_init blob_fill_pad load store init_word
    id_len blob_pad_len
init_runs = refl

-- The string "a" with id 3.
put_runs :
    Yields
      (λ res.
        take 16 res.0.buf
        ≡ put_be32 12 ++ (put_be32 50331654 ++ (97 ∷ 0 ∷ 0 ∷ 0 ∷ 0 ∷ 0 ∷ 0 ∷ 0 ∷ [])))
      (blob_put plenty started 3 (97 ∷ 0 ∷ []))
unfolding blob_put blob_new fill_data link_attr blob_set_raw_len blob_add blob_buffer_grow place
    blob_init blob_fill_pad load store init_word id_len blob_pad_len
put_runs = refl

started-Holds : Holds [] 0 [] started
started-Holds = record {
  after = replicate 252 0;
  buf = refl;
  head = refl;
  aligned_before = refl;
  aligned_after = refl;
  id_fits = omega arith;
  ids_fit = tt;
  len_fits = omega arith;
}

-- A table of id 7 that is open in an empty message, and holds the byte 9 with id 5.
abbrev nested : BlobBuf
nested = record {
  head = some 4;
  buf =
      put_be32 8
      ++ (put_be32 (attr_word 7 12)
          ++ (put_be32 (attr_word 5 5) ++ (9 ∷ 0 ∷ 0 ∷ 0 ∷ replicate 240 0)));
}

nested-Holds : Holds (opened [] 0 []) 7 ((5, 9 ∷ []) ∷ []) nested
nested-Holds = record {
  after = replicate 240 0;
  buf = refl;
  head = refl;
  aligned_before = refl;
  aligned_after = refl;
  id_fits = omega arith;
  ids_fit = omega arith;
  len_fits = omega arith;
}

blob_put-Holds_example :
    Yields
      (λ res.
        (res ≡ (started, none)) ⊎ (Holds [] 0 ((3, 97 ∷ 0 ∷ []) ∷ []) res.0 × (res.1 ≡ some 4)))
      (blob_put plenty started 3 (97 ∷ 0 ∷ []))
blob_put-Holds_example =
    blob_put-Holds plenty [] 0 [] started started-Holds 3 (97 ∷ 0 ∷ []) (omega arith) (omega arith)

blob_nest_end-Holds_example :
    Yields (Holds [] 0 ((7, encode ((5, 9 ∷ []) ∷ [])) ∷ [])) (blob_nest_end nested 0)
blob_nest_end-Holds_example =
    blob_nest_end-Holds [] 0 [] nested 7 ((5, 9 ∷ []) ∷ []) nested-Holds refl (omega arith) tt
      (omega arith)

for_each_attr-AreAttrs_example :
    Yields (λ ps. AreAttrs ps ((5, 9 ∷ []) ∷ [])) (for_each_attr (drop 4 nested.buf))
for_each_attr-AreAttrs_example =
    for_each_attr-AreAttrs (opened [] 0 []) 7 ((5, 9 ∷ []) ∷ []) nested nested-Holds

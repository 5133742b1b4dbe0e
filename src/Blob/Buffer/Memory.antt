-- ===== src/Blob/Buffer/Memory.antt =====
-- The reads and writes of a blob buffer, on memory that is a concatenation.
use libubox.Base.{
  ℕ, ◌+◌, ◌-◌, ◌*◌, ◌/◌, ◌%◌, ◌≤◌, ◌<◌, ◌≡◌, inl, inr, refl, sym, ap, ◌∙◌, true, some, List, [],
  ◌∷◌, ◌++◌, append_assoc, arith, ltb, leb, Bool-cases, length, take, drop, replicate,
  length-append, length-take, length-drop, length-replicate, nil_of_length, take-append-drop,
  drop-drop,
}
use libubox.Base.Bytes.{write_at}
use libubox.Blob.{id_len, blob_raw_len, blob_pad_len, blob_pad_len-raw}
use libubox.Blob.Buffer.{
  BlobBuf, put_be32, load, store, init_word, blob_init, blob_fill_pad, blob_set_raw_len, place,
}

write_at-split :
    (xs old ys new : List ℕ)
    → length old ≡ length new
    → write_at (xs ++ (old ++ ys)) (length xs) new ≡ xs ++ (new ++ ys)
write_at-split [] [] [] [] e = refl
write_at-split [] [] (y ∷ ys) [] e = refl
write_at-split [] [] ys (n ∷ new) e = absurd (omega arith)
write_at-split [] (o ∷ old) ys [] e = absurd (omega arith)
write_at-split [] (o ∷ old) ys (n ∷ new) e =
    ap (λ t. n ∷ t) (write_at-split [] old ys new (omega arith))
write_at-split (x ∷ xs) old ys new e = ap (λ t. x ∷ t) (write_at-split xs old ys new e)

-- Writing over `old`.
pub store-split :
    (mem xs old ys new : List ℕ) (off : ℕ)
    → mem ≡ xs ++ (old ++ ys)
    → off ≡ length xs
    → length old ≡ length new
    → store mem off new ≡ some (xs ++ (new ++ ys))
unfolding store
store-split mem xs old ys new off e at same =
    let room : leb (off + length new) (length mem) ≡ true =
      ground (arith, ap length e, length-append xs (old ++ ys), length-append old ys) in
    simp room (ap some (rw (e, at) (write_at-split xs old ys new same)))

-- Reading a header.
pub id_len-put_be32 : (w : ℕ) (ys : List ℕ) → w < 4294967296 → id_len (put_be32 w ++ ys) ≡ some w
unfolding id_len
id_len-put_be32 w ys h = ap some (omega arith)

pub drop-length : (xs ys : List ℕ) → drop (length xs) (xs ++ ys) ≡ ys
drop-length [] ys = refl
drop-length (x ∷ xs) ys = drop-length xs ys

pub load-split :
    (mem xs ys : List ℕ) (w off : ℕ)
    → mem ≡ xs ++ (put_be32 w ++ ys)
    → off ≡ length xs
    → w < 4294967296
    → load mem off ≡ some w
unfolding load
load-split mem xs ys w off e at h =
    ap id_len (rw (e, at) (drop-length xs (put_be32 w ++ ys))) ∙ id_len-put_be32 w ys h

-- The new length of an attribute whose header is in the memory.
pub blob_set_raw_len-split :
    (mem xs ys : List ℕ) (w off len : ℕ)
    → mem ≡ xs ++ (put_be32 w ++ ys)
    → off ≡ length xs
    → w < 4294967296
    → blob_set_raw_len mem off len
      ≡ some (xs ++ (put_be32 (w - w % 16777216 + len % 16777216) ++ ys))
unfolding blob_set_raw_len
blob_set_raw_len-split mem xs ys w off len e at h = rw (load-split mem xs ys w off e at h) (
    store-split mem xs (put_be32 w) ys (put_be32 (w - w % 16777216 + len % 16777216)) off e at refl)

take-drop_next : (k n m : ℕ) (ys : List ℕ) → k + n ≡ m → take n (drop k ys) ++ drop m ys ≡ drop k ys
take-drop_next k n m ys e =
    ap (λ t. take n (drop k ys) ++ t) (sym (drop-drop k n m ys e)) ∙ take-append-drop n (drop k ys)

-- How many bytes of padding follow `n` bytes.
abbrev pub pad : ℕ → ℕ
pad n = (n + 3) / 4 * 4 - n

-- Padding of an attribute that holds `a`, over the bytes `old`.
pub blob_fill_pad-split :
    (mem xs a old ys : List ℕ) (w off : ℕ)
    → mem ≡ xs ++ (put_be32 w ++ (a ++ (old ++ ys)))
    → off ≡ length xs
    → w < 4294967296
    → w % 16777216 ≡ length a + 4
    → length old ≡ pad (length a)
    → blob_fill_pad mem off ≡ some (xs ++ (put_be32 w ++ (a ++ (replicate (length old) 0 ++ ys))))
unfolding blob_fill_pad
blob_fill_pad-split mem xs a old ys w off e at small len rest =
    let got = load-split mem xs (a ++ (old ++ ys)) w off e at small in
    let total : blob_pad_len w ≡ 4 + length a + length old =
      blob_pad_len-raw w ∙ omega (arith, rest) in
    let raw : blob_raw_len w ≡ length a + 4 = omega (arith, len) in
    let delta : blob_pad_len w - blob_raw_len w ≡ length old = omega (arith, total, raw) in
    elim (Bool-cases (ltb 0 (length old))) [
      | inl some_left ↦
          rw (got, delta, some_left)
            (store-split mem (xs ++ (put_be32 w ++ a)) old ys (replicate (length old) 0)
                (off + blob_pad_len w - length old) (e ∙ simp append_assoc)
                (omega (arith, at, total, length-append xs (put_be32 w ++ a)))
                (sym (length-replicate (length old) 0))
              ∙ simp append_assoc)
      | inr none_left ↦
          let z : length old ≡ 0 = ground arith in
          rw (got, delta, none_left) (ap some (e ∙ rw (nil_of_length old z) refl))
    ]

-- A new attribute of `n` bytes, whose payload is what was there.
pub place-split :
    (b : BlobBuf) (xs ys : List ℕ) (off id n : ℕ)
    → b.buf ≡ xs ++ ys
    → off ≡ length xs
    → 4 + n + pad n ≤ length ys
    → n + 4 < 16777216
    → place b off id n
      ≡ some (
        record b {
          buf =
              xs
              ++ (put_be32 (init_word id (n + 4))
                  ++ (take n (drop 4 ys) ++ (replicate (pad n) 0 ++ drop (4 + n + pad n) ys)));
        },
        some off,
      )
unfolding place blob_init init_word
place-split b xs ys off id n e at room small =
    let w = init_word id (n + 4) in
    let a = take n (drop 4 ys) in
    let old = take (pad n) (drop (4 + n) ys) in
    let ys' = drop (4 + n + pad n) ys in
    let la : length a ≡ n = omega (arith, length-take n (drop 4 ys), length-drop 4 ys) in
    let lo : length old ≡ pad n =
      omega (arith, length-take (pad n) (drop (4 + n) ys), length-drop (4 + n) ys) in
    let cut : ys ≡ take 4 ys ++ (a ++ (old ++ ys')) = sym (
      ap (λ t. take 4 ys ++ (a ++ t)) (take-drop_next (4 + n) (pad n) (4 + n + pad n) ys refl)
      ∙ ap (λ t. take 4 ys ++ t) (take-drop_next 4 n (4 + n) ys refl)
      ∙ take-append-drop 4 ys) in
    let init =
      store-split b.buf xs (take 4 ys) (a ++ (old ++ ys')) (put_be32 w) off
        (e ∙ ap (λ t. xs ++ t) cut) at (length-take 4 ys ∙ omega (arith, room)) in
    let fill =
      blob_fill_pad-split (xs ++ (put_be32 w ++ (a ++ (old ++ ys')))) xs a old ys' w off refl at
        (omega (arith, small)) (omega (arith, la, small)) (lo ∙ rw la refl) in
    rw init (rw fill (rw lo refl))

-- ===== src/Blob/Buffer/RoundTrip.antt =====
-- Reading back what was put into a blob buffer (blob.c, blob.h).
use libubox.Base.{
  ℕ, zero, suc, ◌+◌, ◌-◌, ◌%◌, ◌≤◌, ◌<◌, ◌≡◌, ◌⊎◌, inl, inr, refl, sym, ap, ◌∙◌, Bool, true, false,
  ◌&&◌, Option, none, some, List, [], ◌∷◌, ◌++◌, append_assoc, arith, ltb, leb, ◌==◌, Yields,
  Option-cases, length, take, drop, replicate, All, length-append, length-drop,
}
use libubox.Blob.{id_len, blob_data, blob_id, blob_len, blob_pad_len, blob_pad_len-raw}
use libubox.Blob.Iterate.{for_each, for_each_attr}
use libubox.Blob.Buffer.{BlobBuf, put_be32, blob_buf_init, blob_add, init_word}
use libubox.Blob.Buffer.Memory.{id_len-put_be32, drop-length, pad}
use libubox.Blob.Buffer.Put.{
  attr_word, encode_attr, encode, room_of, length-encode_attr, Holds, blob_add-Added,
}

-- A pointer to an attribute with this id and payload.
pub record IsAttr (cur : List ℕ) (id : ℕ) (src : List ℕ) : Type 0 where
  pub word : ℕ
  pub header : id_len cur ≡ some word
  pub id_is : blob_id word ≡ id
  pub len_is : blob_len word ≡ length src
  pub payload : take (length src) (blob_data cur) ≡ src

-- The pointers of a list, to attributes with the ids and payloads of another, in order.
abbrev pub AreAttrs : List (List ℕ) → List (ℕ × List ℕ) → Type 0
AreAttrs [] [] = Unit {0}
AreAttrs [] (a ∷ l) = ⊥
AreAttrs (p ∷ ps) [] = ⊥
AreAttrs (p ∷ ps) ((id, src) ∷ l) = IsAttr p id src × AreAttrs ps l

take-length : (xs ys : List ℕ) → take (length xs) (xs ++ ys) ≡ xs
take-length [] ys = refl
take-length (x ∷ xs) ys = ap (λ t. x ∷ t) (take-length xs ys)

encode_attr-IsAttr :
    (id : ℕ) (src after : List ℕ)
    → id < 128
    → length src + 4 < 16777216
    → IsAttr (encode_attr id src ++ after) id src
encode_attr-IsAttr id src after ok small = record {
  word = attr_word id (length src + 4);
  header = id_len-put_be32 (attr_word id (length src + 4)) _ (omega (arith, ok, small));
  id_is = omega (arith, ok, small);
  len_is = omega (arith, small);
  payload =
      ap (take (length src)) (append_assoc src (replicate (pad (length src)) 0) after)
      ∙ take-length src (replicate (pad (length src)) 0 ++ after);
}

cons-AreAttrs :
    (cur : List ℕ) (id : ℕ) (src : List ℕ) (l : List (ℕ × List ℕ)) (o : Option (List (List ℕ)))
    → IsAttr cur id src
    → Yields (λ ps. AreAttrs ps l) o
    → Yields
        (λ ps. AreAttrs ps ((id, src) ∷ l))
        (elim o [ none ↦ none | some ps ↦ some (cur ∷ ps) ])
cons-AreAttrs cur id src l none a y = y
cons-AreAttrs cur id src l (some ps) a y = (a, y)

for_each-visit :
    (n : ℕ) (cur : List ℕ) (rem w total : ℕ)
    → id_len cur ≡ some w
    → blob_pad_len w ≡ total
    → 4 ≤ total
    → total ≤ rem
    → for_each (suc n) cur rem ≡ (elim (for_each n (drop total cur) (rem - total)) [
      | none ↦ none
      | some ps ↦ some (cur ∷ ps)
    ])
unfolding for_each
for_each-visit n cur rem w total header is big le =
    let fits : (leb total rem && leb 4 total) ≡ true = ground arith in
    let busy : (rem == 0) ≡ false = ground arith in simp (for_each, busy, header, is, fits)

for_each-nil : (n : ℕ) (cur : List ℕ) → for_each (suc n) cur 0 ≡ some []
unfolding for_each
for_each-nil n cur = refl

for_each-encode :
    (l : List (ℕ × List ℕ)) (after cur : List ℕ) (n rem : ℕ)
    → cur ≡ encode l ++ after
    → rem ≡ length (encode l)
    → All (λ a. a.0 < 128) l
    → rem + 4 < 16777216
    → rem < n
    → Yields (λ ps. AreAttrs ps l) (for_each n cur rem)
for_each-encode l after cur zero rem e f ids small fuel = absurd (omega arith)
for_each-encode [] after cur (suc n) rem e f ids small fuel = rw (f, for_each-nil n cur) tt
for_each-encode ((id, src) ∷ l) after cur (suc n) rem e f (ok, ids) small fuel =
    let tail = encode l ++ after in
    let split : cur ≡ encode_attr id src ++ tail =
      e ∙ append_assoc (encode_attr id src) (encode l) after in
    let len : rem ≡ room_of src + length (encode l) =
      f
      ∙ length-append (encode_attr id src) (encode l)
      ∙ ap (λ t. t + length (encode l)) (length-encode_attr id src) in
    let a : IsAttr cur id src =
      rw split (encode_attr-IsAttr id src tail ok (omega (arith, len, small))) in
    let total : blob_pad_len a.word ≡ room_of src =
      blob_pad_len-raw a.word ∙ omega (arith, a.len_is, len, small) in
    let next : drop (room_of src) cur ≡ tail =
      rw (split, sym (length-encode_attr id src)) (drop-length (encode_attr id src) tail) in
    rw
      (for_each-visit n cur rem a.word (room_of src) a.header total (omega arith)
        (omega (arith, len)))
      (cons-AreAttrs cur id src l _ a (
        for_each-encode l after (drop (room_of src) cur) n (rem - room_of src) next
          (omega (arith, len)) ids (omega (arith, len, small)) (omega (arith, len, fuel))))

for_each_attr-some :
    (cur : List ℕ) (w rem : ℕ)
    → id_len cur ≡ some w
    → blob_len w ≡ rem
    → rem < 2147483648
    → for_each_attr cur ≡ for_each (rem + 1) (blob_data cur) rem
unfolding for_each_attr
for_each_attr-some cur w rem header len small =
    let positive : ltb rem 2147483648 ≡ true = ground arith in
    simp (for_each_attr, header, len, positive)

-- What `blob_put` has put into the head is what `blob_for_each_attr` visits, in order.
pub for_each_attr-AreAttrs :
    (before : List ℕ) (id : ℕ) (l : List (ℕ × List ℕ)) (b : BlobBuf)
    → Holds before id l b
    → Yields (λ ps. AreAttrs ps l) (for_each_attr (drop (length before) b.buf))
for_each_attr-AreAttrs before id l b v =
    let w = attr_word id (length (encode l) + 4) in
    let body = encode l ++ v.after in
    let at : drop (length before) b.buf ≡ put_be32 w ++ body =
      ap (drop (length before)) v.buf ∙ drop-length before (put_be32 w ++ body) in
    let header : id_len (put_be32 w ++ body) ≡ some w =
      id_len-put_be32 w body (omega (arith, v.id_fits, v.len_fits)) in
    let len : blob_len w ≡ length (encode l) = omega (arith, v.len_fits) in
    let cur = drop (length before) b.buf in
    rw
      (for_each_attr-some cur w (length (encode l)) (ap id_len at ∙ header) len
        (omega (arith, v.len_fits)))
      (for_each-encode l v.after (blob_data cur) (length (encode l) + 1) (length (encode l))
        (ap (drop 4) at) refl v.ids_fit v.len_fits (omega arith))

-- `blob_buf_init` of a buffer of words gives an empty head, or finds no memory.
pub blob_buf_init-Holds :
    (alloc : ℕ → Bool) (b : BlobBuf) (id : ℕ)
    → length b.buf % 4 ≡ 0
    → id < 128
    → Yields
        (λ res. (res.1 ≡ false) ⊎ ((res.1 ≡ true) × Holds [] id [] res.0))
        (blob_buf_init alloc b id)
unfolding blob_buf_init init_word
blob_buf_init-Holds alloc b id al ok =
    let start = record b { head = some 0 } in
    let is_word : init_word id 4 ≡ attr_word id 4 = omega (arith, ok) in
    let added = blob_add-Added alloc start [] b.buf 0 id 0 refl refl refl al (omega arith) in
    elim (Option-cases (blob_add alloc start 0 id 0)) [
      | inl bad ↦ absurd (rw bad at added)
      | inr (res, got) ↦ rw got (elim (rw got at added) [
        | inl null ↦ rw null (inl refl)
        | inr a ↦ rw a.at (
            inr (
              refl,
              record {
                after = drop 4 a.ys';
                buf = a.mem ∙ ap (λ t. put_be32 t ++ drop 4 a.ys') is_word;
                head = a.head;
                aligned_before = refl;
                aligned_after = omega (arith, length-drop 4 a.ys', a.aligned);
                id_fits = ok;
                ids_fit = tt;
                len_fits = omega arith;
              },
            ))
      ])
    ]

-- ===== src/Blobmsg/Check.antt =====
-- What `blobmsg_check_attr` accepts (blobmsg.c).
use libubox.Base.{
  get_elem-none, get_elem-some, ℕ, zero, suc, ◌+◌, ◌-◌, ◌%◌, ◌≤◌, ◌<◌, ◌≡◌, ◌⊎◌, ◌↔◌, inl, inr,
  refl, sym, ap, ◌∙◌, Bool, true, false, not, ◌&&◌, none, some, List, arith, ltb, leb, ◌==◌, ==→ne,
  tests, Yields, Bool-cases, length, get_elem?, drop, length-drop,
}
use libubox.Blob.{id_len, blob_data, blob_id, blob_is_extended, blob_len}
use libubox.Blob.Parse.{blob_check_type, check_len}
use libubox.Blobmsg.{
  blobmsg_namelen, blobmsg_hdrlen, data_offset, blobmsg_data_len, check_typed, check_payload,
  check_name, blobmsg_check_attr,
}
use libubox.Blobmsg.Payload.{IsPayload, some_zero, check_typed-IsPayload, iff_map}

-- What a field is: it has a name, if it must, that lies inside of the attribute and is followed by a NUL, for
-- which the code takes the byte behind the attribute if the name reaches up to its end, and a known type whose
-- payload is right.
pub record IsField (attr : List ℕ) (w namelen offset : ℕ) (name : Bool) : Type 0 where
  pub named : (name ≡ false) ⊎ (0 < namelen)
  pub fits : namelen + 2 ≤ blob_len w
  pub terminated : get_elem? (blob_data attr) (2 + namelen) ≡ some 0
  pub known : blob_id w ≤ 7
  pub payload : IsPayload (blob_id w) (drop offset (blob_data attr)) (blobmsg_data_len w offset)

-- An attribute that lies in the memory, with the length of a header at least; if it is extended, its padded
-- name ends inside.
pub record IsFramed (attr : List ℕ) (w namelen offset : ℕ) : Type 0 where
  pub header : id_len attr ≡ some w
  pub sized : 4 ≤ w % 16777216
  pub room : w % 16777216 ≤ length attr
  pub name_header : blobmsg_namelen (blob_data attr) ≡ some namelen
  pub data_at : data_offset attr w ≡ some offset
  pub inside : offset ≤ blob_len w

-- Whether the code looks for the NUL behind an attribute that the memory ends with.
abbrev pub reads_behind : List ℕ → ℕ → ℕ → Bool → Bool
reads_behind attr w namelen name =
    not (namelen == 0 && name) && namelen + 2 == blob_len w && length attr == w % 16777216

-- What the check of an attribute does: it reads behind the memory, or accepts exactly the fields.
abbrev pub Checked : List ℕ → ℕ → ℕ → ℕ → Bool → Bool → Type 0
Checked attr w namelen offset name true = blobmsg_check_attr attr name ≡ none
Checked attr w namelen offset name false =
    Yields (λ ok. (ok ≡ true) ↔ IsField attr w namelen offset name) (blobmsg_check_attr attr name)

refuse : {Q : Type 0} → (Q → ⊥) → (false ≡ true) ↔ Q
refuse f = (λ e. absurd (ground arith), λ q. absurd (f q))

not_named :
    (namelen : ℕ) (name : Bool) → (namelen == 0 && name) ≡ true → (name ≡ false) ⊎ (0 < namelen) → ⊥
not_named namelen name h (inl e) = ground arith
not_named namelen name h (inr e) = ground arith

is_named :
    (namelen : ℕ) (name : Bool) → (namelen == 0 && name) ≡ false → (name ≡ false) ⊎ (0 < namelen)
is_named zero name h = inl h
is_named (suc n) name h = inr (omega arith)

-- Then the NUL is looked for in the memory.
not_behind :
    (attr : List ℕ) (w namelen : ℕ) (name : Bool)
    → 4 ≤ w % 16777216
    → w % 16777216 ≤ length attr
    → ltb (blob_len w) 2 ≡ false
    → (namelen == 0 && name) ≡ false
    → ltb (blob_len w - 2) namelen ≡ false
    → reads_behind attr w namelen name ≡ false
    → 2 + namelen < length (blob_data attr)
not_behind attr w namelen name sized room large named fits apart =
    let long : length (blob_data attr) ≡ length attr - 4 = length-drop 4 attr in
    ground (arith, long)

-- `blobmsg_check_attr` of an attribute that is framed, where the NUL is not looked for behind the memory, reads
-- nothing outside of it, and accepts exactly the fields.
pub accepts-IsField :
    (attr : List ℕ) (w namelen offset : ℕ) (name : Bool)
    → IsFramed attr w namelen offset
    → reads_behind attr w namelen name ≡ false
    → Yields (λ ok. (ok ≡ true) ↔ IsField attr w namelen offset name) (blobmsg_check_attr attr name)
unfolding blobmsg_check_attr check_name check_payload
accepts-IsField attr w namelen offset name v apart =
    let long : length (blob_data attr) ≡ length attr - 4 = length-drop 4 attr in
    elim (Bool-cases (ltb (blob_len w) 2)) [
      | inl short ↦ rw (v.header, short) (refuse (λ f. omega (tests, f.fits)))
      | inr some_room ↦ elim (Bool-cases (namelen == 0 && name)) [
        | inl nameless ↦
            rw (v.header, some_room, v.name_header, nameless)
              (refuse (λ f. not_named namelen name nameless f.named))
        | inr named ↦ elim (Bool-cases (ltb (blob_len w - 2) namelen)) [
          | inl over ↦
              rw (v.header, some_room, v.name_header, named, over)
                (refuse (λ f. omega (tests, f.fits)))
          | inr fits ↦
              let (c, at) =
                get_elem-some (2 + namelen) (blob_data attr)
                  (not_behind attr w namelen name v.sized v.room some_room named fits apart) in
              elim (Bool-cases (c == 0)) [
                | inr open_end ↦
                    rw (v.header, some_room, v.name_header, named, fits, at, open_end)
                      (refuse (λ f.
                        ==→ne c 0 open_end
                          (ap (λ o. elim o [ none ↦ 1 | some x ↦ x ]) (sym at ∙ f.terminated))))
                | inl ends ↦
                    rw (v.header, some_room, v.name_header, named, fits, at, ends, v.data_at)
                      (iff_map _ _ _
                        (check_typed-IsPayload (blob_id w) (drop offset (blob_data attr))
                          (blobmsg_data_len w offset)
                          (omega (
                            arith,
                            v.inside,
                            v.room,
                            v.sized,
                            long,
                            length-drop offset (blob_data attr),
                          )))
                        (λ q. record {
                          named = is_named namelen name named;
                          fits = omega tests;
                          terminated = at ∙ (some_zero c).0 ends;
                          known = q.0;
                          payload = q.1;
                        })
                        (λ f. (f.known, f.payload)))
              ]
        ]
      ]
    ]

overread :
    (bytes : List ℕ) (len : ℕ)
    → length bytes < 4294967291
    → 4294967292 ≤ len
    → blob_check_type bytes len 3 ≡ none
unfolding blob_check_type check_len
overread bytes len small long =
    let some_len : leb 1 len ≡ true = ground arith in
    rw (some_len, get_elem-none (len - 1) bytes (omega arith)) refl

-- `blobmsg_check_attr` of an extended string whose name fits, but not with its padding, reads past any
-- memory below 2 GB: the length of the payload wraps around.
pub padded_name-overread :
    (attr : List ℕ) (w namelen : ℕ)
    → id_len attr ≡ some w
    → 4 ≤ w % 16777216
    → blob_id w ≡ 3
    → blob_is_extended w ≡ true
    → blobmsg_namelen (blob_data attr) ≡ some namelen
    → namelen + 2 ≤ blob_len w
    → blob_len w < blobmsg_hdrlen namelen
    → get_elem? (blob_data attr) (2 + namelen) ≡ some 0
    → length attr < 2147483648
    → blobmsg_check_attr attr false ≡ none
unfolding blobmsg_check_attr check_name check_payload data_offset check_typed
padded_name-overread attr w namelen header sized string ext name fits short ends small =
    let room : ltb (blob_len w) 2 ≡ false = ground arith in
    let le : ltb (blob_len w - 2) namelen ≡ false = ground arith in
    let unnamed : (namelen == 0 && false) ≡ false = ground arith in
    let bytes = drop (blobmsg_hdrlen namelen) (blob_data attr) in
    let fault =
      overread bytes (blobmsg_data_len w (blobmsg_hdrlen namelen))
        (omega (arith, length-drop (blobmsg_hdrlen namelen) (blob_data attr), length-drop 4 attr))
        (omega arith) in
    rw (header, room, name, unnamed, le, ends, ext, string) fault

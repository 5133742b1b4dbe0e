-- ===== src/Blob/Buffer.antt =====
-- The buffer that attributes are put into (blob.c). Pointers are offsets from its start, and reading or
-- writing outside of it is a fault, `none`.
pub mod Memory
pub mod Nest
pub mod Put
pub mod RoundTrip
mod Tests
use libubox.Base.{
  ℕ, ◌+◌, ◌-◌, ◌*◌, ◌/◌, ◌%◌, Bool, true, false, Option, none, some, List, [], ◌∷◌, ◌++◌, ltb, leb,
  if◌then◌else◌, ◌>>=◌, length, drop, replicate,
}
use libubox.Base.Bytes.{write_at}
use libubox.Blob.{id_len, blob_len, blob_raw_len, blob_pad_len}

-- `struct blob_buf`: `buflen` is the length of `buf`, and `head` is `none` for NULL. The callback `grow`
-- is the default one, and `alloc` says for which sizes `realloc` finds memory.
pub record BlobBuf : Type 0 where
  pub head : Option ℕ
  pub buf : List ℕ

-- `cpu_to_be32`, byte by byte.
abbrev pub put_be32 : ℕ → List ℕ
put_be32 w = w / 16777216 % 256 ∷ w / 65536 % 256 ∷ w / 256 % 256 ∷ w % 256 ∷ []

-- Reading a header, and writing bytes, at an offset.
unfoldable pub load : List ℕ → ℕ → Option ℕ
load mem off = id_len (drop off mem)

unfoldable pub store : List ℕ → ℕ → List ℕ → Option (List ℕ)
store mem off src =
    if leb (off + length src) (length mem) then some (write_at mem off src) else none

-- `blob_buffer_grow`.
unfoldable pub blob_buffer_grow : (ℕ → Bool) → BlobBuf → ℕ → BlobBuf × Bool
blob_buffer_grow alloc b minlen =
    let delta = (minlen / 256 + 1) * 256 in
    if alloc (length b.buf + delta)
    then (record b { buf = b.buf ++ replicate delta 0 }, true)
    else (b, false)

-- The word that `blob_init` writes.
unfoldable pub init_word : ℕ → ℕ → ℕ
init_word id len = id % 128 * 16777216 + len % 16777216

-- `blob_init`.
unfoldable pub blob_init : List ℕ → ℕ → ℕ → ℕ → Option (List ℕ)
blob_init mem attr id len = store mem attr (put_be32 (init_word id len))

-- `blob_fill_pad`.
unfoldable pub blob_fill_pad : List ℕ → ℕ → Option (List ℕ)
blob_fill_pad mem attr = do
  w ← load mem attr
  let delta = blob_pad_len w - blob_raw_len w
  (if ltb 0 delta then store mem (attr + blob_pad_len w - delta) (replicate delta 0) else some mem)

-- `blob_set_raw_len`: the id and the flag are kept.
unfoldable pub blob_set_raw_len : List ℕ → ℕ → ℕ → Option (List ℕ)
blob_set_raw_len mem attr len = do
  w ← load mem attr
  store mem attr (put_be32 (w - w % 16777216 + len % 16777216))

-- The end of `blob_add`, where there is room.
unfoldable pub place : BlobBuf → ℕ → ℕ → ℕ → Option (BlobBuf × Option ℕ)
place b attr id payload = do
  mem ← blob_init b.buf attr id (payload + 4)
  mem' ← blob_fill_pad mem attr
  some (record b { buf = mem' }, some attr)

-- `blob_add` with `blob_buf_grow`: the attribute, or NULL.
unfoldable pub blob_add : (ℕ → Bool) → BlobBuf → ℕ → ℕ → ℕ → Option (BlobBuf × Option ℕ)
blob_add alloc b at id payload =
    let required = at + 4 + payload - length b.buf in
    if ltb 0 required
    then (let (b', grown) = blob_buffer_grow alloc b required in
        if grown then place b' at id payload else some (b', none))
    else place b at id payload

-- `blob_buf_init`, whether it returns 0.
unfoldable pub blob_buf_init : (ℕ → Bool) → BlobBuf → ℕ → Option (BlobBuf × Bool)
blob_buf_init alloc b id = do
  (b', attr) ← blob_add alloc (record b { head = some 0 }) 0 id 0
  some (b', elim attr [ none ↦ false | some _ ↦ true ])

-- The end of `blob_new`, with the attribute that was added.
unfoldable pub link_attr : BlobBuf → ℕ → Option ℕ → Option (BlobBuf × Option ℕ)
link_attr b head none = some (b, none)
link_attr b head (some attr) = do
  w ← load b.buf head
  v ← load b.buf attr
  mem ← blob_set_raw_len b.buf head (blob_pad_len w + blob_pad_len v)
  some (record b { buf = mem }, some attr)

-- `blob_new`.
unfoldable pub blob_new : (ℕ → Bool) → BlobBuf → ℕ → ℕ → Option (BlobBuf × Option ℕ)
blob_new alloc b id payload = do
  head ← b.head
  w ← load b.buf head
  (b', attr) ← blob_add alloc b (head + blob_pad_len w) id payload
  link_attr b' head attr

-- The copy of the payload at the end of `blob_put`.
unfoldable pub fill_data : BlobBuf → Option ℕ → List ℕ → Option (BlobBuf × Option ℕ)
fill_data b none src = some (b, none)
fill_data b (some attr) src = do
  mem ← store b.buf (attr + 4) src
  some (record b { buf = mem }, some attr)

-- `blob_put` of bytes that are not NULL.
unfoldable pub blob_put : (ℕ → Bool) → BlobBuf → ℕ → List ℕ → Option (BlobBuf × Option ℕ)
blob_put alloc b id src = do (b', attr) ← blob_new alloc b id (length src); fill_data b' attr src

-- The end of `blob_put_raw`.
unfoldable pub link_raw : BlobBuf → ℕ → Option ℕ → List ℕ → Option (BlobBuf × Option ℕ)
link_raw b head none src = some (b, none)
link_raw b head (some attr) src = do
  w ← load b.buf head
  mem ← blob_set_raw_len b.buf head (blob_pad_len w + length src)
  mem' ← store mem attr src
  some (record b { buf = mem' }, some attr)

-- `blob_put_raw` of bytes that are not NULL.
unfoldable pub blob_put_raw : (ℕ → Bool) → BlobBuf → List ℕ → Option (BlobBuf × Option ℕ)
blob_put_raw alloc b src = if ltb (length src) 4 then some (b, none) else do
  head ← b.head
  w ← load b.buf head
  (b', attr) ← blob_add alloc b (head + blob_pad_len w) 0 (length src - 4)
  link_raw b' head attr src

-- `blob_nest_start`: the new head, and the old one as the cookie, or NULL.
unfoldable pub blob_nest_start : (ℕ → Bool) → BlobBuf → ℕ → Option (BlobBuf × Option ℕ)
blob_nest_start alloc b id = do
  offset ← b.head
  (b', attr) ← blob_new alloc b id 0
  some (record b' { head = attr }, elim attr [ none ↦ none | some _ ↦ some offset ])

-- `blob_nest_end`.
unfoldable pub blob_nest_end : BlobBuf → ℕ → Option BlobBuf
blob_nest_end b cookie = do
  w ← load b.buf cookie
  head ← b.head
  v ← load b.buf head
  mem ← blob_set_raw_len b.buf cookie (blob_pad_len w + blob_len v)
  some (record b { head = some cookie; buf = mem })

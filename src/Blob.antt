-- ===== src/Blob.antt =====
-- blob.c and blob.h, the tagged binary attributes: their header, the iteration over nested attributes
-- and the parser. A pointer to an attribute is the memory from it on, a list of bytes.
pub mod Buffer
pub mod Iterate
pub mod Parse
mod Tests
use libubox.Base.{
  ℕ, ◌+◌, ◌-◌, ◌*◌, ◌/◌, ◌%◌, ◌≤◌, ◌<◌, ◌≡◌, refl, Bool, Option, none, some, List, [], ◌∷◌, arith,
  ltb, ◌==◌, if◌then◌else◌, length, drop,
}
use libubox.Base.Int.{ℤ, pos, negsuc}

-- `be32_to_cpu(attr->id_len)`; `none` if the header is not in the memory.
unfoldable pub id_len : List ℕ → Option ℕ
id_len (a ∷ b ∷ c ∷ d ∷ _) = some (a * 16777216 + b * 65536 + c * 256 + d)
id_len _ = none

-- `blob_data`.
abbrev pub blob_data : List ℕ → List ℕ
blob_data attr = drop 4 attr

-- `blob_id` of the word `id_len`: the bits of BLOB_ATTR_ID_MASK, shifted.
abbrev pub blob_id : ℕ → ℕ
blob_id w = w / 16777216 % 128

-- `blob_is_extended`.
abbrev pub blob_is_extended : ℕ → Bool
blob_is_extended w = w / 2147483648 % 2 == 1

-- `blob_len`, in 32 bits: it wraps around where the length in the header is below 4.
abbrev pub blob_len : ℕ → ℕ
blob_len w = (w % 16777216 + 4294967296 - 4) % 4294967296

-- `blob_raw_len`.
abbrev pub blob_raw_len : ℕ → ℕ
blob_raw_len w = (blob_len w + 4) % 4294967296

-- `blob_pad_len`: the length, rounded up to a multiple of 4.
unfoldable pub blob_pad_len : ℕ → ℕ
blob_pad_len w = (blob_raw_len w + 3) % 4294967296 / 4 * 4

-- An `unsigned int` as an `int`.
abbrev pub to_int : ℕ → ℤ
to_int w = if ltb w 2147483648 then pos w else negsuc (4294967296 - w - 1)

-- What the header says, without the wrap-around.
pub blob_pad_len-raw : (w : ℕ) → blob_pad_len w ≡ (w % 16777216 + 3) / 4 * 4
unfolding blob_pad_len
blob_pad_len-raw w = omega arith

pub blob_pad_len-bounds :
    (w : ℕ)
    → (w % 16777216 ≤ blob_pad_len w)
      × (blob_pad_len w < w % 16777216 + 4)
      × (blob_pad_len w % 4 ≡ 0)
unfolding blob_pad_len
blob_pad_len-bounds w = omega arith

pub blob_len-raw : (w : ℕ) → 4 ≤ w % 16777216 → blob_len w + 4 ≡ w % 16777216
blob_len-raw w h = omega arith

-- The header can be read where four bytes are left.
pub id_len-some : (mem : List ℕ) → 4 ≤ length mem → (w : ℕ) × (id_len mem ≡ some w)
unfolding id_len
id_len-some (a ∷ b ∷ c ∷ d ∷ r) h = (_, refl)
id_len-some [] h = absurd (omega arith)
id_len-some (a ∷ []) h = absurd (omega arith)
id_len-some (a ∷ b ∷ []) h = absurd (omega arith)
id_len-some (a ∷ b ∷ c ∷ []) h = absurd (omega arith)

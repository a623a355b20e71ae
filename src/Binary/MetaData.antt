-- ===== src/Binary/MetaData.antt =====
-- The class MetaData of shared/BinaryHeader.h and .cpp: an entry of a kernel's metadata, kept as the
-- bytes that are stored: two of length, one of type, and the value.
pub mod Values
pub mod Stored
use vc4cl.Prelude.{
  ℕ, zero, suc, ◌+◌, ◌-◌, ◌*◌, ◌/◌, ◌%◌, ◌^◌, ◌≤◌, ◌<◌, bit_and, bit_or, ◌&&◌, Bool, List, [], ◌∷◌,
  length, drop, take, Option, none, some, get_elem?, ltb, leb, if◌then◌else◌,
}
use vc4cl.Binary.Reader.{
  Read, ok, too_short, out_of_bounds, Reader, ◌>>=◌, ◌>>◌, pure, expect, peek_word,
}
use vc4cl.Binary.Bytes.{write_byte_container, read_byte_container}

pub data MetaDataType : Type 0 where
  kernel_work_group_size kernel_work_group_size_hint kernel_vector_type_hint : MetaDataType
  kernel_local_memory_size kernel_private_memory_size : MetaDataType

-- The enumeration counts from zero.
abbrev pub type_code : MetaDataType → ℕ
type_code kernel_work_group_size = 0
type_code kernel_work_group_size_hint = 1
type_code kernel_vector_type_hint = 2
type_code kernel_local_memory_size = 3
type_code kernel_private_memory_size = 4

pub record MetaData : Type 0 where
  pub payload : List ℕ

-- `val & ((1 << bits) - 1)`
abbrev pub truncate : ℕ → ℕ → ℕ
truncate bits val = bit_and val (2 ^ bits - 1)

-- `too_short` is the exception for an empty payload.
unfoldable pub get_type : MetaData → Read ℕ
get_type m = elim m.payload [
  | [] ↦ too_short
  | b ∷ bytes ↦ elim (get_elem? bytes 1) [ none ↦ out_of_bounds | some t ↦ ok t ]
]

unfoldable pub to_binary_data : MetaData → List ℕ
to_binary_data m = write_byte_container m.payload

unfoldable pub from_binary_data : Reader MetaData
from_binary_data = do
  expect 0
  first ← peek_word
  payload ← read_byte_container (bit_and first 0xFFFF)
  pure (record { payload = payload })

-- `none` is the exception for a text that is too long.
unfoldable pub set_string : MetaDataType → List ℕ → Option MetaData
set_string type text =
    let num_bytes : ℕ = length text + 3 in
    if ltb 65535 (length text)
    then none
    else some (record {
      payload =
          truncate 8 num_bytes ∷ truncate 8 (num_bytes / 2 ^ 8) ∷ type_code type % 2 ^ 8 ∷ text;
    })

-- `none` where the two ends of the text do not lie in the payload in this order.
unfoldable pub get_string : MetaData → Option (List ℕ)
get_string m = elim (get_elem? m.payload 0) [
  | none ↦ none
  | some low ↦ elim (get_elem? m.payload 1) [
    | none ↦ none
    | some high ↦
        let num_bytes : ℕ = low + high * 2 ^ 8 in
        if leb 3 num_bytes && leb num_bytes (length m.payload)
        then some (take (num_bytes - 3) (drop 3 m.payload))
        else none
  ]
]

-- The four bytes of a value, the lowest first.
abbrev pub value_bytes : ℕ → List ℕ → List ℕ
value_bytes v rest =
    truncate 8 v ∷ truncate 8 (v / 2 ^ 8) ∷ truncate 8 (v / 2 ^ 16) ∷ truncate 8 (v / 2 ^ 24) ∷ rest

-- `payload[k] | payload[k + 1] << 8 | payload[k + 2] << 16 | payload[k + 3] << 24`
unfoldable pub value_at : List ℕ → Option ℕ
value_at (a ∷ b ∷ c ∷ d ∷ rest) =
    some (bit_or (bit_or (bit_or a (b * 2 ^ 8)) (c * 2 ^ 16)) (d * 2 ^ 24))
value_at _ = none

-- `payload.resize(16)`, and each of the sixteen bytes is written.
unfoldable pub set_sizes : MetaDataType → ℕ × ℕ × ℕ → MetaData
set_sizes type (x, y, z) = record {
  payload = 16 ∷ 0 ∷ type_code type % 2 ^ 8 ∷ 0 ∷ value_bytes x (value_bytes y (value_bytes z []));
}

unfoldable pub get_sizes : MetaData → Option (ℕ × ℕ × ℕ)
get_sizes m = elim (value_at (drop 4 m.payload)) [
  | none ↦ none
  | some x ↦ elim (value_at (drop 8 m.payload)) [
    | none ↦ none
    | some y ↦ elim (value_at (drop 12 m.payload)) [ none ↦ none | some z ↦ some (x, y, z) ]
  ]
]

unfoldable pub set_int : MetaDataType → ℕ → MetaData
set_int type val = record { payload = 8 ∷ 0 ∷ type_code type % 2 ^ 8 ∷ 0 ∷ value_bytes val [] }

unfoldable pub get_int : MetaData → Option ℕ
get_int m = value_at (drop 4 m.payload)

-- ===== src/Binary/KernelHeader.antt =====
-- The structs KernelUniforms and KernelHeader of shared/BinaryHeader.h and .cpp: a kernel function.
pub mod Stored
use vc4cl.Prelude.{
  ℕ, zero, suc, ◌+◌, ◌*◌, ◌/◌, ◌%◌, ◌^◌, bit_and, bit_or, ◌==◌, not, Bool, List, [], ◌∷◌, ◌++◌,
  length,
}
use vc4cl.Bitfield.{mask, get_entry, set_entry}
use vc4cl.Binary.Reader.{Reader, ◌>>=◌, ◌>>◌, pure, expect, next_word, read_many, write_many}
use vc4cl.Binary.Bytes.{write_byte_container, read_byte_container}
use vc4cl.Binary.MetaData.{MetaData, truncate}
use vc4cl.Binary.MetaData
use vc4cl.Binary.ParamHeader.{ParamHeader, get_vector_elements}
use vc4cl.Binary.ParamHeader

pub record KernelHeader : Type 0 where
  pub value : ℕ  -- uint64_t
  pub work_group_size : ℕ × ℕ × ℕ  -- uint16_t each
  pub work_item_merge_factor : ℕ  -- uint8_t
  pub uniforms_used : ℕ  -- uint32_t, the value of a KernelUniforms
  pub meta_data : List MetaData
  pub name : List ℕ
  pub parameters : List ParamHeader

-- The entries of a KernelUniforms are single bits: the position is that of the BITFIELD_ENTRY.
unfoldable pub uniform_used : ℕ → ℕ → Bool
uniform_used value pos = not (get_entry value pos (mask 1) == 0)

-- The count of a bitset of `n` bits.
unfoldable pub count_bits : ℕ → ℕ → ℕ
count_bits zero value = 0
count_bits (suc n) value = value % 2 + count_bits n (value / 2)

-- sizeof(value) * 8 bits
unfoldable pub count_uniforms : ℕ → ℕ
unfolding count_bits
count_uniforms value = count_bits 32 value

unfoldable pub get_offset : KernelHeader → ℕ
get_offset k = get_entry k.value 0 (mask 24)

unfoldable pub get_length : KernelHeader → ℕ
get_length k = get_entry k.value 24 (mask 22)

unfoldable pub get_name_length : ℕ → ℕ
get_name_length value = get_entry value 46 (mask 10)

unfoldable pub get_param_count : ℕ → ℕ
get_param_count value = get_entry value 56 (mask 8)

unfoldable pub set_name : List ℕ → KernelHeader → KernelHeader
set_name name k = record k { name = name; value = set_entry 64 k.value (length name) 46 (mask 10) }

unfoldable pub add_parameter : ParamHeader → KernelHeader → KernelHeader
add_parameter param k = record k {
  parameters = k.parameters ++ param ∷ [];
  value = set_entry 64 k.value (length (k.parameters ++ param ∷ [])) 56 (mask 8);
}

unfoldable pub explicit_uniforms : List ParamHeader → ℕ
explicit_uniforms [] = 0
explicit_uniforms (p ∷ params) = get_vector_elements p + explicit_uniforms params

unfoldable pub get_explicit_uniform_count : KernelHeader → ℕ
unfolding explicit_uniforms
get_explicit_uniform_count k = explicit_uniforms k.parameters

unfoldable pub second_word : KernelHeader → ℕ
second_word k =
    let (x, y, z) = k.work_group_size in
    bit_or (bit_or (bit_or x (y * 2 ^ 16)) (z * 2 ^ 32)) (k.work_item_merge_factor * 2 ^ 48)

unfoldable pub third_word : KernelHeader → ℕ
third_word k = bit_or k.uniforms_used (bit_and (length k.meta_data) 0xFFFF_FFFF * 2 ^ 32)

unfoldable pub to_binary_data : KernelHeader → List ℕ
to_binary_data k =
    k.value ∷ second_word k ∷ third_word k ∷ write_byte_container k.name
    ++ (write_many ParamHeader.to_binary_data k.parameters
        ++ write_many MetaData.to_binary_data k.meta_data)

unfoldable pub from_binary_data : Reader KernelHeader
from_binary_data = do
  expect 4
  value ← next_word
  second ← next_word
  third ← next_word
  name ← read_byte_container (get_name_length value)
  parameters ← read_many (get_param_count value) ParamHeader.from_binary_data
  meta_data ← read_many (truncate 32 (third / 2 ^ 32)) MetaData.from_binary_data
  pure (record {
    value = value;
    work_group_size =
        (truncate 16 second, truncate 16 (second / 2 ^ 16), truncate 16 (second / 2 ^ 32));
    work_item_merge_factor = truncate 8 (second / 2 ^ 48);
    uniforms_used = truncate 32 third;
    meta_data = meta_data;
    name = name;
    parameters = parameters;
  })

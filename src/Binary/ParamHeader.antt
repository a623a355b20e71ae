-- ===== src/Binary/ParamHeader.antt =====
-- The struct ParamHeader of shared/BinaryHeader.h and .cpp: a parameter of a kernel.
pub mod Stored
use vc4cl.Prelude.{ℕ, ◌+◌, ◌%◌, ◌^◌, ◌==◌, ◌&&◌, not, Bool, List, [], ◌∷◌, ◌++◌, length}
use vc4cl.Bitfield.{mask, get_entry, set_entry}
use vc4cl.Binary.Reader.{Reader, ◌>>=◌, ◌>>◌, pure, expect, next_word}
use vc4cl.Binary.Bytes.{write_byte_container, read_byte_container}

pub record ParamHeader : Type 0 where
  pub value : ℕ  -- uint64_t
  pub name : List ℕ
  pub type_name : List ℕ

abbrev flag : ParamHeader → ℕ → Bool
flag p pos = not (get_entry p.value pos (mask 1) == 0)

unfoldable pub get_size : ParamHeader → ℕ
get_size p = get_entry p.value 0 (mask 13)

unfoldable pub get_vector_elements : ParamHeader → ℕ
get_vector_elements p = get_entry p.value 13 (mask 5)

unfoldable pub get_name_length : ℕ → ℕ
get_name_length value = get_entry value 18 (mask 12)

unfoldable pub get_type_name_length : ℕ → ℕ
get_type_name_length value = get_entry value 30 (mask 12)

unfoldable pub get_input : ParamHeader → Bool
get_input p = flag p 42

unfoldable pub get_output : ParamHeader → Bool
get_output p = flag p 43

unfoldable pub get_by_value : ParamHeader → Bool
get_by_value p = flag p 49

unfoldable pub get_lowered : ParamHeader → Bool
get_lowered p = flag p 54

unfoldable pub get_address_space : ParamHeader → ℕ
get_address_space p = get_entry p.value 55 (mask 4)

unfoldable pub get_image : ParamHeader → Bool
get_image p = flag p 59

unfoldable pub get_pointer : ParamHeader → Bool
get_pointer p = flag p 60

unfoldable pub get_floating_type : ParamHeader → Bool
get_floating_type p = flag p 61

unfoldable pub get_signed : ParamHeader → Bool
get_signed p = flag p 62

unfoldable pub is_read_only : ParamHeader → Bool
unfolding get_input get_output
is_read_only p = get_input p && not (get_output p)

unfoldable pub is_write_only : ParamHeader → Bool
unfolding get_input get_output
is_write_only p = get_output p && not (get_input p)

-- The length is cast to 16 bits, and the entry takes 12 of them.
unfoldable pub set_name : List ℕ → ParamHeader → ParamHeader
set_name name p = record p {
  name = name;
  value = set_entry 64 p.value (length name % 2 ^ 16) 18 (mask 12);
}

unfoldable pub set_type_name : List ℕ → ParamHeader → ParamHeader
set_type_name name p = record p {
  type_name = name;
  value = set_entry 64 p.value (length name % 2 ^ 16) 30 (mask 12);
}

unfoldable pub to_binary_data : ParamHeader → List ℕ
to_binary_data p = p.value ∷ write_byte_container p.name ++ write_byte_container p.type_name

unfoldable pub from_binary_data : Reader ParamHeader
from_binary_data = do
  expect 2
  value ← next_word  -- ParamHeader param{data[dataIndex]}
  name ← read_byte_container (get_name_length value)
  type_name ← read_byte_container (get_type_name_length value)
  pure (record { value = value; name = name; type_name = type_name })

-- ===== src/Binary/ModuleHeader.antt =====
-- The struct ModuleHeader of shared/BinaryHeader.h and .cpp: a compiled module, as it is stored.
pub mod Stored
use vc4cl.Prelude.{
  ℕ, ◌+◌, ◌-◌, ◌*◌, ◌^◌, bit_or, List, [], ◌∷◌, ◌++◌, length, replicate, set, get_elem?, Option,
  none, some, ltb, if◌then◌else◌,
}
use vc4cl.Bitfield.{mask, get_entry, set_entry}
use vc4cl.Binary.Reader.{Read, ok, too_short, out_of_bounds, Reader, read_many, write_many}
use vc4cl.Binary.KernelHeader.{KernelHeader}
use vc4cl.Binary.KernelHeader

pub record ModuleHeader : Type 0 where
  pub value : ℕ  -- uint64_t
  pub kernels : List KernelHeader

abbrev pub qpuasm_magic_number : ℕ
qpuasm_magic_number = 0xDEADBEAF

unfoldable pub get_kernel_count : ℕ → ℕ
get_kernel_count value = get_entry value 0 (mask 10)

unfoldable pub get_global_data_offset : ℕ → ℕ
get_global_data_offset value = get_entry value 10 (mask 16)

unfoldable pub get_global_data_size : ℕ → ℕ
get_global_data_size value = get_entry value 26 (mask 20)

unfoldable pub get_stack_frame_size : ℕ → ℕ
get_stack_frame_size value = get_entry value 46 (mask 16)

unfoldable pub add_kernel : KernelHeader → ModuleHeader → ModuleHeader
add_kernel kernel m = record {
  kernels = m.kernels ++ kernel ∷ [];
  value = set_entry 64 m.value (length (m.kernels ++ kernel ∷ [])) 0 (mask 10);
}

-- The words up to the global data: magic number, place of the module's word, kernels, a zero.
unfoldable pub head_words : ModuleHeader → List ℕ
head_words m =
    bit_or qpuasm_magic_number (qpuasm_magic_number * 2 ^ 32)
      ∷ 0
      ∷ write_many KernelHeader.to_binary_data m.kernels
    ++ 0 ∷ []

-- The module's word with the place and size of the global data and of the stack frame.
unfoldable pub final_value : ModuleHeader → List ℕ → ℕ → ℕ
final_value m global_data num_stack_words =
    let offset : ℕ = length (head_words m) in
    let placed : ℕ = set_entry 64 m.value offset 10 (mask 16) in
    let framed : ℕ = set_entry 64 placed num_stack_words 46 (mask 16) in
    let size : ℕ = offset + length global_data + num_stack_words in
    set_entry 64 framed (size - get_global_data_offset framed) 26 (mask 20)

-- The words, and the module with its word updated. `result[1] = value` comes last.
unfoldable pub to_binary_data : ModuleHeader → List ℕ → ℕ → List ℕ × ModuleHeader
to_binary_data m global_data num_stack_words =
    let value : ℕ = final_value m global_data num_stack_words in
    let words : List ℕ = head_words m ++ (global_data ++ (replicate num_stack_words 0 ++ 0 ∷ [])) in
    (set words 1 value, record m { value = value })

unfoldable pub from_binary_data : List ℕ → Read ModuleHeader
from_binary_data words = if ltb (length words) 2 then too_short else elim (get_elem? words 1) [
  | none ↦ out_of_bounds
  | some value ↦ elim (read_many (get_kernel_count value) KernelHeader.from_binary_data words 2) [
    | ok (kernels, i) ↦ ok (record { value = value; kernels = kernels })
    | too_short ↦ too_short
    | out_of_bounds ↦ out_of_bounds
  ]
]

-- ===== src/Binary/Examples.antt =====
-- Tests and instances: a module with one kernel of one parameter and one metadata entry.
use vc4cl.Prelude.{ℕ, ◌≡◌, refl, arith, List, [], ◌∷◌, some, drop, length}
use vc4cl.Bitfield.{get_entry}
use vc4cl.Binary.Reader.{ok, write_many}
use vc4cl.Binary.Bytes.{write_byte_container, fill_words, num_words}
use vc4cl.Binary.MetaData.{
  MetaData, kernel_local_memory_size, kernel_vector_type_hint, kernel_work_group_size,
}
use vc4cl.Binary.MetaData
use vc4cl.Binary.MetaData.Values.{get_string-set_string}
use vc4cl.Binary.MetaData.Stored as MetaDataStored
use vc4cl.Binary.ParamHeader.{ParamHeader}
use vc4cl.Binary.ParamHeader
use vc4cl.Binary.ParamHeader.Stored as ParamHeaderStored
use vc4cl.Binary.KernelHeader.{KernelHeader}
use vc4cl.Binary.KernelHeader
use vc4cl.Binary.KernelHeader.Stored as KernelHeaderStored
use vc4cl.Binary.ModuleHeader.{ModuleHeader, head_words}
use vc4cl.Binary.ModuleHeader
use vc4cl.Binary.ModuleHeader.Stored.{
  IsStored, from_binary_data-to_binary_data, global_data_located, add_kernel-IsStored,
}

abbrev blank_param : ParamHeader
blank_param = record { value = 0; name = []; type_name = [] }

blank_param-IsStored : ParamHeaderStored.IsStored blank_param
unfolding ParamHeader.get_name_length ParamHeader.get_type_name_length get_entry
blank_param-IsStored = record {
  word = omega arith;
  name_bytes = tt;
  type_name_bytes = tt;
  name_sized = refl;
  type_name_sized = refl;
}

abbrev out_name : List ℕ
out_name = b'o' ∷ b'u' ∷ b't' ∷ []

abbrev int_name : List ℕ
int_name = b'i' ∷ b'n' ∷ b't' ∷ b'*' ∷ []

abbrev out_param : ParamHeader
out_param = ParamHeader.set_type_name int_name (ParamHeader.set_name out_name blank_param)

out_param-IsStored : ParamHeaderStored.IsStored out_param
out_param-IsStored =
    ParamHeaderStored.set_type_name-IsStored (ParamHeader.set_name out_name blank_param) int_name
      (omega arith) (omega arith)
      (ParamHeaderStored.set_name-IsStored blank_param out_name (omega arith) (omega arith)
        blank_param-IsStored)

abbrev blank_kernel : KernelHeader
blank_kernel = record {
  value = 0;
  work_group_size = (8, 1, 1);
  work_item_merge_factor = 1;
  uniforms_used = 5;
  meta_data = MetaData.set_int kernel_local_memory_size 1000 ∷ [];
  name = [];
  parameters = [];
}

blank_kernel-IsStored : KernelHeaderStored.IsStored blank_kernel
unfolding KernelHeader.get_name_length KernelHeader.get_param_count get_entry
blank_kernel-IsStored = record {
  word = omega arith;
  size_x = omega arith;
  size_y = omega arith;
  size_z = omega arith;
  factor = omega arith;
  uniforms = omega arith;
  name_bytes = tt;
  name_sized = refl;
  params_counted = refl;
  meta_counted = omega arith;
  params = tt;
  meta = (MetaDataStored.set_int-IsStored kernel_local_memory_size 1000, tt);
}

abbrev kernel : KernelHeader
kernel = KernelHeader.add_parameter out_param (KernelHeader.set_name out_name blank_kernel)

kernel-IsStored : KernelHeaderStored.IsStored kernel
unfolding KernelHeader.set_name
kernel-IsStored =
    KernelHeaderStored.add_parameter-IsStored (KernelHeader.set_name out_name blank_kernel)
      out_param out_param-IsStored (omega arith)
      (KernelHeaderStored.set_name-IsStored blank_kernel out_name (omega arith) (omega arith)
        blank_kernel-IsStored)

abbrev blank_module : ModuleHeader
blank_module = record { value = 0; kernels = [] }

blank_module-IsStored : IsStored blank_module
unfolding ModuleHeader.get_kernel_count get_entry
blank_module-IsStored = record { word = omega arith; counted = refl; stored = tt }

abbrev pub module_one : ModuleHeader
module_one = ModuleHeader.add_kernel kernel blank_module

pub module_one-IsStored : IsStored module_one
module_one-IsStored =
    add_kernel-IsStored blank_module kernel kernel-IsStored (omega arith) blank_module-IsStored

from_binary_data-to_binary_data_example :
    ModuleHeader.from_binary_data (ModuleHeader.to_binary_data module_one (17 ∷ []) 2).0
    ≡ ok (ModuleHeader.to_binary_data module_one (17 ∷ []) 2).1
from_binary_data-to_binary_data_example =
    from_binary_data-to_binary_data module_one (17 ∷ []) 2 module_one-IsStored

-- Two words, eight of the kernel, and a zero.
pub head_words_short : length (head_words module_one) ≡ 11
unfolding head_words write_many KernelHeader.to_binary_data ParamHeader.to_binary_data
    MetaData.to_binary_data ModuleHeader.add_kernel KernelHeader.add_parameter KernelHeader.set_name
    ParamHeader.set_name ParamHeader.set_type_name MetaData.set_int write_byte_container fill_words
    num_words
head_words_short = refl

global_data_located_example :
    drop
      (ModuleHeader.get_global_data_offset
        (ModuleHeader.to_binary_data module_one (17 ∷ []) 2).1.value)
      (ModuleHeader.to_binary_data module_one (17 ∷ []) 2).0
    ≡ 17 ∷ 0 ∷ 0 ∷ 0 ∷ []
global_data_located_example =
    (global_data_located module_one (17 ∷ []) 2 module_one-IsStored
      (omega (arith, head_words_short)) (omega arith) (omega arith)).0

get_string-set_string_example :
    MetaData.get_string (record { payload = 6 ∷ 0 ∷ 2 ∷ out_name }) ≡ some out_name
unfolding MetaData.set_string
get_string-set_string_example =
    get_string-set_string kernel_vector_type_hint out_name
      (record { payload = 6 ∷ 0 ∷ 2 ∷ out_name }) (omega arith) refl

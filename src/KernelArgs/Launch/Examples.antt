-- ===== src/KernelArgs/Launch/Examples.antt =====
-- An instance: a kernel with a buffer and local memory.
use vc4cl.Prelude.{◌+◌, ◌^◌, ◌≡◌, refl, arith, true, false, [], ◌∷◌, none, some, replicate}
use vc4cl.Prelude.Codes.{cl_success}
use vc4cl.Bitfield.{get_entry}
use vc4cl.Binary.Bytes.{word_of_bytes}
use vc4cl.Binary.ParamHeader.{
  ParamHeader, get_by_value, get_pointer, get_address_space, get_image, get_lowered,
}
use vc4cl.WorkSizes.{Sizes, set_work_group_sizes}
use vc4cl.WorkSizes
use vc4cl.KernelArgs.{Kernel, Surroundings, buffer, temporary_buffer, new_kernel, set_arg}
use vc4cl.KernelArgs.Tracked.{SetArgs, created, call}
use vc4cl.KernelArgs.Launch.{
  System, initialize, for_arguments, allocate_temporary, track_buffer,
  allocate_and_track_buffer_arguments, explicit_words,
}
use vc4cl.KernelArgs.Launch.Found.{argument_words}
use vc4cl.KernelArgs.Launch.Enqueue.{
  KernelExecution, handed_over, enqueue_nd_range, enqueue_nd_range-explicit_words,
}

-- A pointer to global memory, and one to local memory.
abbrev global_pointer : ParamHeader
global_pointer = record { value = 4 + 2 ^ 13 + 2 ^ 56 + 2 ^ 60; name = []; type_name = [] }

abbrev local_pointer : ParamHeader
local_pointer = record { value = 4 + 2 ^ 13 + 2 ^ 57 + 2 ^ 60; name = []; type_name = [] }

abbrev env : Surroundings
env = record {
  object_at = λ handle. some (record { same_context = true; readable = true; writeable = true });
  total_gpu_memory = 2 ^ 26;
}

abbrev system : System
system = record {
  allocate =
      λ host_visible i size. some (record { qpu_pointer = 4096 + i; contents = 9 ∷ 9 ∷ 9 ∷ [] });
  buffer_at =
      λ handle. record { references_valid = true; has_device_buffer = true; device_pointer = 64 };
  zero_memory = true;
}

abbrev first_set : Kernel
first_set = record {
  parameters = global_pointer ∷ local_pointer ∷ [];
  args = some (buffer (some 7)) ∷ none ∷ [];
  args_set_mask = true ∷ replicate 63 false;
}

abbrev both_set : Kernel
both_set = record {
  parameters = global_pointer ∷ local_pointer ∷ [];
  args = some (buffer (some 7)) ∷ some (temporary_buffer 2 []) ∷ [];
  args_set_mask = true ∷ true ∷ replicate 62 false;
}

first_call :
    set_arg env (new_kernel (global_pointer ∷ local_pointer ∷ [])) 0 4 (some (7 ∷ 0 ∷ 0 ∷ 0 ∷ []))
    ≡ some (first_set, cl_success)
unfolding new_kernel set_arg get_by_value get_pointer get_address_space get_image word_of_bytes
    get_entry
first_call = refl

second_call : set_arg env first_set 1 2 none ≡ some (both_set, cl_success)
unfolding set_arg get_by_value get_pointer get_address_space get_entry
second_call = refl

calls : SetArgs (global_pointer ∷ local_pointer ∷ []) both_set
calls =
    call env 1 2 none cl_success
      (call env 0 4 (some (7 ∷ 0 ∷ 0 ∷ 0 ∷ [])) cl_success created first_call) second_call

abbrev sizing : WorkSizes.Kernel
sizing = record {
  num_qpus = 12;
  work_item_merge_factor = 1;
  work_group_size = record { x = 0; y = 0; z = 0 };
  num_parameters = 0;
  args_set_mask = 0;
  num_kernels = 1;
}

abbrev sixteen : Sizes
sixteen = record { x = 16; y = 1; z = 1 }

abbrev eight : Sizes
eight = record { x = 8; y = 1; z = 1 }

-- The local memory is zeroed as far as it goes.
abbrev launch : KernelExecution
launch = record {
  num_dimensions = 1;
  global_offsets = record { x = 0; y = 0; z = 0 };
  global_sizes = sixteen;
  local_sizes = eight;
  execution_arguments = both_set.args;
  tmp_buffers = (1, some (record { qpu_pointer = 4097; contents = 0 ∷ 0 ∷ 9 ∷ [] })) ∷ [];
  persistent_buffers = (0, some 64) ∷ [];
}

launched :
    enqueue_nd_range system both_set sizing true 1 none (some sixteen) (some eight) true true
    ≡ handed_over launch
unfolding enqueue_nd_range set_work_group_sizes allocate_and_track_buffer_arguments
    WorkSizes.mismatches WorkSizes.check_sizes for_arguments allocate_temporary get_lowered
    get_entry track_buffer initialize
launched = refl

enqueue_nd_range-explicit_words_example :
    (launch.execution_arguments ≡ both_set.args)
    × (explicit_words launch.tmp_buffers launch.persistent_buffers 0 launch.execution_arguments
        ≡ some ((64 ∷ []) ∷ (4097 ∷ []) ∷ []))
unfolding argument_words get_lowered get_entry
enqueue_nd_range-explicit_words_example =
    enqueue_nd_range-explicit_words system both_set sizing true 1 none (some sixteen) (some eight)
      true true launch calls (omega arith) launched

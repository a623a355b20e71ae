-- ===== src/KernelArgs/Examples.antt =====
-- Tests and instances: a kernel with a char3 and a buffer as parameters.
use vc4cl.Prelude.{
  ℕ, ◌≡◌, ◌↔◌, ◌+◌, ◌*◌, ◌^◌, refl, inl, arith, true, false, List, [], ◌∷◌, replicate, All, none,
  some,
}
use vc4cl.Prelude.Codes.{cl_success, cl_invalid_kernel_args}
use vc4cl.Bitfield.{get_entry}
use vc4cl.Binary.ParamHeader.{
  ParamHeader, get_size, get_vector_elements, get_by_value, get_pointer, get_floating_type,
  get_signed,
}
use vc4cl.Binary.KernelHeader.{explicit_uniforms}
use vc4cl.WorkSizes.{Sizes, failed, set_work_group_sizes}
use vc4cl.WorkSizes
use vc4cl.KernelArgs.{
  Kernel, Surroundings, scalar, new_kernel, set_arg, scalar_words, sign_extend, element,
}
use vc4cl.KernelArgs.Tracked.{IsGiven, created, call, enqueued, missing_args_refused}
use vc4cl.KernelArgs.Words.{Stored, set_arg-bytes_kept, set_arg-vector3}

-- Four bytes, three elements, signed.
abbrev char3 : ParamHeader
char3 = record { value = 4 + 3 * 2 ^ 13 + 2 ^ 62; name = []; type_name = [] }

-- A pointer to global memory.
abbrev pointer : ParamHeader
pointer = record { value = 4 + 2 ^ 13 + 2 ^ 55 + 2 ^ 60; name = []; type_name = [] }

abbrev long : ParamHeader
long = record { value = 8 + 2 ^ 13 + 2 ^ 62; name = []; type_name = [] }

abbrev env : Surroundings
env = record {
  object_at = λ handle. some (record { same_context = true; readable = true; writeable = true });
  total_gpu_memory = 2 ^ 26;
}

abbrev kernel : Kernel
kernel = new_kernel (char3 ∷ pointer ∷ [])

abbrev bytes : List ℕ
bytes = 1 ∷ 255 ∷ 3 ∷ 0 ∷ []

abbrev with_char3 : Kernel
with_char3 = record {
  parameters = char3 ∷ pointer ∷ [];
  args = some (scalar (1 ∷ 4294967295 ∷ 3 ∷ [])) ∷ none ∷ [];
  args_set_mask = true ∷ replicate 63 false;
}

char3_set : set_arg env kernel 0 4 (some bytes) ≡ some (with_char3, cl_success)
unfolding new_kernel set_arg scalar_words sign_extend element get_size get_vector_elements
    get_by_value get_pointer get_floating_type get_signed get_entry
char3_set = refl

direct : get_pointer char3 ≡ false
unfolding get_pointer get_entry
direct = refl

literal : get_by_value char3 ≡ false
unfolding get_by_value get_entry
literal = refl

set_arg-bytes_kept_example : Stored 3 1 bytes with_char3.args 0
unfolding new_kernel get_vector_elements get_entry
set_arg-bytes_kept_example =
    set_arg-bytes_kept env kernel with_char3 0 4 char3 bytes refl direct literal (omega arith)
      (inl refl) (omega arith) (omega arith) char3_set

-- Both sizes of a char3.
set_arg-vector3_example : set_arg env kernel 0 3 (some bytes) ≡ set_arg env kernel 0 4 (some bytes)
unfolding new_kernel get_vector_elements get_size get_entry
set_arg-vector3_example =
    set_arg-vector3 env kernel 0 char3 1 (some bytes) refl direct refl refl (omega arith)
      (omega arith)

abbrev sizing : WorkSizes.Kernel
sizing = record {
  num_qpus = 12;
  work_item_merge_factor = 1;
  work_group_size = record { x = 0; y = 0; z = 0 };
  num_parameters = 0;
  args_set_mask = 0;
  num_kernels = 1;
}

-- The buffer is missing.
missing_args_refused_example :
    (set_work_group_sizes
        (enqueued with_char3 sizing)
        true
        1
        none
        (some (record { x = 16; y = 1; z = 1 }))
        none
      ≡ failed cl_invalid_kernel_args)
    ↔ (¬ All IsGiven with_char3.args)
missing_args_refused_example =
    missing_args_refused sizing 1 none (some (record { x = 16; y = 1; z = 1 })) none
      (call env 0 4 (some bytes) cl_success created char3_set) (omega arith) (omega arith)

-- A long has one element and is counted as one UNIFORM, and is stored in two words.
long_counted : explicit_uniforms (long ∷ []) ≡ 1
unfolding explicit_uniforms get_vector_elements get_entry
long_counted = refl

long_stored :
    set_arg env (new_kernel (long ∷ [])) 0 8 (some (1 ∷ 0 ∷ 0 ∷ 0 ∷ 2 ∷ 0 ∷ 0 ∷ 0 ∷ []))
    ≡ some (
      record {
        parameters = long ∷ [];
        args = some (scalar (1 ∷ 2 ∷ [])) ∷ [];
        args_set_mask = true ∷ replicate 63 false;
      },
      cl_success,
    )
unfolding new_kernel set_arg scalar_words sign_extend element get_size get_vector_elements
    get_by_value get_pointer get_floating_type get_signed get_entry
long_stored = refl

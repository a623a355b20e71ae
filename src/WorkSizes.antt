-- ===== src/WorkSizes.antt =====
-- Kernel.cpp: the sizes of the work-groups of an enqueued kernel (Kernel::setWorkGroupSizes).
-- A size_t has 32 bits on the device, so products and sums of sizes wrap around.
mod Examples
pub mod Split
use vc4cl.Prelude.{
  ℕ, zero, suc, ◌+◌, ◌-◌, ◌*◌, ◌%◌, ◌^◌, ◌==◌, ltb, leb, max, Bool, true, false, ◌&&◌, ◌||◌, not,
  if◌then◌else◌, Option, none, some,
}
use vc4cl.Prelude.Int.{ℤ}
use vc4cl.Prelude.Codes.{
  cl_invalid_context, cl_invalid_program_executable, cl_invalid_kernel_args,
  cl_invalid_work_dimension, cl_invalid_global_work_size, cl_invalid_global_offset,
  cl_invalid_work_group_size,
}

pub record Sizes : Type 0 where
  pub x : ℕ
  pub y : ℕ
  pub z : ℕ

-- A kernel, as far as the sizes go, with the number of QPUs of the system.
pub record Kernel : Type 0 where
  pub num_qpus : ℕ  -- uint8_t
  pub work_item_merge_factor : ℕ  -- uint8_t
  pub work_group_size : Sizes  -- of the compilation, uint16_t each
  pub num_parameters : ℕ
  pub args_set_mask : ℕ  -- a bitset of 64
  pub num_kernels : ℕ  -- of its program

abbrev pub merge_factor : Kernel → ℕ
merge_factor kernel = max kernel.work_item_merge_factor 1

-- At most 255 * 255, so there is no wrap-around.
abbrev pub max_group_size : Kernel → ℕ
max_group_size kernel = kernel.num_qpus * merge_factor kernel

abbrev pub product : Sizes → ℕ
product s = s.x * s.y * s.z % 2 ^ 32

-- `none` is the answer false.
unfoldable pub split_compile_work_size : Kernel → Sizes → Option Sizes
split_compile_work_size kernel global =
    let group : Sizes = kernel.work_group_size in
    if group.x == 0 && (group.y == 0 && group.z == 0)
    then none
    else if not (global.x % group.x == 0)
        || (not (global.y % group.y == 0) || not (global.z % group.z == 0))
    then none
    else if ltb (max_group_size kernel) (product group)
    then none
    else some group

-- The loop from `size` downwards.
abbrev pub largest_divisor : ℕ → ℕ → ℕ → Option ℕ
largest_divisor limit global_x zero = none
largest_divisor limit global_x (suc n) =
    let smaller : Option ℕ = largest_divisor limit global_x n in
    if global_x % suc n == 0 && leb (suc n) limit then some (suc n) else smaller

unfoldable pub split_global_work_size : Kernel → Sizes → Option Sizes
split_global_work_size kernel global =
    if leb (product global) (max_group_size kernel)
    then some global
    else elim (largest_divisor (max_group_size kernel) global.x (max_group_size kernel)) [
      | none ↦ none
      | some size ↦ some (record { x = size; y = 1; z = 1 })
    ]

pub data Result : Type 0 where
  failed : ℤ → Result
  accepted : Sizes → Sizes → Sizes → Result

-- exceedsLimits with a lower limit of 0, which no size_t is below.
abbrev pub exceeds_limits : ℕ → ℕ → Bool
exceeds_limits value max_value = ltb max_value value

abbrev pub max_work_item_dimension : ℕ
max_work_item_dimension = 0xFFFFFFFE

abbrev pub expected_mask : ℕ → ℕ
expected_mask num_parameters = if num_parameters == 64 then 2 ^ 64 - 1 else 2 ^ num_parameters - 1

-- The first `work_dim` entries of an array, the others filled up.
abbrev pub first_entries : ℕ → ℕ → Sizes → Sizes
first_entries work_dim fill s = record {
  x = s.x;
  y = if ltb 1 work_dim then s.y else fill;
  z = if ltb 2 work_dim then s.z else fill;
}

-- The check of a local size against the one of the compilation.
unfoldable pub mismatches : ℕ → Sizes → Sizes → Bool
mismatches work_dim group local =
    not (group.x == 0)
    && (not (local.x == group.x)
        && ((ltb work_dim 2 || not (local.y == group.y))
            && (ltb work_dim 3 || not (local.z == group.z))))

abbrev pub choose_local : Kernel → ℕ → Sizes → Option Sizes → Option Sizes
choose_local kernel work_dim global none = elim (split_compile_work_size kernel global) [
  | some group ↦ some group
  | none ↦ split_global_work_size kernel global
]
choose_local kernel work_dim global (some local) =
    if mismatches work_dim kernel.work_group_size local
    then none
    else some (first_entries work_dim 1 local)

abbrev pub any_entry : (ℕ → ℕ → Bool) → Sizes → Sizes → Bool
any_entry f s t = f s.x t.x || (f s.y t.y || f s.z t.z)

-- The tests of the chosen sizes.
unfoldable pub check_sizes : Kernel → Sizes → Sizes → Sizes → Result
check_sizes kernel offsets global local =
    if any_entry (λ g o. exceeds_limits g max_work_item_dimension) global offsets
    then failed cl_invalid_global_work_size
    else if any_entry (λ g o. exceeds_limits ((g + o) % 2 ^ 32) max_work_item_dimension) global
        offsets
    then failed cl_invalid_global_offset
    else if exceeds_limits (product local) (max_group_size kernel)
    then failed cl_invalid_work_group_size
    else if any_entry (λ g l. not (l == 0) && not (g % l == 0)) global local
    then failed cl_invalid_work_group_size
    else accepted offsets global local

abbrev pub checked : Kernel → Sizes → Sizes → Option Sizes → Result
checked kernel offsets global none = failed cl_invalid_work_group_size
checked kernel offsets global (some local) = check_sizes kernel offsets global local

-- The guards that do not look at the sizes.
abbrev pub guarded : Kernel → Bool → ℕ → Result → Result
guarded kernel same_context work_dim next =
    if not same_context
    then failed cl_invalid_context
    else if kernel.num_kernels == 0
    then failed cl_invalid_program_executable
    else if not (kernel.args_set_mask == expected_mask kernel.num_parameters)
    then failed cl_invalid_kernel_args
    else if ltb 3 work_dim || ltb work_dim 1
    then failed cl_invalid_work_dimension
    else next

abbrev pub given_offsets : ℕ → Option Sizes → Sizes
given_offsets work_dim none = record { x = 0; y = 0; z = 0 }
given_offsets work_dim (some offsets) = first_entries work_dim 0 offsets

abbrev pub after_guards : Kernel → ℕ → Option Sizes → Option Sizes → Option Sizes → Result
after_guards kernel work_dim offsets none local = failed cl_invalid_global_work_size
after_guards kernel work_dim offsets (some global) local =
    let sizes : Sizes = first_entries work_dim 1 global in
    checked kernel (given_offsets work_dim offsets) sizes (choose_local kernel work_dim sizes local)

-- `none` is a null pointer. The accepted result is what the code leaves in the arrays.
unfoldable pub set_work_group_sizes :
    Kernel → Bool → ℕ → Option Sizes → Option Sizes → Option Sizes → Result
set_work_group_sizes kernel same_context work_dim offsets global local =
    guarded kernel same_context work_dim (after_guards kernel work_dim offsets global local)

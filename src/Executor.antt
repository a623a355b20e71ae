-- ===== src/Executor.antt =====
-- executor.cpp: the buffer, the UNIFORMs and the launches of one kernel execution.
-- What the QPUs do is outside: a launch is the work-group that they are started on.
mod Examples
pub mod Launches
pub mod Layout
pub mod Content
pub mod Placed
pub mod Filled
use vc4cl.Prelude.{
  ℕ, zero, suc, ◌+◌, ◌-◌, ◌*◌, ◌/◌, ◌%◌, ◌^◌, ◌==◌, ltb, leb, bit_or, Bool, true, false, ◌||◌, not,
  if◌then◌else◌, List, [], ◌∷◌, ◌++◌, length, map,
}
use vc4cl.Binary.KernelHeader.{uniform_used, count_uniforms}
use vc4cl.WorkSizes.{Sizes}

abbrev pub page_alignment : ℕ
page_alignment = 4096

abbrev pub max_hidden_parameters : ℕ
max_hidden_parameters = 14

-- The bytes of the buffer before rounding.
abbrev pub raw_size : ℕ → ℕ → ℕ → ℕ → ℕ → ℕ
raw_size num_qpus code_size num_uniforms global_data_size stack_frame_words =
    let uniform_size = 2 * 4 * num_uniforms in
    let launch_message_size = 2 * 2 * 4 * num_qpus in
    code_size
    + uniform_size
    + global_data_size
    + num_qpus * stack_frame_words * 8
    + launch_message_size

unfoldable pub get_size : ℕ → ℕ → ℕ → ℕ → ℕ → ℕ
get_size num_qpus code_size num_uniforms global_data_size stack_frame_words =
    (raw_size num_qpus code_size num_uniforms global_data_size stack_frame_words
        % 2 ^ 32
        / page_alignment
      + 1)
    * page_alignment
    % 2 ^ 32

-- `if(uniformsUsed.get...Used()) *ptr++ = word` for one flag after the other, from `pos` on.
unfoldable pub write_used : ℕ → ℕ → List ℕ → List ℕ
write_used uniforms_used pos [] = []
write_used uniforms_used pos (word ∷ words) =
    let rest : List ℕ = write_used uniforms_used (suc pos) words in
    if uniform_used uniforms_used pos then word ∷ rest else rest

-- What the work-items of one execution share.
pub record Execution : Type 0 where
  pub num_dimensions : ℕ
  pub global_offsets : Sizes
  pub global_sizes : Sizes
  pub local_sizes : Sizes
  pub uniforms_used : ℕ
  pub merge_factor : ℕ  -- at least 1
  pub arguments : List (List ℕ)  -- the words of each parameter

abbrev packed : ℕ → ℕ → ℕ → ℕ
packed z y x = bit_or (z * 2 ^ 16) (bit_or (y * 2 ^ 8) x) % 2 ^ 32

abbrev pub group_limits : Execution → Sizes
group_limits args = record {
  x = args.global_sizes.x / args.local_sizes.x;
  y = args.global_sizes.y / args.local_sizes.y;
  z = args.global_sizes.z / args.local_sizes.z;
}

-- The 13 words of set_work_item_info, in the order of their flags.
abbrev pub work_item_words : Execution → Sizes → Sizes → ℕ → List ℕ
work_item_words args group local global_data =
    args.num_dimensions % 2 ^ 32
    ∷ packed args.local_sizes.z args.local_sizes.y args.local_sizes.x
    ∷ packed local.z local.y (local.x * args.merge_factor)
    ∷ (group_limits args).x % 2 ^ 32
    ∷ (group_limits args).y % 2 ^ 32
    ∷ (group_limits args).z % 2 ^ 32
    ∷ group.x % 2 ^ 32
    ∷ group.y % 2 ^ 32
    ∷ group.z % 2 ^ 32
    ∷ args.global_offsets.x % 2 ^ 32
    ∷ args.global_offsets.y % 2 ^ 32
    ∷ args.global_offsets.z % 2 ^ 32
    ∷ global_data
    ∷ []

unfoldable pub set_work_item_info : Execution → Sizes → Sizes → ℕ → List ℕ
set_work_item_info args group local global_data =
    write_used args.uniforms_used 0 (work_item_words args group local global_data)

abbrev pub concat : List (List ℕ) → List ℕ
concat [] = []
concat (words ∷ more) = words ++ concat more

-- The words behind the parameters: the address of the block itself, and the limits of the loop.
abbrev pub loop_words : Execution → ℕ → List ℕ
loop_words args address =
    address
    ∷ (group_limits args).x % 2 ^ 32
    ∷ (group_limits args).y % 2 ^ 32
    ∷ (group_limits args).z % 2 ^ 32
    ∷ []

-- The UNIFORMs of one QPU.
unfoldable pub uniform_block : Execution → Sizes → Sizes → ℕ → ℕ → List ℕ
uniform_block args group local global_data address =
    set_work_item_info args group local global_data
    ++ (concat args.arguments ++ write_used args.uniforms_used 13 (loop_words args address))

-- The indices after the step, and whether they are in the limits.
unfoldable pub increment_index : Sizes → Sizes → ℕ → Sizes × Bool
increment_index indices limits offset =
    let x : ℕ = indices.x + offset in
    if leb limits.x x
    then if suc indices.y == limits.y
      then (record { x = x - limits.x; y = 0; z = suc indices.z }, ltb (suc indices.z) limits.z)
      else (record { x = x - limits.x; y = suc indices.y; z = indices.z }, ltb indices.z limits.z)
    else (record indices { x = x }, ltb indices.z limits.z)

-- The QPUs that a work-group takes.
unfoldable pub num_qpus_used : Execution → ℕ
num_qpus_used args =
    let local_size = args.local_sizes.x * args.local_sizes.y * args.local_sizes.z % 2 ^ 32 in
    local_size / args.merge_factor + (if local_size % args.merge_factor == 0 then 0 else 1)

-- The local indices of the QPUs, one after the other.
unfoldable pub local_indices : ℕ → Sizes → Sizes → List Sizes
local_indices zero limits indices = []
local_indices (suc n) limits indices =
    indices ∷ local_indices n limits (increment_index indices limits 1).0

-- The work-groups that are launched from the given one on, where each launch succeeds: the loop
-- `while(increment_index(group_indices, group_limits, 1))` behind the first launch, with fuel.
unfoldable pub launches : ℕ → Sizes → Sizes → List Sizes
launches zero limits group = []
launches (suc fuel) limits group =
    let (next, more) = increment_index group limits 1 in
    let rest : List Sizes = launches fuel limits next in group ∷ (if more then rest else [])

-- isWorkGroupLoopEnabled: the kernel itself loops over the groups.
unfoldable pub is_work_group_loop_enabled : Execution → Bool
is_work_group_loop_enabled args =
    uniform_used args.uniforms_used 14
    || (uniform_used args.uniforms_used 15 || uniform_used args.uniforms_used 16)

abbrev pub first_group : Sizes
first_group = record { x = 0; y = 0; z = 0 }

unfoldable pub run_groups : ℕ → Execution → List Sizes
run_groups fuel args =
    if is_work_group_loop_enabled args
    then first_group ∷ []
    else launches fuel (group_limits args) first_group

-- ===== src/Executor/Examples.antt =====
-- Tests and instances: a kernel of two work-groups on a system of 10 QPUs.
use vc4cl.Prelude.{ℕ, ◌+◌, ◌*◌, ◌^◌, ◌≤◌, ◌≡◌, refl, arith, [], ◌∷◌, length, true}
use vc4cl.Binary.KernelHeader.{count_uniforms, count_bits, explicit_uniforms}
use vc4cl.WorkSizes.{Sizes}
use vc4cl.Executor.{
  Execution, uniform_block, increment_index, launches, first_group, local_indices, num_qpus_used,
}
use vc4cl.Executor.Launches.{group_at, launches_all}
use vc4cl.Executor.Layout.{uniform_block-counted}
use vc4cl.Executor.Content.{Setup, content, buffer_size}
use vc4cl.Executor.Filled.{Located, content_fits, launch_messages-Located}
use vc4cl.Binary.ParamHeader.{ParamHeader, get_vector_elements}
use vc4cl.Bitfield.{get_entry}

abbrev sizes : ℕ → ℕ → ℕ → Sizes
sizes x y z = record { x = x; y = y; z = z }

abbrev args : Execution
args = record {
  num_dimensions = 1;
  global_offsets = sizes 0 0 0;
  global_sizes = sizes 16 1 1;
  local_sizes = sizes 8 1 1;
  uniforms_used = 5;
  merge_factor = 1;
  arguments = (100 ∷ []) ∷ (200 ∷ 300 ∷ []) ∷ [];
}

launches_all_example :
    launches 9 (sizes 2 3 1) first_group
    ≡ sizes 0 0 0 ∷ sizes 1 0 0 ∷ sizes 0 1 0 ∷ sizes 1 1 0 ∷ sizes 0 2 0 ∷ sizes 1 2 0 ∷ []
unfolding group_at
launches_all_example =
    launches_all (sizes 2 3 1) 9 (omega arith) (omega arith) (omega arith) (omega arith)

uniform_block-counted_example :
    length (uniform_block args (sizes 0 0 0) (sizes 3 0 0) 4096 4128) ≡ 5
unfolding count_uniforms count_bits
uniform_block-counted_example =
    uniform_block-counted args (sizes 0 0 0) (sizes 3 0 0) 4096 4128 (omega arith)

-- A parameter of 4 bytes with so many vector elements.
abbrev vector : ℕ → ParamHeader
vector elements = record { value = 4 + elements * 2 ^ 13; name = []; type_name = [] }

-- Three words of arguments, two QPUs more than the group takes, and a code of two instructions.
abbrev setup : Setup
setup = record {
  num_qpus = 10;
  global_data = 7 ∷ [];
  stack_frame_size = 1;
  initialize_memory = true;
  parameters = vector 1 ∷ vector 2 ∷ [];
  code = 2 ^ 40 ∷ 9 ∷ [];
  qpu_pointer = 4096;
}

content_fits_example : 4 * length (content setup args (λ i. 0)) ≤ buffer_size setup args
unfolding num_qpus_used count_uniforms count_bits explicit_uniforms get_vector_elements get_entry
content_fits_example =
    content_fits setup args (λ i. 0) (omega arith) (omega arith) (omega arith) (omega arith)
      (omega arith)

-- The second QPU of the group.
launch_messages-Located_example : Located setup args (content setup args (λ i. 0)) 1 (sizes 1 0 0)
unfolding num_qpus_used local_indices increment_index explicit_uniforms get_vector_elements
    get_entry
launch_messages-Located_example =
    launch_messages-Located setup args (λ i. 0) 1 (sizes 1 0 0) (omega arith) refl refl

-- With a merge factor of 2 the last of the 8 QPUs for a group of 8 by 2 has the first local index 7,
-- which stands for the work-items 14 and 15 of 8.
merged_index :
    local_indices 8 (sizes 8 2 1) first_group
    ≡ sizes 0 0 0
      ∷ sizes 1 0 0
      ∷ sizes 2 0 0
      ∷ sizes 3 0 0
      ∷ sizes 4 0 0
      ∷ sizes 5 0 0
      ∷ sizes 6 0 0
      ∷ sizes 7 0 0
      ∷ []
unfolding local_indices increment_index
merged_index = refl

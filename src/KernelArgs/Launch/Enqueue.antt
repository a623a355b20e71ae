-- ===== src/KernelArgs/Launch/Enqueue.antt =====
-- Kernel.cpp, Kernel::enqueueNDRange, up to the queue.
use vc4cl.Prelude.{
  ℕ, ◌%◌, ◌^◌, ◌==◌, ==_iff, ◌≤◌, ◌≡◌, refl, inl, inr, Bool, true, false, not, if◌then◌else◌, List,
  length, Option, some, All, arith, Bool-cases,
}
use vc4cl.Prelude.Int.{ℤ}
use vc4cl.Prelude.Codes.{cl_invalid_event_wait_list, cl_out_of_host_memory}
use vc4cl.Binary.ParamHeader.{ParamHeader}
use vc4cl.WorkSizes.{
  Sizes, Result, failed, accepted, expected_mask, guarded, after_guards, set_work_group_sizes,
}
use vc4cl.WorkSizes
use vc4cl.KernelArgs.{Kernel, KernelArgument, max_parameter_count}
use vc4cl.KernelArgs.Tracked.{IsGiven, SetArgs, length-SetArgs, SetArgs-IsGiven, enqueued}
use vc4cl.KernelArgs.Launch.{
  DeviceBuffer, System, Tracking, tracked, refused, allocate_and_track_buffer_arguments,
  explicit_words,
}
use vc4cl.KernelArgs.Launch.Found.{all_argument_words, explicit_words-argument_words}

-- The action of the event, with its own copy of the arguments.
pub record KernelExecution : Type 0 where
  pub num_dimensions : ℕ
  pub global_offsets : Sizes
  pub global_sizes : Sizes
  pub local_sizes : Sizes
  pub execution_arguments : List (Option KernelArgument)
  pub tmp_buffers : List (ℕ × Option DeviceBuffer)
  pub persistent_buffers : List (ℕ × Option ℕ)

-- The action that is handed to the queue with its event, or the error code.
pub data Enqueuing : Type 0 where
  rejected : ℤ → Enqueuing
  handed_over : KernelExecution → Enqueuing

abbrev pub execution : Kernel → ℕ → Sizes → Sizes → Sizes → Bool → Tracking → Enqueuing
execution kernel work_dim offsets global local memory (refused code) = rejected code
execution kernel work_dim offsets global local memory (tracked tmp persistent) =
    if not memory
    then rejected cl_out_of_host_memory
    else handed_over (record {
      num_dimensions = work_dim % 2 ^ 8;
      global_offsets = offsets;
      global_sizes = global;
      local_sizes = local;
      execution_arguments = kernel.args;
      tmp_buffers = tmp;
      persistent_buffers = persistent;
    })

abbrev pub with_sizes : System → Kernel → ℕ → Bool → Bool → Result → Enqueuing
with_sizes system kernel work_dim wait_list_valid memory (failed code) = rejected code
with_sizes system kernel work_dim wait_list_valid memory (accepted offsets global local) =
    if not wait_list_valid
    then rejected cl_invalid_event_wait_list
    else execution kernel work_dim offsets global local memory
        (allocate_and_track_buffer_arguments system kernel)

-- `k` has what setWorkGroupSizes needs beside the arguments; `memory` tells whether there is memory
-- for the event and its action.
unfoldable pub enqueue_nd_range :
    System
    → Kernel
    → WorkSizes.Kernel
    → Bool
    → ℕ
    → Option Sizes
    → Option Sizes
    → Option Sizes
    → Bool
    → Bool
    → Enqueuing
enqueue_nd_range system kernel k same_context work_dim offsets global local wait_list_valid memory =
    with_sizes system kernel work_dim wait_list_valid memory
      (set_work_group_sizes (enqueued kernel k) same_context work_dim offsets global local)

guarded-mask :
    (k : WorkSizes.Kernel) (same_context : Bool) (work_dim : ℕ) (next : Result)
    (offsets global local : Sizes)
    → guarded k same_context work_dim next ≡ accepted offsets global local
    → k.args_set_mask ≡ expected_mask k.num_parameters
guarded-mask k same_context work_dim next offsets global local h =
    elim (Bool-cases (k.args_set_mask == expected_mask k.num_parameters)) [
      | inl q ↦ (==_iff k.args_set_mask (expected_mask k.num_parameters)).0 q
      | inr q ↦ absurd (ground (arith, q, h))
    ]

-- What the queue is given has all its arguments, and its loop writes their words.
IsWritten : System → Kernel → Enqueuing → Type 0
IsWritten system kernel (rejected code) = Unit
IsWritten system kernel (handed_over e) =
    (e.execution_arguments ≡ kernel.args)
    × (explicit_words e.tmp_buffers e.persistent_buffers 0 e.execution_arguments
        ≡ some (all_argument_words system 0 kernel.parameters kernel.args))

module _ (system : System) (kernel : Kernel) (sized : length kernel.args ≡ length kernel.parameters)
    (given : All IsGiven kernel.args) (work_dim : ℕ) where
  execution-IsWritten :
      (offsets global local : Sizes) (memory : Bool) (tracking : Tracking)
      → allocate_and_track_buffer_arguments system kernel ≡ tracking
      → IsWritten system kernel (execution kernel work_dim offsets global local memory tracking)
  unfolding IsWritten
  execution-IsWritten offsets global local memory (refused code) h = tt
  execution-IsWritten offsets global local false (tracked tmp persistent) h = tt
  execution-IsWritten offsets global local true (tracked tmp persistent) h =
      (refl, explicit_words-argument_words system kernel tmp persistent sized given h)

with_sizes-IsWritten :
    (system : System) (kernel : Kernel) (work_dim : ℕ) (wait_list_valid memory : Bool)
    (result : Result)
    → length kernel.args ≡ length kernel.parameters
    → ((offsets global local : Sizes)
        → result ≡ accepted offsets global local
        → All IsGiven kernel.args)
    → IsWritten system kernel (with_sizes system kernel work_dim wait_list_valid memory result)
unfolding IsWritten
with_sizes-IsWritten system kernel work_dim valid memory (failed code) sized given = tt
with_sizes-IsWritten system kernel work_dim false memory (accepted o g l) sized given = tt
with_sizes-IsWritten system kernel work_dim true memory (accepted o g l) sized given =
    execution-IsWritten system kernel sized (given o g l refl) work_dim o g l memory
      (allocate_and_track_buffer_arguments system kernel) refl

-- For a kernel with at most 64 parameters, after any sequence of calls of setArg: where
-- enqueueNDRange hands an execution to the queue, the execution has the arguments of the kernel, and
-- the loop that writes its UNIFORMS does not end with CL_INVALID_KERNEL_ARGS: it writes for each
-- argument its own words, the device pointer of its buffer, the address of the memory that was
-- allocated for it, or 0 for a NULL pointer and for a lowered parameter.
pub enqueue_nd_range-explicit_words :
    (system : System) {parameters : List ParamHeader} (kernel : Kernel) (k : WorkSizes.Kernel)
    (same_context : Bool) (work_dim : ℕ) (offsets global local : Option Sizes)
    (wait_list_valid memory : Bool) (e : KernelExecution)
    → SetArgs parameters kernel
    → length parameters ≤ max_parameter_count
    → enqueue_nd_range system kernel k same_context work_dim offsets global local wait_list_valid
        memory
      ≡ handed_over e
    → (e.execution_arguments ≡ kernel.args)
      × (explicit_words e.tmp_buffers e.persistent_buffers 0 e.execution_arguments
          ≡ some (all_argument_words system 0 kernel.parameters kernel.args))
unfolding enqueue_nd_range set_work_group_sizes IsWritten
enqueue_nd_range-explicit_words system kernel k same_context work_dim offsets global local
      wait_list_valid memory e calls few h =
    let result : Result =
      set_work_group_sizes (enqueued kernel k) same_context work_dim offsets global local in
    let written : IsWritten system kernel
        (with_sizes system kernel work_dim wait_list_valid memory result) =
      with_sizes-IsWritten system kernel work_dim wait_list_valid memory result
        (length-SetArgs calls)
        (λ o g l accepts. SetArgs-IsGiven calls few (
          guarded-mask (enqueued kernel k) same_context work_dim
            (after_guards (enqueued kernel k) work_dim offsets global local) o g l accepts)) in
    rw h at written

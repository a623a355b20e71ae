-- ===== src/KernelArgs/Launch.antt =====
-- Kernel.cpp, Kernel::allocateAndTrackBufferArguments, and the loop of executor.cpp over the
-- parameters, which finds the buffers in the maps that it makes.
pub mod Found
pub mod Enqueue
mod Examples
use vc4cl.Prelude.{
  ℕ, zero, suc, ◌%◌, ◌^◌, ◌==◌, min, Bool, true, false, ◌||◌, not, if◌then◌else◌, List, [], ◌∷◌,
  ◌++◌, length, get_elem?, drop, take, replicate, Option, none, some,
}
use vc4cl.Prelude.Int.{ℤ}
use vc4cl.Prelude.Codes.{cl_out_of_resources, cl_invalid_kernel_args}
use vc4cl.Binary.ParamHeader.{ParamHeader, get_lowered}
use vc4cl.KernelArgs.{Kernel, KernelArgument, scalar, temporary_buffer, buffer}

-- A buffer as the system allocates it, with the bytes that are in it.
pub record DeviceBuffer : Type 0 where
  pub qpu_pointer : ℕ
  pub contents : List ℕ

-- A cl_mem at the time of the call. `device_pointer` includes the offset of a sub-buffer.
pub record LiveBuffer : Type 0 where
  pub references_valid : Bool
  pub has_device_buffer : Bool
  pub device_pointer : ℕ

-- What the kernel finds outside: the allocation for the argument with an index, visible to the host
-- or not, of a size, or `none` where it fails; the buffers by their handles; and whether the context
-- was made with CL_CONTEXT_MEMORY_INITIALIZE_LOCAL_KHR.
pub record System : Type 0 where
  pub allocate : Bool → ℕ → ℕ → Option DeviceBuffer
  pub buffer_at : ℕ → LiveBuffer
  pub zero_memory : Bool

-- What one round of a loop does: nothing, an entry for the map, or a return with an error code.
pub data Round {ℓ} (A : Type ℓ) : Type ℓ where
  skipped : Round A
  entry : A → Round A
  failed : ℤ → Round A

-- A map by the index of the argument, or the error code.
pub data Collected {ℓ} (A : Type ℓ) : Type ℓ where
  collected : List (ℕ × A) → Collected A
  stopped : ℤ → Collected A

abbrev pub add_entry {ℓ} : {A : Type ℓ} → ℕ → Round A → Collected A → Collected A
add_entry i (failed code) rest = stopped code
add_entry i skipped rest = rest
add_entry i (entry a) (stopped code) = stopped code
add_entry i (entry a) (collected entries) = collected ((i, a) ∷ entries)

-- A loop over the arguments from index `i` on. There is one argument for each parameter.
unfoldable pub for_arguments {ℓ} :
    {A : Type ℓ}
    → (ℕ → ParamHeader → Option KernelArgument → Round A)
    → ℕ
    → List ParamHeader
    → List (Option KernelArgument)
    → Collected A
for_arguments round i [] args = collected []
for_arguments round i (p ∷ parameters) [] = collected []
for_arguments round i (p ∷ parameters) (arg ∷ args) =
    add_entry i (round i p arg) (for_arguments round (suc i) parameters args)

abbrev pub is_empty : List ℕ → Bool
is_empty [] = true
is_empty (x ∷ xs) = false

-- The memory after memcpy of the data, or memset to 0.
unfoldable pub initialize : Bool → ℕ → List ℕ → List ℕ → List ℕ
initialize zero_memory size [] contents =
    if zero_memory then replicate size 0 ++ drop size contents else contents
initialize zero_memory size (b ∷ data_bytes) contents =
    let count : ℕ = min (length (b ∷ data_bytes)) size in
    take count (b ∷ data_bytes) ++ drop count contents

abbrev pub initialized : Bool → ℕ → List ℕ → Option DeviceBuffer → Round (Option DeviceBuffer)
initialized zero_memory size data_bytes none = failed cl_out_of_resources
initialized zero_memory size data_bytes (some b) =
    entry (some (record b { contents = initialize zero_memory size data_bytes b.contents }))

-- The round of the loop over the temporary buffers. A lowered parameter needs no memory.
unfoldable pub allocate_temporary :
    System → ℕ → ParamHeader → Option KernelArgument → Round (Option DeviceBuffer)
allocate_temporary system i p none = skipped
allocate_temporary system i p (some (scalar words)) = skipped
allocate_temporary system i p (some (buffer handle)) = skipped
allocate_temporary system i p (some (temporary_buffer size data_bytes)) =
    let host_visible : Bool = not (is_empty data_bytes) || system.zero_memory in
    if get_lowered p
    then entry none
    else initialized system.zero_memory size data_bytes (system.allocate host_visible i size)

abbrev pub track_live : LiveBuffer → Round (Option ℕ)
track_live b =
    if not b.references_valid || not b.has_device_buffer
    then failed cl_invalid_kernel_args
    else entry (some b.device_pointer)

-- The round of the loop over the persistent buffers; the entry is the device pointer, or `none` where
-- a NULL pointer was passed on purpose.
unfoldable pub track_buffer : System → ℕ → ParamHeader → Option KernelArgument → Round (Option ℕ)
track_buffer system i p none = skipped
track_buffer system i p (some (scalar words)) = skipped
track_buffer system i p (some (temporary_buffer size data_bytes)) = skipped
track_buffer system i p (some (buffer none)) = entry none
track_buffer system i p (some (buffer (some handle))) = track_live (system.buffer_at handle)

pub data Tracking : Type 0 where
  tracked : List (ℕ × Option DeviceBuffer) → List (ℕ × Option ℕ) → Tracking
  refused : ℤ → Tracking

abbrev pub both : Collected (Option DeviceBuffer) → Collected (Option ℕ) → Tracking
both (stopped code) persistent = refused code
both (collected tmp) (stopped code) = refused code
both (collected tmp) (collected persistent) = tracked tmp persistent

unfoldable pub allocate_and_track_buffer_arguments : System → Kernel → Tracking
allocate_and_track_buffer_arguments system kernel =
    both (for_arguments (allocate_temporary system) 0 kernel.parameters kernel.args)
      (for_arguments (track_buffer system) 0 kernel.parameters kernel.args)

unfoldable pub find {ℓ} : {A : Type ℓ} → ℕ → List (ℕ × A) → Option A
find i [] = none
find i ((j, a) ∷ entries) = if i == j then some a else find i entries

-- The UNIFORMs of one parameter: `none` is the return with CL_INVALID_KERNEL_ARGS.
abbrev pub parameter_words :
    Option (Option DeviceBuffer) → Option (Option ℕ) → Option KernelArgument → Option (List ℕ)
parameter_words (some none) persistent arg = some (0 ∷ [])
parameter_words (some (some b)) persistent arg = some (b.qpu_pointer % 2 ^ 32 ∷ [])
parameter_words none (some none) arg = some (0 ∷ [])
parameter_words none (some (some pointer)) arg = some (pointer % 2 ^ 32 ∷ [])
parameter_words none none none = none
parameter_words none none (some (scalar words)) = some words
parameter_words none none (some (buffer handle)) = none
parameter_words none none (some (temporary_buffer size data_bytes)) = none

abbrev pub add_words : Option (List ℕ) → Option (List (List ℕ)) → Option (List (List ℕ))
add_words none rest = none
add_words (some words) none = none
add_words (some words) (some rest) = some (words ∷ rest)

-- The loop over the parameters from index `u` on, for one QPU.
unfoldable pub explicit_words :
    List (ℕ × Option DeviceBuffer)
    → List (ℕ × Option ℕ)
    → ℕ
    → List (Option KernelArgument)
    → Option (List (List ℕ))
explicit_words tmp persistent u [] = some []
explicit_words tmp persistent u (arg ∷ args) =
    add_words (parameter_words (find u tmp) (find u persistent) arg)
      (explicit_words tmp persistent (suc u) args)

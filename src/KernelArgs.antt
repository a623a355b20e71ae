-- ===== src/KernelArgs.antt =====
-- Kernel.cpp: the arguments of a kernel (Kernel::setArg) and the bit set of those that are set.
-- The device has 32 bits: a cl_mem takes four bytes. A kernel has at most 64 parameters; where it has
-- more, `argsSetMask.set` throws for the parameters behind them.
pub mod Tracked
pub mod Words
pub mod Launch
mod Examples
use vc4cl.Prelude.{
  ℕ, zero, suc, ◌+◌, ◌-◌, ◌*◌, ◌/◌, ◌%◌, ◌^◌, ◌==◌, ltb, leb, Bool, true, false, ◌&&◌, ◌||◌, not,
  if◌then◌else◌, List, [], ◌∷◌, ◌++◌, length, get_elem?, set, drop, take, replicate, Option, none,
  some,
}
use vc4cl.Prelude.Int.{ℤ}
use vc4cl.Prelude.Codes.{
  cl_success, cl_invalid_arg_index, cl_invalid_arg_size, cl_invalid_arg_value,
  cl_invalid_mem_object,
}
use vc4cl.Binary.Bytes.{word_of_bytes}
use vc4cl.Binary.ParamHeader.{
  ParamHeader, get_size, get_vector_elements, get_by_value, get_address_space, get_image,
  get_pointer, get_floating_type, get_signed, is_read_only, is_write_only,
}

pub data KernelArgument : Type 0 where
  scalar : List ℕ → KernelArgument  -- the words
  temporary_buffer : ℕ → List ℕ → KernelArgument  -- the size, and the data if there is some
  buffer : Option ℕ → KernelArgument

pub record Kernel : Type 0 where
  pub parameters : List ParamHeader
  pub args : List (Option KernelArgument)
  pub args_set_mask : List Bool

abbrev pub max_parameter_count : ℕ
max_parameter_count = 64

unfoldable pub new_kernel : List ParamHeader → Kernel
new_kernel parameters = record {
  parameters = parameters;
  args = replicate (length parameters) none;
  args_set_mask = replicate max_parameter_count false;
}

-- The number that the bits of a bit set stand for.
abbrev pub to_ulong : List Bool → ℕ
to_ulong [] = 0
to_ulong (b ∷ bits) = (if b then 1 else 0) + 2 * to_ulong bits

-- What CHECK_BUFFER and the tests behind it ask of a memory object.
pub record MemRef : Type 0 where
  pub same_context : Bool
  pub readable : Bool
  pub writeable : Bool

-- What setArg finds outside the kernel: the memory objects, by their handles, `none` being one that
-- is not valid; and the size of the memory.
pub record Surroundings : Type 0 where
  pub object_at : ℕ → Option MemRef
  pub total_gpu_memory : ℕ

abbrev pub sizeof_cl_mem : ℕ
sizeof_cl_mem = 4

-- AddressSpace::LOCAL.
abbrev pub local : ℕ
local = 4

-- A signed value of `bits` bits as a value of 32 bits.
unfoldable pub sign_extend : ℕ → ℕ → ℕ
sign_extend bits v = if leb (2 ^ (bits - 1)) v then v + 2 ^ 32 - 2 ^ bits else v

-- The element `i` of an array of elements of `size` bytes.
unfoldable pub element : ℕ → ℕ → List ℕ → ℕ
unfolding word_of_bytes
element size i bytes = word_of_bytes size (drop (i * size) bytes)

-- The words that one round of the loop adds.
unfoldable pub element_words : Bool → ℕ → List ℕ → ℕ → List ℕ
unfolding element sign_extend
element_words extends size bytes i =
    if size == 1
    then (if extends then sign_extend 8 (element 1 i bytes) else element 1 i bytes) ∷ []
    else if size == 2
    then (if extends then sign_extend 16 (element 2 i bytes) else element 2 i bytes) ∷ []
    else if size == 8
    then element 8 i bytes % 2 ^ 32 ∷ element 8 i bytes / 2 ^ 32 ∷ []
    else element 4 i bytes ∷ []

-- The loop over `count` elements, from the element `i` on.
unfoldable pub scalar_words : Bool → ℕ → List ℕ → ℕ → ℕ → List ℕ
unfolding element_words
scalar_words extends size bytes i zero = []
scalar_words extends size bytes i (suc count) =
    element_words extends size bytes i ++ scalar_words extends size bytes (suc i) count

-- The argument, or the error code.
pub data Parsed : Type 0 where
  invalid : ℤ → Parsed
  parsed : KernelArgument → Parsed

abbrev pub element_size : ℕ → ℕ → ℕ
element_size arg_size count =
    if count == 3 && not (arg_size % 3 == 0) then arg_size / 4 else arg_size / count

abbrev pub supported : ℕ → Bool
supported size = leb size 4 || size == 8

-- The argument that is a value; the outer `none` is undefined behaviour: the value is read through a
-- NULL pointer, or its size is divided by zero.
unfoldable pub parse_literal : ParamHeader → ℕ → Option (List ℕ) → Option Parsed
unfolding scalar_words
parse_literal p arg_size value =
    if not (get_vector_elements p == 3 && arg_size * 4 % 2 ^ 32 == get_size p * 3)
      && not (arg_size == get_size p)
    then some (invalid cl_invalid_arg_size)
    else if get_by_value p
    then if ltb 1 (get_vector_elements p) then some (invalid cl_invalid_arg_value) else elim value [
      | none ↦ none
      | some bytes ↦ some (parsed (temporary_buffer arg_size (take arg_size bytes)))
    ]
    else if get_vector_elements p == 0
    then none
    else if not (supported (element_size arg_size (get_vector_elements p)))
    then some (invalid cl_invalid_arg_size)
    else elim value [
      | none ↦ none
      | some bytes ↦ some (
          parsed (
            scalar (
              scalar_words (not (get_floating_type p) && get_signed p)
                (element_size arg_size (get_vector_elements p)) bytes 0 (get_vector_elements p))))
    ]

abbrev check_object : ParamHeader → ℕ → Option MemRef → Parsed
check_object p handle none = invalid cl_invalid_mem_object
check_object p handle (some object) =
    if not object.same_context
    then invalid cl_invalid_arg_value
    else if get_image p && (is_read_only p && not object.readable)
    then invalid cl_invalid_arg_value
    else if get_image p && (is_write_only p && not object.writeable)
    then invalid cl_invalid_arg_value
    else parsed (buffer (some handle))

abbrev parse_object : Surroundings → ParamHeader → Option (List ℕ) → Parsed
parse_object env p none = parsed (buffer none)
parse_object env p (some bytes) =
    let handle : ℕ = word_of_bytes sizeof_cl_mem bytes in
    if handle == 0 then parsed (buffer none) else check_object p handle (env.object_at handle)

abbrev parse_local : Surroundings → ℕ → Option (List ℕ) → Parsed
parse_local env arg_size (some bytes) = invalid cl_invalid_arg_value
parse_local env arg_size none =
    if arg_size == 0 || ltb env.total_gpu_memory arg_size
    then invalid cl_invalid_arg_value
    else parsed (temporary_buffer arg_size [])

-- The argument that is a pointer to an object, or local memory.
unfoldable pub parse_pointer : Surroundings → ParamHeader → ℕ → Option (List ℕ) → Parsed
unfolding word_of_bytes
parse_pointer env p arg_size value =
    if get_address_space p == local
    then parse_local env arg_size value
    else if not (arg_size == sizeof_cl_mem)
    then invalid cl_invalid_arg_size
    else parse_object env p value

abbrev pub is_literal : ParamHeader → Bool
is_literal p = not (get_pointer p) || get_by_value p

unfoldable pub parse_arg : Surroundings → ParamHeader → ℕ → Option (List ℕ) → Option Parsed
unfolding parse_literal parse_pointer
parse_arg env p arg_size value =
    if is_literal p
    then parse_literal p arg_size value
    else some (parse_pointer env p arg_size value)

abbrev pub store_arg : Kernel → ℕ → Option Parsed → Option (Kernel × ℤ)
store_arg kernel i none = none
store_arg kernel i (some (invalid code)) = some (kernel, code)
store_arg kernel i (some (parsed arg)) = some (
  record kernel {
    args = set kernel.args i (some arg);
    args_set_mask = set kernel.args_set_mask i true;
  },
  cl_success,
)

-- What follows the test of the index.
unfoldable pub set_found :
    Surroundings → Kernel → ℕ → ℕ → Option (List ℕ) → Option ParamHeader → Option (Kernel × ℤ)
unfolding parse_arg
set_found env kernel arg_index arg_size value none = some (kernel, cl_invalid_arg_index)
set_found env kernel arg_index arg_size value (some p) =
    store_arg kernel arg_index (parse_arg env p arg_size value)

-- Kernel::setArg; `none` is undefined behaviour.
unfoldable pub set_arg : Surroundings → Kernel → ℕ → ℕ → Option (List ℕ) → Option (Kernel × ℤ)
unfolding set_found
set_arg env kernel arg_index arg_size value =
    set_found env kernel arg_index arg_size value (get_elem? kernel.parameters arg_index)

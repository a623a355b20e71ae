-- ===== src/Buffer/Create.antt =====
-- Buffer.cpp: clCreateBuffer, in a valid context, and Buffer::getMemFlags.
pub mod Flags
mod Examples
use vc4cl.Prelude.{
  ℕ, ◌+◌, ◌==◌, bit_or, ltb, Bool, true, false, ◌&&◌, ◌||◌, not, if◌then◌else◌, Option, none, some,
}
use vc4cl.Prelude.Int.{ℤ}
use vc4cl.Prelude.Codes.{
  cl_success, cl_invalid_value, cl_invalid_buffer_size, cl_invalid_host_ptr, cl_out_of_resources,
}
use vc4cl.Buffer.{Memory, move, Enqueued, rejected, queued}
use vc4cl.Buffer.SubBuffer.{
  MemObject, has_flag, new_buffer, cl_mem_read_write, cl_mem_write_only, cl_mem_read_only,
  cl_mem_use_host_ptr, cl_mem_alloc_host_ptr, cl_mem_copy_host_ptr, cl_mem_host_write_only,
  cl_mem_host_read_only, cl_mem_host_no_access,
}

-- What the system allocates.
pub record DeviceBuffer : Type 0 where
  pub handle : ℕ
  pub host_pointer : ℕ
  pub size : ℕ

abbrev count : Bool → ℕ
count b = if b then 1 else 0

unfoldable pub more_than_one_memory_access_flag_set : ℕ → Bool
unfolding has_flag
more_than_one_memory_access_flag_set flags = ltb 1 (
    count (has_flag flags cl_mem_write_only)
    + count (has_flag flags cl_mem_read_only)
    + count (has_flag flags cl_mem_read_write))

unfoldable pub more_than_one_host_access_flag_set : ℕ → Bool
unfolding has_flag
more_than_one_host_access_flag_set flags = ltb 1 (
    count (has_flag flags cl_mem_host_write_only)
    + count (has_flag flags cl_mem_host_read_only)
    + count (has_flag flags cl_mem_host_no_access))

-- "If value specified for flags is 0, the default is used which is CL_MEM_READ_WRITE."
unfoldable pub with_default_access : ℕ → ℕ
unfolding has_flag
with_default_access given =
    let flags : ℕ = if given == 0 then cl_mem_read_write else given in
    if not (has_flag flags cl_mem_read_write)
      && (not (has_flag flags cl_mem_read_only) && not (has_flag flags cl_mem_write_only))
    then bit_or flags cl_mem_read_write
    else flags

abbrev pub is_given : Option ℕ → Bool
is_given none = false
is_given (some p) = true

abbrev pub uses_host : ℕ → Bool
uses_host flags = has_flag flags cl_mem_use_host_ptr || has_flag flags cl_mem_copy_host_ptr

-- The checks of the arguments, in order.
unfoldable pub create_error : ℕ → ℕ → Option ℕ → ℕ → Option ℤ
unfolding more_than_one_memory_access_flag_set more_than_one_host_access_flag_set has_flag
create_error flags size host_ptr total_memory =
    if more_than_one_memory_access_flag_set flags
    then some cl_invalid_value
    else if more_than_one_host_access_flag_set flags
    then some cl_invalid_value
    else if ltb size 1 || ltb total_memory size
    then some cl_invalid_buffer_size
    else if not (is_given host_ptr) && uses_host flags
    then some cl_invalid_host_ptr
    else if is_given host_ptr && not (uses_host flags)
    then some cl_invalid_host_ptr
    else none

-- setUseHostPointer or setAllocateHostPointer.
unfoldable pub set_pointer : ℕ → ℕ → Option ℕ → DeviceBuffer → MemObject → MemObject
unfolding has_flag
set_pointer flags size host_ptr device b =
    if has_flag flags cl_mem_use_host_ptr
    then record b { use_host_ptr = true; host_ptr = host_ptr; host_size = size }
    else if has_flag flags cl_mem_alloc_host_ptr
    then record b { alloc_host_ptr = true; host_ptr = some device.host_pointer; host_size = size }
    else b

-- setCopyHostPointer.
unfoldable pub set_copy : ℕ → ℕ → MemObject → MemObject
unfolding has_flag
set_copy flags size b =
    if has_flag flags cl_mem_copy_host_ptr
    then record b { copy_host_ptr = true; host_size = size }
    else b

unfoldable pub set_host_size : DeviceBuffer → MemObject → MemObject
set_host_size device b = if b.host_size == 0 then record b { host_size = device.size } else b

-- The bytes that are copied to the device: none where the host memory is the device memory.
abbrev pub copy_initial : ℕ → ℕ → Option ℕ → DeviceBuffer → Memory → Memory
copy_initial flags size none device mem = mem
copy_initial flags size (some host) device mem =
    if has_flag flags cl_mem_copy_host_ptr
      || (has_flag flags cl_mem_use_host_ptr && not (host == device.host_pointer))
    then move device.host_pointer host size mem
    else mem

pub record Created : Type 0 where
  pub object : MemObject
  pub memory : Memory

abbrev pub allocated : ℕ → ℕ → Option ℕ → Option DeviceBuffer → Memory → Enqueued Created
allocated flags size host_ptr none mem = rejected cl_out_of_resources
allocated flags size host_ptr (some device) mem = queued (record {
  object = set_host_size device (
      set_copy flags size (
        set_pointer flags size host_ptr device
          (record (new_buffer flags) { mem_handle = device.handle })));
  memory = copy_initial flags size host_ptr device mem;
})

abbrev pub checked : Option ℤ → Enqueued Created → Enqueued Created
checked none next = next
checked (some code) next = rejected code

-- clCreateBuffer.
unfoldable pub create_buffer :
    ℕ → ℕ → Option ℕ → ℕ → Option DeviceBuffer → Memory → Enqueued Created
unfolding with_default_access create_error set_pointer set_copy set_host_size new_buffer has_flag
create_buffer given size host_ptr total_memory device mem =
    let flags : ℕ = with_default_access given in
    checked (create_error flags size host_ptr total_memory)
      (allocated flags size host_ptr device mem)

abbrev flag_if : Bool → ℕ → ℕ
flag_if b flag = if b then flag else 0

unfoldable pub get_mem_flags : MemObject → ℕ
get_mem_flags b =
    bit_or
      (bit_or
        (bit_or
          (bit_or
            (bit_or
              (bit_or
                (bit_or
                  (bit_or (flag_if (b.readable && b.writeable) cl_mem_read_write)
                    (flag_if (b.readable && not b.writeable) cl_mem_read_only))
                  (flag_if (b.writeable && not b.readable) cl_mem_write_only))
                (flag_if (b.host_readable && not b.host_writeable) cl_mem_host_read_only))
              (flag_if (b.host_writeable && not b.host_readable) cl_mem_host_write_only))
            (flag_if (not b.host_readable && not b.host_writeable) cl_mem_host_no_access))
          (flag_if b.use_host_ptr cl_mem_use_host_ptr))
        (flag_if b.alloc_host_ptr cl_mem_alloc_host_ptr))
      (flag_if b.copy_host_ptr cl_mem_copy_host_ptr)

-- ===== src/Buffer/SubBuffer.antt =====
-- Buffer.cpp: the access rights of buffers, and Buffer::createSubBuffer.
pub mod Rights
mod Examples
use vc4cl.Prelude.{
  ℕ, ◌+◌, ◌%◌, ◌^◌, ◌==◌, bit_and, ltb, Bool, true, false, ◌&&◌, ◌||◌, not, if◌then◌else◌, Option,
  none, some,
}
use vc4cl.Prelude.Int.{ℤ}
use vc4cl.Prelude.Codes.{
  cl_invalid_value, cl_invalid_mem_object, cl_invalid_buffer_size, cl_misaligned_sub_buffer_offset,
}
use vc4cl.Buffer.{Enqueued, rejected, queued, end_of}

-- The bits of a cl_mem_flags.
abbrev pub cl_mem_read_write : ℕ
cl_mem_read_write = 1

abbrev pub cl_mem_write_only : ℕ
cl_mem_write_only = 2

abbrev pub cl_mem_read_only : ℕ
cl_mem_read_only = 4

abbrev pub cl_mem_use_host_ptr : ℕ
cl_mem_use_host_ptr = 8

abbrev pub cl_mem_alloc_host_ptr : ℕ
cl_mem_alloc_host_ptr = 16

abbrev pub cl_mem_copy_host_ptr : ℕ
cl_mem_copy_host_ptr = 32

abbrev pub cl_mem_host_write_only : ℕ
cl_mem_host_write_only = 128

abbrev pub cl_mem_host_read_only : ℕ
cl_mem_host_read_only = 256

abbrev pub cl_mem_host_no_access : ℕ
cl_mem_host_no_access = 512

unfoldable pub has_flag : ℕ → ℕ → Bool
has_flag val flag = not (bit_and val flag == 0)

-- The members of a Buffer; the handle of the device memory is 0 where there is none.
pub record MemObject : Type 0 where
  pub is_sub_buffer : Bool
  pub readable : Bool
  pub writeable : Bool
  pub host_readable : Bool
  pub host_writeable : Bool
  pub use_host_ptr : Bool
  pub alloc_host_ptr : Bool
  pub copy_host_ptr : Bool
  pub mem_handle : ℕ
  pub host_ptr : Option ℕ
  pub host_size : ℕ
  pub sub_buffer_offset : ℕ

-- The constructor of a buffer.
unfoldable pub new_buffer : ℕ → MemObject
new_buffer flags =
    let no_access : Bool = has_flag flags cl_mem_host_no_access in
    record {
      is_sub_buffer = false;
      readable = not (has_flag flags cl_mem_write_only);
      writeable = not (has_flag flags cl_mem_read_only);
      host_readable = not (has_flag flags cl_mem_host_write_only || no_access);
      host_writeable = not (has_flag flags cl_mem_host_read_only || no_access);
      use_host_ptr = has_flag flags cl_mem_use_host_ptr;
      alloc_host_ptr = has_flag flags cl_mem_alloc_host_ptr;
      copy_host_ptr = has_flag flags cl_mem_copy_host_ptr;
      mem_handle = 0;
      host_ptr = none;
      host_size = 0;
      sub_buffer_offset = 0;
    }

pub record BufferRegion : Type 0 where
  pub origin : ℕ
  pub size : ℕ

abbrev pub buffer_alignment : ℕ
buffer_alignment = 64

abbrev pub is_set : Option ℕ → Bool
is_set none = false
is_set (some p) = true

-- The tests of the flags against the parent.
unfoldable pub flags_error : MemObject → ℕ → Option ℤ
flags_error parent flags =
    if not parent.readable && (has_flag flags cl_mem_read_write || has_flag flags cl_mem_read_only)
    then some cl_invalid_value
    else if not parent.writeable
        && (has_flag flags cl_mem_read_write || has_flag flags cl_mem_write_only)
    then some cl_invalid_value
    else if has_flag flags cl_mem_alloc_host_ptr
        || (has_flag flags cl_mem_use_host_ptr || has_flag flags cl_mem_copy_host_ptr)
    then some cl_invalid_value
    else if not parent.host_readable && has_flag flags cl_mem_host_read_only
    then some cl_invalid_value
    else if not parent.host_writeable && has_flag flags cl_mem_host_write_only
    then some cl_invalid_value
    else none

unfoldable pub region_error : MemObject → BufferRegion → Option ℤ
region_error parent region =
    if region.size == 0
    then some cl_invalid_buffer_size
    else if is_set parent.host_ptr && ltb parent.host_size (end_of region.origin region.size)
    then some cl_invalid_value
    else if not (region.origin % buffer_alignment == 0)
    then some cl_misaligned_sub_buffer_offset
    else none

abbrev shifted : Option ℕ → ℕ → Option ℕ
shifted none origin = none
shifted (some p) origin = some (p + origin)

-- The sub-buffer: without access flags it takes over the rights of its parent. The call of
-- setHostSize at the end changes nothing, since a region has a size.
unfoldable pub sub_buffer : MemObject → ℕ → BufferRegion → MemObject
unfolding new_buffer
sub_buffer parent flags region =
    let own : MemObject = new_buffer flags in
    let access : Bool =
      has_flag flags cl_mem_read_write
      || (has_flag flags cl_mem_read_only || has_flag flags cl_mem_write_only) in
    let host_access : Bool =
      has_flag flags cl_mem_host_read_only
      || (has_flag flags cl_mem_host_write_only || has_flag flags cl_mem_host_no_access) in
    record {
      is_sub_buffer = true;
      readable = if access then own.readable else parent.readable;
      writeable = if access then own.writeable else parent.writeable;
      host_readable = if host_access then own.host_readable else parent.host_readable;
      host_writeable = if host_access then own.host_writeable else parent.host_writeable;
      use_host_ptr = parent.use_host_ptr;
      alloc_host_ptr = parent.alloc_host_ptr;
      copy_host_ptr = parent.copy_host_ptr;
      mem_handle = if not (parent.mem_handle == 0) then parent.mem_handle else own.mem_handle;
      host_ptr = shifted parent.host_ptr region.origin;
      host_size = region.size;
      sub_buffer_offset = region.origin;
    }

abbrev pub first_error : Option ℤ → Option ℤ → MemObject → Enqueued MemObject
first_error (some code) region_code sub = rejected code
first_error none (some code) sub = rejected code
first_error none none sub = queued sub

-- Buffer::createSubBuffer; `none` is an unknown kind of region.
unfoldable pub create_sub_buffer : MemObject → ℕ → Option BufferRegion → Enqueued MemObject
create_sub_buffer parent flags none =
    if parent.is_sub_buffer
    then rejected cl_invalid_mem_object
    else first_error (flags_error parent flags) (some cl_invalid_value) parent
create_sub_buffer parent flags (some region) =
    if parent.is_sub_buffer
    then rejected cl_invalid_mem_object
    else first_error (flags_error parent flags) (region_error parent region)
        (sub_buffer parent flags region)

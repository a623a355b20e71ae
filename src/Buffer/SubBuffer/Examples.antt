-- ===== src/Buffer/SubBuffer/Examples.antt =====
-- Tests and instances: a buffer of 256 bytes that kernels only read, and one without a host pointer.
use vc4cl.Prelude.{◌≡◌, refl, true, false, none, some}
use vc4cl.Prelude.Codes.{cl_invalid_value}
use vc4cl.Buffer.{rejected, queued}
use vc4cl.Buffer.SubBuffer.{
  MemObject, BufferRegion, new_buffer, has_flag, flags_error, region_error, sub_buffer,
  create_sub_buffer, cl_mem_read_only, cl_mem_write_only,
}
use vc4cl.Buffer.SubBuffer.Rights.{IsWithin, create_sub_buffer-IsWithin}

abbrev read_only_parent : MemObject
read_only_parent = record {
  is_sub_buffer = false;
  readable = true;
  writeable = false;
  host_readable = true;
  host_writeable = true;
  use_host_ptr = true;
  alloc_host_ptr = false;
  copy_host_ptr = false;
  mem_handle = 3;
  host_ptr = some 1000;
  host_size = 256;
  sub_buffer_offset = 0;
}

abbrev small_parent : MemObject
small_parent = record {
  is_sub_buffer = false;
  readable = true;
  writeable = true;
  host_readable = true;
  host_writeable = true;
  use_host_ptr = false;
  alloc_host_ptr = false;
  copy_host_ptr = false;
  mem_handle = 4;
  host_ptr = none;
  host_size = 16;
  sub_buffer_offset = 0;
}

abbrev region : BufferRegion
region = record { origin = 64; size = 64 }

abbrev part : MemObject
part = record {
  is_sub_buffer = true;
  readable = true;
  writeable = false;
  host_readable = true;
  host_writeable = true;
  use_host_ptr = true;
  alloc_host_ptr = false;
  copy_host_ptr = false;
  mem_handle = 3;
  host_ptr = some 1064;
  host_size = 64;
  sub_buffer_offset = 64;
}

part_made : create_sub_buffer read_only_parent cl_mem_read_only (some region) ≡ queued part
unfolding create_sub_buffer flags_error region_error sub_buffer new_buffer has_flag
part_made = refl

-- Writing is refused, since the parent is not writeable.
write_refused :
    create_sub_buffer read_only_parent cl_mem_write_only (some region) ≡ rejected cl_invalid_value
unfolding create_sub_buffer flags_error region_error sub_buffer new_buffer has_flag
write_refused = refl

create_sub_buffer-IsWithin_example : IsWithin read_only_parent part
create_sub_buffer-IsWithin_example =
    create_sub_buffer-IsWithin read_only_parent cl_mem_read_only region part part_made

-- Where the parent has no host pointer, the region may lie behind the end of the parent.
outside_made :
    create_sub_buffer small_parent 0 (some region) ≡ queued (sub_buffer small_parent 0 region)
unfolding create_sub_buffer flags_error region_error has_flag
outside_made = refl

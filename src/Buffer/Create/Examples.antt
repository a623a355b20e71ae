-- ===== src/Buffer/Create/Examples.antt =====
-- Tests and instances: a buffer of 64 bytes that is only read, with a copy of host memory.
use vc4cl.Prelude.{◌≡◌, refl, arith, true, false, none, some}
use vc4cl.Prelude.Codes.{cl_invalid_host_ptr}
use vc4cl.Buffer.{Memory, move, queued, rejected}
use vc4cl.Buffer.SubBuffer.{has_flag}
use vc4cl.Buffer.Create.{DeviceBuffer, Created, with_default_access, create_buffer, get_mem_flags}
use vc4cl.Buffer.Create.Flags.{create_buffer-flags}

abbrev device : DeviceBuffer
device = record { handle = 7; host_pointer = 1000; size = 4096 }

abbrev memory : Memory
memory a = a

-- CL_MEM_READ_ONLY and CL_MEM_COPY_HOST_PTR.
abbrev created : Created
created = record {
  object = record {
    is_sub_buffer = false;
    readable = true;
    writeable = false;
    host_readable = true;
    host_writeable = true;
    use_host_ptr = false;
    alloc_host_ptr = false;
    copy_host_ptr = true;
    mem_handle = 7;
    host_ptr = none;
    host_size = 64;
    sub_buffer_offset = 0;
  };
  memory = move 1000 5000 64 memory;
}

buffer_created : create_buffer 36 64 (some 5000) 65536 (some device) memory ≡ queued created
unfolding create_buffer
buffer_created = refl

create_buffer-flags_example : get_mem_flags created.object ≡ 36
unfolding with_default_access has_flag
create_buffer-flags_example =
    create_buffer-flags 36 64 (some 5000) 65536 (some device) memory created (omega arith) refl
      buffer_created

pointer_missing : create_buffer 36 64 none 65536 (some device) memory ≡ rejected cl_invalid_host_ptr
unfolding create_buffer
pointer_missing = refl

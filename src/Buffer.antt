-- ===== src/Buffer.antt =====
-- Buffer.cpp: the checks of the enqueue methods, and the actions that they queue.
-- The runtime maps the device memory, so buffers and host pointers are addresses in one memory. The
-- events that carry the actions are those of Event and Queue.
pub mod Access
mod Examples
pub mod Fill
pub mod Copy
pub mod SubBuffer
pub mod Mapping
pub mod Rect
pub mod Create
use vc4cl.Prelude.{
  ℕ, zero, suc, ◌+◌, ◌-◌, ◌*◌, ◌%◌, ◌^◌, ◌==◌, ltb, leb, Bool, true, false, ◌&&◌, ◌||◌, not,
  if◌then◌else◌, List, [], ◌∷◌, length, get_or, Option, none, some,
}
use vc4cl.Prelude.Int.{ℤ}
use vc4cl.Prelude.Codes.{
  cl_invalid_value, cl_invalid_operation, cl_mem_copy_overlap, cl_invalid_context,
  cl_invalid_command_queue, cl_invalid_event_wait_list,
}

pub record Buffer : Type 0 where
  pub identity : ℕ
  pub parent : Option ℕ
  pub base : ℕ  -- getDeviceHostPointerWithOffset
  pub host_size : ℕ
  pub host_readable : Bool
  pub host_writeable : Bool

abbrev pub Memory : Type 0
Memory = ℕ → ℕ

abbrev pub inside : ℕ → ℕ → ℕ → Bool
inside start size address = leb start address && ltb address (start + size)

-- memmove.
abbrev pub move : ℕ → ℕ → ℕ → Memory → Memory
move dest src size mem a = if inside dest size a then mem (src + (a - dest)) else mem a

-- A rejected call has its error code.
pub data Enqueued {ℓ} (A : Type ℓ) : Type ℓ where
  rejected : ℤ → Enqueued A
  queued : A → Enqueued A

pub record BufferAccess : Type 0 where
  pub buffer : Buffer
  pub buffer_offset : ℕ
  pub host_ptr : ℕ
  pub host_offset : ℕ
  pub num_bytes : ℕ
  pub write_to_buffer : Bool

-- A size_t has 32 bits: the sum wraps around.
abbrev pub end_of : ℕ → ℕ → ℕ
end_of offset size = (offset + size) % 2 ^ 32

abbrev pub access : Bool → Buffer → ℕ → ℕ → ℕ → BufferAccess
access write buffer offset size ptr = record {
  buffer = buffer;
  buffer_offset = offset;
  host_ptr = ptr;
  host_offset = 0;
  num_bytes = size;
  write_to_buffer = write;
}

-- Buffer::enqueueRead; `none` is a NULL pointer.
unfoldable pub enqueue_read : Buffer → ℕ → ℕ → Option ℕ → Enqueued BufferAccess
enqueue_read buffer offset size none = rejected cl_invalid_value
enqueue_read buffer offset size (some ptr) =
    if size == 0 || ltb buffer.host_size (end_of offset size)
    then rejected cl_invalid_value
    else if not buffer.host_readable
    then rejected cl_invalid_operation
    else queued (access false buffer offset size ptr)

unfoldable pub enqueue_write : Buffer → ℕ → ℕ → Option ℕ → Enqueued BufferAccess
enqueue_write buffer offset size none = rejected cl_invalid_value
enqueue_write buffer offset size (some ptr) =
    if size == 0 || ltb buffer.host_size (end_of offset size)
    then rejected cl_invalid_value
    else if not buffer.host_writeable
    then rejected cl_invalid_operation
    else queued (access true buffer offset size ptr)

-- BufferAccess::operator().
unfoldable pub run_access : BufferAccess → Memory → Memory
run_access a mem =
    if a.host_ptr == a.buffer.base && a.buffer_offset == a.host_offset
    then mem
    else if a.write_to_buffer
    then move (a.buffer.base + a.buffer_offset) (a.host_ptr + a.host_offset) a.num_bytes mem
    else move (a.host_ptr + a.host_offset) (a.buffer.base + a.buffer_offset) a.num_bytes mem

-- Buffer::createBufferActionEvent, which the methods call between the checks and the action: the
-- error, or `none` where it makes the event. The three tests are those of the macros it uses.
unfoldable pub create_buffer_action_event : Bool → Bool → Bool → Option ℤ
create_buffer_action_event queue_valid same_context wait_list_valid =
    if not queue_valid
    then some cl_invalid_command_queue
    else if not same_context
    then some cl_invalid_context
    else if not wait_list_valid
    then some cl_invalid_event_wait_list
    else none

pub record BufferFill : Type 0 where
  pub buffer : Buffer
  pub buffer_offset : ℕ
  pub num_bytes : ℕ
  pub pattern : List ℕ

-- Buffer::enqueueFill; the pattern is NULL or has the given size.
unfoldable pub enqueue_fill : Buffer → Option (List ℕ) → ℕ → ℕ → Enqueued BufferFill
enqueue_fill buffer none offset size = rejected cl_invalid_value
enqueue_fill buffer (some pattern) offset size =
    if size == 0 || ltb buffer.host_size (end_of offset size)
    then rejected cl_invalid_value
    else if length pattern == 0 || not (offset % length pattern == 0)
    then rejected cl_invalid_value
    else if not buffer.host_writeable
    then rejected cl_invalid_operation
    else queued
        (record { buffer = buffer; buffer_offset = offset; num_bytes = size; pattern = pattern })

abbrev pub store : ℕ → List ℕ → Memory → Memory
store start bytes mem a =
    if inside start (length bytes) a then get_or bytes (a - start) 0 else mem a

-- The loop of BufferFill::operator(), with fuel.
unfoldable pub fill_from : ℕ → ℕ → ℕ → List ℕ → Memory → Memory
fill_from zero start end pattern mem = mem
fill_from (suc fuel) start end pattern mem =
    let rest : Memory =
      fill_from fuel ((start + length pattern) % 2 ^ 32) end pattern (store start pattern mem) in
    if ltb start end then rest else mem

-- A uintptr_t has 32 bits. A pattern has a byte at least, so there are at most as many steps as
-- bytes, as long as no address wraps around.
unfoldable pub run_fill : BufferFill → Memory → Memory
run_fill f mem =
    let start = (f.buffer.base + f.buffer_offset) % 2 ^ 32 in
    fill_from f.num_bytes start ((start + f.num_bytes) % 2 ^ 32) f.pattern mem

pub record BufferCopy : Type 0 where
  pub source_buffer : Buffer
  pub source_offset : ℕ
  pub dest_buffer : Buffer
  pub dest_offset : ℕ
  pub num_bytes : ℕ

abbrev siblings : Option ℕ → Option ℕ → Bool
siblings (some p) (some q) = p == q
siblings (some p) none = false
siblings none q = false

-- Whether the buffers are the same, or two sub-buffers of the same buffer. A buffer and its own
-- sub-buffer are not meant.
abbrev pub same_memory : Buffer → Buffer → Bool
same_memory a b = a.identity == b.identity || siblings a.parent b.parent

abbrev pub overlaps : ℕ → ℕ → ℕ → Bool
overlaps src dest size =
    (leb src dest && leb dest (src + size - 1)) || (leb dest src && leb src (dest + size - 1))

-- Buffer::enqueueCopyInto.
unfoldable pub enqueue_copy_into : Buffer → Buffer → ℕ → ℕ → ℕ → Enqueued BufferCopy
enqueue_copy_into buffer destination src_offset dst_offset size =
    if size == 0
      || (ltb buffer.host_size (end_of src_offset size)
          || ltb destination.host_size (end_of dst_offset size))
    then rejected cl_invalid_value
    else if same_memory buffer destination
        && overlaps (buffer.base + src_offset) (destination.base + dst_offset) size
    then rejected cl_mem_copy_overlap
    else queued (record {
      source_buffer = buffer;
      source_offset = src_offset;
      dest_buffer = destination;
      dest_offset = dst_offset;
      num_bytes = size;
    })

-- BufferCopy::operator().
unfoldable pub run_copy : BufferCopy → Memory → Memory
run_copy c mem =
    let src = c.source_buffer.base + c.source_offset in
    let dest = c.dest_buffer.base + c.dest_offset in
    if dest == src then mem else move dest src c.num_bytes mem

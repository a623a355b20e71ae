-- ===== src/Buffer/Rect.antt =====
-- Buffer.cpp: reading, writing and copying rectangular regions of buffers.
-- An array of three sizes is in bytes, rows and slices. What the checks compute, and the addresses
-- that an action computes, wrap around in 32 bits.
pub mod Moves
pub mod Copied
mod Examples
use vc4cl.Prelude.{
  ℕ, zero, suc, ◌+◌, ◌-◌, ◌*◌, ◌/◌, ◌%◌, ◌^◌, ◌==◌, ltb, leb, Bool, true, false, ◌&&◌, ◌||◌, not,
  if◌then◌else◌, Option, none, some,
}
use vc4cl.Prelude.Int.{ℤ}
use vc4cl.Prelude.Codes.{
  cl_invalid_value, cl_invalid_operation, cl_invalid_event_wait_list, cl_mem_copy_overlap,
}
use vc4cl.Buffer.{Buffer, Memory, move, Enqueued, rejected, queued, end_of}

pub record Extent : Type 0 where
  pub x : ℕ
  pub y : ℕ
  pub z : ℕ

pub record Pitches : Type 0 where
  pub row : ℕ
  pub slice : ℕ

-- A size_t has 32 bits.
unfoldable pub calculate_offset : Extent → Pitches → ℕ
calculate_offset origin p = (origin.z * p.slice + origin.y * p.row + origin.x) % 2 ^ 32

unfoldable pub calculate_size_bounds : Extent → ℕ
calculate_size_bounds region = region.x * region.y * region.z % 2 ^ 32

pub record BufferRectAccess : Type 0 where
  pub buffer : Buffer
  pub host_ptr : ℕ
  pub write_to_buffer : Bool
  pub region : Extent
  pub buffer_origin : Extent
  pub buffer_pitches : Pitches
  pub host_origin : Extent
  pub host_pitches : Pitches

pub record BufferRectCopy : Type 0 where
  pub source_buffer : Buffer
  pub dest_buffer : Buffer
  pub region : Extent
  pub source_origin : Extent
  pub source_pitches : Pitches
  pub dest_origin : Extent
  pub dest_pitches : Pitches

abbrev pub out_of_bounds : Buffer → Extent → Pitches → Extent → Bool
out_of_bounds buffer origin pitches region =
    ltb buffer.host_size (end_of (calculate_offset origin pitches) (calculate_size_bounds region))

-- Buffer::enqueueReadRect, with its tests of the wait list; `none` is a NULL pointer.
unfoldable pub enqueue_read_rect :
    Buffer
    → Option Extent
    → Option Extent
    → Option Extent
    → Pitches
    → Pitches
    → Option ℕ
    → Bool
    → Enqueued BufferRectAccess
unfolding calculate_offset calculate_size_bounds
enqueue_read_rect buffer (some buffer_origin) (some host_origin) (some region) pitches host_pitches
      ptr valid =
    if calculate_size_bounds region == 0 || out_of_bounds buffer buffer_origin pitches region
    then rejected cl_invalid_value
    else elim ptr [
      | none ↦ rejected cl_invalid_value
      | some p ↦
          if not valid
          then rejected cl_invalid_event_wait_list
          else if not buffer.host_readable
          then rejected cl_invalid_operation
          else queued (record {
            buffer = buffer;
            host_ptr = p;
            write_to_buffer = false;
            region = region;
            buffer_origin = buffer_origin;
            buffer_pitches = pitches;
            host_origin = host_origin;
            host_pitches = host_pitches;
          })
    ]
enqueue_read_rect buffer none host_origin region pitches host_pitches ptr valid =
    rejected cl_invalid_value
enqueue_read_rect buffer (some o) none region pitches host_pitches ptr valid =
    rejected cl_invalid_value
enqueue_read_rect buffer (some o) (some h) none pitches host_pitches ptr valid =
    rejected cl_invalid_value

-- Buffer::enqueueWriteRect.
unfoldable pub enqueue_write_rect :
    Buffer
    → Option Extent
    → Option Extent
    → Option Extent
    → Pitches
    → Pitches
    → Option ℕ
    → Enqueued BufferRectAccess
unfolding calculate_offset calculate_size_bounds
enqueue_write_rect buffer (some buffer_origin) (some host_origin) (some region) pitches host_pitches
      (some p) =
    if calculate_size_bounds region == 0 || out_of_bounds buffer buffer_origin pitches region
    then rejected cl_invalid_value
    else if not buffer.host_writeable
    then rejected cl_invalid_operation
    else queued (record {
      buffer = buffer;
      host_ptr = p;
      write_to_buffer = true;
      region = region;
      buffer_origin = buffer_origin;
      buffer_pitches = pitches;
      host_origin = host_origin;
      host_pitches = host_pitches;
    })
enqueue_write_rect buffer none host_origin region pitches host_pitches ptr =
    rejected cl_invalid_value
enqueue_write_rect buffer (some o) none region pitches host_pitches ptr = rejected cl_invalid_value
enqueue_write_rect buffer (some o) (some h) none pitches host_pitches ptr =
    rejected cl_invalid_value
enqueue_write_rect buffer (some o) (some h) (some r) pitches host_pitches none =
    rejected cl_invalid_value

-- "If src_row_pitch is 0, src_row_pitch is computed as region[0]", and so on.
unfoldable pub default_pitches : Extent → Pitches → Pitches
default_pitches region p =
    let row : ℕ = if p.row == 0 then region.x else p.row in
    record { row = row; slice = if p.slice == 0 then region.y * row % 2 ^ 32 else p.slice }

unfoldable pub invalid_pitches : Extent → Pitches → Bool
invalid_pitches region p =
    ltb p.row region.x || (ltb p.slice (region.y * p.row % 2 ^ 32) || not (p.slice % p.row == 0))

abbrev add32 : ℕ → ℕ → ℕ
add32 a b = (a + b) % 2 ^ 32

abbrev intersects : ℕ → ℕ → ℕ → Bool
intersects src dst size = ltb src (add32 dst size) && ltb dst (add32 src size)

-- How far a region of this size reaches over a limit.
abbrev excess : ℕ → ℕ → ℕ → ℕ
excess start size limit = if ltb limit (add32 start size) then add32 start size - limit else 0

abbrev reaches : ℕ → ℕ → Bool
reaches delta start = ltb 0 delta && ltb start delta

-- check_copy_overlap.
unfoldable pub check_copy_overlap : Extent → Extent → Extent → Pitches → Bool
unfolding calculate_offset
check_copy_overlap src dst region p =
    let boxes : Bool =
      intersects src.x dst.x region.x
      && (intersects src.y dst.y region.y && intersects src.z dst.z region.z) in
    let dst_start : ℕ = calculate_offset dst p in
    let src_start : ℕ = calculate_offset src p in
    let dst_end : ℕ = add32 dst_start (calculate_offset region p) in
    let src_end : ℕ = add32 src_start (calculate_offset region p) in
    let ranges : Bool =
      (leb src_start dst_start && ltb dst_start src_end)
      || (leb dst_start src_start && ltb src_start dst_end) in
    let rows : Bool =
      reaches (excess src.x region.x p.row) dst.x || reaches (excess dst.x region.x p.row) src.x in
    let height : ℕ = p.slice / p.row in
    let slices : Bool =
      reaches (excess src.y region.y height) dst.y
      || reaches (excess dst.y region.y height) src.y in
    boxes || ((rows && ranges) || (ltb 1 region.z && (slices && ranges)))

-- The tests of Buffer::enqueueCopyIntoRect on pitches that are not 0 any more.
unfoldable pub check_rect_copy :
    Buffer → Buffer → Extent → Extent → Extent → Pitches → Pitches → Enqueued BufferRectCopy
unfolding invalid_pitches check_copy_overlap
check_rect_copy buffer destination src_origin dst_origin region src_pitches dst_pitches =
    if invalid_pitches region src_pitches
    then rejected cl_invalid_value
    else if invalid_pitches region dst_pitches
    then rejected cl_invalid_value
    else if buffer.identity == destination.identity && not (src_pitches.slice == dst_pitches.slice)
    then rejected cl_invalid_value
    else if buffer.identity == destination.identity && not (src_pitches.row == dst_pitches.row)
    then rejected cl_invalid_value
    else if buffer.identity == destination.identity
        && check_copy_overlap src_origin dst_origin region src_pitches
    then rejected cl_mem_copy_overlap
    else queued (record {
      source_buffer = buffer;
      dest_buffer = destination;
      region = region;
      source_origin = src_origin;
      source_pitches = src_pitches;
      dest_origin = dst_origin;
      dest_pitches = dst_pitches;
    })

-- Buffer::enqueueCopyIntoRect, on pointers that are not NULL.
unfoldable pub enqueue_copy_into_rect :
    Buffer → Buffer → Extent → Extent → Extent → Pitches → Pitches → Enqueued BufferRectCopy
unfolding calculate_offset calculate_size_bounds default_pitches check_rect_copy
enqueue_copy_into_rect buffer destination src_origin dst_origin region src_pitches dst_pitches =
    if calculate_size_bounds region == 0
      || (out_of_bounds buffer src_origin src_pitches region
          || out_of_bounds destination dst_origin dst_pitches region)
    then rejected cl_invalid_value
    else check_rect_copy buffer destination src_origin dst_origin region
        (default_pitches region src_pitches) (default_pitches region dst_pitches)

-- for(i = start; i < start + count; ++i).
pub loop : (ℕ → Memory → Memory) → ℕ → ℕ → Memory → Memory
loop body zero start mem = mem
loop body (suc count) start mem = loop body count (suc start) (body start mem)

-- The start of a rectangle at an address.
abbrev pub rect_pointer : ℕ → Extent → Pitches → ℕ
rect_pointer base origin p = (base + origin.x + origin.y * p.row + origin.z * p.slice) % 2 ^ 32

-- The start of a row, of its slice, in a rectangle.
abbrev pub row_pointer : ℕ → Pitches → ℕ → ℕ → ℕ
row_pointer start p y z = (start + p.row * y + p.slice * z) % 2 ^ 32

-- The two loops of the actions, from a source pointer to a destination pointer.
unfoldable pub move_rect : Extent → ℕ → Pitches → ℕ → Pitches → Memory → Memory
unfolding loop
move_rect region dest d src s =
    loop
      (λ z. loop (λ y. move (row_pointer dest d y z) (row_pointer src s y z) region.x) region.y 0)
      region.z 0

-- BufferRectAccess::operator().
unfoldable pub run_rect_access : BufferRectAccess → Memory → Memory
unfolding move_rect
run_rect_access a =
    let device : ℕ = rect_pointer a.buffer.base a.buffer_origin a.buffer_pitches in
    let host : ℕ = rect_pointer a.host_ptr a.host_origin a.host_pitches in
    if a.write_to_buffer
    then move_rect a.region device a.buffer_pitches host a.host_pitches
    else move_rect a.region host a.host_pitches device a.buffer_pitches

-- BufferRectCopy::operator().
unfoldable pub run_rect_copy : BufferRectCopy → Memory → Memory
unfolding move_rect
run_rect_copy c =
    move_rect c.region (rect_pointer c.dest_buffer.base c.dest_origin c.dest_pitches) c.dest_pitches
      (rect_pointer c.source_buffer.base c.source_origin c.source_pitches) c.source_pitches

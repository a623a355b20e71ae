-- ===== src/Buffer/Mapping.antt =====
-- Buffer.cpp: Buffer::enqueueMap, Buffer::enqueueUnmap and the BufferMapping actions.
-- The list of mappings has a key for each entry, which stands for the iterators that the actions
-- hold. The calls are not blocking: a blocking one waits for its action.
pub mod Marks
pub mod Refined
pub mod Contents
mod Examples
use vc4cl.Prelude.{
  ℕ, suc, ◌+◌, ◌==◌, ltb, Bool, true, false, ◌&&◌, ◌||◌, not, if◌then◌else◌, List, [], ◌∷◌, ◌++◌,
  length, Option, none, some,
}
use vc4cl.Prelude.Int.{ℤ, ◌==ℤ◌}
use vc4cl.Prelude.Codes.{cl_success, cl_invalid_context, cl_invalid_value, cl_invalid_operation}
use vc4cl.Buffer.{Memory, move, Enqueued, rejected, queued, end_of}
use vc4cl.Buffer.SubBuffer.{has_flag}

abbrev pub cl_map_read : ℕ
cl_map_read = 1

abbrev pub cl_map_write : ℕ
cl_map_write = 2

abbrev pub cl_map_write_invalidate_region : ℕ
cl_map_write_invalidate_region = 4

pub record MappingInfo : Type 0 where
  pub host_pointer : ℕ
  pub unmap_scheduled : Bool
  pub skip_populating_buffer : Bool
  pub skip_writing_back : Bool

-- BufferMapping, with the key of its entry.
pub record BufferMapping : Type 0 where
  pub mapping_info : ℕ
  pub unmap : Bool

-- The members of a Buffer that mapping uses, and the queued actions, in order.
pub record MapBuffer : Type 0 where
  pub host_size : ℕ
  pub host_readable : Bool
  pub host_writeable : Bool
  pub use_host_ptr : Bool
  pub host_ptr : Option ℕ
  pub device_host_pointer : ℕ  -- of the device buffer
  pub base : ℕ  -- getDeviceHostPointerWithOffset
  pub mappings : List (ℕ × MappingInfo)
  pub next_key : ℕ
  pub pending : List BufferMapping

abbrev pub mapped_pointer : MapBuffer → Option ℕ → ℕ → ℕ
mapped_pointer b none offset = b.base + offset
mapped_pointer b (some host) offset = if b.use_host_ptr then host + offset else b.base + offset

abbrev pub mapping_of : ℕ → ℕ → MappingInfo
mapping_of flags pointer = record {
  host_pointer = pointer;
  unmap_scheduled = false;
  skip_populating_buffer = has_flag flags cl_map_write_invalidate_region;
  skip_writing_back = flags == cl_map_read;
}

abbrev pub add_mapping : MapBuffer → MappingInfo → MapBuffer
add_mapping b m = record b {
  mappings = b.mappings ++ (b.next_key, m) ∷ [];
  next_key = suc b.next_key;
}

-- CommandQueue::enqueueEvent with the action, which has this result.
abbrev pub enqueue_action : MapBuffer → BufferMapping → ℤ → MapBuffer
enqueue_action b action status =
    if status ==ℤ cl_success then record b { pending = b.pending ++ action ∷ [] } else b

-- What follows createBufferActionEvent in enqueueMap. An entry that is added stays, also where the
-- event cannot be enqueued.
abbrev pub map_with_event : MapBuffer → ℕ → ℕ → ℤ → Option ℤ → MapBuffer × Enqueued ℕ
map_with_event b flags offset status (some code) = (b, rejected code)
map_with_event b flags offset status none =
    let pointer : ℕ = mapped_pointer b b.host_ptr offset in
    let action : BufferMapping = record { mapping_info = b.next_key; unmap = false } in
    let added : MapBuffer =
      enqueue_action (add_mapping b (mapping_of flags pointer)) action status in
    if status ==ℤ cl_success then (added, queued pointer) else (added, rejected status)

-- Buffer::enqueueMap, with the results of createBufferActionEvent and of enqueueEvent.
unfoldable pub enqueue_map : MapBuffer → Bool → Option ℤ → ℤ → ℕ → ℕ → ℕ → MapBuffer × Enqueued ℕ
enqueue_map b same_context event_error status flags offset size =
    if not same_context
    then (b, rejected cl_invalid_context)
    else if size == 0 || ltb b.host_size (end_of offset size)
    then (b, rejected cl_invalid_value)
    else if not b.host_readable && has_flag flags cl_map_read
    then (b, rejected cl_invalid_operation)
    else if not b.host_writeable
        && (has_flag flags cl_map_write || has_flag flags cl_map_write_invalidate_region)
    then (b, rejected cl_invalid_operation)
    else map_with_event b flags offset status event_error

abbrev pub keep_first :
    ℕ × MappingInfo → Option (ℕ × List (ℕ × MappingInfo)) → Option (ℕ × List (ℕ × MappingInfo))
keep_first entry none = none
keep_first entry (some (key, rest)) = some (key, entry ∷ rest)

-- The first entry with this pointer that is not scheduled yet, and the list with it marked.
unfoldable pub schedule : ℕ → List (ℕ × MappingInfo) → Option (ℕ × List (ℕ × MappingInfo))
schedule pointer [] = none
schedule pointer ((key, m) ∷ rest) =
    if m.host_pointer == pointer && not m.unmap_scheduled
    then some (key, (key, record m { unmap_scheduled = true }) ∷ rest)
    else keep_first (key, m) (schedule pointer rest)

-- What follows the search in enqueueUnmap. The mark stays, also where there is no event.
abbrev pub unmap_found :
    MapBuffer → Option ℤ → ℤ → Option (ℕ × List (ℕ × MappingInfo)) → MapBuffer × ℤ
unmap_found b event_error status none = (b, cl_invalid_value)
unmap_found b (some code) status (some (key, mappings)) = (record b { mappings = mappings }, code)
unmap_found b none status (some (key, mappings)) = (
  enqueue_action (record b { mappings = mappings }) (record { mapping_info = key; unmap = true })
      status,
  status,
)

-- Buffer::enqueueUnmap.
unfoldable pub enqueue_unmap : MapBuffer → Option ℤ → ℤ → ℕ → MapBuffer × ℤ
unfolding schedule
enqueue_unmap b event_error status mapped_ptr =
    if mapped_ptr == 0
    then (b, cl_invalid_value)
    else unmap_found b event_error status (schedule mapped_ptr b.mappings)

-- CL_MEM_MAP_COUNT.
abbrev pub map_count : MapBuffer → ℕ
map_count b = length b.mappings

-- The device memory is copied to the host pointer, or back (`to_host` false).
abbrev pub copy_host : Bool → MapBuffer → Option ℕ → ℕ → ℕ → Memory → Memory × ℤ
copy_host to_host b none offset size mem =
    if not b.use_host_ptr then (mem, cl_success) else (mem, cl_invalid_value)
copy_host to_host b (some host) offset size mem =
    if not b.use_host_ptr
    then (mem, cl_success)
    else if ltb b.host_size (end_of offset size)
    then (mem, cl_invalid_value)
    else if host == b.device_host_pointer
    then (mem, cl_success)
    else if to_host
    then if host + offset == b.base + offset
      then (mem, cl_success)
      else (move (host + offset) (b.base + offset) size mem, cl_success)
    else (move (b.base + offset) (host + offset) size mem, cl_success)

unfoldable pub copy_into_host_buffer : MapBuffer → ℕ → ℕ → Memory → Memory × ℤ
copy_into_host_buffer b = copy_host true b b.host_ptr

unfoldable pub copy_from_host_buffer : MapBuffer → ℕ → ℕ → Memory → Memory × ℤ
copy_from_host_buffer b = copy_host false b b.host_ptr

unfoldable pub lookup_mapping : ℕ → List (ℕ × MappingInfo) → Option MappingInfo
lookup_mapping key [] = none
lookup_mapping key ((k, m) ∷ rest) = if k == key then some m else lookup_mapping key rest

unfoldable pub erase_mapping : ℕ → List (ℕ × MappingInfo) → List (ℕ × MappingInfo)
erase_mapping key [] = []
erase_mapping key ((k, m) ∷ rest) = if k == key then rest else (k, m) ∷ erase_mapping key rest

-- The copy of an action: the whole buffer, unless the mapping says that it is not needed.
unfoldable pub copy_back : MapBuffer → MappingInfo → Memory → Memory × ℤ
unfolding copy_from_host_buffer
copy_back b m mem =
    if m.skip_writing_back then (mem, cl_success) else copy_from_host_buffer b 0 b.host_size mem

unfoldable pub populate : MapBuffer → MappingInfo → Memory → Memory × ℤ
unfolding copy_into_host_buffer
populate b m mem =
    if m.skip_populating_buffer
    then (mem, cl_success)
    else copy_into_host_buffer b 0 b.host_size mem

-- BufferMapping::operator(), on the entry of the action.
abbrev pub run_mapping : MapBuffer → BufferMapping → MappingInfo → Memory → MapBuffer × (Memory × ℤ)
run_mapping b action m mem =
    if action.unmap
    then (record b { mappings = erase_mapping action.mapping_info b.mappings }, copy_back b m mem)
    else (b, populate b m mem)

abbrev pub run_found :
    MapBuffer → BufferMapping → Option MappingInfo → Memory → MapBuffer × (Memory × ℤ)
run_found b action none mem = (b, (mem, cl_success))
run_found b action (some m) mem = run_mapping b action m mem

abbrev pub run_pending : MapBuffer → List BufferMapping → Memory → MapBuffer × (Memory × ℤ)
run_pending b [] mem = (b, (mem, cl_success))
run_pending b (action ∷ later) mem =
    run_found (record b { pending = later }) action (lookup_mapping action.mapping_info b.mappings)
      mem

-- The first queued action is run.
unfoldable pub run_first : MapBuffer → Memory → MapBuffer × (Memory × ℤ)
unfolding populate copy_back lookup_mapping erase_mapping
run_first b mem = run_pending b b.pending mem

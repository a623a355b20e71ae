-- ===== src/Buffer/Mapping/Examples.antt =====
-- Tests and instances: a buffer of 64 bytes at 1000 that uses the host memory at 5000.
use vc4cl.Prelude.{◌≡◌, refl, arith, true, false, [], ◌∷◌, none, some}
use vc4cl.Prelude.Codes.{
  cl_success, cl_out_of_resources, cl_invalid_value, cl_invalid_command_queue,
}
use vc4cl.Buffer.{Memory, queued}
use vc4cl.Buffer.SubBuffer.{has_flag}
use vc4cl.Buffer.Mapping.{
  MapBuffer, mapping_of, enqueue_map, enqueue_unmap, schedule, run_first, map_count, cl_map_write,
  lookup_mapping, schedule,
}
use vc4cl.Buffer.Mapping.Refined.{fresh, map_step, unmap_step, run_step, enqueue_unmap-refined}
use vc4cl.Buffer.Mapping.Contents.{mapped_shows_buffer, unmapped_written_back}

abbrev buffer : MapBuffer
buffer = record {
  host_size = 64;
  host_readable = true;
  host_writeable = true;
  use_host_ptr = true;
  host_ptr = some 5000;
  device_host_pointer = 1000;
  base = 1000;
  mappings = [];
  next_key = 0;
  pending = [];
}

abbrev mapped : MapBuffer
mapped = record buffer {
  mappings = (0, mapping_of cl_map_write 5008) ∷ [];
  next_key = 1;
  pending = record { mapping_info = 0; unmap = false } ∷ [];
}

map_accepted : enqueue_map buffer true none cl_success cl_map_write 8 16 ≡ (mapped, queued 5008)
unfolding enqueue_map has_flag
map_accepted = refl

abbrev memory : Memory
memory a = a

mapped_shows_buffer_example : (run_first mapped memory).1.0 5011 ≡ 1011
unfolding has_flag lookup_mapping
mapped_shows_buffer_example =
    mapped_shows_buffer buffer mapped true cl_map_write 8 16 5008 3 (λ e. absurd (omega (arith, e)))
      (omega arith) (omega arith) refl refl map_accepted memory refl

-- The action of the mapping has run, and its unmapping is queued.
abbrev unmapping : MapBuffer
unmapping = record mapped {
  mappings = (0, record (mapping_of cl_map_write 5008) { unmap_scheduled = true }) ∷ [];
  pending = record { mapping_info = 0; unmap = true } ∷ [];
}

unmap_accepted :
    enqueue_unmap (run_first mapped memory).0 none cl_success 5008 ≡ (unmapping, cl_success)
unfolding run_first enqueue_unmap has_flag
unmap_accepted = refl

-- The client has written 7 to all the memory.
unmapped_written_back_example : (run_first unmapping (λ a. 7)).1.0 1011 ≡ 7
unfolding lookup_mapping schedule
unmapped_written_back_example =
    unmapped_written_back buffer mapped true cl_map_write 8 16 5008 3
      (λ e. absurd (omega (arith, e))) (omega arith) (omega arith) refl refl map_accepted memory
      (λ a. 7) unmapping refl refl unmap_accepted

-- The range is mapped, the action runs, and the range is unmapped: a second unmapping is refused.
enqueue_unmap-refined_example :
    (enqueue_unmap
      (enqueue_unmap (run_first mapped memory).0 none cl_success 5008).0
      none
      cl_success
      5008).1
    ≡ cl_invalid_value
unfolding enqueue_map has_flag
enqueue_unmap-refined_example =
    enqueue_unmap-refined 5008
      (unmap_step 5008 (run_step memory (map_step true cl_map_write 8 16 (fresh buffer refl refl))))

-- Where the event of a mapping cannot be enqueued, the caller gets no pointer, and the entry stays.
entry_stays :
    map_count (enqueue_map buffer true none cl_invalid_command_queue cl_map_write 8 16).0 ≡ 1
unfolding enqueue_map has_flag
entry_stays = refl

-- Where there is no event for an unmapping, the mark stays, and the next call finds nothing to unmap.
mark_stays :
    (enqueue_unmap
      (enqueue_unmap mapped (some cl_out_of_resources) cl_success 5008).0
      none
      cl_success
      5008).1
    ≡ cl_invalid_value
unfolding enqueue_unmap schedule
mark_stays = refl

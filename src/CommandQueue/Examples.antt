-- ===== src/CommandQueue/Examples.antt =====
-- An instance: the profile of one kernel event.
use vc4cl.Prelude.{◌≡◌, refl, arith, true, false, [], some, none}
use vc4cl.Prelude.Int.{pos}
use vc4cl.Prelude.Codes.{cl_success, cl_queued}
use vc4cl.Event.{Event, returns, kernel_ndrange, no_times, is_finished, retain, prepare_to_queue}
use vc4cl.Queue.{Clock, Runtime, enqueue_event, handle_next}
use vc4cl.CommandQueue.{queued, submit, start, end, get_profiling_info}
use vc4cl.CommandQueue.Profile.{profile_shows_clock}

abbrev event : Event
event = record {
  reference_count = 1;
  type = kernel_ndrange;
  action = some (returns (pos 0));
  queue = none;
  status = cl_queued;
  user_status_set = false;
  profile = no_times;
  callbacks = [];
  wait_list = [];
}

abbrev clock : Clock
clock = record { at_submit = 5; at_start = 6; at_end = 7 }

abbrev idle : Runtime
idle = record { events = λ i. event; buffer = []; calls = []; executed = [] }

abbrev after : Event
after = (handle_next clock (enqueue_event 4 (some 7) true 0 idle).0).events 0

profile_shows_clock_example :
    (get_profiling_info true queued after ≡ (some 4, cl_success))
    × (get_profiling_info true submit after ≡ (some 5, cl_success))
    × (get_profiling_info true start after ≡ (some 6, cl_success))
    × (get_profiling_info true end after ≡ (some 7, cl_success))
unfolding enqueue_event prepare_to_queue retain is_finished
profile_shows_clock_example =
    profile_shows_clock clock 4 7 0 idle refl refl refl refl tt (omega arith) refl

-- ===== src/Queue/Examples.antt =====
-- Tests and instances: a kernel and a read that waits for it.
use vc4cl.Prelude.{ℕ, ◌-◌, ◌≡◌, ◌⊎◌, inr, refl, arith, true, false, [], ◌∷◌, some, none, All}
use vc4cl.Prelude.Int.{pos, ◌≤ℤ◌}
use vc4cl.Prelude.Codes.{cl_success, cl_complete, cl_queued}
use vc4cl.Event.{
  Event, returns, kernel_ndrange, buffer_read, wait_list_status, retain, release, update_status,
  prepare_to_queue, is_finished,
}
use vc4cl.Queue.{
  Runtime, Clock, update_at, handle_next, enqueue_event, run_action, clear_wait_list, release_all,
  release_at, pop_from_event_queue, peek_queue,
}
use vc4cl.Queue.Drain.{run_event_queue, queue_drained}
use vc4cl.Queue.Order.{InOrder, start, handle, enqueue, Run-InOrder}
use vc4cl.Queue.References.{
  handle_next-executes, handle_next-references, enqueue_event-references, waits_of, given_back,
}

abbrev kernel_event : Event
kernel_event = record {
  reference_count = 3;
  type = kernel_ndrange;
  action = some (returns (pos 0));
  queue = some 7;
  status = cl_queued;
  user_status_set = false;
  profile = record { queue_time = 4; submit_time = 0; start_time = 0; end_time = 0 };
  callbacks = [];
  wait_list = [];
}

abbrev read_event : Event
read_event = record kernel_event { type = buffer_read; wait_list = 1 ∷ [] }

abbrev events : ℕ → Event
events = update_at (update_at (λ i. kernel_event) 1 kernel_event) 2 read_event

abbrev runtime : Runtime
runtime = record { events = events; buffer = 1 ∷ 2 ∷ []; calls = []; executed = [] }

abbrev clock : Clock
clock = record { at_submit = 5; at_start = 6; at_end = 7 }

both_run : (run_event_queue (clock ∷ clock ∷ []) runtime).executed ≡ 1 ∷ 2 ∷ []
unfolding run_event_queue handle_next peek_queue update_status wait_list_status run_action release
    pop_from_event_queue clear_wait_list release_all release_at
both_run = refl

queue_drained_example :
    ((run_event_queue (clock ∷ clock ∷ []) runtime).buffer ≡ [])
    × All
        (λ j. ((run_event_queue (clock ∷ clock ∷ []) runtime).events j).status ≤ℤ pos 0)
        (1 ∷ 2 ∷ [])
queue_drained_example =
    queue_drained (clock ∷ clock ∷ []) runtime refl
      (tt, omega arith, ((((λ e. absurd (ground (arith, e))), inr refl), tt), omega arith, tt))

handle_next-executes_example :
    ((handle_next clock runtime).executed ≡ [])
    ⊎ (((handle_next clock runtime).executed ≡ 1 ∷ [])
        × All (λ st. st ≡ cl_complete) (waits_of clock 1 runtime))
handle_next-executes_example = handle_next-executes clock 1 (2 ∷ []) runtime refl

handle_next-references_example :
    ((handle_next clock runtime).events 1).reference_count
    ≡ 3 - given_back (wait_list_status (waits_of clock 1 runtime))
handle_next-references_example = handle_next-references clock 1 (2 ∷ []) runtime refl tt

abbrev fresh : Runtime
fresh = record runtime {
  events = λ i. record kernel_event { queue = none; reference_count = 1 };
  buffer = [];
}

fresh_accepted : (enqueue_event 4 (some 7) true 5 fresh).1 ≡ cl_success
unfolding enqueue_event prepare_to_queue retain is_finished
fresh_accepted = refl

enqueue_event-references_example :
    ((enqueue_event 4 (some 7) true 5 fresh).0.buffer ≡ 5 ∷ [])
    × (((enqueue_event 4 (some 7) true 5 fresh).0.events 5).reference_count ≡ 3)
    × (((enqueue_event 4 (some 7) true 5 fresh).0.events 5).queue ≡ some 7)
enqueue_event-references_example =
    enqueue_event-references 4 (some 7) true 5 fresh (omega arith) fresh_accepted

Run-InOrder_example : InOrder (5 ∷ []) (handle_next clock (enqueue_event 4 (some 7) true 5 fresh).0)
unfolding enqueue_event prepare_to_queue retain is_finished
Run-InOrder_example =
    Run-InOrder {before = fresh} refl refl (handle clock (enqueue 4 (some 7) true 5 start))

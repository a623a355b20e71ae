-- ===== src/Queue.antt =====
-- queue_handler.cpp and CommandQueue.cpp: the buffer of events and the thread that handles them.
-- The thread is alone in changing the status of queued events: an iteration of its loop is one step,
-- and clients push events between the steps. Deleted events keep their place with a count of 0.
mod Examples
pub mod Steps
pub mod Handler
pub mod Ran
pub mod Drain
pub mod References
pub mod Order
use vc4cl.Prelude.{
  ℕ, ◌+◌, ◌==◌, Bool, true, false, ◌&&◌, not, if◌then◌else◌, List, [], ◌∷◌, ◌++◌, map, Option, none,
  some,
}
use vc4cl.Prelude.Int.{ℤ, ◌==ℤ◌}
use vc4cl.Prelude.Codes.{
  cl_success, cl_complete, cl_running, cl_submitted, cl_invalid_operation, cl_invalid_event,
  cl_invalid_command_queue, cl_out_of_resources, cl_exec_status_error_for_events_in_wait_list,
}
use vc4cl.Event.{
  Event, Call, Outcome, returns, throws, WaitListStatus, error, pending, finished, check_references,
  retain, release, is_finished, update_status, prepare_to_queue, wait_list_status,
}

pub record Runtime : Type 0 where
  pub events : ℕ → Event
  pub buffer : List ℕ
  pub calls : List Call  -- the callbacks called so far, in order
  pub executed : List ℕ  -- the events whose action has run, in order

abbrev pub update_at : (ℕ → Event) → ℕ → Event → ℕ → Event
update_at events i e j = if i == j then e else events j

-- object_wrapper<Event>: the constructor retains, the destructor releases.
unfoldable pub retain_at : ℕ → (ℕ → Event) → ℕ → Event
retain_at i events = update_at events i (retain (events i)).0

unfoldable pub release_at : ℕ → (ℕ → Event) → ℕ → Event
release_at i events = update_at events i (release (events i)).0

unfoldable pub release_all : List ℕ → (ℕ → Event) → ℕ → Event
release_all [] events = events
release_all (i ∷ is) events = release_all is (release_at i events)

unfoldable pub set_event_wait_list : List ℕ → ℕ → (ℕ → Event) → ℕ → Event
set_event_wait_list [] i events = events
set_event_wait_list (w ∷ ws) i events =
    let kept : ℕ → Event = retain_at w events in
    set_event_wait_list ws i
      (update_at kept i (record (kept i) { wait_list = (kept i).wait_list ++ (w ∷ []) }))

-- The buffer holds one reference to each of its events.
unfoldable pub push_event : ℕ → Runtime → Runtime
push_event i rt = record rt { events = retain_at i rt.events; buffer = rt.buffer ++ (i ∷ []) }

unfoldable pub pop_from_event_queue : Runtime → Runtime
pop_from_event_queue rt = elim rt.buffer [
  | [] ↦ rt
  | i ∷ rest ↦ record rt { events = release_at i rt.events; buffer = rest }
]

unfoldable pub peek_queue : Runtime → Option ℕ
peek_queue rt = elim rt.buffer [ [] ↦ none | i ∷ rest ↦ some i ]

-- The first buffered event of a command queue.
abbrev pub peek_from : (ℕ → Event) → ℕ → List ℕ → Option ℕ
peek_from events queue [] = none
peek_from events queue (i ∷ rest) =
    let later : Option ℕ = peek_from events queue rest in
    elim (events i).queue [ none ↦ later | some q ↦ if q == queue then some i else later ]

unfoldable pub peek : ℕ → Runtime → Option ℕ
peek queue rt = peek_from rt.events queue rt.buffer

-- The end of CommandQueue::enqueueEvent: an event that is prepared is pushed.
abbrev pub queue_prepared : ℕ → Event × ℤ → Runtime → Runtime × ℤ
queue_prepared i (prepared, status) rt =
    let changed : Runtime = record rt { events = update_at rt.events i prepared } in
    if status ==ℤ cl_success then (push_event i changed, status) else (changed, status)

abbrev pub has_action : Option Outcome → Bool
has_action none = false
has_action (some action) = true

-- CommandQueue::enqueueEvent at the time `now`.
unfoldable pub enqueue_event : ℕ → Option ℕ → Bool → ℕ → Runtime → Runtime × ℤ
enqueue_event now queue queue_valid i rt =
    let e : Event = rt.events i in
    if not queue_valid
    then (rt, cl_invalid_command_queue)
    else if not (check_references e)
    then (rt, cl_invalid_event)
    else if is_finished e
    then (rt, cl_invalid_event)
    else if not (has_action e.action)
    then (rt, cl_invalid_event)
    else queue_prepared i (prepare_to_queue now queue queue_valid e) rt

-- The times that the clock shows in one iteration.
pub record Clock : Type 0 where
  pub at_submit : ℕ
  pub at_start : ℕ
  pub at_end : ℕ

abbrev pub action_status : Option Outcome → ℤ
action_status none = cl_invalid_operation
action_status (some (returns status)) = if not (status ==ℤ cl_success) then status else cl_complete
action_status (some throws) = cl_out_of_resources

-- The iteration on a submitted event whose wait list has finished: it runs the action.
unfoldable pub run_action : Clock → Event → Event × List Call
run_action clock e =
    let (running, calls) = update_status clock.at_start cl_running true e in
    let (done, calls_done) =
      update_status clock.at_end (action_status running.action) true running in
    let (released, status) = release done in
    if not (status ==ℤ cl_success)
    then ((update_status clock.at_end status false released).0, calls ++ calls_done)
    else (released, calls ++ calls_done)

unfoldable pub abort : Clock → Event → Event × List Call
abort clock e = update_status clock.at_end cl_exec_status_error_for_events_in_wait_list true e

-- Event::clearWaitList.
unfoldable pub clear_wait_list : ℕ → (ℕ → Event) → ℕ → Event
clear_wait_list i events =
    release_all (events i).wait_list (update_at events i (record (events i) { wait_list = [] }))

abbrev pub wait_statuses : (ℕ → Event) → List ℕ → List ℤ
wait_statuses events ws = map (λ w. (events w).status) ws

-- What follows the handling of the first event, finished or not.
abbrev pub complete_first : ℕ → Event × List Call → List ℕ → Runtime → Runtime
complete_first i (e, calls) ran rt = pop_from_event_queue (record rt {
  events = clear_wait_list i (update_at rt.events i e);
  calls = rt.calls ++ calls;
  executed = rt.executed ++ ran;
})

-- The branches of the iteration, with the wait list as it stands.
abbrev pub handle_submitted : Clock → ℕ → WaitListStatus → Runtime → Runtime
handle_submitted clock i pending rt = rt
handle_submitted clock i error rt = complete_first i (abort clock (rt.events i)) [] rt
handle_submitted clock i finished rt = complete_first i (run_action clock (rt.events i)) (i ∷ []) rt

abbrev pub submit_first : Clock → ℕ → Runtime → Runtime
submit_first clock i rt =
    let (submitted, calls) = update_status clock.at_submit cl_submitted true (rt.events i) in
    record rt { events = update_at rt.events i submitted; calls = rt.calls ++ calls }

-- The iteration on what peekQueue returns.
abbrev pub handle_peeked : Clock → Option ℕ → Runtime → Runtime
handle_peeked clock none rt = rt
handle_peeked clock (some i) rt =
    let ready : Runtime = submit_first clock i rt in
    handle_submitted clock i
      (wait_list_status (wait_statuses ready.events (ready.events i).wait_list)) ready

-- One iteration of EventQueue::runEventQueue.
unfoldable pub handle_next : Clock → Runtime → Runtime
handle_next clock rt = handle_peeked clock (peek_queue rt) rt

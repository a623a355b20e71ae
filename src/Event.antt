-- ===== src/Event.antt =====
-- Event.h and Event.cpp: the life of a command, its callbacks, its profile and its wait list.
-- Locks are left out: each method holds the event's lock for the whole of its effect.
pub mod Callbacks
mod Examples
pub mod User
use vc4cl.Prelude.{
  ℕ, suc, ◌+◌, ◌-◌, ◌%◌, ◌^◌, ◌==◌, Bool, true, false, ◌&&◌, ◌||◌, not, if◌then◌else◌, List, [],
  ◌∷◌, ◌++◌, Option, none, some,
}
use vc4cl.Prelude.Int.{ℤ, pos, ltb_ℤ, leb_ℤ, ◌==ℤ◌}
use vc4cl.Prelude.Codes.{
  cl_success, cl_complete, cl_running, cl_submitted, cl_invalid_value, cl_invalid_operation,
  cl_invalid_event, cl_invalid_command_queue, cl_profiling_info_not_available,
}

-- The commands that the runtime queues, in the order of the source.
pub data CommandType : Type 0 where
  kernel_ndrange kernel_task kernel_native buffer_read buffer_write buffer_copy : CommandType
  image_read image_write image_copy image_copy_to_buffer buffer_copy_to_image : CommandType
  buffer_map image_map buffer_unmap marker buffer_read_rect buffer_write_rect : CommandType
  buffer_copy_rect user_command barrier buffer_migrate buffer_fill image_fill : CommandType

-- Nanoseconds, as read off the clock.
pub record EventProfile : Type 0 where
  pub queue_time : ℕ
  pub submit_time : ℕ
  pub start_time : ℕ
  pub end_time : ℕ

abbrev pub no_times : EventProfile
no_times = record { queue_time = 0; submit_time = 0; start_time = 0; end_time = 0 }

-- What running an action comes to: it returns a status, or throws.
pub data Outcome : Type 0 where
  returns : ℤ → Outcome
  throws : Outcome

-- A callback: the status that it waits for, and which function and user data it is.
pub record Callback : Type 0 where
  pub type : ℤ
  pub target : ℕ

-- A call of a callback, with the status that it is given.
pub record Call : Type 0 where
  pub target : ℕ
  pub status : ℤ

pub data WaitListStatus : Type 0 where
  error pending finished : WaitListStatus

-- Events and command queues are named by numbers, in place of their addresses.
pub record Event : Type 0 where
  pub reference_count : ℕ  -- uint32_t
  pub type : CommandType
  pub action : Option Outcome
  pub queue : Option ℕ
  pub status : ℤ
  pub user_status_set : Bool
  pub profile : EventProfile
  pub callbacks : List Callback
  pub wait_list : List ℕ

unfoldable pub new_event : ℤ → CommandType → Event
new_event status type = record {
  reference_count = 1;
  type = type;
  action = none;
  queue = none;
  status = status;
  user_status_set = false;
  profile = no_times;
  callbacks = [];
  wait_list = [];
}

abbrev pub check_references : Event → Bool
check_references e = not (e.reference_count == 0)

-- Object::retain and Object::release; an event whose count falls to 0 is deleted by the tracker.
unfoldable pub retain : Event → Event × ℤ
retain e =
    if check_references e
    then (record e { reference_count = (e.reference_count + 1) % 2 ^ 32 }, cl_success)
    else (e, cl_invalid_event)

unfoldable pub release : Event → Event × ℤ
release e =
    if check_references e
    then (record e { reference_count = e.reference_count - 1 }, cl_success)
    else (e, cl_invalid_event)

unfoldable pub set_user_event_status : ℤ → Event → Event × ℤ
set_user_event_status execution_status e =
    if not (execution_status ==ℤ cl_complete) && leb_ℤ (pos 0) execution_status
    then (e, cl_invalid_value)
    else if e.user_status_set
    then (e, cl_invalid_operation)
    else (record e { status = execution_status; user_status_set = true }, cl_success)

-- `none` is a NULL callback. The calls are those made before the method returns.
unfoldable pub set_callback : ℤ → Option ℕ → Event → Event × List Call × ℤ
set_callback type none e = (e, [], cl_invalid_value)
set_callback type (some target) e =
    if not (type ==ℤ cl_submitted) && (not (type ==ℤ cl_running) && not (type ==ℤ cl_complete))
    then (e, [], cl_invalid_value)
    else if ltb_ℤ type e.status
    then (
      record e { callbacks = e.callbacks ++ (record { type = type; target = target } ∷ []) },
      [],
      cl_success,
    )
    else (
      e,
      record { target = target; status = if ltb_ℤ e.status (pos 0) then e.status else type } ∷ [],
      cl_success,
    )

unfoldable pub is_finished : Event → Bool
is_finished e = e.status ==ℤ cl_complete || ltb_ℤ e.status (pos 0)

-- The callbacks whose status lies between the previous one and the new one.
unfoldable pub fire_callbacks : ℤ → ℤ → List Callback → List Call
fire_callbacks previous status [] = []
fire_callbacks previous status (c ∷ callbacks) =
    let later : List Call = fire_callbacks previous status callbacks in
    if ltb_ℤ c.type previous && leb_ℤ status c.type
    then record { target = c.target; status = status } ∷ later
    else later

abbrev pub set_time : ℤ → ℕ → EventProfile → EventProfile
set_time status now p =
    if status ==ℤ cl_submitted
    then record p { submit_time = now }
    else if status ==ℤ cl_running
    then record p { start_time = now }
    else record p { end_time = now }

unfoldable pub update_status : ℕ → ℤ → Bool → Event → Event × List Call
update_status now status fire e = if status ==ℤ e.status then (e, []) else (
  record e { status = status; profile = set_time status now e.profile },
  if fire then fire_callbacks e.status status e.callbacks else [],
)

-- `queue_valid` is the reference check of the queue; `none` is a NULL queue.
unfoldable pub prepare_to_queue : ℕ → Option ℕ → Bool → Event → Event × ℤ
unfolding retain
prepare_to_queue now none queue_valid e = (e, cl_invalid_command_queue)
prepare_to_queue now (some queue) queue_valid e = elim e.queue [
  | some other ↦ (e, cl_invalid_command_queue)
  | none ↦
      if not queue_valid
      then (e, cl_invalid_command_queue)
      else let (kept, status) = retain (record e { queue = some queue }) in
        if not (status ==ℤ cl_success)
        then (kept, status)
        else (record kept { profile = record no_times { queue_time = now } }, cl_success)
]

-- What the caller gets: the event, where it asked for one and there was no error.
unfoldable pub set_as_result_or_release : ℤ → Bool → Event → Event × Bool × ℤ
unfolding release
set_as_result_or_release condition wanted e =
    if condition ==ℤ cl_success && wanted
    then (e, true, cl_success)
    else let (released, status) = release e in
      if not (condition ==ℤ cl_success)
      then (released, false, condition)
      else (released, false, status)

-- The first event of the wait list that is not complete decides.
unfoldable pub wait_list_status : List ℤ → WaitListStatus
wait_list_status [] = finished
wait_list_status (st ∷ statuses) =
    let later : WaitListStatus = wait_list_status statuses in
    if ltb_ℤ st (pos 0) then error else if not (st ==ℤ cl_complete) then pending else later

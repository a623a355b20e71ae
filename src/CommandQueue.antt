-- ===== src/CommandQueue.antt =====
-- CommandQueue.cpp: the properties of a command queue, and Event::getProfilingInfo, which asks for them.
mod Examples
pub mod Profile
use vc4cl.Prelude.{
  ℕ, suc, ◌+◌, ◌==◌, bit_and, Bool, true, false, ◌&&◌, ◌||◌, not, if◌then◌else◌, List, [], ◌∷◌,
  Option, none, some,
}
use vc4cl.Prelude.Int.{ℤ, ◌==ℤ◌}
use vc4cl.Prelude.Codes.{
  cl_success, cl_complete, cl_invalid_value, cl_invalid_device, cl_invalid_context,
  cl_invalid_queue_properties, cl_exec_status_error_for_events_in_wait_list,
  cl_profiling_info_not_available,
}
use vc4cl.Event.{Event}

pub record CommandQueue : Type 0 where
  pub out_of_order_execution : Bool
  pub profiling : Bool

abbrev out_of_order_flag : ℕ
out_of_order_flag = 1

abbrev profiling_flag : ℕ
profiling_flag = 2

abbrev has : ℕ → ℕ → Bool
has properties flag = bit_and properties flag == flag

unfoldable pub set_properties : ℕ → Bool → CommandQueue → CommandQueue × ℤ
set_properties properties enable queue = (
  record {
    out_of_order_execution =
        if has properties out_of_order_flag then enable else queue.out_of_order_execution;
    profiling = if has properties profiling_flag then enable else queue.profiling;
  },
  cl_success,
)

-- clCreateCommandQueue; the object is always allocated here.
unfoldable pub create_command_queue : Bool → Bool → ℕ → Option CommandQueue × ℤ
create_command_queue context_valid same_device properties =
    if not context_valid
    then (none, cl_invalid_context)
    else if not same_device
    then (none, cl_invalid_device)
    else (
      some (record {
        out_of_order_execution = has properties out_of_order_flag;
        profiling = has properties profiling_flag;
      }),
      cl_success,
    )

abbrev cl_queue_properties : ℕ
cl_queue_properties = 0x1093

-- The loop over the list of properties that 0 ends: pairs of a name and a value.
abbrev pub read_properties : ℕ → List ℕ → Option ℕ
read_properties props [] = some props
read_properties props (name ∷ []) = if name == 0 then some props else none
read_properties props (name ∷ (value ∷ more)) =
    let rest : Option ℕ = read_properties value more in
    if name == 0 then some props else if name == cl_queue_properties then rest else none

-- clCreateCommandQueueWithPropertiesKHR; the empty list is a NULL pointer.
unfoldable pub create_with_properties : Bool → Bool → List ℕ → Option CommandQueue × ℤ
create_with_properties context_valid same_device properties = elim (read_properties 0 properties) [
  | none ↦ (none, cl_invalid_queue_properties)
  | some props ↦ create_command_queue context_valid same_device props
]

-- CommandQueue::waitForWaitListFinish, given what waitFor comes to for each event of the list.
abbrev any_error : List ℤ → Bool
any_error [] = false
any_error (status ∷ statuses) = not (status ==ℤ cl_complete) || any_error statuses

unfoldable pub wait_for_wait_list_finish : List ℤ → ℤ
wait_for_wait_list_finish statuses =
    if any_error statuses then cl_exec_status_error_for_events_in_wait_list else cl_success

pub data ProfilingInfo : Type 0 where
  queued submit start end complete other : ProfilingInfo

abbrev has_queue : Option ℕ → Bool
has_queue none = false
has_queue (some q) = true

-- Event::getProfilingInfo, the value or the error; the events of kernels know more parameters.
unfoldable pub get_profiling_info : Bool → ProfilingInfo → Event → Option ℕ × ℤ
get_profiling_info profiling param e =
    if not (has_queue e.queue)
      || (not profiling || (not (e.status ==ℤ cl_complete) || e.user_status_set))
    then (none, cl_profiling_info_not_available)
    else elim param [
      | queued ↦ (some e.profile.queue_time, cl_success)
      | submit ↦ (some e.profile.submit_time, cl_success)
      | start ↦ (some e.profile.start_time, cl_success)
      | end ↦ (some e.profile.end_time, cl_success)
      | complete ↦ (some e.profile.end_time, cl_success)
      | other ↦ (none, cl_invalid_value)
    ]

-- ===== src/Event/Examples.antt =====
-- Tests and instances: one kernel event with two callbacks, and one user event.
use vc4cl.Prelude.{◌+◌, ◌≡◌, refl, arith, List, [], ◌∷◌}
use vc4cl.Prelude.Int.{ℤ, pos, negsuc}
use vc4cl.Prelude.Codes.{
  cl_success, cl_invalid_operation, cl_invalid_value, cl_queued, cl_submitted,
}
use vc4cl.Event.{
  new_event, update_status, set_callback, set_user_event_status, kernel_ndrange, user_command,
}
use vc4cl.Event.Callbacks.{
  EventStep, register, update, set_user, Descends, run_steps, count_calls, count_passed,
  called_once,
}
use vc4cl.Event.User.{set_statuses, status_set_once}

-- Callback 7 is registered for the completion before it, callback 8 for the start after it.
abbrev steps : List EventStep
steps =
    register (pos 0) 7
    ∷ update 1 (pos 2)
    ∷ update 2 (pos 1)
    ∷ register (pos 1) 8
    ∷ update 3 (negsuc 4)
    ∷ []

going_down : Descends steps (new_event cl_queued kernel_ndrange)
unfolding new_event Descends update_status set_callback
going_down = (omega arith, (omega arith, (omega arith, tt)))

called_once_example :
    count_calls 7 (run_steps steps (new_event cl_queued kernel_ndrange)).1
      + count_passed 7 steps (new_event cl_queued kernel_ndrange)
    ≡ 1
unfolding new_event run_steps update_status set_callback
called_once_example = called_once 7 steps (new_event cl_queued kernel_ndrange) refl going_down

abbrev attempts : List ℤ
attempts = pos 2 ∷ negsuc 0 ∷ pos 0 ∷ []

status_set_once_example :
    ((set_statuses attempts (new_event cl_submitted user_command)).0.status ≡ negsuc 0)
    × ((set_statuses attempts (new_event cl_submitted user_command)).1
        ≡ cl_invalid_value ∷ cl_success ∷ cl_invalid_operation ∷ [])
unfolding new_event
status_set_once_example = status_set_once attempts (new_event cl_submitted user_command) refl

-- A callback for the completion of a user event is not called when its status is set.
never_called :
    (count_calls 7
        (run_steps
          (register (pos 0) 7 ∷ set_user (pos 0) ∷ [])
          (new_event cl_submitted user_command)).1
      ≡ 0)
    × (count_passed 7
          (register (pos 0) 7 ∷ set_user (pos 0) ∷ [])
          (new_event cl_submitted user_command)
        ≡ 1)
unfolding new_event run_steps count_passed set_callback set_user_event_status
never_called = (refl, refl)

-- ===== src/Event/User.antt =====
-- Event::setUserEventStatus: clSetUserEventStatus on one user event, any number of times.
use vc4cl.Prelude.{◌≡◌, refl, Bool, true, false, ◌&&◌, not, if◌then◌else◌, List, [], ◌∷◌, arith}
use vc4cl.Prelude.Int.{ℤ, pos, leb_ℤ, ◌==ℤ◌}
use vc4cl.Prelude.Codes.{cl_success, cl_complete, cl_invalid_value, cl_invalid_operation}
use vc4cl.Event.{Event, set_user_event_status}

unfoldable pub set_statuses : List ℤ → Event → Event × List ℤ
set_statuses [] e = (e, [])
set_statuses (status ∷ statuses) e =
    let (changed, code) = set_user_event_status status e in
    let (last, codes) = set_statuses statuses changed in (last, code ∷ codes)

-- CL_COMPLETE or an error.
abbrev pub is_final : ℤ → Bool
is_final status = not (not (status ==ℤ cl_complete) && leb_ℤ (pos 0) status)

-- The first final status decides; each later one is refused.
abbrev pub first_final : ℤ → List ℤ → ℤ
first_final current [] = current
first_final current (status ∷ statuses) =
    if is_final status then status else first_final current statuses

abbrev pub answers : Bool → List ℤ → List ℤ
answers done [] = []
answers done (status ∷ statuses) =
    if is_final status
    then (if done then cl_invalid_operation else cl_success) ∷ answers true statuses
    else cl_invalid_value ∷ answers done statuses

set_statuses-done :
    (statuses : List ℤ) (e : Event)
    → e.user_status_set ≡ true
    → ((set_statuses statuses e).0.status ≡ e.status)
      × ((set_statuses statuses e).1 ≡ answers true statuses)
unfolding set_statuses set_user_event_status
set_statuses-done [] e h = (refl, refl)
set_statuses-done (status ∷ statuses) e h =
    let later = set_statuses-done statuses e h in ground (arith, later)

-- Of any sequence of statuses given to a user event that has none yet, the first that is
-- CL_COMPLETE or negative becomes its status and is answered by CL_SUCCESS; the later ones of that
-- kind are answered by CL_INVALID_OPERATION, all others by CL_INVALID_VALUE.
pub status_set_once :
    (statuses : List ℤ) (e : Event)
    → e.user_status_set ≡ false
    → ((set_statuses statuses e).0.status ≡ first_final e.status statuses)
      × ((set_statuses statuses e).1 ≡ answers false statuses)
unfolding set_statuses set_user_event_status
status_set_once [] e h = (refl, refl)
status_set_once (status ∷ statuses) e h =
    let later = status_set_once statuses e h in
    ground (
      arith,
      later,
      set_statuses-done statuses (record e { status = status; user_status_set = true }) refl,
    )

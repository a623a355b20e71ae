-- ===== src/Queue/Ran.antt =====
-- One iteration of EventQueue::runEventQueue that runs the action of the first event.
use vc4cl.Prelude.{All, ℕ, ◌-◌, ◌≤◌, ◌==◌, ◌≡◌, refl, ap, ◌∙◌, ◌≢◌, true, not, List, [], ◌∷◌, arith}
use vc4cl.Prelude.Codes.{cl_success, cl_complete, cl_submitted}
use vc4cl.Event.{Event, finished, release, wait_list_status}
use vc4cl.Queue.{
  Runtime, Clock, pop_from_event_queue, run_action, wait_statuses, submit_first, handle_next,
}
use vc4cl.Queue.Steps.{Alike, update_status-wait_list, acted}
use vc4cl.Queue.Handler.{settle_self, submit_first_other, submit_first_self, handle_next-first}

-- What the first event is after an iteration that ran its action.
pub handle_next-ran :
    (clock : Clock) (i : ℕ) (rest : List ℕ) (rt : Runtime)
    → rt.buffer ≡ i ∷ rest
    → wait_list_status (
        wait_statuses
          (submit_first clock i rt).events
          ((submit_first clock i rt).events i).wait_list)
      ≡ finished
    → Alike
        (record (run_action clock ((submit_first clock i rt).events i)).0 { wait_list = [] })
        ((handle_next clock rt).events i)
unfolding pop_from_event_queue
handle_next-ran clock i rest rt first ready =
    let after = run_action clock ((submit_first clock i rt).events i) in
    rw (handle_next-first clock i rest rt first, ready, first)
      (settle_self i after.0 (submit_first clock i rt).events)

statuses_complete :
    (clock : Clock) (i : ℕ) (rt : Runtime) (ws : List ℕ)
    → All (λ w. (i ≢ w) × ((rt.events w).status ≡ cl_complete)) ws
    → wait_list_status (wait_statuses (submit_first clock i rt).events ws) ≡ finished
unfolding wait_list_status
statuses_complete clock i rt [] h = refl
statuses_complete clock i rt (w ∷ ws) h =
    rw (submit_first_other clock i rt w h.0.0, h.0.1, statuses_complete clock i rt ws h.1) refl

-- A wait list of complete events other than `i` lets `i` run.
pub all_complete-finished :
    (clock : Clock) (i : ℕ) (rt : Runtime)
    → All (λ w. (i ≢ w) × ((rt.events w).status ≡ cl_complete)) (rt.events i).wait_list
    → wait_list_status (
        wait_statuses
          (submit_first clock i rt).events
          ((submit_first clock i rt).events i).wait_list)
      ≡ finished
all_complete-finished clock i rt h =
    ap (λ ws. wait_list_status (wait_statuses (submit_first clock i rt).events ws))
      (ap (λ e. e.wait_list) (submit_first_self clock i rt)
        ∙ update_status-wait_list clock.at_submit cl_submitted true (rt.events i))
    ∙ statuses_complete clock i rt (rt.events i).wait_list h

release-referenced :
    (e : Event)
    → 1 ≤ e.reference_count
    → release e ≡ (record e { reference_count = e.reference_count - 1 }, cl_success)
unfolding release
release-referenced e h =
    let referenced : not (e.reference_count == 0) ≡ true = ground (arith, h) in rw referenced refl

-- An event that is referenced still when its action is done.
pub run_action-referenced :
    (clock : Clock) (e : Event)
    → 1 ≤ (acted clock e).reference_count
    → (run_action clock e).0
      ≡ record (acted clock e) { reference_count = (acted clock e).reference_count - 1 }
unfolding run_action
run_action-referenced clock e h = rw (release-referenced (acted clock e) h) refl

-- ===== src/Queue/Handler.antt =====
-- One iteration of EventQueue::runEventQueue: what it changes, and when it runs an action.
use vc4cl.Prelude.{All, ℕ, ◌≡◌, refl, ap, ◌∙◌, ◌≢◌, ◌⊎◌, inl, inr, true, List, [], ◌∷◌, some, arith}
use vc4cl.Prelude.Int.{ℤ, pos, ◌≤ℤ◌}
use vc4cl.Prelude.Codes.{cl_submitted, cl_exec_status_error_for_events_in_wait_list}
use vc4cl.Event.{
  Event, Call, WaitListStatus, error, pending, finished, update_status, wait_list_status,
}
use vc4cl.Queue.{
  Runtime, Clock, update_at, release_at, pop_from_event_queue, peek_queue, action_status,
  run_action, abort, clear_wait_list, wait_statuses, complete_first, handle_submitted, submit_first,
  handle_peeked, handle_next,
}
use vc4cl.Queue.Steps.{
  Alike, Alike-trans, update_at_self, update_at_other, release_at-Alike, release_all-Alike,
  update_status-status, update_status-action, update_status-wait_list, run_action-status,
  run_action-action,
}

abbrev settle : ℕ → Event → (ℕ → Event) → ℕ → Event
settle i e events = release_at i (clear_wait_list i (update_at events i e))

settle-Alike :
    (i : ℕ) (e : Event) (events : ℕ → Event) (j : ℕ)
    → Alike
        (update_at (update_at events i e) i (record (update_at events i e i) { wait_list = [] }) j)
        (settle i e events j)
unfolding clear_wait_list
settle-Alike i e events j =
    Alike-trans
      (release_all-Alike (update_at events i e i).wait_list
        (update_at (update_at events i e) i (record (update_at events i e i) { wait_list = [] })) j)
      (release_at-Alike i (clear_wait_list i (update_at events i e)) j)

settle_other :
    (i : ℕ) (e : Event) (events : ℕ → Event) (j : ℕ)
    → i ≢ j
    → Alike (events j) (settle i e events j)
settle_other i e events j ne =
    rw
      (
        update_at_other (update_at events i e) (record (update_at events i e i) { wait_list = [] })
            ne,
        update_at_other events e ne,
      )
      at (settle-Alike i e events j)

pub settle_self :
    (i : ℕ) (e : Event) (events : ℕ → Event)
    → Alike (record e { wait_list = [] }) (settle i e events i)
settle_self i e events =
    rw
      (
        update_at_self (update_at events i e) i
            (record (update_at events i e i) { wait_list = [] }),
        update_at_self events i e,
      )
      at (settle-Alike i e events i)

-- What an iteration leaves that finishes the event `i`, the first of the buffer.
pub record Finishes (i : ℕ) (rest : List ℕ) (before after : Runtime) : Type 0 where
  pub popped : after.buffer ≡ rest
  pub finished_now : (after.events i).status ≤ℤ pos 0
  pub kept_action : (after.events i).action ≡ (before.events i).action
  pub waits_no_more : (after.events i).wait_list ≡ []
  pub others : (j : ℕ) → i ≢ j → Alike (before.events j) (after.events j)

complete_first-Finishes :
    (i : ℕ) (rest : List ℕ) (e : Event) (calls : List Call) (ran : List ℕ) (rt : Runtime)
    → rt.buffer ≡ i ∷ rest
    → e.status ≤ℤ pos 0
    → e.action ≡ (rt.events i).action
    → Finishes i rest rt (complete_first i (e, calls) ran rt)
unfolding pop_from_event_queue
complete_first-Finishes i rest e calls ran rt first done action =
    let self = settle_self i e rt.events in
    rw first (record {
      popped = refl;
      finished_now = rw self.same_status done;
      kept_action = self.same_action ∙ action;
      waits_no_more = self.same_wait_list;
      others = settle_other i e rt.events;
    })

wait_list_status-cases :
    (statuses : List ℤ)
    → All (λ st. st ≤ℤ pos 0) statuses
    → (wait_list_status statuses ≡ error) ⊎ (wait_list_status statuses ≡ finished)
unfolding wait_list_status
wait_list_status-cases [] h = inr refl
wait_list_status-cases (st ∷ statuses) h =
    let later = wait_list_status-cases statuses h.1 in ground (arith, h.0, later)

pub submit_first_other :
    (clock : Clock) (i : ℕ) (rt : Runtime) (j : ℕ)
    → i ≢ j
    → (submit_first clock i rt).events j ≡ rt.events j
submit_first_other clock i rt j ne =
    update_at_other rt.events (update_status clock.at_submit cl_submitted true (rt.events i)).0 ne

pub submit_first_self :
    (clock : Clock) (i : ℕ) (rt : Runtime)
    → (submit_first clock i rt).events i
      ≡ (update_status clock.at_submit cl_submitted true (rt.events i)).0
submit_first_self clock i rt =
    update_at_self rt.events i (update_status clock.at_submit cl_submitted true (rt.events i)).0

handle_submitted-Finishes :
    (clock : Clock) (i : ℕ) (rest : List ℕ) (waits : WaitListStatus) (rt : Runtime)
    → rt.buffer ≡ i ∷ rest
    → (waits ≡ error) ⊎ (waits ≡ finished)
    → action_status (rt.events i).action ≤ℤ pos 0
    → Finishes i rest rt (handle_submitted clock i waits rt)
unfolding abort
handle_submitted-Finishes clock i rest pending rt first (inl q) h = ground (arith, q)
handle_submitted-Finishes clock i rest pending rt first (inr q) h = ground (arith, q)
handle_submitted-Finishes clock i rest error rt first q h =
    let aborted =
      update_status clock.at_end cl_exec_status_error_for_events_in_wait_list true (rt.events i) in
    complete_first-Finishes i rest aborted.0 aborted.1 [] rt first
      (rw
        (update_status-status clock.at_end cl_exec_status_error_for_events_in_wait_list true
          (rt.events i))
        (omega arith))
      (update_status-action clock.at_end cl_exec_status_error_for_events_in_wait_list true
        (rt.events i))
handle_submitted-Finishes clock i rest finished rt first q h =
    complete_first-Finishes i rest (run_action clock (rt.events i)).0
      (run_action clock (rt.events i)).1 (i ∷ []) rt first (run_action-status clock (rt.events i) h)
      (run_action-action clock (rt.events i))

-- What a wait list of finished events other than `i` is after the submission of `i`.
statuses-after_submit :
    (clock : Clock) (i : ℕ) (rt : Runtime) (ws : List ℕ)
    → All (λ w. (i ≢ w) × ((rt.events w).status ≤ℤ pos 0)) ws
    → All (λ st. st ≤ℤ pos 0) (wait_statuses (submit_first clock i rt).events ws)
statuses-after_submit clock i rt [] h = tt
statuses-after_submit clock i rt (w ∷ ws) h =
    (rw (submit_first_other clock i rt w h.0.0) h.0.1, statuses-after_submit clock i rt ws h.1)

peek_queue-first :
    (i : ℕ) (rest : List ℕ) (rt : Runtime) → rt.buffer ≡ i ∷ rest → peek_queue rt ≡ some i
unfolding peek_queue
peek_queue-first i rest rt first = ap (λ b. peek_queue (record rt { buffer = b })) first

pub handle_next-first :
    (clock : Clock) (i : ℕ) (rest : List ℕ) (rt : Runtime)
    → rt.buffer ≡ i ∷ rest
    → handle_next clock rt ≡ handle_peeked clock (some i) rt
unfolding handle_next
handle_next-first clock i rest rt first =
    ap (λ o. handle_peeked clock o rt) (peek_queue-first i rest rt first)

pub handle_next-Finishes :
    (clock : Clock) (i : ℕ) (rest : List ℕ) (rt : Runtime)
    → rt.buffer ≡ i ∷ rest
    → All (λ w. (i ≢ w) × ((rt.events w).status ≤ℤ pos 0)) (rt.events i).wait_list
    → action_status (rt.events i).action ≤ℤ pos 0
    → Finishes i rest rt (handle_next clock rt)
handle_next-Finishes clock i rest rt first waits h =
    let ready : Runtime = submit_first clock i rt in
    let self = submit_first_self clock i rt in
    let action : (ready.events i).action ≡ (rt.events i).action =
      ap (λ e. e.action) self
      ∙ update_status-action clock.at_submit cl_submitted true (rt.events i) in
    let wait_list : (ready.events i).wait_list ≡ (rt.events i).wait_list =
      ap (λ e. e.wait_list) self
      ∙ update_status-wait_list clock.at_submit cl_submitted true (rt.events i) in
    let done =
      handle_submitted-Finishes clock i rest
        (wait_list_status (wait_statuses ready.events (ready.events i).wait_list)) ready first
        (rw wait_list (
          wait_list_status-cases (wait_statuses ready.events (rt.events i).wait_list)
            (statuses-after_submit clock i rt (rt.events i).wait_list waits)))
        (rw action h) in
    rw (handle_next-first clock i rest rt first) (record {
      popped = done.popped;
      finished_now = done.finished_now;
      kept_action = done.kept_action ∙ action;
      waits_no_more = done.waits_no_more;
      others = λ j ne. rw (submit_first_other clock i rt j ne) at (done.others j ne);
    })

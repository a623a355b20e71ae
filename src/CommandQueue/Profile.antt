-- ===== src/CommandQueue/Profile.antt =====
-- The times that an event shows: CommandQueue::enqueueEvent, EventQueue::runEventQueue and
-- Event::getProfilingInfo.
use mathlib.Core.Path.{subst}
use native.Mathlib.Nat.{mod-eq_of_lt}
use vc4cl.Prelude.{
  All, ℕ, ◌+◌, ◌%◌, ◌^◌, ◌==◌, ◌≤◌, ◌<◌, ◌≡◌, ◌≢◌, refl, sym, ap, ◌∙◌, inl, inr, true, false, not,
  List, [], ◌∷◌, ◌++◌, Option, some, none, arith, Bool-cases,
}
use vc4cl.Prelude.Int.{ℤ}
use vc4cl.Prelude.Codes.{cl_success, cl_queued, cl_submitted, cl_complete}
use vc4cl.Event.{Event, returns, update_status, retain, prepare_to_queue, no_times}
use vc4cl.Queue.{
  Runtime, Clock, run_action, update_at, retain_at, push_event, submit_first, queue_prepared,
  enqueue_event, handle_next,
}
use vc4cl.Queue.Handler.{submit_first_self}
use vc4cl.Queue.Ran.{run_action-referenced, handle_next-ran, all_complete-finished}
use vc4cl.Queue.Steps.{Alike, update_at_self, update_at_other}
use vc4cl.Queue.References.{enqueue_event-prepared, queue_prepared-status}
use vc4cl.CommandQueue.{queued, submit, start, end, get_profiling_info}

-- An event that the handler has submitted and run.
abbrev handled : Clock → Event → Event
handled clock e = (run_action clock (update_status clock.at_submit cl_submitted true e).0).0

abbrev ready : Event → ℕ → Event
ready e q = record e {
  status = cl_queued;
  action = some (returns cl_success);
  queue = some q;
  user_status_set = false;
}

-- Each parameter of the profile.
abbrev pub ProfileTimes : Clock → Event → ℕ → Type 0
ProfileTimes clock e queue_time =
    (get_profiling_info true queued e ≡ (some queue_time, cl_success))
    × (get_profiling_info true submit e ≡ (some clock.at_submit, cl_success))
    × (get_profiling_info true start e ≡ (some clock.at_start, cl_success))
    × (get_profiling_info true end e ≡ (some clock.at_end, cl_success))

ready-ProfileTimes :
    (clock : Clock) (e : Event) (q : ℕ)
    → 1 ≤ e.reference_count
    → ProfileTimes clock (handled clock (ready e q)) e.profile.queue_time
unfolding get_profiling_info update_status
ready-ProfileTimes clock e q count =
    rw
      (run_action-referenced clock (update_status clock.at_submit cl_submitted true (ready e q)).0
        count)
      (refl, refl, refl, refl)

ready_is :
    (e : Event) (q : ℕ)
    → e.status ≡ cl_queued
    → e.action ≡ some (returns cl_success)
    → e.queue ≡ some q
    → e.user_status_set ≡ false
    → e ≡ ready e q
ready_is e q status action queue user = rw⁻¹ (status, action, queue, user) refl

handled-ProfileTimes :
    (clock : Clock) (e : Event) (q : ℕ)
    → e.status ≡ cl_queued
    → e.action ≡ some (returns cl_success)
    → e.queue ≡ some q
    → e.user_status_set ≡ false
    → 1 ≤ e.reference_count
    → ProfileTimes clock (handled clock e) e.profile.queue_time
handled-ProfileTimes clock e q status action queue user count =
    subst (λ f. ProfileTimes clock (handled clock f) e.profile.queue_time)
      (sym (ready_is e q status action queue user)) (ready-ProfileTimes clock e q count)

Alike-ProfileTimes :
    (clock : Clock) (e e' : Event) (t : ℕ)
    → Alike e e'
    → ProfileTimes clock e t
    → ProfileTimes clock e' t
unfolding get_profiling_info
Alike-ProfileTimes clock e e' t a h =
    rw (a.same_queue, a.same_status, a.same_user_status, a.same_profile) h

ProfileTimes-no_wait_list :
    (clock : Clock) (e : Event) (t : ℕ)
    → ProfileTimes clock e t
    → ProfileTimes clock (record e { wait_list = [] }) t
unfolding get_profiling_info
ProfileTimes-no_wait_list clock e t h = h

-- The event that prepareToQueue makes.
abbrev prepared : ℕ → ℕ → Event → Event
prepared now q e = record e {
  reference_count = (e.reference_count + 1) % 2 ^ 32;
  queue = some q;
  profile = record no_times { queue_time = now };
}

prepare_to_queue-eq :
    (now q : ℕ) (other : Option ℕ) (e : Event)
    → (prepare_to_queue now (some q) true (record e { queue = other })).1 ≡ cl_success
    → prepare_to_queue now (some q) true (record e { queue = other })
      ≡ (prepared now q e, cl_success)
unfolding prepare_to_queue retain
prepare_to_queue-eq now q (some o) e ok = absurd (ground (arith, ok))
prepare_to_queue-eq now q none e ok = elim (Bool-cases (not (e.reference_count == 0))) [
  | inl p ↦ rw p refl
  | inr p ↦ absurd (ground (arith, rw p at ok))
]

-- The event `i` after an accepted call of enqueueEvent, and the others.
module _ (now q i : ℕ) (rt : Runtime)
    (ok : (enqueue_event now (some q) true i rt).1 ≡ cl_success) where
  abbrev next : Runtime
  next = (enqueue_event now (some q) true i rt).0

  enqueue_event-pushed :
      next
      ≡ push_event i (record rt { events = update_at rt.events i (prepared now q (rt.events i)) })
  enqueue_event-pushed =
      let e : Event = rt.events i in
      let same = enqueue_event-prepared now (some q) true i rt ok in
      let accepted : (prepare_to_queue now (some q) true e).1 ≡ cl_success =
        sym (queue_prepared-status i (prepare_to_queue now (some q) true e) rt)
        ∙ ap (λ (r : Runtime × ℤ). r.1) (sym same)
        ∙ ok in
      ap (λ (r : Runtime × ℤ). r.0) same
      ∙ ap (λ (p : Event × ℤ). (queue_prepared i p rt).0)
          (prepare_to_queue-eq now q e.queue e accepted)

  next_buffer : next.buffer ≡ rt.buffer ++ i ∷ []
  unfolding push_event
  next_buffer = ap (λ (r : Runtime). r.buffer) enqueue_event-pushed

  next_self : next.events i ≡ (retain (prepared now q (rt.events i))).0
  unfolding push_event retain_at
  next_self =
      ap (λ (r : Runtime). r.events i) enqueue_event-pushed
      ∙ update_at_self (update_at rt.events i (prepared now q (rt.events i))) i
          (retain (update_at rt.events i (prepared now q (rt.events i)) i)).0
      ∙ ap (λ e. (retain e).0) (update_at_self rt.events i (prepared now q (rt.events i)))

  next_other : (w : ℕ) → i ≢ w → next.events w ≡ rt.events w
  unfolding push_event retain_at
  next_other w ne =
      ap (λ (r : Runtime). r.events w) enqueue_event-pushed
      ∙ update_at_other (update_at rt.events i (prepared now q (rt.events i)))
          (retain (update_at rt.events i (prepared now q (rt.events i)) i)).0 ne
      ∙ update_at_other rt.events (prepared now q (rt.events i)) ne

  next_waits :
      (ws : List ℕ)
      → All (λ w. (i ≢ w) × ((rt.events w).status ≡ cl_complete)) ws
      → All (λ w. (i ≢ w) × ((next.events w).status ≡ cl_complete)) ws
  next_waits [] h = tt
  next_waits (w ∷ ws) h =
      ((h.0.0, ap (λ e. e.status) (next_other w h.0.0) ∙ h.0.1), next_waits ws h.1)

-- What `retain` makes of a prepared event.
retain-prepared :
    (now q : ℕ) (e : Event)
    → e.reference_count + 2 < 2 ^ 32
    → (retain (prepared now q e)).0
      ≡ record (prepared now q e) { reference_count = e.reference_count + 2 }
unfolding retain
retain-prepared now q e room =
    let count : (e.reference_count + 1) % 2 ^ 32 ≡ e.reference_count + 1 =
      mod-eq_of_lt {n = e.reference_count + 1} {m = 2 ^ 32} (omega (arith, room)) in
    let held : not (e.reference_count + 1 == 0) ≡ true = ground arith in
    let more : (e.reference_count + 1 + 1) % 2 ^ 32 ≡ e.reference_count + 2 = omega (arith, room) in
    rw (count, held, more) refl

-- Where enqueueEvent takes, for a profiling queue, an event that is queued and no user event, whose
-- action succeeds and whose wait list has only other, complete events, into an empty buffer, and the
-- count of its references stays below 2 ^ 32: after the next iteration of the handler getProfilingInfo
-- shows the time of enqueueEvent and those of the clock for the submission, start and end.
pub profile_shows_clock :
    (clock : Clock) (now q i : ℕ) (rt : Runtime)
    → rt.buffer ≡ []
    → (rt.events i).status ≡ cl_queued
    → (rt.events i).action ≡ some (returns cl_success)
    → (rt.events i).user_status_set ≡ false
    → All (λ w. (i ≢ w) × ((rt.events w).status ≡ cl_complete)) (rt.events i).wait_list
    → (rt.events i).reference_count + 2 < 2 ^ 32
    → (enqueue_event now (some q) true i rt).1 ≡ cl_success
    → ProfileTimes clock ((handle_next clock (enqueue_event now (some q) true i rt).0).events i) now
profile_shows_clock clock now q i rt empty status action user waits room ok =
    let after : Runtime = (enqueue_event now (some q) true i rt).0 in
    let is : after.events i ≡ record (prepared now q (rt.events i)) {
      reference_count = (rt.events i).reference_count + 2;
    } =
      next_self now q i rt ok ∙ retain-prepared now q (rt.events i) room in
    let first : after.buffer ≡ i ∷ [] = next_buffer now q i rt ok ∙ ap (λ is. is ++ i ∷ []) empty in
    let ready : All (λ w. (i ≢ w) × ((after.events w).status ≡ cl_complete))
        (after.events i).wait_list =
      rw is (next_waits now q i rt ok (rt.events i).wait_list waits) in
    let handled_shown : ProfileTimes clock (handled clock (after.events i)) now = rw is (
      handled-ProfileTimes clock
        (record (prepared now q (rt.events i)) {
          reference_count = (rt.events i).reference_count + 2;
        })
        q status action refl user (omega arith)) in
    let ran = (run_action clock ((submit_first clock i after).events i)).0 in
    let shown : ProfileTimes clock ran now =
      subst (λ e. ProfileTimes clock (run_action clock e).0 now)
        (sym (submit_first_self clock i after)) handled_shown in
    Alike-ProfileTimes clock (record ran { wait_list = [] }) ((handle_next clock after).events i)
      now (handle_next-ran clock i [] after first (all_complete-finished clock i after ready))
      (ProfileTimes-no_wait_list clock ran now shown)

-- ===== src/Queue/Steps.antt =====
-- Event::updateStatus, Event::release and the action of an event: what they leave of the event.
use vc4cl.Prelude.{
  ℕ, ◌==◌, ==_iff, ◌≡◌, refl, sym, ap, ◌∙◌, ◌≢◌, ◌⊎◌, inl, inr, Bool, true, false, not, List, [],
  ◌∷◌, arith, Bool-cases, if_true, if_false,
}
use vc4cl.Prelude.Int.{ℤ, pos, ◌≤ℤ◌, ◌==ℤ◌, ==ℤ_iff}
use vc4cl.Prelude.Codes.{cl_success, cl_running, cl_invalid_event}
use vc4cl.Event.{Event, release, update_status}
use vc4cl.Queue.{Clock, update_at, release_at, release_all, action_status, run_action}

-- The parts of an event that the handling of other events leaves alone.
pub record Alike (e e' : Event) : Type 0 where
  pub same_status : e'.status ≡ e.status
  pub same_action : e'.action ≡ e.action
  pub same_wait_list : e'.wait_list ≡ e.wait_list
  pub same_queue : e'.queue ≡ e.queue
  pub same_user_status : e'.user_status_set ≡ e.user_status_set
  pub same_profile : e'.profile ≡ e.profile

pub Alike-refl : (e : Event) → Alike e e
Alike-refl e = record {
  same_status = refl;
  same_action = refl;
  same_wait_list = refl;
  same_queue = refl;
  same_user_status = refl;
  same_profile = refl;
}

pub Alike-trans : {e₁ e₂ e₃ : Event} → Alike e₁ e₂ → Alike e₂ e₃ → Alike e₁ e₃
Alike-trans a b = record {
  same_status = b.same_status ∙ a.same_status;
  same_action = b.same_action ∙ a.same_action;
  same_wait_list = b.same_wait_list ∙ a.same_wait_list;
  same_queue = b.same_queue ∙ a.same_queue;
  same_user_status = b.same_user_status ∙ a.same_user_status;
  same_profile = b.same_profile ∙ a.same_profile;
}

pub release-Alike : (e : Event) → Alike e (release e).0
unfolding release
release-Alike e = elim (Bool-cases (not (e.reference_count == 0))) [
  | inl q ↦ rw q (record {
    same_status = refl;
    same_action = refl;
    same_wait_list = refl;
    same_queue = refl;
    same_user_status = refl;
    same_profile = refl;
  })
  | inr q ↦ rw q (Alike-refl e)
]

pub update_at_self : (events : ℕ → Event) (i : ℕ) (e : Event) → update_at events i e i ≡ e
update_at_self events i e = if_true (i == i) e (events i) (ground arith)

pub update_at_other :
    (events : ℕ → Event) {i j : ℕ} (e : Event) → i ≢ j → update_at events i e j ≡ events j
update_at_other events e ne = if_false (_ == _) e (events _) (ground arith)

pub release_at-Alike :
    (i : ℕ) (events : ℕ → Event) (j : ℕ) → Alike (events j) (release_at i events j)
unfolding release_at
release_at-Alike i events j = elim (Bool-cases (i == j)) [
  | inl q ↦ rw q (rw ((==_iff i j).0 q) (release-Alike (events j)))
  | inr q ↦ rw q (Alike-refl (events j))
]

pub release_all-Alike :
    (is : List ℕ) (events : ℕ → Event) (j : ℕ) → Alike (events j) (release_all is events j)
unfolding release_all
release_all-Alike [] events j = Alike-refl (events j)
release_all-Alike (i ∷ is) events j =
    Alike-trans (release_at-Alike i events j) (release_all-Alike is (release_at i events) j)

pub update_status-status :
    (now : ℕ) (status : ℤ) (fire : Bool) (e : Event)
    → (update_status now status fire e).0.status ≡ status
unfolding update_status
update_status-status now status fire e = elim (Bool-cases (status ==ℤ e.status)) [
  | inl q ↦ rw q (sym ((==ℤ_iff status e.status).0 q))
  | inr q ↦ rw q refl
]

pub update_status-action :
    (now : ℕ) (status : ℤ) (fire : Bool) (e : Event)
    → (update_status now status fire e).0.action ≡ e.action
unfolding update_status
update_status-action now status fire e = elim (Bool-cases (status ==ℤ e.status)) [
  | inl q ↦ rw q refl
  | inr q ↦ rw q refl
]

pub update_status-wait_list :
    (now : ℕ) (status : ℤ) (fire : Bool) (e : Event)
    → (update_status now status fire e).0.wait_list ≡ e.wait_list
unfolding update_status
update_status-wait_list now status fire e = elim (Bool-cases (status ==ℤ e.status)) [
  | inl q ↦ rw q refl
  | inr q ↦ rw q refl
]

release-status : (e : Event) → ((release e).1 ≡ cl_success) ⊎ ((release e).1 ≡ cl_invalid_event)
unfolding release
release-status e = elim (Bool-cases (not (e.reference_count == 0))) [
  | inl q ↦ rw q (inl refl)
  | inr q ↦ rw q (inr refl)
]

abbrev pub acted : Clock → Event → Event
acted clock e =
    let running : Event = (update_status clock.at_start cl_running true e).0 in
    (update_status clock.at_end (action_status running.action) true running).0

acted-status : (clock : Clock) (e : Event) → (acted clock e).status ≡ action_status e.action
acted-status clock e =
    let running = (update_status clock.at_start cl_running true e).0 in
    update_status-status clock.at_end (action_status running.action) true running
    ∙ ap action_status (update_status-action clock.at_start cl_running true e)

acted-action : (clock : Clock) (e : Event) → (acted clock e).action ≡ e.action
acted-action clock e =
    let running = (update_status clock.at_start cl_running true e).0 in
    update_status-action clock.at_end (action_status running.action) true running
    ∙ update_status-action clock.at_start cl_running true e

acted-wait_list : (clock : Clock) (e : Event) → (acted clock e).wait_list ≡ e.wait_list
acted-wait_list clock e =
    let running = (update_status clock.at_start cl_running true e).0 in
    update_status-wait_list clock.at_end (action_status running.action) true running
    ∙ update_status-wait_list clock.at_start cl_running true e

-- A failed release is an error status.
pub run_action-status :
    (clock : Clock) (e : Event)
    → action_status e.action ≤ℤ pos 0
    → (run_action clock e).0.status ≤ℤ pos 0
unfolding run_action
run_action-status clock e h =
    let done = acted clock e in
    elim (release-status done) [
      | inl q ↦ rw q (rw ((release-Alike done).same_status, acted-status clock e) h)
      | inr q ↦ rw q (
          rw (update_status-status clock.at_end cl_invalid_event false (release done).0)
            (omega arith))
    ]

pub run_action-action : (clock : Clock) (e : Event) → (run_action clock e).0.action ≡ e.action
unfolding run_action
run_action-action clock e =
    let done = acted clock e in
    let kept = (release-Alike done).same_action ∙ acted-action clock e in
    elim (release-status done) [
      | inl q ↦ rw q kept
      | inr q ↦
          rw q (update_status-action clock.at_end cl_invalid_event false (release done).0 ∙ kept)
    ]

pub run_action-wait_list :
    (clock : Clock) (e : Event) → (run_action clock e).0.wait_list ≡ e.wait_list
unfolding run_action
run_action-wait_list clock e =
    let done = acted clock e in
    let kept = (release-Alike done).same_wait_list ∙ acted-wait_list clock e in
    elim (release-status done) [
      | inl q ↦ rw q kept
      | inr q ↦
          rw q (update_status-wait_list clock.at_end cl_invalid_event false (release done).0 ∙ kept)
    ]

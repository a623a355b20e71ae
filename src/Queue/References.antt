-- ===== src/Queue/References.antt =====
-- The references to an event that the queue takes and gives back, and when its action runs.
use mathlib.Core.List.{append-nil}
use vc4cl.Prelude.{
  All, ℕ, ◌+◌, ◌-◌, ◌^◌, ◌<◌, ◌==◌, ◌≡◌, refl, sym, ap, ◌∙◌, ◌≢◌, ◌⊎◌, inl, inr, Bool, true, false,
  not, List, [], ◌∷◌, ◌++◌, Option, some, none, arith, Bool-cases,
}
use vc4cl.Prelude.Int.{ℤ, ◌==ℤ◌}
use vc4cl.Prelude.Codes.{
  cl_success, cl_complete, cl_running, cl_submitted, cl_exec_status_error_for_events_in_wait_list,
}
use vc4cl.Event.{
  Event, Call, WaitListStatus, error, pending, finished, retain, release, update_status,
  prepare_to_queue, wait_list_status, is_finished, check_references,
}
use vc4cl.Queue.{
  Runtime, Clock, update_at, retain_at, release_at, release_all, pop_from_event_queue,
  action_status, run_action, abort, clear_wait_list, wait_statuses, complete_first,
  handle_submitted, submit_first, handle_next, push_event, has_action, queue_prepared,
  enqueue_event,
}
use vc4cl.Queue.Steps.{
  update_at_self, update_at_other, update_status-wait_list, run_action-wait_list,
}
use vc4cl.Queue.Handler.{handle_next-first, submit_first_self}

-- The wait list of the event `i` when the handler asks for it.
abbrev pub waits_of : Clock → ℕ → Runtime → List ℤ
waits_of clock i rt =
    wait_statuses (submit_first clock i rt).events ((submit_first clock i rt).events i).wait_list

wait_list_status-All :
    (statuses : List ℤ)
    → wait_list_status statuses ≡ finished
    → All (λ st. st ≡ cl_complete) statuses
unfolding wait_list_status
wait_list_status-All [] h = tt
wait_list_status-All (st ∷ statuses) h =
    (ground (arith, h), wait_list_status-All statuses (ground (arith, h)))

pop-executed :
    (buffer : List ℕ) (rt : Runtime)
    → (pop_from_event_queue (record rt { buffer = buffer })).executed ≡ rt.executed
unfolding pop_from_event_queue
pop-executed [] rt = refl
pop-executed (i ∷ rest) rt = refl

pub complete_first-executed :
    (i : ℕ) (e : Event) (calls : List Call) (ran : List ℕ) (rt : Runtime)
    → (complete_first i (e, calls) ran rt).executed ≡ rt.executed ++ ran
complete_first-executed i e calls ran rt = pop-executed rt.buffer (record rt {
  events = clear_wait_list i (update_at rt.events i e);
  calls = rt.calls ++ calls;
  executed = rt.executed ++ ran;
})

handle_submitted-executes :
    (clock : Clock) (i : ℕ) (waits : WaitListStatus) (rt : Runtime)
    → ((handle_submitted clock i waits rt).executed ≡ rt.executed)
      ⊎ ((waits ≡ finished)
          × ((handle_submitted clock i waits rt).executed ≡ rt.executed ++ (i ∷ [])))
handle_submitted-executes clock i pending rt = inl refl
handle_submitted-executes clock i error rt = inl (
    complete_first-executed i (abort clock (rt.events i)).0 (abort clock (rt.events i)).1 [] rt
    ∙ append-nil rt.executed)
handle_submitted-executes clock i finished rt = inr (
  refl,
  complete_first-executed i (run_action clock (rt.events i)).0 (run_action clock (rt.events i)).1
      (i ∷ []) rt,
)

-- In one iteration of the handler either no action runs, or that of the first event does, once,
-- and then each event of its wait list is complete at that time.
pub handle_next-executes :
    (clock : Clock) (i : ℕ) (rest : List ℕ) (rt : Runtime)
    → rt.buffer ≡ i ∷ rest
    → ((handle_next clock rt).executed ≡ rt.executed)
      ⊎ (((handle_next clock rt).executed ≡ rt.executed ++ (i ∷ []))
          × All (λ st. st ≡ cl_complete) (waits_of clock i rt))
handle_next-executes clock i rest rt first =
    rw (handle_next-first clock i rest rt first)
      (elim (handle_submitted-executes clock i (wait_list_status (waits_of clock i rt))
        (submit_first clock i rt)) [
          | inl same ↦ inl same
          | inr (ready, ran) ↦ inr (ran, wait_list_status-All (waits_of clock i rt) ready)
        ])

update_status-references :
    (now : ℕ) (status : ℤ) (fire : Bool) (e : Event)
    → (update_status now status fire e).0.reference_count ≡ e.reference_count
unfolding update_status
update_status-references now status fire e = elim (Bool-cases (status ==ℤ e.status)) [
  | inl q ↦ rw q refl
  | inr q ↦ rw q refl
]

release-references : (e : Event) → (release e).0.reference_count ≡ e.reference_count - 1
unfolding release
release-references e = elim (Bool-cases (not (e.reference_count == 0))) [
  | inl q ↦ rw q refl
  | inr q ↦ rw q (ground (arith, q))
]

run_action-references :
    (clock : Clock) (e : Event) → (run_action clock e).0.reference_count ≡ e.reference_count - 1
unfolding run_action
run_action-references clock e =
    let running = (update_status clock.at_start cl_running true e).0 in
    let done = (update_status clock.at_end (action_status running.action) true running).0 in
    let count : done.reference_count ≡ e.reference_count =
      update_status-references clock.at_end (action_status running.action) true running
      ∙ update_status-references clock.at_start cl_running true e in
    let released : (release done).0.reference_count ≡ e.reference_count - 1 =
      release-references done ∙ ap (λ n. n - 1) count in
    elim (Bool-cases (not ((release done).1 ==ℤ cl_success))) [
      | inl q ↦
          rw q (
            update_status-references clock.at_end (release done).1 false (release done).0
            ∙ released)
      | inr q ↦ rw q released
    ]

release_all-other :
    (is : List ℕ) (events : ℕ → Event) (i : ℕ)
    → All (λ w. i ≢ w) is
    → release_all is events i ≡ events i
unfolding release_all release_at
release_all-other [] events i h = refl
release_all-other (w ∷ ws) events i h =
    release_all-other ws (release_at w events) i h.1
    ∙ update_at_other events (release (events w)).0 (λ e. h.0 (sym e))

-- The buffer gives back its reference, too.
complete_first-references :
    (i : ℕ) (rest : List ℕ) (e : Event) (calls : List Call) (ran : List ℕ) (rt : Runtime)
    → rt.buffer ≡ i ∷ rest
    → All (λ w. i ≢ w) e.wait_list
    → ((complete_first i (e, calls) ran rt).events i).reference_count ≡ e.reference_count - 1
unfolding pop_from_event_queue clear_wait_list release_at
complete_first-references i rest e calls ran rt first others =
    let changed : ℕ → Event = update_at rt.events i e in
    let self = update_at_self rt.events i e in
    rw first (
      rw (update_at_self (clear_wait_list i changed) i (release (clear_wait_list i changed i)).0) (
        release-references (clear_wait_list i changed i)
        ∙ ap (λ n. n - 1)
            (ap (λ e. e.reference_count)
                (release_all-other (changed i).wait_list
                    (update_at changed i (record (changed i) { wait_list = [] })) i (rw self others)
                  ∙ update_at_self changed i (record (changed i) { wait_list = [] }))
              ∙ ap (λ e. e.reference_count) self)))

module _ (clock : Clock) (i : ℕ) (rest : List ℕ) (rt : Runtime) (first : rt.buffer ≡ i ∷ rest) where
  finished-references :
      All (λ w. i ≢ w) (run_action clock (rt.events i)).0.wait_list
      → ((handle_submitted clock i finished rt).events i).reference_count
        ≡ (rt.events i).reference_count - 2
  finished-references others = omega (
    arith,
    complete_first-references i rest (run_action clock (rt.events i)).0
        (run_action clock (rt.events i)).1 (i ∷ []) rt first others,
    run_action-references clock (rt.events i),
  )

  error-references :
      All (λ w. i ≢ w) (abort clock (rt.events i)).0.wait_list
      → ((handle_submitted clock i error rt).events i).reference_count
        ≡ (rt.events i).reference_count - 1
  unfolding abort
  error-references others = omega (
    arith,
    complete_first-references i rest (abort clock (rt.events i)).0 (abort clock (rt.events i)).1 []
        rt first others,
    update_status-references clock.at_end cl_exec_status_error_for_events_in_wait_list true
        (rt.events i),
  )

abbrev pub given_back : WaitListStatus → ℕ
given_back pending = 0
given_back error = 1
given_back finished = 2

handle_submitted-references :
    (clock : Clock) (i : ℕ) (rest : List ℕ) (waits : WaitListStatus) (rt : Runtime)
    → rt.buffer ≡ i ∷ rest
    → All (λ w. i ≢ w) (rt.events i).wait_list
    → ((handle_submitted clock i waits rt).events i).reference_count
      ≡ (rt.events i).reference_count - given_back waits
unfolding abort
handle_submitted-references clock i rest pending rt first others = omega arith
handle_submitted-references clock i rest error rt first others =
    error-references clock i rest rt first (
      rw
        (update_status-wait_list clock.at_end cl_exec_status_error_for_events_in_wait_list true
          (rt.events i))
        others)
handle_submitted-references clock i rest finished rt first others =
    finished-references clock i rest rt first (rw (run_action-wait_list clock (rt.events i)) others)

-- An iteration on the first event `i` of the buffer, whose wait list does not hold `i` itself,
-- gives back two references to `i` (as far as there are any) where the wait list has finished,
-- only one where an event of the wait list has failed, and none where it is pending.
pub handle_next-references :
    (clock : Clock) (i : ℕ) (rest : List ℕ) (rt : Runtime)
    → rt.buffer ≡ i ∷ rest
    → All (λ w. i ≢ w) (rt.events i).wait_list
    → ((handle_next clock rt).events i).reference_count
      ≡ (rt.events i).reference_count - given_back (wait_list_status (waits_of clock i rt))
handle_next-references clock i rest rt first others =
    let self = submit_first_self clock i rt in
    rw (handle_next-first clock i rest rt first) (
      handle_submitted-references clock i rest (wait_list_status (waits_of clock i rt))
        (submit_first clock i rt) first
        (rw (self, update_status-wait_list clock.at_submit cl_submitted true (rt.events i)) others)
      ∙ ap (λ n. n - given_back (wait_list_status (waits_of clock i rt)))
          (ap (λ e. e.reference_count) self
            ∙ update_status-references clock.at_submit cl_submitted true (rt.events i)))

retain-references :
    (e : Event)
    → e.reference_count + 1 < 2 ^ 32
    → (retain e).1 ≡ cl_success
    → ((retain e).0.reference_count ≡ e.reference_count + 1) × ((retain e).0.queue ≡ e.queue)
unfolding retain
retain-references e room ok = elim (Bool-cases (not (e.reference_count == 0))) [
  | inl q ↦ rw q (omega arith, refl)
  | inr q ↦ absurd (ground (arith, rw q at ok))
]

retain-positive : (e : Event) → 0 < e.reference_count → (retain e).1 ≡ cl_success
unfolding retain
retain-positive e h = ground (arith, h)

prepare_to_queue-references :
    (now : ℕ) (queue : Option ℕ) (valid : Bool) (other : Option ℕ) (e : Event)
    → e.reference_count + 1 < 2 ^ 32
    → (prepare_to_queue now queue valid (record e { queue = other })).1 ≡ cl_success
    → ((prepare_to_queue now queue valid (record e { queue = other })).0.reference_count
        ≡ e.reference_count + 1)
      × ((prepare_to_queue now queue valid (record e { queue = other })).0.queue ≡ queue)
      × (0 < e.reference_count)
unfolding prepare_to_queue retain
prepare_to_queue-references now none valid other e room ok = absurd (ground (arith, ok))
prepare_to_queue-references now (some q) valid (some o) e room ok = absurd (ground (arith, ok))
prepare_to_queue-references now (some q) false none e room ok = absurd (ground (arith, ok))
prepare_to_queue-references now (some q) true none e room ok =
    elim (Bool-cases (not (e.reference_count == 0))) [
      | inl p ↦ rw p (omega arith, refl, ground (arith, p))
      | inr p ↦ absurd (ground (arith, rw p at ok))
    ]

pub enqueue_event-prepared :
    (now : ℕ) (queue : Option ℕ) (valid : Bool) (i : ℕ) (rt : Runtime)
    → (enqueue_event now queue valid i rt).1 ≡ cl_success
    → enqueue_event now queue valid i rt
      ≡ queue_prepared i (prepare_to_queue now queue valid (rt.events i)) rt
unfolding enqueue_event
enqueue_event-prepared now queue false i rt ok = absurd (ground (arith, ok))
enqueue_event-prepared now queue true i rt ok =
    elim (Bool-cases (not (check_references (rt.events i)))) [
      | inl p ↦ absurd (ground (arith, rw p at ok))
      | inr p ↦ elim (Bool-cases (is_finished (rt.events i))) [
        | inl r ↦ absurd (ground (arith, rw (p, r) at ok))
        | inr r ↦ elim (Bool-cases (not (has_action (rt.events i).action))) [
          | inl a ↦ absurd (ground (arith, rw (p, r, a) at ok))
          | inr a ↦ rw (p, r, a) refl
        ]
      ]
    ]

queue_prepared-references :
    (i : ℕ) (prepared : Event) (status : ℤ) (rt : Runtime)
    → 0 < prepared.reference_count
    → prepared.reference_count + 1 < 2 ^ 32
    → status ≡ cl_success
    → ((queue_prepared i (prepared, status) rt).0.buffer ≡ rt.buffer ++ (i ∷ []))
      × (((queue_prepared i (prepared, status) rt).0.events i).reference_count
          ≡ prepared.reference_count + 1)
      × (((queue_prepared i (prepared, status) rt).0.events i).queue ≡ prepared.queue)
unfolding push_event retain_at
queue_prepared-references i prepared status rt positive room ok =
    let self = update_at_self rt.events i prepared in
    let (count, queue) = retain-references prepared room (retain-positive prepared positive) in
    rw ok (
      rw
        (
          update_at_self (update_at rt.events i prepared) i
              (retain (update_at rt.events i prepared i)).0,
          self,
        )
        (refl, count, queue))

pub queue_prepared-status :
    (i : ℕ) (prepared : Event × ℤ) (rt : Runtime) → (queue_prepared i prepared rt).1 ≡ prepared.1
queue_prepared-status i prepared rt = elim (Bool-cases (prepared.1 ==ℤ cl_success)) [
  | inl q ↦ rw q refl
  | inr q ↦ rw q refl
]

-- Where enqueueEvent succeeds on an event whose count of references stays below 2 ^ 32, it puts
-- the event last, binds it to the queue and takes two references to it.
pub enqueue_event-references :
    (now : ℕ) (queue : Option ℕ) (valid : Bool) (i : ℕ) (rt : Runtime)
    → (rt.events i).reference_count + 2 < 2 ^ 32
    → (enqueue_event now queue valid i rt).1 ≡ cl_success
    → ((enqueue_event now queue valid i rt).0.buffer ≡ rt.buffer ++ (i ∷ []))
      × (((enqueue_event now queue valid i rt).0.events i).reference_count
          ≡ (rt.events i).reference_count + 2)
      × (((enqueue_event now queue valid i rt).0.events i).queue ≡ queue)
enqueue_event-references now queue valid i rt room ok =
    let same = enqueue_event-prepared now queue valid i rt ok in
    let e : Event = rt.events i in
    let status : (prepare_to_queue now queue valid e).1 ≡ cl_success =
      sym (queue_prepared-status i (prepare_to_queue now queue valid e) rt)
      ∙ ap (λ r. r.1) (sym same)
      ∙ ok in
    let (count, queued, positive) =
      prepare_to_queue-references now queue valid e.queue e (omega (arith, room)) status in
    let (pushed, total, kept) =
      queue_prepared-references i (prepare_to_queue now queue valid e).0
        (prepare_to_queue now queue valid e).1 rt (omega (arith, count))
        (omega (arith, count, room)) status in
    rw same (pushed, omega (arith, total, count), kept ∙ queued)

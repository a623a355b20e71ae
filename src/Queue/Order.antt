-- ===== src/Queue/Order.antt =====
-- The order in which the actions of queued events run, whatever clients do between the iterations.
use mathlib.Core.List.{Sublist, append-nil, append_assoc, sublist-append_left}
use mathlib.Core.List.Sublist
use vc4cl.Prelude.{
  ℕ, ◌≡◌, refl, sym, ap, ◌∙◌, ◌⊎◌, inl, inr, Bool, List, [], ◌∷◌, ◌++◌, not, true, false,
  if◌then◌else◌, Option, Bool-cases,
}
use vc4cl.Prelude.Int.{ℤ, ◌==ℤ◌}
use vc4cl.Prelude.Codes.{cl_success}
use vc4cl.Event.{
  Event, WaitListStatus, error, pending, finished, wait_list_status, check_references, is_finished,
  prepare_to_queue,
}
use vc4cl.Queue.{
  Runtime, Clock, abort, run_action, pop_from_event_queue, handle_submitted, submit_first,
  handle_next, peek_queue, enqueue_event, queue_prepared, push_event, has_action,
}
use vc4cl.Queue.Handler.{handle_next-first}
use vc4cl.Queue.References.{complete_first-executed, waits_of}

-- The accepted events after a call of enqueueEvent with this result.
abbrev pub accepted : ℤ → ℕ → List ℕ → List ℕ
accepted status i pushed = if status ==ℤ cl_success then pushed ++ i ∷ [] else pushed

-- The runs from a state: iterations of the handler, calls of enqueueEvent, and changes of events by
-- clients, in any order. The list has the events that were accepted, in order.
pub data Run (before : Runtime) : List ℕ → Runtime → Type 0 where
  start : Run before [] before
  handle :
      (clock : Clock) {pushed : List ℕ} {rt : Runtime}
      → Run before pushed rt
      → Run before pushed (handle_next clock rt)
  enqueue :
      (now : ℕ) (queue : Option ℕ) (valid : Bool) (i : ℕ) {pushed : List ℕ} {rt : Runtime}
      → Run before pushed rt
      → Run before
          (accepted (enqueue_event now queue valid i rt).1 i pushed)
          (enqueue_event now queue valid i rt).0
  change :
      (events : ℕ → Event) {pushed : List ℕ} {rt : Runtime}
      → Run before pushed rt
      → Run before pushed (record rt { events = events })

-- The events that are no longer buffered come before those that are, and the actions that ran are
-- of such events, in the same order.
pub record InOrder (pushed : List ℕ) (rt : Runtime) : Type 0 where
  pub handled : List ℕ
  pub split : handled ++ rt.buffer ≡ pushed
  pub in_order : Sublist rt.executed handled

pop-buffer :
    (rt : Runtime) (i : ℕ) (rest : List ℕ)
    → rt.buffer ≡ i ∷ rest
    → (pop_from_event_queue rt).buffer ≡ rest
unfolding pop_from_event_queue
pop-buffer rt i rest h = rw h

-- What an iteration does to the buffer and to the log of the actions that ran.
abbrev Advances : ℕ → List ℕ → Runtime → Runtime → Type 0
Advances i rest rt next =
    ((next.buffer ≡ i ∷ rest) × (next.executed ≡ rt.executed))
    ⊎ ((next.buffer ≡ rest)
        × ((next.executed ≡ rt.executed) ⊎ (next.executed ≡ rt.executed ++ i ∷ [])))

handle_submitted-Advances :
    (clock : Clock) (i : ℕ) (rest : List ℕ) (waits : WaitListStatus) (rt : Runtime)
    → rt.buffer ≡ i ∷ rest
    → Advances i rest rt (handle_submitted clock i waits rt)
handle_submitted-Advances clock i rest pending rt h = inl (h, refl)
handle_submitted-Advances clock i rest error rt h = inr (
  pop-buffer _ i rest h,
  inl (
      complete_first-executed i (abort clock (rt.events i)).0 (abort clock (rt.events i)).1 [] rt
      ∙ append-nil rt.executed),
)
handle_submitted-Advances clock i rest finished rt h = inr (
  pop-buffer _ i rest h,
  inr (
      complete_first-executed i (run_action clock (rt.events i)).0
        (run_action clock (rt.events i)).1 (i ∷ []) rt),
)

handle_next-Advances :
    (clock : Clock) (i : ℕ) (rest : List ℕ) (rt : Runtime)
    → rt.buffer ≡ i ∷ rest
    → Advances i rest rt (handle_next clock rt)
handle_next-Advances clock i rest rt h = rw (handle_next-first clock i rest rt h) (
    handle_submitted-Advances clock i rest (wait_list_status (waits_of clock i rt))
      (submit_first clock i rt) h)

handle_next-idle : (clock : Clock) (rt : Runtime) → rt.buffer ≡ [] → handle_next clock rt ≡ rt
unfolding handle_next peek_queue
handle_next-idle clock rt h = rw h

abbrev Takes : ℕ → Runtime → Runtime × ℤ → Type 0
Takes i rt (next, status) =
    (next.buffer ≡ accepted status i rt.buffer) × (next.executed ≡ rt.executed)

queue_prepared-Takes :
    (i : ℕ) (prepared : Event × ℤ) (rt : Runtime) → Takes i rt (queue_prepared i prepared rt)
unfolding push_event
queue_prepared-Takes i (prepared, status) rt = elim (Bool-cases (status ==ℤ cl_success)) [
  | inl q ↦ rw q (rw q refl, refl)
  | inr q ↦ rw q (rw q refl, refl)
]

enqueue_event-Takes :
    (now : ℕ) (queue : Option ℕ) (valid : Bool) (i : ℕ) (rt : Runtime)
    → Takes i rt (enqueue_event now queue valid i rt)
unfolding enqueue_event
enqueue_event-Takes now queue false i rt = (refl, refl)
enqueue_event-Takes now queue true i rt = elim (Bool-cases (not (check_references (rt.events i)))) [
  | inl p ↦ rw p (refl, refl)
  | inr p ↦ elim (Bool-cases (is_finished (rt.events i))) [
    | inl r ↦ rw (p, r) (refl, refl)
    | inr r ↦ elim (Bool-cases (not (has_action (rt.events i).action))) [
      | inl a ↦ rw (p, r, a) (refl, refl)
      | inr a ↦
          rw (p, r, a) (queue_prepared-Takes i (prepare_to_queue now queue true (rt.events i)) rt)
    ]
  ]
]

-- The first event leaves the buffer.
InOrder-pop :
    (i : ℕ) (rest pushed : List ℕ) (rt next : Runtime)
    → rt.buffer ≡ i ∷ rest
    → next.buffer ≡ rest
    → (next.executed ≡ rt.executed) ⊎ (next.executed ≡ rt.executed ++ i ∷ [])
    → InOrder pushed rt
    → InOrder pushed next
InOrder-pop i rest pushed rt next first popped ran o = record {
  handled = o.handled ++ i ∷ [];
  split =
      ap (λ b. (o.handled ++ i ∷ []) ++ b) popped
      ∙ append_assoc o.handled (i ∷ []) rest
      ∙ ap (λ b. o.handled ++ b) (sym first)
      ∙ o.split;
  in_order = elim ran [
    | inl same ↦ rw same (Sublist.trans o.in_order (sublist-append_left o.handled (i ∷ [])))
    | inr more ↦ rw more (Sublist.append o.in_order (Sublist.refl (i ∷ [])))
  ];
}

handle_next-InOrder :
    (clock : Clock) (buffer pushed : List ℕ) (rt : Runtime)
    → rt.buffer ≡ buffer
    → InOrder pushed rt
    → InOrder pushed (handle_next clock rt)
handle_next-InOrder clock [] pushed rt first o = rw (handle_next-idle clock rt first) o
handle_next-InOrder clock (i ∷ rest) pushed rt first o =
    elim (handle_next-Advances clock i rest rt first) [
      | inl (kept, same) ↦ record {
        handled = o.handled;
        split = ap (λ b. o.handled ++ b) (kept ∙ sym first) ∙ o.split;
        in_order = rw same o.in_order;
      }
      | inr (popped, ran) ↦ InOrder-pop i rest pushed rt (handle_next clock rt) first popped ran o
    ]

accepted-append :
    (status : ℤ) (i : ℕ) (xs ys : List ℕ)
    → xs ++ accepted status i ys ≡ accepted status i (xs ++ ys)
accepted-append status i xs ys = elim (Bool-cases (status ==ℤ cl_success)) [
  | inl q ↦ rw q (sym (append_assoc xs ys (i ∷ [])))
  | inr q ↦ rw q refl
]

Takes-InOrder :
    (i : ℕ) (pushed : List ℕ) (rt : Runtime) (taken : Runtime × ℤ)
    → Takes i rt taken
    → InOrder pushed rt
    → InOrder (accepted taken.1 i pushed) taken.0
Takes-InOrder i pushed rt (next, status) (buffer, same) o = record {
  handled = o.handled;
  split =
      ap (λ b. o.handled ++ b) buffer
      ∙ accepted-append status i o.handled rt.buffer
      ∙ ap (accepted status i) o.split;
  in_order = rw same o.in_order;
}

-- From a state with an empty buffer in which no action has run: whatever the interleaving of
-- iterations of the handler, calls of enqueueEvent and changes that clients make to events, the
-- accepted events are those that have left the buffer followed by the buffered ones, and the actions
-- that ran belong to events that have left it, in the order of acceptance, none of them twice unless
-- its event was accepted twice.
pub Run-InOrder :
    {before rt : Runtime} {pushed : List ℕ}
    → before.buffer ≡ []
    → before.executed ≡ []
    → Run before pushed rt
    → InOrder pushed rt
Run-InOrder {before} empty idle start = record {
  handled = [];
  split = empty;
  in_order = rw idle (Sublist.refl []);
}
Run-InOrder empty idle (handle clock {pushed} {rt} run) =
    handle_next-InOrder clock rt.buffer pushed rt refl (Run-InOrder empty idle run)
Run-InOrder empty idle (enqueue now queue valid i {pushed} {rt} run) =
    Takes-InOrder i pushed rt (enqueue_event now queue valid i rt)
      (enqueue_event-Takes now queue valid i rt) (Run-InOrder empty idle run)
Run-InOrder empty idle (change events run) =
    let o = Run-InOrder empty idle run in
    record { handled = o.handled; split = o.split; in_order = o.in_order }

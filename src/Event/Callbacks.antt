-- ===== src/Event/Callbacks.antt =====
-- Event::setCallback, Event::fireCallbacks, Event::updateStatus and Event::setUserEventStatus,
-- interleaved in any order.
use vc4cl.Prelude.{
  ℕ, ◌+◌, ◌==◌, ◌≡◌, refl, sym, inl, inr, Bool, true, false, ◌&&◌, ◌||◌, not, List, [], ◌∷◌, ◌++◌,
  some, arith, Bool-cases, if_true, if_false,
}
use vc4cl.Prelude.Int.{
  ℤ, ltb_ℤ, leb_ℤ, ◌≤ℤ◌, ◌==ℤ◌, ==ℤ_iff, ltb_ℤ-leb_ℤ, le→leb_ℤ, lt→ltb_ℤ, leb_ℤ→le, leb_ℤ→lt,
  ltb_ℤ→le,
}
use vc4cl.Prelude.Codes.{cl_complete, cl_running, cl_submitted}
use vc4cl.Event.{
  Event, Callback, Call, set_callback, fire_callbacks, set_time, update_status,
  set_user_event_status,
}

-- What the application and the queue handler do with one event.
pub data EventStep : Type 0 where
  register : ℤ → ℕ → EventStep
  update : ℕ → ℤ → EventStep
  set_user : ℤ → EventStep

unfoldable pub run_steps : List EventStep → Event → Event × List Call
run_steps [] e = (e, [])
run_steps (register type target ∷ steps) e =
    let (registered, immediate, status) = set_callback type (some target) e in
    let (last, later) = run_steps steps registered in (last, immediate ++ later)
run_steps (update now status ∷ steps) e =
    let (updated, fired) = update_status now status true e in
    let (last, later) = run_steps steps updated in (last, fired ++ later)
run_steps (set_user status ∷ steps) e = run_steps steps (set_user_event_status status e).0

-- The status after all the steps.
abbrev pub last_status : List EventStep → Event → ℤ
last_status steps e = (run_steps steps e).0.status

abbrev one_if : Bool → ℕ
one_if true = 1
one_if false = 0

-- The calls of one function.
abbrev pub count_calls : ℕ → List Call → ℕ
count_calls t [] = 0
count_calls t (c ∷ calls) = one_if (c.target == t) + count_calls t calls

abbrev is_callback_type : ℤ → Bool
is_callback_type type = type ==ℤ cl_submitted || (type ==ℤ cl_running || type ==ℤ cl_complete)

-- The accepted registrations of one function for a status that `last` has reached.
abbrev pub count_reached : ℕ → ℤ → List EventStep → ℕ
count_reached t last [] = 0
count_reached t last (register type target ∷ steps) =
    one_if (target == t && (is_callback_type type && leb_ℤ last type)) + count_reached t last steps
count_reached t last (update now status ∷ steps) = count_reached t last steps
count_reached t last (set_user status ∷ steps) = count_reached t last steps

-- The status of a command only goes down: queued 3, submitted 2, running 1, complete 0, errors.
unfoldable pub Descends : List EventStep → Event → Type 0
Descends [] e = Unit
Descends (register type target ∷ steps) e = Descends steps (set_callback type (some target) e).0
Descends (update now status ∷ steps) e =
    (status ≤ℤ e.status) × Descends steps (update_status now status true e).0
Descends (set_user status ∷ steps) e =
    ((set_user_event_status status e).0.status ≤ℤ e.status)
    × Descends steps (set_user_event_status status e).0

-- The recorded callbacks of one function whose status lies below `high` and not below `low`.
abbrev pub count_between : ℕ → ℤ → ℤ → List Callback → ℕ
count_between t low high [] = 0
count_between t low high (c ∷ callbacks) =
    one_if (c.target == t && (ltb_ℤ c.type high && leb_ℤ low c.type))
    + count_between t low high callbacks

-- The recorded callbacks of one function that setUserEventStatus passes by: it calls none.
unfoldable pub count_passed : ℕ → List EventStep → Event → ℕ
count_passed t [] e = 0
count_passed t (register type target ∷ steps) e =
    count_passed t steps (set_callback type (some target) e).0
count_passed t (update now status ∷ steps) e =
    count_passed t steps (update_status now status true e).0
count_passed t (set_user status ∷ steps) e =
    count_between t (set_user_event_status status e).0.status e.status e.callbacks
    + count_passed t steps (set_user_event_status status e).0

count_calls-append :
    (t : ℕ) (calls later : List Call)
    → count_calls t (calls ++ later) ≡ count_calls t calls + count_calls t later
count_calls-append t [] later = omega arith
count_calls-append t (c ∷ calls) later = omega (arith, count_calls-append t calls later)

count_between-append :
    (t : ℕ) (low high : ℤ) (callbacks later : List Callback)
    → count_between t low high (callbacks ++ later)
      ≡ count_between t low high callbacks + count_between t low high later
count_between-append t low high [] later = omega arith
count_between-append t low high (c ∷ callbacks) later =
    omega (arith, count_between-append t low high callbacks later)

pub count_calls-fire_callbacks :
    (t : ℕ) (previous status : ℤ) (callbacks : List Callback)
    → count_calls t (fire_callbacks previous status callbacks)
      ≡ count_between t status previous callbacks
unfolding fire_callbacks
count_calls-fire_callbacks t previous status [] = refl
count_calls-fire_callbacks t previous status (c ∷ callbacks) =
    ground (arith, count_calls-fire_callbacks t previous status callbacks)

one_if-table :
    (b below_high from_low from_middle : Bool)
    → (from_middle ≡ true → from_low ≡ true)
    → (from_middle ≡ false → below_high ≡ true)
    → one_if (b && (below_high && from_low))
      ≡ one_if (b && (below_high && from_middle)) + one_if (b && (not from_middle && from_low))
one_if-table b below_high from_low from_middle up down = ground arith

one_if-split :
    (b : Bool) (type low middle high : ℤ)
    → low ≤ℤ middle
    → middle ≤ℤ high
    → one_if (b && (ltb_ℤ type high && leb_ℤ low type))
      ≡ one_if (b && (ltb_ℤ type high && leb_ℤ middle type))
        + one_if (b && (ltb_ℤ type middle && leb_ℤ low type))
one_if-split b type low middle high l h = rw (ltb_ℤ-leb_ℤ type middle) (
    one_if-table b (ltb_ℤ type high) (leb_ℤ low type) (leb_ℤ middle type)
      (λ m. le→leb_ℤ low type (omega (arith, l, leb_ℤ→le middle type m)))
      (λ m. lt→ltb_ℤ type high (omega (arith, h, leb_ℤ→lt middle type m))))

pub count_between-split :
    (t : ℕ) (low middle high : ℤ) (callbacks : List Callback)
    → low ≤ℤ middle
    → middle ≤ℤ high
    → count_between t low high callbacks
      ≡ count_between t middle high callbacks + count_between t low middle callbacks
count_between-split t low middle high [] l h = refl
count_between-split t low middle high (c ∷ callbacks) l h = omega (
  arith,
  one_if-split (c.target == t) c.type low middle high l h,
  count_between-split t low middle high callbacks l h,
)

count_between-empty :
    (t : ℕ) (s : ℤ) (callbacks : List Callback) → count_between t s s callbacks ≡ 0
count_between-empty t s [] = refl
count_between-empty t s (c ∷ callbacks) = omega (
  arith,
  one_if-split (c.target == t) c.type s s s (omega arith) (omega arith),
  count_between-empty t s callbacks,
)

abbrev updated : ℕ → ℤ → Event → Event
updated now status e = record e { status = status; profile = set_time status now e.profile }

-- One update calls the recorded callbacks between the two statuses, and keeps the record.
update_status-calls :
    (t now : ℕ) (status : ℤ) (e : Event)
    → (count_calls t (update_status now status true e).1
        ≡ count_between t status e.status e.callbacks)
      × ((update_status now status true e).0.status ≡ status)
      × ((update_status now status true e).0.callbacks ≡ e.callbacks)
unfolding update_status
update_status-calls t now status e = elim (Bool-cases (status ==ℤ e.status)) [
  | inl q ↦
      let same =
        if_true {A = Event × List Call} (status ==ℤ e.status) (e, [])
          (updated now status e, fire_callbacks e.status status e.callbacks) q in
      let equal = (==ℤ_iff status e.status).0 q in
      (
        rw (same, equal) (sym (count_between-empty t e.status e.callbacks)),
        rw (same) (sym equal),
        rw (same) refl,
      )
  | inr q ↦
      let changed =
        if_false {A = Event × List Call} (status ==ℤ e.status) (e, [])
          (updated now status e, fire_callbacks e.status status e.callbacks) q in
      (
        rw changed (count_calls-fire_callbacks t e.status status e.callbacks),
        rw changed refl,
        rw changed refl,
      )
]

not_callback_type : (a b c : Bool) → (not a && (not b && not c)) ≡ not (a || (b || c))
not_callback_type a b c = ground arith

and_false : (b : Bool) (n : ℕ) → 0 + n ≡ one_if (b && false) + n
and_false b n = ground arith

and_true : (b : Bool) (n : ℕ) → one_if b + 0 + n ≡ one_if (b && true) + n
and_true b n = ground arith

one_if-recorded :
    (b from_low below : Bool)
    → below ≡ true
    → one_if (b && (true && from_low)) ≡ one_if (b && (below && from_low))
one_if-recorded b from_low below h = rw h refl

-- Registering counts once: among the calls made at once, or among the recorded callbacks.
set_callback-calls :
    (t : ℕ) (low type : ℤ) (target : ℕ) (e : Event)
    → low ≤ℤ e.status
    → (count_calls t (set_callback type (some target) e).1
          + count_between t low e.status (set_callback type (some target) e).0.callbacks
        ≡ one_if (target == t && (is_callback_type type && leb_ℤ low type))
          + count_between t low e.status e.callbacks)
      × ((set_callback type (some target) e).0.status ≡ e.status)
unfolding set_callback
set_callback-calls t low type target e h =
    rw (not_callback_type (type ==ℤ cl_submitted) (type ==ℤ cl_running) (type ==ℤ cl_complete))
      (elim (Bool-cases (is_callback_type type)) [
        | inr q ↦ rw q (and_false (target == t) (count_between t low e.status e.callbacks), refl)
        | inl q ↦ elim (Bool-cases (ltb_ℤ type e.status)) [
          | inl r ↦
              rw (q, r)
                (
                  omega (
                    arith,
                    count_between-append t low e.status e.callbacks
                        (record { type = type; target = target } ∷ []),
                    one_if-recorded (target == t) (leb_ℤ low type) (ltb_ℤ type e.status) r,
                  ),
                  refl,
                )
          | inr r ↦
              rw (q, r)
                (
                  rw (le→leb_ℤ low type (omega (arith, h, ltb_ℤ→le type e.status r)))
                      (and_true (target == t) (count_between t low e.status e.callbacks)),
                  refl,
                )
        ]
      ])

set_user-callbacks :
    (status : ℤ) (e : Event) → (set_user_event_status status e).0.callbacks ≡ e.callbacks
unfolding set_user_event_status
set_user-callbacks status e = ground arith

set_callback-status :
    (type : ℤ) (target : ℕ) (e : Event) → (set_callback type (some target) e).0.status ≡ e.status
set_callback-status type target e = (set_callback-calls 0 e.status type target e (omega arith)).1

last_status-le :
    (steps : List EventStep) (e : Event) → Descends steps e → last_status steps e ≤ℤ e.status
unfolding run_steps Descends
last_status-le [] e h = omega arith
last_status-le (register type target ∷ steps) e h =
    rw (set_callback-status type target e) at
      (last_status-le steps (set_callback type (some target) e).0 h)
last_status-le (update now status ∷ steps) e h =
    let (calls, now_status, same) = update_status-calls 0 now status e in
    omega
      (arith, h.0, rw now_status at (last_status-le steps (update_status now status true e).0 h.1))
last_status-le (set_user status ∷ steps) e h =
    omega (arith, h.0, last_status-le steps (set_user_event_status status e).0 h.1)

run_steps-calls :
    (t : ℕ) (steps : List EventStep) (e : Event)
    → Descends steps e
    → count_calls t (run_steps steps e).1 + count_passed t steps e
      ≡ count_reached t (last_status steps e) steps
        + count_between t (last_status steps e) e.status e.callbacks
unfolding run_steps Descends count_passed
run_steps-calls t [] e h = omega (arith, count_between-empty t e.status e.callbacks)
run_steps-calls t (register type target ∷ steps) e h =
    let next : Event = (set_callback type (some target) e).0 in
    let below = last_status-le steps next h in
    let (counts, kept) =
      set_callback-calls t (last_status steps next) type target e
        (rw (set_callback-status type target e) at below) in
    omega (
      arith,
      count_calls-append t (set_callback type (some target) e).1 (run_steps steps next).1,
      counts,
      rw kept at (run_steps-calls t steps next h),
    )
run_steps-calls t (update now status ∷ steps) e h =
    let next : Event = (update_status now status true e).0 in
    let (calls, now_status, same) = update_status-calls t now status e in
    let below = last_status-le steps next h.1 in
    let split =
      count_between-split t (last_status steps next) status e.status e.callbacks
        (rw now_status at below) h.0 in
    omega (
      arith,
      count_calls-append t (update_status now status true e).1 (run_steps steps next).1,
      calls,
      split,
      rw (now_status, same) at (run_steps-calls t steps next h.1),
    )
run_steps-calls t (set_user status ∷ steps) e h =
    let next : Event = (set_user_event_status status e).0 in
    let split =
      count_between-split t (last_status steps next) next.status e.status e.callbacks
        (last_status-le steps next h.1) h.0 in
    omega (arith, split, rw (set_user-callbacks status e) at (run_steps-calls t steps next h.1))

-- From an event with no callbacks and with statuses that only go down, for each function: its calls,
-- and its recorded callbacks that a call of setUserEventStatus passes by, are together as many as its
-- accepted registrations whose status the last status has reached or passed, whether they were
-- registered before or after that.
pub called_once :
    (t : ℕ) (steps : List EventStep) (e : Event)
    → e.callbacks ≡ []
    → Descends steps e
    → count_calls t (run_steps steps e).1 + count_passed t steps e
      ≡ count_reached t (last_status steps e) steps
called_once t steps e none_yet h =
    let none_kept : count_between t (last_status steps e) e.status e.callbacks ≡ 0 =
      rw none_yet refl in
    omega (arith, run_steps-calls t steps e h, none_kept)

-- ===== src/Queue/Drain.antt =====
-- EventQueue::runEventQueue, repeated: the buffer is worked off.
use vc4cl.Prelude.{
  All, ℕ, ◌==◌, ==_iff, ◌≡◌, refl, sym, ◌≢◌, ◌⊎◌, inl, inr, Bool-cases, List, [], ◌∷◌, length,
  arith,
}
use vc4cl.Prelude.Int.{pos, ◌≤ℤ◌}
use vc4cl.Event.{Event}
use vc4cl.Queue.{Runtime, Clock, action_status, handle_next}
use vc4cl.Queue.Handler.{Finishes, handle_next-Finishes}

-- One iteration for each reading of the clock.
unfoldable pub run_event_queue : List Clock → Runtime → Runtime
run_event_queue [] rt = rt
run_event_queue (clock ∷ clocks) rt = run_event_queue clocks (handle_next clock rt)

-- Each event waits only for other events that are `done` or stand before it, and its action does
-- not return a positive status.
abbrev pub IsOrdered : (ℕ → Type 0) → (ℕ → Event) → List ℕ → Type 0
IsOrdered done events [] = Unit
IsOrdered done events (i ∷ rest) =
    All (λ w. (i ≢ w) × done w) (events i).wait_list
    × (action_status (events i).action ≤ℤ pos 0)
    × IsOrdered (λ w. done w ⊎ (i ≡ w)) events rest

All-mono : {P Q : ℕ → Type 0} (ws : List ℕ) → ((w : ℕ) → P w → Q w) → All P ws → All Q ws
All-mono [] f h = tt
All-mono (w ∷ ws) f h = (f w h.0, All-mono ws f h.1)

-- The events may change where their wait lists get empty at most.
IsOrdered-mono :
    (done done' : ℕ → Type 0) (events events' : ℕ → Event) (buffer : List ℕ)
    → ((w : ℕ) → done w → done' w)
    → ((j : ℕ) → (events' j).action ≡ (events j).action)
    → ((j : ℕ) → ((events' j).wait_list ≡ (events j).wait_list) ⊎ ((events' j).wait_list ≡ []))
    → IsOrdered done events buffer
    → IsOrdered done' events' buffer
IsOrdered-mono done done' events events' [] f action wait_list h = tt
IsOrdered-mono done done' events events' (i ∷ rest) f action wait_list h = (
  elim (wait_list i) [
    | inl q ↦ rw q (All-mono (events i).wait_list (λ w p. (p.0, f w p.1)) h.0)
    | inr q ↦ rw q tt
  ],
  rw (action i) h.1,
  IsOrdered-mono (λ w. done w ⊎ (i ≡ w)) (λ w. done' w ⊎ (i ≡ w)) events events' rest
      (λ w p. elim p [ inl d ↦ inl (f w d) | inr e ↦ inr e ]) action wait_list h.2,
)

module _ (i : ℕ) (rest : List ℕ) (before after : Runtime) (fin : Finishes i rest before after) where
  stays_finished : (w : ℕ) → (before.events w).status ≤ℤ pos 0 → (after.events w).status ≤ℤ pos 0
  stays_finished w h = elim (Bool-cases (i == w)) [
    | inl q ↦ rw (sym ((==_iff i w).0 q)) fin.finished_now
    | inr q ↦ rw (fin.others w (ground (arith, q))).same_status h
  ]

  actions_kept : (j : ℕ) → (after.events j).action ≡ (before.events j).action
  actions_kept j = elim (Bool-cases (i == j)) [
    | inl q ↦ rw (sym ((==_iff i j).0 q)) fin.kept_action
    | inr q ↦ (fin.others j (ground (arith, q))).same_action
  ]

  waits_kept :
      (j : ℕ)
      → ((after.events j).wait_list ≡ (before.events j).wait_list)
        ⊎ ((after.events j).wait_list ≡ [])
  waits_kept j = elim (Bool-cases (i == j)) [
    | inl q ↦ inr (rw (sym ((==_iff i j).0 q)) fin.waits_no_more)
    | inr q ↦ inl (fin.others j (ground (arith, q))).same_wait_list
  ]

drain :
    (done : ℕ → Type 0) (clocks : List Clock) (buffer : List ℕ) (rt : Runtime)
    → rt.buffer ≡ buffer
    → length clocks ≡ length buffer
    → ((w : ℕ) → done w → (rt.events w).status ≤ℤ pos 0)
    → IsOrdered done rt.events buffer
    → ((run_event_queue clocks rt).buffer ≡ [])
      × ((w : ℕ) → done w → ((run_event_queue clocks rt).events w).status ≤ℤ pos 0)
      × All (λ j. ((run_event_queue clocks rt).events j).status ≤ℤ pos 0) buffer
unfolding run_event_queue
drain done [] [] rt b len h ordered = (b, h, tt)
drain done [] (i ∷ rest) rt b len h ordered = absurd (omega (arith, len))
drain done (clock ∷ clocks) [] rt b len h ordered = absurd (omega (arith, len))
drain done (clock ∷ clocks) (i ∷ rest) rt b len h ordered =
    let next : Runtime = handle_next clock rt in
    let fin =
      handle_next-Finishes clock i rest rt b
        (All-mono (rt.events i).wait_list (λ w p. (p.0, h w p.1)) ordered.0) ordered.1 in
    let (empty, kept, all) =
      drain (λ w. done w ⊎ (i ≡ w)) clocks rest next fin.popped (omega (arith, len))
        (λ w p. elim p [
          | inl d ↦ stays_finished i rest rt next fin w (h w d)
          | inr e ↦ rw (sym e) fin.finished_now
        ])
        (IsOrdered-mono (λ w. done w ⊎ (i ≡ w)) (λ w. done w ⊎ (i ≡ w)) rt.events next.events rest
          (λ w p. p) (actions_kept i rest rt next fin) (waits_kept i rest rt next fin) ordered.2) in
    (empty, λ w d. kept w (inl d), (kept i (inr refl), all))

-- A buffer in which each event waits only for other events that have finished or stand before it,
-- and in which no action returns a positive status, is empty after as many iterations of the
-- handler as it has events, and then all of these events are complete or have failed.
pub queue_drained :
    (clocks : List Clock) (rt : Runtime)
    → length clocks ≡ length rt.buffer
    → IsOrdered (λ w. (rt.events w).status ≤ℤ pos 0) rt.events rt.buffer
    → ((run_event_queue clocks rt).buffer ≡ [])
      × All (λ j. ((run_event_queue clocks rt).events j).status ≤ℤ pos 0) rt.buffer
queue_drained clocks rt len ordered =
    let (empty, kept, all) =
      drain (λ w. (rt.events w).status ≤ℤ pos 0) clocks rt.buffer rt refl len (λ w h. h) ordered in
    (empty, all)

-- ===== src/Objects/Tracked.antt =====
-- The tracker's list against the reference counts.
use vc4cl.Prelude.{
  ℕ, suc, ◌+◌, ◌-◌, ◌%◌, ◌^◌, ◌≤◌, ◌<◌, ◌==◌, ==_iff, ◌≡◌, ◌≢◌, refl, sym, ◌∙◌, inl, inr, false,
  if◌then◌else◌, List, [], ◌∷◌, ◌++◌, length, arith, Bool-cases,
}
use native.Mathlib.Nat.{mod-eq_of_lt}
use vc4cl.Objects.{
  Heap, empty_heap, set_references, new_object, erase, retain_object, release_object, add_object,
  remove_object,
}

pub data ObjectStep : Type 0 where
  create : ObjectStep
  keep drop : ℕ → ObjectStep

unfoldable pub run_steps : List ObjectStep → Heap → Heap
run_steps [] h = h
run_steps (create ∷ steps) h = run_steps steps (new_object h)
run_steps (keep i ∷ steps) h = run_steps steps (retain_object i h).0
run_steps (drop i ∷ steps) h = run_steps steps (release_object i h).0

abbrev pub occurrences : ℕ → List ℕ → ℕ
occurrences i [] = 0
occurrences i (j ∷ objects) = (if j == i then 1 else 0) + occurrences i objects

-- 1 for an object that is alive.
abbrev pub alive : ℕ → ℕ
alive n = if n == 0 then 0 else 1

-- After `n` steps: no count is above n, and none of an object that is not created yet.
record IsTracked (n : ℕ) (h : Heap) : Type 0 where
  tracked : (i : ℕ) → occurrences i h.live_objects ≡ alive (h.references i)
  bounded : (i : ℕ) → h.references i ≤ n
  fresh : (i : ℕ) → h.next ≤ i → h.references i ≡ 0

occurrences-append :
    (i j : ℕ) (objects : List ℕ)
    → occurrences i (objects ++ (j ∷ [])) ≡ occurrences i objects + (if j == i then 1 else 0)
occurrences-append i j [] = omega arith
occurrences-append i j (k ∷ objects) = omega (arith, occurrences-append i j objects)

occurrences-erase :
    (i j : ℕ) (objects : List ℕ)
    → occurrences j (erase i objects) ≡ occurrences j objects - (if i == j then 1 else 0)
occurrences-erase i j [] = omega arith
occurrences-erase i j (k ∷ objects) = ground (arith, occurrences-erase i j objects)

new_object-IsTracked : (n : ℕ) (h : Heap) → IsTracked n h → IsTracked (suc n) (new_object h)
unfolding new_object add_object
new_object-IsTracked n h t = record {
  tracked = λ i.
      let before = t.tracked i in
      let none_yet = t.fresh i in
      ground (arith, occurrences-append i h.next h.live_objects, before, none_yet);
  bounded = λ i. let bound = t.bounded i in ground (arith, bound);
  fresh = λ i g. let none_yet = t.fresh i in ground (arith, none_yet, g);
}

later : (n : ℕ) (h : Heap) → IsTracked n h → IsTracked (suc n) h
later n h t = record {
  tracked = t.tracked;
  bounded = λ i. let bound = t.bounded i in omega (arith, bound);
  fresh = t.fresh;
}

-- A changed count of one object that is alive, and a list that changes with it.
changed-IsTracked :
    (n i count : ℕ) (objects : List ℕ) (h : Heap)
    → (h.references i == 0) ≡ false
    → count ≤ suc n
    → occurrences i objects ≡ alive count
    → ((j : ℕ) → i ≢ j → occurrences j objects ≡ occurrences j h.live_objects)
    → IsTracked n h
    → IsTracked (suc n) (record (set_references i count h) { live_objects = objects })
changed-IsTracked n i count objects h living small same others t = record {
  tracked = λ j. elim (Bool-cases (i == j)) [
    | inl q ↦ rw q (rw (sym ((==_iff i j).0 q)) same)
    | inr q ↦ rw q (others j (ground (arith, q)) ∙ t.tracked j)
  ];
  bounded = λ j. elim (Bool-cases (i == j)) [
    | inl q ↦ rw q small
    | inr q ↦ rw q (let bound = t.bounded j in omega (arith, bound))
  ];
  fresh = λ j g. elim (Bool-cases (i == j)) [
    | inl q ↦
        let none_yet = t.fresh i (rw ((==_iff i j).0 q) g) in
        absurd (ground (arith, living, none_yet))
    | inr q ↦ rw q (t.fresh j g)
  ];
}

add_zero : (n : ℕ) → n + 0 ≡ n
add_zero n = omega arith

add_suc : (n k : ℕ) → n + suc k ≡ suc n + k
add_suc n k = omega arith

retain_object-IsTracked :
    (n i : ℕ) (h : Heap) → n + 1 < 2 ^ 32 → IsTracked n h → IsTracked (suc n) (retain_object i h).0
unfolding retain_object
retain_object-IsTracked n i h room t = elim (Bool-cases (h.references i == 0)) [
  | inl p ↦ rw p (later n h t)
  | inr p ↦
      let bound = t.bounded i in
      let tracked = t.tracked i in
      let sum = mod-eq_of_lt {n = h.references i + 1} {m = 2 ^ 32} (omega (arith, bound, room)) in
      rw p (
        changed-IsTracked n i ((h.references i + 1) % 2 ^ 32) h.live_objects h p
          (omega (arith, sum, bound)) (ground (arith, tracked, sum, p)) (λ j ne. refl) t)
]

release_object-IsTracked :
    (n i : ℕ) (h : Heap) → IsTracked n h → IsTracked (suc n) (release_object i h).0
unfolding release_object remove_object
release_object-IsTracked n i h t = elim (Bool-cases (h.references i == 0)) [
  | inl p ↦ rw p (later n h t)
  | inr p ↦
      let bound = t.bounded i in
      let tracked = t.tracked i in
      elim (Bool-cases (h.references i - 1 == 0)) [
        | inl q ↦
            rw (p, q)
              (changed-IsTracked n i (h.references i - 1) (erase i h.live_objects) h p
                (omega (arith, bound))
                (let erased = occurrences-erase i i h.live_objects in
                  ground (arith, erased, tracked, p, q))
                (λ j ne.
                  let erased = occurrences-erase i j h.live_objects in ground (arith, erased, ne))
                t)
        | inr q ↦
            rw (p, q)
              (changed-IsTracked n i (h.references i - 1) h.live_objects h p (omega (arith, bound))
                (ground (arith, tracked, p, q)) (λ j ne. refl) t)
      ]
]

run_steps-IsTracked :
    (steps : List ObjectStep) (n : ℕ) (h : Heap)
    → n + length steps < 2 ^ 32
    → IsTracked n h
    → IsTracked (n + length steps) (run_steps steps h)
unfolding run_steps
run_steps-IsTracked [] n h room t = rw (add_zero n) t
run_steps-IsTracked (create ∷ steps) n h room t = rw (add_suc n (length steps)) (
    run_steps-IsTracked steps (suc n) (new_object h) (omega (arith, room))
      (new_object-IsTracked n h t))
run_steps-IsTracked (keep i ∷ steps) n h room t = rw (add_suc n (length steps)) (
    run_steps-IsTracked steps (suc n) (retain_object i h).0 (omega (arith, room))
      (retain_object-IsTracked n i h (omega (arith, room)) t))
run_steps-IsTracked (drop i ∷ steps) n h room t = rw (add_suc n (length steps)) (
    run_steps-IsTracked steps (suc n) (release_object i h).0 (omega (arith, room))
      (release_object-IsTracked n i h t))

-- After any sequence of creations, retains and releases that is shorter than 2 ^ 32, the tracker's
-- list has each object whose count is above 0 exactly once, and no other.
pub tracked_exactly :
    (steps : List ObjectStep) (i : ℕ)
    → length steps < 2 ^ 32
    → occurrences i (run_steps steps empty_heap).live_objects
      ≡ alive ((run_steps steps empty_heap).references i)
tracked_exactly steps i room =
    let none : IsTracked 0 empty_heap = record {
      tracked = λ i. refl;
      bounded = λ i. omega arith;
      fresh = λ i g. refl;
    } in
    (run_steps-IsTracked steps 0 empty_heap (omega (arith, room)) none).tracked i

-- ===== src/Objects/Examples.antt =====
-- Tests and instances: two objects, of which the first is deleted.
use vc4cl.Prelude.{◌≡◌, refl, arith, List, [], ◌∷◌, none, some}
use vc4cl.Objects.{
  empty_heap, new_object, add_object, retain_object, release_object, remove_object, reset,
}
use vc4cl.Objects.Tracked.{ObjectStep, create, keep, drop, run_steps, occurrences, tracked_exactly}

abbrev steps : List ObjectStep
steps = create ∷ create ∷ keep 0 ∷ drop 0 ∷ drop 0 ∷ drop 0 ∷ []

second_left : (run_steps steps empty_heap).live_objects ≡ 1 ∷ []
unfolding run_steps new_object add_object retain_object release_object remove_object
second_left = refl

tracked_exactly_example : occurrences 1 (run_steps steps empty_heap).live_objects ≡ 1
unfolding run_steps new_object add_object retain_object release_object remove_object
tracked_exactly_example = tracked_exactly steps 1 (omega arith)

-- A wrapper with the only reference to an object that is reset to the same object deletes the object
-- first, and then cannot retain it.
reset_same : reset (some 0) (some 0) (new_object empty_heap) ≡ none
unfolding reset new_object add_object retain_object release_object remove_object
reset_same = refl

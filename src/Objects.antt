-- ===== src/Objects.antt =====
-- Object.h and ObjectTracker.cpp: reference counts, and the list of the objects that are alive.
-- Objects are numbered in the order of their creation, in place of their addresses. What the
-- destructor of an object releases in turn are further steps.
pub mod Tracked
mod Examples
use vc4cl.Prelude.{
  ℕ, suc, ◌+◌, ◌-◌, ◌%◌, ◌^◌, ◌==◌, Bool, true, false, not, if◌then◌else◌, List, [], ◌∷◌, ◌++◌,
  Option, none, some,
}
use vc4cl.Prelude.Int.{ℤ}
use vc4cl.Prelude.Codes.{cl_success}

pub record Heap : Type 0 where
  pub references : ℕ → ℕ  -- uint32_t; 0 for what is not alive
  pub live_objects : List ℕ
  pub next : ℕ

abbrev pub empty_heap : Heap
empty_heap = record { references = λ i. 0; live_objects = []; next = 0 }

abbrev pub set_references : ℕ → ℕ → Heap → Heap
set_references i n h = record h { references = λ j. if i == j then n else h.references j }

-- ObjectTracker::addObject.
unfoldable pub add_object : ℕ → Heap → Heap
add_object i h = record h { live_objects = h.live_objects ++ (i ∷ []) }

-- newOpenCLObject, where there is memory: the count starts at 1.
unfoldable pub new_object : Heap → Heap
unfolding add_object
new_object h = add_object h.next (record (set_references h.next 1 h) { next = suc h.next })

-- Erases the first entry that is found.
abbrev pub erase : ℕ → List ℕ → List ℕ
erase i [] = []
erase i (j ∷ objects) = let rest : List ℕ = erase i objects in if j == i then objects else j ∷ rest

-- ObjectTracker::removeObject; what is not tracked is left alone.
unfoldable pub remove_object : ℕ → Heap → Heap
remove_object i h = record h { live_objects = erase i h.live_objects }

-- Object::retain and Object::release; `false` is the error.
unfoldable pub retain_object : ℕ → Heap → Heap × Bool
retain_object i h =
    if h.references i == 0
    then (h, false)
    else (set_references i ((h.references i + 1) % 2 ^ 32) h, true)

unfoldable pub release_object : ℕ → Heap → Heap × Bool
unfolding remove_object
release_object i h =
    if h.references i == 0
    then (h, false)
    else let released : Heap = set_references i (h.references i - 1) h in
      if h.references i - 1 == 0 then (remove_object i released, true) else (released, true)

-- ObjectTracker::findTrackedObject: the first that fits.
abbrev pub find_first : (ℕ → Bool) → List ℕ → Option ℕ
find_first predicate [] = none
find_first predicate (i ∷ objects) =
    let rest : Option ℕ = find_first predicate objects in if predicate i then some i else rest

unfoldable pub find_tracked_object : (ℕ → Bool) → Heap → Option ℕ
find_tracked_object predicate h = find_first predicate h.live_objects

-- object_wrapper: a reference that may be null.
abbrev pub release_pointer : Option ℕ → Heap → Heap
release_pointer none h = h
release_pointer (some i) h = (release_object i h).0

-- `none` is the exception where the object is not alive.
abbrev pub retain_pointer : Option ℕ → Heap → Option Heap
retain_pointer none h = some h
retain_pointer (some i) h =
    let (kept, success) = retain_object i h in if success then some kept else none

-- object_wrapper::reset on a wrapper that holds `old`.
unfoldable pub reset : Option ℕ → Option ℕ → Heap → Option Heap
reset old ptr h = retain_pointer ptr (release_pointer old h)

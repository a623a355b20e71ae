-- ===== src/Buffer/Mapping/Refined.antt =====
-- What a client sees of the mappings: for each pointer, how often it is mapped and not unmapped.
use mathlib.Core.Path.{subst}
use vc4cl.Prelude.{
  ℕ, suc, ◌+◌, ◌-◌, ◌<◌, ◌==◌, ltb, ◌≡◌, refl, ap, ◌∙◌, inl, inr, Bool, true, false, ◌&&◌, ◌||◌,
  not, if◌then◌else◌, List, [], ◌∷◌, ◌++◌, Option, none, some, arith, Bool-cases, All, All-append,
  All-mono,
}
use vc4cl.Prelude.Int.{ℤ}
use vc4cl.Prelude.Codes.{cl_success, cl_invalid_value}
use vc4cl.Buffer.{Memory, end_of, Enqueued, rejected, queued}
use vc4cl.Buffer.SubBuffer.{has_flag}
use vc4cl.Buffer.Mapping.{
  MappingInfo, BufferMapping, MapBuffer, mapped_pointer, mapping_of, add_mapping, enqueue_action,
  map_with_event, enqueue_map, schedule, unmap_found, enqueue_unmap, lookup_mapping, erase_mapping,
  run_found, run_pending, run_first, cl_map_read, cl_map_write, cl_map_write_invalidate_region,
}
use vc4cl.Buffer.Mapping.Marks.{
  Entries, opens, open_count, Marked, keys, Ascending, All-KeyIn, Marks, Schedules,
  schedule-Schedules, erase-count, All-erase, Ascending-erase, Marked-erase,
}

-- The abstract state, and what the calls do to it.
abbrev pub OpenMaps : Type 0
OpenMaps = ℕ → ℕ

abbrev pub map_spec : Enqueued ℕ → OpenMaps → OpenMaps
map_spec (rejected code) open_maps = open_maps
map_spec (queued pointer) open_maps = λ p. (if pointer == p then 1 else 0) + open_maps p

abbrev pub unmap_spec : ℕ → OpenMaps → OpenMaps × ℤ
unmap_spec pointer open_maps =
    if pointer == 0 || open_maps pointer == 0
    then (open_maps, cl_invalid_value)
    else ((λ p. open_maps p - (if pointer == p then 1 else 0)), cl_success)

-- Uses of a buffer from a fresh one on, where no call lacks resources: the calls, and the actions
-- that the queue runs, in any order.
pub data Uses : MapBuffer → OpenMaps → Type 0 where
  fresh : (b : MapBuffer) → b.mappings ≡ [] → b.pending ≡ [] → Uses b (λ p. 0)
  map_step :
      (same_context : Bool) (flags offset size : ℕ) {b : MapBuffer} {open_maps : OpenMaps}
      → Uses b open_maps
      → Uses
          (enqueue_map b same_context none cl_success flags offset size).0
          (map_spec (enqueue_map b same_context none cl_success flags offset size).1 open_maps)
  unmap_step :
      (pointer : ℕ) {b : MapBuffer} {open_maps : OpenMaps}
      → Uses b open_maps
      → Uses (enqueue_unmap b none cl_success pointer).0 (unmap_spec pointer open_maps).0
  run_step :
      (mem : Memory) {b : MapBuffer} {open_maps : OpenMaps}
      → Uses b open_maps
      → Uses (run_first b mem).0 open_maps

abbrev Ready : MapBuffer → BufferMapping → Type 0
Ready b a = (a.mapping_info < b.next_key) × (a.unmap ≡ true → Marked a.mapping_info b.mappings)

open_count-append :
    (p key : ℕ) (m : MappingInfo) (xs : Entries)
    → open_count p (xs ++ (key, m) ∷ []) ≡ open_count p xs + opens p m
open_count-append p key m [] = omega arith
open_count-append p key m ((k, x) ∷ xs) = omega (arith, open_count-append p key m xs)

record Refines (b : MapBuffer) (open_maps : OpenMaps) : Type 0 where
  counts : (p : ℕ) → open_count p b.mappings ≡ open_maps p
  bounded : All (λ k. k < b.next_key) (keys b.mappings)
  ascending : Ascending (keys b.mappings)
  ready : All (Ready b) b.pending

keys-append :
    (xs : Entries) (key : ℕ) (m : MappingInfo) → keys (xs ++ (key, m) ∷ []) ≡ keys xs ++ key ∷ []
unfolding keys
keys-append [] key m = refl
keys-append ((k, x) ∷ xs) key m = ap (λ ks. k ∷ ks) (keys-append xs key m)

Ascending-append :
    (ks : List ℕ) (n : ℕ) → All (λ k. k < n) ks → Ascending ks → Ascending (ks ++ n ∷ [])
Ascending-append [] n h up = (tt, tt)
Ascending-append (k ∷ ks) n h up =
    (All-append (λ j. k < j) ks n up.0 h.0, Ascending-append ks n h.1 up.1)

Refines-add :
    {b : MapBuffer} {open_maps : OpenMaps} (flags pointer : ℕ)
    → Refines b open_maps
    → Refines (add_mapping b (mapping_of flags pointer)) (map_spec (queued pointer) open_maps)
Refines-add {b} {open_maps} flags pointer r = record {
  counts = λ p. open_count-append p b.next_key (mapping_of flags pointer) b.mappings ∙ added p;
  bounded = rw (keys-append b.mappings b.next_key (mapping_of flags pointer)) (
      All-append (λ k. k < suc b.next_key) (keys b.mappings) b.next_key
        (All-mono (λ k. k < b.next_key) (λ k. k < suc b.next_key) (keys b.mappings)
          (λ k h. omega (arith, h)) r.bounded)
        (omega arith));
  ascending =
      rw (keys-append b.mappings b.next_key (mapping_of flags pointer))
        (Ascending-append (keys b.mappings) b.next_key r.bounded r.ascending);
  ready =
      All-mono (Ready b) (Ready (add_mapping b (mapping_of flags pointer))) b.pending
        (λ a h. (
          omega (arith, h.0),
          (λ u.
              All-append _ b.mappings (b.next_key, mapping_of flags pointer) (h.1 u)
                (λ e. absurd (omega (arith, e, h.0)))),
        ))
        r.ready;
}
  where
    added :
        (p : ℕ)
        → open_count p b.mappings + opens p (mapping_of flags pointer)
          ≡ (if pointer == p then 1 else 0) + open_maps p
    added p = ground (arith, r.counts p)

Refines-enqueue :
    {b : MapBuffer} {open_maps : OpenMaps} (action : BufferMapping)
    → Ready b action
    → Refines b open_maps
    → Refines (enqueue_action b action cl_success) open_maps
Refines-enqueue {b} action h r = record {
  counts = r.counts;
  bounded = r.bounded;
  ascending = r.ascending;
  ready = All-append (Ready b) b.pending action r.ready h;
}

map_with_event-Refines :
    {b : MapBuffer} {open_maps : OpenMaps} (flags offset : ℕ)
    → Refines b open_maps
    → Refines
        (map_with_event b flags offset cl_success none).0
        (map_spec (map_with_event b flags offset cl_success none).1 open_maps)
map_with_event-Refines {b} flags offset r =
    Refines-enqueue (record { mapping_info = b.next_key; unmap = false })
      (omega arith, (λ e. absurd (ground (arith, e))))
      (Refines-add flags (mapped_pointer b b.host_ptr offset) r)

enqueue_map-Refines :
    {b : MapBuffer} {open_maps : OpenMaps} (same_context : Bool) (flags offset size : ℕ)
    → Refines b open_maps
    → Refines
        (enqueue_map b same_context none cl_success flags offset size).0
        (map_spec (enqueue_map b same_context none cl_success flags offset size).1 open_maps)
unfolding enqueue_map
enqueue_map-Refines false flags offset size r = r
enqueue_map-Refines {b} true flags offset size r =
    elim (Bool-cases (size == 0 || ltb b.host_size (end_of offset size))) [
      | inl p ↦ rw p r
      | inr p ↦ elim (Bool-cases (not b.host_readable && has_flag flags cl_map_read)) [
        | inl q ↦ rw (p, q) r
        | inr q ↦
            elim (Bool-cases (
              not b.host_writeable
              && (has_flag flags cl_map_write || has_flag flags cl_map_write_invalidate_region))) [
                | inl w ↦ rw (p, q, w) r
                | inr w ↦ rw (p, q, w) (map_with_event-Refines flags offset r)
              ]
      ]
    ]

Refines-mark :
    {b : MapBuffer} {open_maps : OpenMaps} (pointer key : ℕ) (ys : Entries)
    → Refines b open_maps
    → Marks pointer b.mappings key ys
    → Refines (record b { mappings = ys }) (λ p. open_maps p - (if pointer == p then 1 else 0))
Refines-mark {b} pointer key ys r m = record {
  counts = λ p. omega (arith, r.counts p, m.counted p);
  bounded = rw m.same_keys r.bounded;
  ascending = rw m.same_keys r.ascending;
  ready =
      All-mono (Ready b) (Ready (record b { mappings = ys })) b.pending
        (λ a h. (h.0, (λ u. m.keeps a.mapping_info (h.1 u)))) r.ready;
}

-- The call on what the search finds, for a pointer that is not NULL.
unmap_found-Refines :
    {b : MapBuffer} {open_maps : OpenMaps} (pointer : ℕ) (found : Option (ℕ × Entries))
    → (pointer == 0) ≡ false
    → Refines b open_maps
    → Schedules pointer b.mappings found
    → Refines (unmap_found b none cl_success found).0 (unmap_spec pointer open_maps).0
      × ((unmap_found b none cl_success found).1 ≡ (unmap_spec pointer open_maps).1)
unmap_found-Refines {b} {open_maps} pointer none p r s =
    let zero_open : (open_maps pointer == 0) ≡ true = ground (arith, s, r.counts pointer) in
    rw (p, zero_open) (r, refl)
unmap_found-Refines {b} {open_maps} pointer (some (key, ys)) p r (pos, m) =
    let some_open : (open_maps pointer == 0) ≡ false = ground (arith, pos, r.counts pointer) in
    rw (p, some_open)
      (
        Refines-enqueue (record { mapping_info = key; unmap = true })
            (
              All-KeyIn (λ k. k < b.next_key) key (keys b.mappings) r.bounded m.key_in,
              (λ u. m.marks r.ascending),
            )
            (Refines-mark pointer key ys r m),
        refl,
      )

enqueue_unmap-Refines :
    {b : MapBuffer} {open_maps : OpenMaps} (pointer : ℕ)
    → Refines b open_maps
    → Refines (enqueue_unmap b none cl_success pointer).0 (unmap_spec pointer open_maps).0
      × ((enqueue_unmap b none cl_success pointer).1 ≡ (unmap_spec pointer open_maps).1)
unfolding enqueue_unmap
enqueue_unmap-Refines {b} {open_maps} pointer r = elim (Bool-cases (pointer == 0)) [
  | inl p ↦ rw p (r, refl)
  | inr p ↦ rw p (
      rw p at (
        unmap_found-Refines pointer (schedule pointer b.mappings) p r
          (schedule-Schedules pointer b.mappings)))
]

Refines-later :
    {b : MapBuffer} {open_maps : OpenMaps} (action : BufferMapping) (later : List BufferMapping)
    → b.pending ≡ action ∷ later
    → Refines b open_maps
    → Refines (record b { pending = later }) open_maps × Ready b action
Refines-later {b} action later e r =
    let ready : All (Ready b) (action ∷ later) = subst (All (Ready b)) e r.ready in
    (
      record { counts = r.counts; bounded = r.bounded; ascending = r.ascending; ready = ready.1 },
      ready.0,
    )

Refines-erase :
    {b : MapBuffer} {open_maps : OpenMaps} (key : ℕ)
    → Marked key b.mappings
    → Refines b open_maps
    → Refines (record b { mappings = erase_mapping key b.mappings }) open_maps
Refines-erase {b} key marked r = record {
  counts = λ p. erase-count p key b.mappings marked ∙ r.counts p;
  bounded = All-erase (λ k. k < b.next_key) key b.mappings r.bounded;
  ascending = Ascending-erase key b.mappings r.ascending;
  ready =
      All-mono (Ready b) (Ready (record b { mappings = erase_mapping key b.mappings })) b.pending
        (λ a h. (h.0, (λ u. Marked-erase a.mapping_info key b.mappings (h.1 u)))) r.ready;
}

run_found-Refines :
    {b : MapBuffer} {open_maps : OpenMaps} (action : BufferMapping) (m : Option MappingInfo)
    (mem : Memory)
    → Ready b action
    → Refines b open_maps
    → Refines (run_found b action m mem).0 open_maps
run_found-Refines action none mem h r = r
run_found-Refines action (some m) mem h r = elim (Bool-cases action.unmap) [
  | inl u ↦ rw u (Refines-erase action.mapping_info (h.1 u) r)
  | inr u ↦ rw u r
]

run_pending-Refines :
    {b : MapBuffer} {open_maps : OpenMaps} (pending : List BufferMapping) (mem : Memory)
    → b.pending ≡ pending
    → Refines b open_maps
    → Refines (run_pending b pending mem).0 open_maps
run_pending-Refines [] mem e r = r
run_pending-Refines {b} {open_maps} (action ∷ later) mem e r =
    let (rest, ready) = Refines-later action later e r in
    run_found-Refines action (lookup_mapping action.mapping_info b.mappings) mem ready rest

Uses-Refines : {b : MapBuffer} {open_maps : OpenMaps} → Uses b open_maps → Refines b open_maps
unfolding run_first keys
Uses-Refines (fresh b none_mapped none_pending) = record {
  counts = λ p. rw none_mapped refl;
  bounded = rw none_mapped tt;
  ascending = rw none_mapped tt;
  ready = rw none_pending tt;
}
Uses-Refines (map_step same_context flags offset size u) =
    enqueue_map-Refines same_context flags offset size (Uses-Refines u)
Uses-Refines (unmap_step pointer u) = (enqueue_unmap-Refines pointer (Uses-Refines u)).0
Uses-Refines (run_step mem {b} u) = run_pending-Refines b.pending mem refl (Uses-Refines u)

-- Whatever the order of calls and of the actions that the queue runs, where no call lacks resources:
-- enqueueUnmap succeeds exactly where the specification does, that is, for a pointer that is not NULL
-- and has been given out by more calls of enqueueMap than have been undone by calls of enqueueUnmap.
pub enqueue_unmap-refined :
    {b : MapBuffer} {open_maps : OpenMaps} (pointer : ℕ)
    → Uses b open_maps
    → (enqueue_unmap b none cl_success pointer).1 ≡ (unmap_spec pointer open_maps).1
enqueue_unmap-refined pointer u = (enqueue_unmap-Refines pointer (Uses-Refines u)).1

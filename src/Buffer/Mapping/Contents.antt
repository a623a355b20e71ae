-- ===== src/Buffer/Mapping/Contents.antt =====
-- What stands at a mapped pointer, and what an unmapping writes back.
use vc4cl.Prelude.{
  ℕ, suc, List, [], ◌∷◌, ◌++◌, ◌+◌, ◌^◌, ◌≤◌, ◌<◌, ◌==◌, ==_iff, ltb, ◌≡◌, refl, sym, ap, ◌∙◌, inl,
  inr, Bool, true, false, ◌&&◌, ◌||◌, not, Option, none, some, arith, Bool-cases,
}
use mathlib.Core.Path.{subst}
use native.Mathlib.Nat.{mod-eq_of_lt}
use vc4cl.Prelude.Int.{ℤ}
use vc4cl.Prelude.Codes.{cl_success}
use vc4cl.Buffer.{Memory, move, end_of, Enqueued, rejected, queued}
use vc4cl.Buffer.Access.{move-inside}
use vc4cl.Buffer.SubBuffer.{has_flag}
use vc4cl.Buffer.Mapping.{
  MapBuffer, MappingInfo, run_first, lookup_mapping, schedule, keep_first, enqueue_unmap,
  mapped_pointer, mapping_of, enqueue_map, copy_host, populate, copy_back, copy_into_host_buffer,
  copy_from_host_buffer, cl_map_read, cl_map_write, cl_map_write_invalidate_region,
}

-- The buffer with the entry of a new mapping and its action.
abbrev with_mapping : MapBuffer → ℕ → ℕ → MapBuffer
with_mapping b flags pointer = record b {
  mappings = b.mappings ++ (b.next_key, mapping_of flags pointer) ∷ [];
  next_key = suc b.next_key;
  pending = b.pending ++ record { mapping_info = b.next_key; unmap = false } ∷ [];
}

-- What a mapping that is given out satisfies.
abbrev Holds : MapBuffer → ℕ → ℕ → ℕ → MapBuffer × Enqueued ℕ → Type 0
Holds b flags offset size (next, rejected code) = Unit
Holds b flags offset size (next, queued pointer) =
    (next ≡ with_mapping b flags pointer)
    × (pointer ≡ mapped_pointer b b.host_ptr offset)
    × (end_of offset size ≤ b.host_size)

enqueue_map-Holds :
    (b : MapBuffer) (same_context : Bool) (flags offset size : ℕ)
    → Holds b flags offset size (enqueue_map b same_context none cl_success flags offset size)
unfolding enqueue_map
enqueue_map-Holds b false flags offset size = tt
enqueue_map-Holds b true flags offset size =
    elim (Bool-cases (size == 0 || ltb b.host_size (end_of offset size))) [
      | inl p ↦ rw p tt
      | inr p ↦ elim (Bool-cases (not b.host_readable && has_flag flags cl_map_read)) [
        | inl q ↦ rw (p, q) tt
        | inr q ↦
            elim (Bool-cases (
              not b.host_writeable
              && (has_flag flags cl_map_write || has_flag flags cl_map_write_invalidate_region))) [
                | inl w ↦ rw (p, q, w) tt
                | inr w ↦ rw (p, q, w) (refl, refl, ground (arith, p))
              ]
      ]
    ]

-- The host pointer is the start of the device memory only for a buffer that starts there too.
abbrev pub AtDevice : MapBuffer → Option ℕ → Type 0
AtDevice b none = Unit
AtDevice b (some host) = host ≡ b.device_host_pointer → b.base ≡ b.device_host_pointer

whole : (n : ℕ) → ltb n (end_of 0 n) ≡ false
whole n = ground arith

-- A copy of the whole buffer to the host pointer or back, at a byte of the buffer.
module _ (b : MapBuffer) (k : ℕ) (mem : Memory) (room : k < b.host_size) where
  copied_to_host :
      (host : Option ℕ)
      → AtDevice b host
      → (copy_host true b host 0 b.host_size mem).0 (mapped_pointer b host k) ≡ mem (b.base + k)
  copied_to_host none at = elim (Bool-cases (not b.use_host_ptr)) [
    | inl u ↦ rw u refl
    | inr u ↦ rw u refl
  ]
  copied_to_host (some host) at = elim (Bool-cases b.use_host_ptr) [
    | inr u ↦ rw u refl
    | inl u ↦
        rw (u, whole b.host_size)
          (elim (Bool-cases (host == b.device_host_pointer)) [
            | inl d ↦ rw d (
                let e = (==_iff host b.device_host_pointer).0 d in
                ap (λ a. mem (a + k)) (e ∙ sym (at e)))
            | inr d ↦ rw d (elim (Bool-cases (host + 0 == b.base + 0)) [
              | inl s ↦ rw s (ap mem (ground (arith, s)))
              | inr s ↦ rw s (
                  ap (λ a. move (host + 0) (b.base + 0) b.host_size mem (a + k)) (omega arith)
                  ∙ move-inside (host + 0) (b.base + 0) b.host_size k mem room
                  ∙ ap (λ a. mem (a + k)) (omega arith))
            ])
          ])
  ]

  copied_from_host :
      (host : Option ℕ)
      → AtDevice b host
      → (copy_host false b host 0 b.host_size mem).0 (b.base + k) ≡ mem (mapped_pointer b host k)
  copied_from_host none at = elim (Bool-cases (not b.use_host_ptr)) [
    | inl u ↦ rw u refl
    | inr u ↦ rw u refl
  ]
  copied_from_host (some host) at = elim (Bool-cases b.use_host_ptr) [
    | inr u ↦ rw u refl
    | inl u ↦
        rw (u, whole b.host_size)
          (elim (Bool-cases (host == b.device_host_pointer)) [
            | inl d ↦ rw d (
                let e = (==_iff host b.device_host_pointer).0 d in
                ap (λ a. mem (a + k)) (at e ∙ sym e))
            | inr d ↦ rw d (
                ap (λ a. move (b.base + 0) (host + 0) b.host_size mem (a + k)) (omega arith)
                ∙ move-inside (b.base + 0) (host + 0) b.host_size k mem room
                ∙ ap (λ a. mem (a + k)) (omega arith))
          ])
  ]

pointer_at :
    (b : MapBuffer) (host : Option ℕ) (offset i : ℕ)
    → mapped_pointer b host offset + i ≡ mapped_pointer b host (offset + i)
pointer_at b none offset i = omega arith
pointer_at b (some host) offset i = elim (Bool-cases b.use_host_ptr) [
  | inl u ↦ rw u (omega arith)
  | inr u ↦ rw u (omega arith)
]

-- The last entry is found where no other has its key, or its pointer without a mark.
lookup_mapping-last :
    (key : ℕ) (m : MappingInfo) (entries : List (ℕ × MappingInfo))
    → lookup_mapping key entries ≡ none
    → lookup_mapping key (entries ++ (key, m) ∷ []) ≡ some m
unfolding lookup_mapping
lookup_mapping-last key m [] h = rw ((==_iff key key).1 refl) refl
lookup_mapping-last key m ((k, other) ∷ entries) h = elim (Bool-cases (k == key)) [
  | inl q ↦ absurd (ground (arith, rw q at h))
  | inr q ↦ rw q (lookup_mapping-last key m entries (rw q at h))
]

keep_first-none :
    (entry : ℕ × MappingInfo) (found : Option (ℕ × List (ℕ × MappingInfo)))
    → keep_first entry found ≡ none
    → found ≡ none
keep_first-none entry none h = refl
keep_first-none entry (some (key, rest)) h = absurd (ground (arith, h))

schedule-last :
    (key pointer : ℕ) (m : MappingInfo) (entries : List (ℕ × MappingInfo))
    → m.host_pointer ≡ pointer
    → m.unmap_scheduled ≡ false
    → schedule pointer entries ≡ none
    → schedule pointer (entries ++ (key, m) ∷ [])
      ≡ some (key, entries ++ (key, record m { unmap_scheduled = true }) ∷ [])
unfolding schedule
schedule-last key pointer m [] here unmarked h =
    rw (here, unmarked, (==_iff pointer pointer).1 refl) refl
schedule-last key pointer m ((k, other) ∷ entries) here unmarked h =
    elim (Bool-cases (other.host_pointer == pointer && not other.unmap_scheduled)) [
      | inl q ↦ absurd (ground (arith, rw q at h))
      | inr q ↦
          rw
            (
              q,
              schedule-last key pointer m entries here unmarked
                  (keep_first-none (k, other) (schedule pointer entries) (rw q at h)),
            )
            refl
    ]

-- The buffer once the action of a mapping has run.
abbrev settled : MapBuffer → ℕ → ℕ → MapBuffer
settled b flags pointer = record (with_mapping b flags pointer) { pending = [] }

module _ (b next : MapBuffer) (same_context : Bool) (flags offset size pointer : ℕ) (i : ℕ)
    (at : AtDevice b b.host_ptr) (room : offset + size < 2 ^ 32) (inside_size : i < size)
    (idle : b.pending ≡ []) (fresh : lookup_mapping b.next_key b.mappings ≡ none)
    (mapped : enqueue_map b same_context none cl_success flags offset size
      ≡ (next, queued pointer)) where
  mapped_Holds : Holds b flags offset size (next, queued pointer)
  mapped_Holds =
      subst (Holds b flags offset size) mapped (enqueue_map-Holds b same_context flags offset size)

  place : (pointer + i ≡ mapped_pointer b b.host_ptr (offset + i)) × (offset + i < b.host_size)
  place =
      let (added, given, bound) = mapped_Holds in
      (
        ap (λ a. a + i) given ∙ pointer_at b b.host_ptr offset i,
        omega (arith, rw (mod-eq_of_lt room) at bound),
      )

  run_first-mapped :
      (mem : Memory)
      → run_first next mem ≡ (
        settled b flags pointer,
        populate (settled b flags pointer) (mapping_of flags pointer) mem,
      )
  unfolding run_first
  run_first-mapped mem =
      rw
        (
          mapped_Holds.0,
          idle,
          lookup_mapping-last b.next_key (mapping_of flags pointer) b.mappings fresh,
        )
        refl

  -- Where enqueueMap gives a pointer, no other action is queued, the key of the entry is new, the end
  -- of the range does not wrap around, the contents are not to be overwritten, and a buffer whose
  -- host pointer is that of its device memory starts there: once the queued action has run, the memory
  -- at the pointer has the bytes of the range of the buffer.
  pub mapped_shows_buffer :
      (mem : Memory)
      → has_flag flags cl_map_write_invalidate_region ≡ false
      → (run_first next mem).1.0 (pointer + i) ≡ mem (b.base + (offset + i))
  unfolding populate copy_into_host_buffer
  mapped_shows_buffer mem kept =
      let (here, bound) = place in
      rw (run_first-mapped mem, kept, here)
        (copied_to_host (settled b flags pointer) (offset + i) mem bound b.host_ptr at)

  -- The entry is the one that enqueueUnmap finds.
  enqueue_unmap-mapped :
      (unmapped : MapBuffer)
      → schedule pointer b.mappings ≡ none
      → enqueue_unmap (settled b flags pointer) none cl_success pointer ≡ (unmapped, cl_success)
      → unmapped ≡ record (settled b flags pointer) {
        mappings =
            b.mappings
            ++ (b.next_key, record (mapping_of flags pointer) { unmap_scheduled = true }) ∷ [];
        pending = record { mapping_info = b.next_key; unmap = true } ∷ [];
      }
  unfolding enqueue_unmap
  enqueue_unmap-mapped unmapped alone done = elim (Bool-cases (pointer == 0)) [
    | inl q ↦ absurd (ground (arith, rw q at done))
    | inr q ↦ sym (
        ap (λ (r : MapBuffer × ℤ). r.0)
          (rw
            (
              q,
              schedule-last b.next_key pointer (mapping_of flags pointer) b.mappings refl refl
                  alone,
            )
            at done))
  ]

  -- Under the same conditions, where no other mapping at the pointer is open, and the memory was not
  -- mapped for reading only: once the actions of the mapping and then of an unmapping that enqueueUnmap
  -- accepts have run, the range of the buffer has the bytes that stood at the pointer when the second
  -- of them started.
  pub unmapped_written_back :
      (before after : Memory) (unmapped : MapBuffer)
      → (flags == cl_map_read) ≡ false
      → schedule pointer b.mappings ≡ none
      → enqueue_unmap (run_first next before).0 none cl_success pointer ≡ (unmapped, cl_success)
      → (run_first unmapped after).1.0 (b.base + (offset + i)) ≡ after (pointer + i)
  unfolding run_first copy_back copy_from_host_buffer
  unmapped_written_back before after unmapped writes alone done =
      let (here, bound) = place in
      let is = enqueue_unmap-mapped unmapped alone (rw (run_first-mapped before) at done) in
      rw
        (
          is,
          lookup_mapping-last b.next_key
              (record (mapping_of flags pointer) { unmap_scheduled = true }) b.mappings fresh,
          writes,
          here,
        )
        (copied_from_host (settled b flags pointer) (offset + i) after bound b.host_ptr at)

-- ===== src/Buffer/Access.antt =====
-- enqueueRead, enqueueWrite and the action that they queue.
use vc4cl.Prelude.{
  ℕ, ◌+◌, ◌^◌, ◌≤◌, ◌<◌, ◌==◌, ltb, ◌≡◌, refl, sym, ap, ◌∙◌, ◌⊎◌, inl, inr, Bool, true, false, ◌&&◌,
  ◌||◌, not, Option, some, none, some_inj, arith, Bool-cases,
}
use native.Mathlib.Nat.{mod-eq_of_lt}
use vc4cl.Buffer.{
  Buffer, BufferAccess, Memory, inside, move, end_of, access, Enqueued, rejected, queued,
  enqueue_read, enqueue_write, run_access,
}

-- What a queued access satisfies.
abbrev Holds : Buffer → ℕ → ℕ → Option ℕ → Bool → Enqueued BufferAccess → Type 0
Holds buffer offset size ptr write (rejected code) = Unit
Holds buffer offset size ptr write (queued a) =
    (some a.host_ptr ≡ ptr)
    × (0 < size)
    × (end_of offset size ≤ buffer.host_size)
    × (a ≡ access write buffer offset size a.host_ptr)

enqueue_write-Holds :
    (buffer : Buffer) (offset size : ℕ) (ptr : Option ℕ)
    → Holds buffer offset size ptr true (enqueue_write buffer offset size ptr)
unfolding enqueue_write
enqueue_write-Holds buffer offset size none = tt
enqueue_write-Holds buffer offset size (some ptr) =
    elim (Bool-cases (size == 0 || ltb buffer.host_size (end_of offset size))) [
      | inl p ↦ rw p tt
      | inr p ↦ elim (Bool-cases (not buffer.host_writeable)) [
        | inl q ↦ rw (p, q) tt
        | inr q ↦ rw (p, q) (refl, ground (arith, p), ground (arith, p), refl)
      ]
    ]

enqueue_read-Holds :
    (buffer : Buffer) (offset size : ℕ) (ptr : Option ℕ)
    → Holds buffer offset size ptr false (enqueue_read buffer offset size ptr)
unfolding enqueue_read
enqueue_read-Holds buffer offset size none = tt
enqueue_read-Holds buffer offset size (some ptr) =
    elim (Bool-cases (size == 0 || ltb buffer.host_size (end_of offset size))) [
      | inl p ↦ rw p tt
      | inr p ↦ elim (Bool-cases (not buffer.host_readable)) [
        | inl q ↦ rw (p, q) tt
        | inr q ↦ rw (p, q) (refl, ground (arith, p), ground (arith, p), refl)
      ]
    ]

move-outside :
    (dest src size a : ℕ) (mem : Memory)
    → inside dest size a ≡ false
    → move dest src size mem a ≡ mem a
move-outside dest src size a mem h = rw h refl

pub move-inside :
    (dest src size i : ℕ) (mem : Memory)
    → i < size
    → move dest src size mem (dest + i) ≡ mem (src + i)
move-inside dest src size i mem h =
    let here : inside dest size (dest + i) ≡ true = ground (arith, h) in
    rw here (ap (λ d. mem (src + d)) (omega arith))

module _ (buffer : Buffer) (offset size ptr : ℕ) (mem : Memory) where
  in_place :
      (i : ℕ) → (ptr == buffer.base && offset == 0) ≡ true → buffer.base + offset + i ≡ ptr + i
  in_place i h = ground (arith, h)

  run_write-inside :
      (i : ℕ)
      → i < size
      → run_access (access true buffer offset size ptr) mem (buffer.base + offset + i)
        ≡ mem (ptr + i)
  unfolding run_access
  run_write-inside i h = elim (Bool-cases (ptr == buffer.base && offset == 0)) [
    | inl p ↦ rw p (ap mem (in_place i p))
    | inr p ↦ rw p (
        move-inside (buffer.base + offset) (ptr + 0) size i mem h
        ∙ ap (λ n. mem (n + i)) (omega arith))
  ]

  run_read-inside :
      (i : ℕ)
      → i < size
      → run_access (access false buffer offset size ptr) mem (ptr + i)
        ≡ mem (buffer.base + offset + i)
  unfolding run_access
  run_read-inside i h = elim (Bool-cases (ptr == buffer.base && offset == 0)) [
    | inl p ↦ rw p (ap mem (sym (in_place i p)))
    | inr p ↦ rw p (
        ap (λ n. move (ptr + 0) (buffer.base + offset) size mem (n + i)) (omega arith)
        ∙ move-inside (ptr + 0) (buffer.base + offset) size i mem h)
  ]

  run_write-outside :
      (a : ℕ)
      → inside (buffer.base + offset) size a ≡ false
      → run_access (access true buffer offset size ptr) mem a ≡ mem a
  unfolding run_access
  run_write-outside a h = elim (Bool-cases (ptr == buffer.base && offset == 0)) [
    | inl p ↦ rw p refl
    | inr p ↦ rw p (move-outside (buffer.base + offset) (ptr + 0) size a mem h)
  ]

in_range :
    (base offset size host_size a : ℕ)
    → inside (base + offset) size a ≡ true
    → offset + size ≤ host_size
    → (base + offset ≤ a) × (a < base + offset + size) × (a < base + host_size)
in_range base offset size host_size a h g =
    (ground (arith, h), ground (arith, h), ground (arith, h, g))

-- A write that is accepted, where offset and size do not wrap around, changes no byte outside the
-- buffer, and of the buffer only the range that is asked for.
pub write_stays_inside :
    (buffer : Buffer) (offset size : ℕ) (ptr : Option ℕ) (a : BufferAccess) (mem : Memory)
    (address : ℕ)
    → offset + size < 2 ^ 32
    → enqueue_write buffer offset size ptr ≡ queued a
    → (run_access a mem address ≡ mem address)
      ⊎ ((buffer.base + offset ≤ address)
          × (address < buffer.base + offset + size)
          × (address < buffer.base + buffer.host_size))
write_stays_inside buffer offset size ptr a mem address room h =
    let (same_ptr, positive, bound, same) : Holds buffer offset size ptr true (queued a) =
      rw h at (enqueue_write-Holds buffer offset size ptr) in
    rw same (elim (Bool-cases (inside (buffer.base + offset) size address)) [
      | inr q ↦ inl (run_write-outside buffer offset size a.host_ptr mem address q)
      | inl q ↦ inr (
          in_range buffer.base offset size buffer.host_size address q
            (rw (mod-eq_of_lt room) at bound))
    ])

-- Where a write from `src` and a read to `dest` of the same range of a buffer are accepted, the
-- read after the write puts to `dest` the bytes that were at `src`.
pub read_written :
    (buffer : Buffer) (offset size src dest : ℕ) (w r : BufferAccess) (mem : Memory) (i : ℕ)
    → enqueue_write buffer offset size (some src) ≡ queued w
    → enqueue_read buffer offset size (some dest) ≡ queued r
    → i < size
    → run_access r (run_access w mem) (dest + i) ≡ mem (src + i)
read_written buffer offset size src dest w r mem i hw hr h =
    let (ptr_w, positive_w, bound_w, same_w) : Holds buffer offset size (some src) true (queued w) =
      rw hw at (enqueue_write-Holds buffer offset size (some src)) in
    let (ptr_r, positive_r, bound_r, same_r) : Holds buffer offset size (some dest) false
        (queued r) =
      rw hr at (enqueue_read-Holds buffer offset size (some dest)) in
    let written : w ≡ access true buffer offset size src =
      same_w ∙ ap (access true buffer offset size) (some_inj ptr_w) in
    let read : r ≡ access false buffer offset size dest =
      same_r ∙ ap (access false buffer offset size) (some_inj ptr_r) in
    rw (written, read)
      (run_read-inside buffer offset size dest (run_access (access true buffer offset size src) mem)
          i h
        ∙ run_write-inside buffer offset size src mem i h)

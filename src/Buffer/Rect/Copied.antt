-- ===== src/Buffer/Rect/Copied.antt =====
-- A rectangle is copied byte by byte, and nothing else changes.
use vc4cl.Prelude.{
  ℕ, zero, suc, ◌+◌, ◌*◌, ◌%◌, ◌^◌, ◌≤◌, ◌<◌, ◌==◌, ◌≡◌, ◌≢◌, refl, sym, ◌∙◌, inl, inr, true, false,
  ◌&&◌, ◌||◌, not, some, arith, Bool-cases,
}
use native.Mathlib.Nat.{mod-eq_of_lt, zero-mul}
use vc4cl.Buffer.{Buffer, Memory, move, Enqueued, rejected, queued}
use vc4cl.Buffer.Rect.{
  Extent, Pitches, BufferRectAccess, enqueue_write_rect, run_rect_access, BufferRectCopy, loop,
  rect_pointer, row_pointer, move_rect, run_rect_copy, calculate_size_bounds, default_pitches,
  invalid_pitches, check_rect_copy, enqueue_copy_into_rect, out_of_bounds, check_copy_overlap,
}
use vc4cl.Buffer.Rect.Moves.{Puts, Moved, move-Puts, Rounds, Apart, loop-Puts}

-- The address of a byte of a rectangle.
abbrev pub byte_at : ℕ → Pitches → ℕ → ℕ → ℕ → ℕ
byte_at start p x y z = start + p.row * y + p.slice * z + x

-- No row of a rectangle overlaps another.
abbrev pub Fits : Extent → Pitches → Type 0
Fits region p = (region.x ≤ p.row) × (region.y * p.row ≤ p.slice)

-- No byte of the one rectangle is one of the other.
abbrev pub Separate : Extent → ℕ → Pitches → ℕ → Pitches → Type 0
Separate region a p b q =
    (x y z x' y' z' : ℕ)
    → x < region.x
    → y < region.y
    → z < region.z
    → x' < region.x
    → y' < region.y
    → z' < region.z
    → byte_at a p x y z ≢ byte_at b q x' y' z'

-- No address of a byte of a rectangle wraps around.
abbrev pub Addressed : Extent → ℕ → Pitches → Type 0
Addressed region start p =
    (x y z : ℕ) → x < region.x → y < region.y → z < region.z → byte_at start p x y z < 2 ^ 32

rows_below : (row x y y' w : ℕ) → y < y' → x < w → w ≤ row → row * y + x < row * y'
rows_below row x y y' w h g fits = grind (arith, h, g, fits)

row_inside : (row x y w h : ℕ) → y < h → x < w → w ≤ row → row * y + x < h * row
row_inside row x y w h below g fits = grind (arith, below, g, fits)

module _ (region : Extent) (dest : ℕ) (d : Pitches) (src : ℕ) (s : Pitches) where
  abbrev RowBytes : ℕ → ℕ → ℕ → ℕ → Type 0
  RowBytes z y = Moved (dest + d.row * y + d.slice * z) (src + s.row * y + s.slice * z) region.x

  abbrev SliceBytes : ℕ → ℕ → ℕ → Type 0
  SliceBytes z = Rounds (RowBytes z) 0 region.y

  abbrev RectBytes : ℕ → ℕ → Type 0
  RectBytes = Rounds SliceBytes 0 region.z

  module _ (fits : Fits region d) (apart : Separate region dest d src s) (some_byte : 0 < region.x)
      (dest_addressed : Addressed region dest d) (src_addressed : Addressed region src s) where
    rows-Apart : (z : ℕ) → z < region.z → Apart (RowBytes z) region.y
    rows-Apart z below i j a b a' b' less last (x, hx, ea, eb) (x', hx', ea', eb') = (
      (λ e. absurd (omega (arith, ea, ea', e, rows_below d.row x i j region.x less hx fits.0))),
      (λ e.
          apart x i z x' j z hx (omega (arith, less, last)) below hx' last below
            (sym ea ∙ e ∙ eb')),
    )

    row-Puts :
        (z y : ℕ)
        → z < region.z
        → y < region.y
        → Puts (RowBytes z y) (move (row_pointer dest d y z) (row_pointer src s y z) region.x)
    row-Puts z y below above =
        rw
          (
            mod-eq_of_lt {n = dest + d.row * y + d.slice * z} {m = 2 ^ 32}
                (omega (arith, dest_addressed 0 y z some_byte above below)),
            mod-eq_of_lt {n = src + s.row * y + s.slice * z} {m = 2 ^ 32}
                (omega (arith, src_addressed 0 y z some_byte above below)),
          )
          (move-Puts (dest + d.row * y + d.slice * z) (src + s.row * y + s.slice * z) region.x)

    row_loop-Puts :
        (z : ℕ)
        → z < region.z
        → Puts
            (SliceBytes z)
            (loop (λ y. move (row_pointer dest d y z) (row_pointer src s y z) region.x) region.y 0)
    row_loop-Puts z below =
        loop-Puts (RowBytes z) _ 0 region.y (λ y h. row-Puts z y below (omega (arith, h)))
          (λ i j a b a' b' less last. rows-Apart z below i j a b a' b' less (omega (arith, last)))

    slices-Apart : Apart SliceBytes region.z
    slices-Apart i j a b a' b' less last (y, _, hy, (x, hx, ea, eb))
          (y', _, hy', (x', hx', ea', eb')) =
        let inside : d.row * y + x < region.y * d.row =
          row_inside d.row x y region.x region.y (omega (arith, hy)) hx fits.0 in
        (
          (λ e. absurd (
              omega (
                arith,
                ea,
                ea',
                e,
                rows_below d.slice (d.row * y + x) i j (region.y * d.row) less inside fits.1,
              ))),
          (λ e.
              apart x y i x' y' j hx (omega (arith, hy)) (omega (arith, less, last)) hx'
                (omega (arith, hy')) last (sym ea ∙ e ∙ eb')),
        )

    move_rect-Puts : Puts RectBytes (move_rect region dest d src s)
    unfolding move_rect
    move_rect-Puts =
        loop-Puts SliceBytes _ 0 region.z (λ z h. row_loop-Puts z (omega (arith, h)))
          (λ i j a b a' b' less last. slices-Apart i j a b a' b' less (omega (arith, last)))

    move_rect-there :
        (mem : Memory) (x y z : ℕ)
        → x < region.x
        → y < region.y
        → z < region.z
        → move_rect region dest d src s mem (byte_at dest d x y z) ≡ mem (byte_at src s x y z)
    move_rect-there mem x y z hx hy hz =
        move_rect-Puts.there mem (byte_at dest d x y z) (byte_at src s x y z) (
          z,
          omega arith,
          omega (arith, hz),
          (y, omega arith, omega (arith, hy), (x, hx, refl, refl)),
        )

    move_rect-elsewhere :
        (mem : Memory) (a : ℕ)
        → ((x y z : ℕ) → x < region.x → y < region.y → z < region.z → a ≢ byte_at dest d x y z)
        → move_rect region dest d src s mem a ≡ mem a
    move_rect-elsewhere mem a outside =
        move_rect-Puts.elsewhere mem a (λ b (z, _, hz, (y, _, hy, (x, hx, ea, eb))).
          outside x y z hx (omega (arith, hy)) (omega (arith, hz)) ea)

-- What a queued copy satisfies.
abbrev Holds :
    Buffer
    → Buffer
    → Extent
    → Extent
    → Extent
    → Pitches
    → Pitches
    → Enqueued BufferRectCopy
    → Type 0
Holds buffer destination src_origin dst_origin region src dst (rejected code) = Unit
Holds buffer destination src_origin dst_origin region src dst (queued c) =
    (invalid_pitches region dst ≡ false)
    × (c ≡ record {
      source_buffer = buffer;
      dest_buffer = destination;
      region = region;
      source_origin = src_origin;
      source_pitches = src;
      dest_origin = dst_origin;
      dest_pitches = dst;
    })

module _ (buffer destination : Buffer) (src_origin dst_origin region : Extent)
    (src dst : Pitches) where
  check_rect_copy-Holds :
      Holds buffer destination src_origin dst_origin region src dst
        (check_rect_copy buffer destination src_origin dst_origin region src dst)
  unfolding check_rect_copy
  check_rect_copy-Holds = elim (Bool-cases (invalid_pitches region src)) [
    | inl p ↦ rw p tt
    | inr p ↦ elim (Bool-cases (invalid_pitches region dst)) [
      | inl q ↦ rw (p, q) tt
      | inr q ↦
          elim (Bool-cases
            (buffer.identity == destination.identity && not (src.slice == dst.slice))) [
              | inl r ↦ rw (p, q, r) tt
              | inr r ↦
                  elim (Bool-cases
                    (buffer.identity == destination.identity && not (src.row == dst.row))) [
                      | inl t ↦ rw (p, q, r, t) tt
                      | inr t ↦
                          elim (Bool-cases (
                            buffer.identity == destination.identity
                            && check_copy_overlap src_origin dst_origin region src)) [
                              | inl u ↦ rw (p, q, r, t, u) tt
                              | inr u ↦ rw (p, q, r, t, u) (q, refl)
                            ]
                    ]
            ]
    ]
  ]

enqueue_copy_into_rect-Holds :
    (buffer destination : Buffer) (src_origin dst_origin region : Extent) (src dst : Pitches)
    → Holds buffer destination src_origin dst_origin region
        (default_pitches region src)
        (default_pitches region dst)
        (enqueue_copy_into_rect buffer destination src_origin dst_origin region src dst)
unfolding enqueue_copy_into_rect
enqueue_copy_into_rect-Holds buffer destination src_origin dst_origin region src dst =
    elim (Bool-cases (
      calculate_size_bounds region == 0
      || (out_of_bounds buffer src_origin src region
          || out_of_bounds destination dst_origin dst region))) [
            | inl p ↦ rw p tt
            | inr p ↦ rw p (
                check_rect_copy-Holds buffer destination src_origin dst_origin region
                  (default_pitches region src) (default_pitches region dst))
          ]

valid-Fits :
    (region : Extent) (p : Pitches)
    → region.y * p.row < 2 ^ 32
    → invalid_pitches region p ≡ false
    → Fits region p
unfolding invalid_pitches
valid-Fits region p room valid =
    (ground (arith, valid), rw (mod-eq_of_lt room) at (slice_bound valid))
  where
    slice_bound : invalid_pitches region p ≡ false → region.y * p.row % 2 ^ 32 ≤ p.slice
    slice_bound v = ground (arith, v)

-- A copy that enqueueCopyIntoRect accepts puts each byte of the source rectangle at its place in the
-- destination rectangle, with the pitches as they are computed for 0, where neither the size of a slice
-- nor the address of a byte of the two rectangles wraps around and the rectangles have no byte in
-- common.
pub rect_copied :
    (buffer destination : Buffer) (src_origin dst_origin region : Extent) (src dst : Pitches)
    (c : BufferRectCopy) (mem : Memory) (x y z : ℕ)
    → enqueue_copy_into_rect buffer destination src_origin dst_origin region src dst ≡ queued c
    → region.y * (default_pitches region dst).row < 2 ^ 32
    → Separate region
        (rect_pointer destination.base dst_origin (default_pitches region dst))
        (default_pitches region dst)
        (rect_pointer buffer.base src_origin (default_pitches region src))
        (default_pitches region src)
    → Addressed region
        (rect_pointer destination.base dst_origin (default_pitches region dst))
        (default_pitches region dst)
    → Addressed region
        (rect_pointer buffer.base src_origin (default_pitches region src))
        (default_pitches region src)
    → x < region.x
    → y < region.y
    → z < region.z
    → run_rect_copy c mem (
        byte_at
          (rect_pointer destination.base dst_origin (default_pitches region dst))
          (default_pitches region dst)
          x
          y
          z)
      ≡ mem (
          byte_at
            (rect_pointer buffer.base src_origin (default_pitches region src))
            (default_pitches region src)
            x
            y
            z)
unfolding run_rect_copy
rect_copied buffer destination src_origin dst_origin region src dst c mem x y z accepted room apart
      dst_addressed src_addressed hx hy hz =
    let d : Pitches = default_pitches region dst in
    let s : Pitches = default_pitches region src in
    let (valid, same) : Holds buffer destination src_origin dst_origin region s d (queued c) =
      rw accepted at
        (enqueue_copy_into_rect-Holds buffer destination src_origin dst_origin region src dst) in
    rw same (
      move_rect-there region (rect_pointer destination.base dst_origin d) d
        (rect_pointer buffer.base src_origin s) s (valid-Fits region d room valid) apart
        (omega (arith, hx)) dst_addressed src_addressed mem x y z hx hy hz)

-- What a queued write satisfies.
abbrev HoldsWrite :
    Buffer → Extent → Extent → Extent → Pitches → Pitches → ℕ → Enqueued BufferRectAccess → Type 0
HoldsWrite buffer origin host_origin region p q ptr (rejected code) = Unit
HoldsWrite buffer origin host_origin region p q ptr (queued a) =
    (0 < region.x)
    × (a ≡ record {
      buffer = buffer;
      host_ptr = ptr;
      write_to_buffer = true;
      region = region;
      buffer_origin = origin;
      buffer_pitches = p;
      host_origin = host_origin;
      host_pitches = q;
    })

first_factor : (x y z : ℕ) → (x * y * z % 2 ^ 32 == 0) ≡ false → 0 < x
first_factor zero y z h = absurd (ground (arith, rw (zero-mul y, zero-mul z) at h))
first_factor (suc x) y z h = omega arith

-- A region that is accepted has a byte in each row.
some_bytes : (region : Extent) → (calculate_size_bounds region == 0) ≡ false → 0 < region.x
unfolding calculate_size_bounds
some_bytes region h = first_factor region.x region.y region.z h

enqueue_write_rect-Holds :
    (buffer : Buffer) (origin host_origin region : Extent) (p q : Pitches) (ptr : ℕ)
    → HoldsWrite buffer origin host_origin region p q ptr
        (enqueue_write_rect buffer (some origin) (some host_origin) (some region) p q (some ptr))
unfolding enqueue_write_rect
enqueue_write_rect-Holds buffer origin host_origin region p q ptr =
    elim (Bool-cases (calculate_size_bounds region == 0 || out_of_bounds buffer origin p region)) [
      | inl e ↦ rw e tt
      | inr e ↦ elim (Bool-cases (not buffer.host_writeable)) [
        | inl f ↦ rw (e, f) tt
        | inr f ↦ rw (e, f) (some_bytes region (ground (arith, e)), refl)
      ]
    ]

-- A write of a rectangle that is accepted, with pitches for which its rows do not overlap, from host
-- memory that has no byte of it, where no address of a byte of the two rectangles wraps around, changes
-- no byte outside of the rectangle.
pub rect_write_stays_inside :
    (buffer : Buffer) (origin host_origin region : Extent) (p q : Pitches) (ptr : ℕ)
    (a : BufferRectAccess) (mem : Memory) (address : ℕ)
    → enqueue_write_rect buffer (some origin) (some host_origin) (some region) p q (some ptr)
      ≡ queued a
    → Fits region p
    → Separate region (rect_pointer buffer.base origin p) p (rect_pointer ptr host_origin q) q
    → Addressed region (rect_pointer buffer.base origin p) p
    → Addressed region (rect_pointer ptr host_origin q) q
    → ((x y z : ℕ)
        → x < region.x
        → y < region.y
        → z < region.z
        → address ≢ byte_at (rect_pointer buffer.base origin p) p x y z)
    → run_rect_access a mem address ≡ mem address
unfolding run_rect_access
rect_write_stays_inside buffer origin host_origin region p q ptr a mem address accepted fits apart
      addressed host_addressed outside =
    let (some_byte, same) : HoldsWrite buffer origin host_origin region p q ptr (queued a) =
      rw accepted at (enqueue_write_rect-Holds buffer origin host_origin region p q ptr) in
    rw same (
      move_rect-elsewhere region (rect_pointer buffer.base origin p) p
        (rect_pointer ptr host_origin q) q fits apart some_byte addressed host_addressed mem address
        outside)

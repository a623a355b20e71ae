-- ===== src/Buffer/Rect/Examples.antt =====
-- Tests and instances: rectangles of 4 bytes, 3 rows and 2 slices in two buffers.
use vc4cl.Prelude.{ℕ, ◌≡◌, refl, arith, true, none, some}
use vc4cl.Buffer.{Buffer, Memory, queued}
use vc4cl.Buffer.Rect.{
  Extent, Pitches, BufferRectCopy, BufferRectAccess, default_pitches, enqueue_copy_into_rect,
  enqueue_write_rect, run_rect_copy, run_rect_access,
}
use vc4cl.Buffer.Rect.Copied.{rect_copied, rect_write_stays_inside}

abbrev extent : ℕ → ℕ → ℕ → Extent
extent x y z = record { x = x; y = y; z = z }

abbrev pitches : ℕ → ℕ → Pitches
pitches row slice = record { row = row; slice = slice }

abbrev source : Buffer
source = record {
  identity = 1;
  parent = none;
  base = 1000;
  host_size = 100;
  host_readable = true;
  host_writeable = true;
}

abbrev destination : Buffer
destination = record source { identity = 2; base = 2000 }

abbrev memory : Memory
memory a = a

abbrev copy : BufferRectCopy
copy = record {
  source_buffer = source;
  dest_buffer = destination;
  region = extent 4 3 2;
  source_origin = extent 1 1 0;
  source_pitches = pitches 8 24;
  dest_origin = extent 0 0 0;
  dest_pitches = pitches 4 12;
}

copy_queued :
    enqueue_copy_into_rect source destination
      (extent 1 1 0)
      (extent 0 0 0)
      (extent 4 3 2)
      (pitches 8 24)
      (pitches 0 0)
    ≡ queued copy
unfolding enqueue_copy_into_rect
copy_queued = refl

rect_copied_example : run_rect_copy copy memory 2023 ≡ 1052
unfolding default_pitches
rect_copied_example =
    rect_copied source destination (extent 1 1 0) (extent 0 0 0) (extent 4 3 2) (pitches 8 24)
      (pitches 0 0) copy memory 3 2 1 copy_queued (omega arith)
      (λ x y z x' y' z' hx hy hz hx' hy' hz' e. absurd (omega (arith, e)))
      (λ x y z hx hy hz. omega (arith, hx, hy, hz)) (λ x y z hx hy hz. omega (arith, hx, hy, hz))
      (omega arith) (omega arith) (omega arith)

abbrev write : ℕ → Pitches → BufferRectAccess
write rows p = record {
  buffer = source;
  host_ptr = 5000;
  write_to_buffer = true;
  region = extent 4 rows 1;
  buffer_origin = extent 0 0 0;
  buffer_pitches = p;
  host_origin = extent 0 0 0;
  host_pitches = pitches 4 12;
}

write_queued :
    enqueue_write_rect source
      (some (extent 0 0 0))
      (some (extent 0 0 0))
      (some (extent 4 3 1))
      (pitches 8 24)
      (pitches 4 12)
      (some 5000)
    ≡ queued (write 3 (pitches 8 24))
unfolding enqueue_write_rect
write_queued = refl

-- The byte behind the first row.
rect_write_stays_inside_example : run_rect_access (write 3 (pitches 8 24)) memory 1004 ≡ 1004
rect_write_stays_inside_example =
    rect_write_stays_inside source (extent 0 0 0) (extent 0 0 0) (extent 4 3 1) (pitches 8 24)
      (pitches 4 12) 5000 (write 3 (pitches 8 24)) memory 1004 write_queued
      (omega arith, omega arith)
      (λ x y z x' y' z' hx hy hz hx' hy' hz' e. absurd (omega (arith, e)))
      (λ x y z hx hy hz. omega (arith, hx, hy, hz)) (λ x y z hx hy hz. omega (arith, hx, hy, hz))
      (λ x y z hx hy hz e. absurd (omega (arith, e)))

-- The bytes of the rows are counted without the pitch: this write is accepted, and its third row lies
-- behind the buffer, which ends at 1100.
outside_queued :
    enqueue_write_rect source
      (some (extent 0 0 0))
      (some (extent 0 0 0))
      (some (extent 4 3 1))
      (pitches 80 240)
      (pitches 4 12)
      (some 5000)
    ≡ queued (write 3 (pitches 80 240))
unfolding enqueue_write_rect
outside_queued = refl

outside_written : run_rect_access (write 3 (pitches 80 240)) memory 1160 ≡ 5008
unfolding run_rect_access
outside_written = refl

-- A pitch of 0 is taken as it is: all rows are written to the place of the first.
rows_on_top : run_rect_access (write 3 (pitches 0 0)) memory 1000 ≡ 5008
unfolding run_rect_access
rows_on_top = refl

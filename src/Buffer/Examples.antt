-- ===== src/Buffer/Examples.antt =====
-- Tests and instances: a buffer of 16 bytes at the address 1000.
use vc4cl.Prelude.{◌≤◌, ◌<◌, ◌⊎◌, ◌≡◌, refl, arith, true, false, [], ◌∷◌, none, some}
use vc4cl.Buffer.{
  Buffer, BufferFill, Memory, access, queued, enqueue_read, enqueue_write, run_access, enqueue_fill,
  run_fill, enqueue_copy_into, run_copy,
}
use vc4cl.Buffer.Access.{write_stays_inside, read_written}
use vc4cl.Buffer.Fill.{run_fill-filled}
use vc4cl.Buffer.Copy.{copy, copied}

abbrev buffer : Buffer
buffer = record {
  identity = 1;
  parent = none;
  base = 1000;
  host_size = 16;
  host_readable = true;
  host_writeable = true;
}

abbrev memory : Memory
memory a = a

write_queued : enqueue_write buffer 4 8 (some 500) ≡ queued (access true buffer 4 8 500)
unfolding enqueue_write
write_queued = refl

read_queued : enqueue_read buffer 4 8 (some 700) ≡ queued (access false buffer 4 8 700)
unfolding enqueue_read
read_queued = refl

-- The end is computed in 32 bits: eight bytes from four below the largest offset on have the end 4, and
-- the write is queued.
write_wraps :
    enqueue_write buffer 4294967292 8 (some 500) ≡ queued (access true buffer 4294967292 8 500)
unfolding enqueue_write
write_wraps = refl

read_written_example :
    run_access (access false buffer 4 8 700) (run_access (access true buffer 4 8 500) memory) 703
    ≡ 503
read_written_example =
    read_written buffer 4 8 500 700 (access true buffer 4 8 500) (access false buffer 4 8 700)
      memory 3 write_queued read_queued (omega arith)

write_stays_inside_example :
    (run_access (access true buffer 4 8 500) memory 1012 ≡ 1012)
    ⊎ ((1004 ≤ 1012) × (1012 < 1012) × (1012 < 1016))
write_stays_inside_example =
    write_stays_inside buffer 4 8 (some 500) (access true buffer 4 8 500) memory 1012 (omega arith)
      write_queued

-- Three bytes over and over, ten bytes from the offset 6 on.
abbrev fill : BufferFill
fill = record { buffer = buffer; buffer_offset = 6; num_bytes = 10; pattern = 1 ∷ 2 ∷ 3 ∷ [] }

fill_accepted : enqueue_fill buffer (some (1 ∷ 2 ∷ 3 ∷ [])) 6 10 ≡ queued fill
unfolding enqueue_fill
fill_accepted = refl

-- The last byte that is written lies behind the buffer, which ends at 1016.
run_fill-filled_example : run_fill fill memory 1017 ≡ 3
run_fill-filled_example =
    run_fill-filled fill 4 memory 1017 (omega arith) (omega arith) (omega arith) (omega arith)
      (omega arith)

copy_queued : enqueue_copy_into buffer buffer 0 8 4 ≡ queued (copy buffer buffer 0 8 4)
unfolding enqueue_copy_into
copy_queued = refl

copied_example : run_copy (copy buffer buffer 0 8 4) memory 1011 ≡ 1003
copied_example =
    copied buffer buffer 0 8 4 (copy buffer buffer 0 8 4) memory 3 copy_queued (omega arith)

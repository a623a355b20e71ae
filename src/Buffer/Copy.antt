-- ===== src/Buffer/Copy.antt =====
-- enqueueCopyInto and the action that it queues.
use vc4cl.Prelude.{ℕ, ◌+◌, ◌<◌, ◌==◌, ==_iff, ltb, ◌≡◌, refl, ap, inl, inr, ◌&&◌, ◌||◌, Bool-cases}
use vc4cl.Buffer.{
  Buffer, BufferCopy, Memory, end_of, same_memory, overlaps, Enqueued, rejected, queued,
  enqueue_copy_into, run_copy,
}
use vc4cl.Buffer.Access.{move-inside}

abbrev pub copy : Buffer → Buffer → ℕ → ℕ → ℕ → BufferCopy
copy source destination src_offset dst_offset size = record {
  source_buffer = source;
  source_offset = src_offset;
  dest_buffer = destination;
  dest_offset = dst_offset;
  num_bytes = size;
}

module _ (source destination : Buffer) (src_offset dst_offset size : ℕ) where
  abbrev src : ℕ
  src = source.base + src_offset

  abbrev dest : ℕ
  dest = destination.base + dst_offset

  abbrev Holds : Enqueued BufferCopy → Type 0
  Holds (rejected code) = Unit
  Holds (queued c) = c ≡ copy source destination src_offset dst_offset size

  enqueue_copy_into-Holds : Holds (enqueue_copy_into source destination src_offset dst_offset size)
  unfolding enqueue_copy_into
  enqueue_copy_into-Holds =
      elim (Bool-cases (
        size == 0
        || (ltb source.host_size (end_of src_offset size)
            || ltb destination.host_size (end_of dst_offset size)))) [
              | inl p ↦ rw p tt
              | inr p ↦
                  elim (Bool-cases (same_memory source destination && overlaps src dest size)) [
                    | inl q ↦ rw (p, q) tt
                    | inr q ↦ rw (p, q) refl
                  ]
            ]

  -- After an accepted copy each byte of the destination's range is the one that the source's
  -- had.
  pub copied :
      (c : BufferCopy) (mem : Memory) (i : ℕ)
      → enqueue_copy_into source destination src_offset dst_offset size ≡ queued c
      → i < size
      → run_copy c mem (destination.base + dst_offset + i) ≡ mem (source.base + src_offset + i)
  unfolding run_copy
  copied c mem i h inside_size =
      let is : Holds (queued c) = rw h at enqueue_copy_into-Holds in
      rw is (elim (Bool-cases (dest == src)) [
        | inl q ↦ rw q (ap (λ n. mem (n + i)) ((==_iff dest src).0 q))
        | inr q ↦ rw q (move-inside dest src size i mem inside_size)
      ])

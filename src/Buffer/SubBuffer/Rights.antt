-- ===== src/Buffer/SubBuffer/Rights.antt =====
-- What a sub-buffer may do, and where it lies.
use vc4cl.Prelude.{
  ℕ, ◌%◌, ◌≤◌, ◌<◌, ◌==◌, ltb, ◌≡◌, inl, inr, Bool, true, false, ◌&&◌, ◌||◌, not, if◌then◌else◌,
  none, some, arith, Bool-cases, Option-cases, ltb→ge,
}
use mathlib.Core.Path.{subst}
use vc4cl.Prelude.Int.{ℤ}
use vc4cl.Buffer.{rejected, queued, end_of}
use vc4cl.Buffer.SubBuffer.{
  MemObject, BufferRegion, has_flag, flags_error, region_error, is_set, sub_buffer, first_error,
  create_sub_buffer, buffer_alignment, cl_mem_read_write, cl_mem_write_only, cl_mem_read_only,
  cl_mem_host_write_only, cl_mem_host_read_only, cl_mem_host_no_access, cl_mem_alloc_host_ptr,
  cl_mem_use_host_ptr, cl_mem_copy_host_ptr,
}

pub record IsWithin (parent sub : MemObject) : Type 0 where
  pub reads : sub.readable ≡ true → parent.readable ≡ true
  pub writes : sub.writeable ≡ true → parent.writeable ≡ true
  pub host_reads : sub.host_readable ≡ true → parent.host_readable ≡ true
  pub host_writes : sub.host_writeable ≡ true → parent.host_writeable ≡ true
  pub not_empty : 0 < sub.host_size
  pub aligned : sub.sub_buffer_offset % buffer_alignment ≡ 0
  pub inside_host :
      is_set parent.host_ptr ≡ true → end_of sub.sub_buffer_offset sub.host_size ≤ parent.host_size

-- The rights, as a table of the flags: `wide` is the flag for both, `only` the one for this right, and
-- `other` the one for the other right.
right_kept :
    (parent wide only other : Bool)
    → (not parent && (wide || only)) ≡ false
    → (if wide || (only || other) then not other else parent) ≡ true
    → parent ≡ true
right_kept parent wide only other h g = ground (arith, h, g)

write_kept :
    (parent wide only other : Bool)
    → (not parent && (wide || only)) ≡ false
    → (if wide || (other || only) then not other else parent) ≡ true
    → parent ≡ true
write_kept parent wide only other h g = ground (arith, h, g)

host_read_kept :
    (parent only other no_access : Bool)
    → (not parent && only) ≡ false
    → (if only || (other || no_access) then not (other || no_access) else parent) ≡ true
    → parent ≡ true
host_read_kept parent only other no_access h g = ground (arith, h, g)

host_write_kept :
    (parent only other no_access : Bool)
    → (not parent && only) ≡ false
    → (if other || (only || no_access) then not (other || no_access) else parent) ≡ true
    → parent ≡ true
host_write_kept parent only other no_access h g = ground (arith, h, g)

abbrev FlagsFit : MemObject → ℕ → Type 0
FlagsFit parent flags =
    ((not parent.readable && (has_flag flags cl_mem_read_write || has_flag flags cl_mem_read_only))
      ≡ false)
    × ((not parent.writeable
          && (has_flag flags cl_mem_read_write || has_flag flags cl_mem_write_only))
        ≡ false)
    × ((not parent.host_readable && has_flag flags cl_mem_host_read_only) ≡ false)
    × ((not parent.host_writeable && has_flag flags cl_mem_host_write_only) ≡ false)

some_not {ℓ} : {A : Type ℓ} {B : Type 0} {a : A} → some a ≡ none → B
some_not h = absurd (ground (arith, h))

flags_error-FlagsFit :
    (parent : MemObject) (flags : ℕ) → flags_error parent flags ≡ none → FlagsFit parent flags
unfolding flags_error
flags_error-FlagsFit parent flags h =
    elim (Bool-cases (
      not parent.readable
      && (has_flag flags cl_mem_read_write || has_flag flags cl_mem_read_only))) [
        | inl p ↦ some_not (rw p at h)
        | inr p ↦
            elim (Bool-cases (
              not parent.writeable
              && (has_flag flags cl_mem_read_write || has_flag flags cl_mem_write_only))) [
                | inl q ↦ some_not (rw (p, q) at h)
                | inr q ↦
                    elim (Bool-cases (
                      has_flag flags cl_mem_alloc_host_ptr
                      || (has_flag flags cl_mem_use_host_ptr
                          || has_flag flags cl_mem_copy_host_ptr))) [
                            | inl r ↦ some_not (rw (p, q, r) at h)
                            | inr r ↦
                                elim (Bool-cases (
                                  not parent.host_readable
                                  && has_flag flags cl_mem_host_read_only)) [
                                    | inl s ↦ some_not (rw (p, q, r, s) at h)
                                    | inr s ↦
                                        elim (Bool-cases (
                                          not parent.host_writeable
                                          && has_flag flags cl_mem_host_write_only)) [
                                            | inl t ↦ some_not (rw (p, q, r, s, t) at h)
                                            | inr t ↦ (p, q, s, t)
                                          ]
                                  ]
                          ]
              ]
      ]

abbrev RegionFits : MemObject → BufferRegion → Type 0
RegionFits parent region =
    (0 < region.size)
    × (region.origin % buffer_alignment ≡ 0)
    × (is_set parent.host_ptr ≡ true → end_of region.origin region.size ≤ parent.host_size)

bound_of :
    (parent : MemObject) (region : BufferRegion)
    → (is_set parent.host_ptr && ltb parent.host_size (end_of region.origin region.size)) ≡ false
    → is_set parent.host_ptr ≡ true
    → end_of region.origin region.size ≤ parent.host_size
bound_of parent region h g = ltb→ge parent.host_size (end_of region.origin region.size) (rw g at h)

region_error-RegionFits :
    (parent : MemObject) (region : BufferRegion)
    → region_error parent region ≡ none
    → RegionFits parent region
unfolding region_error
region_error-RegionFits parent region h = elim (Bool-cases (region.size == 0)) [
  | inl p ↦ some_not (rw p at h)
  | inr p ↦
      elim (Bool-cases
        (is_set parent.host_ptr && ltb parent.host_size (end_of region.origin region.size))) [
          | inl q ↦ some_not (rw (p, q) at h)
          | inr q ↦ elim (Bool-cases (not (region.origin % buffer_alignment == 0))) [
            | inl r ↦ some_not (rw (p, q, r) at h)
            | inr r ↦ (ground (arith, p), ground (arith, r), λ s. bound_of parent region q s)
          ]
        ]
]

sub_buffer-IsWithin :
    (parent : MemObject) (flags : ℕ) (region : BufferRegion)
    → FlagsFit parent flags
    → RegionFits parent region
    → IsWithin parent (sub_buffer parent flags region)
unfolding sub_buffer
sub_buffer-IsWithin parent flags region f r = record {
  reads =
      right_kept parent.readable (has_flag flags cl_mem_read_write)
        (has_flag flags cl_mem_read_only) (has_flag flags cl_mem_write_only) f.0;
  writes =
      write_kept parent.writeable (has_flag flags cl_mem_read_write)
        (has_flag flags cl_mem_write_only) (has_flag flags cl_mem_read_only) f.1;
  host_reads =
      host_read_kept parent.host_readable (has_flag flags cl_mem_host_read_only)
        (has_flag flags cl_mem_host_write_only) (has_flag flags cl_mem_host_no_access) f.2;
  host_writes =
      host_write_kept parent.host_writeable (has_flag flags cl_mem_host_write_only)
        (has_flag flags cl_mem_host_read_only) (has_flag flags cl_mem_host_no_access) f.3;
  not_empty = r.0;
  aligned = r.1;
  inside_host = r.2;
}

queued_inj {ℓ} : {A : Type ℓ} {a b : A} → queued a ≡ queued b → a ≡ b
queued_inj h = cc

not_queued {ℓ} : {A : Type ℓ} {B : Type 0} {code : ℤ} {a : A} → rejected code ≡ queued a → B
not_queued h = absurd (ground (arith, h))

accepted_IsWithin :
    (parent : MemObject) (flags : ℕ) (region : BufferRegion) (sub : MemObject)
    → first_error
        (flags_error parent flags)
        (region_error parent region)
        (sub_buffer parent flags region)
      ≡ queued sub
    → IsWithin parent sub
accepted_IsWithin parent flags region sub h = elim (Option-cases (flags_error parent flags)) [
  | inl p ↦ elim (Option-cases (region_error parent region)) [
    | inl q ↦ subst (IsWithin parent) (queued_inj (rw (p, q) at h)) (
        sub_buffer-IsWithin parent flags region (flags_error-FlagsFit parent flags p)
          (region_error-RegionFits parent region q))
    | inr (code, q) ↦ not_queued (rw (p, q) at h)
  ]
  | inr (code, p) ↦ not_queued (rw p at h)
]

-- A sub-buffer that createSubBuffer makes has no right, for the device or for the host, that its
-- parent lacks, has a size above 0 and starts at a multiple of the alignment; where its parent has a
-- host pointer, it ends inside of the parent, the end being computed in 32 bits.
pub create_sub_buffer-IsWithin :
    (parent : MemObject) (flags : ℕ) (region : BufferRegion) (sub : MemObject)
    → create_sub_buffer parent flags (some region) ≡ queued sub
    → IsWithin parent sub
unfolding create_sub_buffer flags_error region_error sub_buffer
create_sub_buffer-IsWithin parent flags region sub h = elim (Bool-cases parent.is_sub_buffer) [
  | inl p ↦ not_queued (rw p at h)
  | inr p ↦ accepted_IsWithin parent flags region sub (rw p at h)
]

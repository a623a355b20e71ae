-- ===== src/Buffer/Create/Flags.antt =====
-- The flags of a buffer are those that it was created with.
use vc4cl.Prelude.{
  ℕ, zero, suc, ◌<◌, ◌==◌, ==_iff, ◌≡◌, refl, sym, ap, ◌∙◌, inl, inr, Bool, true, false, ◌&&◌, ◌||◌,
  not, Option, none, some, arith, Bool-cases, Option-cases,
}
use vc4cl.Buffer.{Memory, Enqueued, rejected, queued}
use vc4cl.Buffer.SubBuffer.{
  MemObject, has_flag, new_buffer, cl_mem_use_host_ptr, cl_mem_alloc_host_ptr, cl_mem_copy_host_ptr,
}
use vc4cl.Buffer.Create.{
  DeviceBuffer, Created, more_than_one_memory_access_flag_set, more_than_one_host_access_flag_set,
  with_default_access, create_error, set_pointer, set_copy, set_host_size, allocated, checked,
  create_buffer, get_mem_flags,
}

-- The flags are those of OpenCL 1.2: the bit 64 is not one of them.
abbrev pub known : ℕ → Bool
known flags = not (has_flag flags 64)

round_trip : ℕ → Bool
round_trip given =
    let flags : ℕ = with_default_access given in
    not (known given)
    || (more_than_one_memory_access_flag_set flags
        || (more_than_one_host_access_flag_set flags || get_mem_flags (new_buffer flags) == flags))

all_pass : (ℕ → Bool) → ℕ → Bool
all_pass test zero = true
all_pass test (suc n) = all_pass test n && test n

all_pass-below : (test : ℕ → Bool) (n x : ℕ) → x < n → all_pass test n ≡ true → test x ≡ true
unfolding all_pass
all_pass-below test zero x lt h = absurd (omega arith)
all_pass-below test (suc n) x lt h = ground (arith, all_pass-below test n x)

-- Over all flags.
table : all_pass round_trip 1024 ≡ true
unfolding all_pass round_trip with_default_access more_than_one_memory_access_flag_set
    more_than_one_host_access_flag_set get_mem_flags new_buffer has_flag
table = refl

-- The flags of an object depend on its rights and on the three host flags.
abbrev SameFlags : MemObject → MemObject → Type 0
SameFlags a b = get_mem_flags a ≡ get_mem_flags b

set_host_size-SameFlags :
    (device : DeviceBuffer) (b : MemObject) → SameFlags (set_host_size device b) b
unfolding get_mem_flags set_host_size
set_host_size-SameFlags device b = elim (Bool-cases (b.host_size == 0)) [
  | inl q ↦ rw q refl
  | inr q ↦ rw q refl
]

set_copy-SameFlags :
    (flags size : ℕ) (b : MemObject)
    → b.copy_host_ptr ≡ has_flag flags cl_mem_copy_host_ptr
    → SameFlags (set_copy flags size b) b
unfolding get_mem_flags set_copy
set_copy-SameFlags flags size b h = elim (Bool-cases (has_flag flags cl_mem_copy_host_ptr)) [
  | inl q ↦
      rw q
        (ap (λ c. get_mem_flags (record b { copy_host_ptr = c; host_size = size })) (sym (h ∙ q)))
  | inr q ↦ rw q refl
]

module _ (flags size : ℕ) (host_ptr : Option ℕ) (device : DeviceBuffer) (b : MemObject) where
  set_pointer-SameFlags :
      b.use_host_ptr ≡ has_flag flags cl_mem_use_host_ptr
      → b.alloc_host_ptr ≡ has_flag flags cl_mem_alloc_host_ptr
      → SameFlags (set_pointer flags size host_ptr device b) b
  unfolding get_mem_flags set_pointer
  set_pointer-SameFlags h g = elim (Bool-cases (has_flag flags cl_mem_use_host_ptr)) [
    | inl q ↦ rw q (
        ap
          (λ u.
            get_mem_flags (record b { use_host_ptr = u; host_ptr = host_ptr; host_size = size }))
          (sym (h ∙ q)))
    | inr q ↦ elim (Bool-cases (has_flag flags cl_mem_alloc_host_ptr)) [
      | inl r ↦
          rw (q, r)
            (ap
              (λ u. get_mem_flags (record b {
                alloc_host_ptr = u;
                host_ptr = some device.host_pointer;
                host_size = size;
              }))
              (sym (g ∙ r)))
      | inr r ↦ rw (q, r) refl
    ]
  ]

  set_pointer_copy : (set_pointer flags size host_ptr device b).copy_host_ptr ≡ b.copy_host_ptr
  unfolding set_pointer
  set_pointer_copy = elim (Bool-cases (has_flag flags cl_mem_use_host_ptr)) [
    | inl q ↦ rw q refl
    | inr q ↦ elim (Bool-cases (has_flag flags cl_mem_alloc_host_ptr)) [
      | inl r ↦ rw (q, r) refl
      | inr r ↦ rw (q, r) refl
    ]
  ]

-- What a created object satisfies.
abbrev Holds : ℕ → Enqueued Created → Type 0
Holds flags (rejected code) = Unit
Holds flags (queued c) =
    (more_than_one_memory_access_flag_set flags ≡ false)
    × (more_than_one_host_access_flag_set flags ≡ false)
    × SameFlags c.object (new_buffer flags)

allocated-SameFlags :
    (flags size : ℕ) (host_ptr : Option ℕ) (device : DeviceBuffer) (b : MemObject)
    → b ≡ record (new_buffer flags) { mem_handle = device.handle }
    → SameFlags
        (set_host_size device (set_copy flags size (set_pointer flags size host_ptr device b)))
        (new_buffer flags)
unfolding new_buffer
allocated-SameFlags flags size host_ptr device b e =
    set_host_size-SameFlags device _
    ∙ set_copy-SameFlags flags size (set_pointer flags size host_ptr device b)
        (set_pointer_copy flags size host_ptr device b ∙ ap (λ o. o.copy_host_ptr) e)
    ∙ set_pointer-SameFlags flags size host_ptr device b (ap (λ o. o.use_host_ptr) e)
        (ap (λ o. o.alloc_host_ptr) e)
    ∙ ap get_mem_flags e
    ∙ new_handle
  where
    new_handle :
        get_mem_flags (record (new_buffer flags) { mem_handle = device.handle })
        ≡ get_mem_flags (new_buffer flags)
    new_handle = unfold get_mem_flags in refl

checked-Holds :
    (flags size : ℕ) (host_ptr : Option ℕ) (total_memory : ℕ) (device : Option DeviceBuffer)
    (mem : Memory)
    → Holds flags (
        checked
          (create_error flags size host_ptr total_memory)
          (allocated flags size host_ptr device mem))
unfolding create_error
checked-Holds flags size host_ptr total_memory none mem =
    elim (Option-cases (create_error flags size host_ptr total_memory)) [
      | inl p ↦ rw p tt
      | inr (code, p) ↦ rw p tt
    ]
checked-Holds flags size host_ptr total_memory (some device) mem =
    elim (Bool-cases (more_than_one_memory_access_flag_set flags)) [
      | inl p ↦ rw p tt
      | inr p ↦ elim (Bool-cases (more_than_one_host_access_flag_set flags)) [
        | inl q ↦ rw (p, q) tt
        | inr q ↦ elim (Option-cases (create_error flags size host_ptr total_memory)) [
          | inl e ↦ rw e (p, q, allocated-SameFlags flags size host_ptr device _ refl)
          | inr (code, e) ↦ rw e tt
        ]
      ]
    ]

flags_back :
    (given : ℕ)
    → given < 1024
    → known given ≡ true
    → more_than_one_memory_access_flag_set (with_default_access given) ≡ false
    → more_than_one_host_access_flag_set (with_default_access given) ≡ false
    → get_mem_flags (new_buffer (with_default_access given)) ≡ with_default_access given
flags_back given small k one_access one_host =
    (==_iff _ _).0
      (last_test k one_access one_host (all_pass-below round_trip 1024 given small table))
  where
    last_test :
        known given ≡ true
        → more_than_one_memory_access_flag_set (with_default_access given) ≡ false
        → more_than_one_host_access_flag_set (with_default_access given) ≡ false
        → round_trip given ≡ true
        → (get_mem_flags (new_buffer (with_default_access given)) == with_default_access given)
          ≡ true
    last_test a b c d = unfold round_trip in (rw (a, b, c) at d)

-- The flags that getMemFlags gives for a buffer that clCreateBuffer has made are those that it was
-- given, if they are flags of OpenCL 1.2, and with CL_MEM_READ_WRITE where no access was given.
pub create_buffer-flags :
    (given size : ℕ) (host_ptr : Option ℕ) (total_memory : ℕ) (device : Option DeviceBuffer)
    (mem : Memory) (c : Created)
    → given < 1024
    → known given ≡ true
    → create_buffer given size host_ptr total_memory device mem ≡ queued c
    → get_mem_flags c.object ≡ with_default_access given
unfolding create_buffer
create_buffer-flags given size host_ptr total_memory device mem c small k made =
    let (one_access, one_host, same) : Holds (with_default_access given) (queued c) =
      rw made at
        (checked-Holds (with_default_access given) size host_ptr total_memory device mem) in
    same ∙ flags_back given small k one_access one_host

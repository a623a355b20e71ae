-- ===== src/KernelArgs/Tracked.antt =====
-- The bit set of the arguments that are set, and the test of it when the kernel is enqueued.
use vc4cl.Prelude.{
  ◌≢◌, ==_iff, ℕ, zero, suc, ◌-◌, ◌^◌, ◌≤◌, ◌<◌, ◌==◌, ◌≡◌, refl, sym, ap, ◌∙◌, ◌↔◌, inl, inr, Bool,
  true, false, if◌then◌else◌, List, [], ◌∷◌, length, get_elem?, set, replicate, Option, none, some,
  some_inj, arith, Bool-cases, All, length-set, length-replicate, two-pow-pos, two-pow-suc,
}
use vc4cl.Prelude.Codes.{
  cl_invalid_global_work_size, cl_invalid_global_offset, cl_invalid_work_group_size,
  cl_invalid_kernel_args,
}
use vc4cl.Prelude.Int.{ℤ}
use vc4cl.Binary.ParamHeader.{ParamHeader}
use vc4cl.WorkSizes.{
  Sizes, Result, failed, accepted, check_sizes, checked, after_guards, expected_mask, guarded,
  set_work_group_sizes,
}
use vc4cl.WorkSizes
use vc4cl.KernelArgs.{
  KernelArgument, Kernel, Surroundings, Parsed, invalid, parsed, new_kernel, to_ulong, parse_arg,
  store_arg, set_found, set_arg, max_parameter_count,
}

abbrev is_some : Option KernelArgument → Bool
is_some none = false
is_some (some a) = true

abbrev pub IsGiven : Option KernelArgument → Type 0
IsGiven a = is_some a ≡ true

-- The kernels that calls of setArg make of a new one.
pub data SetArgs (parameters : List ParamHeader) : Kernel → Type 0 where
  created : SetArgs parameters (new_kernel parameters)
  call :
      (env : Surroundings) (index size : ℕ) (value : Option (List ℕ)) (status : ℤ)
      {kernel next : Kernel}
      → SetArgs parameters kernel
      → set_arg env kernel index size value ≡ some (next, status)
      → SetArgs parameters next

-- The first `n` bits.
bits_of : ℕ → List (Option KernelArgument) → List Bool
bits_of zero args = []
bits_of (suc n) [] = false ∷ bits_of n []
bits_of (suc n) (a ∷ args) = is_some a ∷ bits_of n args

bits_of-none : (n k : ℕ) → bits_of n (replicate k none) ≡ replicate n false
unfolding bits_of
bits_of-none zero k = refl
bits_of-none (suc n) zero = ap (λ bits. false ∷ bits) (bits_of-none n zero)
bits_of-none (suc n) (suc k) = ap (λ bits. false ∷ bits) (bits_of-none n k)

bits_of-set :
    (n i : ℕ) (args : List (Option KernelArgument)) (a : KernelArgument)
    → i < length args
    → bits_of n (set args i (some a)) ≡ set (bits_of n args) i true
unfolding bits_of
bits_of-set zero i args a h = refl
bits_of-set (suc n) i [] a h = absurd (omega arith)
bits_of-set (suc n) zero (b ∷ args) a h = refl
bits_of-set (suc n) (suc i) (b ∷ args) a h =
    ap (λ bits. is_some b ∷ bits) (bits_of-set n i args a (omega arith))

record Tracks (parameters : List ParamHeader) (kernel : Kernel) : Type 0 where
  same : kernel.parameters ≡ parameters
  counted : length kernel.args ≡ length parameters
  mask : kernel.args_set_mask ≡ bits_of max_parameter_count kernel.args

new_kernel-Tracks : (parameters : List ParamHeader) → Tracks parameters (new_kernel parameters)
unfolding new_kernel
new_kernel-Tracks parameters = record {
  same = refl;
  counted = length-replicate (length parameters) none;
  mask = sym (bits_of-none max_parameter_count (length parameters));
}

get_elem?-lt {ℓ} :
    {A : Type ℓ} (xs : List A) (i : ℕ) (x : A) → get_elem? xs i ≡ some x → i < length xs
get_elem?-lt [] i x h = absurd (ground (arith, h))
get_elem?-lt (y ∷ xs) zero x h = omega arith
get_elem?-lt (y ∷ xs) (suc i) x h = omega (arith, get_elem?-lt xs i x h)

store_arg-Tracks :
    (parameters : List ParamHeader) (kernel : Kernel) (i : ℕ) (p : Option Parsed)
    (next : Kernel × ℤ)
    → i < length parameters
    → store_arg kernel i p ≡ some next
    → Tracks parameters kernel
    → Tracks parameters next.0
store_arg-Tracks parameters kernel i none next h e t = absurd (ground (arith, e))
store_arg-Tracks parameters kernel i (some (invalid code)) next h e t = rw (sym (some_inj e)) t
store_arg-Tracks parameters kernel i (some (parsed a)) next h e t = rw (sym (some_inj e)) (record {
  same = t.same;
  counted = length-set kernel.args i (some a) ∙ t.counted;
  mask =
      ap (λ bits. set bits i true) t.mask
      ∙ sym (bits_of-set max_parameter_count i kernel.args a (omega (arith, t.counted)));
})

set_found-Tracks :
    (parameters : List ParamHeader) (env : Surroundings) (kernel : Kernel) (i size : ℕ)
    (value : Option (List ℕ)) (p : Option ParamHeader) (next : Kernel × ℤ)
    → get_elem? kernel.parameters i ≡ p
    → set_found env kernel i size value p ≡ some next
    → Tracks parameters kernel
    → Tracks parameters next.0
unfolding set_found
set_found-Tracks parameters env kernel i size value none next found e t = rw (sym (some_inj e)) t
set_found-Tracks parameters env kernel i size value (some p) next found e t =
    store_arg-Tracks parameters kernel i (parse_arg env p size value) next
      (omega (arith, get_elem?-lt kernel.parameters i p found, ap (λ ps. length ps) t.same)) e t

SetArgs-Tracks :
    {parameters : List ParamHeader} {kernel : Kernel}
    → SetArgs parameters kernel
    → Tracks parameters kernel
unfolding set_arg
SetArgs-Tracks {parameters} created = new_kernel-Tracks parameters
SetArgs-Tracks {parameters} (call env index size value status {kernel} {next} before e) =
    set_found-Tracks parameters env kernel index size value (get_elem? kernel.parameters index)
      (next, status) refl e (SetArgs-Tracks before)

no_bits : (n : ℕ) → to_ulong (bits_of n []) ≡ 0
unfolding bits_of
no_bits zero = refl
no_bits (suc n) = omega (arith, no_bits n)

-- The bits make the greatest number of so many bits exactly where each of them is set.
bits_of-All :
    (n : ℕ) (args : List (Option KernelArgument))
    → length args ≤ n
    → (to_ulong (bits_of n args) ≡ 2 ^ length args - 1) ↔ All IsGiven args
unfolding bits_of
bits_of-All n [] h = ((λ e. tt), (λ a. no_bits n))
bits_of-All zero (a ∷ args) h = absurd (omega arith)
bits_of-All (suc n) (a ∷ args) h =
    let (to, from) = bits_of-All n args (omega arith) in
    let pos = two-pow-pos (length args) in
    let double = two-pow-suc (length args) in
    elim (Bool-cases (is_some a)) [
      | inl q ↦ (
        (λ e. (q, to (omega (arith, pos, double, rw q at e)))),
        (λ s. rw q (omega (arith, pos, double, from s.1))),
      )
      | inr q ↦ (
        (λ e. absurd (omega (arith, pos, double, rw q at e))),
        (λ s. absurd (ground (arith, q, s.0))),
      )
    ]

expected_mask-pow : (n : ℕ) → expected_mask n ≡ 2 ^ n - 1
expected_mask-pow n = elim (Bool-cases (n == 64)) [
  | inl q ↦ rw (q, (==_iff n 64).0 q) refl
  | inr q ↦ rw q refl
]

-- The kernel as setWorkGroupSizes sees it.
abbrev pub enqueued : Kernel → WorkSizes.Kernel → WorkSizes.Kernel
enqueued kernel k = record k {
  num_parameters = length kernel.parameters;
  args_set_mask = to_ulong kernel.args_set_mask;
}

module _ (k : WorkSizes.Kernel) (work_dim : ℕ) (next : Result) (built : 0 < k.num_kernels) where
  guarded_rest :
      (k.args_set_mask == expected_mask k.num_parameters) ≡ true
      → guarded k true work_dim next ≡ failed cl_invalid_kernel_args
      → next ≡ failed cl_invalid_kernel_args
  guarded_rest q e = ground (arith, q, e)

  guarded_mask :
      (k.args_set_mask == expected_mask k.num_parameters) ≡ false
      → guarded k true work_dim next ≡ failed cl_invalid_kernel_args
  guarded_mask q = ground (arith, q)

mask_complete :
    {parameters : List ParamHeader} {kernel : Kernel}
    → length parameters ≤ max_parameter_count
    → Tracks parameters kernel
    → (to_ulong kernel.args_set_mask ≡ expected_mask (length kernel.parameters))
      ↔ All IsGiven kernel.args
mask_complete {parameters} {kernel} few t =
    let (to, from) = bits_of-All max_parameter_count kernel.args (omega (arith, t.counted)) in
    let expected : expected_mask (length kernel.parameters) ≡ 2 ^ length kernel.args - 1 =
      expected_mask-pow (length kernel.parameters)
      ∙ ap (λ n. 2 ^ n - 1) (ap (λ ps. length ps) t.same ∙ sym t.counted) in
    let mask : to_ulong kernel.args_set_mask ≡ to_ulong (bits_of max_parameter_count kernel.args) =
      ap to_ulong t.mask in
    ((λ e. to (sym mask ∙ e ∙ expected)), (λ all. mask ∙ from all ∙ sym expected))

pub length-SetArgs :
    {parameters : List ParamHeader} {kernel : Kernel}
    → SetArgs parameters kernel
    → length kernel.args ≡ length kernel.parameters
length-SetArgs calls = let t = SetArgs-Tracks calls in t.counted ∙ ap (λ ps. length ps) (sym t.same)

pub SetArgs-IsGiven :
    {parameters : List ParamHeader} {kernel : Kernel}
    → SetArgs parameters kernel
    → length parameters ≤ max_parameter_count
    → to_ulong kernel.args_set_mask ≡ expected_mask (length kernel.parameters)
    → All IsGiven kernel.args
SetArgs-IsGiven calls few = (mask_complete few (SetArgs-Tracks calls)).0

-- No other test gives this code.
four_tests :
    (a b c d : Bool) (o g l : Sizes)
    → (if a
        then failed cl_invalid_global_work_size
        else if b
        then failed cl_invalid_global_offset
        else if c
        then failed cl_invalid_work_group_size
        else if d
        then failed cl_invalid_work_group_size
        else accepted o g l)
      ≢ failed cl_invalid_kernel_args
four_tests a b c d o g l h = ground (arith, h)

checked-other :
    (k : WorkSizes.Kernel) (offsets global : Sizes) (local : Option Sizes)
    → checked k offsets global local ≢ failed cl_invalid_kernel_args
unfolding check_sizes
checked-other k offsets global none h = ground (arith, h)
checked-other k offsets global (some local) h = four_tests _ _ _ _ offsets global local h

after_guards-other :
    (k : WorkSizes.Kernel) (work_dim : ℕ) (offsets global local : Option Sizes)
    → after_guards k work_dim offsets global local ≢ failed cl_invalid_kernel_args
after_guards-other k work_dim offsets none local h = ground (arith, h)
after_guards-other k work_dim offsets (some global) local h = checked-other k _ _ _ h

guarded-missing :
    (k : WorkSizes.Kernel) (work_dim : ℕ) (next : Result)
    → 0 < k.num_kernels
    → next ≢ failed cl_invalid_kernel_args
    → (guarded k true work_dim next ≡ failed cl_invalid_kernel_args)
      ↔ (k.args_set_mask ≢ expected_mask k.num_parameters)
guarded-missing k work_dim next built other =
    elim (Bool-cases (k.args_set_mask == expected_mask k.num_parameters)) [
      | inl q ↦ (
        (λ e. absurd (other (guarded_rest k work_dim next built q e))),
        (λ n. absurd (n ((==_iff k.args_set_mask (expected_mask k.num_parameters)).0 q))),
      )
      | inr q ↦ (
        (λ e same. cc (q, (==_iff k.args_set_mask (expected_mask k.num_parameters)).1 same)),
        (λ n. guarded_mask k work_dim next built q),
      )
    ]

-- For a kernel of a compiled program with at most 64 parameters, after any sequence of calls of
-- setArg: enqueueing it in its own context is refused for its arguments exactly where some
-- parameter has no argument, that is, where no call for it has succeeded.
pub missing_args_refused :
    {parameters : List ParamHeader} {kernel : Kernel} (k : WorkSizes.Kernel) (work_dim : ℕ)
    (offsets global local : Option Sizes)
    → SetArgs parameters kernel
    → length parameters ≤ max_parameter_count
    → 0 < k.num_kernels
    → (set_work_group_sizes (enqueued kernel k) true work_dim offsets global local
        ≡ failed cl_invalid_kernel_args)
      ↔ (¬ All IsGiven kernel.args)
unfolding set_work_group_sizes
missing_args_refused {parameters} {kernel} k work_dim offsets global local calls few built =
    let t : Tracks parameters kernel = SetArgs-Tracks calls in
    let (to, from) = mask_complete few t in
    let (missing, refused) =
      guarded-missing (enqueued kernel k) work_dim
        (after_guards (enqueued kernel k) work_dim offsets global local) built
        (after_guards-other (enqueued kernel k) work_dim offsets global local) in
    ((λ e all. missing e (from all)), (λ some_missing. refused (λ e. some_missing (to e))))

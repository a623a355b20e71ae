-- ===== src/Executor/Placed.antt =====
-- Where a list of words has a part, and the parts of executeKernel's buffer: the UNIFORMs of each QPU
-- and its launch messages.
use vc4cl.Prelude.{
  ℕ, zero, suc, ◌+◌, ◌*◌, ◌^◌, ◌<◌, ◌≡◌, refl, sym, ap, ◌∙◌, Bool, List, [], ◌∷◌, ◌++◌, length,
  get_elem?, length-append, some, some_inj, arith,
}
use mathlib.Core.List.{append_assoc}
use vc4cl.Binary.KernelHeader.{count_uniforms}
use vc4cl.WorkSizes.{Sizes}
use vc4cl.Executor.{Execution, concat, uniform_block, increment_index, local_indices, first_group}
use vc4cl.Executor.Layout.{uniform_block-counted}
use vc4cl.Executor.Content.{
  Setup, as_gpu_address, halves, stack_frames, build_uniforms, launch_messages,
}

-- The words have the part from their word `q` on.
pub record StandsAt (q : ℕ) (part words : List ℕ) : Type 0 where
  pub before : List ℕ
  pub behind : List ℕ
  pub parts : before ++ (part ++ behind) ≡ words
  pub place : length before ≡ q

pub StandsAt-here : (part more : List ℕ) → StandsAt 0 part (part ++ more)
StandsAt-here part more = record { before = []; behind = more; parts = refl; place = refl }

-- Further back, where other words come first.
pub StandsAt-later :
    {q : ℕ} {part words : List ℕ} (n : ℕ) (first : List ℕ)
    → length first ≡ n
    → StandsAt q part words
    → StandsAt (n + q) part (first ++ words)
StandsAt-later {q} {part} {words} n first len s = record {
  before = first ++ s.before;
  behind = s.behind;
  parts = append_assoc first s.before (part ++ s.behind) ∙ ap (λ ws. first ++ ws) s.parts;
  place = length-append first s.before ∙ omega (arith, s.place, len);
}

-- At the same word, where other words follow.
pub StandsAt-followed :
    {q : ℕ} {part words : List ℕ} (more : List ℕ)
    → StandsAt q part words
    → StandsAt q part (words ++ more)
StandsAt-followed {q} {part} {words} more s = record {
  before = s.before;
  behind = s.behind ++ more;
  parts =
      ap (λ ws. s.before ++ ws) (sym (append_assoc part s.behind more))
      ∙ sym (append_assoc s.before (part ++ s.behind) more)
      ∙ ap (λ ws. ws ++ more) s.parts;
  place = s.place;
}

pub StandsAt-same :
    {q q' : ℕ} {part part' words : List ℕ}
    → q ≡ q'
    → part ≡ part'
    → StandsAt q part words
    → StandsAt q' part' words
StandsAt-same {q} {q'} {part} {part'} {words} there same s = record {
  before = s.before;
  behind = s.behind;
  parts = ap (λ ws. s.before ++ (ws ++ s.behind)) (sym same) ∙ s.parts;
  place = s.place ∙ there;
}

pub length-halves : (ws : List ℕ) → length (halves ws) ≡ 2 * length ws
unfolding halves
length-halves [] = refl
length-halves (w ∷ ws) = omega (arith, length-halves ws)

pub length-stack_frames :
    (initialize : Bool) (before : ℕ → ℕ) (p n : ℕ) → length (stack_frames initialize before p n) ≡ n
unfolding stack_frames
length-stack_frames initialize before p zero = refl
length-stack_frames initialize before p (suc n) =
    ap suc (length-stack_frames initialize before (suc p) n)

pub length-launch_messages :
    (s : Setup) (per_qpu code n p : ℕ) → length (launch_messages s per_qpu code n p) ≡ 2 * n
unfolding launch_messages
length-launch_messages s per_qpu code zero p = refl
length-launch_messages s per_qpu code (suc n) p =
    omega (arith, length-launch_messages s per_qpu code n (p + per_qpu))

-- The words of one block.
abbrev pub block_length : Execution → ℕ
block_length args = count_uniforms args.uniforms_used + length (concat args.arguments)

module _ (s : Setup) (args : Execution) (flags : args.uniforms_used < 2 ^ 17) where
  abbrev pub block : Sizes → ℕ → List ℕ
  block local p = uniform_block args first_group local (as_gpu_address s 0) (as_gpu_address s p)

  length-block : (local : Sizes) (p : ℕ) → length (block local p) ≡ block_length args
  length-block local p =
      uniform_block-counted args first_group local (as_gpu_address s 0) (as_gpu_address s p) flags

  pub length-build_uniforms :
      (n p : ℕ) (local : Sizes) → length (build_uniforms s args n p local) ≡ n * block_length args
  unfolding build_uniforms
  length-build_uniforms zero p local = omega arith
  length-build_uniforms (suc n) p local =
      let next = (increment_index local args.local_sizes 1).0 in
      let q = p + length (block local p) in
      length-append (block local p) (build_uniforms s args n q next)
      ∙ omega (arith, length-block local p, length-build_uniforms n q next)

  pub block_at :
      (n i p : ℕ) (from local : Sizes)
      → get_elem? (local_indices n args.local_sizes from) i ≡ some local
      → StandsAt
          (i * block_length args)
          (block local (p + i * block_length args))
          (build_uniforms s args n p from)
  unfolding build_uniforms local_indices
  block_at zero i p from local h = absurd (ground (arith, h))
  block_at (suc n) zero p from local h =
      let start : p ≡ p + 0 * block_length args = omega arith in
      let same : from ≡ local = some_inj h in
      StandsAt-same (omega arith) (ap (λ l. block l p) same ∙ ap (block local) start) (
        StandsAt-here (block from p) (
          build_uniforms s args n (p + length (block from p))
            (increment_index from args.local_sizes 1).0))
  block_at (suc n) (suc i) p from local h =
      let k = block_length args in
      let next = (increment_index from args.local_sizes 1).0 in
      let q = p + length (block from p) in
      let start : q + i * k ≡ p + suc i * k = omega (arith, length-block from p) in
      StandsAt-same (omega arith) (ap (block local) start)
        (StandsAt-later k (block from p) (length-block from p) (block_at n i q next local h))

pub message_at :
    (s : Setup) (per_qpu code n i p : ℕ)
    → i < n
    → StandsAt
        (2 * i)
        (as_gpu_address s (p + i * per_qpu) ∷ as_gpu_address s code ∷ [])
        (launch_messages s per_qpu code n p)
unfolding launch_messages
message_at s per_qpu code zero i p h = absurd (omega (arith, h))
message_at s per_qpu code (suc n) zero p h =
    let start : p ≡ p + 0 * per_qpu = omega arith in
    StandsAt-same (omega arith) (ap (λ q. as_gpu_address s q ∷ as_gpu_address s code ∷ []) start) (
      StandsAt-here (as_gpu_address s p ∷ as_gpu_address s code ∷ [])
        (launch_messages s per_qpu code n (p + per_qpu)))
message_at s per_qpu code (suc n) (suc i) p h =
    let start : p + per_qpu + i * per_qpu ≡ p + suc i * per_qpu = omega arith in
    StandsAt-same (omega arith) (ap (λ q. as_gpu_address s q ∷ as_gpu_address s code ∷ []) start) (
      StandsAt-later 2 (as_gpu_address s p ∷ as_gpu_address s code ∷ []) refl
        (message_at s per_qpu code n i (p + per_qpu) (omega (arith, h))))

pub index_in_range :
    (n i : ℕ) (limits from local : Sizes)
    → get_elem? (local_indices n limits from) i ≡ some local
    → i < n
unfolding local_indices
index_in_range zero i limits from local h = absurd (ground (arith, h))
index_in_range (suc n) zero limits from local h = omega arith
index_in_range (suc n) (suc i) limits from local h =
    let later = index_in_range n i limits (increment_index from limits 1).0 local h in
    omega (arith, later)

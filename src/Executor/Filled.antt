-- ===== src/Executor/Filled.antt =====
-- Where the parts of the buffer of an execution stand (executeKernel), and that they fit it.
use vc4cl.Prelude.{
  ℕ, ◌+◌, ◌*◌, ◌/◌, ◌%◌, ◌^◌, ◌≤◌, ◌<◌, ◌≡◌, refl, ap, ◌∙◌, List, [], ◌∷◌, ◌++◌, length, get_elem?,
  length-append, some, arith,
}
use native.Mathlib.Nat.{mul-le-mul_left, mod-le}
use vc4cl.Binary.KernelHeader.{count_uniforms, explicit_uniforms}
use vc4cl.WorkSizes.{Sizes}
use vc4cl.Executor.{
  page_alignment, max_hidden_parameters, raw_size, get_size, Execution, concat, uniform_block,
  num_qpus_used, local_indices, first_group,
}
use vc4cl.Executor.Content.{
  Setup, as_gpu_address, halves, stack_frames, stack_words, build_uniforms, uniforms_per_qpu,
  launch_messages, code_start, uniforms_start, content, buffer_size,
}
use vc4cl.Executor.Placed.{
  StandsAt, StandsAt-here, StandsAt-later, StandsAt-followed, StandsAt-same, length-halves,
  length-stack_frames, length-launch_messages, block_length, length-build_uniforms, block, block_at,
  message_at, index_in_range,
}

in_pages :
    (raw : ℕ)
    → raw + page_alignment < 2 ^ 32
    → raw ≤ (raw % 2 ^ 32 / page_alignment + 1) * page_alignment % 2 ^ 32
in_pages raw h = omega (arith, h)

raw-get_size :
    (num_qpus code_size num_uniforms global_data_size stack_frame_words : ℕ)
    → raw_size num_qpus code_size num_uniforms global_data_size stack_frame_words + page_alignment
      < 2 ^ 32
    → raw_size num_qpus code_size num_uniforms global_data_size stack_frame_words
      ≤ get_size num_qpus code_size num_uniforms global_data_size stack_frame_words
unfolding get_size
raw-get_size num_qpus code_size num_uniforms global_data_size stack_frame_words room =
    in_pages (raw_size num_qpus code_size num_uniforms global_data_size stack_frame_words) room

length-content :
    (s : Setup) (args : Execution) (before : ℕ → ℕ)
    → args.uniforms_used < 2 ^ 17
    → length (content s args before)
      ≡ 2 * length s.global_data
        + (stack_words s
            + (2 * length s.code
                + (num_qpus_used args * block_length args
                    + (num_qpus_used args * block_length args
                        + (2 * num_qpus_used args + 2 * num_qpus_used args)))))
unfolding content
length-content s args before flags = simp (
  length-append,
  length-halves,
  length-stack_frames,
  length-launch_messages,
  length-build_uniforms s args flags,
)

stack_words_le : (s : Setup) → 4 * stack_words s ≤ s.num_qpus * s.stack_frame_size * 8
stack_words_le s =
    let wrapped = mul-le-mul_left s.num_qpus (mod-le (s.stack_frame_size * 8) (2 ^ 32)) in
    omega (arith, wrapped)

-- What executeKernel writes, all of it, fits the buffer that it allocates, where only the 17 flags of
-- KernelUniforms are set and at most 14 of them, the arguments are no more words than
-- getExplicitUniformCount, no more QPUs are used than the system has, and the size with a page stays
-- below 2 ^ 32.
pub content_fits :
    (s : Setup) (args : Execution) (before : ℕ → ℕ)
    → args.uniforms_used < 2 ^ 17
    → count_uniforms args.uniforms_used ≤ max_hidden_parameters
    → length (concat args.arguments) ≤ explicit_uniforms s.parameters
    → num_qpus_used args ≤ s.num_qpus
    → raw_size s.num_qpus
          (length s.code * 8)
          (num_qpus_used args * (max_hidden_parameters + explicit_uniforms s.parameters))
          (length s.global_data * 8)
          s.stack_frame_size
        + page_alignment
      < 2 ^ 32
    → 4 * length (content s args before) ≤ buffer_size s args
content_fits s args before flags hidden explicit qpus room =
    let u = num_qpus_used args in
    let wide : block_length args ≤ max_hidden_parameters + explicit_uniforms s.parameters =
      omega (arith, hidden, explicit) in
    omega (
      arith,
      qpus,
      length-content s args before flags,
      mul-le-mul_left u wide,
      stack_words_le s,
      raw-get_size s.num_qpus (length s.code * 8)
          (u * (max_hidden_parameters + explicit_uniforms s.parameters)) (length s.global_data * 8)
          s.stack_frame_size room,
    )

-- The word at which the UNIFORMs of the QPU `i` begin in the first copy, and in the second.
abbrev pub block_start : Setup → Execution → ℕ → ℕ
block_start s args i = uniforms_start s + i * uniforms_per_qpu s args

abbrev pub copy_start : Setup → Execution → ℕ → ℕ
copy_start s args i = block_start s args i + num_qpus_used args * uniforms_per_qpu s args

-- The word at which the launch messages begin.
abbrev pub messages_start : Setup → Execution → ℕ
messages_start s args = uniforms_start s + 2 * (num_qpus_used args * uniforms_per_qpu s args)

-- Where the words of the buffer have the code, and what belongs to the QPU `i`.
pub record Located (s : Setup) (args : Execution) (words : List ℕ) (i : ℕ) (local : Sizes)
    : Type 0 where
  pub code : StandsAt (code_start s) (halves s.code) words
  pub first_block :
      StandsAt
        (block_start s args i)
        (uniform_block args first_group local
          (as_gpu_address s 0)
          (as_gpu_address s (block_start s args i)))
        words
  pub second_block :
      StandsAt
        (copy_start s args i)
        (uniform_block args first_group local
          (as_gpu_address s 0)
          (as_gpu_address s (block_start s args i)))
        words
  pub first_message :
      StandsAt
        (messages_start s args + 2 * i)
        (as_gpu_address s (block_start s args i) ∷ as_gpu_address s (code_start s) ∷ [])
        words
  pub second_message :
      StandsAt
        (messages_start s args + 2 * num_qpus_used args + 2 * i)
        (as_gpu_address s (copy_start s args i) ∷ as_gpu_address s (code_start s) ∷ [])
        words

module _ (s : Setup) (args : Execution) (before : ℕ → ℕ) where
  abbrev used : ℕ
  used = num_qpus_used args

  abbrev uniforms : List ℕ
  uniforms = build_uniforms s args used (uniforms_start s) first_group

  abbrev messages : ℕ → List ℕ
  messages p = launch_messages s (uniforms_per_qpu s args) (code_start s) used p

  -- What stands in the words behind the code.
  behind_code :
      {q : ℕ} {part : List ℕ}
      → StandsAt q part (
          uniforms
          ++ (uniforms
              ++ (messages (uniforms_start s) ++ messages (uniforms_start s + length uniforms))))
      → StandsAt (uniforms_start s + q) part (content s args before)
  unfolding content
  behind_code at =
      let given = halves s.global_data in
      let frames = stack_frames s.initialize_memory before (length given) (stack_words s) in
      StandsAt-same (omega arith) refl (
        StandsAt-later (length given) given refl (
          StandsAt-later (stack_words s) frames
            (length-stack_frames s.initialize_memory before (length given) (stack_words s))
            (StandsAt-later (length (halves s.code)) (halves s.code) refl at)))

  code_at : StandsAt (code_start s) (halves s.code) (content s args before)
  unfolding content
  code_at =
      let given = halves s.global_data in
      let frames = stack_frames s.initialize_memory before (length given) (stack_words s) in
      StandsAt-same (omega arith) refl (
        StandsAt-later (length given) given refl (
          StandsAt-later (stack_words s) frames
            (length-stack_frames s.initialize_memory before (length given) (stack_words s))
            (StandsAt-here (halves s.code) _)))

-- Where only the 17 flags of KernelUniforms are set and the arguments are as many words as
-- getExplicitUniformCount: the code stands at its place, the UNIFORMs of each QPU stand in both
-- copies, and in both sets of launch messages that QPU has the addresses of its UNIFORMs and of the
-- code.
pub launch_messages-Located :
    (s : Setup) (args : Execution) (before : ℕ → ℕ) (i : ℕ) (local : Sizes)
    → args.uniforms_used < 2 ^ 17
    → length (concat args.arguments) ≡ explicit_uniforms s.parameters
    → get_elem? (local_indices (num_qpus_used args) args.local_sizes first_group) i ≡ some local
    → Located s args (content s args before) i local
launch_messages-Located s args before i local flags explicit h =
    let k = uniforms_per_qpu s args in
    let u = num_qpus_used args in
    let p = uniforms_start s in
    let per : block_length args ≡ k = ap (λ n. count_uniforms args.uniforms_used + n) explicit in
    let total : length (uniforms s args before) ≡ u * k =
      length-build_uniforms s args flags u p first_group ∙ ap (λ n. u * n) per in
    let in_block =
      StandsAt-same (ap (λ n. i * n) per) (ap (λ n. block s args flags local (p + i * n)) per)
        (block_at s args flags u i p first_group local h) in
    let below = index_in_range u i args.local_sizes first_group local h in
    let messages_length = length-launch_messages s k (code_start s) u p in
    record {
      code = code_at s args before;
      first_block = behind_code s args before (StandsAt-followed _ in_block);
      second_block = StandsAt-same (omega arith) refl (
          behind_code s args before
            (StandsAt-later (u * k) _ total (StandsAt-followed _ in_block)));
      first_message = StandsAt-same (omega arith) refl (
          behind_code s args before (
            StandsAt-later (u * k) _ total (
              StandsAt-later (u * k) _ total
                (StandsAt-followed _ (message_at s k (code_start s) u i p below)))));
      second_message =
          StandsAt-same (omega arith)
            (ap (λ q. as_gpu_address s q ∷ as_gpu_address s (code_start s) ∷ [])
              (omega (arith, total)))
            (behind_code s args before (
              StandsAt-later (u * k) _ total (
                StandsAt-later (u * k) _ total (
                  StandsAt-later (2 * u) _ messages_length (
                    message_at s k (code_start s) u i (p + length (uniforms s args before))
                      below)))));
    }

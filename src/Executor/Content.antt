-- ===== src/Executor/Content.antt =====
-- executor.cpp: what executeKernel writes into the buffer of an execution, one part behind the
-- other. The buffer is counted in words of 4 bytes.
use vc4cl.Prelude.{
  ℕ, zero, suc, ◌+◌, ◌*◌, ◌/◌, ◌%◌, ◌^◌, Bool, if◌then◌else◌, List, [], ◌∷◌, ◌++◌, length,
}
use vc4cl.Binary.ParamHeader.{ParamHeader}
use vc4cl.Binary.KernelHeader.{count_uniforms, explicit_uniforms}
use vc4cl.WorkSizes.{Sizes}
use vc4cl.Executor.{
  max_hidden_parameters, get_size, Execution, uniform_block, increment_index, num_qpus_used,
  first_group,
}

-- What the system, the program and the kernel give.
pub record Setup : Type 0 where
  pub num_qpus : ℕ  -- of the system
  pub global_data : List ℕ  -- in words of 8 bytes
  pub stack_frame_size : ℕ  -- in words of 8 bytes
  pub initialize_memory : Bool  -- CL_CONTEXT_MEMORY_INITIALIZE_PRIVATE_KHR
  pub code : List ℕ  -- the kernel's instructions, of 8 bytes each
  pub parameters : List ParamHeader
  pub qpu_pointer : ℕ  -- of the buffer

-- AS_GPU_ADDRESS of a word of the buffer.
abbrev pub as_gpu_address : Setup → ℕ → ℕ
as_gpu_address s word = (s.qpu_pointer + 4 * word) % 2 ^ 32

-- The bytes of words of 8 bytes, as words of 4 bytes.
unfoldable pub halves : List ℕ → List ℕ
halves [] = []
halves (w ∷ ws) = w % 2 ^ 32 ∷ w / 2 ^ 32 ∷ halves ws

-- The stack frames: zeros, or what the buffer has there before.
unfoldable pub stack_frames : Bool → (ℕ → ℕ) → ℕ → ℕ → List ℕ
stack_frames initialize before p zero = []
stack_frames initialize before p (suc n) =
    (if initialize then 0 else before p) ∷ stack_frames initialize before (suc p) n

abbrev pub stack_words : Setup → ℕ
stack_words s = s.num_qpus * (s.stack_frame_size * 8 % 2 ^ 32) % 2 ^ 32 / 4

-- `Build Uniforms`: the blocks of so many QPUs, from the word `p` and the local indices on.
unfoldable pub build_uniforms : Setup → Execution → ℕ → ℕ → Sizes → List ℕ
build_uniforms s args zero p local = []
build_uniforms s args (suc n) p local =
    let block : List ℕ =
      uniform_block args first_group local (as_gpu_address s 0) (as_gpu_address s p) in
    block ++ build_uniforms s args n (p + length block) (increment_index local args.local_sizes 1).0

-- uniformPointers[0], the word at which each block begins.
unfoldable pub uniform_pointers : Setup → Execution → ℕ → ℕ → Sizes → List ℕ
uniform_pointers s args zero p local = []
uniform_pointers s args (suc n) p local =
    let block : List ℕ =
      uniform_block args first_group local (as_gpu_address s 0) (as_gpu_address s p) in
    p ∷ uniform_pointers s args n (p + length block) (increment_index local args.local_sizes 1).0

abbrev pub uniforms_per_qpu : Setup → Execution → ℕ
uniforms_per_qpu s args = count_uniforms args.uniforms_used + explicit_uniforms s.parameters

-- `Build QPU Launch messages`: for each of so many QPUs where its UNIFORMs and the code are.
unfoldable pub launch_messages : Setup → ℕ → ℕ → ℕ → ℕ → List ℕ
launch_messages s per_qpu code zero uniforms = []
launch_messages s per_qpu code (suc n) uniforms =
    as_gpu_address s uniforms
    ∷ as_gpu_address s code
    ∷ launch_messages s per_qpu code n (uniforms + per_qpu)

-- The word at which the code, and the first block of UNIFORMs, begins.
abbrev pub code_start : Setup → ℕ
code_start s = length (halves s.global_data) + stack_words s

abbrev pub uniforms_start : Setup → ℕ
uniforms_start s = code_start s + length (halves s.code)

-- All words, from the first of the buffer on.
unfoldable pub content : Setup → Execution → (ℕ → ℕ) → List ℕ
content s args before =
    let used : ℕ = num_qpus_used args in
    let p : ℕ = uniforms_start s in
    let uniforms : List ℕ = build_uniforms s args used p first_group in
    let per_qpu : ℕ = uniforms_per_qpu s args in
    halves s.global_data
    ++ (stack_frames s.initialize_memory before (length (halves s.global_data)) (stack_words s)
        ++ (halves s.code
            ++ (uniforms
                ++ (uniforms
                    ++ (launch_messages s per_qpu (code_start s) used p
                        ++ launch_messages s per_qpu (code_start s) used (p + length uniforms))))))

-- The size of the buffer.
abbrev pub buffer_size : Setup → Execution → ℕ
buffer_size s args =
    get_size s.num_qpus (length s.code * 8)
      (num_qpus_used args * (max_hidden_parameters + explicit_uniforms s.parameters))
      (length s.global_data * 8) s.stack_frame_size

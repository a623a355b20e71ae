-- ===== src/Program/Build/Reloaded.antt =====
-- clCreateProgramWithBinary with the machine code of a program that was built.
use vc4cl.Prelude.{
  ℕ, ◌/◌, ◌%◌, ◌^◌, ◌<◌, ◌==◌, ==_iff, ◌≡◌, refl, ap, ap₂, ◌∙◌, inl, inr, true, false,
  if◌then◌else◌, List, [], ◌∷◌, ◌++◌, length, take, drop, get_elem?, Option, some, All, arith,
  Bool-cases, some_inj,
}
use vc4cl.Prelude.Codes.{cl_success, cl_build_success}
use vc4cl.Binary.Bytes.{
  word_of_bytes, bytes_of_word, bytes_of_words, fill_words, length-bytes_of_words,
}
use vc4cl.Binary.ModuleHeader.{
  ModuleHeader, qpuasm_magic_number, get_global_data_offset, get_global_data_size,
}
use vc4cl.Program.{
  Program, binary, no_build, is_empty, get_build_status, returned, copy_global_data,
  extract_module_info,
}
use vc4cl.Program.Build.{Compiler, is_library, link, extract_kernels}
use vc4cl.Program.Build.Inner.{Notified, finished, notify, finish, needs_compilation, build_inner}
use vc4cl.Program.Build.Calls.{new_program, loaded, load, create_program_with_binary}
use vc4cl.Program.Build.Executable.{
  IsExecutable, HasMagic, has_segment, some_code, build_inner-IsBuilt,
}

-- A word of 64 bits.
abbrev pub IsWord : ℕ → Type 0
IsWord w = w < 2 ^ 64

first_word : (w : ℕ) (rest : List ℕ) → IsWord w → word_of_bytes 8 (bytes_of_word 8 w ++ rest) ≡ w
unfolding word_of_bytes bytes_of_word
first_word w rest h = omega arith

first_half : (w : ℕ) (rest : List ℕ) → word_of_bytes 4 (bytes_of_word 8 w ++ rest) ≡ w % 2 ^ 32
unfolding word_of_bytes bytes_of_word
first_half w rest = omega arith

next_words : (w : ℕ) (rest : List ℕ) → drop 8 (bytes_of_word 8 w ++ rest) ≡ rest
unfolding bytes_of_word
next_words w rest = refl

fill_words-bytes_of_words :
    (words : List ℕ) → All IsWord words → fill_words (length words) (bytes_of_words words) ≡ words
unfolding fill_words bytes_of_words
fill_words-bytes_of_words [] h = refl
fill_words-bytes_of_words (w ∷ words) h = ap₂ ◌∷◌ (first_word w (bytes_of_words words) h.0) (
    ap (fill_words (length words)) (next_words w (bytes_of_words words))
    ∙ fill_words-bytes_of_words words h.1)

-- The program that is made of the words.
abbrev pub reloaded : List ℕ → Program
reloaded words = record {
  source_code = [];
  intermediate_code = [];
  binary_code = words;
  global_data = [];
  creation_type = binary;
  build_info = no_build;
  module_info = record { value = 0; kernels = [] };
}

starts_with_magic :
    (word : ℕ) (words : List ℕ)
    → get_elem? words 0 ≡ some word
    → (word % 2 ^ 32 == qpuasm_magic_number) ≡ true
    → (word_of_bytes 4 (bytes_of_words words) == qpuasm_magic_number) ≡ true
unfolding bytes_of_words
starts_with_magic word [] h magic = absurd (ground (arith, h))
starts_with_magic word (w ∷ words) h magic =
    ap (λ n. n == qpuasm_magic_number)
      (first_half w (bytes_of_words words) ∙ ap (λ n. n % 2 ^ 32) (some_inj h))
    ∙ magic

load-words :
    (word : ℕ) (words : List ℕ)
    → All IsWord words
    → get_elem? words 0 ≡ some word
    → (word % 2 ^ 32 == qpuasm_magic_number) ≡ true
    → load (bytes_of_words words) ≡ loaded (reloaded words)
unfolding new_program
load-words word words all h magic =
    rw (starts_with_magic word words h magic, whole)
      (ap (λ code. loaded (reloaded code)) (fill_words-bytes_of_words words all))
  where
    whole : length (bytes_of_words words) / 8 ≡ length words
    whole = omega (arith, length-bytes_of_words words)

-- The global data of the module in the code.
abbrev pub segment_of : ModuleHeader → List ℕ → List ℕ
segment_of header code =
    let size : ℕ = get_global_data_size header.value in
    if size == 0 then [] else take size (drop (get_global_data_offset header.value) code)

copy_global_data-segment :
    (p : Program)
    → p.global_data ≡ []
    → has_segment p.module_info p.binary_code ≡ true
    → copy_global_data p
      ≡ returned (record p { global_data = segment_of p.module_info p.binary_code }) cl_success
copy_global_data-segment p none_before h =
    elim (Bool-cases (get_global_data_size p.module_info.value == 0)) [
      | inl q ↦ rw (q, ← none_before) refl
      | inr q ↦ rw (q, none_before, rw q at h) refl
    ]

-- The reloaded program after a build.
abbrev pub rebuilt : Program → Program
rebuilt q = record (reloaded q.binary_code) {
  module_info = q.module_info;
  global_data = segment_of q.module_info q.binary_code;
  build_info = record { status = cl_build_success; options = []; log = [] };
}

extract_module_info-reloaded :
    (q : Program)
    → IsExecutable q
    → extract_module_info (reloaded q.binary_code)
      ≡ returned
          (record (reloaded q.binary_code) {
            module_info = q.module_info;
            global_data = segment_of q.module_info q.binary_code;
          })
          cl_success
unfolding extract_module_info
extract_module_info-reloaded q v =
    let (word, first, magic) = v.magic in
    rw (first, magic, v.module_read, v.some_kernel)
      (copy_global_data-segment (record (reloaded q.binary_code) { module_info = q.module_info })
        refl v.segment)

build_inner-reloaded :
    (c : Compiler) (options : List ℕ) (callback : Option ℕ) (q : Program)
    → IsExecutable q
    → build_inner c options callback (reloaded q.binary_code)
      ≡ finished (rebuilt q) cl_success (notify callback (rebuilt q))
unfolding build_inner needs_compilation get_build_status link extract_kernels finish
build_inner-reloaded c options callback q v =
    rw (some_code q.binary_code v.magic, extract_module_info-reloaded q v) refl

some_bytes :
    (words : List ℕ) → HasMagic (get_elem? words 0) → is_empty (bytes_of_words words) ≡ false
unfolding bytes_of_words bytes_of_word
some_bytes [] (word, e, _) = absurd (ground (arith, e))
some_bytes (w ∷ words) h = refl

-- The binary of a successfully built program that is no library, of words of 64 bits, is accepted by
-- clCreateProgramWithBinary, and a build of the new program, with any compiler and options, succeeds
-- without calling the compiler: it has the machine code and the module of the first program, and the
-- global data is that of the module alone.
pub reloaded_builds :
    (c again : Compiler) (options more_options : List ℕ) (callback : Option ℕ) (p q : Program)
    (calls : List Notified) (gpu : ℕ)
    → is_library p.creation_type ≡ false
    → build_inner c options callback p ≡ finished q cl_success calls
    → All IsWord q.binary_code
    → (r : Program) × (create_program_with_binary gpu 1
          (some gpu)
          (some (bytes_of_words q.binary_code))
        ≡ loaded r)
      × (build_inner again more_options callback r
          ≡ finished (rebuilt q) cl_success (notify callback (rebuilt q)))
unfolding create_program_with_binary
reloaded_builds c again options more_options callback p q calls gpu h e all =
    let v : IsExecutable q = (build_inner-IsBuilt c options callback p q calls h e).executable in
    let (word, first, magic) = v.magic in
    (
      reloaded q.binary_code,
      rw ((==_iff gpu gpu).1 refl, some_bytes q.binary_code v.magic)
          (load-words word q.binary_code all first magic),
      build_inner-reloaded again more_options callback q v,
    )

-- ===== src/Program/Build.antt =====
-- Program.cpp: Program::compile and Program::link over the compiler, which is another repository's.
pub mod Inner
pub mod Calls
pub mod Kept
pub mod Executable
pub mod Refused
pub mod Source
pub mod Reloaded
mod Examples
use vc4cl.Prelude.{
  ℕ, ◌==◌, Bool, true, false, ◌&&◌, not, if◌then◌else◌, List, [], ◌∷◌, ◌++◌, Option, none, some,
}
use vc4cl.Prelude.Int.{ℤ, pos, negsuc}
use vc4cl.Prelude.Codes.{
  cl_success, cl_compile_program_failure, cl_linker_not_available, cl_link_program_failure,
  cl_build_program_failure, cl_invalid_operation, cl_build_success,
}
use vc4cl.Program.{
  Program, CreationType, source, intermediate_language, library, binary, LogText,
  invalid_source_type, precompilation_error, link_error, compilation_error, logged, is_empty,
  Extraction, returned, undefined, extract_module_info,
}

-- vc4c::SourceType, as far as the code tells its values apart.
pub data SourceType : Type 0 where
  unknown qpuasm_bin qpuasm_hex compilable : SourceType

-- What a call of the compiler makes, or the text of the vc4c::CompilationError that it throws.
pub data Answer {ℓ} (A : Type ℓ) : Type ℓ where
  made : A → Answer A
  thrown : List ℕ → Answer A

-- The log that the call has written, `none` where it does not convert to multi-byte characters.
pub record Run {ℓ} (A : Type ℓ) : Type ℓ where
  pub log : Option (List ℕ)
  pub answer : Answer A

-- The functions of vc4c that the code calls, and the size of the VPM, from the system. The files
-- that the precompiler finds under /tmp are the first argument of `precompile`.
pub record Compiler : Type 0 where
  pub get_type : List ℕ → SourceType
  pub precompile : List (List ℕ × List ℕ) → List ℕ → List ℕ → Run (List ℕ)
  pub is_linker_available : List (List ℕ) → Bool
  pub link_source_code : List (List ℕ) → Bool → Run (List ℕ)
  pub compile : List ℕ → ℕ → List ℕ → Run (List ℕ)
  pub total_vpm_memory : ℕ

-- A program and the status code that its method returns.
abbrev pub Result : Type 0
Result = Program × ℤ

abbrev pub append_log : LogText → Program → Program
append_log text p = record p {
  build_info = record p.build_info { log = p.build_info.log ++ text ∷ [] };
}

abbrev pub set_options : List ℕ → Program → Program
set_options options p = record p { build_info = record p.build_info { options = options } }

abbrev pub set_status : ℤ → Program → Program
set_status status p = record p { build_info = record p.build_info { status = status } }

-- Its error is ignored by all its callers.
unfoldable pub extract_log : Option (List ℕ) → Program → Program
extract_log none p = p
extract_log (some text) p = append_log (logged text) p

-- The types that are refused by the precompiler and the compiler.
unfoldable pub is_refused : SourceType → Bool
is_refused compilable = false
is_refused unknown = true
is_refused qpuasm_bin = true
is_refused qpuasm_hex = true

-- "to avoid the warning about null character ignored"
unfoldable pub without_null : List ℕ → List ℕ
without_null [] = []
without_null (x ∷ []) = if x == 0 then [] else x ∷ []
without_null (x ∷ y ∷ xs) = x ∷ without_null (y ∷ xs)

abbrev pub include_tmp : List ℕ
include_tmp = 32 ∷ 45 ∷ 73 ∷ 32 ∷ 47 ∷ 116 ∷ 109 ∷ 112 ∷ 47 ∷ 32 ∷ []  -- " -I /tmp/ "

abbrev pub temp_header_files : List (List ℕ × Program) → List (List ℕ × List ℕ)
temp_header_files [] = []
temp_header_files ((name, header) ∷ rest) = (name, header.source_code) ∷ temp_header_files rest

unfoldable pub precompiled : Answer (List ℕ) → Program → Result
precompiled (made code) p = (record p { intermediate_code = code }, cl_success)
precompiled (thrown what) p = (append_log (precompilation_error what) p, cl_compile_program_failure)

unfoldable pub precompile_program : Compiler → List ℕ → List (List ℕ × Program) → Program → Result
precompile_program c options headers p =
    let code : List ℕ = without_null p.source_code in
    let files : List (List ℕ × List ℕ) = temp_header_files headers in
    let tmp : List ℕ = if is_empty files then [] else include_tmp in
    let run : Run (List ℕ) = c.precompile files (tmp ++ options) code in
    let (after, status) = precompiled run.answer (set_options options p) in
    if is_refused (c.get_type code)
    then (append_log (invalid_source_type code) p, cl_compile_program_failure)
    else (extract_log run.log after, status)

abbrev pub is_intermediate_language : CreationType → Bool
is_intermediate_language intermediate_language = true
is_intermediate_language source = false
is_intermediate_language library = false
is_intermediate_language binary = false

-- "if the program was already compiled, clear all results"
abbrev pub without_results : Program → Program
without_results p = record p {
  intermediate_code = [];
  binary_code = [];
  module_info = record p.module_info { kernels = [] };
}

unfoldable pub compile : Compiler → List ℕ → List (List ℕ × Program) → Program → Result
compile c options headers p =
    if is_intermediate_language p.creation_type
    then (set_status cl_build_success (set_options options p), cl_success)
    else if is_empty p.source_code
    then (p, cl_invalid_operation)
    else precompile_program c options headers (without_results p)

-- The modules with intermediate code, that of the program first; null programs are skipped.
unfoldable pub input_modules : List (Option Program) → List (List ℕ)
input_modules [] = []
input_modules (none ∷ programs) = input_modules programs
input_modules (some p ∷ programs) =
    let rest : List (List ℕ) = input_modules programs in
    if is_empty p.intermediate_code then rest else p.intermediate_code ∷ rest

unfoldable pub linked : Answer (List ℕ) → Program → Result
linked (made code) p = (record p { intermediate_code = code }, cl_success)
linked (thrown what) p = (append_log (link_error what) p, cl_link_program_failure)

unfoldable pub link_programs : Compiler → List (Option Program) → Bool → Program → Result
link_programs c programs include_standard_library p =
    let modules : List (List ℕ) = input_modules (some p ∷ programs) in
    let run : Run (List ℕ) = c.link_source_code modules include_standard_library in
    let (after, status) = linked run.answer p in
    if is_empty programs && not include_standard_library
    then (p, cl_success)
    else if not (c.is_linker_available modules)
    then (p, cl_linker_not_available)
    else (extract_log run.log after, status)

unfoldable pub compiled : Answer (List ℕ) → Program → Result
compiled (made code) p = (record p { binary_code = code }, cl_success)
compiled (thrown what) p = (append_log (compilation_error what) p, cl_build_program_failure)

-- The size that the compiler gives with its code is a whole number of words.
unfoldable pub compile_program : Compiler → List ℕ → Program → Result
compile_program c options p =
    let run : Run (List ℕ) = c.compile p.intermediate_code c.total_vpm_memory options in
    let (after, status) = compiled run.answer (set_options options p) in
    if is_refused (c.get_type p.intermediate_code)
    then (p, cl_build_program_failure)
    else (extract_log run.log after, status)

abbrev pub is_library : CreationType → Bool
is_library library = true
is_library source = false
is_library intermediate_language = false
is_library binary = false

abbrev pub succeeded : ℤ → Bool
succeeded (pos n) = n == 0
succeeded (negsuc n) = false

abbrev pub no_kernels : Program → Program
no_kernels p = record p { module_info = record p.module_info { kernels = [] } }

-- The step that makes machine code, where the program has none.
unfoldable pub link_code : Compiler → List ℕ → List (Option Program) → Program → Result
link_code c options programs p =
    let (whole, status) = link_programs c programs (is_intermediate_language p.creation_type) p in
    if succeeded status && not (is_library p.creation_type)
    then compile_program c options whole
    else (whole, status)

-- A library stays as intermediate code.
unfoldable pub extract_kernels : Result → Extraction
extract_kernels (p, status) =
    if succeeded status && not (is_library p.creation_type)
    then extract_module_info (no_kernels p)
    else returned p status

unfoldable pub link : Compiler → List ℕ → List (Option Program) → Program → Extraction
link c options programs p =
    if not (is_empty p.binary_code)
    then extract_kernels (p, cl_success)
    else if is_empty p.intermediate_code && is_empty programs
    then returned p cl_invalid_operation
    else extract_kernels (link_code c options programs p)

-- ===== src/Program.antt =====
-- Program.h and Program.cpp: the state of a program, and the reading of its compiled module.
pub mod Module
pub mod Build
mod Examples
use vc4cl.Prelude.{
  ℕ, ◌+◌, ◌%◌, ◌^◌, ◌==◌, leb, Bool, true, false, ◌&&◌, not, if◌then◌else◌, List, [], ◌∷◌, ◌++◌,
  length, take, drop, get_elem?, Option, none, some,
}
use vc4cl.Prelude.Int.{ℤ}
use vc4cl.Prelude.Codes.{cl_success, cl_build_none, cl_invalid_binary, cl_invalid_program}
use vc4cl.Binary.Reader.{Read, ok, too_short, out_of_bounds}
use vc4cl.Binary.ModuleHeader.{
  ModuleHeader, qpuasm_magic_number, get_global_data_offset, get_global_data_size, from_binary_data,
}

pub data CreationType : Type 0 where
  source intermediate_language library binary : CreationType

-- The log is the list of the texts appended to it; `logged` is what the compiler has written.
pub data LogText : Type 0 where
  invalid_source_type : List ℕ → LogText
  precompilation_error link_error compilation_error : List ℕ → LogText
  logged : List ℕ → LogText

pub record BuildInfo : Type 0 where
  pub status : ℤ
  pub options : List ℕ
  pub log : List LogText

pub record Program : Type 0 where
  pub source_code : List ℕ
  pub intermediate_code : List ℕ
  pub binary_code : List ℕ  -- words of 64 bits
  pub global_data : List ℕ
  pub creation_type : CreationType
  pub build_info : BuildInfo
  pub module_info : ModuleHeader

-- BuildInfo as declared, for a new program.
abbrev pub no_build : BuildInfo
no_build = record { status = cl_build_none; options = []; log = [] }

pub data BuildStatus : Type 0 where
  not_build compiled done : BuildStatus

abbrev pub is_empty {ℓ} : {A : Type ℓ} → List A → Bool
is_empty [] = true
is_empty (x ∷ xs) = false

unfoldable pub get_build_status : Program → BuildStatus
get_build_status p =
    if is_empty p.binary_code && is_empty p.intermediate_code
    then not_build
    else if is_empty p.binary_code
    then compiled
    else done

-- `undefined` is a read outside of the binary code, which C++ leaves open.
pub data Extraction : Type 0 where
  returned : Program → ℤ → Extraction
  undefined : Extraction

-- The global data is appended to what is there.
abbrev pub copy_global_data : Program → Extraction
copy_global_data p =
    let offset : ℕ = get_global_data_offset p.module_info.value in
    let size : ℕ = get_global_data_size p.module_info.value in
    if size == 0
    then returned p cl_success
    else if leb (offset + size) (length p.binary_code)
    then returned
        (record p { global_data = p.global_data ++ take size (drop offset p.binary_code) })
        cl_success
    else undefined

abbrev pub extract_read : Program → Read ModuleHeader → Extraction
extract_read p too_short = returned p cl_invalid_program
extract_read p out_of_bounds = undefined
extract_read p (ok header) =
    let known : Program = record p { module_info = header } in
    if is_empty header.kernels then returned known cl_invalid_program else copy_global_data known

abbrev pub extract_from : Program → Option ℕ → Extraction
extract_from p none = undefined
extract_from p (some word) =
    if not (word % 2 ^ 32 == qpuasm_magic_number)
    then returned p cl_invalid_binary
    else extract_read p (from_binary_data p.binary_code)

-- Program::extractModuleInfo.
unfoldable pub extract_module_info : Program → Extraction
extract_module_info p = extract_from p (get_elem? p.binary_code 0)

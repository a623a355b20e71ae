-- ===== src/Program/Build/Examples.antt =====
-- Instances: a compiler that makes the sample module of any source.
use vc4cl.Prelude.{
  ℕ, ◌≡◌, refl, arith, ◌^◌, ltb, ◌&&◌, Bool, List, [], ◌∷◌, none, some, false, true, All,
}
use vc4cl.Prelude.Codes.{cl_success, cl_build_success, cl_build_in_progress}
use vc4cl.Binary.Examples.{module_one, module_one-IsStored, head_words_short}
use vc4cl.Binary.Bytes.{bytes_of_words, write_byte_container, fill_words, num_words, word_of_bytes}
use vc4cl.Binary.Reader.{write_many}
use vc4cl.Binary.MetaData
use vc4cl.Binary.ParamHeader
use vc4cl.Binary.KernelHeader
use vc4cl.Bitfield.{set_entry, get_entry}
use vc4cl.Binary.ModuleHeader.{
  to_binary_data, add_kernel, head_words, final_value, get_global_data_offset,
}
use vc4cl.Program.{Program, BuildInfo, source, get_build_status}
use vc4cl.Program.Build.{Compiler, compilable, made, set_status, without_null}
use vc4cl.Program.Build.Inner.{finished, notify, build_inner}
use vc4cl.Program.Build.Calls.{
  same_name, embed_headers, loaded, create_program_with_binary, cl_build_program,
  cl_compile_program,
}
use vc4cl.Program.Build.Executable.{IsBuilt, build_inner-IsBuilt}
use vc4cl.Program.Build.Refused.{LeavesOnRefusal, refused_calls}
use vc4cl.Program.Build.Source.{Builds, built, built_from_source}
use vc4cl.Program.Build.Reloaded.{IsWord, rebuilt, reloaded_builds}

abbrev module_words : List ℕ
module_words = (to_binary_data module_one (17 ∷ []) 2).0

abbrev compiler : Compiler
compiler = record {
  get_type = λ code. compilable;
  precompile = λ files options code. record { log = none; answer = made (7 ∷ code) };
  is_linker_available = λ modules. true;
  link_source_code = λ modules standard. record { log = none; answer = made (8 ∷ []) };
  compile = λ code size options. record { log = some (9 ∷ []); answer = made module_words };
  total_vpm_memory = 4096;
}

abbrev kernel_source : Program
kernel_source = record {
  source_code = 65 ∷ 0 ∷ [];
  intermediate_code = [];
  binary_code = [];
  global_data = 5 ∷ [];
  creation_type = source;
  build_info = record { status = cl_build_in_progress; options = []; log = [] };
  module_info = record { value = 0; kernels = [] };
}

builds : Builds compiler (3 ∷ []) (7 ∷ 65 ∷ []) module_one (17 ∷ []) 2 kernel_source
unfolding get_build_status without_null add_kernel
builds = record {
  not_intermediate = refl;
  not_library = refl;
  some_source = refl;
  to_be_compiled = refl;
  source_known = refl;
  precompiles = refl;
  some_code = refl;
  code_known = refl;
  compiles = refl;
  stored = module_one-IsStored;
  some_kernel = refl;
  short_head = omega (arith, head_words_short);
  short_data = omega arith;
  short_stack = omega arith;
}

abbrev executable : BuildInfo → Program
executable = built compiler (3 ∷ []) (7 ∷ 65 ∷ []) module_one (17 ∷ []) 2 kernel_source builds

-- The callback is number 6.
built_from_source_example :
    (info : BuildInfo) × (info.status ≡ cl_build_success)
    × (info.options ≡ 3 ∷ [])
    × (build_inner compiler (3 ∷ []) (some 6) kernel_source
        ≡ finished (executable info) cl_success (notify (some 6) (executable info)))
built_from_source_example =
    built_from_source compiler (3 ∷ []) (7 ∷ 65 ∷ []) module_one (17 ∷ []) 2 kernel_source builds
      (some 6)

refused_calls_example :
    LeavesOnRefusal kernel_source
      (cl_build_program compiler 1 1 (some 2) [] none false kernel_source)
    × LeavesOnRefusal
        (set_status cl_build_in_progress kernel_source)
        (cl_compile_program compiler 1 1 (some 2) [] 0 none none none false kernel_source)
refused_calls_example = refused_calls compiler 1 1 (some 2) [] 0 none none none false kernel_source

-- The build information after the build.
abbrev told : BuildInfo
told =
    (built_from_source compiler (3 ∷ []) (7 ∷ 65 ∷ []) module_one (17 ∷ []) 2 kernel_source builds
      (some 6)).0

build_runs :
    build_inner compiler (3 ∷ []) (some 6) kernel_source
    ≡ finished (executable told) cl_success (notify (some 6) (executable told))
build_runs =
    (built_from_source compiler (3 ∷ []) (7 ∷ 65 ∷ []) module_one (17 ∷ []) 2 kernel_source builds
      (some 6)).3

build_inner-IsBuilt_example : IsBuilt (some 6) (executable told) (notify (some 6) (executable told))
build_inner-IsBuilt_example =
    build_inner-IsBuilt compiler (3 ∷ []) (some 6) kernel_source (executable told)
      (notify (some 6) (executable told)) refl build_runs

-- Tests the words for their size.
all_fit : List ℕ → Bool
all_fit [] = true
all_fit (w ∷ words) = ltb w (2 ^ 64) && all_fit words

all_fit_lem : (words : List ℕ) → all_fit words ≡ true → All IsWord words
unfolding all_fit
all_fit_lem [] h = tt
all_fit_lem (w ∷ words) h = (ground (arith, h), all_fit_lem words (ground (arith, h)))

words_fit : All IsWord module_words
unfolding all_fit to_binary_data head_words final_value set_entry get_entry add_kernel write_many
    KernelHeader.to_binary_data write_byte_container fill_words num_words KernelHeader.add_parameter
    KernelHeader.set_name ParamHeader.to_binary_data ParamHeader.set_type_name ParamHeader.set_name
    MetaData.to_binary_data MetaData.set_int get_global_data_offset word_of_bytes
    KernelHeader.second_word KernelHeader.third_word
words_fit = all_fit_lem module_words refl

reloaded_builds_example :
    (r : Program) × (create_program_with_binary 1 1 (some 1) (some (bytes_of_words module_words))
      ≡ loaded r)
    × (build_inner compiler [] (some 6) r
        ≡ finished
            (rebuilt (executable told))
            cl_success
            (notify (some 6) (rebuilt (executable told))))
reloaded_builds_example =
    reloaded_builds compiler compiler (3 ∷ []) [] (some 6) kernel_source (executable told)
      (notify (some 6) (executable told)) 1 refl build_runs words_fit

-- Two headers of one name: the first is used.
first_header :
    embed_headers ((1 ∷ [], kernel_source) ∷ (1 ∷ [], executable told) ∷ []) []
    ≡ some ((1 ∷ [], kernel_source) ∷ [])
unfolding embed_headers same_name
first_header = refl

-- ===== src/Program/Build/Source.antt =====
-- The build of a program from source, from buildInner to the module that the code reads.
use vc4cl.Prelude.{
  ℕ, ◌+◌, ◌^◌, ◌<◌, ◌≡◌, refl, ap, false, List, [], ◌++◌, length, replicate, Option, none, some,
}
use vc4cl.Prelude.Codes.{cl_success, cl_build_success}
use vc4cl.Binary.ModuleHeader.{ModuleHeader, head_words, to_binary_data}
use vc4cl.Binary.ModuleHeader.Stored.{IsStored}
use vc4cl.Program.{Program, BuildInfo, is_empty, get_build_status, returned}
use vc4cl.Program.Module.{extract_module_info-stored}
use vc4cl.Program.Build.{
  Compiler, made, compilable, is_refused, without_null, extract_log, precompiled,
  precompile_program, compile, compiled, compile_program, link_programs, link_code, extract_kernels,
  link, is_library, is_intermediate_language, set_options, no_kernels,
}
use vc4cl.Program.Build.Inner.{
  finished, notify, finish, is_compiled, needs_compilation, build_inner,
}

extract_log-only :
    (log : Option (List ℕ)) (p : Program)
    → (info : BuildInfo) × (info.options ≡ p.build_info.options)
      × (extract_log log p ≡ record p { build_info = info })
unfolding extract_log
extract_log-only none p = (p.build_info, refl, refl)
extract_log-only (some text) p = ((extract_log (some text) p).build_info, refl, refl)

-- A build of `p` with these options from source to the module `m`, step by step: `code` is the
-- intermediate code that the compiler makes of the source.
pub record Builds (c : Compiler) (options code : List ℕ) (m : ModuleHeader) (data_words : List ℕ)
    (num_stack_words : ℕ) (p : Program) : Type 0 where
  pub not_intermediate : is_intermediate_language p.creation_type ≡ false
  pub not_library : is_library p.creation_type ≡ false
  pub some_source : is_empty p.source_code ≡ false
  pub to_be_compiled : is_compiled (get_build_status p) ≡ false
  pub source_known : c.get_type (without_null p.source_code) ≡ compilable
  pub precompiles : (c.precompile [] options (without_null p.source_code)).answer ≡ made code
  pub some_code : is_empty code ≡ false
  pub code_known : c.get_type code ≡ compilable
  pub compiles :
      (c.compile code c.total_vpm_memory options).answer
      ≡ made (to_binary_data m data_words num_stack_words).0
  pub stored : IsStored m
  pub some_kernel : is_empty m.kernels ≡ false
  pub short_head : length (head_words m) < 2 ^ 16
  pub short_data : length data_words + num_stack_words < 2 ^ 20
  pub short_stack : num_stack_words < 2 ^ 16

module _ (c : Compiler) (options code : List ℕ) (m : ModuleHeader) (data_words : List ℕ)
    (num_stack_words : ℕ) (p : Program)
    (b : Builds c options code m data_words num_stack_words p) where
  -- The program after the two steps, for its build information.
  abbrev after_compile : BuildInfo → Program
  after_compile info = record p {
    intermediate_code = code;
    binary_code = [];
    module_info = record p.module_info { kernels = [] };
    build_info = info;
  }

  compile-made :
      (info : BuildInfo) × (info.options ≡ options)
      × (compile c options [] p ≡ (after_compile info, cl_success))
  unfolding compile precompile_program precompiled is_refused
  compile-made =
      let log : Option (List ℕ) = (c.precompile [] options (without_null p.source_code)).log in
      let (info, same, e) =
        extract_log-only log (after_compile (set_options options p).build_info) in
      (
        info,
        same,
        rw (b.not_intermediate, b.some_source, b.source_known, b.precompiles)
            (ap (λ q. (q, cl_success)) e),
      )

  -- The words that the compiler makes.
  abbrev words : List ℕ
  words = (to_binary_data m data_words num_stack_words).0

  link_code-made :
      (info : BuildInfo)
      → (told : BuildInfo) × (told.options ≡ options)
        × (link_code c options [] (after_compile info)
            ≡ (record (after_compile info) { binary_code = words; build_info = told }, cl_success))
  unfolding link_code link_programs compile_program compiled is_refused
  link_code-made info =
      let log : Option (List ℕ) = (c.compile code c.total_vpm_memory options).log in
      let (told, same, e) =
        extract_log-only log
          (record (set_options options (after_compile info)) { binary_code = words }) in
      (
        told,
        same,
        rw (b.not_intermediate, b.not_library, b.code_known, b.compiles)
            (ap (λ q. (q, cl_success)) e),
      )

  abbrev pub built : BuildInfo → Program
  built info = record p {
    intermediate_code = code;
    binary_code = words;
    module_info = (to_binary_data m data_words num_stack_words).1;
    global_data = p.global_data ++ (data_words ++ replicate num_stack_words 0);
    build_info = info;
  }

  link-made :
      (info : BuildInfo)
      → (told : BuildInfo) × (told.options ≡ options)
        × (link c options [] (after_compile info) ≡ returned (built told) cl_success)
  unfolding link extract_kernels
  link-made info =
      let (told, same, e) = link_code-made info in
      let linked : Program = record (after_compile info) {
        binary_code = words;
        build_info = told;
      } in
      (
        told,
        same,
        rw (b.some_code, e, b.not_library)
            (extract_module_info-stored (no_kernels linked) m data_words num_stack_words b.stored
              b.some_kernel b.short_head b.short_data b.short_stack refl),
      )

  -- Where the compiler accepts the source of a program and makes the words of a well-formed module
  -- with a kernel of it, buildInner succeeds: the program has the intermediate code, the machine
  -- code and the module, the status CL_BUILD_SUCCESS and the options of the build. The global data
  -- of the module, and the zeroes of its stack frame, are behind the global data that the program
  -- has had before.
  pub built_from_source :
      (callback : Option ℕ)
      → (info : BuildInfo) × (info.status ≡ cl_build_success)
        × (info.options ≡ options)
        × (build_inner c options callback p
            ≡ finished (built info) cl_success (notify callback (built info)))
  unfolding build_inner needs_compilation finish
  built_from_source callback =
      let (first, _, made_first) = compile-made in
      let (told, same, made_second) = link-made first in
      (
        record told { status = cl_build_success },
        refl,
        same,
        rw (b.to_be_compiled, b.some_source, made_first, made_second) refl,
      )

-- ===== src/Program/Examples.antt =====
-- An instance: a program with the code of the sample module, built for the second time.
use vc4cl.Prelude.{◌≡◌, refl, arith, [], ◌∷◌}
use vc4cl.Prelude.Codes.{cl_success}
use vc4cl.Binary.Examples.{module_one, module_one-IsStored, head_words_short}
use vc4cl.Binary.ModuleHeader.{to_binary_data, add_kernel}
use vc4cl.Program.{Program, binary, no_build, returned, extract_module_info}
use vc4cl.Program.Module.{extract_module_info-stored}

abbrev program : Program
program = record {
  source_code = [];
  intermediate_code = [];
  binary_code = (to_binary_data module_one (17 ∷ []) 2).0;
  global_data = 5 ∷ [];
  creation_type = binary;
  build_info = no_build;
  module_info = record { value = 0; kernels = [] };
}

-- The old global data, 5, stays in front of the new one.
extract_module_info-stored_example :
    extract_module_info program
    ≡ returned
        (record program {
          module_info = (to_binary_data module_one (17 ∷ []) 2).1;
          global_data = 5 ∷ 17 ∷ 0 ∷ 0 ∷ [];
        })
        cl_success
unfolding add_kernel
extract_module_info-stored_example =
    extract_module_info-stored program module_one (17 ∷ []) 2 module_one-IsStored refl
      (omega (arith, head_words_short)) (omega arith) (omega arith) refl

-- ===== src/Program/Build/Refused.antt =====
-- Refused calls of clBuildProgram and clCompileProgram.
use vc4cl.Prelude.{
  ℕ, ◌≡◌, refl, Bool, true, false, ◌||◌, ◌&&◌, not, if◌then◌else◌, List, [], ltb, Option, none,
  some,
}
use vc4cl.Prelude.Int.{ℤ}
use vc4cl.Prelude.Codes.{cl_invalid_value, cl_invalid_device, cl_build_in_progress}
use vc4cl.Program.{Program}
use vc4cl.Program.Build.{Compiler, set_status}
use vc4cl.Program.Build.Inner.{Finished, build_inner, compile_inner}
use vc4cl.Program.Build.Calls.{
  Started, refused, ran, in_thread, start, start_compilation, half_given, is_given, is_other,
  embed_headers, zip_headers, cl_build_program, cl_compile_program,
}

-- Where the call is refused, it leaves the program `p`.
abbrev pub LeavesOnRefusal : Program → Started → Type 0
LeavesOnRefusal p (refused q error) = q ≡ p
LeavesOnRefusal p (ran result) = Unit {0}
LeavesOnRefusal p (in_thread q inner) = Unit {0}

refuse_or :
    (p : Program) (b : Bool) (error : ℤ) (x : Started)
    → LeavesOnRefusal p x
    → LeavesOnRefusal p (if b then refused p error else x)
refuse_or p true error x h = refl
refuse_or p false error x h = h

start-LeavesOnRefusal :
    (p running : Program) (callback : Option ℕ) (inner : Program → Finished)
    → LeavesOnRefusal p (start callback running inner)
start-LeavesOnRefusal p running none inner = tt
start-LeavesOnRefusal p running (some callback) inner = tt

start_compilation-LeavesOnRefusal :
    (c : Compiler) (options : List ℕ) (callback : Option ℕ)
    (headers : Option (List (List ℕ × Program))) (p : Program)
    → LeavesOnRefusal p (start_compilation c options callback headers p)
start_compilation-LeavesOnRefusal c options callback none p = refl
start_compilation-LeavesOnRefusal c options callback (some headers) p =
    start-LeavesOnRefusal p p callback (compile_inner c options headers callback)

-- A refused call of clBuildProgram leaves the program as it was, and a refused call of
-- clCompileProgram leaves all of it but its build status, which is CL_BUILD_IN_PROGRESS from then on.
pub refused_calls :
    (c : Compiler) (gpu num_devices : ℕ) (device_list : Option ℕ) (options : List ℕ)
    (num_input_headers : ℕ) (input_headers : Option (List Program))
    (header_include_names : Option (List (List ℕ))) (callback : Option ℕ) (user_data : Bool)
    (p : Program)
    → LeavesOnRefusal p
        (cl_build_program c gpu num_devices device_list options callback user_data p)
      × LeavesOnRefusal (set_status cl_build_in_progress p) (
          cl_compile_program c gpu num_devices device_list options num_input_headers input_headers
            header_include_names callback user_data p)
unfolding cl_build_program cl_compile_program
refused_calls c gpu num_devices device_list options num_input_headers input_headers
      header_include_names callback user_data p =
    let q : Program = set_status cl_build_in_progress p in
    let wrong : Bool = ltb 1 num_devices || half_given num_devices device_list in
    let other : Bool = is_other gpu device_list in
    let unnotified : Bool = not (is_given callback) && user_data in
    let headers : Bool =
      half_given num_input_headers header_include_names
      || half_given num_input_headers input_headers in
    (
      refuse_or p wrong cl_invalid_value _ (
          refuse_or p other cl_invalid_device _ (
            refuse_or p unnotified cl_invalid_value _
              (start-LeavesOnRefusal p q callback (build_inner c options callback)))),
      refuse_or q wrong cl_invalid_value _ (
          refuse_or q other cl_invalid_device _ (
            refuse_or q headers cl_invalid_value _ (
              refuse_or q unnotified cl_invalid_value _ (
                start_compilation-LeavesOnRefusal c options callback
                  (embed_headers (zip_headers header_include_names input_headers) []) q)))),
    )

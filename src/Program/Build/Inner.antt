-- ===== src/Program/Build/Inner.antt =====
-- Program.cpp: buildInner, compileInner and linkInner.
use vc4cl.Prelude.{
  ℕ, Bool, true, false, ◌&&◌, not, if◌then◌else◌, List, [], ◌∷◌, Option, none, some,
}
use vc4cl.Prelude.Int.{ℤ}
use vc4cl.Prelude.Codes.{cl_build_success, cl_build_error}
use vc4cl.Program.{
  Program, BuildStatus, not_build, compiled, done, is_empty, get_build_status, Extraction, returned,
  undefined,
}
use vc4cl.Program.Build.{Compiler, Result, set_status, succeeded, compile, link}

-- A call of the callback, with its user data as one number, shows it the program as it is then.
pub record Notified : Type 0 where
  pub callback : ℕ
  pub shown : Program

-- `undetermined` is a read outside of the binary code, which C++ leaves open.
pub data Finished : Type 0 where
  finished : Program → ℤ → List Notified → Finished
  undetermined : Finished

abbrev pub notify : Option ℕ → Program → List Notified
notify none p = []
notify (some callback) p = record { callback = callback; shown = p } ∷ []

-- The end that the three functions share.
unfoldable pub finish : Option ℕ → Program → ℤ → Finished
finish callback p state =
    let told : Program =
      set_status (if succeeded state then cl_build_success else cl_build_error) p in
    finished told state (notify callback told)

abbrev pub finish_extraction : Option ℕ → Extraction → Finished
finish_extraction callback (returned p state) = finish callback p state
finish_extraction callback undefined = undetermined

abbrev pub is_compiled : BuildStatus → Bool
is_compiled compiled = true
is_compiled not_build = false
is_compiled done = false

-- "If it was already built once, re-compile (only if original source is available)"
unfoldable pub needs_compilation : Program → Bool
needs_compilation p = not (is_compiled (get_build_status p)) && not (is_empty p.source_code)

abbrev pub link_compiled : Compiler → List ℕ → Result → Extraction
link_compiled c options (p, state) =
    if succeeded state then link c options [] p else returned p state

unfoldable pub build_inner : Compiler → List ℕ → Option ℕ → Program → Finished
build_inner c options callback p = finish_extraction callback (
    if needs_compilation p
    then link_compiled c options (compile c options [] p)
    else link c options [] p)

unfoldable pub compile_inner :
    Compiler → List ℕ → List (List ℕ × Program) → Option ℕ → Program → Finished
compile_inner c options headers callback p =
    let (after, state) = compile c options headers p in finish callback after state

unfoldable pub link_inner :
    Compiler → List ℕ → List (Option Program) → Option ℕ → Program → Finished
link_inner c options programs callback p = finish_extraction callback (link c options programs p)

-- ===== src/Program/Build/Kept.antt =====
-- The steps of a build keep the creation type of the program.
use vc4cl.Prelude.{
  ℕ, ◌≡◌, refl, ◌∙◌, Bool, true, false, ◌&&◌, not, if◌then◌else◌, List, Option, none, some,
}
use vc4cl.Prelude.Codes.{
  cl_success, cl_invalid_operation, cl_build_success, cl_linker_not_available,
  cl_compile_program_failure, cl_build_program_failure,
}
use vc4cl.Program.{Program, CreationType, is_empty}
use vc4cl.Program.Build.{
  Compiler, Result, Answer, made, thrown, is_library, succeeded, extract_log, linked, compiled,
  precompiled, link_programs, compile_program, link_code, compile, set_options, set_status,
  without_results, is_intermediate_language, precompile_program,
}

extract_log-creation_type :
    (log : Option (List ℕ)) (p : Program) → (extract_log log p).creation_type ≡ p.creation_type
unfolding extract_log
extract_log-creation_type none p = refl
extract_log-creation_type (some text) p = refl

linked-creation_type :
    (answer : Answer (List ℕ)) (p : Program) → (linked answer p).0.creation_type ≡ p.creation_type
unfolding linked
linked-creation_type (made code) p = refl
linked-creation_type (thrown what) p = refl

compiled-creation_type :
    (answer : Answer (List ℕ)) (p : Program) → (compiled answer p).0.creation_type ≡ p.creation_type
unfolding compiled
compiled-creation_type (made code) p = refl
compiled-creation_type (thrown what) p = refl

precompiled-creation_type :
    (answer : Answer (List ℕ)) (p : Program)
    → (precompiled answer p).0.creation_type ≡ p.creation_type
unfolding precompiled
precompiled-creation_type (made code) p = refl
precompiled-creation_type (thrown what) p = refl

-- One of two results, both with the creation type that they started from.
unfoldable pub KeepsType : CreationType → Result → Type 0
KeepsType type (p, status) = p.creation_type ≡ type

if-KeepsType :
    (type : CreationType) (b : Bool) (x y : Result)
    → KeepsType type x
    → KeepsType type y
    → KeepsType type (if b then x else y)
if-KeepsType type true x y h g = h
if-KeepsType type false x y h g = g

link_programs-KeepsType :
    (c : Compiler) (programs : List (Option Program)) (b : Bool) (p : Program)
    → KeepsType p.creation_type (link_programs c programs b p)
unfolding link_programs KeepsType
link_programs-KeepsType c programs b p =
    if-KeepsType p.creation_type (is_empty programs && not b) (p, cl_success) _ refl
      (if-KeepsType p.creation_type _ (p, cl_linker_not_available) _ refl
        (extract_log-creation_type _ _ ∙ linked-creation_type _ p))

compile_program-KeepsType :
    (c : Compiler) (options : List ℕ) (p : Program)
    → KeepsType p.creation_type (compile_program c options p)
unfolding compile_program KeepsType
compile_program-KeepsType c options p =
    if-KeepsType p.creation_type _ (p, cl_build_program_failure) _ refl
      (extract_log-creation_type _ _ ∙ compiled-creation_type _ (set_options options p))

pub link_code-KeepsType :
    (c : Compiler) (options : List ℕ) (programs : List (Option Program)) (p : Program)
    → KeepsType p.creation_type (link_code c options programs p)
unfolding link_code KeepsType
link_code-KeepsType c options programs p =
    let b : Bool = is_intermediate_language p.creation_type in
    let whole : Result = link_programs c programs b p in
    if-KeepsType p.creation_type (succeeded whole.1 && not (is_library p.creation_type)) _ whole
      (compile_program-KeepsType c options whole.0 ∙ link_programs-KeepsType c programs b p)
      (link_programs-KeepsType c programs b p)

precompile_program-KeepsType :
    (c : Compiler) (options : List ℕ) (headers : List (List ℕ × Program)) (p : Program)
    → KeepsType p.creation_type (precompile_program c options headers p)
unfolding precompile_program KeepsType
precompile_program-KeepsType c options headers p =
    if-KeepsType p.creation_type _ (_, cl_compile_program_failure) _ refl
      (extract_log-creation_type _ _ ∙ precompiled-creation_type _ (set_options options p))

pub compile-KeepsType :
    (c : Compiler) (options : List ℕ) (headers : List (List ℕ × Program)) (p : Program)
    → KeepsType p.creation_type (compile c options headers p)
unfolding compile KeepsType
compile-KeepsType c options headers p =
    if-KeepsType p.creation_type _ (set_status cl_build_success (set_options options p), cl_success)
      _ refl
      (if-KeepsType p.creation_type _ (p, cl_invalid_operation) _ refl
        (precompile_program-KeepsType c options headers (without_results p)))

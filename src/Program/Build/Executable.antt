-- ===== src/Program/Build/Executable.antt =====
-- What a successful buildInner leaves.
use vc4cl.Prelude.{
  ℕ, ◌+◌, ◌%◌, ◌^◌, ◌==◌, leb, ◌≡◌, refl, ap, ◌∙◌, inl, inr, Bool, true, false, ◌&&◌, ◌||◌, List,
  [], ◌∷◌, length, get_elem?, Option, none, some, Bool-cases, arith,
}
use vc4cl.Prelude.Int.{ℤ}
use vc4cl.Prelude.Codes.{cl_success, cl_build_success}
use vc4cl.Binary.Reader.{Read, ok, too_short, out_of_bounds}
use vc4cl.Binary.ModuleHeader.{
  ModuleHeader, qpuasm_magic_number, get_global_data_offset, get_global_data_size, from_binary_data,
}
use vc4cl.Program.{
  Program, done, is_empty, get_build_status, Extraction, returned, undefined, copy_global_data,
  extract_read, extract_from, extract_module_info,
}
use vc4cl.Program.Build.{
  Compiler, Result, is_library, no_kernels, succeeded, link_code, extract_kernels, link, compile,
}
use vc4cl.Program.Build.Inner.{
  Notified, Finished, finished, undetermined, notify, finish, finish_extraction, build_inner,
  link_compiled, needs_compilation,
}
use vc4cl.Program.Build.Kept.{KeepsType, compile-KeepsType, link_code-KeepsType}

-- The segment of the global data lies in the code.
abbrev pub has_segment : ModuleHeader → List ℕ → Bool
has_segment header code =
    let size : ℕ = get_global_data_size header.value in
    size == 0 || leb (get_global_data_offset header.value + size) (length code)

-- The first word starts with the magic number.
abbrev pub HasMagic : Option ℕ → Type 0
HasMagic first = (word : ℕ) × (first ≡ some word) × ((word % 2 ^ 32 == qpuasm_magic_number) ≡ true)

pub record IsExecutable (p : Program) : Type 0 where
  pub magic : HasMagic (get_elem? p.binary_code 0)
  pub module_read : from_binary_data p.binary_code ≡ ok p.module_info
  pub some_kernel : is_empty p.module_info.kernels ≡ false
  pub segment : has_segment p.module_info p.binary_code ≡ true

-- `P` holds of the program where the status code is CL_SUCCESS.
abbrev OnSuccess : (Program → Type 0) → Extraction → Type 0
OnSuccess P (returned p status) = succeeded status ≡ true → P p
OnSuccess P undefined = Unit {0}

copy_global_data-IsExecutable :
    (p : Program)
    → HasMagic (get_elem? p.binary_code 0)
    → from_binary_data p.binary_code ≡ ok p.module_info
    → is_empty p.module_info.kernels ≡ false
    → OnSuccess IsExecutable (copy_global_data p)
copy_global_data-IsExecutable p magic read kernel =
    let offset : ℕ = get_global_data_offset p.module_info.value in
    let size : ℕ = get_global_data_size p.module_info.value in
    elim (Bool-cases (size == 0)) [
      | inl q ↦ rw q (λ _. record {
        magic = magic;
        module_read = read;
        some_kernel = kernel;
        segment = rw q refl;
      })
      | inr q ↦ rw q (elim (Bool-cases (leb (offset + size) (length p.binary_code))) [
        | inl r ↦ rw r (λ _. record {
          magic = magic;
          module_read = read;
          some_kernel = kernel;
          segment = rw (q, r) refl;
        })
        | inr r ↦ rw r tt
      ])
    ]

extract_read-IsExecutable :
    (p : Program) (read : Read ModuleHeader)
    → HasMagic (get_elem? p.binary_code 0)
    → from_binary_data p.binary_code ≡ read
    → OnSuccess IsExecutable (extract_read p read)
extract_read-IsExecutable p too_short magic h = λ e. absurd (ground (arith, e))
extract_read-IsExecutable p out_of_bounds magic h = tt
extract_read-IsExecutable p (ok header) magic h = elim (Bool-cases (is_empty header.kernels)) [
  | inl q ↦ rw q (λ e. absurd (ground (arith, e)))
  | inr q ↦ rw q (copy_global_data-IsExecutable (record p { module_info = header }) magic h q)
]

extract_from-IsExecutable :
    (p : Program) (first : Option ℕ)
    → get_elem? p.binary_code 0 ≡ first
    → OnSuccess IsExecutable (extract_from p first)
extract_from-IsExecutable p none h = tt
extract_from-IsExecutable p (some word) h =
    elim (Bool-cases (word % 2 ^ 32 == qpuasm_magic_number)) [
      | inl q ↦
          rw q (extract_read-IsExecutable p (from_binary_data p.binary_code) (word, h, q) refl)
      | inr q ↦ rw q (λ e. absurd (ground (arith, e)))
    ]

extract_module_info-IsExecutable : (p : Program) → OnSuccess IsExecutable (extract_module_info p)
unfolding extract_module_info
extract_module_info-IsExecutable p = extract_from-IsExecutable p (get_elem? p.binary_code 0) refl

extract_kernels-IsExecutable :
    (r : Result) → is_library r.0.creation_type ≡ false → OnSuccess IsExecutable (extract_kernels r)
unfolding extract_kernels
extract_kernels-IsExecutable (p, status) h = elim (Bool-cases (succeeded status)) [
  | inl q ↦ rw (q, h) (extract_module_info-IsExecutable (no_kernels p))
  | inr q ↦ rw q (λ e. absurd (ground (arith, q, e)))
]

link-IsExecutable :
    (c : Compiler) (options : List ℕ) (programs : List (Option Program)) (p : Program)
    → is_library p.creation_type ≡ false
    → OnSuccess IsExecutable (link c options programs p)
unfolding link KeepsType
link-IsExecutable c options programs p h = elim (Bool-cases (is_empty p.binary_code)) [
  | inr q ↦ rw q (extract_kernels-IsExecutable (p, cl_success) h)
  | inl q ↦ rw q (elim (Bool-cases (is_empty p.intermediate_code && is_empty programs)) [
    | inl r ↦ rw r (λ e. absurd (ground (arith, e)))
    | inr r ↦ rw r (
        extract_kernels-IsExecutable (link_code c options programs p)
          (ap is_library (link_code-KeepsType c options programs p) ∙ h))
  ])
]

-- What holds of a run that ends with CL_SUCCESS.
pub record IsBuilt (callback : Option ℕ) (q : Program) (calls : List Notified) : Type 0 where
  pub executable : IsExecutable q
  pub build_status : get_build_status q ≡ done
  pub status : q.build_info.status ≡ cl_build_success
  pub called_once : calls ≡ notify callback q

abbrev Ends : Option ℕ → Finished → Type 0
Ends callback (finished q state calls) = succeeded state ≡ true → IsBuilt callback q calls
Ends callback undetermined = Unit {0}

pub some_code : (code : List ℕ) → HasMagic (get_elem? code 0) → is_empty code ≡ false
some_code [] (word, e, _) = absurd (ground (arith, e))
some_code (x ∷ code) h = refl

finish-IsBuilt :
    (callback : Option ℕ) (p : Program) (state : ℤ)
    → OnSuccess IsExecutable (returned p state)
    → Ends callback (finish callback p state)
unfolding finish get_build_status
finish-IsBuilt callback p state h e =
    let v : IsExecutable p = h e in
    record {
      executable = record {
        magic = v.magic;
        module_read = v.module_read;
        some_kernel = v.some_kernel;
        segment = v.segment;
      };
      build_status = rw (some_code p.binary_code v.magic) refl;
      status = rw e refl;
      called_once = refl;
    }

finish_extraction-IsBuilt :
    (callback : Option ℕ) (x : Extraction)
    → OnSuccess IsExecutable x
    → Ends callback (finish_extraction callback x)
finish_extraction-IsBuilt callback undefined h = tt
finish_extraction-IsBuilt callback (returned p state) h = finish-IsBuilt callback p state h

link_compiled-IsExecutable :
    (c : Compiler) (options : List ℕ) (r : Result)
    → is_library r.0.creation_type ≡ false
    → OnSuccess IsExecutable (link_compiled c options r)
link_compiled-IsExecutable c options (p, state) h = elim (Bool-cases (succeeded state)) [
  | inl q ↦ rw q (link-IsExecutable c options [] p h)
  | inr q ↦ rw q (λ e. absurd (ground (arith, q, e)))
]

build_inner-Ends :
    (c : Compiler) (options : List ℕ) (callback : Option ℕ) (p : Program)
    → is_library p.creation_type ≡ false
    → Ends callback (build_inner c options callback p)
unfolding build_inner KeepsType
build_inner-Ends c options callback p h = elim (Bool-cases (needs_compilation p)) [
  | inl q ↦ rw q (
      finish_extraction-IsBuilt callback (link_compiled c options (compile c options [] p)) (
        link_compiled-IsExecutable c options (compile c options [] p)
          (ap is_library (compile-KeepsType c options [] p) ∙ h)))
  | inr q ↦ rw q (
      finish_extraction-IsBuilt callback (link c options [] p) (link-IsExecutable c options [] p h))
]

-- Whatever the compiler does, where buildInner ends with CL_SUCCESS for a program that was not made
-- as a library, the program has machine code, its module information is what reading that code
-- gives, with at least one kernel, its states are DONE and CL_BUILD_SUCCESS, and the callback, where
-- one is given, was called exactly once and was shown the program in this state.
pub build_inner-IsBuilt :
    (c : Compiler) (options : List ℕ) (callback : Option ℕ) (p q : Program) (calls : List Notified)
    → is_library p.creation_type ≡ false
    → build_inner c options callback p ≡ finished q cl_success calls
    → IsBuilt callback q calls
build_inner-IsBuilt c options callback p q calls h e =
    let ends : Ends callback (build_inner c options callback p) =
      build_inner-Ends c options callback p h in
    (rw e at ends) refl

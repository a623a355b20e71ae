-- ===== src/Program/Build/Calls.antt =====
-- Program.cpp: clCreateProgramWithBinary, clBuildProgram, clCompileProgram and clLinkProgram, in a
-- valid context, with valid programs.
use vc4cl.Prelude.{
  ℕ, ◌/◌, ◌==◌, ltb, Bool, true, false, ◌&&◌, ◌||◌, not, if◌then◌else◌, List, [], ◌∷◌, ◌++◌, length,
  Option, none, some,
}
use vc4cl.Prelude.Int.{ℤ}
use vc4cl.Prelude.Codes.{cl_invalid_value, cl_invalid_device, cl_build_in_progress}
use vc4cl.Binary.Bytes.{word_of_bytes, fill_words}
use vc4cl.Binary.ModuleHeader.{qpuasm_magic_number}
use vc4cl.Program.{
  Program, CreationType, source, intermediate_language, library, binary, no_build, is_empty,
}
use vc4cl.Program.Build.{Compiler, set_status, succeeded}
use vc4cl.Program.Build.Inner.{
  Finished, finished, undetermined, build_inner, compile_inner, link_inner,
}

-- The words of a binary whose size is no multiple of 8 are too few for its bytes.
unfoldable pub new_program : List ℕ → CreationType → Program
new_program code type =
    let empty : Program = record {
      source_code = [];
      intermediate_code = [];
      binary_code = [];
      global_data = [];
      creation_type = type;
      build_info = no_build;
      module_info = record { value = 0; kernels = [] };
    } in
    elim type [
      | source ↦ record empty { source_code = code }
      | intermediate_language ↦ record empty { intermediate_code = code }
      | library ↦ record empty { intermediate_code = code }
      | binary ↦ record empty { binary_code = fill_words (length code / 8) code }
    ]

abbrev pub is_given {ℓ} : {A : Type ℓ} → Option A → Bool
is_given none = false
is_given (some a) = true

-- The first device of the list is another than the GPU.
abbrev pub is_other : ℕ → Option ℕ → Bool
is_other gpu none = false
is_other gpu (some device) = not (device == gpu)

-- The program, or the error code. The device list is the first device of it, `lengths` and
-- `binaries` are the first binary with its size, which is its length.
pub data Loaded : Type 0 where
  loaded : Program → Loaded
  not_loaded : ℤ → Loaded

abbrev pub load : List ℕ → Loaded
load bytes = loaded (
    new_program bytes
      (if word_of_bytes 4 bytes == qpuasm_magic_number then binary else intermediate_language))

unfoldable pub create_program_with_binary : ℕ → ℕ → Option ℕ → Option (List ℕ) → Loaded
create_program_with_binary gpu num_devices device_list none =
    if num_devices == 0 || (not (is_given device_list) || ltb 1 num_devices)
    then not_loaded cl_invalid_value
    else if is_other gpu device_list
    then not_loaded cl_invalid_device
    else not_loaded cl_invalid_value
create_program_with_binary gpu num_devices device_list (some bytes) =
    if num_devices == 0 || (not (is_given device_list) || ltb 1 num_devices)
    then not_loaded cl_invalid_value
    else if is_other gpu device_list
    then not_loaded cl_invalid_device
    else if is_empty bytes
    then not_loaded cl_invalid_value
    else load bytes

-- What a call does: it refuses, it runs to the end, or it returns CL_SUCCESS and leaves the rest to
-- a thread, which takes the program as it is then.
pub data Started : Type 0 where
  refused : Program → ℤ → Started
  ran : Finished → Started
  in_thread : Program → (Program → Finished) → Started

abbrev pub start : Option ℕ → Program → (Program → Finished) → Started
start none p inner = ran (inner p)
start (some callback) p inner = in_thread p inner

-- An array with a size of 0, or a null pointer with another size.
abbrev pub half_given {ℓ} : {A : Type ℓ} → ℕ → Option A → Bool
half_given num array = if num == 0 then is_given array else not (is_given array)

-- A callback with its user data is one number; `user_data` tells whether there is any.
unfoldable pub cl_build_program :
    Compiler → ℕ → ℕ → Option ℕ → List ℕ → Option ℕ → Bool → Program → Started
cl_build_program c gpu num_devices device_list options callback user_data p =
    if ltb 1 num_devices || half_given num_devices device_list
    then refused p cl_invalid_value
    else if is_other gpu device_list
    then refused p cl_invalid_device
    else if not (is_given callback) && user_data
    then refused p cl_invalid_value
    else start callback (set_status cl_build_in_progress p) (build_inner c options callback)

-- Comparison of std::string.
unfoldable pub same_name : List ℕ → List ℕ → Bool
same_name [] [] = true
same_name [] (y ∷ ys) = false
same_name (x ∷ xs) [] = false
same_name (x ∷ xs) (y ∷ ys) = x == y && same_name xs ys

abbrev pub find_header : List ℕ → List (List ℕ × Program) → Option Program
find_header name [] = none
find_header name ((other, p) ∷ headers) =
    if same_name name other then some p else find_header name headers

-- "If multiple entries in header_include_names refer to the same header name, the first one
-- encountered will be used." The result is `none` where a header has no source code.
unfoldable pub embed_headers :
    List (List ℕ × Program) → List (List ℕ × Program) → Option (List (List ℕ × Program))
embed_headers [] embedded = some embedded
embed_headers ((name, p) ∷ headers) embedded =
    let next : List (List ℕ × Program) =
      if is_given (find_header name embedded) then embedded else embedded ++ (name, p) ∷ [] in
    let rest : Option (List (List ℕ × Program)) = embed_headers headers next in
    if is_empty p.source_code then none else rest

abbrev pub start_compilation :
    Compiler → List ℕ → Option ℕ → Option (List (List ℕ × Program)) → Program → Started
start_compilation c options callback none p = refused p cl_invalid_value
start_compilation c options callback (some headers) p =
    start callback p (compile_inner c options headers callback)

abbrev pub zip_headers : Option (List (List ℕ)) → Option (List Program) → List (List ℕ × Program)
zip_headers (some (name ∷ names)) (some (p ∷ programs)) =
    (name, p) ∷ zip_headers (some names) (some programs)
zip_headers (some []) programs = []
zip_headers none programs = []
zip_headers (some (name ∷ names)) none = []
zip_headers (some (name ∷ names)) (some []) = []

-- The two arrays of headers have `num_input_headers` entries, or are null.
unfoldable pub cl_compile_program :
    Compiler
    → ℕ
    → ℕ
    → Option ℕ
    → List ℕ
    → ℕ
    → Option (List Program)
    → Option (List (List ℕ))
    → Option ℕ
    → Bool
    → Program
    → Started
cl_compile_program c gpu num_devices device_list options num_input_headers input_headers
      header_include_names callback user_data given =
    let p : Program = set_status cl_build_in_progress given in
    if ltb 1 num_devices || half_given num_devices device_list
    then refused p cl_invalid_value
    else if is_other gpu device_list
    then refused p cl_invalid_device
    else if half_given num_input_headers header_include_names
        || half_given num_input_headers input_headers
    then refused p cl_invalid_value
    else if not (is_given callback) && user_data
    then refused p cl_invalid_value
    else start_compilation c options callback
        (embed_headers (zip_headers header_include_names input_headers) []) p

-- options.find("-create-library") != npos
unfoldable pub starts_with : List ℕ → List ℕ → Bool
starts_with [] text = true
starts_with (x ∷ xs) [] = false
starts_with (x ∷ xs) (y ∷ ys) = x == y && starts_with xs ys

unfoldable pub contains : List ℕ → List ℕ → Bool
contains word [] = starts_with word []
contains word (x ∷ text) = starts_with word (x ∷ text) || contains word text

abbrev pub create_library : List ℕ
create_library =
    45 ∷ 99 ∷ 114 ∷ 101 ∷ 97 ∷ 116 ∷ 101 ∷ 45 ∷ 108 ∷ 105 ∷ 98 ∷ 114 ∷ 97 ∷ 114 ∷ 121 ∷ []

-- What clLinkProgram returns: no program and an error code, or the new program. After a failed link
-- the new program is released.
pub data Linking : Type 0 where
  no_program : ℤ → Linking
  new : Program → Linking
  new_in_thread : Program → (Program → Finished) → Linking
  link_undetermined : Linking

abbrev pub linking : Finished → Linking
linking undetermined = link_undetermined
linking (finished p status calls) = if succeeded status then new p else no_program status

abbrev pub start_linking : Option ℕ → Program → (Program → Finished) → Linking
start_linking none p inner = linking (inner p)
start_linking (some callback) p inner = new_in_thread p inner

abbrev pub output_program : List ℕ → Program
output_program options =
    set_status cl_build_in_progress
      (new_program [] (if contains create_library options then library else intermediate_language))

abbrev pub all_given : List Program → List (Option Program)
all_given [] = []
all_given (p ∷ programs) = some p ∷ all_given programs

unfoldable pub cl_link_program :
    Compiler → ℕ → ℕ → Option ℕ → List ℕ → ℕ → Option (List Program) → Option ℕ → Linking
cl_link_program c gpu num_devices device_list options num_input_programs none callback =
    if half_given num_devices device_list
    then no_program cl_invalid_value
    else if ltb 1 num_devices || is_other gpu device_list
    then no_program cl_invalid_device
    else no_program cl_invalid_value
cl_link_program c gpu num_devices device_list options num_input_programs (some programs) callback =
    if half_given num_devices device_list
    then no_program cl_invalid_value
    else if ltb 1 num_devices || is_other gpu device_list
    then no_program cl_invalid_device
    else if num_input_programs == 0
    then no_program cl_invalid_value
    else start_linking callback (output_program options)
        (link_inner c options (all_given programs) callback)

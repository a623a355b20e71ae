-- ===== src/KernelArgs/Launch/Found.antt =====
-- The buffers of a launch are found again when its UNIFORMs are built.
use vc4cl.Prelude.{
  ℕ, suc, ◌%◌, ◌^◌, ◌==◌, ==_iff, ◌≤◌, ◌<◌, ◌≡◌, refl, sym, ap, ◌∙◌, inl, inr, Bool, true, false,
  ◌||◌, not, if◌then◌else◌, List, [], ◌∷◌, length, Option, none, some, All, arith, Bool-cases,
}
use vc4cl.Binary.ParamHeader.{ParamHeader, get_lowered}
use vc4cl.KernelArgs.{Kernel, KernelArgument, scalar, temporary_buffer, buffer}
use vc4cl.KernelArgs.Tracked.{IsGiven}
use vc4cl.KernelArgs.Launch.{
  DeviceBuffer, LiveBuffer, System, Round, skipped, entry, failed, Collected, collected, stopped,
  add_entry, for_arguments, is_empty, initialized, allocate_temporary, track_live, track_buffer,
  tracked, both, allocate_and_track_buffer_arguments, find, parameter_words, explicit_words,
}

abbrev succeeds {ℓ} : {A : Type ℓ} → Round A → Bool
succeeds skipped = true
succeeds (entry a) = true
succeeds (failed code) = false

abbrev value {ℓ} : {A : Type ℓ} → Round A → Option A
value skipped = none
value (entry a) = some a
value (failed code) = none

-- The map has no entry for `j`.
abbrev Misses : {A : Type 0} → ℕ → Collected A → Type 0
Misses j (collected entries) = find j entries ≡ none
Misses j (stopped code) = Unit

-- The map `entries` has the entries of the collection from index `i` on.
abbrev Agrees : {A : Type 0} → ℕ → List (ℕ × A) → Collected A → Type 0
Agrees i entries (collected others) = (j : ℕ) → i ≤ j → find j entries ≡ find j others
Agrees i entries (stopped code) = 0 < 0

module _ {A : Type 0} where
  add_entry-Misses :
      (i j : ℕ) (r : Round A) (rest : Collected A)
      → j < i
      → Misses j rest
      → Misses j (add_entry i r rest)
  unfolding find
  add_entry-Misses i j (failed code) rest lt h = tt
  add_entry-Misses i j skipped rest lt h = h
  add_entry-Misses i j (entry a) (stopped code) lt h = tt
  add_entry-Misses i j (entry a) (collected entries) lt h = elim (Bool-cases (j == i)) [
    | inl q ↦ absurd (omega (arith, (==_iff j i).0 q))
    | inr q ↦ rw q h
  ]

  module _ (round : ℕ → ParamHeader → Option KernelArgument → Round A) where
    for_arguments-Misses :
        (i j : ℕ) (parameters : List ParamHeader) (args : List (Option KernelArgument))
        → j < i
        → Misses j (for_arguments round i parameters args)
    unfolding for_arguments find
    for_arguments-Misses i j [] args lt = refl
    for_arguments-Misses i j (p ∷ parameters) [] lt = refl
    for_arguments-Misses i j (p ∷ parameters) (arg ∷ args) lt =
        add_entry-Misses i j (round i p arg) (for_arguments round (suc i) parameters args) lt
          (for_arguments-Misses (suc i) j parameters args (omega arith))

  -- What the map says of the first index of a collection, and of the others.
  add_entry-Agrees :
      (i : ℕ) (entries : List (ℕ × A)) (r : Round A) (rest : Collected A)
      → Misses i rest
      → Agrees i entries (add_entry i r rest)
      → (succeeds r ≡ true) × (find i entries ≡ value r) × Agrees (suc i) entries rest
  unfolding find
  add_entry-Agrees i entries (failed code) rest missed h = absurd (omega (arith, h))
  add_entry-Agrees i entries skipped (stopped code) missed h = absurd (omega (arith, h))
  add_entry-Agrees i entries (entry a) (stopped code) missed h = absurd (omega (arith, h))
  add_entry-Agrees i entries skipped (collected others) missed h =
      (refl, h i (omega arith) ∙ missed, λ j le. h j (omega arith))
  add_entry-Agrees i entries (entry a) (collected others) missed h = (
    refl,
    h i (omega arith) ∙ rw ((==_iff i i).1 refl) refl,
    λ j le. h j (omega arith) ∙ elim (Bool-cases (j == i)) [
      | inl q ↦ absurd (omega (arith, (==_iff j i).0 q))
      | inr q ↦ rw q refl
    ],
  )

both-Agrees :
    (tmp : List (ℕ × Option DeviceBuffer)) (persistent : List (ℕ × Option ℕ))
    (c : Collected (Option DeviceBuffer)) (d : Collected (Option ℕ))
    → both c d ≡ tracked tmp persistent
    → Agrees 0 tmp c × Agrees 0 persistent d
both-Agrees tmp persistent (stopped code) d h = absurd (ground (arith, h))
both-Agrees tmp persistent (collected t) (stopped code) h = absurd (ground (arith, h))
both-Agrees tmp persistent (collected t) (collected r) h =
    let first : t ≡ tmp = cc in
    let second : r ≡ persistent = cc in
    (λ j le. ap (find j) (sym first), λ j le. ap (find j) (sym second))

-- The address of the memory for an argument, 0 where the system has none.
abbrev pub address_of : Option DeviceBuffer → ℕ
address_of none = 0
address_of (some b) = b.qpu_pointer

-- The UNIFORMs of an argument, from the argument and the system alone.
unfoldable pub argument_words : System → ℕ → ParamHeader → Option KernelArgument → List ℕ
argument_words system i p none = []
argument_words system i p (some (scalar words)) = words
argument_words system i p (some (buffer none)) = 0 ∷ []
argument_words system i p (some (buffer (some handle))) =
    (system.buffer_at handle).device_pointer % 2 ^ 32 ∷ []
argument_words system i p (some (temporary_buffer size data_bytes)) =
    let host_visible : Bool = not (is_empty data_bytes) || system.zero_memory in
    if get_lowered p then 0 ∷ [] else address_of (system.allocate host_visible i size) % 2 ^ 32 ∷ []

abbrev pub all_argument_words :
    System → ℕ → List ParamHeader → List (Option KernelArgument) → List (List ℕ)
all_argument_words system i [] args = []
all_argument_words system i (p ∷ parameters) [] = []
all_argument_words system i (p ∷ parameters) (arg ∷ args) =
    argument_words system i p arg ∷ all_argument_words system (suc i) parameters args

temporary_words :
    (system : System) (i size : ℕ) (p : ParamHeader) (data_bytes : List ℕ) (o : Option DeviceBuffer)
    → succeeds (initialized system.zero_memory size data_bytes o) ≡ true
    → parameter_words
        (value (initialized system.zero_memory size data_bytes o))
        none
        (some (temporary_buffer size data_bytes))
      ≡ some (address_of o % 2 ^ 32 ∷ [])
temporary_words system i size p data_bytes none ok = absurd (ground (arith, ok))
temporary_words system i size p data_bytes (some b) ok = refl

live_words :
    (b : LiveBuffer) (arg : Option KernelArgument)
    → succeeds (track_live b) ≡ true
    → parameter_words none (value (track_live b)) arg ≡ some (b.device_pointer % 2 ^ 32 ∷ [])
live_words b arg ok = elim (Bool-cases (not b.references_valid || not b.has_device_buffer)) [
  | inl q ↦ absurd (ground (arith, rw q at ok))
  | inr q ↦ rw q refl
]

word_found :
    (system : System) (i : ℕ) (p : ParamHeader) (arg : Option KernelArgument)
    → IsGiven arg
    → succeeds (allocate_temporary system i p arg) ≡ true
    → succeeds (track_buffer system i p arg) ≡ true
    → parameter_words
        (value (allocate_temporary system i p arg))
        (value (track_buffer system i p arg))
        arg
      ≡ some (argument_words system i p arg)
unfolding allocate_temporary track_buffer argument_words
word_found system i p none given ok fine = absurd (ground (arith, given))
word_found system i p (some (scalar words)) given ok fine = refl
word_found system i p (some (buffer none)) given ok fine = refl
word_found system i p (some (buffer (some handle))) given ok fine =
    live_words (system.buffer_at handle) (some (buffer (some handle))) fine
word_found system i p (some (temporary_buffer size data_bytes)) given ok fine =
    elim (Bool-cases (get_lowered p)) [
      | inl q ↦ rw q refl
      | inr q ↦ rw q (temporary_words system i size p data_bytes _ (rw q at ok))
    ]

module _ (system : System) (tmp : List (ℕ × Option DeviceBuffer))
    (persistent : List (ℕ × Option ℕ)) where
  -- The loop from index `i` on, where the maps have what the two loops collect from there on.
  explicit_words-found :
      (i : ℕ) (parameters : List ParamHeader) (args : List (Option KernelArgument))
      → length args ≡ length parameters
      → All IsGiven args
      → Agrees i tmp (for_arguments (allocate_temporary system) i parameters args)
      → Agrees i persistent (for_arguments (track_buffer system) i parameters args)
      → explicit_words tmp persistent i args ≡ some (all_argument_words system i parameters args)
  unfolding for_arguments explicit_words
  explicit_words-found i [] [] sized given h g = refl
  explicit_words-found i [] (arg ∷ args) sized given h g = absurd (omega (arith, sized))
  explicit_words-found i (p ∷ parameters) [] sized given h g = absurd (omega (arith, sized))
  explicit_words-found i (p ∷ parameters) (arg ∷ args) sized given h g =
      let (ok, found, later) =
        add_entry-Agrees i tmp (allocate_temporary system i p arg) _
          (for_arguments-Misses (allocate_temporary system) (suc i) i parameters args (omega arith))
          h in
      let (fine, seen, others) =
        add_entry-Agrees i persistent (track_buffer system i p arg) _
          (for_arguments-Misses (track_buffer system) (suc i) i parameters args (omega arith)) g in
      rw
        (
          found,
          seen,
          word_found system i p arg given.0 ok fine,
          explicit_words-found (suc i) parameters args (omega (arith, sized)) given.1 later others,
        )
        refl

-- Where all arguments are given and their buffers are allocated and tracked, the loop that writes
-- the UNIFORMs does not end with CL_INVALID_KERNEL_ARGS: it writes for each argument its words, the
-- device pointer of its buffer, 0 for a NULL pointer and for a lowered parameter, or the address of
-- the memory that was allocated for it.
pub explicit_words-argument_words :
    (system : System) (kernel : Kernel) (tmp : List (ℕ × Option DeviceBuffer))
    (persistent : List (ℕ × Option ℕ))
    → length kernel.args ≡ length kernel.parameters
    → All IsGiven kernel.args
    → allocate_and_track_buffer_arguments system kernel ≡ tracked tmp persistent
    → explicit_words tmp persistent 0 kernel.args
      ≡ some (all_argument_words system 0 kernel.parameters kernel.args)
unfolding allocate_and_track_buffer_arguments
explicit_words-argument_words system kernel tmp persistent sized given h =
    let (first, second) =
      both-Agrees tmp persistent
        (for_arguments (allocate_temporary system) 0 kernel.parameters kernel.args)
        (for_arguments (track_buffer system) 0 kernel.parameters kernel.args) h in
    explicit_words-found system tmp persistent 0 kernel.parameters kernel.args sized given first
      second

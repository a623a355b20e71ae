-- ===== src/KernelArgs/Words.antt =====
-- The words that a value is stored in, for each size of its elements.
use mathlib.Core.List.{append-nil, append_assoc}
use mathlib.Core.Path.{subst}
use native.Mathlib.Nat.{suc-add, add_comm, zero-add, suc-mul, zero-mul}
use vc4cl.Prelude.{
  ℕ, zero, suc, ◌+◌, ◌-◌, ◌*◌, ◌/◌, ◌%◌, ◌^◌, ◌≤◌, ◌<◌, ◌==◌, ◌≡◌, ◌≢◌, refl, sym, ap, ap₂, ◌∙◌,
  ◌⊎◌, inl, inr, Bool, true, false, ◌&&◌, not, if◌then◌else◌, List, [], ◌∷◌, ◌++◌, length,
  get_elem?, take, drop, replicate, min, Option, none, some, some_inj, arith, Bool-cases,
  length-drop, get_elem?-set_self, length-append,
}
use vc4cl.Prelude.Codes.{cl_success, cl_invalid_arg_size}
use vc4cl.Binary.Bytes.{
  word_of_bytes, bytes_of_word, IsBytes, IsBytes-drop, bytes_of_word-word_of_bytes,
}
use vc4cl.Binary.ParamHeader.{
  ParamHeader, get_size, get_vector_elements, get_by_value, get_pointer, get_floating_type,
  get_signed,
}
use vc4cl.KernelArgs.{
  KernelArgument, scalar, Kernel, Surroundings, Parsed, invalid, parsed, sign_extend, element,
  element_words, scalar_words, element_size, supported, parse_literal, parse_arg, store_arg,
  set_found, set_arg,
}

-- The lowest bytes of each word.
abbrev pub low_bytes : ℕ → List ℕ → List ℕ
low_bytes n [] = []
low_bytes n (w ∷ words) = bytes_of_word n w ++ low_bytes n words

low_bytes-append :
    (n : ℕ) (xs ys : List ℕ) → low_bytes n (xs ++ ys) ≡ low_bytes n xs ++ low_bytes n ys
low_bytes-append n [] ys = refl
low_bytes-append n (x ∷ xs) ys =
    ap (λ l. bytes_of_word n x ++ l) (low_bytes-append n xs ys)
    ∙ sym (append_assoc (bytes_of_word n x) (low_bytes n xs) (low_bytes n ys))

module _ {ℓ} {A : Type ℓ} where
  take-add : (m n : ℕ) (xs : List A) → take (m + n) xs ≡ take m xs ++ take n (drop m xs)
  take-add zero n xs = ap (λ k. take k xs) (zero-add n)
  take-add (suc m) zero [] = ap (λ k. take k []) (suc-add m zero)
  take-add (suc m) (suc n) [] = ap (λ k. take k []) (suc-add m (suc n))
  take-add (suc m) n (x ∷ xs) =
      ap (λ k. take k (x ∷ xs)) (suc-add m n) ∙ ap (λ l. x ∷ l) (take-add m n xs)

  drop-drop : (m n : ℕ) (xs : List A) → drop n (drop m xs) ≡ drop (m + n) xs
  drop-drop zero n xs = ap (λ k. drop k xs) (sym (zero-add n))
  drop-drop (suc m) zero [] = ap (λ k. drop k []) (sym (suc-add m zero))
  drop-drop (suc m) (suc n) [] = ap (λ k. drop k []) (sym (suc-add m (suc n)))
  drop-drop (suc m) n (x ∷ xs) = drop-drop m n xs ∙ ap (λ k. drop k (x ∷ xs)) (sym (suc-add m n))

byte_extended : (v : ℕ) → bytes_of_word 1 (sign_extend 8 v) ≡ bytes_of_word 1 v
unfolding bytes_of_word sign_extend
byte_extended v = ground arith

short_extended : (v : ℕ) → bytes_of_word 2 (sign_extend 16 v) ≡ bytes_of_word 2 v
unfolding bytes_of_word sign_extend
short_extended v = ground arith

two_words :
    (v : ℕ) → bytes_of_word 4 (v % 2 ^ 32) ++ bytes_of_word 4 (v / 2 ^ 32) ≡ bytes_of_word 8 v
unfolding bytes_of_word
two_words v = ground arith

-- The sizes of the elements of the types that OpenCL has.
abbrev pub Standard : ℕ → Type 0
Standard size = (size ≡ 1) ⊎ ((size ≡ 2) ⊎ ((size ≡ 4) ⊎ (size ≡ 8)))

Standard-elim {ℓ} : (P : ℕ → Type ℓ) → P 1 → P 2 → P 4 → P 8 → (size : ℕ) → Standard size → P size
Standard-elim P one two four eight size (inl e) = subst P (sym e) one
Standard-elim P one two four eight size (inr (inl e)) = subst P (sym e) two
Standard-elim P one two four eight size (inr (inr (inl e))) = subst P (sym e) four
Standard-elim P one two four eight size (inr (inr (inr e))) = subst P (sym e) eight

whole_element :
    (n : ℕ) (bytes : List ℕ)
    → IsBytes bytes
    → n ≤ length bytes
    → bytes_of_word n (word_of_bytes n bytes) ≡ take n bytes
whole_element n bytes b h =
    let full : n - length bytes ≡ 0 = omega (arith, h) in
    bytes_of_word-word_of_bytes n bytes b
    ∙ ap (λ k. take n bytes ++ replicate k 0) full
    ∙ append-nil (take n bytes)

-- The element, with bytes enough behind its start.
module _ (extends : Bool) (i : ℕ) (bytes : List ℕ) (b : IsBytes bytes) where
  whole_at :
      (n : ℕ)
      → i * n + n ≤ length bytes
      → bytes_of_word n (element n i bytes) ≡ take n (drop (i * n) bytes)
  unfolding element
  whole_at n h =
      whole_element n (drop (i * n) bytes) (IsBytes-drop (i * n) bytes b)
        (omega (arith, h, length-drop (i * n) bytes))

  abbrev Kept : ℕ → Type 0
  Kept n =
      i * n + n ≤ length bytes
      → low_bytes (min n 4) (element_words extends n bytes i) ≡ take n (drop (i * n) bytes)

  byte_kept :
      (e : Bool)
      → bytes_of_word 1 (if e then sign_extend 8 (element 1 i bytes) else element 1 i bytes)
        ≡ bytes_of_word 1 (element 1 i bytes)
  byte_kept true = byte_extended (element 1 i bytes)
  byte_kept false = refl

  short_kept :
      (e : Bool)
      → bytes_of_word 2 (if e then sign_extend 16 (element 2 i bytes) else element 2 i bytes)
        ≡ bytes_of_word 2 (element 2 i bytes)
  short_kept true = short_extended (element 2 i bytes)
  short_kept false = refl

  element-Kept : (n : ℕ) → Standard n → Kept n
  unfolding element_words
  element-Kept =
      Standard-elim Kept (λ h. append-nil _ ∙ byte_kept extends ∙ whole_at 1 h)
        (λ h. append-nil _ ∙ short_kept extends ∙ whole_at 2 h) (λ h. append-nil _ ∙ whole_at 4 h)
        (λ h.
          ap (λ l. bytes_of_word 4 (element 8 i bytes % 2 ^ 32) ++ l) (append-nil _)
          ∙ two_words (element 8 i bytes)
          ∙ whole_at 8 h)

next_room :
    (i count n k : ℕ) → i * n + suc count * n ≤ k → (i * n + n ≤ k) × (suc i * n + count * n ≤ k)
next_room i count n k h = (grind (arith, h), grind (arith, h))

-- The loop keeps all bytes of its elements.
scalar_words_kept :
    (extends : Bool) (n : ℕ) (bytes : List ℕ) (i count : ℕ)
    → Standard n
    → IsBytes bytes
    → i * n + count * n ≤ length bytes
    → low_bytes (min n 4) (scalar_words extends n bytes i count)
      ≡ take (count * n) (drop (i * n) bytes)
unfolding scalar_words
scalar_words_kept extends n bytes i zero st b h =
    ap (λ k. take k (drop (i * n) bytes)) (sym (zero-mul n))
scalar_words_kept extends n bytes i (suc count) st b h =
    let (here, later) = next_room i count n (length bytes) h in
    low_bytes-append (min n 4) (element_words extends n bytes i)
      (scalar_words extends n bytes (suc i) count)
    ∙ ap₂ ◌++◌ (element-Kept extends i bytes b n st here) (
        scalar_words_kept extends n bytes (suc i) count st b later
        ∙ ap (λ k. take (count * n) (drop k bytes)) (suc-mul i n)
        ∙ ap (λ l. take (count * n) l) (sym (drop-drop (i * n) n bytes)))
    ∙ sym (take-add n (count * n) (drop (i * n) bytes))
    ∙ ap (λ k. take k (drop (i * n) bytes)) (add_comm n (count * n) ∙ sym (suc-mul count n))

-- The words of an element.
abbrev pub words_each : ℕ → ℕ
words_each n = if n == 8 then 2 else 1

scalar_words-length :
    (extends : Bool) (n : ℕ) (bytes : List ℕ) (i count : ℕ)
    → length (scalar_words extends n bytes i count) ≡ count * words_each n
unfolding scalar_words element_words
scalar_words-length extends n bytes i zero = sym (zero-mul (words_each n))
scalar_words-length extends n bytes i (suc count) =
    length-append (element_words extends n bytes i) (scalar_words extends n bytes (suc i) count)
    ∙ ap₂ ◌+◌ (one_element n extends) (scalar_words-length extends n bytes (suc i) count)
    ∙ add_comm (words_each n) (count * words_each n)
    ∙ sym (suc-mul count (words_each n))
  where
    one_element : (k : ℕ) (e : Bool) → length (element_words e k bytes i) ≡ words_each k
    one_element k e = ground arith

-- What parse_literal gives for a value that is not passed by value.
abbrev Holds : ParamHeader → ℕ → List ℕ → Option Parsed → Type 0
Holds p size bytes none = Unit
Holds p size bytes (some (invalid code)) = code ≢ cl_success
Holds p size bytes (some (parsed a)) =
    a
    ≡ scalar (
        scalar_words (not (get_floating_type p) && get_signed p)
          (element_size size (get_vector_elements p)) bytes 0 (get_vector_elements p))

size_code : cl_invalid_arg_size ≢ cl_success
size_code e = ground (arith, e)

parse_literal-Holds :
    (p : ParamHeader) (size : ℕ) (bytes : List ℕ)
    → get_by_value p ≡ false
    → Holds p size bytes (parse_literal p size (some bytes))
unfolding parse_literal
parse_literal-Holds p size bytes direct =
    elim (Bool-cases (
      not (get_vector_elements p == 3 && size * 4 % 2 ^ 32 == get_size p * 3)
      && not (size == get_size p))) [
        | inl q ↦ rw q size_code
        | inr q ↦
            rw (q, direct)
              (elim (Bool-cases (get_vector_elements p == 0)) [
                | inl z ↦ rw z tt
                | inr z ↦
                    rw z
                      (elim (Bool-cases
                        (not (supported (element_size size (get_vector_elements p))))) [
                          | inl u ↦ rw u size_code
                          | inr u ↦ rw u refl
                        ])
              ])
      ]

abbrev pub Stored : ℕ → ℕ → List ℕ → List (Option KernelArgument) → ℕ → Type 0
Stored count n bytes args i =
    (words : List ℕ) × (get_elem? args i ≡ some (some (scalar words)))
    × (length words ≡ count * words_each n)
    × (low_bytes (min n 4) words ≡ take (count * n) bytes)

store_arg-Stored :
    (p : ParamHeader) (size : ℕ) (bytes : List ℕ) (kernel next : Kernel) (i : ℕ) (r : Option Parsed)
    → Standard (element_size size (get_vector_elements p))
    → IsBytes bytes
    → get_vector_elements p * element_size size (get_vector_elements p) ≤ length bytes
    → i < length kernel.args
    → Holds p size bytes r
    → store_arg kernel i r ≡ some (next, cl_success)
    → Stored (get_vector_elements p) (element_size size (get_vector_elements p)) bytes next.args i
store_arg-Stored p size bytes kernel next i none st b room fits holds e = absurd (ground (arith, e))
store_arg-Stored p size bytes kernel next i (some (invalid code)) st b room fits holds e =
    absurd (holds (ap (λ r. r.1) (some_inj e)))
store_arg-Stored p size bytes kernel next i (some (parsed a)) st b room fits holds e =
    let n : ℕ = element_size size (get_vector_elements p) in
    let count : ℕ = get_vector_elements p in
    let extends : Bool = not (get_floating_type p) && get_signed p in
    (
      scalar_words extends n bytes 0 count,
      ap (λ r. get_elem? r.0.args i) (sym (some_inj e))
          ∙ get_elem?-set_self kernel.args i (some a) fits
          ∙ ap (λ x. some (some x)) holds,
      scalar_words-length extends n bytes 0 count,
      scalar_words_kept extends n bytes 0 count st b (omega (arith, room, zero-mul n))
          ∙ ap (λ k. take (count * n) (drop k bytes)) (zero-mul n),
    )

-- Where setArg accepts a scalar or a vector of elements of 1, 2, 4 or 8 bytes, it stores for each
-- element one word, or two if it has 8 bytes; and the low bytes of these words (all four, of elements
-- of 4 and 8 bytes) are in order the bytes that were given.
pub set_arg-bytes_kept :
    (env : Surroundings) (kernel next : Kernel) (i size : ℕ) (p : ParamHeader) (bytes : List ℕ)
    → get_elem? kernel.parameters i ≡ some p
    → get_pointer p ≡ false
    → get_by_value p ≡ false
    → i < length kernel.args
    → Standard (element_size size (get_vector_elements p))
    → IsBytes bytes
    → get_vector_elements p * element_size size (get_vector_elements p) ≤ length bytes
    → set_arg env kernel i size (some bytes) ≡ some (next, cl_success)
    → Stored (get_vector_elements p) (element_size size (get_vector_elements p)) bytes next.args i
unfolding set_arg set_found parse_arg
set_arg-bytes_kept env kernel next i size p bytes found direct literal fits st b room e =
    store_arg-Stored p size bytes kernel next i (parse_literal p size (some bytes)) st b room fits
      (parse_literal-Holds p size bytes literal) (rw (found, direct) at e)

three_elements :
    (e : ℕ) → e % 3 ≢ 0 → (3 * e % 3 ≡ 0) × (3 * e / 3 ≡ e) × (4 * e % 3 ≢ 0) × (4 * e / 4 ≡ e)
three_elements e h = (omega arith, omega arith, (λ q. h (omega (arith, q))), omega arith)

vector3_size : (e : ℕ) → e % 3 ≢ 0 → element_size (3 * e) 3 ≡ element_size (4 * e) 3
vector3_size e h = let (m, d, n, q) = three_elements e h in ground (arith, m, d, n, q)

parse_literal-vector3 :
    (p : ParamHeader) (e : ℕ) (value : Option (List ℕ))
    → get_vector_elements p ≡ 3
    → get_size p ≡ 4 * e
    → e % 3 ≢ 0
    → e < 2 ^ 16
    → parse_literal p (3 * e) value ≡ parse_literal p (4 * e) value
unfolding parse_literal
parse_literal-vector3 p e value three size odd small =
    let low : (3 * e * 4 % 2 ^ 32 == 4 * e * 3) ≡ true = ground (arith, small) in
    let same : (4 * e == 4 * e) ≡ true = ground arith in
    rw (three, size, vector3_size e odd) (rw (low, same) (ground arith))

-- A vector of three elements is given with the size of three or of four of them, and setArg does
-- the same on both, errors included, where the size of an element is no multiple of 3.
pub set_arg-vector3 :
    (env : Surroundings) (kernel : Kernel) (i : ℕ) (p : ParamHeader) (e : ℕ)
    (value : Option (List ℕ))
    → get_elem? kernel.parameters i ≡ some p
    → get_pointer p ≡ false
    → get_vector_elements p ≡ 3
    → get_size p ≡ 4 * e
    → e % 3 ≢ 0
    → e < 2 ^ 16
    → set_arg env kernel i (3 * e) value ≡ set_arg env kernel i (4 * e) value
unfolding set_arg set_found parse_arg
set_arg-vector3 env kernel i p e value found direct three size odd small =
    rw (found, direct, parse_literal-vector3 p e value three size odd small) refl

-- ===== src/Binary/Bytes.antt =====
-- writeByteContainer and readByteContainer of shared/BinaryHeader.cpp. A vector of words seen as
-- memory is its bytes, the lowest of each word first: the ARM host is little-endian.
use mathlib.Core.List.{append-nil}
use native.Mathlib.Nat.{zero-sub, sub-zero, suc-sub-suc}
use vc4cl.Prelude.{
  ℕ, zero, suc, ◌+◌, ◌-◌, ◌*◌, ◌/◌, ◌%◌, ◌≤◌, ◌<◌, ◌≡◌, ◌⊎◌, inl, inr, refl, sym, ap, ap₂, ◌∙◌,
  arith, List, [], ◌∷◌, ◌++◌, length, drop, take, replicate, ltb, ◌==◌, if◌then◌else◌, false,
  length-append, length-drop, length-take, take-append-drop,
}
use vc4cl.Binary.Reader.{ok, out_of_bounds, Reader, Reads}

-- The word in the first `n` bytes; bytes that are missing are those that `resize` set to zero.
unfoldable pub word_of_bytes : ℕ → List ℕ → ℕ
word_of_bytes zero bytes = 0
word_of_bytes (suc n) [] = 0
word_of_bytes (suc n) (b ∷ bytes) = b + 256 * word_of_bytes n bytes

unfoldable pub bytes_of_word : ℕ → ℕ → List ℕ
bytes_of_word zero w = []
bytes_of_word (suc n) w = w % 256 ∷ bytes_of_word n (w / 256)

unfoldable pub bytes_of_words : List ℕ → List ℕ
bytes_of_words [] = []
bytes_of_words (w ∷ words) = bytes_of_word 8 w ++ bytes_of_words words

-- sizeof(uint64_t)
abbrev pub word_size : ℕ
word_size = 8

unfoldable pub num_words : ℕ → ℕ
num_words size = size / word_size + (if size % word_size == 0 then 0 else 1)

unfoldable pub fill_words : ℕ → List ℕ → List ℕ
fill_words zero bytes = []
fill_words (suc n) bytes = word_of_bytes 8 bytes ∷ fill_words n (drop 8 bytes)

-- The words that `writeByteContainer` appends to the vector.
unfoldable pub write_byte_container : List ℕ → List ℕ
write_byte_container input = fill_words (num_words (length input)) input

unfoldable pub read_byte_container : ℕ → Reader (List ℕ)
read_byte_container num_bytes words i =
    if ltb (word_size * (length words - i)) num_bytes
    then out_of_bounds
    else ok (take num_bytes (bytes_of_words (drop i words)), i + num_words num_bytes)

-- Every byte is one.
abbrev pub IsBytes : List ℕ → Type 0
IsBytes [] = Unit {0}
IsBytes (b ∷ bytes) = (b < 256) × IsBytes bytes

module _ {ℓ} {A : Type ℓ} where
  take-append : (n : ℕ) (xs ys : List A) → take n (xs ++ ys) ≡ take n xs ++ take (n - length xs) ys
  take-append zero xs ys = rw zero-sub
  take-append (suc n) [] ys = rw sub-zero
  take-append (suc n) (x ∷ xs) ys = rw (take-append n xs ys, suc-sub-suc)

  take_all : (n : ℕ) (xs : List A) → length xs ≤ n → take n xs ≡ xs
  take_all zero [] h = refl
  take_all (suc n) [] h = refl
  take_all zero (x ∷ xs) h = absurd (omega arith)
  take_all (suc n) (x ∷ xs) h = ap (◌∷◌ x) (take_all n xs (omega arith))

pub bytes_of_word-word_of_bytes :
    (n : ℕ) (bytes : List ℕ)
    → IsBytes bytes
    → bytes_of_word n (word_of_bytes n bytes) ≡ take n bytes ++ replicate (n - length bytes) 0
unfolding bytes_of_word word_of_bytes
bytes_of_word-word_of_bytes zero bytes h = rw zero-sub
bytes_of_word-word_of_bytes (suc n) [] h = rw sub-zero (
    ap (◌∷◌ 0)
      (ap (bytes_of_word n) (sym (no_bytes n)) ∙ bytes_of_word-word_of_bytes n [] h ∙ nothing n))
  where
    no_bytes : (k : ℕ) → word_of_bytes k [] ≡ 0
    no_bytes zero = refl
    no_bytes (suc k) = refl

    nothing : (k : ℕ) → take {A = ℕ} k [] ++ replicate (k - 0) 0 ≡ replicate k 0
    nothing zero = refl
    nothing (suc k) = rw sub-zero
bytes_of_word-word_of_bytes (suc n) (b ∷ bytes) h = rw suc-sub-suc (
    ap₂ ◌∷◌ (omega arith)
      (ap (bytes_of_word n) (omega arith) ∙ bytes_of_word-word_of_bytes n bytes h.1))

pub length-bytes_of_words : (words : List ℕ) → length (bytes_of_words words) ≡ 8 * length words
unfolding bytes_of_words bytes_of_word
length-bytes_of_words [] = omega arith
length-bytes_of_words (w ∷ words) = omega (arith, length-bytes_of_words words)

pub length-fill_words : (n : ℕ) (bytes : List ℕ) → length (fill_words n bytes) ≡ n
unfolding fill_words
length-fill_words zero bytes = refl
length-fill_words (suc n) bytes = ap suc (length-fill_words n (drop 8 bytes))

take-replicate-nil : (n m : ℕ) → (n ≡ 0) ⊎ (m ≡ 0) → take {A = ℕ} n (replicate m 0) ≡ []
take-replicate-nil n m (inl e) = rw e
take-replicate-nil zero m (inr e) = refl
take-replicate-nil (suc n) m (inr e) = rw e

take_first_word :
    (bytes : List ℕ)
    → IsBytes bytes
    → take (length bytes) (bytes_of_word 8 (word_of_bytes 8 bytes)) ≡ take 8 bytes
take_first_word bytes h =
    rw
      (
        bytes_of_word-word_of_bytes 8 bytes h,
        take-append (length bytes) (take 8 bytes) (replicate (8 - length bytes) 0),
        take_all (length bytes) (take 8 bytes) (omega (arith, length-take 8 bytes)),
        take-replicate-nil (length bytes - length (take 8 bytes)) (8 - length bytes) short_or_full,
      )
      (append-nil (take 8 bytes))
  where
    short_or_full : (length bytes - length (take 8 bytes) ≡ 0) ⊎ (8 - length bytes ≡ 0)
    short_or_full = grind (arith, length-take 8 bytes)

length-bytes_of_word : (n w : ℕ) → length (bytes_of_word n w) ≡ n
unfolding bytes_of_word
length-bytes_of_word zero w = refl
length-bytes_of_word (suc n) w = ap suc (length-bytes_of_word n (w / 256))

pub IsBytes-drop : (n : ℕ) (bytes : List ℕ) → IsBytes bytes → IsBytes (drop n bytes)
IsBytes-drop zero bytes h = h
IsBytes-drop (suc n) [] h = tt
IsBytes-drop (suc n) (b ∷ bytes) h = IsBytes-drop n bytes h.1

take-fill_words :
    (n : ℕ) (bytes rest : List ℕ)
    → IsBytes bytes
    → length bytes ≤ 8 * n
    → take (length bytes) (bytes_of_words (fill_words n bytes ++ rest)) ≡ bytes
unfolding fill_words bytes_of_words
take-fill_words zero [] rest h fits = refl
take-fill_words zero (b ∷ bytes) rest h fits = absurd (omega arith)
take-fill_words (suc n) bytes rest h fits =
    take-append (length bytes) (bytes_of_word 8 (word_of_bytes 8 bytes)) later
    ∙ ap₂ ◌++◌ (take_first_word bytes h) (
        ap (λ k. take k later) remaining
        ∙ take-fill_words n (drop 8 bytes) rest (IsBytes-drop 8 bytes h)
            (omega (arith, length-drop 8 bytes)))
    ∙ take-append-drop 8 bytes
  where
    later : List ℕ
    later = bytes_of_words (fill_words n (drop 8 bytes) ++ rest)

    remaining :
        length bytes - length (bytes_of_word 8 (word_of_bytes 8 bytes)) ≡ length (drop 8 bytes)
    remaining = omega (arith, length-drop 8 bytes, length-bytes_of_word 8 (word_of_bytes 8 bytes))

pub le-num_words : (n : ℕ) → n ≤ 8 * num_words n
unfolding num_words
le-num_words n = ground arith

-- What was written is read back, whatever stands around it.
pub read-write_byte_container :
    (bytes : List ℕ)
    → IsBytes bytes
    → Reads (read_byte_container (length bytes)) (write_byte_container bytes) bytes
unfolding read_byte_container write_byte_container
read-write_byte_container bytes h words i rest e _ = rw (
  enough,
  e,
  take-fill_words (num_words (length bytes)) bytes rest h (le-num_words (length bytes)),
  size,
)
  where
    size : length (fill_words (num_words (length bytes)) bytes) ≡ num_words (length bytes)
    size = length-fill_words (num_words (length bytes)) bytes

    enough : ltb (8 * (length words - i)) (length bytes) ≡ false
    enough = ground (
      arith,
      le-num_words (length bytes),
      size,
      length-drop i words,
      ap length e,
      length-append (fill_words (num_words (length bytes)) bytes) rest,
    )

-- ===== src/Executor/Layout.antt =====
-- The UNIFORMs in the buffer of a kernel execution: how many words there are.
use vc4cl.Prelude.{
  ℕ, zero, suc, ◌+◌, ◌/◌, ◌%◌, ◌^◌, ◌<◌, ◌==◌, ◌≡◌, refl, sym, ap, ◌∙◌, inl, inr, not, List, [],
  ◌∷◌, ◌++◌, length, length-append, arith, Bool-cases, two-pow-suc,
}
use native.Mathlib.Nat.{div-div-eq-div-mul, div-eq_of_lt, zero-add, suc-add, div-one}
use vc4cl.Bitfield.Laws.{get_entry-mask}
use vc4cl.Binary.KernelHeader.{uniform_used, count_bits, count_uniforms}
use vc4cl.WorkSizes.{Sizes}
use vc4cl.Executor.{
  write_used, Execution, work_item_words, set_work_item_info, concat, loop_words, uniform_block,
}

bit_used : (v pos : ℕ) → uniform_used v pos ≡ not (v / 2 ^ pos % 2 == 0)
unfolding uniform_used
bit_used v pos = rw (get_entry-mask v pos 1) refl

next_power : (v pos : ℕ) → v / 2 ^ pos / 2 ≡ v / 2 ^ suc pos
next_power v pos =
    div-div-eq-div-mul v (2 ^ pos) 2 ∙ ap (λ m. v / m) (omega (arith, two-pow-suc pos))

half_power : (v m : ℕ) → v / 2 / 2 ^ m ≡ v / 2 ^ suc m
half_power v m = div-div-eq-div-mul v 2 (2 ^ m) ∙ ap (λ k. v / k) (sym (two-pow-suc m))

-- One word for each flag that is set.
length-write_used :
    (v pos : ℕ) (words : List ℕ)
    → length (write_used v pos words) ≡ count_bits (length words) (v / 2 ^ pos)
unfolding write_used count_bits
length-write_used v pos [] = refl
length-write_used v pos (word ∷ words) =
    let later = length-write_used v (suc pos) words in
    rw (bit_used v pos, next_power v pos)
      (elim (Bool-cases (v / 2 ^ pos % 2 == 0)) [
        | inl q ↦ rw q (ground (arith, later, q))
        | inr q ↦ rw q (ground (arith, later, q))
      ])

count_bits-add : (m n v : ℕ) → count_bits (m + n) v ≡ count_bits m v + count_bits n (v / 2 ^ m)
unfolding count_bits
count_bits-add zero n v = rw (zero-add n, div-one v) (omega arith)
count_bits-add (suc m) n v =
    rw (suc-add m n, count_bits-add m n (v / 2), half_power v m) (omega arith)

count_bits_zero : (n : ℕ) → count_bits n 0 ≡ 0
unfolding count_bits
count_bits_zero zero = refl
count_bits_zero (suc n) = omega (arith, count_bits_zero n)

-- The flags end at position 16.
count_uniforms-split :
    (v : ℕ) → v < 2 ^ 17 → count_uniforms v ≡ count_bits 13 v + count_bits 4 (v / 2 ^ 13)
unfolding count_uniforms
count_uniforms-split v h =
    let low = count_bits-add 17 15 v in
    let parts = count_bits-add 13 4 v in
    let high : v / 2 ^ 17 ≡ 0 = div-eq_of_lt h in
    let none : count_bits 15 (v / 2 ^ 17) ≡ 0 = rw high (count_bits_zero 15) in
    omega (arith, low, parts, none)

block_words :
    (arguments : ℕ) {first last all low high total rest : ℕ}
    → all ≡ first + rest
    → rest ≡ arguments + last
    → first ≡ low
    → last ≡ high
    → total ≡ low + high
    → all ≡ total + arguments
block_words arguments a b c d e = omega arith

-- Where no flags but the 17 of KernelUniforms are set, the UNIFORMs of one QPU are as many words
-- as countUniforms gives, and those of the arguments.
pub uniform_block-counted :
    (args : Execution) (group local : Sizes) (global_data address : ℕ)
    → args.uniforms_used < 2 ^ 17
    → length (uniform_block args group local global_data address)
      ≡ count_uniforms args.uniforms_used + length (concat args.arguments)
unfolding uniform_block set_work_item_info
uniform_block-counted args group local global_data address h =
    let v : ℕ = args.uniforms_used in
    let first = set_work_item_info args group local global_data in
    let last = write_used v 13 (loop_words args address) in
    let first_words : length first ≡ count_bits 13 v =
      length-write_used v 0 (work_item_words args group local global_data)
      ∙ ap (count_bits 13) (div-one v) in
    let last_words : length last ≡ count_bits 4 (v / 2 ^ 13) =
      length-write_used v 13 (loop_words args address) in
    block_words (length (concat args.arguments))
      (length-append first (concat args.arguments ++ last))
      (length-append (concat args.arguments) last) first_words last_words (count_uniforms-split v h)

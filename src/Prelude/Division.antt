-- ===== src/Prelude/Division.antt =====
-- Division with remainder, for positions that are built from a row and a place in it.
use Prim.Native.Nat.{ℕ, suc, ◌+◌, ◌*◌, ◌/◌, ◌%◌, ◌≤◌, ◌<◌}
use mathlib.Core.Path.{◌≡◌, ap, ◌∙◌}
use native.Mathlib.Nat.{
  mod-add-div, mul-add-div_right, mul-add-mod_self_right, div-eq_of_lt, mod-eq_of_lt, mod-lt,
}
use native.Mathlib.Omega.{arith}

positive : (lo n : ℕ) → lo < n → 0 < n
positive lo n h = omega (arith, h)

pub pair-div : (hi lo n : ℕ) → lo < n → (hi * n + lo) / n ≡ hi
pair-div hi lo n h = omega (arith, mul-add-div_right (positive lo n h) hi lo, div-eq_of_lt h)

pub pair-mod : (hi lo n : ℕ) → lo < n → (hi * n + lo) % n ≡ lo
pair-mod hi lo n h = mul-add-mod_self_right hi n lo ∙ mod-eq_of_lt h

pub div-mod_join : (v n : ℕ) → v / n * n + v % n ≡ v
div-mod_join v n = grind (arith, mod-add-div v n)

pub div-lt : (v k n : ℕ) → v < k * n → v / n < k
div-lt v k n h = grind (arith, div-mod_join v n)

pub mod_eq_zero : (v n : ℕ) → v % n ≡ 0 → v ≡ v / n * n
mod_eq_zero v n h = omega (arith, div-mod_join v n, h)

-- The next number, in the same row or at the start of the next one.
pub suc-row : (v n : ℕ) → 0 < n → suc (v % n) ≡ n → (suc v / n ≡ suc (v / n)) × (suc v % n ≡ 0)
suc-row v n h g =
    let next : suc v ≡ suc (v / n) * n + 0 = grind (arith, div-mod_join v n, g) in
    (
      ap (λ m. m / n) next ∙ pair-div (suc (v / n)) 0 n h,
      ap (λ m. m % n) next ∙ pair-mod (suc (v / n)) 0 n h,
    )

pub suc-place : (v n : ℕ) → suc (v % n) < n → (suc v / n ≡ v / n) × (suc v % n ≡ suc (v % n))
suc-place v n g =
    let next : suc v ≡ v / n * n + suc (v % n) = omega (arith, div-mod_join v n) in
    (
      ap (λ m. m / n) next ∙ pair-div (v / n) (suc (v % n)) n g,
      ap (λ m. m % n) next ∙ pair-mod (v / n) (suc (v % n)) n g,
    )

pub quotient-le : (v n q : ℕ) → 0 < n → q * n ≤ v → q ≤ v / n
quotient-le v n q h g = grind (arith, div-mod_join v n, mod-lt v h)

pub prod_pos : (a b : ℕ) → 0 < a → 0 < b → 0 < a * b
prod_pos a b h g = grind arith

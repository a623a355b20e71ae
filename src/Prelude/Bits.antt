-- ===== src/Prelude/Bits.antt =====
-- The bitwise operations read digit by digit: the laws at a variable that the libraries lack.
use Prim.Native.Nat.{
  ℕ, zero, suc, ◌+◌, ◌-◌, ◌*◌, ◌/◌, ◌%◌, ◌^◌, ◌≤◌, ◌<◌, min, max, bit_and, bit_or, bit_xor, digits,
  bit_and-bitwise, bit_or-bitwise, bit_xor-bitwise, differ,
}
use mathlib.Core.Path.{◌≡◌, refl, sym, ap, ap₂, ◌∙◌}
use native.Mathlib.Nat.{
  pow-suc, one-le-pow, div-div-eq-div-mul, mod-add-div, zero-add, suc-add, mul-add-div_right,
  div-eq_of_lt, mul-add-mod_self_right, mod-eq_of_lt, mod-mod_of_dvd, dvd-mul_right, mod-lt,
  mod-one, mod-add-div',
}
use native.Mathlib.Omega.{arith}

-- What an operation does to the digits of two numbers: `past` is for a first number that has none left.
module _ (past : ℕ → ℕ) (digit : ℕ → ℕ → ℕ) where
  digits-none : (n b : ℕ) → digits past digit n 0 b ≡ past b
  digits-none zero b = refl
  digits-none (suc n) b = refl

  -- Any count that covers the first number gives the same.
  digits_covered : (a b n k : ℕ) → a ≤ k → a ≤ n → digits past digit k a b ≡ digits past digit n a b
  digits_covered zero b n k = λ h g. digits-none k b ∙ sym (digits-none n b)
  digits_covered (suc a) b zero k = λ h g. absurd (omega arith)
  digits_covered (suc a) b (suc n) zero = λ h g. absurd (omega arith)
  digits_covered (suc a) b (suc n) (suc k) = λ h g.
      ap (λ (q : ℕ). q * 2 + digit (suc a % 2) (b % 2))
        (digits_covered (suc a / 2) (b / 2) n k (omega arith) (omega arith))

  lowest_digit :
      (op : ℕ → ℕ → ℕ)
      → ((x y : ℕ) → op x y ≡ digits past digit x x y)
      → (a b : ℕ) → op (suc a) b ≡ digit (suc a % 2) (b % 2) + 2 * op (suc a / 2) (b / 2)
  lowest_digit op is a b = omega (
    arith,
    is (suc a) b,
    is (suc a / 2) (b / 2),
    digits_covered (suc a / 2) (b / 2) (suc a / 2) a (omega arith) (omega arith),
  )

-- From the half of a number to the number.
by_halving : (P : ℕ → Type 0) → P 0 → ((n : ℕ) → P (suc n / 2) → P (suc n)) → (n : ℕ) → P n
by_halving P base step n = below n n (omega arith)
  where
    below : (bound m : ℕ) → m ≤ bound → P m
    below bound zero h = base
    below zero (suc m) h = absurd (omega arith)
    below (suc bound) (suc m) h = step m (below bound (suc m / 2) (omega arith))

pub bit_and-lowest : (v u : ℕ) → bit_and v u ≡ min (v % 2) (u % 2) + 2 * bit_and (v / 2) (u / 2)
bit_and-lowest (suc v) = lowest_digit (λ y. 0) min bit_and bit_and-bitwise v
bit_and-lowest zero = λ u. omega (arith, bit_and-bitwise 0 (u / 2), bit_and-bitwise 0 u)

pub bit_or-lowest : (v u : ℕ) → bit_or v u ≡ max (v % 2) (u % 2) + 2 * bit_or (v / 2) (u / 2)
bit_or-lowest (suc v) = lowest_digit (λ y. y) max bit_or bit_or-bitwise v
bit_or-lowest zero = λ u. omega (arith, bit_or-bitwise 0 (u / 2), bit_or-bitwise 0 u)

zero-bit_xor : (b : ℕ) → bit_xor 0 b ≡ b
zero-bit_xor b = bit_xor-bitwise 0 b

zero-bit_or : (b : ℕ) → bit_or 0 b ≡ b
zero-bit_or b = bit_or-bitwise 0 b

zero-bit_and : (b : ℕ) → bit_and 0 b ≡ 0
zero-bit_and b = bit_and-bitwise 0 b

pub two-pow-suc : (k : ℕ) → 2 ^ suc k ≡ 2 * 2 ^ k
two-pow-suc k = omega (arith, pow-suc 2 k)

pub double_shift : (k q : ℕ) → 2 * (q * 2 ^ k) ≡ q * 2 ^ suc k
double_shift k q = grind (arith, pow-suc 2 k)

pub two-pow-pos : (k : ℕ) → 0 < 2 ^ k
two-pow-pos k = one-le-pow k 2 (omega arith)

div_double : (v m : ℕ) → v / (2 * m) ≡ v / 2 / m
div_double v m = sym (div-div-eq-div-mul v 2 m)

mod_double : (v m : ℕ) → v % (2 * m) ≡ 2 * (v / 2 % m) + v % 2
mod_double v m =
    omega
      (arith, mod-add-div v (2 * m), mod-add-div (v / 2) m, ap (λ (t : ℕ). m * t) (div_double v m))

-- `mask & v` for a mask of `k` low bits.
pub mask-bit_and : (k v : ℕ) → bit_and (2 ^ k - 1) v ≡ v % 2 ^ k
mask-bit_and zero v = omega (arith, zero-bit_and v)
mask-bit_and (suc k) v = omega (
  arith,
  bit_and-lowest (2 ^ suc k - 1) v,
  two-pow-suc k,
  two-pow-pos k,
  mask-bit_and k (v / 2),
  mod_double v (2 ^ k),
  ap (λ (t : ℕ). v % t) (two-pow-suc k),
  ap (λ (t : ℕ). bit_and t (v / 2)) half,
)
  where
    half : (2 ^ suc k - 1) / 2 ≡ 2 ^ k - 1
    half = omega (arith, two-pow-suc k, two-pow-pos k)

bit_xor-lowest : (v u : ℕ) → bit_xor v u ≡ differ (v % 2) (u % 2) + 2 * bit_xor (v / 2) (u / 2)
bit_xor-lowest (suc v) = lowest_digit (λ y. y) differ bit_xor bit_xor-bitwise v
bit_xor-lowest zero = λ u. omega (arith, bit_xor-bitwise 0 (u / 2), bit_xor-bitwise 0 u)

-- The same on numbers given by their lowest digit.
module _ (a b d e : ℕ) where
  bit_and_digits : d < 2 → e < 2 → bit_and (2 * a + d) (2 * b + e) ≡ 2 * bit_and a b + min d e
  bit_and_digits h g = ground (arith, bit_and-lowest (2 * a + d) (2 * b + e))

  bit_or_digits : d < 2 → e < 2 → bit_or (2 * a + d) (2 * b + e) ≡ 2 * bit_or a b + max d e
  bit_or_digits h g = ground (arith, bit_or-lowest (2 * a + d) (2 * b + e))

  bit_xor_digits : d < 2 → e < 2 → bit_xor (2 * a + d) (2 * b + e) ≡ 2 * bit_xor a b + differ d e
  bit_xor_digits h g = ground (arith, bit_xor-lowest (2 * a + d) (2 * b + e))

ones-suc : (k : ℕ) → 2 ^ suc k - 1 ≡ 2 * (2 ^ k - 1) + 1
ones-suc k = omega (arith, two-pow-suc k, two-pow-pos k)

halves : (v : ℕ) → v ≡ 2 * (v / 2) + v % 2
halves v = omega arith

bit_and_ones : (w v : ℕ) → v < 2 ^ w → bit_and v (2 ^ w - 1) ≡ v
bit_and_ones zero zero h = refl
bit_and_ones zero (suc v) h = absurd (omega arith)
bit_and_ones (suc w) v h = omega (
  arith,
  ap₂ bit_and (halves v) (ones-suc w),
  bit_and_digits (v / 2) (2 ^ w - 1) (v % 2) 1 (omega arith) (omega arith),
  bit_and_ones w (v / 2) (omega (arith, two-pow-suc w)),
)

-- The complement of a mask at the low end clears the digits under it.
clear_low :
    (k w v : ℕ) → k ≤ w → v < 2 ^ w → bit_and v (bit_xor (2 ^ k - 1) (2 ^ w - 1)) + v % 2 ^ k ≡ v
clear_low zero w v h g = rw (zero-bit_xor (2 ^ w - 1)) (omega (arith, bit_and_ones w v g))
clear_low (suc k) zero v h g = absurd (omega arith)
clear_low (suc k) (suc w) v h g =
    let inner : ℕ = bit_xor (2 ^ k - 1) (2 ^ w - 1) in
    omega (
      arith,
      ap (bit_and v) (
          ap₂ bit_xor (ones-suc k) (ones-suc w)
          ∙ bit_xor_digits (2 ^ k - 1) (2 ^ w - 1) 1 1 (omega arith) (omega arith)),
      ap (λ (t : ℕ). bit_and t (2 * inner + 0)) (halves v),
      bit_and_digits (v / 2) inner (v % 2) 0 (omega arith) (omega arith),
      clear_low k w (v / 2) (omega arith) (omega (arith, two-pow-suc w)),
      ap (λ (t : ℕ). v % t) (two-pow-suc k),
      mod_double v (2 ^ k),
    )

pub clear_field :
    (p k w v : ℕ)
    → p + k ≤ w
    → v < 2 ^ w
    → bit_and v (bit_xor ((2 ^ k - 1) * 2 ^ p) (2 ^ w - 1)) + v / 2 ^ p % 2 ^ k * 2 ^ p ≡ v
clear_field zero k w v h g = omega (
  arith,
  clear_low k w v (omega arith) g,
  ap (λ (t : ℕ). bit_and v (bit_xor t (2 ^ w - 1))) unit,
  ap (λ (t : ℕ). t % 2 ^ k) whole,
)
  where
    unit : (2 ^ k - 1) * 2 ^ 0 ≡ 2 ^ k - 1
    unit = omega arith

    whole : v / 2 ^ 0 ≡ v
    whole = omega arith
clear_field (suc p) k zero v h g = absurd (omega arith)
clear_field (suc p) k (suc w) v h g =
    let inner : ℕ = bit_xor ((2 ^ k - 1) * 2 ^ p) (2 ^ w - 1) in
    omega (
      arith,
      ap (bit_and v) (
          ap₂ bit_xor shifted (ones-suc w)
          ∙ bit_xor_digits ((2 ^ k - 1) * 2 ^ p) (2 ^ w - 1) 0 1 (omega arith) (omega arith)),
      ap (λ (t : ℕ). bit_and t (2 * inner + 1)) (halves v),
      bit_and_digits (v / 2) inner (v % 2) 1 (omega arith) (omega arith),
      clear_field p k w (v / 2) (omega arith) (omega (arith, two-pow-suc w)),
      double_shift p (v / 2 ^ suc p % 2 ^ k),
      ap (λ (t : ℕ). 2 * (t % 2 ^ k * 2 ^ p)) deeper,
    )
  where
    shifted : (2 ^ k - 1) * 2 ^ suc p ≡ 2 * ((2 ^ k - 1) * 2 ^ p) + 0
    shifted = omega (arith, double_shift p (2 ^ k - 1))

    deeper : v / 2 ^ suc p ≡ v / 2 / 2 ^ p
    deeper = rw (two-pow-suc p) (div_double v (2 ^ p))

bit_or-zero : (a : ℕ) → bit_or a 0 ≡ a
bit_or-zero =
    by_halving (λ n. bit_or n 0 ≡ n) refl (λ n h. omega (arith, h, bit_or-lowest (suc n) 0))

bit_or_low : (k hi x : ℕ) → x < 2 ^ k → bit_or (hi * 2 ^ k) x ≡ hi * 2 ^ k + x
bit_or_low zero hi zero h = omega (arith, bit_or-zero (hi * 2 ^ 0))
bit_or_low zero hi (suc x) h = absurd (omega arith)
bit_or_low (suc k) hi x h = omega (
  arith,
  ap₂ bit_or shifted (halves x),
  bit_or_digits (hi * 2 ^ k) (x / 2) 0 (x % 2) (omega arith) (omega arith),
  bit_or_low k hi (x / 2) (omega (arith, two-pow-suc k)),
  shifted,
)
  where
    shifted : hi * 2 ^ suc k ≡ 2 * (hi * 2 ^ k) + 0
    shifted = omega (arith, double_shift k hi)

-- `|` of numbers whose digits do not meet is their sum.
pub bit_or_disjoint :
    (p k hi x lo : ℕ)
    → x < 2 ^ k
    → lo < 2 ^ p
    → bit_or (hi * 2 ^ k * 2 ^ p + lo) (x * 2 ^ p) ≡ (hi * 2 ^ k + x) * 2 ^ p + lo
bit_or_disjoint zero k hi x zero h g =
    omega (arith, ap₂ bit_or (unit (hi * 2 ^ k)) (unit' x), bit_or_low k hi x h)
  where
    unit : (n : ℕ) → n * 2 ^ 0 + 0 ≡ n
    unit n = omega arith

    unit' : (n : ℕ) → n * 2 ^ 0 ≡ n
    unit' n = omega arith
bit_or_disjoint zero k hi x (suc lo) h g = absurd (omega arith)
bit_or_disjoint (suc p) k hi x lo h g = omega (
  arith,
  ap₂ bit_or left right,
  bit_or_digits (hi * 2 ^ k * 2 ^ p + lo / 2) (x * 2 ^ p) (lo % 2) 0 (omega arith) (omega arith),
  bit_or_disjoint p k hi x (lo / 2) h (omega (arith, two-pow-suc p)),
  double_shift p (hi * 2 ^ k + x),
)
  where
    left : hi * 2 ^ k * 2 ^ suc p + lo ≡ 2 * (hi * 2 ^ k * 2 ^ p + lo / 2) + lo % 2
    left = omega (arith, double_shift p (hi * 2 ^ k))

    right : x * 2 ^ suc p ≡ 2 * (x * 2 ^ p) + 0
    right = omega (arith, double_shift p x)

pub two-pow-add : (a b : ℕ) → 2 ^ (a + b) ≡ 2 ^ a * 2 ^ b
two-pow-add zero b = rw (zero-add b) (omega arith)
two-pow-add (suc a) b =
    rw (suc-add a b, two-pow-suc (a + b), two-pow-suc a)
      (omega (arith, ap (λ (t : ℕ). 2 * t) (two-pow-add a b)))

-- A larger power is a multiple of a smaller one.
pub two-pow-split : (a b : ℕ) → a ≤ b → 2 ^ b ≡ 2 ^ a * 2 ^ (b - a)
two-pow-split a b h = ap (◌^◌ 2) (omega arith) ∙ two-pow-add a (b - a)

-- A number at or above a power of two, read back by quotient and remainder.
module _ (q p r : ℕ) (fits : r < 2 ^ p) where
  pub div-shifted : (q * 2 ^ p + r) / 2 ^ p ≡ q
  div-shifted = rw (mul-add-div_right (two-pow-pos p) q r, div-eq_of_lt fits) (omega arith)

  pub mod-shifted : (q * 2 ^ p + r) % 2 ^ p ≡ r
  mod-shifted = rw (mul-add-mod_self_right q (2 ^ p) r) (mod-eq_of_lt fits)

pub mod_mod-two-pow : (a b v : ℕ) → a ≤ b → v % 2 ^ b % 2 ^ a ≡ v % 2 ^ a
mod_mod-two-pow a b v h =
    rw (two-pow-split a b h) (mod-mod_of_dvd (2 ^ a) v (dvd-mul_right (2 ^ a) (2 ^ (b - a))))

pub pair-lt : (hi lo m n : ℕ) → hi < m → lo < n → hi * n + lo < m * n
pair-lt hi lo m n h g = grind arith

pub two-pow_mono : (a b : ℕ) → a ≤ b → 2 ^ a ≤ 2 ^ b
two-pow_mono a b h = rw (two-pow-split a b h) (grow (2 ^ a) (2 ^ (b - a)) (two-pow-pos (b - a)))
  where
    grow : (x y : ℕ) → 0 < y → x ≤ x * y
    grow x y g = grind arith

-- The digits from `q` up to `q + j` depend on the low `q + j` digits alone.
pub slice-mod : (v q j : ℕ) → v / 2 ^ q % 2 ^ j ≡ v % 2 ^ (q + j) / 2 ^ q
slice-mod v q j = sym (
    ap (λ (t : ℕ). t / 2 ^ q)
      (ap (λ (t : ℕ). t % 2 ^ (q + j)) parts
        ∙ mod-shifted (v / 2 ^ q / 2 ^ j) (q + j) (v / 2 ^ q % 2 ^ j * 2 ^ q + v % 2 ^ q) small)
    ∙ div-shifted (v / 2 ^ q % 2 ^ j) q (v % 2 ^ q) (mod-lt v (two-pow-pos q)))
  where
    parts : v ≡ v / 2 ^ q / 2 ^ j * 2 ^ (q + j) + (v / 2 ^ q % 2 ^ j * 2 ^ q + v % 2 ^ q)
    parts = omega (
      arith,
      mod-add-div' v (2 ^ q),
      ap (λ (t : ℕ). t * 2 ^ q) (mod-add-div' (v / 2 ^ q) (2 ^ j)),
      ap (λ (t : ℕ). v / 2 ^ q / 2 ^ j * t) (two-pow-add q j),
    )

    small : v / 2 ^ q % 2 ^ j * 2 ^ q + v % 2 ^ q < 2 ^ (q + j)
    small = omega (
      arith,
      pair-lt (v / 2 ^ q % 2 ^ j) (v % 2 ^ q) (2 ^ j) (2 ^ q) (mod-lt (v / 2 ^ q) (two-pow-pos j))
          (mod-lt v (two-pow-pos q)),
      two-pow-add q j,
    )

bit_and-zero : (a : ℕ) → bit_and a 0 ≡ 0
bit_and-zero =
    by_halving (λ n. bit_and n 0 ≡ 0) refl (λ n h. omega (arith, h, bit_and-lowest (suc n) 0))

-- `v & mask` and `lo | (x << p)`, as `mask-bit_and` and `bit_or_disjoint` with fewer parts.
pub bit_and-mask : (k v : ℕ) → bit_and v (2 ^ k - 1) ≡ v % 2 ^ k
bit_and-mask zero v = rw mod-one (bit_and-zero v)
bit_and-mask (suc k) v = omega (
  arith,
  ap₂ bit_and (halves v) (ones-suc k),
  bit_and_digits (v / 2) (2 ^ k - 1) (v % 2) 1 (omega arith) (omega arith),
  bit_and-mask k (v / 2),
  ap (λ (t : ℕ). v % t) (two-pow-suc k),
  mod_double v (2 ^ k),
)

pub bit_or_above : (p k x lo : ℕ) → x < 2 ^ k → lo < 2 ^ p → bit_or lo (x * 2 ^ p) ≡ x * 2 ^ p + lo
bit_or_above p k x lo h g =
    ap (λ (t : ℕ). bit_or t (x * 2 ^ p)) (omega arith)
    ∙ bit_or_disjoint p k 0 x lo h g
    ∙ omega arith

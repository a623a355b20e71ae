-- ===== src/WorkSizes/Split.antt =====
-- split_compile_work_size and split_global_work_size: the sizes that the runtime chooses itself.
use vc4cl.Prelude.{
  ℕ, zero, suc, ◌*◌, ◌%◌, ◌^◌, ◌==◌, leb, leb→le, ◌≤◌, ◌<◌, ◌≡◌, refl, inl, inr, ◌&&◌, some, arith,
  Bool-cases, max,
}
use native.Mathlib.Nat.{mod_self, mod-one, mod-le}
use vc4cl.WorkSizes.{
  Sizes, Kernel, max_group_size, product, largest_divisor, split_global_work_size,
}

-- Each local size divides the global size of its dimension, and a work-group fits the limit.
pub record Fits (kernel : Kernel) (global local : Sizes) : Type 0 where
  pub divides_x : global.x % local.x ≡ 0
  pub divides_y : global.y % local.y ≡ 0
  pub divides_z : global.z % local.z ≡ 0
  pub limited : product local ≤ max_group_size kernel

largest_divisor-total :
    (limit global_x n : ℕ)
    → 1 ≤ limit
    → 1 ≤ n
    → (size : ℕ) × (largest_divisor limit global_x n ≡ some size)
      × (global_x % size ≡ 0)
      × (size ≤ limit)
largest_divisor-total limit global_x zero h g = absurd (omega (arith, g))
largest_divisor-total limit global_x (suc zero) h g =
    elim (Bool-cases (global_x % 1 == 0 && leb 1 limit)) [
      | inl q ↦ (1, rw q refl, mod-one global_x, h)
      | inr q ↦ absurd (ground (arith, q, mod-one global_x, h))
    ]
largest_divisor-total limit global_x (suc (suc n)) h g =
    elim (Bool-cases (global_x % suc (suc n) == 0 && leb (suc (suc n)) limit)) [
      | inl q ↦ (suc (suc n), rw q refl, ground (arith, q), ground (arith, q))
      | inr q ↦ rw q (largest_divisor-total limit global_x (suc n) h (omega arith))
    ]

positive-max_group_size : (q m : ℕ) → 0 < q → 1 ≤ q * max m 1
positive-max_group_size q m h = grind arith

product-line : (size limit : ℕ) → size ≤ limit → product (record { x = size; y = 1; z = 1 }) ≤ limit
product-line size limit h = omega (arith, h, mod-le (size * 1 * 1) (2 ^ 32))

-- With at least one QPU the splitting of the global size always finds local sizes: each divides
-- the global size of its dimension, and their product, modulo 2 ^ 32, is at most the number of
-- QPUs times the merge factor.
pub split_global_work_size-Fits :
    (kernel : Kernel) (global : Sizes)
    → 0 < kernel.num_qpus
    → (local : Sizes) × (split_global_work_size kernel global ≡ some local)
      × Fits kernel global local
unfolding split_global_work_size
split_global_work_size-Fits kernel global h =
    elim (Bool-cases (leb (product global) (max_group_size kernel))) [
      | inl q ↦ (
        global,
        rw q refl,
        record {
          divides_x = mod_self global.x;
          divides_y = mod_self global.y;
          divides_z = mod_self global.z;
          limited = leb→le (product global) (max_group_size kernel) q;
        },
      )
      | inr q ↦
          let positive = positive-max_group_size kernel.num_qpus kernel.work_item_merge_factor h in
          let (size, found, divides, small) =
            largest_divisor-total (max_group_size kernel) global.x (max_group_size kernel) positive
              positive in
          (
            record { x = size; y = 1; z = 1 },
            rw (q, found) refl,
            record {
              divides_x = divides;
              divides_y = mod-one global.y;
              divides_z = mod-one global.z;
              limited = product-line size (max_group_size kernel) small;
            },
          )
    ]

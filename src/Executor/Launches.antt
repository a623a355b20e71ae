-- ===== src/Executor/Launches.antt =====
-- increment_index, and the order in which the work-groups are launched.
use vc4cl.Prelude.{
  ℕ, zero, suc, ◌+◌, ◌-◌, ◌*◌, ◌/◌, ◌%◌, ◌≤◌, ◌<◌, ◌==◌, ltb, leb, lt→ltb, ge→ltb, ◌≡◌, refl, ap,
  inl, inr, true, List, [], ◌∷◌, arith, Bool-cases,
}
use native.Mathlib.Nat.{mod-lt, zero-div, zero-mod}
use vc4cl.Prelude.Division.{div-lt, prod_pos, quotient-le, suc-row, suc-place}
use vc4cl.WorkSizes.{Sizes}
use vc4cl.Executor.{increment_index, launches, first_group}

-- The n-th group, the first dimension first.
unfoldable pub group_at : Sizes → ℕ → Sizes
group_at limits n = record {
  x = n % limits.x;
  y = n / limits.x % limits.y;
  z = n / limits.x / limits.y;
}

past_end : (r l : ℕ) → leb l (r + 1) ≡ true → r < l → r + 1 - l ≡ 0
past_end r l h g = ground (arith, h, g)

increment_index-group_at :
    (limits : Sizes) (n : ℕ)
    → 0 < limits.x
    → 0 < limits.y
    → increment_index (group_at limits n) limits 1
      ≡ (group_at limits (suc n), ltb (suc n / limits.x / limits.y) limits.z)
unfolding increment_index group_at
increment_index-group_at limits n h_x h_y =
    let place_x = mod-lt n h_x in
    let place_y = mod-lt (n / limits.x) h_y in
    elim (Bool-cases (leb limits.x (n % limits.x + 1))) [
      | inr p ↦
          let (row, place) = suc-place n limits.x (ground (arith, p, place_x)) in
          rw (p, row, place)
            (ap
              (λ x. (
                record { x = x; y = n / limits.x % limits.y; z = n / limits.x / limits.y },
                ltb (n / limits.x / limits.y) limits.z,
              ))
              (omega arith))
      | inl p ↦
          let (row, place) = suc-row n limits.x h_x (ground (arith, p, place_x)) in
          elim (Bool-cases (suc (n / limits.x % limits.y) == limits.y)) [
            | inl q ↦
                let (row_y, next_y) = suc-row (n / limits.x) limits.y h_y (ground (arith, q)) in
                rw (p, q, row, place, row_y, next_y)
                  (ap
                    (λ x. (
                      record { x = x; y = 0; z = suc (n / limits.x / limits.y) },
                      ltb (suc (n / limits.x / limits.y)) limits.z,
                    ))
                    (past_end (n % limits.x) limits.x p place_x))
            | inr q ↦
                let (row_y, next_y) =
                  suc-place (n / limits.x) limits.y (ground (arith, q, place_y)) in
                rw (p, q, row, place, row_y, next_y)
                  (ap
                    (λ x. (
                      record {
                        x = x;
                        y = suc (n / limits.x % limits.y);
                        z = n / limits.x / limits.y;
                      },
                      ltb (n / limits.x / limits.y) limits.z,
                    ))
                    (past_end (n % limits.x) limits.x p place_x))
          ]
    ]

abbrev pub groups_from : Sizes → ℕ → ℕ → List Sizes
groups_from limits n zero = []
groups_from limits n (suc count) = group_at limits n ∷ groups_from limits (suc n) count

last_group : (n x y z : ℕ) → 0 < x → 0 < y → z * y * x ≤ n → z ≤ n / x / y
last_group n x y z h_x h_y h = quotient-le (n / x) y z h_y (quotient-le n x (z * y) h_x h)

next_inside : (n x y z : ℕ) → n < z * y * x → n / x / y < z
next_inside n x y z h = div-lt (n / x) z y (div-lt n (z * y) x h)

launches-groups_from :
    (limits : Sizes) (count fuel n : ℕ)
    → 0 < limits.x
    → 0 < limits.y
    → count ≤ fuel
    → n + suc count ≡ limits.z * limits.y * limits.x
    → launches (suc fuel) limits (group_at limits n) ≡ groups_from limits n (suc count)
unfolding launches
launches-groups_from limits zero fuel n h_x h_y enough h =
    rw
      (
        increment_index-group_at limits n h_x h_y,
        ge→ltb (suc n / limits.x / limits.y) limits.z
            (last_group (suc n) limits.x limits.y limits.z h_x h_y (omega (arith, h))),
      )
      refl
launches-groups_from limits (suc count) zero n h_x h_y enough h = absurd (omega (arith, enough))
launches-groups_from limits (suc count) (suc fuel) n h_x h_y enough h =
    rw
      (
        increment_index-group_at limits n h_x h_y,
        lt→ltb (suc n / limits.x / limits.y) limits.z
            (next_inside (suc n) limits.x limits.y limits.z (omega (arith, h))),
        launches-groups_from limits count fuel (suc n) h_x h_y (omega (arith, enough))
            (omega (arith, h)),
      )
      refl

group_at_zero : (limits : Sizes) → group_at limits 0 ≡ first_group
unfolding group_at
group_at_zero limits =
    rw (zero-mod limits.x, zero-div limits.x, zero-mod limits.y, zero-div limits.y) refl

launches_total :
    (limits : Sizes) (total fuel : ℕ)
    → 0 < total
    → total ≤ fuel
    → 0 < limits.x
    → 0 < limits.y
    → total ≡ limits.z * limits.y * limits.x
    → launches fuel limits first_group ≡ groups_from limits 0 total
launches_total limits zero fuel h enough h_x h_y e = absurd (omega (arith, h))
launches_total limits (suc count) zero h enough h_x h_y e = absurd (omega (arith, enough))
launches_total limits (suc count) (suc fuel) h enough h_x h_y e =
    rw⁻¹ (group_at_zero limits)
      (launches-groups_from limits count fuel 0 h_x h_y (omega (arith, enough)) (omega (arith, e)))

total_pos : (x y z : ℕ) → 0 < x → 0 < y → 0 < z → 0 < z * y * x
total_pos x y z h_x h_y h_z = prod_pos (z * y) x (prod_pos z y h_z h_y) h_x

-- Where no limit is 0, and with any fuel that is at least the number of the groups, the loop ends
-- by itself, and the launches are all the groups, each once, the first dimension first: the n-th has
-- the indices n % x, n / x % y and n / x / y.
pub launches_all :
    (limits : Sizes) (fuel : ℕ)
    → 0 < limits.x
    → 0 < limits.y
    → 0 < limits.z
    → limits.z * limits.y * limits.x ≤ fuel
    → launches fuel limits first_group ≡ groups_from limits 0 (limits.z * limits.y * limits.x)
launches_all limits fuel h_x h_y h_z enough =
    launches_total limits (limits.z * limits.y * limits.x) fuel
      (total_pos limits.x limits.y limits.z h_x h_y h_z) enough h_x h_y refl

-- ===== src/Texture/Pitches.antt =====
-- The pitches that an accessor applies to an image.
use vc4cl.Prelude.{
  ℕ, ◌+◌, ◌-◌, ◌*◌, ◌/◌, ◌%◌, ◌^◌, ◌==◌, ◌≤◌, ◌<◌, ◌≡◌, refl, ap, ◌∙◌, inl, inr, not, arith,
  Bool-cases,
}
use native.Mathlib.Nat.{mod-lt, mul-mod_left, mul-le-mul_right, mod-eq_of_lt}
use vc4cl.Prelude.Int.{ℤ}
use vc4cl.Prelude.Codes.{cl_success}
use vc4cl.Prelude.Division.{div-mod_join, mod_eq_zero}
use vc4cl.Texture.{Image, round_up, apply_slice_pitch, t_check_and_apply_pitches}

round_up-multiple_lem : (n m q r : ℕ) → q * m + r ≡ n → r < m → (n + m - r) ≡ (q + 1) * m
round_up-multiple_lem n m q r h g = grind (arith, h, g)

below : (q k m r : ℕ) → q * m + r ≤ k * m → 0 < r → q + 1 ≤ k
below q k m r h g = grind arith

next_multiple : (q k m r : ℕ) → q * m + r ≤ k * m → 0 < r → (q + 1) * m ≤ k * m
next_multiple q k m r h g = mul-le-mul_right m (below q k m r h g)

-- For a multiple that is not 0, roundUp gives the least one that is not below the number.
pub round_up-least :
    (n m k : ℕ)
    → 0 < m
    → (round_up n m % m ≡ 0) × (n ≤ round_up n m) × (n ≤ k * m → round_up n m ≤ k * m)
unfolding round_up
round_up-least n m k h = elim (Bool-cases (n % m == 0)) [
  | inl q ↦ rw q (ground (arith, q), omega arith, λ g. g)
  | inr q ↦ rw q (
    rw (round_up-multiple_lem n m (n / m) (n % m) (div-mod_join n m) (mod-lt n h))
        (mul-mod_left (n / m + 1) m),
    omega (arith, mod-lt n h),
    λ g. rw (round_up-multiple_lem n m (n / m) (n % m) (div-mod_join n m) (mod-lt n h)) (
        next_multiple (n / m) k m (n % m) (omega (arith, g, div-mod_join n m)) (ground (arith, q))),
  )
]

regroup_product : (q t r : ℕ) → q * t * r ≡ q * (t * r)
regroup_product q t r = grind arith

regroup : (rows tile row : ℕ) → rows ≡ rows / tile * tile → rows * row ≡ rows / tile * (tile * row)
regroup rows tile row h = ap (λ n. n * row) h ∙ regroup_product (rows / tile) tile row

apply_slice_pitch-whole :
    (src_slice_pitch unit rows : ℕ) (image : Image)
    → rows * image.image_row_pitch % 2 ^ 32 % unit ≡ 0
    → (apply_slice_pitch src_slice_pitch unit rows image).1 ≡ cl_success
    → ((apply_slice_pitch src_slice_pitch unit rows image).0.image_row_pitch
        ≡ image.image_row_pitch)
      × ((apply_slice_pitch src_slice_pitch unit rows image).0.image_slice_pitch % unit ≡ 0)
apply_slice_pitch-whole src_slice_pitch unit rows image whole ok =
    elim (Bool-cases (not (src_slice_pitch == 0))) [
      | inr q ↦ rw q (refl, whole)
      | inl q ↦ elim (Bool-cases (not (src_slice_pitch % unit == 0))) [
        | inl r ↦ absurd (ground (arith, rw (q, r) at ok))
        | inr r ↦ rw (q, r) (refl, ground (arith, r))
      ]
    ]

apply_slice_pitch-row :
    (src_slice_pitch unit rows : ℕ) (image : Image)
    → (apply_slice_pitch src_slice_pitch unit rows image).0.image_row_pitch ≡ image.image_row_pitch
apply_slice_pitch-row src_slice_pitch unit rows image =
    elim (Bool-cases (not (src_slice_pitch == 0))) [
      | inr q ↦ rw q refl
      | inl q ↦ elim (Bool-cases (not (src_slice_pitch % unit == 0))) [
        | inl r ↦ rw (q, r) refl
        | inr r ↦ rw (q, r) refl
      ]
    ]

rows_whole : (rows tile row : ℕ) → rows % tile ≡ 0 → rows * row % (tile * row) ≡ 0
rows_whole rows tile row h =
    ap (λ n. n % (tile * row)) (regroup rows tile row (mod_eq_zero rows tile h))
    ∙ mul-mod_left (rows / tile) (tile * row)

-- What the two tiled formats share.
pitch_whole :
    (src_slice_pitch tile height row : ℕ) (image : Image)
    → 0 < tile
    → tile * row < 2 ^ 32
    → round_up height tile * row < 2 ^ 32
    → (apply_slice_pitch src_slice_pitch
        (tile * row % 2 ^ 32)
        (round_up height tile)
        (record image { image_row_pitch = row })).1
      ≡ cl_success
    → (apply_slice_pitch src_slice_pitch
          (tile * row % 2 ^ 32)
          (round_up height tile)
          (record image { image_row_pitch = row })).0.image_slice_pitch
        % (tile * row)
      ≡ 0
pitch_whole src_slice_pitch tile height row image positive room padded ok =
    let unit : tile * row % 2 ^ 32 ≡ tile * row = mod-eq_of_lt room in
    let whole : round_up height tile * row % 2 ^ 32 % (tile * row) ≡ 0 =
      ap (λ n. n % (tile * row)) (mod-eq_of_lt padded)
      ∙ rows_whole (round_up height tile) tile row (round_up-least height tile 0 positive).0 in
    rw unit
      (apply_slice_pitch-whole src_slice_pitch (tile * row) (round_up height tile)
        (record image { image_row_pitch = row }) whole (rw unit at ok)).1

module _ (src_row_pitch src_slice_pitch : ℕ) (image : Image) where
  abbrev t_result : ℕ → Image × ℤ
  t_result row =
      apply_slice_pitch src_slice_pitch (64 * row % 2 ^ 32) (round_up image.image_height 64)
        (record image { image_row_pitch = row })

  t_result-whole :
      (row : ℕ)
      → row % 64 ≡ 0
      → (t_result row).1 ≡ cl_success
      → 64 * (t_result row).0.image_row_pitch < 2 ^ 32
      → round_up image.image_height 64 * (t_result row).0.image_row_pitch < 2 ^ 32
      → ((t_result row).0.image_row_pitch % 64 ≡ 0)
        × ((t_result row).0.image_slice_pitch % (64 * (t_result row).0.image_row_pitch) ≡ 0)
  t_result-whole row h ok room padded =
      let same =
        apply_slice_pitch-row src_slice_pitch (64 * row % 2 ^ 32) (round_up image.image_height 64)
          (record image { image_row_pitch = row }) in
      rw same (
        h,
        pitch_whole src_slice_pitch 64 image.image_height row image (omega arith) (rw same at room)
            (rw same at padded) ok,
      )

  -- Where TFormatAccessor accepts the pitches, and 64 rows, and the rows of the image padded to a
  -- multiple of 64, have less than 2 ^ 32 bytes, the row pitch is a multiple of 64 bytes, and the slice
  -- pitch one of 64 rows.
  pub t_pitches_whole :
      (t_check_and_apply_pitches src_row_pitch src_slice_pitch image).1 ≡ cl_success
      → 64 * (t_check_and_apply_pitches src_row_pitch src_slice_pitch image).0.image_row_pitch
        < 2 ^ 32
      → round_up image.image_height 64
          * (t_check_and_apply_pitches src_row_pitch src_slice_pitch image).0.image_row_pitch
        < 2 ^ 32
      → ((t_check_and_apply_pitches src_row_pitch src_slice_pitch image).0.image_row_pitch % 64 ≡ 0)
        × ((t_check_and_apply_pitches src_row_pitch src_slice_pitch image).0.image_slice_pitch
              % (64
                  * (t_check_and_apply_pitches src_row_pitch src_slice_pitch
                      image).0.image_row_pitch)
            ≡ 0)
  unfolding t_check_and_apply_pitches
  t_pitches_whole ok room padded = elim (Bool-cases (not (src_row_pitch == 0))) [
    | inr q ↦ rw q (
        t_result-whole (round_up (image.image_width * image.element_size) 64)
          (round_up-least (image.image_width * image.element_size) 64 0 (omega arith)).0
          (rw q at ok) (rw q at room) (rw q at padded))
    | inl q ↦ elim (Bool-cases (not (src_row_pitch % 64 == 0))) [
      | inl r ↦ absurd (ground (arith, rw (q, r) at ok))
      | inr r ↦
          rw (q, r)
            (t_result-whole src_row_pitch (ground (arith, r)) (rw (q, r) at ok) (rw (q, r) at room)
              (rw (q, r) at padded))
    ]
  ]

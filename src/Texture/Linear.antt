-- ===== src/Texture/Linear.antt =====
-- LTFormatAccessor::calculatePixelOffset: where the pixels of a small texture lie.
use vc4cl.Prelude.{
  ℕ, ◌+◌, ◌*◌, ◌/◌, ◌%◌, ◌^◌, ◌-◌, ◌≤◌, ◌<◌, ◌≡◌, refl, sym, ap, ap₂, ◌∙◌, some, some_inj, arith,
  pair-lt, Bool-cases, ==_iff, ◌==◌, inl, inr,
}
use native.Mathlib.Nat.{mod-lt, mod-eq_of_lt, mul-div_cancel}
use vc4cl.Prelude.Division.{pair-div, pair-mod, div-mod_join, div-lt, prod_pos}
use vc4cl.Texture.{
  Image, Coordinates2D, get_tile_size, calculate_indices, calculate_offsets, to_byte_offset,
  get_row_pitch_in_bytes, get_slice_pitch_in_bytes, lt_pixel_address, lt_calculate_pixel_offset,
}

-- The pixel, and its slice, at a distance from the start of an image, with `per_row` micro-tiles of 64
-- bytes in a row of tiles and slices of `slice` bytes: read off tile by tile.
unfoldable pub pixel_at : Coordinates2D → ℕ → ℕ → ℕ → ℕ → Coordinates2D × ℕ
pixel_at tile size per_row slice distance =
    let tiles = distance % slice / 64 in
    let place = distance % slice % 64 / size in
    (
      record {
        x = tiles % per_row * tile.x + place % tile.x;
        y = tiles / per_row * tile.y + place / tile.x;
      },
      distance / slice,
    )

-- A micro-tile has 64 bytes.
abbrev pub IsTile : Coordinates2D → ℕ → Type 0
IsTile tile size = tile.y * tile.x * size ≡ 64

place_bound : (place area size : ℕ) → place < area → area * size ≡ 64 → place * size < 64
place_bound place area size h e = grind arith

factor_pos : (a b c : ℕ) → a * b * c ≡ 64 → (0 < a) × (0 < b) × (0 < c)
factor_pos a b c h = (grind arith, grind arith, grind arith)

-- `o_x` and `o_y` are the place in a tile, `index` the number of the tile.
tile_distance-div :
    (tile : Coordinates2D) (size index o_x o_y : ℕ)
    → IsTile tile size
    → o_x < tile.x
    → o_y < tile.y
    → ((index * 64 + (o_y * tile.x + o_x) * size) / 64 ≡ index)
      × ((index * 64 + (o_y * tile.x + o_x) * size) % 64 / size ≡ o_y * tile.x + o_x)
tile_distance-div tile size index o_x o_y t h_x h_y =
    let place =
      place_bound (o_y * tile.x + o_x) (tile.y * tile.x) size
        (pair-lt o_y o_x tile.y tile.x h_y h_x) t in
    (
      pair-div index ((o_y * tile.x + o_x) * size) 64 place,
      ap (λ n. n / size) (pair-mod index ((o_y * tile.x + o_x) * size) 64 place)
          ∙ mul-div_cancel (o_y * tile.x + o_x) (factor_pos tile.y tile.x size t).2,
    )

size-IsTile :
    (tile : Coordinates2D) (size n a b : ℕ)
    → size ≡ n
    → b * a * n ≡ 64
    → some (record { x = a; y = b }) ≡ some tile
    → IsTile tile size
size-IsTile tile size n a b same area h =
    ap (λ (c : Coordinates2D). c.y * c.x * size) (sym (some_inj h))
    ∙ ap (λ m. b * a * m) same
    ∙ area

get_tile_size-IsTile :
    (tile : Coordinates2D) (image : Image)
    → get_tile_size image ≡ some tile
    → IsTile tile image.element_size
unfolding get_tile_size
get_tile_size-IsTile tile image h =
    let size : ℕ = image.element_size in
    elim (Bool-cases (size == 8)) [
      | inl q ↦ size-IsTile tile size 8 2 4 ((==_iff size 8).0 q) refl (rw q at h)
      | inr q ↦ elim (Bool-cases (size == 4)) [
        | inl r ↦ size-IsTile tile size 4 4 4 ((==_iff size 4).0 r) refl (rw (q, r) at h)
        | inr r ↦ elim (Bool-cases (size == 2)) [
          | inl s ↦ size-IsTile tile size 2 8 4 ((==_iff size 2).0 s) refl (rw (q, r, s) at h)
          | inr s ↦ elim (Bool-cases (size == 1)) [
            | inl t ↦ size-IsTile tile size 1 8 8 ((==_iff size 1).0 t) refl (rw (q, r, s, t) at h)
            | inr t ↦ absurd (ground (arith, rw (q, r, s, t) at h))
          ]
        ]
      ]
    ]

-- The distance of a pixel in its slice.
abbrev in_slice : Coordinates2D → ℕ → ℕ → ℕ → ℕ → ℕ
in_slice tile size per_row px py =
    (py / tile.y * per_row + px / tile.x) * 64 + (py % tile.y * tile.x + px % tile.x) * size

-- It lies in the rows of tiles.
in_slice-lt :
    (tile : Coordinates2D) (size per_row rows px py : ℕ)
    → IsTile tile size
    → px < per_row * tile.x
    → py < rows * tile.y
    → in_slice tile size per_row px py < rows * per_row * 64
in_slice-lt tile size per_row rows px py t h g =
    let (y_pos, x_pos, size_pos) = factor_pos tile.y tile.x size t in
    let index =
      pair-lt (py / tile.y) (px / tile.x) rows per_row (div-lt py rows tile.y g)
        (div-lt px per_row tile.x h) in
    let place =
      place_bound (py % tile.y * tile.x + px % tile.x) (tile.y * tile.x) size
        (pair-lt (py % tile.y) (px % tile.x) tile.y tile.x (mod-lt py y_pos) (mod-lt px x_pos)) t in
    omega (arith, index, place)

-- A row pitch of `per_row` tiles, and `rows` rows of tiles in a slice.
module _ (tile : Coordinates2D) (image : Image) (per_row rows : ℕ)
    (tile_size : get_tile_size image ≡ some tile)
    (pitch : get_row_pitch_in_bytes image ≡ per_row * (tile.x * image.element_size))
    (whole_rows : rows * per_row * 64 ≤ get_slice_pitch_in_bytes image) where
  lt_pixel_address-eq :
      (base px py pz : ℕ)
      → px < per_row * tile.x
      → py < rows * tile.y
      → base + pz * get_slice_pitch_in_bytes image + get_slice_pitch_in_bytes image ≤ 2 ^ 32
      → lt_pixel_address tile image base px py pz
        ≡ base
          + (pz * get_slice_pitch_in_bytes image + in_slice tile image.element_size per_row px py)
  unfolding lt_pixel_address calculate_indices calculate_offsets to_byte_offset
  lt_pixel_address-eq base px py pz h g room =
      let t = get_tile_size-IsTile tile image tile_size in
      let (y_pos, x_pos, size_pos) = factor_pos tile.y tile.x image.element_size t in
      let small = in_slice-lt tile image.element_size per_row rows px py t h g in
      rw
        (
          pitch,
          mul-div_cancel per_row (prod_pos tile.x image.element_size x_pos size_pos),
          mod-eq_of_lt {n = (py / tile.y * per_row + px / tile.x) * 64} {m = 2 ^ 32}
              (omega (arith, small, whole_rows, room)),
          mod-eq_of_lt {n = (py % tile.y * tile.x + px % tile.x) * image.element_size} {m = 2 ^ 32}
              (omega (arith, small, whole_rows, room)),
          mod-eq_of_lt {n = pz * get_slice_pitch_in_bytes image} {m = 2 ^ 32}
              (omega (arith, small, whole_rows, room)),
        )
        (omega (arith, small, whole_rows, room))

  -- In an image in linear-tile format with a known tile size, a row pitch of `per_row` tiles and a
  -- slice pitch that has room for `rows` rows of tiles, each pixel inside these rows and tiles, and its
  -- slice, are found again from the distance of its address to the base, where the end of the slice
  -- does not wrap around in 32 bits.
  pub pixel_located :
      (base px py pz address : ℕ)
      → px < per_row * tile.x
      → py < rows * tile.y
      → base + pz * get_slice_pitch_in_bytes image + get_slice_pitch_in_bytes image ≤ 2 ^ 32
      → lt_calculate_pixel_offset image base px py pz ≡ some address
      → pixel_at tile image.element_size per_row (get_slice_pitch_in_bytes image) (address - base)
        ≡ (record { x = px; y = py }, pz)
  unfolding pixel_at lt_calculate_pixel_offset
  pixel_located base px py pz address h g room found =
      let size : ℕ = image.element_size in
      let slice : ℕ = get_slice_pitch_in_bytes image in
      let t = get_tile_size-IsTile tile image tile_size in
      let (y_pos, x_pos, size_pos) = factor_pos tile.y tile.x size t in
      let small : in_slice tile size per_row px py < slice =
        omega (arith, in_slice-lt tile size per_row rows px py t h g, whole_rows) in
      let (index, place) =
        tile_distance-div tile size (py / tile.y * per_row + px / tile.x) (px % tile.x)
          (py % tile.y) t (mod-lt px x_pos) (mod-lt py y_pos) in
      let in_row = div-lt px per_row tile.x h in
      let here : lt_pixel_address tile image base px py pz ≡ address =
        some_inj (rw (tile_size, lt_calculate_pixel_offset) at found) in
      let distance : address - base ≡ pz * slice + in_slice tile size per_row px py =
        omega (arith, here, lt_pixel_address-eq base px py pz h g room) in
      rw
        (
          distance,
          pair-div pz (in_slice tile size per_row px py) slice small,
          pair-mod pz (in_slice tile size per_row px py) slice small,
          index,
          place,
          pair-div (py / tile.y) (px / tile.x) per_row in_row,
          pair-mod (py / tile.y) (px / tile.x) per_row in_row,
          pair-div (py % tile.y) (px % tile.x) tile.x (mod-lt px x_pos),
          pair-mod (py % tile.y) (px % tile.x) tile.x (mod-lt px x_pos),
        )
        (ap₂ (λ a b. (record { x = a; y = b }, pz)) (div-mod_join px tile.x)
          (div-mod_join py tile.y))

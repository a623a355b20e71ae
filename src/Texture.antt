-- ===== src/Texture.antt =====
-- TextureFormat.cpp and TextureFormat.h: how the pixels of an image lie in memory.
-- An image has at most 2048 pixels in a row or a column (kernel_config::MAX_IMAGE_DIMENSION) of at
-- most 8 bytes, so its own sizes stay far below 2 ^ 32; what the caller gives may wrap around.
mod Examples
pub mod Pitches
pub mod Linear
use vc4cl.Prelude.{
  ℕ, ◌+◌, ◌-◌, ◌*◌, ◌/◌, ◌%◌, ◌^◌, ◌==◌, Bool, true, false, not, if◌then◌else◌, leb, Option, none,
  some,
}
use vc4cl.Prelude.Int.{ℤ}
use vc4cl.Prelude.Codes.{cl_success, cl_invalid_value}

pub record Image : Type 0 where
  pub image_width : ℕ
  pub image_height : ℕ
  pub image_row_pitch : ℕ
  pub image_slice_pitch : ℕ
  pub element_size : ℕ  -- what calculateElementSize makes of the format
  pub is_raster_format : Bool

unfoldable pub get_row_pitch_in_bytes : Image → ℕ
get_row_pitch_in_bytes image =
    if not (image.image_row_pitch == 0)
    then image.image_row_pitch
    else image.image_width * image.element_size

unfoldable pub get_slice_pitch_in_bytes : Image → ℕ
get_slice_pitch_in_bytes image =
    if not (image.image_slice_pitch == 0)
    then image.image_slice_pitch
    else get_row_pitch_in_bytes image * image.image_height % 2 ^ 32

pub data Accessor : Type 0 where
  raster_format t_format lt_format : Accessor

abbrev tile_4k_size : ℕ
tile_4k_size = 4 * 1024

unfoldable pub create_texture_accessor : Image → Accessor
create_texture_accessor image =
    if image.is_raster_format
    then raster_format
    else if leb tile_4k_size (get_slice_pitch_in_bytes image)
    then t_format
    else lt_format

unfoldable pub round_up : ℕ → ℕ → ℕ
round_up num_to_round multiple =
    let remainder = num_to_round % multiple in
    if remainder == 0 then num_to_round else num_to_round + multiple - remainder

pub record Coordinates2D : Type 0 where
  pub x : ℕ
  pub y : ℕ

unfoldable pub to_byte_offset : Coordinates2D → ℕ → ℕ → ℕ
to_byte_offset c width_in_elements element_size =
    (c.y * width_in_elements + c.x) * element_size % 2 ^ 32

-- Microtile::getTileSize, in pixels; `none` is the exception on any other size of a pixel.
unfoldable pub get_tile_size : Image → Option Coordinates2D
get_tile_size image =
    if image.element_size == 8
    then some (record { x = 2; y = 4 })
    else if image.element_size == 4
    then some (record { x = 4; y = 4 })
    else if image.element_size == 2
    then some (record { x = 8; y = 4 })
    else if image.element_size == 1
    then some (record { x = 8; y = 8 })
    else none

abbrev microtile_size : ℕ
microtile_size = 64

unfoldable pub calculate_indices : Coordinates2D → ℕ → ℕ → Coordinates2D
calculate_indices tile px py = record { x = px / tile.x; y = py / tile.y }

unfoldable pub calculate_offsets : Coordinates2D → ℕ → ℕ → Coordinates2D
calculate_offsets tile px py = record { x = px % tile.x; y = py % tile.y }

abbrev with_pitches : Image → ℕ → ℕ → Image
with_pitches image row slice = record image { image_row_pitch = row; image_slice_pitch = slice }

-- The slice pitch is looked at when the row pitch is set already. `unit` is the size in bytes that
-- it has to be a multiple of, and `rows` the number of rows of an image that is padded.
abbrev pub apply_slice_pitch : ℕ → ℕ → ℕ → Image → Image × ℤ
apply_slice_pitch src_slice_pitch unit rows image =
    if not (src_slice_pitch == 0)
    then if not (src_slice_pitch % unit == 0)
      then (image, cl_invalid_value)
      else (record image { image_slice_pitch = src_slice_pitch }, cl_success)
    else (record image { image_slice_pitch = rows * image.image_row_pitch % 2 ^ 32 }, cl_success)

-- TFormatAccessor::checkAndApplyPitches.
unfoldable pub t_check_and_apply_pitches : ℕ → ℕ → Image → Image × ℤ
t_check_and_apply_pitches src_row_pitch src_slice_pitch image =
    let applied : ℕ → Image × ℤ = λ row.
      apply_slice_pitch src_slice_pitch (64 * row % 2 ^ 32) (round_up image.image_height 64)
        (record image { image_row_pitch = row }) in
    if not (src_row_pitch == 0)
    then if not (src_row_pitch % 64 == 0) then (image, cl_invalid_value) else applied src_row_pitch
    else applied (round_up (image.image_width * image.element_size) 64)

-- LTFormatAccessor::checkAndApplyPitches; `none` is the exception of getTileSize.
unfoldable pub lt_check_and_apply_pitches : ℕ → ℕ → Image → Option (Image × ℤ)
lt_check_and_apply_pitches src_row_pitch src_slice_pitch image = elim (get_tile_size image) [
  | none ↦ none
  | some tile ↦
      let applied : ℕ → Image × ℤ = λ row.
        apply_slice_pitch src_slice_pitch (tile.y * row % 2 ^ 32)
          (round_up image.image_height tile.y) (record image { image_row_pitch = row }) in
      if not (src_row_pitch == 0)
      then if not (src_row_pitch % (tile.x * image.element_size) == 0)
        then some (image, cl_invalid_value)
        else some (applied src_row_pitch)
      else some (applied (round_up image.image_width tile.x * image.element_size))
]

-- RasterFormatAccessor::checkAndApplyPitches.
unfoldable pub raster_check_and_apply_pitches : ℕ → ℕ → Image → Image × ℤ
raster_check_and_apply_pitches src_row_pitch src_slice_pitch image =
    let row =
      if src_row_pitch == 0 then image.image_width * image.element_size else src_row_pitch in
    let slice =
      if src_slice_pitch == 0 then image.image_height * row % 2 ^ 32 else src_slice_pitch in
    (record image { image_row_pitch = row; image_slice_pitch = slice }, cl_success)

-- LTFormatAccessor::calculatePixelOffset, for a given tile size. A uintptr_t has 32 bits.
unfoldable pub lt_pixel_address : Coordinates2D → Image → ℕ → ℕ → ℕ → ℕ → ℕ
lt_pixel_address tile image base px py pz =
    let offset_slice : ℕ = pz * get_slice_pitch_in_bytes image % 2 ^ 32 in
    let offset_a : ℕ =
      to_byte_offset (calculate_indices tile px py)
        (get_row_pitch_in_bytes image / (tile.x * image.element_size)) microtile_size in
    let offset_b : ℕ = to_byte_offset (calculate_offsets tile px py) tile.x image.element_size in
    (base + offset_a + offset_b + offset_slice) % 2 ^ 32

unfoldable pub lt_calculate_pixel_offset : Image → ℕ → ℕ → ℕ → ℕ → Option ℕ
lt_calculate_pixel_offset image base px py pz = elim (get_tile_size image) [
  | none ↦ none
  | some tile ↦ some (lt_pixel_address tile image base px py pz)
]

-- RasterFormatAccessor::calculatePixelOffset.
unfoldable pub raster_pixel_distance : Image → ℕ → ℕ → ℕ → ℕ
raster_pixel_distance image px py pz =
    px * image.element_size
    + image.image_row_pitch * py % 2 ^ 32
    + image.image_slice_pitch * pz % 2 ^ 32

unfoldable pub raster_calculate_pixel_offset : Image → ℕ → ℕ → ℕ → ℕ → ℕ
raster_calculate_pixel_offset image base px py pz =
    (base + raster_pixel_distance image px py pz) % 2 ^ 32

-- ===== src/Texture/Examples.antt =====
-- Instances: an image of 10 by 6 pixels of 4 bytes.
use vc4cl.Prelude.{◌≤◌, ◌*◌, ◌%◌, ◌≡◌, refl, arith, false, some}
use vc4cl.Prelude.Codes.{cl_success}
use vc4cl.Texture.{
  Image, Coordinates2D, get_tile_size, get_slice_pitch_in_bytes, lt_pixel_address,
  lt_calculate_pixel_offset, calculate_indices, calculate_offsets, to_byte_offset,
  t_check_and_apply_pitches, get_row_pitch_in_bytes, round_up,
}
use vc4cl.Texture.Pitches.{t_pitches_whole}
use vc4cl.Texture.Linear.{pixel_at, pixel_located}

abbrev image : Image
image = record {
  image_width = 10;
  image_height = 6;
  image_row_pitch = 48;
  image_slice_pitch = 384;
  element_size = 4;
  is_raster_format = false;
}

abbrev tile : Coordinates2D
tile = record { x = 4; y = 4 }

tile_here : get_tile_size image ≡ some tile
unfolding get_tile_size
tile_here = refl

row_here : get_row_pitch_in_bytes image ≡ 3 * (4 * 4)
unfolding get_row_pitch_in_bytes
row_here = refl

slice_room : 2 * 3 * 64 ≤ get_slice_pitch_in_bytes image
unfolding get_slice_pitch_in_bytes
slice_room = omega arith

pixel_here : lt_calculate_pixel_offset image 1000 9 5 1 ≡ some 1724
unfolding lt_calculate_pixel_offset lt_pixel_address calculate_indices calculate_offsets
    to_byte_offset get_tile_size get_row_pitch_in_bytes get_slice_pitch_in_bytes
pixel_here = refl

pixel_located_example : pixel_at tile 4 3 384 724 ≡ (record { x = 9; y = 5 }, 1)
unfolding get_slice_pitch_in_bytes
pixel_located_example =
    pixel_located tile image 3 2 tile_here row_here slice_room 1000 9 5 1 1724 (omega arith)
      (omega arith) (omega arith) pixel_here

pitches_here :
    t_check_and_apply_pitches 64 4096 image
    ≡ (record image { image_row_pitch = 64; image_slice_pitch = 4096 }, cl_success)
unfolding t_check_and_apply_pitches
pitches_here = refl

t_pitches_whole_example :
    ((t_check_and_apply_pitches 64 4096 image).0.image_row_pitch % 64 ≡ 0)
    × ((t_check_and_apply_pitches 64 4096 image).0.image_slice_pitch
          % (64 * (t_check_and_apply_pitches 64 4096 image).0.image_row_pitch)
        ≡ 0)
unfolding t_check_and_apply_pitches round_up
t_pitches_whole_example = t_pitches_whole 64 4096 image refl (omega arith) (omega arith)

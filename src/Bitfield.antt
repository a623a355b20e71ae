-- ===== src/Bitfield.antt =====
-- Bitfield.h: a word of `w` bits that is read and written by entries of some bits at a position.
pub mod Laws
use vc4cl.Prelude.{ℕ, ◌+◌, ◌-◌, ◌*◌, ◌/◌, ◌%◌, ◌^◌, bit_and, bit_or, bit_xor}

-- MASK_Bit to MASK_Int: as many ones as the entry has bits.
abbrev pub mask : ℕ → ℕ
mask k = 2 ^ k - 1

-- `~x` on a word of `w` bits.
abbrev pub complement : ℕ → ℕ → ℕ
complement w x = bit_xor x (2 ^ w - 1)

pub get_value : ℕ → ℕ → ℕ
get_value value start_pos = value / 2 ^ start_pos

unfoldable pub get_entry : ℕ → ℕ → ℕ → ℕ
unfolding get_value
get_entry value pos mask = bit_and mask (get_value value pos)

-- The entry is cleared and then written; `w` is the width of the underlying type.
unfoldable pub set_entry : ℕ → ℕ → ℕ → ℕ → ℕ → ℕ
set_entry w value val pos mask =
    let cleared : ℕ = bit_and value (complement w (mask * 2 ^ pos % 2 ^ w)) in
    bit_or cleared (bit_and mask (val % 2 ^ w) * 2 ^ pos % 2 ^ w)

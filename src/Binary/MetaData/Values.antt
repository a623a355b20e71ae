-- ===== src/Binary/MetaData/Values.antt =====
-- The values of a metadata entry come back as they were set.
use mathlib.Core.Path.{subst}
use native.Mathlib.Nat.{mod-eq_of_lt}
use vc4cl.Prelude.{
  ℕ, suc, ◌+◌, ◌*◌, ◌/◌, ◌%◌, ◌^◌, ◌≤◌, ◌<◌, ◌≡◌, ◌∙◌, refl, sym, ap, arith, bit_or, List, [], ◌∷◌,
  length, take, none, some, bit_and-mask, bit_or_above, leb, ◌&&◌, true, some_inj,
}
use vc4cl.Binary.MetaData.{
  MetaDataType, type_code, MetaData, truncate, set_string, get_string, value_bytes, value_at,
  set_sizes, get_sizes, set_int, get_int,
}

byte_of : (v k : ℕ) → truncate 8 (v / 2 ^ k) ≡ v / 2 ^ k % 256
byte_of v k = bit_and-mask 8 (v / 2 ^ k)

value_of_bytes :
    (a b c d : ℕ)
    → a < 256
    → b < 256
    → c < 256
    → d < 256
    → bit_or (bit_or (bit_or a (b * 2 ^ 8)) (c * 2 ^ 16)) (d * 2 ^ 24)
      ≡ d * 2 ^ 24 + (c * 2 ^ 16 + (b * 2 ^ 8 + a))
value_of_bytes a b c d ha hb hc hd =
    rw (bit_or_above 8 8 b a hb ha, bit_or_above 16 8 c (b * 2 ^ 8 + a) hc (omega arith))
      (bit_or_above 24 8 d (c * 2 ^ 16 + (b * 2 ^ 8 + a)) hd (omega arith))

value_at-value_bytes : (v : ℕ) (rest : List ℕ) → v < 2 ^ 32 → value_at (value_bytes v rest) ≡ some v
unfolding value_at
value_at-value_bytes v rest h = ap some (
    value_of_bytes (truncate 8 v) (truncate 8 (v / 2 ^ 8)) (truncate 8 (v / 2 ^ 16))
      (truncate 8 (v / 2 ^ 24)) (small v) (small (v / 2 ^ 8)) (small (v / 2 ^ 16))
      (small (v / 2 ^ 24))
    ∙ omega (
      arith,
      bit_and-mask 8 v,
      bit_and-mask 8 (v / 2 ^ 8),
      bit_and-mask 8 (v / 2 ^ 16),
      bit_and-mask 8 (v / 2 ^ 24),
    ))
  where
    small : (n : ℕ) → truncate 8 n < 256
    small n = omega (arith, bit_and-mask 8 n)

-- A number below 2 ^ 32 comes back.
pub get_int-set_int : (t : MetaDataType) (v : ℕ) → v < 2 ^ 32 → get_int (set_int t v) ≡ some v
unfolding get_int set_int
get_int-set_int t v h = value_at-value_bytes v [] h

-- Three sizes of 32 bits come back in their order.
pub get_sizes-set_sizes :
    (t : MetaDataType) (x y z : ℕ)
    → x < 2 ^ 32
    → y < 2 ^ 32
    → z < 2 ^ 32
    → get_sizes (set_sizes t (x, y, z)) ≡ some (x, y, z)
unfolding get_sizes set_sizes
get_sizes-set_sizes t x y z hx hy hz = ground (
  arith,
  value_at-value_bytes x (value_bytes y (value_bytes z [])) hx,
  value_at-value_bytes y (value_bytes z []) hy,
  value_at-value_bytes z [] hz,
)

pub stored_length : (n : ℕ) → truncate 8 n + truncate 8 (n / 2 ^ 8) * 2 ^ 8 ≡ n % 2 ^ 16
stored_length n = omega (arith, bit_and-mask 8 n, bit_and-mask 8 (n / 2 ^ 8))

take-length : (bytes : List ℕ) → take (length bytes) bytes ≡ bytes
take-length [] = refl
take-length (b ∷ bytes) = ap (◌∷◌ b) (take-length bytes)

module _ (t : MetaDataType) (text : List ℕ) (fits : length text < 2 ^ 16) where
  -- The entry that `set_string` gives for a text that passes its guard.
  unfoldable pub entry : MetaData
  entry = record {
    payload =
        truncate 8 (length text + 3)
        ∷ truncate 8 ((length text + 3) / 2 ^ 8)
        ∷ type_code t % 2 ^ 8
        ∷ text;
  }

  pub set_string-entry : set_string t text ≡ some entry
  unfolding set_string entry
  set_string-entry = ground arith

  get_string-entry : length text + 3 < 2 ^ 16 → get_string entry ≡ some text
  unfolding get_string entry
  get_string-entry h =
      rw (stored_length (length text + 3), mod-eq_of_lt h, inside)
        (ap some (ap (λ k. take k text) (omega arith) ∙ take-length text))
    where
      inside :
          (leb 3 (length text + 3) && leb (length text + 3) (suc (suc (suc (length text))))) ≡ true
      inside = ground arith

  get_string-entry_wraps : 2 ^ 16 ≤ length text + 3 → get_string entry ≡ none
  unfolding get_string entry
  get_string-entry_wraps h = rw (stored_length (length text + 3)) (ground (arith))

-- A text comes back if its length, with the three bytes of the head, fits sixteen bits.
pub get_string-set_string :
    (t : MetaDataType) (text : List ℕ) (m : MetaData)
    → length text + 3 < 2 ^ 16
    → set_string t text ≡ some m
    → get_string m ≡ some text
get_string-set_string t text m h e =
    subst (λ k. get_string k ≡ some text)
      (some_inj (sym (set_string-entry t text (omega arith)) ∙ e))
      (get_string-entry t text (omega arith) h)

-- The guard admits three lengths more, for which the stored length wraps round.
pub get_string_wraps :
    (t : MetaDataType) (text : List ℕ)
    → 2 ^ 16 ≤ length text + 3
    → length text < 2 ^ 16
    → (m : MetaData) × (set_string t text ≡ some m) × (get_string m ≡ none)
get_string_wraps t text h g =
    (entry t text g, set_string-entry t text g, get_string-entry_wraps t text g h)

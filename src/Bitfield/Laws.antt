-- ===== src/Bitfield/Laws.antt =====
-- What reading and writing the entries of a word mean in arithmetic.
use native.Mathlib.Nat.{
  mod-eq_of_lt, mod-add-div', div-div-eq-div-mul, mod-lt, div-lt_iff_lt-mul, mul_comm,
}
use vc4cl.Prelude.{
  ℕ, ◌+◌, ◌-◌, ◌*◌, ◌/◌, ◌%◌, ◌^◌, ◌≤◌, ◌<◌, ◌≡◌, ◌⊎◌, inl, inr, sym, ap, ◌∙◌, arith, bit_and,
  bit_xor, mask-bit_and, clear_field, bit_or_disjoint, two-pow-pos, two-pow-add, two-pow-split,
  mod_mod-two-pow, div-shifted, mod-shifted, two-pow_mono, pair-lt, slice-mod,
}
use vc4cl.Bitfield.{mask, get_value, get_entry, set_entry}

-- An entry is a remainder of a quotient.
pub get_entry-mask : (v p k : ℕ) → get_entry v p (mask k) ≡ v / 2 ^ p % 2 ^ k
unfolding get_entry get_value
get_entry-mask v p k = mask-bit_and k (v / 2 ^ p)

module _ (w p k : ℕ) (fits : p + k ≤ w) where
  field-lt : (y : ℕ) → y < 2 ^ k → y * 2 ^ p < 2 ^ w
  field-lt y h = omega (
    arith,
    pair-lt y 0 (2 ^ k) (2 ^ p) h (two-pow-pos p),
    two-pow-add p k,
    two-pow_mono (p + k) w fits,
  )

  module _ (v x : ℕ) (bound : v < 2 ^ w) where
    -- Writing an entry replaces its digits and no others.
    pub set_entry-mask :
        set_entry w v x p (mask k) ≡ (v / 2 ^ p / 2 ^ k * 2 ^ k + x % 2 ^ k) * 2 ^ p + v % 2 ^ p
    unfolding set_entry
    set_entry-mask =
        rw
          (
            mask-bit_and k (x % 2 ^ w),
            mod_mod-two-pow k w x (omega arith),
            mod-eq_of_lt (field-lt (2 ^ k - 1) (omega (arith, two-pow-pos k))),
            mod-eq_of_lt (field-lt (x % 2 ^ k) (mod-lt x (two-pow-pos k))),
            cleared,
          )
          (bit_or_disjoint p k (v / 2 ^ p / 2 ^ k) (x % 2 ^ k) (v % 2 ^ p)
            (mod-lt x (two-pow-pos k)) (mod-lt v (two-pow-pos p)))
      where
        cleared :
            bit_and v (bit_xor ((2 ^ k - 1) * 2 ^ p) (2 ^ w - 1))
            ≡ v / 2 ^ p / 2 ^ k * 2 ^ k * 2 ^ p + v % 2 ^ p
        cleared = omega (
          arith,
          clear_field p k w v fits bound,
          mod-add-div' v (2 ^ p),
          ap (λ (t : ℕ). t * 2 ^ p) (mod-add-div' (v / 2 ^ p) (2 ^ k)),
        )

    top-lt : v / 2 ^ p / 2 ^ k < 2 ^ (w - (p + k))
    top-lt =
        rw (div-div-eq-div-mul v (2 ^ p) (2 ^ k), ← two-pow-add p k)
          ((div-lt_iff_lt-mul (two-pow-pos (p + k))).1
            (rw (mul_comm (2 ^ (w - (p + k))) (2 ^ (p + k)), ← two-pow-split (p + k) w fits) bound))

    pub set_entry-lt : set_entry w v x p (mask k) < 2 ^ w
    set_entry-lt =
        rw (set_entry-mask, two-pow-split (p + k) w fits, two-pow-add p k)
          (omega (
            arith,
            pair-lt (v / 2 ^ p / 2 ^ k * 2 ^ k + x % 2 ^ k) (v % 2 ^ p) (2 ^ (w - (p + k)) * 2 ^ k)
                (2 ^ p)
                (pair-lt (v / 2 ^ p / 2 ^ k) (x % 2 ^ k) _ (2 ^ k) top-lt
                  (mod-lt x (two-pow-pos k)))
                (mod-lt v (two-pow-pos p)),
          ))

    quotient-set_entry : set_entry w v x p (mask k) / 2 ^ p ≡ v / 2 ^ p / 2 ^ k * 2 ^ k + x % 2 ^ k
    quotient-set_entry = rw set_entry-mask (div-shifted _ p (v % 2 ^ p) (mod-lt v (two-pow-pos p)))

    -- In a word that has room for the entry and a value below the word's limit, what was written
    -- is read back, cut to the entry's width.
    pub get_entry-set_entry_self : get_entry (set_entry w v x p (mask k)) p (mask k) ≡ x % 2 ^ k
    get_entry-set_entry_self =
        rw (get_entry-mask (set_entry w v x p (mask k)) p k, quotient-set_entry)
          (mod-shifted (v / 2 ^ p / 2 ^ k) k (x % 2 ^ k) (mod-lt x (two-pow-pos k)))

    module _ (q j : ℕ) where
      above : p + k ≤ q → set_entry w v x p (mask k) / 2 ^ q ≡ v / 2 ^ q
      above h = rw (
        two-pow-split (p + k) q h,
        two-pow-add p k,
        ← div-div-eq-div-mul (set_entry w v x p (mask k)) (2 ^ p * 2 ^ k) (2 ^ (q - (p + k))),
        ← div-div-eq-div-mul v (2 ^ p * 2 ^ k) (2 ^ (q - (p + k))),
        ← div-div-eq-div-mul (set_entry w v x p (mask k)) (2 ^ p) (2 ^ k),
        ← div-div-eq-div-mul v (2 ^ p) (2 ^ k),
        quotient-set_entry,
        div-shifted (v / 2 ^ p / 2 ^ k) k (x % 2 ^ k) (mod-lt x (two-pow-pos k)),
      )

      below : q + j ≤ p → set_entry w v x p (mask k) / 2 ^ q % 2 ^ j ≡ v / 2 ^ q % 2 ^ j
      below h =
          slice-mod (set_entry w v x p (mask k)) q j
          ∙ ap (λ (t : ℕ). t / 2 ^ q) low
          ∙ sym (slice-mod v q j)
        where
          low : set_entry w v x p (mask k) % 2 ^ (q + j) ≡ v % 2 ^ (q + j)
          low =
              sym (mod_mod-two-pow (q + j) p (set_entry w v x p (mask k)) h)
              ∙ ap (λ (t : ℕ). t % 2 ^ (q + j))
                  (rw set_entry-mask (mod-shifted _ p (v % 2 ^ p) (mod-lt v (two-pow-pos p))))
              ∙ mod_mod-two-pow (q + j) p v h

      -- In such a word an entry that does not overlap the written one keeps its value.
      pub get_entry-set_entry_other :
          (p + k ≤ q) ⊎ (q + j ≤ p)
          → get_entry (set_entry w v x p (mask k)) q (mask j) ≡ get_entry v q (mask j)
      get_entry-set_entry_other (inl h) =
          rw (get_entry-mask (set_entry w v x p (mask k)) q j, get_entry-mask v q j, above h)
      get_entry-set_entry_other (inr h) =
          rw (get_entry-mask (set_entry w v x p (mask k)) q j, get_entry-mask v q j) (below h)

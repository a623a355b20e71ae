-- ===== src/Buffer/Fill.antt =====
-- BufferFill::operator(): how far the pattern reaches.
use vc4cl.Prelude.{
  ℕ, zero, suc, ◌+◌, ◌-◌, ◌*◌, ◌%◌, ◌^◌, ◌≤◌, ◌<◌, ltb, ◌≡◌, refl, sym, ap, ◌∙◌, inl, inr, true,
  false, if◌then◌else◌, List, length, get_or, arith, Bool-cases, lt→ltb, ge→ltb, ltb→lt, ltb→ge,
}
use native.Mathlib.Nat.{mod-eq_of_lt, mod-eq-sub-mod, mul-le-mul_left}
use vc4cl.Buffer.{BufferFill, Memory, inside, store, fill_from, run_fill}

-- `count` copies of the pattern, one behind the other, in a memory that is otherwise the old one.
abbrev pub filled : ℕ → ℕ → List ℕ → Memory → Memory
filled start count pattern mem a =
    if inside start (count * length pattern) a
    then get_or pattern ((a - start) % length pattern) 0
    else mem a

inside-true : (start size a : ℕ) → start ≤ a → a < start + size → inside start size a ≡ true
inside-true start size a h g = ground (arith, h, g)

inside-below : (start size a : ℕ) → a < start → inside start size a ≡ false
inside-below start size a h = ground (arith, h)

inside-above : (start size a : ℕ) → start + size ≤ a → inside start size a ≡ false
inside-above start size a h = ground (arith, h)

suc_product : (k n : ℕ) → suc k * n ≡ n + k * n
suc_product k n = grind arith

split_difference : (a s n : ℕ) → a - (s + n) ≡ a - s - n
split_difference a s n = omega arith

-- One more copy in front.
filled-suc :
    (start count : ℕ) (pattern : List ℕ) (mem : Memory) (a : ℕ)
    → 0 < length pattern
    → filled (start + length pattern) count pattern (store start pattern mem) a
      ≡ filled start (suc count) pattern mem a
filled-suc start count pattern mem a h =
    let n = length pattern in
    elim (Bool-cases (ltb a start)) [
      | inl p ↦
          let below = ltb→lt a start p in
          rw
            (
              inside-below (start + n) (count * n) a (omega (arith, below)),
              inside-below start n a below,
              inside-below start (suc count * n) a below,
            )
            refl
      | inr p ↦
          let from = ltb→ge a start p in
          elim (Bool-cases (ltb a (start + n))) [
            | inl q ↦
                let below = ltb→lt a (start + n) q in
                rw
                  (
                    inside-below (start + n) (count * n) a below,
                    inside-true start n a from below,
                    inside-true start (suc count * n) a from
                        (omega (arith, below, suc_product count n)),
                    mod-eq_of_lt {n = a - start} {m = n} (omega (arith, from, below)),
                  )
                  refl
            | inr q ↦
                let above = ltb→ge a (start + n) q in
                elim (Bool-cases (ltb a (start + suc count * n))) [
                  | inl r ↦
                      let last = ltb→lt a (start + suc count * n) r in
                      rw
                        (
                          inside-true (start + n) (count * n) a above
                              (omega (arith, last, suc_product count n)),
                          inside-true start (suc count * n) a from last,
                        )
                        (ap (λ i. get_or pattern i 0)
                          (ap (λ d. d % n) (split_difference a start n)
                            ∙ sym (mod-eq-sub-mod {n = a - start} {m = n} (omega (arith, above)))))
                  | inr r ↦
                      let past = ltb→ge a (start + suc count * n) r in
                      rw
                        (
                          inside-above (start + n) (count * n) a
                              (omega (arith, past, suc_product count n)),
                          inside-above start n a above,
                          inside-above start (suc count * n) a past,
                        )
                        refl
                ]
          ]
    ]

filled-zero :
    (start : ℕ) (pattern : List ℕ) (mem : Memory) (a : ℕ) → mem a ≡ filled start 0 pattern mem a
filled-zero start pattern mem a = elim (Bool-cases (ltb a start)) [
  | inl p ↦ rw (inside-below start (0 * length pattern) a (ltb→lt a start p)) refl
  | inr p ↦ rw (inside-above start (0 * length pattern) a (omega (arith, ltb→ge a start p))) refl
]

fill_from-filled :
    (fuel start end count : ℕ) (pattern : List ℕ) (mem : Memory) (a : ℕ)
    → 0 < length pattern
    → count ≤ fuel
    → end + length pattern ≤ 2 ^ 32
    → end ≤ start + count * length pattern
    → start + count * length pattern < end + length pattern
    → fill_from fuel start end pattern mem a ≡ filled start count pattern mem a
unfolding fill_from
fill_from-filled zero start end zero pattern mem a h f room e g = filled-zero start pattern mem a
fill_from-filled (suc fuel) start end zero pattern mem a h f room e g =
    rw (ge→ltb start end (omega (arith, e))) (filled-zero start pattern mem a)
fill_from-filled zero start end (suc count) pattern mem a h f room e g = absurd (omega (arith, f))
fill_from-filled (suc fuel) start end (suc count) pattern mem a h f room e g =
    let n = length pattern in
    let product = suc_product count n in
    rw
      (
        lt→ltb start end (omega (arith, g, product)),
        mod-eq_of_lt {n = start + n} {m = 2 ^ 32} (omega (arith, g, product, room)),
      )
      (fill_from-filled fuel (start + n) end count pattern (store start pattern mem) a h
          (omega (arith, f)) room (omega (arith, e, product)) (omega (arith, g, product))
        ∙ filled-suc start count pattern mem a h)

enough_fuel : (count n size : ℕ) → 0 < n → count * n < size + n → 0 < size → count ≤ size
enough_fuel zero n size h g z = omega (arith, z)
enough_fuel (suc k) n size h g z = omega (arith, g, suc_product k n, mul-le-mul_left k h)

-- For a pattern and a size that are not empty, and a range whose end, with one more pattern, does not
-- wrap around in 32 bits, a fill writes the least number of whole copies of the pattern that reach the
-- end of the range, and nothing else: where the size is no multiple of the pattern's, it goes past the
-- end.
pub run_fill-filled :
    (f : BufferFill) (count : ℕ) (mem : Memory) (a : ℕ)
    → 0 < length f.pattern
    → 0 < f.num_bytes
    → f.buffer.base + f.buffer_offset + f.num_bytes + length f.pattern ≤ 2 ^ 32
    → f.num_bytes ≤ count * length f.pattern
    → count * length f.pattern < f.num_bytes + length f.pattern
    → run_fill f mem a ≡ filled (f.buffer.base + f.buffer_offset) count f.pattern mem a
unfolding run_fill
run_fill-filled f count mem a h z room e g =
    rw
      (
        mod-eq_of_lt {n = f.buffer.base + f.buffer_offset} {m = 2 ^ 32} (omega (arith, z, room)),
        mod-eq_of_lt {n = f.buffer.base + f.buffer_offset + f.num_bytes} {m = 2 ^ 32}
            (omega (arith, h, room)),
      )
      (fill_from-filled f.num_bytes (f.buffer.base + f.buffer_offset)
        (f.buffer.base + f.buffer_offset + f.num_bytes) count f.pattern mem a h
        (enough_fuel count (length f.pattern) f.num_bytes h g z) room (omega (arith, e))
        (omega (arith, g)))

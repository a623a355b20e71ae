-- ===== src/Buffer/Rect/Moves.antt =====
-- What a sequence of moves does to each byte: a calculus of the bytes that are put somewhere.
use mathlib.Core.Path.{subst}
use vc4cl.Prelude.{
  ==_iff, ℕ, zero, suc, ◌+◌, ◌-◌, ◌≤◌, ◌<◌, ◌==◌, ◌≡◌, ◌≢◌, refl, ◌∙◌, inl, inr, arith, Bool-cases,
}
use vc4cl.Buffer.{Memory, move, inside}
use vc4cl.Buffer.Access.{move-inside}
use vc4cl.Buffer.Rect.{loop}

-- `R d s`: the byte at `s` is put at `d`. All bytes that are put are as they were before, and no other
-- byte changes.
pub record Puts (R : ℕ → ℕ → Type 0) (body : Memory → Memory) : Type 0 where
  pub there : (mem : Memory) (d s : ℕ) → R d s → body mem d ≡ mem s
  pub elsewhere : (mem : Memory) (d : ℕ) → ((s : ℕ) → ¬ R d s) → body mem d ≡ mem d

abbrev pub Moved : ℕ → ℕ → ℕ → ℕ → ℕ → Type 0
Moved dest src size d s = (x : ℕ) × (x < size) × (d ≡ dest + x) × (s ≡ src + x)

pub move-Puts : (dest src size : ℕ) → Puts (Moved dest src size) (move dest src size)
move-Puts dest src size = record {
  there = λ mem d s m. rw (m.2, m.3) (move-inside dest src size m.0 mem m.1);
  elsewhere = λ mem d none. elim (Bool-cases (inside dest size d)) [
    | inl q ↦
        absurd (none (src + (d - dest)) (d - dest, ground (arith, q), ground (arith, q), refl))
    | inr q ↦ rw q refl
  ];
}

-- The rounds of a loop from `start` on.
abbrev pub Rounds : (ℕ → ℕ → ℕ → Type 0) → ℕ → ℕ → ℕ → ℕ → Type 0
Rounds R start count d s = (i : ℕ) × (start ≤ i) × (i < start + count) × R i d s

-- A later round neither overwrites nor reads what an earlier one has put.
abbrev pub Apart : (ℕ → ℕ → ℕ → Type 0) → ℕ → Type 0
Apart R count = (i j d s d' s' : ℕ) → i < j → j < count → R i d s → R j d' s' → (d ≢ d') × (d ≢ s')

pub loop-Puts :
    (R : ℕ → ℕ → ℕ → Type 0) (body : ℕ → Memory → Memory) (start count : ℕ)
    → ((i : ℕ) → i < start + count → Puts (R i) (body i))
    → Apart R (start + count)
    → Puts (Rounds R start count) (loop body count start)
unfolding loop
loop-Puts R body start zero puts apart = record {
  there = λ mem d s r. absurd (omega (arith, r.1, r.2));
  elsewhere = λ mem d none. refl;
}
loop-Puts R body start (suc count) puts apart =
    let rest : Puts (Rounds R (suc start) count) (loop body count (suc start)) =
      loop-Puts R body (suc start) count (λ i below. puts i (omega (arith, below)))
        (λ i j d s d' s' less last. apart i j d s d' s' less (omega (arith, last))) in
    record {
      there = λ mem d s r. elim (Bool-cases (r.0 == start)) [
        | inl q ↦
            let here : R start d s = subst (λ i. R i d s) ((==_iff r.0 start).0 q) r.3 in
            rest.elsewhere (body start mem) d (λ s' h.
              (apart start h.0 d s d s' (omega (arith, h.1)) (omega (arith, h.2)) here h.3).0 refl)
            ∙ (puts start (omega arith)).there mem d s here
        | inr q ↦
            rest.there (body start mem) d s (r.0, ground (arith, q, r.1), omega (arith, r.2), r.3)
            ∙ (puts start (omega arith)).elsewhere mem s
                (λ s' h. (apart start r.0 s s' d s (ground (arith, q, r.1)) r.2 h r.3).1 refl)
      ];
      elsewhere = λ mem d none.
          rest.elsewhere (body start mem) d
            (λ s h. none s (h.0, omega (arith, h.1), omega (arith, h.2), h.3))
          ∙ (puts start (omega arith)).elsewhere mem d
              (λ s h. none s (start, omega arith, omega arith, h));
    }

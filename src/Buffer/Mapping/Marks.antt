-- ===== src/Buffer/Mapping/Marks.antt =====
-- The list of mappings: what the search in enqueueUnmap finds and marks.
use mathlib.Core.Path.{subst}
use vc4cl.Prelude.{
  ℕ, ◌+◌, ◌<◌, ◌==◌, ==_iff, ◌≡◌, refl, ap, ◌⊎◌, inl, inr, true, false, ◌&&◌, not, if◌then◌else◌,
  List, [], ◌∷◌, Option, none, some, arith, Bool-cases, All,
}
use vc4cl.Buffer.Mapping.{MappingInfo, keep_first, schedule, erase_mapping}

abbrev pub Entries : Type 0
Entries = List (ℕ × MappingInfo)

abbrev pub opens : ℕ → MappingInfo → ℕ
opens pointer m = if m.host_pointer == pointer && not m.unmap_scheduled then 1 else 0

-- The entries with this pointer that are not scheduled.
abbrev pub open_count : ℕ → Entries → ℕ
open_count pointer [] = 0
open_count pointer ((key, m) ∷ rest) = opens pointer m + open_count pointer rest

-- Each entry of this key is scheduled.
abbrev pub Marked : ℕ → Entries → Type 0
Marked key = All (λ e. e.0 ≡ key → e.1.unmap_scheduled ≡ true)

unfoldable pub keys : Entries → List ℕ
keys [] = []
keys ((key, m) ∷ rest) = key ∷ keys rest

abbrev pub Ascending : List ℕ → Type 0
Ascending [] = Unit
Ascending (k ∷ ks) = All (λ j. k < j) ks × Ascending ks

abbrev pub KeyIn : ℕ → List ℕ → Type 0
KeyIn key [] = ⊥
KeyIn key (k ∷ ks) = (k ≡ key) ⊎ KeyIn key ks

pub All-KeyIn {κ} : (P : ℕ → Type κ) (key : ℕ) (ks : List ℕ) → All P ks → KeyIn key ks → P key
All-KeyIn P key [] h i = absurd i
All-KeyIn P key (k ∷ ks) h (inl e) = subst P e h.0
All-KeyIn P key (k ∷ ks) h (inr i) = All-KeyIn P key ks h.1 i

Marked-above : (key : ℕ) (xs : Entries) → All (λ j. key < j) (keys xs) → Marked key xs
unfolding keys
Marked-above key [] h = tt
Marked-above key ((k, m) ∷ xs) h = ((λ e. absurd (omega (arith, e, h.0))), Marked-above key xs h.1)

-- What the marking of an entry does.
pub record Marks (pointer : ℕ) (xs : Entries) (key : ℕ) (ys : Entries) : Type 0 where
  pub counted : (p : ℕ) → open_count p ys + (if pointer == p then 1 else 0) ≡ open_count p xs
  pub same_keys : keys ys ≡ keys xs
  pub key_in : KeyIn key (keys xs)
  pub keeps : (k : ℕ) → Marked k xs → Marked k ys
  pub marks : Ascending (keys xs) → Marked key ys

abbrev pub Schedules : ℕ → Entries → Option (ℕ × Entries) → Type 0
Schedules pointer xs none = open_count pointer xs ≡ 0
Schedules pointer xs (some (key, ys)) = (0 < open_count pointer xs) × Marks pointer xs key ys

opens_here :
    (pointer p : ℕ) (m : MappingInfo) (n : ℕ)
    → (m.host_pointer == pointer && not m.unmap_scheduled) ≡ true
    → opens p (record m { unmap_scheduled = true }) + n + (if pointer == p then 1 else 0)
      ≡ opens p m + n
opens_here pointer p m n h = ground (arith, h)

Marks-here :
    (pointer key : ℕ) (m : MappingInfo) (rest : Entries)
    → (m.host_pointer == pointer && not m.unmap_scheduled) ≡ true
    → Marks pointer ((key, m) ∷ rest) key ((key, record m { unmap_scheduled = true }) ∷ rest)
unfolding keys
Marks-here pointer key m rest h = record {
  counted = λ p. opens_here pointer p m (open_count p rest) h;
  same_keys = refl;
  key_in = inl refl;
  keeps = λ k marked. ((λ e. refl), marked.1);
  marks = λ up. ((λ e. refl), Marked-above key rest up.0);
}

Marks-later :
    (pointer k : ℕ) (m : MappingInfo) (rest : Entries) (key : ℕ) (ys : Entries)
    → Marks pointer rest key ys
    → Marks pointer ((k, m) ∷ rest) key ((k, m) ∷ ys)
unfolding keys
Marks-later pointer k m rest key ys h = record {
  counted = λ p. omega (arith, h.counted p);
  same_keys = ap (λ ks. k ∷ ks) h.same_keys;
  key_in = inr h.key_in;
  keeps = λ j marked. (marked.0, h.keeps j marked.1);
  marks = λ up. (
    (λ e. absurd (omega (arith, e, All-KeyIn (λ j. k < j) key (keys rest) up.0 h.key_in))),
    h.marks up.1,
  );
}

keep_first-Schedules :
    (pointer key : ℕ) (m : MappingInfo) (rest : Entries) (r : Option (ℕ × Entries))
    → (m.host_pointer == pointer && not m.unmap_scheduled) ≡ false
    → Schedules pointer rest r
    → Schedules pointer ((key, m) ∷ rest) (keep_first (key, m) r)
keep_first-Schedules pointer key m rest none h s = rw h (omega (arith, s))
keep_first-Schedules pointer key m rest (some (k, ys)) h s =
    (omega (arith, s.0), Marks-later pointer key m rest k ys s.1)

pub schedule-Schedules : (pointer : ℕ) (xs : Entries) → Schedules pointer xs (schedule pointer xs)
unfolding schedule
schedule-Schedules pointer [] = refl
schedule-Schedules pointer ((key, m) ∷ rest) =
    elim (Bool-cases (m.host_pointer == pointer && not m.unmap_scheduled)) [
      | inl q ↦ rw q ((rw q (omega arith)), Marks-here pointer key m rest q)
      | inr q ↦ rw q (
          keep_first-Schedules pointer key m rest (schedule pointer rest) q
            (schedule-Schedules pointer rest))
    ]

pub erase-count :
    (p key : ℕ) (xs : Entries)
    → Marked key xs
    → open_count p (erase_mapping key xs) ≡ open_count p xs
unfolding erase_mapping
erase-count p key [] h = refl
erase-count p key ((k, m) ∷ xs) h = elim (Bool-cases (k == key)) [
  | inl q ↦ rw q (closed p m (open_count p xs) (h.0 ((==_iff k key).0 q)))
  | inr q ↦ rw q (omega (arith, erase-count p key xs h.1))
]
  where
    closed : (j : ℕ) (x : MappingInfo) (n : ℕ) → x.unmap_scheduled ≡ true → n ≡ opens j x + n
    closed j x n s = ground (arith, s)

module _ {κ} (P : ℕ → Type κ) where
  pub All-erase : (key : ℕ) (xs : Entries) → All P (keys xs) → All P (keys (erase_mapping key xs))
  unfolding erase_mapping keys
  All-erase key [] h = tt
  All-erase key ((k, m) ∷ xs) h = elim (Bool-cases (k == key)) [
    | inl q ↦ rw q h.1
    | inr q ↦ rw q (h.0, All-erase key xs h.1)
  ]

pub Ascending-erase :
    (key : ℕ) (xs : Entries) → Ascending (keys xs) → Ascending (keys (erase_mapping key xs))
unfolding erase_mapping keys
Ascending-erase key [] h = tt
Ascending-erase key ((k, m) ∷ xs) h = elim (Bool-cases (k == key)) [
  | inl q ↦ rw q h.1
  | inr q ↦ rw q (All-erase (λ j. k < j) key xs h.0, Ascending-erase key xs h.1)
]

pub Marked-erase : (j key : ℕ) (xs : Entries) → Marked j xs → Marked j (erase_mapping key xs)
unfolding erase_mapping
Marked-erase j key [] h = tt
Marked-erase j key ((k, m) ∷ xs) h = elim (Bool-cases (k == key)) [
  | inl q ↦ rw q h.1
  | inr q ↦ rw q (h.0, Marked-erase j key xs h.1)
]

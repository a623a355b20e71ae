-- ===== src/Binary/Reader.antt =====
-- Reading from a vector of 64-bit words at an index that moves on, as the `fromBinaryData` do.
use mathlib.Core.List.{append_assoc}
use native.Mathlib.Nat.{zero-add, suc-add}
use vc4cl.Prelude.{
  All, ℕ, zero, suc, ◌+◌, ◌≡◌, ◌≢◌, refl, sym, ap, ◌∙◌, arith, List, [], ◌∷◌, ◌++◌, length, drop,
  none, some, get_elem?, length-append, ◌-◌, ◌≤◌, ◌<◌, leb, ltb, if◌then◌else◌, ◌||◌, length-drop,
}

-- `too_short` is the `std::invalid_argument` of the source; `out_of_bounds` is a read past the end
-- of the vector, which C++ leaves undefined.
pub data Read {ℓ} (A : Type ℓ) : Type ℓ where
  ok : A → Read A
  too_short : Read A
  out_of_bounds : Read A

abbrev pub Reader {ℓ} : Type ℓ → Type ℓ
Reader A = List ℕ → ℕ → Read (A × ℕ)

infixl 5 ◌>>=◌ ◌>>◌
abbrev pub ◌>>=◌ {ℓ κ} : {A : Type ℓ} {B : Type κ} → Reader A → (A → Reader B) → Reader B
◌>>=◌ m f words i = elim (m words i) [
  | ok (a, j) ↦ f a words j
  | too_short ↦ too_short
  | out_of_bounds ↦ out_of_bounds
]

abbrev pub ◌>>◌ {ℓ} : {B : Type ℓ} → Reader (Unit {0}) → Reader B → Reader B
m >> k = m >>= λ _. k

abbrev pub pure {ℓ} : {A : Type ℓ} → A → Reader A
pure a words i = ok (a, i)

-- `data[dataIndex]; ++dataIndex;`
unfoldable pub next_word : Reader ℕ
next_word words i = elim (get_elem? words i) [ none ↦ out_of_bounds | some w ↦ ok (w, suc i) ]

-- The reader takes exactly the words `code` and gives `a`, whatever stands around them; something
-- has to follow them, which in a module is always so.
abbrev pub Reads {ℓ} : {A : Type ℓ} → Reader A → List ℕ → A → Type ℓ
Reads m code a =
    (words : List ℕ) (i : ℕ) (rest : List ℕ)
    → drop i words ≡ code ++ rest
    → rest ≢ []
    → m words i ≡ ok (a, i + length code)

drop-nil : (j : ℕ) → drop {A = ℕ} j [] ≡ []
drop-nil zero = refl
drop-nil (suc j) = refl

pub drop-drop : (j i : ℕ) (words : List ℕ) → drop (i + j) words ≡ drop j (drop i words)
drop-drop j zero words = rw zero-add
drop-drop j (suc i) [] = rw suc-add (sym (drop-nil j))
drop-drop j (suc i) (x ∷ words) = rw suc-add (drop-drop j i words)

pub drop-length-append : (xs ys : List ℕ) → drop (length xs) (xs ++ ys) ≡ ys
drop-length-append [] ys = refl
drop-length-append (x ∷ xs) ys = drop-length-append xs ys

pub append-ne-nil : (xs ys : List ℕ) → ys ≢ [] → xs ++ ys ≢ []
append-ne-nil [] ys h e = h e
append-ne-nil (x ∷ xs) ys h e = cc

pub get_elem?-drop :
    (words : List ℕ) (i w : ℕ) (rest : List ℕ)
    → drop i words ≡ w ∷ rest
    → get_elem? words i ≡ some w
get_elem?-drop [] zero w rest e = cc
get_elem?-drop [] (suc i) w rest e = cc
get_elem?-drop (x ∷ words) zero w rest e = cc
get_elem?-drop (x ∷ words) (suc i) w rest e = get_elem?-drop words i w rest e

pub next_word-Reads : (w : ℕ) → Reads next_word (w ∷ []) w
unfolding next_word
next_word-Reads w words i rest e h =
    rw (get_elem?-drop words i w rest e, next_word) (ap (λ t. ok (w, t)) (omega arith))

pub >>=-eq {ℓ κ} :
    {A : Type ℓ} {B : Type κ} (m : Reader A) (f : A → Reader B) (words : List ℕ) (i : ℕ) (a : A)
    (j : ℕ)
    → m words i ≡ ok (a, j)
    → (m >>= f) words i ≡ f a words j
>>=-eq m f words i a j e = rw (e, ◌>>=◌)

pub bind-Reads {ℓ κ} :
    {A : Type ℓ} {B : Type κ} (m : Reader A) (f : A → Reader B) (code more : List ℕ) (a : A) (b : B)
    → Reads m code a
    → Reads (f a) more b
    → Reads (m >>= f) (code ++ more) b
bind-Reads m f code more a b first after words i rest e h =
    >>=-eq m f words i a (i + length code)
      (first words i (more ++ rest) (e ∙ append_assoc code more rest) (append-ne-nil more rest h))
    ∙ (after words (i + length code) rest
          (drop-drop (length code) i words
            ∙ ap (drop (length code)) (e ∙ append_assoc code more rest)
            ∙ drop-length-append code (more ++ rest))
          h
        ∙ ap (λ t. ok (b, t)) (omega (arith, length-append code more)))

-- The length test at the head of each `fromBinaryData`: the index lies in the vector, and at least
-- `n` words stand from it on.
unfoldable pub expect : ℕ → Reader (Unit {0})
expect n words i =
    if leb (length words) i || ltb (length words - i) n then too_short else ok (tt, i)

-- `data[dataIndex]`, with the index left where it is.
unfoldable pub peek_word : Reader ℕ
peek_word words i = elim (get_elem? words i) [ none ↦ out_of_bounds | some w ↦ ok (w, i) ]

pub expect-ok :
    (n : ℕ) (words : List ℕ) (i : ℕ)
    → 0 < length (drop i words)
    → n ≤ length (drop i words)
    → expect n words i ≡ ok (tt, i)
unfolding expect
expect-ok n words i h g = ground (arith, length-drop i words)

pub peek_word-ok :
    (words : List ℕ) (i w : ℕ) (rest : List ℕ)
    → drop i words ≡ w ∷ rest
    → peek_word words i ≡ ok (w, i)
unfolding peek_word
peek_word-ok words i w rest e = rw (get_elem?-drop words i w rest e, peek_word)

-- A reader behind its length test: at least one word follows the code.
pub expect-Reads {ℓ} :
    {A : Type ℓ} (n : ℕ) (m : Reader A) (code : List ℕ) (a : A)
    → n ≤ suc (length code)
    → Reads m code a
    → Reads (expect n >>= λ _. m) code a
expect-Reads n m code a h first words i rest e g =
    >>=-eq (expect n) (λ _. m) words i tt i
      (expect-ok n words i (omega (arith, size, some_rest rest g))
        (omega (arith, size, some_rest rest g)))
    ∙ first words i rest e g
  where
    size : length (drop i words) ≡ length code + length rest
    size = ap length e ∙ length-append code rest

    some_rest : (xs : List ℕ) → xs ≢ [] → 0 < length xs
    some_rest [] k = absurd (k refl)
    some_rest (x ∷ xs) k = omega arith

-- `while(list.size() < count) list.push_back(fromBinaryData(data, dataIndex));`
unfoldable pub read_many {ℓ} : {A : Type ℓ} → ℕ → Reader A → Reader (List A)
read_many zero m = pure []
read_many (suc n) m = do a ← m; later ← read_many n m; pure (a ∷ later)

-- The codes of the items of a list, one behind the other.
unfoldable pub write_many {ℓ} : {A : Type ℓ} → (A → List ℕ) → List A → List ℕ
write_many code [] = []
write_many code (a ∷ items) = code a ++ write_many code items

pub map-Reads {ℓ κ} :
    {A : Type ℓ} {B : Type κ} (m : Reader A) (f : A → B) (code : List ℕ) (a : A)
    → Reads m code a
    → Reads (m >>= λ x. pure (f x)) code (f a)
map-Reads m f code a first words i rest e g =
    >>=-eq m (λ x. pure (f x)) words i a (i + length code) (first words i rest e g)

pub read-write_many {ℓ κ} :
    {A : Type ℓ} (P : A → Type κ) (m : Reader A) (code : A → List ℕ)
    → ((a : A) → P a → Reads m (code a) a)
    → (items : List A) → All P items
    → Reads (read_many (length items) m) (write_many code items) items
unfolding read_many write_many
read-write_many P m code each [] h = λ words i rest e g. ap (λ t. ok ([], t)) (omega arith)
read-write_many P m code each (a ∷ items) h =
    bind-Reads m (λ x. read_many (length items) m >>= λ later. pure (x ∷ later)) (code a)
      (write_many code items) a (a ∷ items) (each a h.0)
      (map-Reads (read_many (length items) m) (◌∷◌ a) (write_many code items) items
        (read-write_many P m code each items h.1))

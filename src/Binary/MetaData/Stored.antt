-- ===== src/Binary/MetaData/Stored.antt =====
-- MetaData::toBinaryData and fromBinaryData: a metadata entry among the words of a module.
use mathlib.Core.Path.{subst}
use vc4cl.Prelude.{
  ℕ, zero, suc, ◌+◌, ◌*◌, ◌/◌, ◌%◌, ◌^◌, ◌≤◌, ◌<◌, ◌≡◌, ◌∙◌, refl, sym, ap, arith, bit_and, List,
  [], ◌∷◌, ◌++◌, length, drop, some, bit_and-mask, get_or, some_inj,
}
use vc4cl.Binary.Reader.{expect-ok, Reads, peek_word-ok}
use vc4cl.Binary.Bytes.{
  IsBytes, word_of_bytes, fill_words, num_words, write_byte_container, read-write_byte_container,
  le-num_words,
}
use vc4cl.Binary.MetaData.Values.{entry, set_string-entry, stored_length}
use vc4cl.Binary.MetaData.{
  MetaDataType, type_code, MetaData, to_binary_data, from_binary_data, set_int, set_sizes,
  set_string, truncate, value_bytes,
}

-- The length that the entry states is that of its payload.
pub record IsStored (m : MetaData) : Type 0 where
  pub bytes : IsBytes m.payload
  pub headed : 2 ≤ length m.payload
  pub sized : get_or m.payload 0 0 + 256 * get_or m.payload 1 0 ≡ length m.payload

-- The first word of the entry, which holds its length.
first_word :
    (payload : List ℕ)
    → IsBytes payload
    → 2 ≤ length payload
    → (tail : List ℕ) × (write_byte_container payload ≡ word_of_bytes 8 payload ∷ tail)
unfolding write_byte_container fill_words
first_word [] h g = absurd (omega arith)
first_word (a ∷ bytes) h g =
    fill_some (num_words (length (a ∷ bytes))) (omega (arith, le-num_words (length (a ∷ bytes))))
  where
    fill_some :
        (n : ℕ)
        → 0 < n
        → (tail : List ℕ) × (fill_words n (a ∷ bytes) ≡ word_of_bytes 8 (a ∷ bytes) ∷ tail)
    fill_some zero p = absurd (omega arith)
    fill_some (suc n) p = (fill_words n (drop 8 (a ∷ bytes)), refl)

length_of_first :
    (payload : List ℕ)
    → IsBytes payload
    → 2 ≤ length payload
    → bit_and (word_of_bytes 8 payload) 0xFFFF ≡ get_or payload 0 0 + 256 * get_or payload 1 0
unfolding word_of_bytes
length_of_first [] h g = absurd (omega arith)
length_of_first (a ∷ []) h g = absurd (omega arith)
length_of_first (a ∷ b ∷ bytes) h g =
    omega (arith, bit_and-mask 16 (word_of_bytes 8 (a ∷ b ∷ bytes)))

-- A stored entry is read back, and the index moves to the word behind it.
pub from-to_binary_data : (m : MetaData) → IsStored m → Reads from_binary_data (to_binary_data m) m
unfolding from_binary_data to_binary_data
from-to_binary_data m v words i rest e h =
    let (tail, first) = first_word m.payload v.bytes v.headed in
    let at : drop i words ≡ word_of_bytes 8 m.payload ∷ (tail ++ rest) =
      e ∙ ap (λ t. t ++ rest) first in
    ground (
      arith,
      expect-ok 0 words i (omega (arith, ap length at)) (omega arith),
      peek_word-ok words i (word_of_bytes 8 m.payload) (tail ++ rest) at,
      length_of_first m.payload v.bytes v.headed,
      read-write_byte_container m.payload v.bytes words i rest e h,
    )

byte-lt : (n : ℕ) → truncate 8 n < 256
byte-lt n = omega (arith, bit_and-mask 8 n)

value_bytes-IsBytes : (v : ℕ) (rest : List ℕ) → IsBytes rest → IsBytes (value_bytes v rest)
value_bytes-IsBytes v rest h =
    (byte-lt v, (byte-lt (v / 2 ^ 8), (byte-lt (v / 2 ^ 16), (byte-lt (v / 2 ^ 24), h))))

-- The setters give entries that can be stored.
module _ (t : MetaDataType) where
  code-lt : type_code t % 2 ^ 8 < 256
  code-lt = omega arith

  pub set_int-IsStored : (v : ℕ) → IsStored (set_int t v)
  unfolding set_int
  set_int-IsStored v = record {
    bytes = (omega arith, (omega arith, (code-lt, (omega arith, value_bytes-IsBytes v [] tt))));
    headed = omega arith;
    sized = refl;
  }

  pub set_sizes-IsStored : (x y z : ℕ) → IsStored (set_sizes t (x, y, z))
  unfolding set_sizes
  set_sizes-IsStored x y z = record {
    bytes = (
      omega arith,
      (
        omega arith,
        (
          code-lt,
          (
            omega arith,
            value_bytes-IsBytes x (value_bytes y (value_bytes z []))
                (value_bytes-IsBytes y (value_bytes z []) (value_bytes-IsBytes z [] tt)),
          ),
        ),
      ),
    );
    headed = omega arith;
    sized = refl;
  }

  entry-IsStored :
      (text : List ℕ) (fits : length text < 2 ^ 16)
      → IsBytes text
      → length text + 3 < 2 ^ 16
      → IsStored (entry t text fits)
  unfolding entry
  entry-IsStored text fits h g = record {
    bytes = (byte-lt (length text + 3), (byte-lt ((length text + 3) / 2 ^ 8), (code-lt, h)));
    headed = omega arith;
    sized = omega (arith, stored_length (length text + 3));
  }

  pub set_string-IsStored :
      (text : List ℕ) (m : MetaData)
      → IsBytes text
      → length text + 3 < 2 ^ 16
      → set_string t text ≡ some m
      → IsStored m
  set_string-IsStored text m h g e =
      subst IsStored (some_inj (sym (set_string-entry t text (omega arith)) ∙ e))
        (entry-IsStored text (omega arith) h g)

-- ===== src/Binary/ParamHeader/Stored.antt =====
-- ParamHeader::toBinaryData and fromBinaryData: a parameter among the words of a module.
use vc4cl.Prelude.{ℕ, ◌%◌, ◌^◌, ◌<◌, ◌≡◌, ◌∙◌, inl, inr, arith, List, [], ◌∷◌, ◌++◌, length}
use vc4cl.Bitfield.Laws.{get_entry-set_entry_self, get_entry-set_entry_other, set_entry-lt}
use vc4cl.Binary.Reader.{
  Reader, ◌>>=◌, pure, next_word, expect-Reads, next_word-Reads, Reads, bind-Reads, map-Reads,
}
use vc4cl.Binary.Bytes.{
  IsBytes, write_byte_container, read_byte_container, read-write_byte_container,
}
use vc4cl.Binary.ParamHeader.{
  ParamHeader, get_name_length, get_type_name_length, set_name, set_type_name, to_binary_data,
  from_binary_data,
}

-- The names are as long as the word says.
pub record IsStored (p : ParamHeader) : Type 0 where
  pub word : p.value < 2 ^ 64
  pub name_bytes : IsBytes p.name
  pub type_name_bytes : IsBytes p.type_name
  pub name_sized : get_name_length p.value ≡ length p.name
  pub type_name_sized : get_type_name_length p.value ≡ length p.type_name

-- A stored parameter is read back, and the index moves to the word behind it.
pub from-to_binary_data :
    (p : ParamHeader) → IsStored p → Reads from_binary_data (to_binary_data p) p
unfolding from_binary_data to_binary_data
from-to_binary_data p v =
    expect-Reads 2 (next_word >>= after_value) (p.value ∷ name ++ type_name) p (omega arith) (
      bind-Reads next_word after_value (p.value ∷ []) (name ++ type_name) p.value p
        (next_word-Reads p.value)
        (bind-Reads (read_byte_container (get_name_length p.value)) (after_name p.value) name
          type_name p.name p (rw v.name_sized (read-write_byte_container p.name v.name_bytes))
          (map-Reads (read_byte_container (get_type_name_length p.value))
            (λ t. record { value = p.value; name = p.name; type_name = t }) type_name p.type_name
            (rw v.type_name_sized (read-write_byte_container p.type_name v.type_name_bytes)))))
  where
    name : List ℕ
    name = write_byte_container p.name

    type_name : List ℕ
    type_name = write_byte_container p.type_name

    after_name : ℕ → List ℕ → Reader ParamHeader
    after_name value n = read_byte_container (get_type_name_length value) >>= λ t.
        pure (record { value = value; name = n; type_name = t })

    after_value : ℕ → Reader ParamHeader
    after_value value = read_byte_container (get_name_length value) >>= after_name value

-- Names that fit twelve bits give a parameter that can be stored.
pub set_name-IsStored :
    (p : ParamHeader) (name : List ℕ)
    → IsBytes name
    → length name < 2 ^ 12
    → IsStored p
    → IsStored (set_name name p)
unfolding set_name get_name_length get_type_name_length
set_name-IsStored p name h g v = record {
  word = set_entry-lt 64 18 12 (omega arith) p.value (length name % 2 ^ 16) v.word;
  name_bytes = h;
  type_name_bytes = v.type_name_bytes;
  name_sized =
      get_entry-set_entry_self 64 18 12 (omega arith) p.value (length name % 2 ^ 16) v.word
      ∙ omega arith;
  type_name_sized =
      get_entry-set_entry_other 64 18 12 (omega arith) p.value (length name % 2 ^ 16) v.word 30 12
        (inl (omega arith))
      ∙ v.type_name_sized;
}

pub set_type_name-IsStored :
    (p : ParamHeader) (name : List ℕ)
    → IsBytes name
    → length name < 2 ^ 12
    → IsStored p
    → IsStored (set_type_name name p)
unfolding set_type_name get_name_length get_type_name_length
set_type_name-IsStored p name h g v = record {
  word = set_entry-lt 64 30 12 (omega arith) p.value (length name % 2 ^ 16) v.word;
  name_bytes = v.name_bytes;
  type_name_bytes = h;
  name_sized =
      get_entry-set_entry_other 64 30 12 (omega arith) p.value (length name % 2 ^ 16) v.word 18 12
        (inr (omega arith))
      ∙ v.name_sized;
  type_name_sized =
      get_entry-set_entry_self 64 30 12 (omega arith) p.value (length name % 2 ^ 16) v.word
      ∙ omega arith;
}

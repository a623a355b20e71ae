-- ===== src/Binary/KernelHeader/Stored.antt =====
-- KernelHeader::toBinaryData and fromBinaryData: a kernel among the words of a module.
use mathlib.Core.Path.{subst}
use native.Mathlib.Nat.{mod-eq_of_lt}
use vc4cl.Prelude.{
  All, All-append, ℕ, ◌+◌, ◌-◌, ◌*◌, ◌/◌, ◌^◌, ◌<◌, ◌≡◌, ◌∙◌, inl, inr, ap, arith, List, [], ◌∷◌,
  ◌++◌, length, length-append, bit_and-mask, bit_or_above, bit_and, bit_or,
}
use vc4cl.Bitfield.Laws.{get_entry-set_entry_self, get_entry-set_entry_other, set_entry-lt}
use vc4cl.Binary.Reader.{
  Reader, ◌>>=◌, pure, next_word, expect-Reads, next_word-Reads, Reads, bind-Reads, map-Reads,
  read_many, write_many, read-write_many,
}
use vc4cl.Binary.Bytes.{
  IsBytes, write_byte_container, read_byte_container, read-write_byte_container,
}
use vc4cl.Binary.MetaData.{MetaData, truncate}
use vc4cl.Binary.MetaData
use vc4cl.Binary.MetaData.Stored as MetaDataStored
use vc4cl.Binary.ParamHeader.{ParamHeader}
use vc4cl.Binary.ParamHeader
use vc4cl.Binary.ParamHeader.Stored as ParamHeaderStored
use vc4cl.Binary.KernelHeader.{
  KernelHeader, get_name_length, get_param_count, set_name, add_parameter, second_word, third_word,
  to_binary_data, from_binary_data,
}

-- Every field fits its place in the words, and the counts are those of the lists.
pub record IsStored (k : KernelHeader) : Type 0 where
  pub word : k.value < 2 ^ 64
  pub size_x : k.work_group_size.0 < 2 ^ 16
  pub size_y : k.work_group_size.1 < 2 ^ 16
  pub size_z : k.work_group_size.2 < 2 ^ 16
  pub factor : k.work_item_merge_factor < 2 ^ 8
  pub uniforms : k.uniforms_used < 2 ^ 32
  pub name_bytes : IsBytes k.name
  pub name_sized : get_name_length k.value ≡ length k.name
  pub params_counted : get_param_count k.value ≡ length k.parameters
  pub meta_counted : length k.meta_data < 2 ^ 32
  pub params : All ParamHeaderStored.IsStored k.parameters
  pub meta : All MetaDataStored.IsStored k.meta_data

second_word-sum :
    (k : KernelHeader)
    → IsStored k
    → second_word k
      ≡ k.work_item_merge_factor * 2 ^ 48
        + (k.work_group_size.2 * 2 ^ 32 + (k.work_group_size.1 * 2 ^ 16 + k.work_group_size.0))
unfolding second_word
second_word-sum k v =
    rw
      (
        bit_or_above 16 16 k.work_group_size.1 k.work_group_size.0 v.size_y v.size_x,
        bit_or_above 32 16 k.work_group_size.2 (k.work_group_size.1 * 2 ^ 16 + k.work_group_size.0)
            v.size_z (omega arith),
      )
      (bit_or_above 48 8 k.work_item_merge_factor
        (k.work_group_size.2 * 2 ^ 32 + (k.work_group_size.1 * 2 ^ 16 + k.work_group_size.0))
        v.factor (omega arith))

third_word-sum :
    (k : KernelHeader) → IsStored k → third_word k ≡ length k.meta_data * 2 ^ 32 + k.uniforms_used
unfolding third_word
third_word-sum k v =
    ap (λ n. bit_or k.uniforms_used (n * 2 ^ 32)) counted
    ∙ bit_or_above 32 32 (length k.meta_data) k.uniforms_used v.meta_counted v.uniforms
  where
    counted : bit_and (length k.meta_data) 0xFFFF_FFFF ≡ length k.meta_data
    counted = bit_and-mask 32 (length k.meta_data) ∙ mod-eq_of_lt v.meta_counted

-- The fields of the two words come back.
module _ (k : KernelHeader) (v : IsStored k) where
  sizes_back :
      (truncate 16 (second_word k) ≡ k.work_group_size.0)
      × (truncate 16 (second_word k / 2 ^ 16) ≡ k.work_group_size.1)
      × (truncate 16 (second_word k / 2 ^ 32) ≡ k.work_group_size.2)
      × (truncate 8 (second_word k / 2 ^ 48) ≡ k.work_item_merge_factor)
  sizes_back = (
    bit_and-mask 16 (second_word k) ∙ omega (arith, second_word-sum k v),
    bit_and-mask 16 (second_word k / 2 ^ 16) ∙ omega (arith, second_word-sum k v),
    bit_and-mask 16 (second_word k / 2 ^ 32) ∙ omega (arith, second_word-sum k v),
    bit_and-mask 8 (second_word k / 2 ^ 48) ∙ omega (arith, second_word-sum k v),
  )

  counts_back :
      (truncate 32 (third_word k) ≡ k.uniforms_used)
      × (truncate 32 (third_word k / 2 ^ 32) ≡ length k.meta_data)
  counts_back = (
    bit_and-mask 32 (third_word k) ∙ omega (arith, third_word-sum k v),
    bit_and-mask 32 (third_word k / 2 ^ 32) ∙ omega (arith, third_word-sum k v),
  )

-- What `fromBinaryData` puts together from the words and the lists that it has read.
abbrev assembled : ℕ → ℕ → ℕ → List ℕ → List ParamHeader → List MetaData → KernelHeader
assembled value second third name parameters meta_data = record {
  value = value;
  work_group_size =
      (truncate 16 second, truncate 16 (second / 2 ^ 16), truncate 16 (second / 2 ^ 32));
  work_item_merge_factor = truncate 8 (second / 2 ^ 48);
  uniforms_used = truncate 32 third;
  meta_data = meta_data;
  name = name;
  parameters = parameters;
}

assembled_lem :
    (k : KernelHeader)
    → IsStored k
    → assembled k.value (second_word k) (third_word k) k.name k.parameters k.meta_data ≡ k
assembled_lem k v =
    let (x, y, z, f) = sizes_back k v in
    let (u, _) = counts_back k v in
    λ i. record {
      value = k.value;
      work_group_size = (x i, y i, z i);
      work_item_merge_factor = f i;
      uniforms_used = u i;
      meta_data = k.meta_data;
      name = k.name;
      parameters = k.parameters;
    }

-- A stored kernel is read back, with its parameters and metadata.
pub from-to_binary_data :
    (k : KernelHeader) → IsStored k → Reads from_binary_data (to_binary_data k) k
unfolding from_binary_data to_binary_data
from-to_binary_data k v = subst (Reads from_binary_data (to_binary_data k)) (assembled_lem k v) (
    expect-Reads 4 (next_word >>= after_value) (to_binary_data k) built (omega arith) (
      bind-Reads next_word after_value (k.value ∷ []) (second_word k ∷ third_word k ∷ tail) k.value
        built (next_word-Reads k.value)
        (bind-Reads next_word (after_second k.value) (second_word k ∷ []) (third_word k ∷ tail)
          (second_word k) built (next_word-Reads (second_word k))
          (bind-Reads next_word (after_third k.value (second_word k)) (third_word k ∷ []) tail
            (third_word k) built (next_word-Reads (third_word k)) lists))))
  where
    built : KernelHeader
    built = assembled k.value (second_word k) (third_word k) k.name k.parameters k.meta_data

    params : List ℕ
    params = write_many ParamHeader.to_binary_data k.parameters

    metas : List ℕ
    metas = write_many MetaData.to_binary_data k.meta_data

    tail : List ℕ
    tail = write_byte_container k.name ++ (params ++ metas)

    after_params : ℕ → ℕ → ℕ → List ℕ → List ParamHeader → Reader KernelHeader
    after_params value second third name ps =
        read_many (truncate 32 (third / 2 ^ 32)) MetaData.from_binary_data >>= λ ms.
        pure (assembled value second third name ps ms)

    after_name : ℕ → ℕ → ℕ → List ℕ → Reader KernelHeader
    after_name value second third name =
        read_many (get_param_count value) ParamHeader.from_binary_data
        >>= after_params value second third name

    after_third : ℕ → ℕ → ℕ → Reader KernelHeader
    after_third value second third =
        read_byte_container (get_name_length value) >>= after_name value second third

    after_second : ℕ → ℕ → Reader KernelHeader
    after_second value second = next_word >>= after_third value second

    after_value : ℕ → Reader KernelHeader
    after_value value = next_word >>= after_second value

    read_params :
        Reads (read_many (get_param_count k.value) ParamHeader.from_binary_data) params k.parameters
    read_params = rw v.params_counted (
        read-write_many ParamHeaderStored.IsStored ParamHeader.from_binary_data
          ParamHeader.to_binary_data ParamHeaderStored.from-to_binary_data k.parameters v.params)

    read_metas :
        Reads
          (read_many (truncate 32 (third_word k / 2 ^ 32)) MetaData.from_binary_data)
          metas
          k.meta_data
    read_metas = rw (counts_back k v).1 (
        read-write_many MetaDataStored.IsStored MetaData.from_binary_data MetaData.to_binary_data
          MetaDataStored.from-to_binary_data k.meta_data v.meta)

    lists : Reads (after_third k.value (second_word k) (third_word k)) tail built
    lists =
        bind-Reads (read_byte_container (get_name_length k.value))
          (after_name k.value (second_word k) (third_word k)) (write_byte_container k.name)
          (params ++ metas) k.name built
          (rw v.name_sized (read-write_byte_container k.name v.name_bytes))
          (bind-Reads (read_many (get_param_count k.value) ParamHeader.from_binary_data)
            (after_params k.value (second_word k) (third_word k) k.name) params metas k.parameters
            built read_params
            (map-Reads (read_many (truncate 32 (third_word k / 2 ^ 32)) MetaData.from_binary_data)
              (assembled k.value (second_word k) (third_word k) k.name k.parameters) metas
              k.meta_data read_metas))

-- Building a kernel step by step keeps it one that can be stored.
pub set_name-IsStored :
    (k : KernelHeader) (name : List ℕ)
    → IsBytes name
    → length name < 2 ^ 10
    → IsStored k
    → IsStored (set_name name k)
unfolding set_name get_name_length get_param_count
set_name-IsStored k name h g v = record {
  word = set_entry-lt 64 46 10 (omega arith) k.value (length name) v.word;
  size_x = v.size_x;
  size_y = v.size_y;
  size_z = v.size_z;
  factor = v.factor;
  uniforms = v.uniforms;
  name_bytes = h;
  name_sized =
      get_entry-set_entry_self 64 46 10 (omega arith) k.value (length name) v.word ∙ mod-eq_of_lt g;
  params_counted =
      get_entry-set_entry_other 64 46 10 (omega arith) k.value (length name) v.word 56 8
        (inl (omega arith))
      ∙ v.params_counted;
  meta_counted = v.meta_counted;
  params = v.params;
  meta = v.meta;
}

pub add_parameter-IsStored :
    (k : KernelHeader) (p : ParamHeader)
    → ParamHeaderStored.IsStored p
    → length k.parameters < 2 ^ 8 - 1
    → IsStored k
    → IsStored (add_parameter p k)
unfolding add_parameter get_name_length get_param_count
add_parameter-IsStored k p h g v = record {
  word = set_entry-lt 64 56 8 (omega arith) k.value count v.word;
  size_x = v.size_x;
  size_y = v.size_y;
  size_z = v.size_z;
  factor = v.factor;
  uniforms = v.uniforms;
  name_bytes = v.name_bytes;
  name_sized =
      get_entry-set_entry_other 64 56 8 (omega arith) k.value count v.word 46 10 (inr (omega arith))
      ∙ v.name_sized;
  params_counted =
      get_entry-set_entry_self 64 56 8 (omega arith) k.value count v.word
      ∙ mod-eq_of_lt (omega (arith, length-append k.parameters (p ∷ [])));
  meta_counted = v.meta_counted;
  params = All-append ParamHeaderStored.IsStored k.parameters p v.params h;
  meta = v.meta;
}
  where
    count : ℕ
    count = length (k.parameters ++ p ∷ [])

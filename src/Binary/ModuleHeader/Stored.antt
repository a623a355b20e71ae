-- ===== src/Binary/ModuleHeader/Stored.antt =====
-- ModuleHeader::toBinaryData and fromBinaryData: a whole module is read back from its words.
use mathlib.Core.List.{append_assoc}
use native.Mathlib.Nat.{mod-eq_of_lt}
use vc4cl.Prelude.{
  All, All-append, ℕ, ◌+◌, ◌-◌, ◌^◌, ◌<◌, ◌≡◌, ◌∙◌, inl, inr, refl, ap, arith, List, [], ◌∷◌, ◌++◌,
  length, drop, replicate, set, length-append,
}
use vc4cl.Bitfield.{mask, set_entry}
use vc4cl.Bitfield.Laws.{get_entry-set_entry_self, get_entry-set_entry_other, set_entry-lt}
use vc4cl.Binary.Reader.{ok, read_many, write_many, read-write_many, drop-length-append}
use vc4cl.Binary.KernelHeader.{KernelHeader}
use vc4cl.Binary.KernelHeader
use vc4cl.Binary.KernelHeader.Stored as KernelHeaderStored
use vc4cl.Binary.ModuleHeader.{
  ModuleHeader, get_kernel_count, get_global_data_offset, get_global_data_size,
  get_stack_frame_size, head_words, final_value, to_binary_data, from_binary_data, add_kernel,
}

pub record IsStored (m : ModuleHeader) : Type 0 where
  pub word : m.value < 2 ^ 64
  pub counted : get_kernel_count m.value ≡ length m.kernels
  pub stored : All KernelHeaderStored.IsStored m.kernels

module _ (m : ModuleHeader) (global_data : List ℕ) (num_stack_words : ℕ) (v : IsStored m) where
  offset : ℕ
  offset = length (head_words m)

  placed : ℕ
  placed = set_entry 64 m.value offset 10 (mask 16)

  framed : ℕ
  framed = set_entry 64 placed num_stack_words 46 (mask 16)

  size : ℕ
  size = offset + length global_data + num_stack_words - get_global_data_offset framed

  placed-lt : placed < 2 ^ 64
  unfolding placed
  placed-lt = set_entry-lt 64 10 16 (omega arith) m.value offset v.word

  framed-lt : framed < 2 ^ 64
  unfolding framed
  framed-lt = set_entry-lt 64 46 16 (omega arith) placed num_stack_words placed-lt

  final_value_lem :
      final_value m global_data num_stack_words ≡ set_entry 64 framed size 26 (mask 20)
  unfolding final_value framed placed size offset
  final_value_lem = refl

  final_count : get_kernel_count (final_value m global_data num_stack_words) ≡ length m.kernels
  unfolding get_kernel_count
  final_count = rw final_value_lem (
      get_entry-set_entry_other 64 26 20 (omega arith) framed size framed-lt 0 10
        (inr (omega arith))
      ∙ unfold framed in
        get_entry-set_entry_other 64 46 16 (omega arith) placed num_stack_words placed-lt 0 10
          (inr (omega arith))
        ∙ unfold placed in
          get_entry-set_entry_other 64 10 16 (omega arith) m.value offset v.word 0 10
            (inr (omega arith))
          ∙ v.counted)

  framed-offset : offset < 2 ^ 16 → get_global_data_offset framed ≡ offset
  unfolding get_global_data_offset framed
  framed-offset h =
      get_entry-set_entry_other 64 46 16 (omega arith) placed num_stack_words placed-lt 10 16
        (inr (omega arith))
      ∙ (unfold placed in
          get_entry-set_entry_self 64 10 16 (omega arith) m.value offset v.word ∙ mod-eq_of_lt h)

  -- The words that a module is stored in, where its records agree with their counts and fit
  -- their widths (IsStored), give back the module, with its word as toBinaryData has left it.
  pub from_binary_data-to_binary_data :
      let (words, stored) = to_binary_data m global_data num_stack_words in
      from_binary_data words ≡ ok stored
  unfolding to_binary_data from_binary_data head_words
  from_binary_data-to_binary_data = ground (
    arith,
    ap (λ n. read_many n KernelHeader.from_binary_data stored_words 2) final_count
        ∙ read-write_many KernelHeaderStored.IsStored KernelHeader.from_binary_data
            KernelHeader.to_binary_data KernelHeaderStored.from-to_binary_data m.kernels v.stored
            stored_words 2 (0 ∷ (global_data ++ (replicate num_stack_words 0 ++ 0 ∷ [])))
            (append_assoc kernel_words (0 ∷ []) _) (λ e. cc),
  )
    where
      kernel_words : List ℕ
      kernel_words = write_many KernelHeader.to_binary_data m.kernels

      stored_words : List ℕ
      stored_words = (to_binary_data m global_data num_stack_words).0

  final_offset :
      offset < 2 ^ 16 → get_global_data_offset (final_value m global_data num_stack_words) ≡ offset
  unfolding get_global_data_offset
  final_offset h = rw final_value_lem (
      get_entry-set_entry_other 64 26 20 (omega arith) framed size framed-lt 10 16
        (inr (omega arith))
      ∙ framed-offset h)

  size_lem : offset < 2 ^ 16 → size ≡ length global_data + num_stack_words
  unfolding size
  size_lem h = omega (arith, framed-offset h)

  final_size :
      offset < 2 ^ 16
      → length global_data + num_stack_words < 2 ^ 20
      → get_global_data_size (final_value m global_data num_stack_words)
        ≡ length global_data + num_stack_words
  unfolding get_global_data_size
  final_size h g = rw final_value_lem (
      get_entry-set_entry_self 64 26 20 (omega arith) framed size framed-lt
      ∙ mod-eq_of_lt (omega (arith, size_lem h))
      ∙ size_lem h)

  final_stack :
      num_stack_words < 2 ^ 16
      → get_stack_frame_size (final_value m global_data num_stack_words) ≡ num_stack_words
  unfolding get_stack_frame_size framed
  final_stack f = rw final_value_lem (
      get_entry-set_entry_other 64 26 20 (omega arith) framed size framed-lt 46 16
        (inl (omega arith))
      ∙ get_entry-set_entry_self 64 46 16 (omega arith) placed num_stack_words placed-lt
      ∙ mod-eq_of_lt f)

  -- Where the kernels end below word 2 ^ 16, the module's word points at the global data, with the
  -- zeroed stack frame behind it, and gives the sizes of both.
  pub global_data_located :
      length (head_words m) < 2 ^ 16
      → length global_data + num_stack_words < 2 ^ 20
      → num_stack_words < 2 ^ 16
      → let (words, stored) = to_binary_data m global_data num_stack_words in
        (drop (get_global_data_offset stored.value) words
          ≡ global_data ++ (replicate num_stack_words 0 ++ 0 ∷ []))
        × (get_global_data_size stored.value ≡ length global_data + num_stack_words)
        × (get_stack_frame_size stored.value ≡ num_stack_words)
  unfolding to_binary_data head_words offset
  global_data_located h g f = (
    ap (λ n. drop n (set words 1 value)) (final_offset h)
        ∙ drop-length-append (write_many KernelHeader.to_binary_data m.kernels ++ 0 ∷ []) rest,
    final_size h g,
    final_stack f,
  )
    where
      rest : List ℕ
      rest = global_data ++ (replicate num_stack_words 0 ++ 0 ∷ [])

      words : List ℕ
      words = head_words m ++ rest

      value : ℕ
      value = final_value m global_data num_stack_words

-- Adding a kernel keeps a module one that can be stored, while its count fits.
pub add_kernel-IsStored :
    (m : ModuleHeader) (k : KernelHeader)
    → KernelHeaderStored.IsStored k
    → length m.kernels < 2 ^ 10 - 1
    → IsStored m
    → IsStored (add_kernel k m)
unfolding add_kernel get_kernel_count
add_kernel-IsStored m k h g v = record {
  word = set_entry-lt 64 0 10 (omega arith) m.value count v.word;
  counted =
      get_entry-set_entry_self 64 0 10 (omega arith) m.value count v.word
      ∙ mod-eq_of_lt (omega (arith, length-append m.kernels (k ∷ [])));
  stored = All-append KernelHeaderStored.IsStored m.kernels k v.stored h;
}
  where
    count : ℕ
    count = length (m.kernels ++ k ∷ [])

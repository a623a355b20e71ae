-- ===== src/Program/Module.antt =====
-- Program::extractModuleInfo on the words that ModuleHeader::toBinaryData makes.
use mathlib.Core.List.{append-nil, append_assoc}
use vc4cl.Prelude.{
  ℕ, bit_or, ◌*◌, ◌+◌, ◌^◌, ◌≤◌, ◌<◌, ◌==◌, ==_iff, ◌≡◌, refl, sym, ap, ◌∙◌, inl, inr, false, arith,
  Bool-cases, List, [], ◌∷◌, ◌++◌, length, take, drop, replicate, get_elem?, some, le→leb,
  length-append, length-drop, length-replicate,
}
use vc4cl.Prelude.Codes.{cl_success}
use vc4cl.Binary.Reader.{ok}
use vc4cl.Binary.ModuleHeader.{
  ModuleHeader, qpuasm_magic_number, head_words, get_global_data_offset, get_global_data_size,
  to_binary_data, from_binary_data,
}
use vc4cl.Binary.ModuleHeader.Stored.{
  IsStored, from_binary_data-to_binary_data, global_data_located,
}
use vc4cl.Program.{
  Program, returned, copy_global_data, extract_read, extract_from, is_empty, extract_module_info,
}

take-length-append : (xs ys : List ℕ) → take (length xs) (xs ++ ys) ≡ xs
take-length-append [] ys = refl
take-length-append (x ∷ xs) ys = ap (◌∷◌ x) (take-length-append xs ys)

empty_of_length : (xs : List ℕ) → length xs ≡ 0 → xs ≡ []
empty_of_length [] h = refl
empty_of_length (x ∷ xs) h = absurd (omega (arith, h))

module _ (p : Program) (data_words rest : List ℕ)
    (located : drop (get_global_data_offset p.module_info.value) p.binary_code
      ≡ data_words ++ 0 ∷ rest)
    (sized : get_global_data_size p.module_info.value ≡ length data_words) where
  within : get_global_data_offset p.module_info.value + length data_words ≤ length p.binary_code
  within = omega (
    arith,
    length-drop (get_global_data_offset p.module_info.value) p.binary_code,
    ap length located,
    length-append data_words (0 ∷ rest),
  )

  copy_global_data-appends :
      copy_global_data p
      ≡ returned (record p { global_data = p.global_data ++ data_words }) cl_success
  copy_global_data-appends = elim (Bool-cases (length data_words == 0)) [
    | inl q ↦
        rw (sized, q)
          (ap (λ d. returned (record p { global_data = d }) cl_success)
            (sym (append-nil p.global_data)
              ∙ ap (λ d. p.global_data ++ d)
                  (sym (empty_of_length data_words ((==_iff (length data_words) 0).0 q)))))
    | inr q ↦
        rw
          (
            sized,
            q,
            le→leb (get_global_data_offset p.module_info.value + length data_words)
                (length p.binary_code) within,
            located,
            take-length-append data_words (0 ∷ rest),
          )
          refl
  ]

first_word :
    (m : ModuleHeader) (global_data : List ℕ) (num_stack_words : ℕ)
    → get_elem? (to_binary_data m global_data num_stack_words).0 0
      ≡ some (bit_or qpuasm_magic_number (qpuasm_magic_number * 2 ^ 32))
unfolding to_binary_data head_words
first_word m global_data num_stack_words = refl

kernels_kept :
    (m : ModuleHeader) (global_data : List ℕ) (num_stack_words : ℕ)
    → (to_binary_data m global_data num_stack_words).1.kernels ≡ m.kernels
unfolding to_binary_data
kernels_kept m global_data num_stack_words = refl

extract-magic :
    (p : Program)
    → get_elem? p.binary_code 0 ≡ some (bit_or qpuasm_magic_number (qpuasm_magic_number * 2 ^ 32))
    → extract_module_info p ≡ extract_read p (from_binary_data p.binary_code)
unfolding extract_module_info
extract-magic p h = ap (extract_from p) h

extract_read-kernels :
    (p : Program) (header : ModuleHeader)
    → is_empty header.kernels ≡ false
    → extract_read p (ok header) ≡ copy_global_data (record p { module_info = header })
extract_read-kernels p header h = rw h refl

-- Where the binary code of a program is that of a well-formed module with a kernel, with its kernels
-- below word 2 ^ 16, extractModuleInfo succeeds, finds the module, and appends its global data, and
-- the zeroes of its stack frame, to the global data that the program has already.
pub extract_module_info-stored :
    (p : Program) (m : ModuleHeader) (global_data : List ℕ) (num_stack_words : ℕ)
    → IsStored m
    → is_empty m.kernels ≡ false
    → length (head_words m) < 2 ^ 16
    → length global_data + num_stack_words < 2 ^ 20
    → num_stack_words < 2 ^ 16
    → p.binary_code ≡ (to_binary_data m global_data num_stack_words).0
    → extract_module_info p
      ≡ returned
          (record p {
            module_info = (to_binary_data m global_data num_stack_words).1;
            global_data = p.global_data ++ (global_data ++ replicate num_stack_words 0);
          })
          cl_success
extract_module_info-stored p m global_data num_stack_words v some_kernel h g f code =
    let words : List ℕ = (to_binary_data m global_data num_stack_words).0 in
    let stored : ModuleHeader = (to_binary_data m global_data num_stack_words).1 in
    let zeroes : List ℕ = replicate num_stack_words 0 in
    let (located, sized, framed) = global_data_located m global_data num_stack_words v h g f in
    let read : from_binary_data p.binary_code ≡ ok stored =
      ap from_binary_data code ∙ from_binary_data-to_binary_data m global_data num_stack_words v in
    extract-magic p (ap (λ ws. get_elem? ws 0) code ∙ first_word m global_data num_stack_words)
    ∙ ap (extract_read p) read
    ∙ extract_read-kernels p stored
        (ap is_empty (kernels_kept m global_data num_stack_words) ∙ some_kernel)
    ∙ copy_global_data-appends (record p { module_info = stored }) (global_data ++ zeroes) []
        (ap (drop (get_global_data_offset stored.value)) code
          ∙ located
          ∙ sym (append_assoc global_data zeroes (0 ∷ [])))
        (sized
          ∙ omega
              (arith, length-append global_data zeroes, length-replicate {A = ℕ} num_stack_words 0))

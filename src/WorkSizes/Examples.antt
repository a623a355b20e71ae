-- ===== src/WorkSizes/Examples.antt =====
-- Tests and instances: a kernel on 12 QPUs.
use vc4cl.Prelude.{ℕ, ◌≡◌, refl, arith, true, false, some, none}
use vc4cl.WorkSizes.{
  Sizes, Kernel, accepted, mismatches, split_global_work_size, split_compile_work_size,
  set_work_group_sizes, check_sizes,
}
use vc4cl.WorkSizes.Split.{Fits, split_global_work_size-Fits}

abbrev sizes : ℕ → ℕ → ℕ → Sizes
sizes x y z = record { x = x; y = y; z = z }

abbrev kernel : Kernel
kernel = record {
  num_qpus = 12;
  work_item_merge_factor = 1;
  work_group_size = sizes 0 0 0;
  num_parameters = 2;
  args_set_mask = 3;
  num_kernels = 1;
}

accepted_here :
    set_work_group_sizes kernel true 2 none (some (sizes 64 3 0)) (some (sizes 8 1 0))
    ≡ accepted (sizes 0 0 0) (sizes 64 3 1) (sizes 8 1 1)
unfolding set_work_group_sizes mismatches check_sizes
accepted_here = refl

-- 100 work-items are split into ten groups of ten.
split_global_work_size-Fits_example :
    (local : Sizes) × (split_global_work_size kernel (sizes 100 1 1) ≡ some local)
    × Fits kernel (sizes 100 1 1) local
split_global_work_size-Fits_example =
    split_global_work_size-Fits kernel (sizes 100 1 1) (omega arith)

-- A local size of 8 by 5 by 1 passes the check against 8 by 4 by 1: the tests are joined by `&&`.
mismatch_missed : mismatches 3 (sizes 8 4 1) (sizes 8 5 1) ≡ false
unfolding mismatches
mismatch_missed = refl

-- 65536 by 65536 work-items wrap around to 0, and are taken for one work-group of no work-items.
no_work_items :
    set_work_group_sizes kernel true 2 none (some (sizes 65536 65536 1)) none
    ≡ accepted (sizes 0 0 0) (sizes 65536 65536 1) (sizes 65536 65536 1)
unfolding set_work_group_sizes split_compile_work_size split_global_work_size check_sizes
no_work_items = refl

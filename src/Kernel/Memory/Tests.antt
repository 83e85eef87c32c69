-- ===== src/Kernel/Memory/Tests.antt =====
-- kernel/memory.c: a thread with eight pages, in a pool of eight frames.
use gogoos.Common.{ℕ, ◌<◌, ◌≡◌, refl, true, false, none, some, [], ◌∷◌, if◌then◌else◌, arith, leb}
use gogoos.Kernel.Memory.{pf_user, Pages, is_present, alloc_page, free_page}
use gogoos.Kernel.Memory.FirstFrame.{free_page-first_frame}
use gogoos.Kernel.Memory.Setup.{IsLaidOut, mem_pool_init, mem_pool_init-IsLaidOut}
use gogoos.Kernel.Memory.Frames.{pte, pde}
use gogoos.Kernel.Memory.AllocPage.{IsUser, Allocation, alloc_page-Allocation}

-- frame 0 is in use, and no page is; all page tables are there, and empty
abbrev eight : Pages
eight = record {
  kernel_pap = record {
    bit_map = record { size = 1; bytes = 0 ∷ 0 ∷ [] };
    start_addr = 0x202000;
    size = 32768;
  };
  user_pap = record {
    bit_map = record { size = 1; bytes = 1 ∷ 0 ∷ [] };
    start_addr = 0x300000;
    size = 32768;
  };
  kernel_vap = record {
    bit_map = record { size = 1; bytes = 0 ∷ 0 ∷ [] };
    start_addr = 0xc0100000;
  };
  vap = record { bit_map = record { size = 1; bytes = 0 ∷ 0 ∷ [] }; start_addr = 0x8048000 };
  has_page_dir = true;
  word = λ p. if leb 0xfffff000 p then 1 else 0;
}

tables_eight : (i : ℕ) → i < 8 → is_present (eight.word (pde 0x8048000 i)) ≡ true
tables_eight i lt = ground arith

unmapped_eight : (i : ℕ) → i < 8 → is_present (eight.word (pte 0x8048000 i)) ≡ false
unmapped_eight i lt = ground arith

eight-IsUser : IsUser eight
eight-IsUser = record {
  pool = record {
    valid = record {
      inside = omega arith;
      small = omega arith;
      bytes_lt = (omega arith, (omega arith, tt));
    };
    behind = omega arith;
    aligned = refl;
    positive = omega arith;
    fits = omega arith;
  };
  valid = record {
    inside = omega arith;
    small = omega arith;
    bytes_lt = (omega arith, (omega arith, tt));
  };
  behind = omega arith;
  aligned = refl;
  positive = omega arith;
  low = omega arith;
  tables = tables_eight;
  unmapped = λ i lt free. unmapped_eight i lt;
}

alloc_page-Allocation_example :
    (res : ℕ × Pages) × (alloc_page eight pf_user 3 ≡ some res) × Allocation eight 3 res
alloc_page-Allocation_example =
    alloc_page-Allocation eight 3 eight-IsUser (omega arith) (omega arith)

-- frame 0 under the first page
abbrev mapped_first : Pages
mapped_first = record eight { word = λ p. if leb 0xfffff000 p then 1 else 0x300007 }

free_page-first_frame_example : free_page mapped_first pf_user 0x8048000 1 ≡ none
free_page-first_frame_example =
    free_page-first_frame mapped_first pf_user 0x8048000 0 refl (omega arith) (omega arith) refl
      refl refl

mem_pool_init-IsLaidOut_example : IsLaidOut 0x2000000 (mem_pool_init 0x2000000)
mem_pool_init-IsLaidOut_example = mem_pool_init-IsLaidOut 0x2000000 (omega arith) (omega arith)

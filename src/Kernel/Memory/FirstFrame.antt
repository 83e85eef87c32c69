-- ===== src/Kernel/Memory/FirstFrame.antt =====
-- kernel/memory.c: `freePage` of a page in the first frame of the pool of the users.
use gogoos.Common.{
  ℕ, suc, ◌%◌, ◌<◌, ◌≡◌, refl, ap, ◌∙◌, true, false, none, some, arith, ltb, leb, lt→ltb, ltb-false,
}
use gogoos.Kernel.Memory.{
  PoolFlag, Pages, pg_size, get_pte_ptr, get_pde_ptr, is_present, entry_of, addr_v2p, free_loop,
  free_page,
}
use gogoos.Kernel.Memory.Translate.{addr_v2p-entry}

-- A page that has its table and is mapped to the first frame of the pool of the users, where that
-- pool begins behind 0x102000, cannot be freed: `freePage` of a run of pages from it on stops at an
-- ASSERT.
pub free_page-first_frame :
    (m : Pages) (pf : PoolFlag) (vaddr n : ℕ)
    → vaddr % pg_size ≡ 0
    → vaddr < 0xffc00000
    → 0x102000 < m.user_pap.start_addr
    → m.user_pap.start_addr % pg_size ≡ 0
    → is_present (m.word (get_pde_ptr vaddr)) ≡ true
    → m.word (get_pte_ptr vaddr) ≡ entry_of m.user_pap.start_addr
    → free_page m pf vaddr (suc n) ≡ none
unfolding free_page free_loop
free_page-first_frame m pf vaddr n page low above frame table entry =
    let start = m.user_pap.start_addr in
    let found : addr_v2p m vaddr ≡ some start =
      addr_v2p-entry m vaddr low start table entry frame ∙ ap some (omega (arith, page)) in
    let user : leb start start ≡ true = ground arith in
    let not_above : ltb start start ≡ false = ltb-false start start (omega arith) in
    rw
      (
        lt→ltb 0 (suc n) (omega arith),
        page,
        found,
        frame,
        lt→ltb 0x102000 start above,
        user,
        not_above,
      )
      refl

-- ===== src/Kernel/Memory.antt =====
-- kernel/memory.c: frames, pages and the page tables. The page tables are mapped as one array of
-- words at 0xffc00000, whose last page is the page directory: `word` is what is at a pointer into it,
-- and a table can be read where its directory entry is present. A mask is written as a division. The
-- address 0 is NULL; `none` is a failed ASSERT, a PANIC, or an access outside of an object. The locks
-- of the pools are left out, as is the flush of a page from the cache of translations.
pub mod Translate
pub mod Frames
pub mod Rollback
pub mod Allocate
pub mod AllocPage
pub mod FirstFrame
pub mod Setup
mod Tests
use gogoos.Common.{
  ℕ, zero, suc, ◌+◌, ◌-◌, ◌*◌, ◌/◌, ◌%◌, ◌^◌, Bool, true, false, not, ◌&&◌, Option, none, some, ltb,
  leb, ◌==◌, if◌then◌else◌, ◌>>=◌, ◌>>◌, assert, u32, minus_one,
}
use gogoos.Structure.BitMap.{BitMap, bit_map_scan, bit_map_set, set_run, bit_map_scan_and_set}

pub record PhysicalAddrPool : Type 0 where
  pub bit_map : BitMap
  pub start_addr : ℕ
  pub size : ℕ

pub record VirtualAddrPool : Type 0 where
  pub bit_map : BitMap
  pub start_addr : ℕ

pub data PoolFlag : Type 0 where
  pf_user : PoolFlag
  pf_kernel : PoolFlag

-- `vap` is that of the current thread, and `has_page_dir` says that its `pageDir` is not NULL.
pub record Pages : Type 0 where
  pub kernel_pap : PhysicalAddrPool
  pub user_pap : PhysicalAddrPool
  pub kernel_vap : VirtualAddrPool
  pub vap : VirtualAddrPool
  pub has_page_dir : Bool
  pub word : ℕ → ℕ

abbrev pub pg_size : ℕ
pg_size = 4096

abbrev pub get_pte_ptr : ℕ → ℕ
get_pte_ptr vaddr = 0xffc00000 + vaddr / 2 ^ 22 * 2 ^ 22 / 2 ^ 10 + vaddr / 2 ^ 12 % 2 ^ 10 * 4

abbrev pub get_pde_ptr : ℕ → ℕ
get_pde_ptr vaddr = 0xfffff000 + vaddr / 2 ^ 22 * 4

-- & 0x00000001
abbrev pub is_present : ℕ → Bool
is_present entry = entry % 2 == 1

-- addr | PG_US_U | PG_RW_W | PG_P_1: the three low bits are set
abbrev pub entry_of : ℕ → ℕ
entry_of addr = addr / 8 * 8 + 7

abbrev pub store_word : Pages → (ptr v : ℕ) → Pages
store_word m ptr v = record m { word = λ p. if p == ptr then v else m.word p }

-- *getPtePtr(vaddr)
pub load_pte : Pages → ℕ → Option ℕ
load_pte m vaddr = do
  assert (is_present (m.word (get_pde_ptr vaddr)))
  some (m.word (get_pte_ptr vaddr))

pub addr_v2p : Pages → ℕ → Option ℕ
addr_v2p m vaddr = do pte ← load_pte m vaddr; some (pte / 2 ^ 12 * 2 ^ 12 + vaddr % 2 ^ 12)

-- `allocPhyAddr` returns the address and the pool that it leaves.
unfoldable pub alloc_phy_addr : PhysicalAddrPool → Option (ℕ × PhysicalAddrPool)
alloc_phy_addr pap = do
  bit_idx ← bit_map_scan pap.bit_map 1
  if bit_idx == minus_one then some (0, pap) else do
    bm ← bit_map_set pap.bit_map bit_idx true
    some (u32 (bit_idx * pg_size + pap.start_addr), record pap { bit_map = bm })

abbrev pub clear_frame : PhysicalAddrPool → ℕ → Option PhysicalAddrPool
clear_frame pap addr = do
  bm ← bit_map_set pap.bit_map (u32 (addr + 2 ^ 32 - pap.start_addr) / pg_size) false
  some (record pap { bit_map = bm })

pub free_phy_addr : Pages → ℕ → Option Pages
free_phy_addr m phy_page_addr =
    if leb m.user_pap.start_addr phy_page_addr
    then (do pap ← clear_frame m.user_pap phy_page_addr; some (record m { user_pap = pap }))
    else (do pap ← clear_frame m.kernel_pap phy_page_addr; some (record m { kernel_pap = pap }))

-- `allocVirAddr`
pub alloc_vir_addr : Pages → PoolFlag → (page_cnt : ℕ) → Option (ℕ × Pages)
alloc_vir_addr m pf_kernel page_cnt = do
  (start, bm) ← bit_map_scan_and_set m.kernel_vap.bit_map page_cnt true
  if start == minus_one
      then some (0, record m { kernel_vap = record m.kernel_vap { bit_map = bm } })
      else some (
        u32 (m.kernel_vap.start_addr + start * pg_size),
        record m { kernel_vap = record m.kernel_vap { bit_map = bm } },
      )
alloc_vir_addr m pf_user page_cnt = do
  (start, bm) ← bit_map_scan_and_set m.vap.bit_map page_cnt true
  if start == minus_one then some (0, record m { vap = record m.vap { bit_map = bm } }) else do
    assert (ltb (u32 (m.vap.start_addr + start * pg_size)) (0xc0000000 - pg_size))
    some
        (u32 (m.vap.start_addr + start * pg_size), record m { vap = record m.vap { bit_map = bm } })

-- The loops of `freeVirAddr` clear `pg_cnt` bits from `bitIdxStart` on.
pub clear_pages : VirtualAddrPool → (vaddr pg_cnt : ℕ) → Option VirtualAddrPool
clear_pages vap vaddr pg_cnt = do
  bm ← set_run pg_cnt vap.bit_map (u32 (vaddr + 2 ^ 32 - vap.start_addr) / pg_size) false
  some (record vap { bit_map = bm })

pub free_vir_addr : Pages → PoolFlag → (vir_page_addr pg_cnt : ℕ) → Option Pages
free_vir_addr m pf_kernel vaddr pg_cnt = do
  vap ← clear_pages m.kernel_vap vaddr pg_cnt
  some (record m { kernel_vap = vap })
free_vir_addr m pf_user vaddr pg_cnt = do
  vap ← clear_pages m.vap vaddr pg_cnt
  some (record m { vap = vap })

-- the branch of `mapPageTable` that makes a table: the frame that it is given is not compared with
-- NULL, and `memset` clears the page of the table that the entry is in
abbrev pub new_table : Pages → (va table : ℕ) → Pages
new_table m va table =
    let m1 = store_word m (get_pde_ptr va) (entry_of table) in
    let page = get_pte_ptr va / 2 ^ 12 * 2 ^ 12 in
    record m1 { word = λ p. if leb page p && ltb p (page + pg_size) then 0 else m1.word p }

pub map_page_table : Pages → (va pa : ℕ) → Option Pages
map_page_table m va pa =
    if is_present (m.word (get_pde_ptr va))
    then (if not (is_present (m.word (get_pte_ptr va)))
        then some (store_word m (get_pte_ptr va) (entry_of pa))
        else none)
    else (do
      (table, pap) ← alloc_phy_addr m.kernel_pap
      some (
          store_word (new_table (record m { kernel_pap = pap }) va table) (get_pte_ptr va)
            (entry_of pa)))

-- `unmapPageTable`: *pte &= ~PG_P_1
pub unmap_page_table : Pages → ℕ → Option Pages
unmap_page_table m vaddr = do
  pte ← load_pte m vaddr
  some (store_word m (get_pte_ptr vaddr) (pte / 2 * 2))

-- `pf == PF_KERNEL ? &kernelPap : &userPap`, and the pool put back
abbrev pub pool_of : Pages → PoolFlag → PhysicalAddrPool
pool_of m pf_user = m.user_pap
pool_of m pf_kernel = m.kernel_pap

abbrev pub with_pool : Pages → PoolFlag → PhysicalAddrPool → Pages
with_pool m pf_user pap = record m { user_pap = pap }
with_pool m pf_kernel pap = record m { kernel_pap = pap }

-- The inner loop of `allocPage`, which gives `n` pages back from `vaddr` down: where it ends, too.
pub roll_back : (n : ℕ) → Pages → (vaddr : ℕ) → Option (ℕ × Pages)
roll_back zero m vaddr = some (vaddr, m)
roll_back (suc n) m vaddr = do
  paddr ← addr_v2p m vaddr
  m1 ← free_phy_addr m paddr
  m2 ← unmap_page_table m1 vaddr
  roll_back n m2 (u32 (vaddr + 2 ^ 32 - pg_size))

-- what `allocPage` does when no frame is left, with `n` pages mapped
pub give_up : (n : ℕ) → Pages → PoolFlag → (vir_page_addr page_cnt vaddr : ℕ) → Option (ℕ × Pages)
give_up n m pf vir_page_addr page_cnt vaddr = do
  (end, m1) ← roll_back n m (u32 (vaddr + 2 ^ 32 - pg_size))
  m2 ← free_vir_addr m1 pf vir_page_addr page_cnt
  assert (ltb end vir_page_addr)
  some (0, m2)

-- The loop of `allocPage`, with `left` pages to go.
pub alloc_loop :
    (left : ℕ) → PoolFlag → (vir_page_addr page_cnt : ℕ) → Pages → (vaddr : ℕ) → Option (ℕ × Pages)
alloc_loop zero pf vir_page_addr page_cnt m vaddr = some (vir_page_addr, m)
alloc_loop (suc left) pf vir_page_addr page_cnt m vaddr = do
  let next = alloc_loop left pf vir_page_addr page_cnt
  (paddr, pap) ← alloc_phy_addr (pool_of m pf)
  if paddr == 0
      then give_up (page_cnt - suc left) (with_pool m pf pap) pf vir_page_addr page_cnt vaddr
      else do m' ← map_page_table (with_pool m pf pap) vaddr paddr; next m' (u32 (vaddr + pg_size))

-- `allocPage`
pub alloc_page : Pages → PoolFlag → (page_cnt : ℕ) → Option (ℕ × Pages)
alloc_page m pf page_cnt = do
  assert (ltb 0 page_cnt && ltb page_cnt 3840)
  (vaddr, m1) ← alloc_vir_addr m pf page_cnt
  if vaddr == 0 then some (0, m1) else alloc_loop page_cnt pf vaddr page_cnt m1 vaddr

-- The loops of `freePage`; `ok` is the ASSERT on the frame.
pub free_loop : (left : ℕ) → (ok : ℕ → Bool) → Pages → (vaddr : ℕ) → Option Pages
free_loop zero ok m vaddr = some m
free_loop (suc left) ok m vaddr = do
  paddr ← addr_v2p m vaddr
  assert (paddr % pg_size == 0 && ok paddr)
  m1 ← free_phy_addr m paddr
  m2 ← unmap_page_table m1 vaddr
  free_loop left ok m2 (u32 (vaddr + pg_size))

-- `freePage`
pub free_page : Pages → PoolFlag → (vir_page_addr pg_cnt : ℕ) → Option Pages
free_page m pf vaddr pg_cnt = do
  assert (ltb 0 pg_cnt && (vaddr % pg_size == 0))
  paddr ← addr_v2p m vaddr
  assert ((paddr % pg_size == 0) && ltb 0x102000 paddr)
  m' ←
      (if leb m.user_pap.start_addr paddr
        then free_loop pg_cnt (λ p. ltb m.user_pap.start_addr p) m vaddr
        else free_loop pg_cnt (λ p. leb m.kernel_pap.start_addr p && ltb p m.user_pap.start_addr) m
            vaddr)
  free_vir_addr m' pf vaddr pg_cnt

-- `getOnePageWithoutVBM`
pub get_one_page_without_vbm : Pages → PoolFlag → (vaddr : ℕ) → Option (ℕ × Pages)
get_one_page_without_vbm m pf vaddr = do
  (paddr, pap) ← alloc_phy_addr (pool_of m pf)
  if paddr == 0
      then some (0, with_pool m pf pap)
      else do m' ← map_page_table (with_pool m pf pap) vaddr paddr; some (vaddr, m')

-- The marking of the page in `getOnePage`; the flag and the thread have to match. The quotient of
-- `bitIdx` is below 2 ^ 20, which is no negative `int32`.
pub mark_page : Pages → PoolFlag → (vaddr : ℕ) → Option Pages
mark_page m pf_user vaddr =
    if m.has_page_dir
    then (do
      bm ← bit_map_set m.vap.bit_map (u32 (vaddr + 2 ^ 32 - m.vap.start_addr) / pg_size) true
      some (record m { vap = record m.vap { bit_map = bm } }))
    else none
mark_page m pf_kernel vaddr = if m.has_page_dir then none else (do
  bm ←
      bit_map_set m.kernel_vap.bit_map (u32 (vaddr + 2 ^ 32 - m.kernel_vap.start_addr) / pg_size)
        true
  some (record m { kernel_vap = record m.kernel_vap { bit_map = bm } }))

-- `getOnePage`
pub get_one_page : Pages → PoolFlag → (vaddr : ℕ) → Option (ℕ × Pages)
get_one_page m pf vaddr = do
  assert (vaddr % pg_size == 0)
  m1 ← mark_page m pf vaddr
  get_one_page_without_vbm m1 pf vaddr

-- ===== src/Kernel/Memory/Setup.antt =====
-- kernel/memory.c, `memPoolInit`: where the pools and their bit maps lie. The maps are cleared there
-- by `bitMapInit`; the locks are set up by `lockInit` of Kernel.Sync.
use gogoos.Common.{ℕ, ◌+◌, ◌-◌, ◌*◌, ◌/◌, ◌%◌, ◌^◌, ◌<◌, ◌≤◌, ◌≡◌, refl, arith, u32}
use gogoos.Kernel.Memory.{pg_size}

-- a pool with the address of its bit map; that of pages has no `size`
pub record Area : Type 0 where
  pub bit_map_addr : ℕ
  pub bit_map_length : ℕ
  pub start_addr : ℕ
  pub size : ℕ

pub record Pools : Type 0 where
  pub kernel_pap : Area
  pub user_pap : Area
  pub kernel_vap : Area

abbrev pub mem_bitmap_base : ℕ
mem_bitmap_base = 0xc009a000

abbrev pub k_heap_start : ℕ
k_heap_start = 0xc0100000

abbrev pub page_dir_table_pos : ℕ
page_dir_table_pos = 0x00100000

pub mem_pool_init : ℕ → Pools
mem_pool_init all_mem =
    let used_mem = u32 (pg_size * 256 + page_dir_table_pos) in
    let free_mem = u32 (all_mem + 2 ^ 32 - used_mem) in
    let all_free_pages = free_mem / pg_size in
    let kernel_free_pages = all_free_pages / 2 in
    let user_free_pages = all_free_pages / 2 in
    let kbm_length = kernel_free_pages / 8 in
    let ubm_length = user_free_pages / 8 in
    let kernel_page_start = used_mem in
    let user_page_start = u32 (kernel_page_start + kernel_free_pages * pg_size) in
    record {
      kernel_pap = record {
        bit_map_addr = mem_bitmap_base;
        bit_map_length = kbm_length;
        start_addr = kernel_page_start;
        size = u32 (kernel_free_pages * pg_size);
      };
      user_pap = record {
        bit_map_addr = u32 (mem_bitmap_base + kbm_length);
        bit_map_length = ubm_length;
        start_addr = user_page_start;
        size = u32 (user_free_pages * pg_size);
      };
      kernel_vap = record {
        bit_map_addr = u32 (mem_bitmap_base + kbm_length + ubm_length);
        bit_map_length = kbm_length;
        start_addr = k_heap_start;
        size = 0;
      };
    }

abbrev pub map_end : Area → ℕ
map_end a = a.bit_map_addr + a.bit_map_length

-- The pools lie side by side in the memory, all their bits name frames of them, and their maps lie
-- side by side below the page of the main thread.
pub record IsLaidOut (all_mem : ℕ) (p : Pools) : Type 0 where
  pub kernel_aligned : p.kernel_pap.start_addr % pg_size ≡ 0
  pub user_aligned : p.user_pap.start_addr % pg_size ≡ 0
  pub kernel_frames : p.kernel_pap.bit_map_length * 8 * pg_size ≤ p.kernel_pap.size
  pub user_frames : p.user_pap.bit_map_length * 8 * pg_size ≤ p.user_pap.size
  pub behind_kernel : p.kernel_pap.start_addr + p.kernel_pap.size ≡ p.user_pap.start_addr
  pub in_memory : p.user_pap.start_addr + p.user_pap.size ≤ all_mem
  pub almost_all : all_mem < p.user_pap.start_addr + p.user_pap.size + 2 * pg_size
  pub user_map : p.user_pap.bit_map_addr ≡ map_end p.kernel_pap
  pub page_map : p.kernel_vap.bit_map_addr ≡ map_end p.user_pap
  pub maps_end : map_end p.kernel_vap ≤ 0xc009e000
  pub enough_pages : p.kernel_vap.bit_map_length ≡ p.kernel_pap.bit_map_length

-- With 2 to 343 megabytes of memory `memPoolInit` lays the pools out: frames of both pools are whole
-- pages of the memory behind the kernel, the pool of the users follows that of the kernel, fewer than
-- two pages are left over, no bit of a map names a frame outside of its pool, and the three maps lie
-- side by side below the page of the main thread.
pub mem_pool_init-IsLaidOut :
    (all_mem : ℕ)
    → 0x200000 ≤ all_mem
    → all_mem ≤ 343 * 2 ^ 20
    → IsLaidOut all_mem (mem_pool_init all_mem)
unfolding mem_pool_init
mem_pool_init-IsLaidOut all_mem lo hi = record {
  kernel_aligned = refl;
  user_aligned = omega (arith, lo, hi);
  kernel_frames = omega (arith, lo, hi);
  user_frames = omega (arith, lo, hi);
  behind_kernel = omega (arith, lo, hi);
  in_memory = omega (arith, lo, hi);
  almost_all = omega (arith, lo, hi);
  user_map = omega (arith, lo, hi);
  page_map = omega (arith, lo, hi);
  maps_end = omega (arith, lo, hi);
  enough_pages = refl;
}

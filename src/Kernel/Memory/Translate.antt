-- ===== src/Kernel/Memory/Translate.antt =====
-- kernel/memory.c: the entries of the page tables, and one frame of a pool.
use gogoos.Common.{
  ℕ, ◌+◌, ◌-◌, ◌*◌, ◌/◌, ◌%◌, ◌^◌, ◌<◌, ◌≤◌, ◌≡◌, refl, ◌⊎◌, inl, inr, Bool, true, false, some,
  arith, ==_false, u32, minus_one, leb, length, length-set,
}
use gogoos.Structure.BitMap.Valid.{IsValid, updated, updated-IsValid, bit_map_set_lem}
use gogoos.Structure.BitMap.Scan.{IsFirstRun, NoRun, bit_map_scan-Scanned}
use gogoos.Kernel.Memory.{
  PhysicalAddrPool, Pages, pg_size, get_pte_ptr, get_pde_ptr, is_present, entry_of, store_word,
  load_pte, addr_v2p, alloc_phy_addr, free_phy_addr, map_page_table, unmap_page_table,
}

-- A pool of whole frames, none of them at 0 and all of them in the memory, with a byte behind its map.
pub record IsPool (pap : PhysicalAddrPool) : Type 0 where
  pub valid : IsValid pap.bit_map
  pub behind : pap.bit_map.size < length pap.bit_map.bytes
  pub aligned : pap.start_addr % pg_size ≡ 0
  pub positive : 0 < pap.start_addr
  pub fits : pap.start_addr + pap.bit_map.size * 8 * pg_size ≤ 2 ^ 32

abbrev pub frame : PhysicalAddrPool → ℕ → ℕ
frame pap f = f * pg_size + pap.start_addr

abbrev pub with_bit : PhysicalAddrPool → ℕ → Bool → PhysicalAddrPool
with_bit pap f val = record pap { bit_map = updated pap.bit_map f val }

pub alloc_phy_addr-lem :
    (pap : PhysicalAddrPool)
    → IsPool pap
    → ((f : ℕ) × IsFirstRun pap.bit_map 1 f
        × (alloc_phy_addr pap ≡ some (frame pap f, with_bit pap f true)))
      ⊎ (NoRun pap.bit_map 1 × (alloc_phy_addr pap ≡ some (0, pap)))
unfolding alloc_phy_addr
alloc_phy_addr-lem pap h =
    let (r, scan, s) = bit_map_scan-Scanned pap.bit_map 1 h.valid (inl h.behind) (omega arith) in
    elim s [
      | inl run ↦
          let fits = run.fits in
          let small = h.valid.small in
          let whole : u32 (r * pg_size + pap.start_addr) ≡ frame pap r =
            omega (arith, run.fits, h.fits) in
          inl (
            r,
            run,
            rw
                (
                  scan,
                  ==_false r minus_one (omega arith),
                  bit_map_set_lem pap.bit_map r true h.valid (omega arith),
                  whole,
                )
                refl,
          )
      | inr (e, no_run) ↦ inr (no_run, rw (scan, e) refl)
    ]

pub with_bit-IsPool :
    (pap : PhysicalAddrPool) (f : ℕ) (val : Bool) → IsPool pap → IsPool (with_bit pap f val)
with_bit-IsPool pap f val h = record {
  valid = updated-IsValid pap.bit_map f val h.valid;
  behind = omega (arith, h.behind, length-set pap.bit_map.bytes (f / 8) _);
  aligned = h.aligned;
  positive = h.positive;
  fits = h.fits;
}

module _ (m : Pages) (va : ℕ) (low : va < 0xffc00000) where
  -- An entry that is not there yet is written, where the table is.
  pub map_page_table-lem :
      (pa : ℕ)
      → is_present (m.word (get_pde_ptr va)) ≡ true
      → is_present (m.word (get_pte_ptr va)) ≡ false
      → map_page_table m va pa ≡ some (store_word m (get_pte_ptr va) (entry_of pa))
  unfolding map_page_table
  map_page_table-lem pa table absent = rw (table, absent) refl

  pub addr_v2p-entry :
      (pa : ℕ)
      → is_present (m.word (get_pde_ptr va)) ≡ true
      → m.word (get_pte_ptr va) ≡ entry_of pa
      → pa % 4096 ≡ 0
      → addr_v2p m va ≡ some (pa + va % 4096)
  unfolding addr_v2p load_pte
  addr_v2p-entry pa table e aligned =
      let whole : entry_of pa / 2 ^ 12 * 2 ^ 12 ≡ pa = omega (arith, aligned) in
      rw (table, e, whole) refl

  pub unmap_page_table-lem :
      is_present (m.word (get_pde_ptr va)) ≡ true
      → unmap_page_table m va
        ≡ some (store_word m (get_pte_ptr va) (m.word (get_pte_ptr va) / 2 * 2))
  unfolding unmap_page_table load_pte
  unmap_page_table-lem table = rw (table) refl

pub free_phy_addr-lem :
    (m : Pages) (f : ℕ)
    → IsPool m.user_pap
    → f < m.user_pap.bit_map.size * 8
    → free_phy_addr m (frame m.user_pap f)
      ≡ some (record m { user_pap = with_bit m.user_pap f false })
unfolding free_phy_addr
free_phy_addr-lem m f h lt =
    let user : leb m.user_pap.start_addr (frame m.user_pap f) ≡ true = ground arith in
    let idx : u32 (frame m.user_pap f + 2 ^ 32 - m.user_pap.start_addr) / pg_size ≡ f =
      omega (arith, h.fits) in
    rw (user, idx, bit_map_set_lem m.user_pap.bit_map f false h.valid lt) refl

-- ===== src/Kernel/Memory/AllocPage.antt =====
-- kernel/memory.c: `allocPage` and the two pools of a user.
use gogoos.Common.{
  ℕ, ◌+◌, ◌-◌, ◌*◌, ◌/◌, ◌%◌, ◌^◌, ◌<◌, ◌≤◌, ◌≡◌, ◌≢◌, refl, ap, ◌∙◌, inl, inr, true, false, some,
  arith, ==_false, u32, lt→ltb, minus_one, length,
}
use gogoos.Structure.BitMap.{BitMap, bit_map_scan_and_set}
use gogoos.Structure.BitMap.Valid.{bit_at, IsValid}
use gogoos.Structure.BitMap.Scan.{IsFirstRun, NoRun}
use gogoos.Structure.BitMap.Claim.{
  Marked, Claimed, claimed, refused, set_run-Marked, bit_map_scan_and_set-Claimed,
}
use gogoos.Kernel.Memory.{
  pf_user, Pages, pg_size, get_pte_ptr, get_pde_ptr, is_present, clear_pages, alloc_vir_addr,
  alloc_loop, alloc_page,
}
use gogoos.Kernel.Memory.Translate.{IsPool}
use gogoos.Kernel.Memory.Frames.{
  pte, pde, Room, none_yet, Mapped-Kept, Backed, Mapped-Backed, Mapped-distinct,
}
use gogoos.Kernel.Memory.Allocate.{RunsOut, alloc_loop-lem}
use gogoos.Kernel.Memory.Rollback.{SameBits}

-- The pools of a user: pages of the virtual pool lie below the kernel, have their tables, and are
-- mapped only if they are in use.
pub record IsUser (m : Pages) : Type 0 where
  pub pool : IsPool m.user_pap
  pub valid : IsValid m.vap.bit_map
  pub behind : m.vap.bit_map.size < length m.vap.bit_map.bytes
  pub aligned : m.vap.start_addr % pg_size ≡ 0
  pub positive : 0 < m.vap.start_addr
  pub low : m.vap.start_addr + m.vap.bit_map.size * 8 * pg_size ≤ 0xbffff000
  pub tables :
      (i : ℕ) → i < m.vap.bit_map.size * 8 → is_present (m.word (pde m.vap.start_addr i)) ≡ true
  pub unmapped :
      (i : ℕ)
      → i < m.vap.bit_map.size * 8
      → bit_at m.vap.bit_map.bytes i ≡ 0
      → is_present (m.word (pte m.vap.start_addr i)) ≡ false

-- the pages of the user marked
abbrev pub marked : Pages → BitMap → Pages
marked m bm = record m { vap = record m.vap { bit_map = bm } }

-- what `allocPage` may do
pub data Allocation (m : Pages) (cnt : ℕ) : ℕ × Pages → Type 0 where
  no_pages : NoRun m.vap.bit_map cnt → Allocation m cnt (0, m)
  no_frames :
      {v : ℕ} {bm : BitMap} {m' : Pages}
      → RunsOut (marked m bm) v cnt
      → SameBits m'.user_pap m.user_pap
      → ((i : ℕ) → bit_at m'.vap.bit_map.bytes i ≡ bit_at m.vap.bit_map.bytes i)
      → Allocation m cnt (0, m')
  allocated :
      {r v : ℕ} {m' : Pages}
      → v ≡ m.vap.start_addr + r * pg_size
      → IsFirstRun m.vap.bit_map cnt r
      → Marked m.vap.bit_map r cnt true m'.vap.bit_map
      → ((k : ℕ) → k < cnt → Backed m m' (v + k * pg_size))
      → ((j k : ℕ) → j < k → k < cnt → m'.word (pte v j) ≢ m'.word (pte v k))
      → Allocation m cnt (v, m')

module _ (m : Pages) (u : IsUser m) (cnt : ℕ) (pos : 0 < cnt) where
  marked-Room :
      (r : ℕ) (bm : BitMap)
      → IsFirstRun m.vap.bit_map cnt r
      → Room (marked m bm) (m.vap.start_addr + r * pg_size) cnt
  marked-Room r bm run = record {
    pool = u.pool;
    aligned = omega (arith, u.aligned);
    positive = omega (arith, u.positive);
    low = omega (arith, u.low, run.fits);
    tables = λ k lt.
        ap (λ a. is_present (m.word (get_pde_ptr a))) (omega arith)
        ∙ u.tables (r + k) (omega (arith, run.fits));
    unmapped = λ k lt.
        ap (λ a. is_present (m.word (get_pte_ptr a))) (omega arith)
        ∙ u.unmapped (r + k) (omega (arith, run.fits)) (run.free k lt);
  }

  -- `freeVirAddr` of the marked run
  clear_pages-marked :
      (r : ℕ) (bm : BitMap)
      → IsFirstRun m.vap.bit_map cnt r
      → Marked m.vap.bit_map r cnt true bm
      → (bm' : BitMap) × (clear_pages (marked m bm).vap (m.vap.start_addr + r * pg_size) cnt
          ≡ some (record m.vap { bit_map = bm' }))
        × ((i : ℕ) → bit_at bm'.bytes i ≡ bit_at m.vap.bit_map.bytes i)
  unfolding clear_pages
  clear_pages-marked r bm run mk =
      let (bm', cleared, mk') =
        set_run-Marked cnt bm r false mk.valid (omega (arith, run.fits, mk.size)) in
      let idx : u32 (m.vap.start_addr + r * pg_size + 2 ^ 32 - m.vap.start_addr) / pg_size ≡ r =
        omega (arith, u.low, run.fits) in
      (bm', rw (idx, cleared) refl, λ i. ground (arith, mk.bits i, mk'.bits i, free i))
    where
      free : (i : ℕ) → r ≤ i → i < r + cnt → bit_at m.vap.bit_map.bytes i ≡ 0
      free i lo hi = ap (bit_at m.vap.bit_map.bytes) (omega arith) ∙ run.free (i - r) (omega arith)

  alloc_marked :
      (r : ℕ) (bm : BitMap)
      → IsFirstRun m.vap.bit_map cnt r
      → Marked m.vap.bit_map r cnt true bm
      → (res : ℕ × Pages) × (alloc_loop cnt pf_user
            (m.vap.start_addr + r * pg_size)
            cnt
            (marked m bm)
            (m.vap.start_addr + r * pg_size)
          ≡ some res)
        × Allocation m cnt res
  alloc_marked r bm run mk =
      let v = m.vap.start_addr + r * pg_size in
      let room = marked-Room r bm run in
      let (bm', clears, same) = clear_pages-marked r bm run mk in
      let at_start : v + 0 * pg_size ≡ v = omega arith in
      elim (alloc_loop-lem (marked m bm) v cnt room (record m.vap { bit_map = bm' }) clears cnt 0
        (omega arith) none_yet) [
          | inl (m', goes, all) ↦
              let kept = Mapped-Kept room.pool all in
              (
                (v, m'),
                (rw (at_start) at goes),
                allocated refl run (rw (kept.vap) mk)
                    (λ k lt.
                      let b = Mapped-Backed (marked m bm) v cnt room all (omega arith) k lt in
                      record {
                        index = b.index;
                        inside = b.inside;
                        was_free = b.was_free;
                        in_use = b.in_use;
                        entry = b.entry;
                      })
                    (λ j k jk lt.
                      Mapped-distinct (marked m bm) v cnt room all (omega arith) j k jk lt),
              )
          | inr (m1, m2, goes, ret, out) ↦ (
            (0, record m2 { vap = record m.vap { bit_map = bm' } }),
            (rw (at_start) at goes),
            no_frames out ret.bits same,
          )
        ]

-- From a state where the pages of the user's pool lie below the kernel, have page tables and are
-- mapped only when in use, `allocPage` of 1 to 3839 pages does not fault. If no run of free pages is
-- left, it returns NULL and changes nothing. If the frames run out, it returns NULL, and every bit of
-- the two maps is as before. Otherwise it returns the start of the first run of free pages, which is
-- marked; every page is mapped to a frame that was free and is now in use, and no two to the same.
pub alloc_page-Allocation :
    (m : Pages) (cnt : ℕ)
    → IsUser m
    → 0 < cnt
    → cnt < 3840
    → (res : ℕ × Pages) × (alloc_page m pf_user cnt ≡ some res) × Allocation m cnt res
unfolding alloc_page alloc_vir_addr
alloc_page-Allocation m cnt u pos few =
    let (res, scan, c) =
      bit_map_scan_and_set-Claimed m.vap.bit_map cnt true u.valid (inl u.behind) pos in
    by_claim res scan c
  where
    by_claim :
        (res : ℕ × BitMap)
        → bit_map_scan_and_set m.vap.bit_map cnt true ≡ some res
        → Claimed m.vap.bit_map cnt true res
        → (out : ℕ × Pages) × (alloc_page m pf_user cnt ≡ some out) × Allocation m cnt out
    by_claim res scan (claimed {r = r} {bm' = bm} run mk) =
        let (out, loops, a) = alloc_marked m u cnt pos r bm run mk in
        let v : u32 (m.vap.start_addr + r * pg_size) ≡ m.vap.start_addr + r * pg_size =
          omega (arith, u.low, run.fits) in
        (
          out,
          rw
              (
                lt→ltb 0 cnt pos,
                lt→ltb cnt 3840 few,
                scan,
                ==_false r minus_one (omega (arith, run.fits, u.valid.small)),
                v,
                lt→ltb (m.vap.start_addr + r * pg_size) (0xc0000000 - pg_size)
                    (omega (arith, u.low, run.fits)),
                ==_false (m.vap.start_addr + r * pg_size) 0 (omega (arith, u.positive)),
              )
              loops,
          a,
        )
    by_claim res scan (refused {r = r} {bm' = bm} e q no_run) =
        ((0, m), rw (lt→ltb 0 cnt pos, lt→ltb cnt 3840 few, scan, e, q) refl, no_pages no_run)

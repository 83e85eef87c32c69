-- ===== src/Kernel/Memory/Rollback.antt =====
-- kernel/memory.c: `allocPage` for a user, which maps all pages or gives everything back.
use gogoos.Common.{
  ℕ, suc, ◌+◌, ◌-◌, ◌*◌, ◌/◌, ◌^◌, ◌<◌, ◌≤◌, ◌≡◌, refl, sym, ap, ◌∙◌, true, false, some, arith,
  ==_false, ==_refl, u32,
}
use gogoos.Structure.BitMap.Valid.{bit_at, bit_at-updated}
use gogoos.Structure.BitMap.Scan.{IsFirstRun}
use gogoos.Kernel.Memory.{
  PhysicalAddrPool, Pages, pg_size, addr_v2p, get_pte_ptr, get_pde_ptr, is_present, entry_of,
  store_word, roll_back,
}
use gogoos.Kernel.Memory.Translate.{
  IsPool, frame, with_bit, with_bit-IsPool, addr_v2p-entry, unmap_page_table-lem, free_phy_addr-lem,
}
use gogoos.Kernel.Memory.Frames.{
  pte, pde, Room, map_next, Mapped, none_yet, one_more, Kept, Mapped-Kept, pte_injective, pde-pte,
  first-free,
}

-- the bits of two pools
abbrev pub SameBits : PhysicalAddrPool → PhysicalAddrPool → Type 0
SameBits p q = (i : ℕ) → bit_at p.bit_map.bytes i ≡ bit_at q.bit_map.bytes i

-- `m1` has the pool of `m`, and the entries and tables of the first `n` pages
pub record Follows (v n : ℕ) (m m1 : Pages) : Type 0 where
  pub pool : IsPool m1.user_pap
  pub start : m1.user_pap.start_addr ≡ m.user_pap.start_addr
  pub size : m1.user_pap.bit_map.size ≡ m.user_pap.bit_map.size
  pub bits : SameBits m1.user_pap m.user_pap
  pub entries : (k : ℕ) → k < n → m1.word (pte v k) ≡ m.word (pte v k)
  pub tables : (k : ℕ) → k < n → m1.word (pde v k) ≡ m.word (pde v k)

-- what is left when all pages are given back
pub record Returned (m0 m1 m2 : Pages) : Type 0 where
  pub start : m2.user_pap.start_addr ≡ m0.user_pap.start_addr
  pub size : m2.user_pap.bit_map.size ≡ m0.user_pap.bit_map.size
  pub bits : SameBits m2.user_pap m0.user_pap
  pub vap : m2.vap ≡ m1.vap

module _ (m0 : Pages) (v cnt : ℕ) (room : Room m0 v cnt) where
  -- page `n` given back
  back : Pages → (n f : ℕ) → Pages
  back m1 n f =
      store_word (record m1 { user_pap = with_bit m1.user_pap f false }) (pte v n)
        (m1.word (pte v n) / 2 * 2)

  back-Follows :
      (n : ℕ) (m m1 : Pages) (f : ℕ)
      → n < cnt
      → IsFirstRun m.user_pap.bit_map 1 f
      → IsPool m.user_pap
      → Follows v (suc n) (map_next m v n f) m1
      → Follows v n m (back m1 n f)
  unfolding back
  back-Follows n m m1 f lt run pool fo =
      let inside : f < m.user_pap.bit_map.size * 8 = omega (arith, run.fits) in
      let inside1 : f < m1.user_pap.bit_map.size * 8 = omega (arith, run.fits, fo.size) in
      record {
        pool = with_bit-IsPool m1.user_pap f false fo.pool;
        start = fo.start;
        size = fo.size;
        bits = λ i. ground (
          arith,
          bit_at-updated m1.user_pap.bit_map f false i fo.pool.valid inside1,
          fo.bits i,
          bit_at-updated m.user_pap.bit_map f true i pool.valid inside,
          freed m f run i,
        );
        entries = λ k kn.
            let other =
              ==_false (pte v k) (pte v n)
                (pte_injective m0 v cnt room k n (omega arith) lt (omega arith)) in
            rw (other) (fo.entries k (omega arith) ∙ rw (other) refl);
        tables = λ k kn.
            let other = ==_false (pde v k) (pte v n) (pde-pte m0 v cnt room k n (omega arith) lt) in
            rw (other) (fo.tables k (omega arith) ∙ rw (other) refl);
      }
    where
      freed :
          (m : Pages) (f : ℕ)
          → IsFirstRun m.user_pap.bit_map 1 f
          → (i : ℕ) → f ≡ i
          → bit_at m.user_pap.bit_map.bytes i ≡ 0
      freed m f run i e =
          ap (bit_at m.user_pap.bit_map.bytes) (sym e) ∙ first-free m.user_pap.bit_map f run

  -- One round of the loop.
  roll_back-back :
      (n : ℕ) (m m1 : Pages) (f : ℕ)
      → n < cnt
      → f < m.user_pap.bit_map.size * 8
      → Kept m0 v n m
      → Follows v (suc n) (map_next m v n f) m1
      → roll_back (suc n) m1 (u32 (v + suc n * pg_size + 2 ^ 32 - pg_size))
        ≡ roll_back n (back m1 n f) (u32 (v + n * pg_size + 2 ^ 32 - pg_size))
  unfolding roll_back back
  roll_back-back n m m1 f lt in_map kept fo =
      let a = v + n * pg_size in
      let here : u32 (v + suc n * pg_size + 2 ^ 32 - pg_size) ≡ a = omega (arith, room.low) in
      let apart = ==_false (pde v n) (pte v n) (pde-pte m0 v cnt room n n lt lt) in
      let table : is_present (m1.word (get_pde_ptr a)) ≡ true =
        ap is_present (
          fo.tables n (omega arith)
          ∙ rw (apart) refl
          ∙ kept.word (pde v n) (λ k kn. pde-pte m0 v cnt room n k lt (omega arith)))
        ∙ room.tables n lt in
      let entry : m1.word (get_pte_ptr a) ≡ entry_of (frame m1.user_pap f) =
        fo.entries n (omega arith) ∙ rw (==_refl (pte v n), fo.start) refl in
      let found : addr_v2p m1 a ≡ some (frame m1.user_pap f) =
        addr_v2p-entry m1 a (omega (arith, room.low)) (frame m1.user_pap f) table entry
          (omega (arith, fo.pool.aligned))
        ∙ ap some (omega (arith, room.aligned)) in
      rw
        (
          here,
          found,
          free_phy_addr-lem m1 f fo.pool (omega (arith, fo.size)),
          unmap_page_table-lem (record m1 { user_pap = with_bit m1.user_pap f false }) a
              (omega (arith, room.low)) table,
        )
        refl

  -- The pages that are mapped are given back.
  pub roll_back-Returned :
      {n : ℕ} {m : Pages} (m1 : Pages)
      → Mapped m0 v n m
      → n ≤ cnt
      → Follows v n m m1
      → (m2 : Pages) × (roll_back n m1 (u32 (v + n * pg_size + 2 ^ 32 - pg_size))
          ≡ some (v - pg_size, m2))
        × Returned m0 m1 m2
  unfolding roll_back back
  roll_back-Returned m1 none_yet le fo =
      let end : u32 (v + 0 * pg_size + 2 ^ 32 - pg_size) ≡ v - pg_size =
        omega (arith, room.aligned, room.positive, room.low) in
      (m1, rw (end) refl, record { start = fo.start; size = fo.size; bits = fo.bits; vap = refl })
  roll_back-Returned m1 (one_more {n = n} {m = m} f r run) le fo =
      let kept = Mapped-Kept room.pool r in
      let in_map : f < m.user_pap.bit_map.size * 8 = omega (arith, run.fits) in
      let (m2, rest, ret) =
        roll_back-Returned (back m1 n f) r (omega arith)
          (back-Follows n m m1 f (omega arith) run kept.pool fo) in
      (
        m2,
        roll_back-back n m m1 f (omega arith) in_map kept fo ∙ rest,
        record { start = ret.start; size = ret.size; bits = ret.bits; vap = ret.vap },
      )

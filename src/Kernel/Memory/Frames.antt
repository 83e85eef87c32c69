-- ===== src/Kernel/Memory/Frames.antt =====
-- kernel/memory.c: the pages that the loop of `allocPage` has mapped, one after the other.
use gogoos.Common.{
  ℕ, suc, ◌+◌, ◌*◌, ◌%◌, ◌<◌, ◌≤◌, ◌≡◌, ◌≢◌, refl, ap, ◌∙◌, true, false, arith, ◌==◌, ==_false,
  ==_refl, ℕ_discrete,
}
use gogoos.Structure.BitMap.{BitMap}
use gogoos.Structure.BitMap.Valid.{bit_at, updated, bit_at-updated}
use gogoos.Structure.BitMap.Scan.{IsFirstRun}
use gogoos.Kernel.Memory.{
  Pages, pg_size, get_pte_ptr, get_pde_ptr, is_present, entry_of, store_word,
}
use gogoos.Kernel.Memory.Translate.{IsPool, frame, with_bit, with_bit-IsPool}

-- the entry of page `k` behind `v`
abbrev pub pte : ℕ → ℕ → ℕ
pte v k = get_pte_ptr (v + k * pg_size)

abbrev pub pde : ℕ → ℕ → ℕ
pde v k = get_pde_ptr (v + k * pg_size)

-- `cnt` pages from `v` on, below the kernel, whose tables are there and whose entries are not
pub record Room (m : Pages) (v cnt : ℕ) : Type 0 where
  pub pool : IsPool m.user_pap
  pub aligned : v % pg_size ≡ 0
  pub positive : 0 < v
  pub low : v + cnt * pg_size ≤ 0xc0000000
  pub tables : (k : ℕ) → k < cnt → is_present (m.word (pde v k)) ≡ true
  pub unmapped : (k : ℕ) → k < cnt → is_present (m.word (pte v k)) ≡ false

-- page `n` is mapped to frame `f`
abbrev pub map_next : Pages → (v n f : ℕ) → Pages
map_next m v n f =
    store_word (record m { user_pap = with_bit m.user_pap f true }) (pte v n)
      (entry_of (frame m.user_pap f))

-- `n` rounds of the loop, from `m0` to `m`
pub data Mapped (m0 : Pages) (v : ℕ) : ℕ → Pages → Type 0 where
  none_yet : Mapped m0 v 0 m0
  one_more :
      {n : ℕ} {m : Pages} (f : ℕ)
      → Mapped m0 v n m
      → IsFirstRun m.user_pap.bit_map 1 f
      → Mapped m0 v (suc n) (map_next m v n f)

-- what the rounds leave
pub record Kept (m0 : Pages) (v n : ℕ) (m : Pages) : Type 0 where
  pub pool : IsPool m.user_pap
  pub start : m.user_pap.start_addr ≡ m0.user_pap.start_addr
  pub size : m.user_pap.bit_map.size ≡ m0.user_pap.bit_map.size
  pub grows :
      (i : ℕ) → bit_at m.user_pap.bit_map.bytes i ≡ 0 → bit_at m0.user_pap.bit_map.bytes i ≡ 0
  pub word : (p : ℕ) → ((k : ℕ) → k < n → p ≢ pte v k) → m.word p ≡ m0.word p
  pub vap : m.vap ≡ m0.vap

pub first-free : (bm : BitMap) (f : ℕ) → IsFirstRun bm 1 f → bit_at bm.bytes f ≡ 0
first-free bm f run = ap (bit_at bm.bytes) (omega arith) ∙ run.free 0 (omega arith)

pub Mapped-Kept :
    {m0 : Pages} {v n : ℕ} {m : Pages} → IsPool m0.user_pap → Mapped m0 v n m → Kept m0 v n m
Mapped-Kept h none_yet = record {
  pool = h;
  start = refl;
  size = refl;
  grows = λ i z. z;
  word = λ p ne. refl;
  vap = refl;
}
Mapped-Kept {v = v} h (one_more {n = n} {m = m} f r run) =
    let k = Mapped-Kept h r in
    let lt : f < m.user_pap.bit_map.size * 8 = omega (arith, run.fits) in
    record {
      pool = with_bit-IsPool m.user_pap f true k.pool;
      start = k.start;
      size = k.size;
      grows = λ i z. k.grows i (unset m f lt k.pool i z);
      word = λ p ne.
          rw (==_false p (pte v n) (ne n (omega arith))) (k.word p (λ j lt. ne j (omega arith)));
      vap = k.vap;
    }
  where
    unset :
        (m : Pages) (f : ℕ)
        → f < m.user_pap.bit_map.size * 8
        → IsPool m.user_pap
        → (i : ℕ) → bit_at (updated m.user_pap.bit_map f true).bytes i ≡ 0
        → bit_at m.user_pap.bit_map.bytes i ≡ 0
    unset m f lt p i z = ground (arith, z, bit_at-updated m.user_pap.bit_map f true i p.valid lt)

-- Page `k` is mapped to a frame that was free before and is in use.
pub record Backed (m0 m : Pages) (a : ℕ) : Type 0 where
  pub index : ℕ
  pub inside : index < m.user_pap.bit_map.size * 8
  pub was_free : bit_at m0.user_pap.bit_map.bytes index ≡ 0
  pub in_use : bit_at m.user_pap.bit_map.bytes index ≡ 1
  pub entry : m.word (get_pte_ptr a) ≡ entry_of (frame m0.user_pap index)

module _ (m0 : Pages) (v cnt : ℕ) (room : Room m0 v cnt) where
  -- the entries of two pages, and a directory entry, are different words
  pub pte_injective : (j k : ℕ) → j < cnt → k < cnt → j ≢ k → pte v j ≢ pte v k
  pte_injective j k hj hk ne e = ne (omega (arith, e, room.aligned, room.low))

  pub pde-pte : (j k : ℕ) → j < cnt → k < cnt → pde v j ≢ pte v k
  pde-pte j k hj hk e = omega (arith, e, room.aligned, room.low)

  pub Mapped-Backed :
      {n : ℕ} {m : Pages}
      → Mapped m0 v n m
      → n ≤ cnt
      → (k : ℕ) → k < n
      → Backed m0 m (v + k * pg_size)
  Mapped-Backed none_yet le k lt = absurd (omega arith)
  Mapped-Backed (one_more {n = n} {m = m} f r run) le k lt =
      let kept = Mapped-Kept room.pool r in
      let inside : f < m.user_pap.bit_map.size * 8 = omega (arith, run.fits) in
      elim (ℕ_discrete k n) [
        | yes e ↦ record {
          index = f;
          inside = inside;
          was_free = kept.grows f (first-free m.user_pap.bit_map f run);
          in_use =
              ground (arith, bit_at-updated m.user_pap.bit_map f true f kept.pool.valid inside);
          entry = rw (e, ==_refl (pte v n), kept.start) refl;
        }
        | no ne ↦
            let b = Mapped-Backed r (omega arith) k (omega arith) in
            record {
              index = b.index;
              inside = b.inside;
              was_free = b.was_free;
              in_use = ground (
                arith,
                b.in_use,
                bit_at-updated m.user_pap.bit_map f true b.index kept.pool.valid inside,
              );
              entry =
                  rw
                    (==_false (pte v k) (pte v n)
                      (pte_injective k n (omega arith) (omega arith) ne))
                    b.entry;
            }
      ]

  -- No two of the pages share a frame.
  pub Mapped-distinct :
      {n : ℕ} {m : Pages}
      → Mapped m0 v n m
      → n ≤ cnt
      → (j k : ℕ) → j < k
      → k < n
      → m.word (pte v j) ≢ m.word (pte v k)
  Mapped-distinct none_yet le j k jk kn = absurd (omega arith)
  Mapped-distinct (one_more {n = n} {m = m} f r run) le j k jk kn =
      let apart : (i : ℕ) → i < n → (pte v i == pte v n) ≡ false = λ i lt.
        ==_false (pte v i) (pte v n)
          (pte_injective i n (omega arith) (omega arith) (omega arith)) in
      elim (ℕ_discrete k n) [
        | yes e ↦
            let kept = Mapped-Kept room.pool r in
            let b = Mapped-Backed r (omega arith) j (omega arith) in
            let free = first-free m.user_pap.bit_map f run in
            rw (e, ==_refl (pte v n), apart j (omega arith), b.entry, kept.start)
              (λ same. clash m b.index f b.in_use free (omega (arith, same, room.pool.aligned)))
        | no ne ↦
            rw (apart j (omega arith), apart k (omega arith))
              (Mapped-distinct r (omega arith) j k jk (omega arith))
      ]
    where
      clash :
          (m : Pages) (i f : ℕ)
          → bit_at m.user_pap.bit_map.bytes i ≡ 1
          → bit_at m.user_pap.bit_map.bytes f ≡ 0
          → i ≡ f
          → ⊥
      clash m i f used free e = omega (arith, used, free, ap (bit_at m.user_pap.bit_map.bytes) e)

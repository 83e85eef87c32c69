-- ===== src/Structure/BitMap/Claim.antt =====
-- `bitMapScanAndSet`: what it claims, and that nothing else changes.
use gogoos.Common.{
  ℕ, zero, suc, ◌+◌, ◌*◌, ◌<◌, ◌≤◌, ◌≡◌, inl, inr, refl, Bool, ◌&&◌, some, arith, ltb, leb, ◌==◌,
  if◌then◌else◌, u32, minus_one, ==_iff, ==_false,
}
use gogoos.Structure.BitMap.{BitMap, bit_map_test, bit_map_set, set_run, bit_map_scan_and_set}
use gogoos.Structure.BitMap.Valid.{
  bit_at, IsValid, bit_of, updated, updated-IsValid, bit_at-updated, bit_map_set_lem,
  bit_map_test_lem,
}
use gogoos.Structure.BitMap.FirstZero.{Readable}
use gogoos.Structure.BitMap.Scan.{IsFirstRun, NoRun, bit_map_scan-Scanned}

-- A bit that `bitMapSet` writes inside a well-formed map reads back as the value, every other bit
-- of the map tests as before, and the map stays well formed.
pub bit_map_test-bit_map_set :
    (bm : BitMap) (i : ℕ) (val : Bool)
    → IsValid bm
    → i < bm.size * 8
    → (bm' : BitMap) × (bit_map_set bm i val ≡ some bm')
      × IsValid bm'
      × ((j : ℕ) → bit_map_test bm' j ≡ (if i == j then some (bit_of val) else bit_map_test bm j))
bit_map_test-bit_map_set bm i val v h = (
  updated bm i val,
  bit_map_set_lem bm i val v h,
  updated-IsValid bm i val v,
  λ j. ground (
    arith,
    bit_map_test_lem (updated bm i val) j (updated-IsValid bm i val v),
    bit_map_test_lem bm j v,
    bit_at-updated bm i val j v h,
  ),
)

-- in bits `s`, ..., `s + cnt - 1`
abbrev pub within : ℕ → ℕ → ℕ → Bool
within s cnt j = leb s j && ltb j (s + cnt)

-- `bm'` is `bm` with the bits of the run set to `val`.
pub record Marked (bm : BitMap) (s cnt : ℕ) (val : Bool) (bm' : BitMap) : Type 0 where
  pub valid : IsValid bm'
  pub size : bm'.size ≡ bm.size
  pub bits :
      (j : ℕ) → bit_at bm'.bytes j ≡ (if within s cnt j then bit_of val else bit_at bm.bytes j)

pub set_run-Marked :
    (cnt : ℕ) (bm : BitMap) (s : ℕ) (val : Bool)
    → IsValid bm
    → s + cnt ≤ bm.size * 8
    → (bm' : BitMap) × (set_run cnt bm s val ≡ some bm') × Marked bm s cnt val bm'
unfolding set_run
set_run-Marked zero bm s val v h =
    (bm, refl, record { valid = v; size = refl; bits = λ j. ground arith })
set_run-Marked (suc cnt) bm s val v h =
    let (bm', run, m) =
      set_run-Marked cnt (updated bm s val) (suc s) val (updated-IsValid bm s val v)
        (omega arith) in
    let next : u32 (s + 1) ≡ suc s = omega (arith, v.small) in
    (
      bm',
      rw (bit_map_set_lem bm s val v (omega arith), next) run,
      record {
        valid = m.valid;
        size = m.size;
        bits = λ j. ground (arith, m.bits j, bit_at-updated bm s val j v (omega arith));
      },
    )

-- what `bitMapScanAndSet` may do
pub data Claimed (bm : BitMap) (cnt : ℕ) (val : Bool) : ℕ × BitMap → Type 0 where
  claimed :
      {r : ℕ} {bm' : BitMap}
      → IsFirstRun bm cnt r
      → Marked bm r cnt val bm'
      → Claimed bm cnt val (r, bm')
  refused :
      {r : ℕ} {bm' : BitMap} → r ≡ minus_one → bm' ≡ bm → NoRun bm cnt → Claimed bm cnt val (r, bm')

-- On a well-formed map where the first loop can end inside the memory, and for a positive `cnt`,
-- `bitMapScanAndSet` marks the first run of `cnt` free bits and returns where it starts, with
-- every other bit as before; or it returns -1 and leaves the map, and no such run lies in it.
pub bit_map_scan_and_set-Claimed :
    (bm : BitMap) (cnt : ℕ) (val : Bool)
    → IsValid bm
    → Readable bm.bytes bm.size
    → 0 < cnt
    → (res : ℕ × BitMap) × (bit_map_scan_and_set bm cnt val ≡ some res) × Claimed bm cnt val res
unfolding bit_map_scan_and_set
bit_map_scan_and_set-Claimed bm cnt val v ends pos =
    let (r, scan, s) = bit_map_scan-Scanned bm cnt v ends pos in
    elim s [
      | inl run ↦
          let (bm', marks, m) = set_run-Marked cnt bm r val v run.fits in
          (
            (r, bm'),
            rw (scan, ==_false r minus_one (omega (arith, run.fits, v.small)), marks),
            claimed run m,
          )
      | inr (e, no_run) ↦
          ((minus_one, bm), rw (scan, (==_iff r minus_one).1 e), refused refl refl no_run)
    ]

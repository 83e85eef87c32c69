-- ===== src/Kernel/Pid/Numbers.antt =====
-- Allocating a process number and giving it back.
use gogoos.Common.{
  ℕ, suc, ◌+◌, ◌-◌, ◌*◌, ◌^◌, ◌<◌, ◌≡◌, refl, ap, ◌∙◌, true, false, some, arith, u32,
}
use gogoos.Structure.BitMap.{BitMap, bit_map_scan_and_set}
use gogoos.Structure.BitMap.Valid.{IsValid, bit_at, updated, bit_map_set_lem, bit_at-updated}
use gogoos.Structure.BitMap.FirstZero.{Readable}
use gogoos.Structure.BitMap.Claim.{Claimed, claimed, refused, bit_map_scan_and_set-Claimed}
use gogoos.Kernel.Pid.{PidPool, allocate_pid, release_pid}

-- the number was free, it is in use between, and the pool is as before in the end
pub record RoundTrip (p : PidPool) (pid : ℕ) (p' p'' : PidPool) : Type 0 where
  pub allocates : allocate_pid p ≡ some (pid, p')
  pub releases : release_pid p' pid ≡ some p''
  pub bit_idx : ℕ
  pub number : pid ≡ suc bit_idx
  pub was_free : bit_at p.pid_bit_map.bytes bit_idx ≡ 0
  pub in_use : bit_at p'.pid_bit_map.bytes bit_idx ≡ 1
  pub restored : (j : ℕ) → bit_at p''.pid_bit_map.bytes j ≡ bit_at p.pid_bit_map.bytes j

Claimed-RoundTrip :
    (bm : BitMap) (i : ℕ) {res : ℕ × BitMap}
    → IsValid bm
    → i < bm.size * 8
    → bit_at bm.bytes i ≡ 0
    → bit_map_scan_and_set bm 1 true ≡ some res
    → Claimed bm 1 true res
    → (pid : ℕ) × (p' : PidPool) × (p'' : PidPool) × RoundTrip
        (record { pid_bit_map = bm; pid_start = 1 })
        pid
        p'
        p''
unfolding allocate_pid release_pid
Claimed-RoundTrip bm i v lt free scan (claimed {r = r} {bm' = bm'} run m) =
    let number : u32 (r + 1) ≡ suc r = omega (arith, run.fits, v.small) in
    let back : u32 (suc r + 2 ^ 32 - 1) ≡ r = omega (arith, run.fits, v.small) in
    let inside : r < bm'.size * 8 = omega (arith, run.fits, m.size) in
    let was : bit_at bm.bytes r ≡ 0 =
      ap (bit_at bm.bytes) (omega arith) ∙ run.free 0 (omega arith) in
    (
      suc r,
      record { pid_bit_map = bm'; pid_start = 1 },
      record { pid_bit_map = updated bm' r false; pid_start = 1 },
      record {
        allocates = rw (scan, number) refl;
        releases = rw (back, bit_map_set_lem bm' r false m.valid inside) refl;
        bit_idx = r;
        number = refl;
        was_free = was;
        in_use = ground (arith, m.bits r);
        restored = λ j.
            ground (arith, bit_at-updated bm' r false j m.valid inside, m.bits j, moved bm was j);
      },
    )
  where
    moved : (bm : BitMap) {r : ℕ} → bit_at bm.bytes r ≡ 0 → (j : ℕ) → j ≡ r → bit_at bm.bytes j ≡ 0
    moved bm was j e = ap (bit_at bm.bytes) e ∙ was
Claimed-RoundTrip bm i v lt free scan (refused e q no_run) =
    absurd (no_run i (omega arith) (λ k h. ap (bit_at bm.bytes) (omega arith) ∙ free))

-- In a pool that counts from 1, on a well-formed map where the first loop of the search can end
-- inside the memory and a bit is free, `allocatePid` returns a positive number whose bit was free
-- and is then in use, and `releasePid` of it gives back a pool whose bits are as before.
pub allocate_pid-RoundTrip :
    (bm : BitMap) (i : ℕ)
    → IsValid bm
    → Readable bm.bytes bm.size
    → i < bm.size * 8
    → bit_at bm.bytes i ≡ 0
    → (pid : ℕ) × (p' : PidPool) × (p'' : PidPool) × RoundTrip
        (record { pid_bit_map = bm; pid_start = 1 })
        pid
        p'
        p''
allocate_pid-RoundTrip bm i v ends lt free =
    let (res, run, c) = bit_map_scan_and_set-Claimed bm 1 true v ends (omega arith) in
    Claimed-RoundTrip bm i v lt free run c

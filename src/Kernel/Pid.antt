-- ===== src/Kernel/Pid.antt =====
-- kernel/thread/thread.c, the pool of process numbers. The lock around the two operations is left
-- out.
pub mod Numbers
mod Tests
use gogoos.Common.{ℕ, ◌+◌, ◌-◌, ◌^◌, true, false, Option, some, ◌>>=◌, u32}
use gogoos.Structure.BitMap.{BitMap, bit_map_set, bit_map_scan_and_set}

pub record PidPool : Type 0 where
  pub pid_bit_map : BitMap
  pub pid_start : ℕ

-- `allocatePid` returns the number and the pool that it leaves.
pub allocate_pid : PidPool → Option (ℕ × PidPool)
allocate_pid pool = do
  (bit_idx, bm) ← bit_map_scan_and_set pool.pid_bit_map 1 true
  some (u32 (bit_idx + pool.pid_start), record pool { pid_bit_map = bm })

-- `releasePid`
pub release_pid : PidPool → (pid : ℕ) → Option PidPool
release_pid pool pid = do
  bm ← bit_map_set pool.pid_bit_map (u32 (pid + 2 ^ 32 - pool.pid_start)) false
  some (record pool { pid_bit_map = bm })

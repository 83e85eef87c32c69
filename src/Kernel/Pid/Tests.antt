-- ===== src/Kernel/Pid/Tests.antt =====
-- A pool of sixteen process numbers, the first nine in use, and a byte behind it.
use gogoos.Common.{ℕ, refl, [], ◌∷◌, inl, arith}
use gogoos.Structure.BitMap.{BitMap}
use gogoos.Kernel.Pid.{PidPool}
use gogoos.Kernel.Pid.Numbers.{RoundTrip, allocate_pid-RoundTrip}

abbrev nine_used : BitMap
nine_used = record { size = 2; bytes = 0xff ∷ 1 ∷ 0 ∷ [] }

allocate_pid-RoundTrip_example :
    (pid : ℕ) × (p' : PidPool) × (p'' : PidPool) × RoundTrip
      (record { pid_bit_map = nine_used; pid_start = 1 })
      pid
      p'
      p''
allocate_pid-RoundTrip_example =
    allocate_pid-RoundTrip nine_used 9 (omega arith) (inl (omega arith)) (omega arith) refl

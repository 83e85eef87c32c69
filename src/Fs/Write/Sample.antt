-- ===== src/Fs/Write/Sample.antt =====
-- A small file on a small partition.
use gogoos.Common.{
  ℕ, zero, suc, ◌+◌, ◌<◌, ◌≤◌, ◌≡◌, refl, true, ◌∷◌, get_or, get_or-zeros, ◌-◌, replicate, zeros,
  arith,
}
use gogoos.Structure.BitMap.Valid.{bit_at, zeros-AllBytes}
use gogoos.Fs.{Disk, Inode, max_lba}
use gogoos.Fs.BitMaps.{Partition}
use gogoos.Fs.Write.Space.{HasRoom, IsLayout}
use gogoos.Fs.Write.Blocks.{HasDirect}
use gogoos.Fs.Write.Found.{IsHome}

-- the blocks 0 and 1 are in use
abbrev pub part : Partition
part = record {
  block_bit_map = record { size = 512; bytes = 3 ∷ zeros 511 };
  inode_bit_map = record { size = 512; bytes = zeros 512 };
  block_bit_map_lba_start = 100;
  inode_bit_map_lba_start = 110;
  inode_table_lba_start = 112;
  data_lba_start = 800;
  lba_start = 99;
  sec_cnt = 5000;
}

abbrev pub nines : Disk
nines = λ s. replicate 512 9

abbrev pub short : Inode
short = record { ino = 6; size = 510; open_cnt = 1; write_deny = true; block = 801 ∷ zeros 12 }

pub short-IsHome : IsHome nines part short
short-IsHome = record {
  inode_table = record { whole = λ s. refl; low = omega arith };
  writable = record {
    numbered = omega arith;
    sized = omega arith;
    thirteen = refl;
    words_lt = (
      omega arith,
      (
        omega arith,
        (
          omega arith,
          (
            omega arith,
            (
              omega arith,
              (
                omega arith,
                (
                  omega arith,
                  (
                    omega arith,
                    (omega arith, (omega arith, (omega arith, (omega arith, (omega arith, tt))))),
                  ),
                ),
              ),
            ),
          ),
        ),
      ),
    );
  };
  inside = omega arith;
}

pub part-IsLayout : IsLayout part
part-IsLayout = record { map_first = omega arith; data_last = omega arith; on_disk = omega arith }

pub short-HasDirect : HasDirect 800 part.block_bit_map short.block 1
short-HasDirect = record {
  thirteen = refl;
  words_lt = short-IsHome.writable.words_lt;
  used = used;
  distinct = λ i j hi hj e. omega arith;
  empty = empty;
}
  where
    used :
        (i : ℕ)
        → i < 1
        → (800 ≤ get_or short.block i 0)
          × (get_or short.block i 0 < max_lba)
          × (bit_at part.block_bit_map.bytes (get_or short.block i 0 - 800) ≡ 1)
    used zero h = (omega arith, omega arith, refl)
    used (suc i) h = absurd (omega arith)

    empty : (i : ℕ) → 1 ≤ i → i < 12 → get_or short.block i 0 ≡ 0
    empty zero lo hi = absurd (omega arith)
    empty (suc i) lo hi = get_or-zeros 12 i

pub part-HasRoom : HasRoom part.block_bit_map 1
part-HasRoom = record {
  valid = record {
    inside = omega arith;
    small = omega arith;
    bytes_lt = (omega arith, zeros-AllBytes 511);
  };
  long = omega arith;
  root = refl;
  spare = λ j. j + 2;
  ordered = λ i j lt le. omega arith;
  low = λ j lt. omega arith;
  clear = clear;
}
  where
    clear : (j : ℕ) → j < 1 → bit_at part.block_bit_map.bytes (j + 2) ≡ 0
    clear zero lt = refl
    clear (suc j) lt = absurd (omega arith)

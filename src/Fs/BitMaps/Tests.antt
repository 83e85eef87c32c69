-- ===== src/Fs/BitMaps/Tests.antt =====
-- fs/file.c: the bit maps of a partition of a few sectors.
use gogoos.Common.{◌<◌, ◌≤◌, ◌≡◌, ◌≢◌, ℕ, drop, some, [], replicate, take, arith}
use gogoos.Fs.{Disk}
use gogoos.Fs.BitMaps.{block_bitmap, Partition, bit_map_sync}
use gogoos.Fs.BitMaps.Sync.{bit_map_sync-sector}

-- nine sectors of map from sector 100 on
abbrev nine : Partition
nine = record {
  block_bit_map = record { size = 4608; bytes = replicate 4608 255 };
  inode_bit_map = record { size = 512; bytes = replicate 512 255 };
  block_bit_map_lba_start = 100;
  inode_bit_map_lba_start = 110;
  inode_table_lba_start = 112;
  data_lba_start = 200;
  lba_start = 99;
  sec_cnt = 5000;
}

abbrev blank : Disk
blank = λ s. []

bit_map_sync-sector_example :
    (disk' : Disk) × (bit_map_sync blank nine 600 block_bitmap ≡ some disk')
    × (disk' 108 ≡ take 512 (drop 4096 (replicate 4608 255)))
    × ((s : ℕ) → s ≢ 108 → disk' s ≡ [])
    × (600 < 512 → (◌≡◌ {A = ℕ} 100 108) × (disk' 100 ≡ take 512 (replicate 4608 255)))
    × (512 ≤ 600 → (◌≢◌ {A = ℕ} 100 108) × (disk' 100 ≡ []))
bit_map_sync-sector_example =
    bit_map_sync-sector blank nine 600 block_bitmap (omega arith) (omega arith)

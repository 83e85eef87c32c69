-- ===== src/Fs/InodeSync/Tests.antt =====
-- fs/inode.c: inode 6, which lies across the border of two sectors.
use gogoos.Common.{
  ℕ, ◌+◌, ◌<◌, ◌≤◌, ◌≡◌, ◌≢◌, refl, true, false, some, [], ◌∷◌, length, replicate, arith,
}
use gogoos.Fs.{Disk, Inode}
use gogoos.Fs.BitMaps.{Partition}
use gogoos.Fs.InodeSync.{inode_sync}
use gogoos.Fs.InodeSync.RoundTrip.{stored, inode_sync-stored}

abbrev part : Partition
part = record {
  block_bit_map = record { size = 512; bytes = replicate 512 0 };
  inode_bit_map = record { size = 512; bytes = replicate 512 0 };
  block_bit_map_lba_start = 100;
  inode_bit_map_lba_start = 110;
  inode_table_lba_start = 112;
  data_lba_start = 800;
  lba_start = 99;
  sec_cnt = 5000;
}

abbrev blank : Disk
blank = λ s. replicate 512 0

abbrev six : Inode
six = record {
  ino = 6;
  size = 1000;
  open_cnt = 3;
  write_deny = true;
  block = 900 ∷ 70000 ∷ 0 ∷ 0 ∷ 0 ∷ 0 ∷ 0 ∷ 0 ∷ 0 ∷ 0 ∷ 0 ∷ 0 ∷ 0 ∷ [];
}

inode_sync-stored_example :
    (disk' : Disk) × (inode_sync blank part six ≡ some disk')
    × (stored disk' 112 6 ≡ some (record six { open_cnt = 0; write_deny = false }))
    × ((other : ℕ) → other ≢ 6 → stored disk' 112 other ≡ stored blank 112 other)
    × ((s : ℕ) → length (disk' s) ≡ 512)
    × ((s : ℕ) → s < 112 → disk' s ≡ blank s)
    × ((s : ℕ) → 112 + 610 ≤ s → disk' s ≡ blank s)
inode_sync-stored_example =
    inode_sync-stored blank part six (record { whole = λ s. refl; low = omega arith })
      (record {
        numbered = omega arith;
        sized = omega arith;
        thirteen = refl;
        words_lt = (
          omega arith,
          (
            omega arith,
            (
              omega arith,
              (
                omega arith,
                (
                  omega arith,
                  (
                    omega arith,
                    (
                      omega arith,
                      (
                        omega arith,
                        (
                          omega arith,
                          (omega arith, (omega arith, (omega arith, (omega arith, tt)))),
                        ),
                      ),
                    ),
                  ),
                ),
              ),
            ),
          ),
        );
      })
      (omega arith)

-- ===== src/Fs/Read/Tests.antt =====
-- A read across two blocks of a small file.
use gogoos.Common.{
  ℕ, zero, suc, ◌*◌, ◌<◌, ◌≡◌, refl, true, false, some, [], ◌∷◌, arith, length, replicate, ◌==◌,
  if◌then◌else◌,
}
use gogoos.Fs.{Disk, Inode, max_lba, ide_read}
use gogoos.Fs.Read.{
  ReadResult, file_read, read_bytes, collect_blocks, cleared, copy_blocks, read_loop,
}
use gogoos.Fs.Read.Blocks.{block_lba}
use gogoos.Fs.Read.Result.{IsFile, Reads, file_read-Reads}
use gogoos.Common.Int.{pos}

-- sector 401 holds sevens, every other one nines
abbrev disk : Disk
disk = λ lba. if lba == 401 then replicate 512 7 else replicate 512 9

-- 600 bytes in the sectors 400 and 401
abbrev small_file : Inode
small_file = record {
  ino = 5;
  size = 600;
  open_cnt = 1;
  write_deny = false;
  block = 400 ∷ 401 ∷ 0 ∷ 0 ∷ 0 ∷ 0 ∷ 0 ∷ 0 ∷ 0 ∷ 0 ∷ 0 ∷ 0 ∷ 0 ∷ [];
}

small_file-IsFile : IsFile disk small_file
small_file-IsFile = record {
  blocks = record { thirteen = refl; few = omega arith; table = λ h. absurd (omega arith) };
  sectors = sectors;
}
  where
    sectors :
        (i : ℕ)
        → i * 512 < 600
        → (block_lba disk small_file.block i < max_lba)
          × (length (disk (block_lba disk small_file.block i)) ≡ 512)
    sectors zero h = (omega arith, refl)
    sectors (suc zero) h = (omega arith, refl)
    sectors (suc (suc i)) h = absurd (omega arith)

-- three bytes asked for at the end of the first block
across :
    file_read disk small_file true 510 3
    ≡ some (record { returned = pos 3; bytes = 9 ∷ 9 ∷ 7 ∷ []; fd_pos = 513 })
unfolding file_read read_bytes collect_blocks cleared copy_blocks read_loop ide_read
across = refl

file_read-Reads_example :
    (r : ReadResult) × (file_read disk small_file true 510 200 ≡ some r)
    × Reads disk small_file true 510 200 r
file_read-Reads_example =
    file_read-Reads disk small_file true 510 200 small_file-IsFile (omega arith) (omega arith)

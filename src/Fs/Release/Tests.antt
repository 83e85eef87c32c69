-- ===== src/Fs/Release/Tests.antt =====
-- fs/inode.c: an inode that is open, with a direct block and a table.
use gogoos.Common.{
  true, ℕ, zero, suc, ◌<◌, ◌≡◌, refl, ◌∙◌, ℕ_discrete, get_or-append_left, false, some, [], ◌∷◌,
  ◌++◌, get_or, get_or-zeros, zeros, arith,
}
use gogoos.Structure.BitMap.Valid.{zeros-AllBytes}
use gogoos.Fs.{Disk, Inode}
use gogoos.Fs.BitMaps.{Partition}
use gogoos.Fs.OpenFiles.{Files, find_inode, inode_open, inode_close, reopened}
use gogoos.Fs.Release.{inode_release}
use gogoos.Fs.Release.Cleared.{IsOurs}
use gogoos.Fs.Release.Freed.{IsReleasable, IsReleased, inode_release-IsReleased}

-- the first eight bits are set
abbrev part : Partition
part = record {
  block_bit_map = record { size = 512; bytes = 255 ∷ zeros 511 };
  inode_bit_map = record { size = 512; bytes = 255 ∷ zeros 511 };
  block_bit_map_lba_start = 100;
  inode_bit_map_lba_start = 110;
  inode_table_lba_start = 112;
  data_lba_start = 800;
  lba_start = 99;
  sec_cnt = 5000;
}

abbrev blank : Disk
blank = λ s. zeros 512

abbrev tabled : Inode
tabled = record {
  ino = 6;
  size = 1000;
  open_cnt = 0;
  write_deny = false;
  block = 801 ∷ (zeros 11 ++ (803 ∷ []));
}

-- it lies at 9
abbrev files : Files
files = record { inodes = λ p. tabled; open_inodes = 9 ∷ []; file_table = []; fd_table = [] }

opened : inode_open blank 112 77 files 6 ≡ some (9, reopened files 9)
unfolding inode_open find_inode
opened = refl

tabled-IsReleasable : IsReleasable blank part ((reopened files 9).inodes 9)
tabled-IsReleasable = record {
  thirteen = refl;
  table = λ ne. (omega arith, refl);
  ours = ours;
  numbered = omega arith;
  block_map = record {
    valid = record {
      inside = omega arith;
      small = omega arith;
      bytes_lt = (omega arith, zeros-AllBytes 511);
    };
    long = omega arith;
    low = omega arith;
  };
  inode_map = record {
    valid = record {
      inside = omega arith;
      small = omega arith;
      bytes_lt = (omega arith, zeros-AllBytes 511);
    };
    long = omega arith;
    low = omega arith;
  };
}
  where
    ours : (i : ℕ) → i < 13 → IsOurs 800 (get_or tabled.block i 0)
    ours zero lt ne = (omega arith, omega arith, omega arith)
    ours (suc i) lt ne = elim (ℕ_discrete i 11) [
      | yes e ↦ rw (e) (omega arith, omega arith, omega arith)
      | no other ↦
          let z : get_or (zeros 11 ++ (803 ∷ [])) i 0 ≡ 0 =
            get_or-append_left 0 (zeros 11) (803 ∷ []) i (omega (arith, lt, other))
            ∙ get_or-zeros 11 i in
          absurd (ne z)
    ]

inode_release-IsReleased_example :
    (disk' : Disk) × (part' : Partition) × (inode_release blank part 77 true files 6
      ≡ some (disk', (part', inode_close (reopened files 9) 9)))
    × IsReleased part ((reopened files 9).inodes 9) part'
inode_release-IsReleased_example =
    inode_release-IsReleased blank part 77 files (reopened files 9) 6 9 opened refl
      tabled-IsReleasable

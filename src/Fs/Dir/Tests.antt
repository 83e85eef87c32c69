-- ===== src/Fs/Dir/Tests.antt =====
-- fs/dir.c: a directory with two entries in its first block.
use gogoos.Common.{
  take, ℕ, zero, suc, ◌<◌, ◌≡◌, ◌≢◌, refl, sym, ◌∙◌, true, false, Option, some, List, [], ◌∷◌, ◌++◌,
  length, zeros, get_or-zeros, lt→ltb, arith, ◌≤◌, ◌==◌, ◌||◌, not, ==_iff,
}
use gogoos.Common.Bits.{all_below, all_below_sound}
use gogoos.Fs.{Disk, Inode, max_lba}
use gogoos.Fs.BitMaps.{Partition}
use gogoos.CString.{strcmp}
use gogoos.Fs.Sectors.{AllWords}
use gogoos.Fs.InodeSync.RoundTrip.{stored}
use gogoos.Fs.Write.Found.{IsHome}
use gogoos.Fs.Dir.Remove.{delete_dir_entry}
use gogoos.Fs.Dir.Remove.Counts.{IsMatch}
use gogoos.Fs.Dir.Remove.Reached.{IsOnly, IsBehind}
use gogoos.Fs.Dir.Remove.Removed.{delete_dir_entry-IsInserted}
use gogoos.Fs.Dir.Search.{search_dir_entry}
use gogoos.Fs.Dir.Search.Found.{InBlocks, search_dir_entry-InBlocks}
use gogoos.Fs.Dir.Add.{free_entry, sync_dir_entry}
use gogoos.Fs.Dir.Add.Inserted.{IsInserted}
use gogoos.Fs.Dir.Add.Added.{IsApart, IsFree, sync_dir_entry-IsInserted}
use gogoos.Fs.Read.Blocks.{block_lba}
use gogoos.Fs.Dir.{DirEntry, entry_at, list_dir}
use gogoos.Fs.Dir.Entries.{block_entries, used_entries}
use gogoos.Fs.Dir.Listing.{entries, IsDirectory, list_dir-entries}

-- "a" and "b", and a free entry between them
abbrev sector : List ℕ
sector =
    (97 ∷ zeros 15)
    ++ ((5 ∷ 0 ∷ 0 ∷ 0 ∷ 1 ∷ 0 ∷ 0 ∷ 0 ∷ [])
        ++ (zeros 24 ++ ((98 ∷ zeros 15) ++ ((7 ∷ 0 ∷ 0 ∷ 0 ∷ 2 ∷ 0 ∷ 0 ∷ 0 ∷ []) ++ zeros 440))))

abbrev disk : Disk
disk = λ lba. sector

abbrev small_dir : Inode
small_dir = record { ino = 0; size = 48; open_cnt = 1; write_deny = false; block = 900 ∷ zeros 12 }

small_dir_entries :
    entries disk small_dir
    ≡ record { file_name = 97 ∷ zeros 15; ino = 5; file_type = 1 }
      ∷ (record { file_name = 98 ∷ zeros 15; ino = 7; file_type = 2 } ∷ [])
unfolding block_entries used_entries entry_at
small_dir_entries = refl

no_block : (i : ℕ) → suc i < 12 → block_lba disk small_dir.block (suc i) ≡ 0
no_block i lt = rw (lt→ltb (suc i) 12 lt) (get_or-zeros 12 i)

small_dir-IsDirectory : IsDirectory disk small_dir
unfolding block_entries used_entries entry_at
small_dir-IsDirectory = record {
  thirteen = refl;
  table = λ ne. absurd (ne refl);
  on_disk = on_disk;
  counted = refl;
  small = omega arith;
}
  where
    on_disk :
        (i : ℕ)
        → i < 12
        → block_lba disk small_dir.block i ≢ 0
        → block_lba disk small_dir.block i < max_lba
    on_disk zero lt ne = omega arith
    on_disk (suc i) lt ne = absurd (ne (no_block i lt))

list_dir-entries_example :
    list_dir (suc (length (entries disk small_dir))) disk small_dir (λ i. i == 0) 0
    ≡ some (take 1 (entries disk small_dir))
unfolding block_entries used_entries entry_at
list_dir-entries_example =
    list_dir-entries disk small_dir (λ i. i == 0) 1 small_dir-IsDirectory (omega arith)
      (λ i lt. ground arith) (λ lt. refl)

small_dir-IsApart : IsApart disk small_dir
small_dir-IsApart = record {
  sectors = λ i lt ne. refl;
  distinct = distinct;
  table_apart = λ i lt ne e. ne (sym e);
}
  where
    distinct :
        (i j : ℕ)
        → i < 12
        → j < 12
        → block_lba disk small_dir.block i ≢ 0
        → block_lba disk small_dir.block i ≡ block_lba disk small_dir.block j
        → i ≡ j
    distinct zero zero hi hj ne e = refl
    distinct zero (suc j) hi hj ne e = absurd (ne (e ∙ no_block j hj))
    distinct (suc i) j hi hj ne e = absurd (ne (no_block i hi))

small_dir-IsFree : IsFree disk small_dir 0 1
unfolding free_entry entry_at
small_dir-IsFree = record {
  inside = omega arith;
  present = λ e. omega arith;
  first = refl;
  full = λ i lt. absurd (omega arith);
}

abbrev third : DirEntry
third = record { file_name = 99 ∷ zeros 15; ino = 9; file_type = 1 }

abbrev part : Partition
part = record {
  block_bit_map = record { size = 512; bytes = zeros 512 };
  inode_bit_map = record { size = 512; bytes = zeros 512 };
  block_bit_map_lba_start = 100;
  inode_bit_map_lba_start = 110;
  inode_table_lba_start = 112;
  data_lba_start = 800;
  lba_start = 99;
  sec_cnt = 5000;
}

sync_dir_entry-IsInserted_example :
    (disk' : Disk) × (sync_dir_entry disk part small_dir true third
      ≡ some (true, (disk', (part, record small_dir { size = 72 }))))
    × IsInserted third (entries disk small_dir) (entries disk' (record small_dir { size = 72 }))
    × IsDirectory disk' (record small_dir { size = 72 })
    × ((s : ℕ) → s ≢ 900 → disk' s ≡ disk s)
sync_dir_entry-IsInserted_example =
    sync_dir_entry-IsInserted disk part small_dir 0 1 third small_dir-IsDirectory small_dir-IsApart
      small_dir-IsFree
      (record {
        sixteen = refl;
        ino_lt = omega arith;
        type_lt = omega arith;
        in_use = λ e. omega arith;
      })
      (omega arith)

small_dir-IsHome : IsHome disk part small_dir
small_dir-IsHome = record {
  inode_table = record { whole = λ s. refl; low = omega arith };
  writable = record {
    numbered = omega arith;
    sized = omega arith;
    thirteen = refl;
    words_lt = words_lt;
  };
  inside = omega arith;
}
  where
    zeros-AllWords : (n : ℕ) → AllWords (zeros n)
    zeros-AllWords zero = tt
    zeros-AllWords (suc n) = (omega arith, zeros-AllWords n)

    words_lt : AllWords small_dir.block
    words_lt = (omega arith, zeros-AllWords 12)

small_dir-IsBehind : IsBehind disk part small_dir
small_dir-IsBehind = record { blocks = blocks; table = λ nz. absurd (nz refl) }
  where
    blocks :
        (i : ℕ)
        → i < 12
        → block_lba disk small_dir.block i ≢ 0
        → 722 ≤ block_lba disk small_dir.block i
    blocks zero lt nz = omega arith
    blocks (suc i) lt nz = absurd (nz (no_block i lt))

-- The first entry alone has the number 5.
only_first : all_below 21 (λ k. not ((entry_at sector k).ino == 5) || k == 0) ≡ true
unfolding all_below entry_at
only_first = refl

small_dir-IsOnly : IsOnly disk small_dir 5 0 0
unfolding entry_at strcmp
small_dir-IsOnly = record {
  inside = omega arith;
  present = λ e. omega arith;
  few = omega arith;
  one = record { in_use = λ e. omega arith; named = refl; numbered = refl };
  only = only;
}
  where
    at_first : (k : ℕ) → k < 21 → (entry_at sector k).ino ≡ 5 → k ≡ 0
    at_first k lt e =
        let t =
          all_below_sound 21 (λ k. not ((entry_at sector k).ino == 5) || k == 0) k only_first lt in
        (==_iff k 0).0 (rw (e) at t)

    only :
        (i k : ℕ)
        → i < 12
        → block_lba disk small_dir.block i ≢ 0
        → k < 21
        → IsMatch 5 (entry_at sector k)
        → (i ≡ 0) × (k ≡ 0)
    only zero k lt nz few m = (refl, at_first k few m.numbered)
    only (suc i) k lt nz few m = absurd (nz (no_block i lt))

delete_dir_entry-IsInserted_example :
    (disk' : Disk) × (delete_dir_entry disk part small_dir 5
      ≡ some (true, (disk', (part, record small_dir { size = 24 }))))
    × IsInserted
        (entry_at sector 0)
        (entries disk' (record small_dir { size = 24 }))
        (entries disk small_dir)
    × IsDirectory disk' (record small_dir { size = 24 })
    × (stored disk' 112 0 ≡ some (record small_dir { size = 24; open_cnt = 0; write_deny = false }))
    × ((s : ℕ) → 722 ≤ s → s ≢ 900 → disk' s ≡ disk s)
unfolding entry_at
delete_dir_entry-IsInserted_example =
    delete_dir_entry-IsInserted disk part small_dir 5 0 0 small_dir-IsDirectory small_dir-IsApart
      small_dir-IsOnly small_dir-IsHome small_dir-IsBehind 2 (omega arith) (λ e. omega arith)
      (λ e. omega arith)

search_dir_entry-InBlocks_example :
    (r : Option DirEntry) × (search_dir_entry disk small_dir true (zeros 64) (98 ∷ 0 ∷ []) ≡ some r)
    × InBlocks disk small_dir (zeros 64) (98 ∷ []) 0 r
search_dir_entry-InBlocks_example =
    search_dir_entry-InBlocks disk small_dir (zeros 64) (98 ∷ []) small_dir-IsDirectory
      (λ i lt ne. refl) refl (omega arith)

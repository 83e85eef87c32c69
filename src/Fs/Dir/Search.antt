-- ===== src/Fs/Dir/Search.antt =====
-- fs/dir.c, `searchDirEntry`. The inner loop has `dirEntrySize` rounds, which are 24, where a sector has 21
-- entries: `behind` is the memory behind `buf`. A name that fills its 16 bytes runs on into the fields.
pub mod Found
pub mod Places
use gogoos.Common.{
  ℕ, zero, suc, ◌+◌, ◌*◌, Bool, not, Option, none, some, List, ◌++◌, ◌==◌, if◌then◌else◌, ◌>>=◌,
  get_elem?, drop,
}
use gogoos.Common.Int.{is_zero}
use gogoos.CString.{strcmp}
use gogoos.Fs.{Disk, Inode, ide_read}
use gogoos.Fs.Dir.{DirEntry, dir_entry_size, entry_at, load_blocks}

-- the inner loop, with *curDe where it ends
unfoldable pub search_entries :
    (rounds die_entry_idx : ℕ) → (buf name : List ℕ) → Option (Option DirEntry)
search_entries zero idx buf name = some none
search_entries (suc n) idx buf name = do
  r ← strcmp (drop (dir_entry_size * idx) buf) name
  if is_zero r then some (some (entry_at buf idx)) else search_entries n (idx + 1) buf name

-- The entry is the result, or the outer loop goes on.
abbrev pub after_search :
    (next : Option (Option DirEntry)) → Option DirEntry → Option (Option DirEntry)
after_search next (some de) = some (some de)
after_search next none = next

-- the outer loop
unfoldable pub search_blocks :
    (rounds block_idx : ℕ) → Disk → (all_blocks behind name : List ℕ) → Option (Option DirEntry)
search_blocks zero block_idx disk all_blocks behind name = some none
search_blocks (suc n) block_idx disk all_blocks behind name = do
  lba ← get_elem? all_blocks block_idx
  let next = search_blocks n (block_idx + 1) disk all_blocks behind name
  let here = (do
    sector ← ide_read disk lba
    found ← search_entries dir_entry_size 0 (sector ++ behind) name
    after_search next found)
  if lba == 0 then next else here

-- `searchDirEntry` returns true and `de`, or false; whether the first allocation succeeds is an argument, and the
-- second does.
unfoldable pub search_dir_entry :
    Disk → Inode → (allocated : Bool) → (behind name : List ℕ) → Option (Option DirEntry)
search_dir_entry disk inode allocated behind name =
    if not allocated
    then some none
    else do all_blocks ← load_blocks disk inode; search_blocks 140 0 disk all_blocks behind name

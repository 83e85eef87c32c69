-- ===== src/Fs/Dir.antt =====
-- fs/dir.c: the entries of a directory. An entry is 24 bytes, which is also what the super block says;
-- the list `allBlocks` has 140 entries, which `sysMalloc` has cleared.
pub mod Add
pub mod Entries
pub mod Listing
pub mod Loaded
pub mod Remove
pub mod Search
mod Tests
use gogoos.Common.{
  ℕ, zero, suc, ◌+◌, ◌-◌, ◌*◌, ◌/◌, ◌%◌, ◌^◌, Bool, true, false, not, Option, none, some, List, [],
  ◌∷◌, ◌++◌, ltb, leb, ◌==◌, if◌then◌else◌, ◌>>=◌, ◌>>◌, assert, get_elem?, get_or, take, drop,
  length, overwrite, u32,
}
use gogoos.Fs.{Disk, Inode, ide_read, words}
use gogoos.Fs.Read.{cleared, copy_blocks, read_table}
use gogoos.Fs.Sectors.{bytes_of}

-- `DirEntry`; `fileType` is 0 for FT_UNKNOWN, 1 for FT_REGULAR and 2 for FT_DIRECTORY
pub record DirEntry : Type 0 where
  pub file_name : List ℕ
  pub ino : ℕ
  pub file_type : ℕ

-- `sizeof(DirEntry)`
abbrev pub dir_entry_size : ℕ
dir_entry_size = 24

-- SECTOR_BYTE_SIZE / dirEntrySize
abbrev pub dir_entry_cnt_per_sec : ℕ
dir_entry_cnt_per_sec = 21

-- *(curDe + dirEntryIdx)
unfoldable pub entry_at : (sector : List ℕ) → (dir_entry_idx : ℕ) → DirEntry
entry_at sector dir_entry_idx =
    let bytes = drop (dir_entry_size * dir_entry_idx) sector in
    record {
      file_name = take 16 bytes;
      ino = get_or (words (drop 16 bytes)) 0 0;
      file_type = get_or (words (drop 20 bytes)) 0 0;
    }

-- `createDirEntry` writes over an entry; the name gets no NUL where it has 16 characters.
unfoldable pub create_dir_entry :
    (file_name : List ℕ) → (ino file_type : ℕ) → DirEntry → Option DirEntry
create_dir_entry file_name ino file_type de = do
  assert (leb (length file_name) 16)
  some (record { file_name = overwrite 0 file_name de.file_name; ino = ino; file_type = file_type })

-- the loop and the read that fill `allBlocks`
unfoldable pub load_blocks : Disk → Inode → Option (List ℕ)
load_blocks disk inode = do
  all_blocks ← copy_blocks 12 0 inode.block cleared
  table_lba ← get_elem? inode.block 12
  if table_lba == 0 then some all_blocks else read_table disk inode.block all_blocks

-- `blockCnt` of `dirRead`
unfoldable pub block_cnt : Inode → Option ℕ
block_cnt inode = do table_lba ← get_elem? inode.block 12; some (if table_lba == 0 then 12 else 140)

-- what the inner loop of `dirRead` finds: an entry, or none and the new `curDirEntryPos`
pub data Scan : Type 0 where
  found : DirEntry → Scan
  passed : (cur_dir_entry_pos : ℕ) → Scan

-- the inner loop of `dirRead`
unfoldable pub scan_entries :
    (rounds dir_entry_idx : ℕ) → (sector : List ℕ) → (cur_dir_entry_pos dir_pos : ℕ) → Option Scan
scan_entries zero idx sector cur dir_pos = some (passed cur)
scan_entries (suc n) idx sector cur dir_pos =
    let free = scan_entries n (idx + 1) sector cur dir_pos in
    let before = scan_entries n (idx + 1) sector (u32 (cur + dir_entry_size)) dir_pos in
    let here = (do assert (cur == dir_pos); some (found (entry_at sector idx))) in
    if (entry_at sector idx).file_type == 0 then free else if ltb cur dir_pos then before else here

-- The entry is the result, or the outer loop goes on.
abbrev pub after_scan : (rest : ℕ → Option (Option DirEntry)) → Scan → Option (Option DirEntry)
after_scan rest (found de) = some (some de)
after_scan rest (passed cur) = rest cur

-- the outer loop of `dirRead`
unfoldable pub read_entries :
    (rounds block_idx : ℕ)
    → Disk
    → (all_blocks : List ℕ) → (size cur_dir_entry_pos dir_pos : ℕ) → Option (Option DirEntry)
read_entries zero block_idx disk all_blocks size cur dir_pos = some none
read_entries (suc n) block_idx disk all_blocks size cur dir_pos =
    let round = (do
      lba ← get_elem? all_blocks block_idx
      let skipped = read_entries n (block_idx + 1) disk all_blocks size cur dir_pos
      let read = (do
        sector ← ide_read disk lba
        scan ← scan_entries dir_entry_cnt_per_sec 0 sector cur dir_pos
        after_scan (λ cur'. read_entries n (block_idx + 1) disk all_blocks size cur' dir_pos) scan)
      if lba == 0 then skipped else read) in
    if ltb dir_pos size then round else some none

-- `dirRead` returns the entry, or NULL, and the new `dirPos`; whether the allocation succeeds is an argument.
unfoldable pub dir_read :
    Disk → Inode → (allocated : Bool) → (dir_pos : ℕ) → Option (Option DirEntry × ℕ)
dir_read disk inode allocated dir_pos = if not allocated then some (none, dir_pos) else do
  all_blocks ← load_blocks disk inode
  cnt ← block_cnt inode
  assert (inode.size % dir_entry_size == 0)
  de ← read_entries cnt 0 disk all_blocks inode.size 0 dir_pos
  some (de, (elim de [ some d ↦ u32 (dir_pos + dir_entry_size) | none ↦ dir_pos ]))

-- while ((de = readDir(dir)) != NULL) of `buildinLs`: the entries, one after the other. Each call of `dirRead` allocates
-- a list that is not given back; `allocated` says of each whether it gets one.
unfoldable pub list_dir :
    (fuel : ℕ) → Disk → Inode → (allocated : ℕ → Bool) → (dir_pos : ℕ) → Option (List DirEntry)
list_dir zero disk inode allocated dir_pos = none
list_dir (suc f) disk inode allocated dir_pos = do
  (de, dir_pos') ← dir_read disk inode (allocated 0) dir_pos
  elim de [
    | none ↦ some []
    | some d ↦ (do rest ← list_dir f disk inode (λ i. allocated (i + 1)) dir_pos'; some (d ∷ rest))
  ]

-- `dirIsEmpty`
unfoldable pub dir_is_empty : Inode → Bool
dir_is_empty inode = inode.size == dir_entry_size * 2

-- ===== src/Fs/Dir/Remove/Reached.antt =====
-- fs/dir.c: the loops of `deleteDirEntry` get to the entry that has the number.
use gogoos.Common.{
  ℕ, zero, suc, ◌+◌, ◌-◌, ◌*◌, ◌<◌, ◌≤◌, ◌≡◌, ◌≢◌, refl, ap, ◌∙◌, some, Option, Bool, List, arith,
  leb, ◌==◌, ◌&&◌, not, ==_false, if◌then◌else◌, ◌>>=◌, ◌>>◌, assert, get_or, zeros, length,
  length-zeros, get_or-zeros, overwrite, drop, length-take, length-drop, length-overwrite,
  get_or-overwrite_in, ℕ_discrete,
}
use gogoos.Fs.{Disk, Inode, words}
use gogoos.Fs.BitMaps.{Partition}
use gogoos.Fs.Read.Bytes.{ide_read_lem}
use gogoos.Fs.Read.Blocks.{block_lba}
use gogoos.Fs.Write.{Writing}
use gogoos.Fs.Dir.{entry_at}
use gogoos.Fs.Dir.Entries.{IsListed}
use gogoos.Fs.Dir.Loaded.{cnt}
use gogoos.Fs.Dir.Listing.{IsDirectory}
use gogoos.Fs.Dir.Add.Slots.{drop-drop, words-drop}
use gogoos.Fs.Dir.Add.Added.{IsApart}
use gogoos.Fs.Dir.Remove.{
  Counted, nothing_counted, count_entries, drop_block, clear_entry, shrink, after_count,
  remove_entry,
}
use gogoos.Fs.Dir.Remove.Counts.{IsMatch, count_entries-passed}

-- Entry `j` of block `b` is the one with the number.
pub record IsOnly (disk : Disk) (inode : Inode) (ino b j : ℕ) : Type 0 where
  pub inside : b < cnt inode
  pub present : block_lba disk inode.block b ≢ 0
  pub few : j < 21
  pub one : IsMatch ino (entry_at (disk (block_lba disk inode.block b)) j)
  pub only :
      (i k : ℕ)
      → i < cnt inode
      → block_lba disk inode.block i ≢ 0
      → k < 21
      → IsMatch ino (entry_at (disk (block_lba disk inode.block i)) k)
      → (i ≡ b) × (k ≡ j)

-- The blocks of the directory, and its table, lie behind the table of inodes.
pub record IsBehind (disk : Disk) (part : Partition) (inode : Inode) : Type 0 where
  pub blocks :
      (i : ℕ)
      → i < cnt inode
      → block_lba disk inode.block i ≢ 0
      → part.inode_table_lba_start + 610 ≤ block_lba disk inode.block i
  pub table :
      get_or inode.block 12 0 ≢ 0 → part.inode_table_lba_start + 610 ≤ get_or inode.block 12 0

pub entry_at-long :
    (s : List ℕ) (i : ℕ) → length s ≡ 512 → i < 21 → 2 ≤ length (entry_at s i).file_name
unfolding entry_at
entry_at-long s i len few =
    omega (arith, length-take 16 (drop (24 * i) s), length-drop (24 * i) s, len)

-- The entry that is cleared is free.
pub entry_at-cleared :
    (s : List ℕ) (i : ℕ)
    → length s ≡ 512
    → i < 21
    → (entry_at (overwrite (24 * i) (zeros 24) s) i).file_type ≡ 0
unfolding entry_at
entry_at-cleared s i len few =
    let s' = overwrite (24 * i) (zeros 24) s in
    let fits : 24 * i + length (zeros 24) ≤ length s = omega (arith, length-zeros 24, len) in
    let long = length-overwrite (24 * i) (zeros 24) s fits in
    let byte : (p : ℕ) → 24 * i ≤ p → p < 24 * i + 24 → get_or s' p 0 ≡ 0 = λ p lo hi.
      get_or-overwrite_in 0 (24 * i) (zeros 24) s fits p (p - 24 * i) (omega arith)
        (omega (arith, length-zeros 24))
      ∙ get_or-zeros 24 (p - 24 * i) in
    ap (λ t. get_or (words t) 0 0) (drop-drop 20 (24 * i) s')
    ∙ words-drop s' (24 * i + 20) (omega (arith, long, len))
    ∙ rw
        (
          byte (24 * i + 20) (omega arith) (omega arith),
          byte (suc (24 * i + 20)) (omega arith) (omega arith),
          byte (suc (suc (24 * i + 20))) (omega arith) (omega arith),
          byte (suc (suc (suc (24 * i + 20)))) (omega arith) (omega arith),
        )
        refl

module _ (disk : Disk) (part : Partition) (inode : Inode) (ino b j : ℕ) (v : IsDirectory disk inode)
    (a : IsApart disk inode) (f : IsOnly disk inode ino b j) where
  abbrev lba : ℕ → ℕ
  lba = block_lba disk inode.block

  abbrev pub begun : List ℕ → Writing
  begun all = record { disk = disk; part = part; inode = inode; all_blocks = all }

  pub long :
      (i : ℕ)
      → i < cnt inode
      → lba i ≢ 0
      → (k : ℕ) → k < 21
      → 2 ≤ length (entry_at (disk (lba i)) k).file_name
  long i lt nz k few = entry_at-long (disk (lba i)) k (a.sectors i lt nz) few

  -- what is done with the block
  abbrev pub taken_out : List ℕ → Counted → Option (Bool × Writing)
  taken_out all c = do
    assert (leb 1 c.dir_entry_cnt)
    w1 ←
        if c.dir_entry_cnt == 1 && not c.is_dir_first_block
        then drop_block (begun all) b
        else clear_entry (begun all) (lba b) (disk (lba b)) j
    shrink w1

  -- The outer loop gets to the block of the entry.
  pub remove_entry-taken_out :
      (c : Counted) (d n idx : ℕ) (all : List ℕ)
      → count_entries 21 0 (disk (lba b)) ino nothing_counted ≡ some c
      → c.de_found ≡ some j
      → ((i : ℕ) → i < cnt inode → IsListed disk lba all i)
      → idx + d ≡ b
      → d < n
      → remove_entry n idx (begun all) ino ≡ taken_out all c
  unfolding remove_entry
  remove_entry-taken_out c d zero idx all count at_j listed at_b more = absurd (omega arith)
  remove_entry-taken_out c zero (suc n) idx all count at_j listed at_b more =
      let q : idx ≡ b = omega arith in
      let (here, on_disk) = listed b f.inside in
      let read = ide_read_lem disk lba (lba b) (on_disk f.present) in
      rw (q, here, ==_false (lba b) 0 f.present, read, count)
        (ap
          (after_count (begun all) b (lba b) (disk (lba b)) (remove_entry n (b + 1) (begun all) ino)
            c)
          at_j)
  remove_entry-taken_out c (suc d) (suc n) idx all count at_j listed at_b more =
      let inside = f.inside in
      let (here, on_disk) = listed idx (omega (arith, inside)) in
      let ih =
        remove_entry-taken_out c d n (idx + 1) all count at_j listed (omega arith) (omega arith) in
      elim (ℕ_discrete (lba idx) 0) [
        | yes z ↦ rw (here, z) ih
        | no nz ↦
            let read = ide_read_lem disk lba (lba idx) (on_disk nz) in
            let (c', run, none_yet, _, _, _) =
              count_entries-passed (disk (lba idx)) ino (long idx (omega (arith, inside)) nz) 21 0
                nothing_counted (omega arith)
                (λ k lo hi m.
                  absurd (omega (arith, (f.only idx k (omega (arith, inside)) nz hi m).0))) in
            rw (here, ==_false (lba idx) 0 nz, read, run)
              (ap
                  (after_count (begun all) idx (lba idx) (disk (lba idx))
                    (remove_entry n (idx + 1) (begun all) ino) c')
                  none_yet
                ∙ ih)
      ]

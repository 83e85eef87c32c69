-- ===== src/Fs/Dir/Remove/Removed.antt =====
-- fs/dir.c: `deleteDirEntry` of an entry whose block holds another one.
use gogoos.Common.{
  ℕ, ◌+◌, ◌-◌, ◌*◌, ◌<◌, ◌≤◌, ◌≡◌, ◌≢◌, refl, sym, ap, ◌∙◌, true, false, some, List, arith, ◌==◌,
  ==_refl, ==_false, lt→ltb, le→leb, ltb-false, if◌then◌else◌, get_or, zeros, length, length-zeros,
  overwrite, take, length-overwrite, get_or-overwrite_below, get_or-overwrite_above, dec_lt,
  ℕ_discrete,
}
use gogoos.Fs.{Disk, Inode, max_lba, words}
use gogoos.Fs.BitMaps.{Partition, ide_write}
use gogoos.Fs.InodeSync.{inode_sync}
use gogoos.Fs.InodeSync.RoundTrip.{stored, inode_sync-stored}
use gogoos.Fs.Read.Blocks.{block_lba}
use gogoos.Fs.Write.Found.{IsHome}
use gogoos.Fs.Dir.{entry_at, load_blocks}
use gogoos.Fs.Dir.Entries.{IsListed, used_entries}
use gogoos.Fs.Dir.Loaded.{cnt}
use gogoos.Fs.Dir.Listing.{entries, IsDirectory, load_blocks-IsListed}
use gogoos.Fs.Dir.Add.Slots.{entry_at-same}
use gogoos.Fs.Dir.Add.Inserted.{
  IsInserted, length-IsInserted, used_entries-IsInserted, block_entries-IsInserted,
}
use gogoos.Fs.Dir.Add.Added.{IsApart, take_all}
use gogoos.Fs.Dir.Remove.{Counted, nothing_counted, count_entries, delete_dir_entry}
use gogoos.Fs.Dir.Remove.Counts.{seen, keeps, count_entries-found}
use gogoos.Fs.Dir.Remove.Reached.{IsOnly, IsBehind, entry_at-cleared, long, remove_entry-taken_out}

module _ (disk : Disk) (part : Partition) (inode : Inode) (ino b j : ℕ) (v : IsDirectory disk inode)
    (a : IsApart disk inode) (f : IsOnly disk inode ino b j) (home : IsHome disk part inode)
    (behind : IsBehind disk part inode) where
  abbrev lba : ℕ → ℕ
  lba = block_lba disk inode.block

  cnt_le : cnt inode ≤ 140
  cnt_le = ground arith

  abbrev buf : List ℕ
  buf = overwrite (24 * j) (zeros 24) (disk (lba b))

  abbrev disk1 : Disk
  disk1 = λ s. if s == lba b then take 512 buf else disk s

  abbrev smaller : Inode
  smaller = record inode { size = inode.size - 24 }

  sector : length (disk (lba b)) ≡ 512
  sector = a.sectors b f.inside f.present

  fits : 24 * j + length (zeros 24) ≤ length (disk (lba b))
  fits = omega (arith, sector, length-zeros 24, f.few)

  size_buf : length buf ≡ 512
  size_buf = length-overwrite (24 * j) (zeros 24) (disk (lba b)) fits ∙ sector

  cleared_sector : disk1 (lba b) ≡ buf
  cleared_sector = rw (==_refl (lba b)) (take_all buf 512 size_buf)

  same_sector : (s : ℕ) → s ≢ lba b → disk1 s ≡ disk s
  same_sector s ne = rw (==_false s (lba b) ne) refl

  disk1-IsHome : IsHome disk1 part smaller
  disk1-IsHome =
      let sized = home.writable.sized in
      record {
        inode_table = record {
          whole = λ s. elim (ℕ_discrete s (lba b)) [
            | yes e ↦ ap (λ t. length (disk1 t)) e ∙ ap length cleared_sector ∙ size_buf
            | no ne ↦ ap length (same_sector s ne) ∙ home.inode_table.whole s
          ];
          low = home.inode_table.low;
        };
        writable = record {
          numbered = home.writable.numbered;
          sized = omega (arith, sized);
          thirteen = home.writable.thirteen;
          words_lt = home.writable.words_lt;
        };
        inside = home.inside;
      }

  -- The entry is gone from its sector.
  cleared_entries :
      IsInserted
        (entry_at (disk (lba b)) j)
        (used_entries 21 0 buf)
        (used_entries 21 0 (disk (lba b)))
  cleared_entries =
      let len = sector in
      let few = f.few in
      used_entries-IsInserted buf (disk (lba b)) 21 0 j (entry_at (disk (lba b)) j) (omega arith)
        (omega arith) (entry_at-cleared (disk (lba b)) j len few) refl f.one.in_use
        (λ i lt ne. sym (
          entry_at-same (disk (lba b)) buf i len size_buf lt (λ k lo hi. elim (dec_lt i j) [
            | yes before ↦
                get_or-overwrite_below 0 (24 * j) (zeros 24) (disk (lba b)) fits k (omega arith)
            | no after ↦
                get_or-overwrite_above 0 (24 * j) (zeros 24) (disk (lba b)) fits k
                  (omega (arith, length-zeros 24))
          ])))
        (omega arith)

  -- Behind the sync of the inode.
  module _ (disk2 : Disk)
      (far : (s : ℕ) → part.inode_table_lba_start + 610 ≤ s → disk2 s ≡ disk1 s) where
    kept_table :
        get_or inode.block 12 0 ≢ 0
        → disk2 (get_or inode.block 12 0) ≡ disk (get_or inode.block 12 0)
    kept_table nz =
        far (get_or inode.block 12 0) (behind.table nz)
        ∙ same_sector (get_or inode.block 12 0) (a.table_apart b f.inside f.present)

    lba_same : (i : ℕ) → i < cnt inode → block_lba disk2 inode.block i ≡ lba i
    lba_same i lt = elim (dec_lt i 12) [
      | yes few ↦ rw (lt→ltb i 12 few) refl
      | no many ↦
          let nz : get_or inode.block 12 0 ≢ 0 = λ z. ground arith in
          rw (ltb-false i 12 (omega arith)) (ap (λ t. get_or (words t) (i - 12) 0) (kept_table nz))
    ]

    kept_block : (i : ℕ) → i < cnt inode → lba i ≢ 0 → i ≢ b → disk2 (lba i) ≡ disk (lba i)
    kept_block i lt nz ne =
        far (lba i) (behind.blocks i lt nz)
        ∙ same_sector (lba i) (λ e. ne (a.distinct i b lt f.inside nz e))

    removed : IsInserted (entry_at (disk (lba b)) j) (entries disk2 smaller) (entries disk inode)
    removed =
        let inside = f.inside in
        let here = lba_same b inside in
        let new : disk2 (lba b) ≡ buf =
          far (lba b) (behind.blocks b inside f.present) ∙ cleared_sector in
        block_entries-IsInserted disk2 disk (block_lba disk2 inode.block) lba (cnt inode) 0 b
          (entry_at (disk (lba b)) j) (omega arith) (omega arith) (λ z. f.present (sym here ∙ z))
          (rw (here, new) cleared_entries) (λ i lo hi. sym (lba_same i (omega (arith, hi))))
          (λ i lo hi ne nz.
            let same = lba_same i (omega (arith, hi)) in
            rw (same) (sym (kept_block i (omega (arith, hi)) (λ z. nz (same ∙ z)) ne)))

    disk2-IsDirectory : IsDirectory disk2 smaller
    disk2-IsDirectory =
        let counted = v.counted in
        let small = v.small in
        let fewer =
          length-IsInserted (entry_at (disk (lba b)) j) (entries disk2 smaller) (entries disk inode)
            removed in
        record {
          thirteen = v.thirteen;
          table = λ nz. ((v.table nz).0, ap length (kept_table nz) ∙ (v.table nz).1);
          on_disk = λ i lt nz.
              let same = lba_same i lt in
              let low = v.on_disk i lt (λ z. nz (same ∙ z)) in omega (arith, same, low);
          counted = omega (arith, counted, fewer);
          small = omega (arith, small);
        }

  delete_dir_entry-run :
      (all : List ℕ) (c : Counted) (disk2 : Disk)
      → load_blocks disk inode ≡ some all
      → ((i : ℕ) → i < cnt inode → IsListed disk lba all i)
      → count_entries 21 0 (disk (lba b)) ino nothing_counted ≡ some c
      → c.de_found ≡ some j
      → 1 ≤ c.dir_entry_cnt
      → 2 ≤ seen c
      → 24 ≤ inode.size
      → inode_sync disk1 part smaller ≡ some disk2
      → delete_dir_entry disk part inode ino ≡ some (true, (disk2, (part, smaller)))
  unfolding delete_dir_entry ide_write
  delete_dir_entry-run all c disk2 run listed count at_j one more large sync =
      let inside = f.inside in
      let loop =
        remove_entry-taken_out disk part inode ino b j v a f c b 140 0 all count at_j listed
          (omega arith) (omega (arith, cnt_le, inside)) in
      let counted = le→leb 1 c.dir_entry_cnt one in
      let kept = keeps c one more in
      let full = le→leb 512 (length buf) (omega (arith, size_buf)) in
      let low = lt→ltb (lba b) max_lba (v.on_disk b inside f.present) in
      let enough = le→leb 24 inode.size large in
      rw (run, loop, counted, kept, low, full, enough, sync) refl

-- `deleteDirEntry` on a directory whose size counts its entries, whose inode lies in the table of inodes of a disk of
-- whole sectors, and whose blocks are different sectors behind that table, as is its own table of blocks: where one
-- entry in use has the number, besides entries named ".", and its block holds another entry in use, it returns
-- true, and the entries in use are those from before without that one. The size counts them again, and the table of
-- inodes holds the inode with the new size. Behind that table the disk stays as it was but for the sector of the
-- block.
pub delete_dir_entry-IsInserted :
    (disk : Disk) (part : Partition) (inode : Inode) (ino b j : ℕ)
    → IsDirectory disk inode
    → IsApart disk inode
    → IsOnly disk inode ino b j
    → IsHome disk part inode
    → IsBehind disk part inode
    → (k : ℕ) → k < 21
    → k ≢ j
    → (entry_at (disk (block_lba disk inode.block b)) k).file_type ≢ 0
    → (disk' : Disk) × (delete_dir_entry disk part inode ino
        ≡ some (true, (disk', (part, record inode { size = inode.size - 24 }))))
      × IsInserted
          (entry_at (disk (block_lba disk inode.block b)) j)
          (entries disk' (record inode { size = inode.size - 24 }))
          (entries disk inode)
      × IsDirectory disk' (record inode { size = inode.size - 24 })
      × (stored disk' part.inode_table_lba_start inode.ino
          ≡ some (record inode { size = inode.size - 24; open_cnt = 0; write_deny = false }))
      × ((s : ℕ)
          → part.inode_table_lba_start + 610 ≤ s
          → s ≢ block_lba disk inode.block b
          → disk' s ≡ disk s)
delete_dir_entry-IsInserted disk part inode ino b j v a f home behind k few nk used =
    let (all, run, count, listed) = load_blocks-IsListed disk inode v in
    let (c, counts, at_j, one, _, others) =
      count_entries-found (disk (block_lba disk inode.block b)) ino
        (long disk part inode ino b j v a f b f.inside f.present) 21 0 j nothing_counted
        (omega arith) (omega arith) (omega (arith, f.few)) f.one
        (λ i lo hi m. (f.only b i f.inside f.present hi m).1) refl in
    let next = disk1-IsHome disk part inode ino b j v a f home behind in
    let (disk2, sync, on_disk, _, _, _, far) =
      inode_sync-stored (disk1 disk part inode ino b j v a f home behind) part
        (record inode { size = inode.size - 24 }) next.inode_table next.writable next.inside in
    let gone = removed disk part inode ino b j v a f home behind disk2 far in
    let fewer =
      length-IsInserted (entry_at (disk (block_lba disk inode.block b)) j)
        (entries disk2 (record inode { size = inode.size - 24 })) (entries disk inode) gone in
    (
      disk2,
      delete_dir_entry-run disk part inode ino b j v a f home behind all c disk2 run listed counts
          at_j one (others k (omega arith) (omega arith) nk used) (omega (arith, v.counted, fewer))
          sync,
      gone,
      disk2-IsDirectory disk part inode ino b j v a f home behind disk2 far,
      on_disk,
      λ s lo ne. far s lo ∙ same_sector disk part inode ino b j v a f home behind s ne,
    )

-- ===== src/Fs/Dir/Add/Added.antt =====
-- fs/dir.c: `syncDirEntry` of an entry for which a block has a free place.
use gogoos.Common.{
  ℕ, zero, suc, ◌+◌, ◌-◌, ◌*◌, ◌%◌, ◌^◌, ◌<◌, ◌≤◌, ◌≡◌, ◌≢◌, refl, ap, ◌∙◌, true, none, some, List,
  [], ◌∷◌, ◌++◌, arith, ltb, leb, ◌==◌, ==_refl, ==_false, ==_iff, lt→ltb, if◌then◌else◌, get_or,
  length, length-append, overwrite, take, length-overwrite, get_or-overwrite_below,
  get_or-overwrite_above, u32, dec_lt,
}
use gogoos.Fs.{Disk, Inode, max_lba, words}
use gogoos.Fs.BitMaps.{Partition, ide_write}
use gogoos.Fs.Read.Bytes.{ide_read_lem}
use gogoos.Fs.Read.Blocks.{block_lba}
use gogoos.Fs.Sectors.{le32}
use gogoos.Fs.Write.{Writing}
use gogoos.Fs.Dir.{DirEntry, entry_at, load_blocks}
use gogoos.Fs.Dir.Entries.{IsListed, used_entries}
use gogoos.Fs.Dir.Loaded.{cnt}
use gogoos.Fs.Dir.Listing.{entries, IsDirectory, load_blocks-IsListed, whole}
use gogoos.Fs.Dir.Add.{entry_bytes, free_entry, write_entry, at_free, add_entry, sync_dir_entry}
use gogoos.Fs.Dir.Add.Slots.{IsEntry, entry_at-same, entry_at-written}
use gogoos.Fs.Dir.Add.Inserted.{
  IsInserted, length-IsInserted, free_entry-free, used_entries-IsInserted, block_entries-IsInserted,
}

-- The blocks of the directory are whole sectors, all different, and none is its table.
pub record IsApart (disk : Disk) (inode : Inode) : Type 0 where
  pub sectors :
      (i : ℕ)
      → i < cnt inode
      → block_lba disk inode.block i ≢ 0
      → length (disk (block_lba disk inode.block i)) ≡ 512
  pub distinct :
      (i j : ℕ)
      → i < cnt inode
      → j < cnt inode
      → block_lba disk inode.block i ≢ 0
      → block_lba disk inode.block i ≡ block_lba disk inode.block j
      → i ≡ j
  pub table_apart :
      (i : ℕ)
      → i < cnt inode
      → block_lba disk inode.block i ≢ 0
      → get_or inode.block 12 0 ≢ block_lba disk inode.block i

-- Entry `j` of block `b` is the first free one, and no block before it is missing.
pub record IsFree (disk : Disk) (inode : Inode) (b j : ℕ) : Type 0 where
  pub inside : b < cnt inode
  pub present : block_lba disk inode.block b ≢ 0
  pub first : free_entry 21 0 (disk (block_lba disk inode.block b)) ≡ some j
  pub full :
      (i : ℕ)
      → i < b
      → (block_lba disk inode.block i ≢ 0)
        × (free_entry 21 0 (disk (block_lba disk inode.block i)) ≡ none)

pub take_all : (xs : List ℕ) (n : ℕ) → length xs ≡ n → take n xs ≡ xs
take_all [] zero e = refl
take_all [] (suc n) e = refl
take_all (x ∷ xs) zero e = absurd (omega (arith, e))
take_all (x ∷ xs) (suc n) e = ap (λ t. x ∷ t) (take_all xs n (omega (arith, e)))

module _ (disk : Disk) (inode : Inode) (v : IsDirectory disk inode) (a : IsApart disk inode)
    (b j : ℕ) (f : IsFree disk inode b j) (de : DirEntry) (fit : IsEntry de) where
  abbrev lba : ℕ → ℕ
  lba = block_lba disk inode.block

  abbrev buf : List ℕ
  buf = overwrite (24 * j) (entry_bytes de) (disk (lba b))

  abbrev disk' : Disk
  disk' = λ s. if s == lba b then take 512 buf else disk s

  abbrev at_j : (0 ≤ j) × (j < 0 + 21) × ((entry_at (disk (lba b)) j).file_type ≡ 0)
  at_j = free_entry-free 21 0 (disk (lba b)) j f.first

  size_bytes : length (entry_bytes de) ≡ 24
  size_bytes =
      omega (arith, length-append de.file_name (le32 de.ino ++ le32 de.file_type), fit.sixteen)

  sector : length (disk (lba b)) ≡ 512
  sector = a.sectors b f.inside f.present

  size_buf : length buf ≡ 512
  size_buf = omega (
    arith,
    length-overwrite (24 * j) (entry_bytes de) (disk (lba b))
        (omega (arith, size_bytes, sector, at_j.1)),
    sector,
  )

  abbrev begun : Partition → List ℕ → Writing
  begun part all = record { disk = disk; part = part; inode = inode; all_blocks = all }

  -- The loop gets to the free entry.
  add_entry-write_entry :
      (d n idx : ℕ) (part : Partition) (all : List ℕ)
      → ((i : ℕ) → i < cnt inode → IsListed disk lba all i)
      → idx + d ≡ b
      → d < n
      → add_entry n idx (begun part all) de ≡ write_entry (begun part all) (lba b) buf
  unfolding add_entry
  add_entry-write_entry d zero idx part all listed at_b more = absurd (omega arith)
  add_entry-write_entry zero (suc n) idx part all listed at_b more =
      let q : idx ≡ b = omega arith in
      let (here, on_disk) = listed b f.inside in
      let read = ide_read_lem disk lba (lba b) (on_disk f.present) in
      rw (q, here, ==_false (lba b) 0 f.present, read)
        (ap
          (at_free (begun part all) (lba b) (disk (lba b)) de
            (add_entry n (b + 1) (begun part all) de))
          f.first)
  add_entry-write_entry (suc d) (suc n) idx part all listed at_b more =
      let inside = f.inside in
      let (here, on_disk) = listed idx (omega (arith, inside)) in
      let (present, full) = f.full idx (omega arith) in
      let read = ide_read_lem disk lba (lba idx) (on_disk present) in
      let ih = add_entry-write_entry d n (idx + 1) part all listed (omega arith) (omega arith) in
      rw (here, ==_false (lba idx) 0 present, read)
        (ap
            (at_free (begun part all) (lba idx) (disk (lba idx)) de
              (add_entry n (idx + 1) (begun part all) de))
            full
          ∙ ih)

  same_sector : (s : ℕ) → s ≢ lba b → disk' s ≡ disk s
  same_sector s ne = rw (==_false s (lba b) ne) refl

  written_sector : disk' (lba b) ≡ buf
  written_sector = rw (==_refl (lba b)) (take_all buf 512 size_buf)

  lba_same : (i : ℕ) → block_lba disk' inode.block i ≡ lba i
  lba_same i =
      let table = same_sector (get_or inode.block 12 0) (a.table_apart b f.inside f.present) in
      ap (λ t. if ltb i 12 then get_or inode.block i 0 else get_or (words t) (i - 12) 0) table

  inserted_sector :
      IsInserted de (used_entries 21 0 (disk (lba b))) (used_entries 21 0 (disk' (lba b)))
  inserted_sector =
      let len = sector in
      let (lo, hi, free) = at_j in
      rw (written_sector) (
        used_entries-IsInserted (disk (lba b)) buf 21 0 j de lo hi free
          (entry_at-written (disk (lba b)) j de len (omega arith) fit) fit.in_use
          (λ i few ne. entry_at-same (disk (lba b)) buf i len size_buf few (λ k a c.
            elim (dec_lt i j) [
              | yes before ↦
                  get_or-overwrite_below 0 (24 * j) (entry_bytes de) (disk (lba b))
                    (omega (arith, len, size_bytes)) k (omega arith)
              | no behind ↦
                  get_or-overwrite_above 0 (24 * j) (entry_bytes de) (disk (lba b))
                    (omega (arith, len, size_bytes)) k (omega (arith, size_bytes))
            ]))
          (omega arith))

  inserted :
      IsInserted de (entries disk inode) (entries disk' (record inode { size = inode.size + 24 }))
  inserted =
      let inside = f.inside in
      block_entries-IsInserted disk disk' lba (block_lba disk' inode.block) (cnt inode) 0 b de
        (omega arith) (omega arith) f.present inserted_sector (λ i lo hi. lba_same i)
        (λ i lo hi ne present.
          same_sector (lba i) (λ e. ne (a.distinct i b (omega arith) inside present e)))

  -- What `syncDirEntry` leaves.
  disk'-IsDirectory :
      inode.size < 2 ^ 32 - 48 → IsDirectory disk' (record inode { size = inode.size + 24 })
  disk'-IsDirectory small =
      let counted = v.counted in
      let more =
        length-IsInserted de (entries disk inode)
          (entries disk' (record inode { size = inode.size + 24 })) inserted in
      record {
        thirteen = v.thirteen;
        table = λ nz.
            let (low, len) = v.table nz in
            let same = same_sector (get_or inode.block 12 0) (a.table_apart b f.inside f.present) in
            (low, ap length same ∙ len);
        on_disk = λ i lt nz.
            let same = lba_same i in
            let low = v.on_disk i lt (λ z. nz (same ∙ z)) in omega (arith, same, low);
        counted = omega (arith, counted, more);
        small = omega (arith, small);
      }

  sync_dir_entry-run :
      (part : Partition) (all : List ℕ)
      → load_blocks disk inode ≡ some all
      → ((i : ℕ) → i < cnt inode → IsListed disk lba all i)
      → cnt inode ≤ 140
      → inode.size < 2 ^ 32 - 48
      → sync_dir_entry disk part inode true de
        ≡ some (true, (disk', (part, record inode { size = inode.size + 24 })))
  unfolding sync_dir_entry ide_write
  sync_dir_entry-run part all run listed few small =
      let inside = f.inside in
      let size : u32 (inode.size + 24) ≡ inode.size + 24 = omega (arith, small) in
      let loop = add_entry-write_entry b 140 0 part all listed (omega arith) (omega arith) in
      let long : leb 512 (length buf) ≡ true = ground (arith, size_buf) in
      let low = lt→ltb (lba b) max_lba (v.on_disk b inside f.present) in
      rw ((==_iff (inode.size % 24) 0).1 (whole disk inode v), run, loop, low, long, size) refl

-- `syncDirEntry` with memory, on a directory whose size counts its entries and whose blocks are different whole
-- sectors: if the first place that is free lies in a block with no missing block before it, it returns true, and
-- the entries in use are those from before with the new one among them. The disk stays as it was but for the sector
-- of that block, and the size counts the entries again.
pub sync_dir_entry-IsInserted :
    (disk : Disk) (part : Partition) (inode : Inode) (b j : ℕ) (de : DirEntry)
    → IsDirectory disk inode
    → IsApart disk inode
    → IsFree disk inode b j
    → IsEntry de
    → inode.size < 2 ^ 32 - 48
    → (disk' : Disk) × (sync_dir_entry disk part inode true de
        ≡ some (true, (disk', (part, record inode { size = inode.size + 24 }))))
      × IsInserted de (entries disk inode) (entries disk' (record inode { size = inode.size + 24 }))
      × IsDirectory disk' (record inode { size = inode.size + 24 })
      × ((s : ℕ) → s ≢ block_lba disk inode.block b → disk' s ≡ disk s)
sync_dir_entry-IsInserted disk part inode b j de v a f fit small =
    let (all, run, count, listed) = load_blocks-IsListed disk inode v in
    (
      disk' disk inode v a b j f de fit,
      sync_dir_entry-run disk inode v a b j f de fit part all run listed (ground arith) small,
      inserted disk inode v a b j f de fit,
      disk'-IsDirectory disk inode v a b j f de fit small,
      same_sector disk inode v a b j f de fit,
    )

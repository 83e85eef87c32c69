-- ===== src/Fs/Write/Found.antt =====
-- fs/file.c, `fileWrite` once it has its blocks: the file is longer by the bytes, and its inode is on the disk.
use gogoos.Common.{
  ℕ, ◌+◌, ◌-◌, ◌*◌, ◌/◌, ◌%◌, ◌^◌, ◌<◌, ◌≤◌, ◌≡◌, ◌≢◌, refl, sym, ap, ap₂, ◌∙◌, true, false, some,
  List, ◌++◌, arith, lt→ltb, ltb-false, length, get_elem?, get_or, u32, dec_lt,
}
use gogoos.Common.Int.{pos}
use gogoos.Fs.{Disk, Inode, max_lba, words}
use gogoos.Fs.BitMaps.{Partition}
use gogoos.Fs.Read.Bytes.{file_bytes, file_bytes-add}
use gogoos.Fs.Read.Blocks.{block_lba, HasBlocks}
use gogoos.Fs.Read.Result.{IsFile, slice}
use gogoos.Fs.InodeSync.Table.{IsTable}
use gogoos.Fs.InodeSync.Written.{IsInode}
use gogoos.Fs.InodeSync.RoundTrip.{stored, inode_sync-stored}
use gogoos.Fs.Sectors.{byte_at, file_bytes-list, file_bytes-same}
use gogoos.Fs.Write.{Writing, done, write_found}
use gogoos.Fs.Write.Loop.{Distinct, Appended, write_loop-Appended}

-- The file has its blocks up to the byte `n`: they are different sectors behind the table of inodes, and
-- not the sector of the file's own table.
pub record IsReady (disk : Disk) (part : Partition) (inode : Inode) (n : ℕ) : Type 0 where
  pub blocks : HasBlocks disk inode.block (n / 512)
  pub sectors :
      (i : ℕ)
      → i * 512 < n
      → (block_lba disk inode.block i < max_lba)
        × (part.inode_table_lba_start + 610 ≤ block_lba disk inode.block i)
  pub distinct : Distinct (block_lba disk inode.block) n
  pub apart :
      12 ≤ n / 512
      → (part.inode_table_lba_start + 610 ≤ get_or inode.block 12 0)
        × ((i : ℕ) → i * 512 < n → get_or inode.block 12 0 ≢ block_lba disk inode.block i)

-- A partition with its table of inodes, and an inode of it that can be written.
pub record IsHome (disk : Disk) (part : Partition) (inode : Inode) : Type 0 where
  pub inode_table : IsTable disk part.inode_table_lba_start
  pub writable : IsInode inode
  pub inside : part.inode_table_lba_start + inode.ino * 76 / 512 ≤ part.lba_start + part.sec_cnt

-- What a write of `src` leaves of a file: the disk, where the inode has the new size.
pub record Wrote (disk : Disk) (part : Partition) (inode : Inode) (src : List ℕ) (disk' : Disk)
    : Type 0 where
  pub file : IsFile disk' (record inode { size = inode.size + length src })
  pub bytes :
      slice disk' (record inode { size = inode.size + length src }) 0 (inode.size + length src)
      ≡ slice disk inode 0 inode.size ++ src
  pub others :
      (s : ℕ)
      → part.inode_table_lba_start + 610 ≤ s
      → ((i : ℕ)
          → inode.size / 512 ≤ i
          → i * 512 < inode.size + length src
          → s ≢ block_lba disk inode.block i)
      → disk' s ≡ disk s
  pub on_disk :
      stored disk' part.inode_table_lba_start inode.ino
      ≡ some (record inode { size = inode.size + length src; open_cnt = 0; write_deny = false })
  pub home : IsHome disk' part (record inode { size = inode.size + length src })

-- `disk1` has the bytes, and `disk2` the inode, too.
module _ (disk disk1 disk2 : Disk) (part : Partition) (inode : Inode) (src : List ℕ) (n : ℕ)
    (e : inode.size + length src ≡ n) (ready : IsReady disk part inode n)
    (whole : (s : ℕ) → length (disk s) ≡ 512)
    (appended : Appended (block_lba disk inode.block) disk disk1 inode.size src)
    (behind : (s : ℕ) → part.inode_table_lba_start + 610 ≤ s → disk2 s ≡ disk1 s) where
  abbrev lba : ℕ → ℕ
  lba = block_lba disk inode.block

  abbrev lba2 : ℕ → ℕ
  lba2 = block_lba disk2 inode.block

  table_same : 12 ≤ n / 512 → disk2 (get_or inode.block 12 0) ≡ disk (get_or inode.block 12 0)
  table_same h =
      behind (get_or inode.block 12 0) (ready.apart h).0
      ∙ appended.elsewhere (get_or inode.block 12 0)
          (λ i lo hi. (ready.apart h).1 i (omega (arith, hi, e)))

  lba_same : (i : ℕ) → i * 512 < n → lba2 i ≡ lba i
  lba_same i lt = elim (dec_lt i 12) [
    | yes few ↦ rw (lt→ltb i 12 few) refl
    | no many ↦
        rw (ltb-false i 12 (omega arith))
          (ap (λ t. get_or (words t) (i - 12) 0) (table_same (omega arith)))
  ]

  sector_same : (i : ℕ) → i * 512 < n → disk2 (lba2 i) ≡ disk1 (lba i)
  sector_same i lt = ap disk2 (lba_same i lt) ∙ behind (lba i) (ready.sectors i lt).1

  byte_same : (k : ℕ) → k < n → byte_at disk2 lba2 k ≡ byte_at disk1 lba k
  byte_same k lt = ap (λ t. get_or t (k % 512) 0) (sector_same (k / 512) (omega arith))

  disk2-IsFile : IsFile disk2 (record inode { size = n })
  disk2-IsFile = record {
    blocks = record {
      thirteen = ready.blocks.thirteen;
      few = ready.blocks.few;
      table = λ h. let t = ready.blocks.table h in (t.0, t.1, ap length (table_same h) ∙ t.2);
    };
    sectors = λ i lt.
        let here = ready.sectors i lt in
        let same = lba_same i lt in
        (
          omega (arith, same, here.0),
          ap length (sector_same i lt) ∙ appended.whole (lba i) (whole (lba i)),
        );
  }

  all_bytes : slice disk2 (record inode { size = n }) 0 n ≡ slice disk inode 0 inode.size ++ src
  all_bytes =
      let start : 0 + inode.size ≡ inode.size = omega arith in
      ap (file_bytes disk2 lba2 0) (sym e)
      ∙ file_bytes-add disk2 lba2 0 inode.size (length src)
      ∙ ap (λ p. file_bytes disk2 lba2 0 inode.size ++ file_bytes disk2 lba2 p (length src)) start
      ∙ ap₂ (λ a b. a ++ b)
          (file_bytes-same disk2 disk lba2 lba 0 inode.size
            (λ k lo hi. byte_same k (omega (arith, hi, e)) ∙ appended.kept k (omega arith)))
          (file_bytes-list disk2 lba2 inode.size src
            (λ i lt. byte_same (inode.size + i) (omega (arith, e, lt)) ∙ appended.added i lt))

-- `fileWrite` puts the bytes into the blocks that it has found.
pub write_found-Wrote :
    (w : Writing) (fd_pos : ℕ) (src : List ℕ)
    → IsHome w.disk w.part w.inode
    → IsReady w.disk w.part w.inode (w.inode.size + length src)
    → ((i : ℕ)
        → w.inode.size / 512 ≤ i
        → i * 512 < w.inode.size + length src
        → get_elem? w.all_blocks i ≡ some (block_lba w.disk w.inode.block i))
    → (disk : Disk) × (write_found (done w) fd_pos src
        ≡ some (record {
          returned = pos (length src);
          disk = disk;
          part = w.part;
          inode = record w.inode { size = w.inode.size + length src };
          fd_pos = u32 (u32 (w.inode.size + 2 ^ 32 - 1) + length src);
        }))
      × Wrote w.disk w.part w.inode src disk
unfolding write_found
write_found-Wrote w fd_pos src home ready listed =
    let n = w.inode.size + length src in
    let few = ready.blocks.few in
    let whole = home.inode_table.whole in
    let lba = block_lba w.disk w.inode.block in
    let (disk1, run1, appended) =
      write_loop-Appended lba (length src) true w.disk w.all_blocks w.inode.size n
        (u32 (w.inode.size + 2 ^ 32 - 1)) src (omega arith) refl (omega arith) (omega arith)
        (λ q. cc)
        (λ i lo hi. record {
          listed = listed i lo hi;
          on_disk = (ready.sectors i hi).0;
          whole = whole (lba i);
        })
        ready.distinct in
    let fit : IsInode (record w.inode { size = n }) = record {
      numbered = home.writable.numbered;
      sized = omega (arith, few);
      thirteen = home.writable.thirteen;
      words_lt = home.writable.words_lt;
    } in
    let v1 : IsTable disk1 w.part.inode_table_lba_start = record {
      whole = λ s. appended.whole s (whole s);
      low = home.inode_table.low;
    } in
    let (disk2, run2, kept, same, whole2, before, behind) =
      inode_sync-stored disk1 w.part (record w.inode { size = n }) v1 fit home.inside in
    (
      disk2,
      rw (run1, run2) refl,
      record {
        file =
            disk2-IsFile w.disk disk1 disk2 w.part w.inode src n refl ready whole appended behind;
        bytes = all_bytes w.disk disk1 disk2 w.part w.inode src n refl ready whole appended behind;
        others = λ s far apart. behind s far ∙ appended.elsewhere s apart;
        on_disk = kept;
        home = record {
          inode_table = record { whole = whole2; low = home.inode_table.low };
          writable = fit;
          inside = home.inside;
        };
      },
    )

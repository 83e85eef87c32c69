-- ===== src/Fs/Write/Small.antt =====
-- fs/file.c, `fileWrite` on a file that has a block and stays below twelve.
use gogoos.Common.{
  ℕ, ◌+◌, ◌-◌, ◌/◌, ◌%◌, ◌^◌, ◌<◌, ◌≡◌, ◌⊎◌, inl, refl, sym, ap, ◌∙◌, true, false, some, List, ◌++◌,
  arith, lt→ltb, length, get_or, u32,
}
use gogoos.Common.Int.{pos}
use gogoos.Fs.{Disk, Inode}
use gogoos.Fs.BitMaps.{Partition}
use gogoos.Fs.Read.{file_read}
use gogoos.Fs.Read.Blocks.{block_lba}
use gogoos.Fs.Read.Result.{slice, file_read-all}
use gogoos.Fs.InodeSync.RoundTrip.{stored}
use gogoos.Fs.Sectors.{file_bytes-same}
use gogoos.Fs.Write.{Writing, done, WriteResult, find_blocks, write_blocks}
use gogoos.Fs.Write.Space.{HasRoom, IsLayout}
use gogoos.Fs.Write.Blocks.{HasDirect}
use gogoos.Fs.Write.Direct.{advanced, Advance, find_blocks-HasDirect}
use gogoos.Fs.Write.Found.{IsReady, IsHome, write_found-Wrote}

block_lba_direct :
    (disk : Disk) (block : List ℕ) (i : ℕ) → i < 12 → block_lba disk block i ≡ get_or block i 0
block_lba_direct disk block i lt = rw (lt→ltb i 12 lt) refl

-- a file of `b` blocks: an empty file may have none
abbrev pub HasBlocksUpTo : Partition → Inode → ℕ → Type 0
HasBlocksUpTo part inode b =
    HasDirect part.data_lba_start part.block_bit_map inode.block b
    × ((b ≡ inode.size / 512 + 1) ⊎ ((b ≡ 0) × (inode.size ≡ 0)))

HasDirect-IsReady :
    (disk : Disk) (part : Partition) (inode : Inode) (n : ℕ)
    → IsLayout part
    → n < 6144
    → HasDirect part.data_lba_start part.block_bit_map inode.block (n / 512 + 1)
    → IsReady disk part inode n
HasDirect-IsReady disk part inode n lay few v =
    let last = lay.data_last in
    record {
      blocks = record {
        thirteen = v.thirteen;
        few = omega arith;
        table = λ h. absurd (omega arith);
      };
      sectors = λ i lt.
          let e = block_lba_direct disk inode.block i (omega arith) in
          let u = v.used i (omega arith) in (omega (arith, e, u.1), omega (arith, e, u.0));
      distinct = λ i j li lj e. v.distinct i j (omega arith) (omega arith) (
          sym (block_lba_direct disk inode.block i (omega arith))
          ∙ e
          ∙ block_lba_direct disk inode.block j (omega arith));
      apart = λ h. absurd (omega arith);
    }

-- What `fileWrite` returns and leaves when it has written all of `src`.
pub record IsWritten (disk : Disk) (part : Partition) (inode : Inode) (src : List ℕ)
    (r : WriteResult) : Type 0 where
  pub returned_all : r.returned ≡ pos (length src)
  pub grown : r.inode.size ≡ inode.size + length src
  pub home : IsHome r.disk r.part r.inode
  pub layout : IsLayout r.part
  pub blocks : HasBlocksUpTo r.part r.inode ((inode.size + length src) / 512 + 1)
  pub reads :
      file_read r.disk r.inode true 0 (inode.size + length src)
      ≡ some (record {
        returned = pos (inode.size + length src);
        bytes = slice disk inode 0 inode.size ++ src;
        fd_pos = inode.size + length src;
      })
  pub on_disk :
      stored r.disk part.inode_table_lba_start inode.ino
      ≡ some (record r.inode { open_cnt = 0; write_deny = false })

-- The file has its first block.
module _ (w : Writing) (fd_pos : ℕ) (src : List ℕ) (home : IsHome w.disk w.part w.inode)
    (lay : IsLayout w.part)
    (v : HasDirect w.part.data_lba_start w.part.block_bit_map w.inode.block
      (w.inode.size / 512 + 1))
    (entries : length w.all_blocks ≡ 140) (few : w.inode.size + length src < 6144)
    (space : HasRoom w.part.block_bit_map
      ((w.inode.size + length src) / 512 - w.inode.size / 512)) where
  abbrev used : ℕ
  used = w.inode.size / 512

  abbrev n : ℕ
  n = w.inode.size + length src

  abbrev more : ℕ
  more = n / 512 - used

  -- The bytes of the file are where they were.
  bytes_kept :
      (disk : Disk) (block : List ℕ)
      → Advance w (used + 1) disk block
      → slice disk (record w.inode { block = block }) 0 w.inode.size
        ≡ slice w.disk w.inode 0 w.inode.size
  bytes_kept disk block a =
      file_bytes-same disk w.disk (block_lba disk block) (block_lba w.disk w.inode.block) 0
        w.inode.size
        (λ k lo hi.
          let last = lay.data_last in
          let at_block = v.used (k / 512) (omega arith) in
          let same : block_lba disk block (k / 512) ≡ block_lba w.disk w.inode.block (k / 512) =
            block_lba_direct disk block (k / 512) (omega arith)
            ∙ a.older (k / 512) (omega arith)
            ∙ sym (block_lba_direct w.disk w.inode.block (k / 512) (omega arith)) in
          let here = block_lba_direct w.disk w.inode.block (k / 512) (omega arith) in
          ap (λ t. get_or (disk t) (k % 512) 0) same
          ∙ ap (λ t. get_or t (k % 512) 0)
              (a.same (block_lba w.disk w.inode.block (k / 512))
                (omega (arith, here, at_block.0, last))))

  pub write_blocks-IsWritten :
      (r : WriteResult) × (write_blocks (done w) fd_pos src ≡ some r)
      × IsWritten w.disk w.part w.inode src r
  unfolding write_blocks
  write_blocks-IsWritten =
      let e : used + more ≡ n / 512 = omega arith in
      let (disk1, bm, block, all, run1, v1, l1, a) =
        find_blocks-HasDirect more w used v entries space lay (omega arith) in
      let v2 : HasDirect w.part.data_lba_start bm block (n / 512 + 1) = rw e at v1 in
      let w1 = advanced w disk1 bm block all in
      let home1 : IsHome w1.disk w1.part w1.inode = record {
        inode_table = record { whole = a.whole home.inode_table.whole; low = home.inode_table.low };
        writable = record {
          numbered = home.writable.numbered;
          sized = home.writable.sized;
          thirteen = v1.thirteen;
          words_lt = v1.words_lt;
        };
        inside = home.inside;
      } in
      let lay1 : IsLayout w1.part = record {
        map_first = lay.map_first;
        data_last = lay.data_last;
        on_disk = lay.on_disk;
      } in
      let (disk2, run2, wrote) =
        write_found-Wrote w1 fd_pos src home1
          (HasDirect-IsReady disk1 w1.part w1.inode n lay1 few v2)
          (λ i lo hi.
            l1.listed i lo (omega arith)
            ∙ ap some (sym (block_lba_direct disk1 block i (omega arith)))) in
      let found = ap (λ t. find_blocks w used t) (sym e) ∙ run1 in
      let total : u32 (w.inode.size + length src) ≡ n = omega arith in
      (
        record {
          returned = pos (length src);
          disk = disk2;
          part = w1.part;
          inode = record w1.inode { size = n };
          fd_pos = u32 (u32 (w.inode.size + 2 ^ 32 - 1) + length src);
        },
        rw (total, lt→ltb (n / 512) 140 (omega arith), found) run2,
        record {
          returned_all = refl;
          grown = refl;
          home = wrote.home;
          layout = lay1;
          blocks = (v2, inl refl);
          reads =
              file_read-all disk2 (record w1.inode { size = n })
                (slice w.disk w.inode 0 w.inode.size ++ src) wrote.file
                (wrote.bytes ∙ ap (λ t. t ++ src) (bytes_kept disk1 block a));
          on_disk = wrote.on_disk;
        },
      )

-- ===== src/Fs/Write/RoundTrip.antt =====
-- fs/file.c: what `fileWrite` writes behind a file, `fileRead` reads.
use mathlib.Core.Path.{subst}
use gogoos.Common.{
  ℕ, suc, ◌+◌, ◌-◌, ◌*◌, ◌/◌, ◌<◌, ◌≤◌, ◌≡◌, inl, inr, refl, ap, ◌∙◌, true, some, List, ◌++◌, arith,
  ==_false, ltb-false, length, get_or, get_elem?-get_or, u32,
}
use gogoos.Common.Int.{pos}
use gogoos.Fs.{Disk, Inode}
use gogoos.Fs.BitMaps.{Partition}
use gogoos.Fs.Read.{cleared}
use gogoos.Fs.Read.Blocks.{block_lba, length-cleared}
use gogoos.Fs.Sectors.{file_bytes-same}
use gogoos.Fs.Write.{Writing, Attempt, done, WriteResult, first_block, write_blocks, file_write}
use gogoos.Fs.Write.Space.{HasRoom, IsLayout}
use gogoos.Fs.Write.Blocks.{HasDirect}
use gogoos.Fs.Write.Direct.{advanced, first_block-HasDirect}
use gogoos.Fs.Write.Small.{HasBlocksUpTo, IsWritten, write_blocks-IsWritten}
use gogoos.Fs.Write.Found.{IsHome}

-- The same where an empty file gets its first block.
write_first-IsWritten :
    (w : Writing) (fd_pos : ℕ) (src : List ℕ)
    → IsHome w.disk w.part w.inode
    → IsLayout w.part
    → HasDirect w.part.data_lba_start w.part.block_bit_map w.inode.block 0
    → w.inode.size ≡ 0
    → length w.all_blocks ≡ 140
    → w.inode.size + length src < 6144
    → HasRoom w.part.block_bit_map (suc ((w.inode.size + length src) / 512))
    → (started : Attempt) × (r : WriteResult) × (first_block w ≡ some started)
      × (write_blocks started fd_pos src ≡ some r)
      × IsWritten w.disk w.part w.inode src r
write_first-IsWritten w fd_pos src home lay v empty entries few space =
    let (disk1, bm, block, run, v1, space1, a) =
      first_block-HasDirect w ((w.inode.size + length src) / 512) v space lay in
    let w1 = advanced w disk1 bm block w.all_blocks in
    let home1 : IsHome w1.disk w1.part w1.inode = record {
      inode_table = record { whole = a.whole home.inode_table.whole; low = home.inode_table.low };
      writable = record {
        numbered = home.writable.numbered;
        sized = home.writable.sized;
        thirteen = v1.thirteen;
        words_lt = v1.words_lt;
      };
      inside = home.inside;
    } in
    let lay1 : IsLayout w1.part = record {
      map_first = lay.map_first;
      data_last = lay.data_last;
      on_disk = lay.on_disk;
    } in
    let one : 1 ≡ w.inode.size / 512 + 1 = omega arith in
    let rest : (w.inode.size + length src) / 512
        ≡ (w.inode.size + length src) / 512 - w.inode.size / 512 =
      omega arith in
    let (r, run2, done_all) =
      write_blocks-IsWritten w1 fd_pos src home1 lay1
        (subst (λ b. HasDirect w.part.data_lba_start bm block b) one v1) entries few
        (subst (HasRoom bm) rest space1) in
    (
      done w1,
      r,
      run,
      run2,
      record {
        returned_all = done_all.returned_all;
        grown = done_all.grown;
        home = done_all.home;
        layout = done_all.layout;
        blocks = done_all.blocks;
        reads =
            done_all.reads
            ∙ ap
                (λ t. some (record {
                  returned = pos (w.inode.size + length src);
                  bytes = t ++ src;
                  fd_pos = w.inode.size + length src;
                }))
                (file_bytes-same disk1 w.disk (block_lba disk1 block)
                  (block_lba w.disk w.inode.block) 0 w.inode.size
                  (λ k lo hi. absurd (omega arith)));
        on_disk = done_all.on_disk;
      },
    )

-- A file with a block starts with it.
first_block-done :
    (w : Writing) (b : ℕ)
    → HasDirect w.part.data_lba_start w.part.block_bit_map w.inode.block b
    → IsLayout w.part
    → 0 < b
    → first_block w ≡ some (done w)
unfolding first_block
first_block-done w b v lay some_block =
    let first = lay.map_first in
    let last = lay.data_last in
    let here = v.used 0 some_block in
    rw
      (
        get_elem?-get_or w.inode.block 0 0 (omega (arith, v.thirteen)),
        ==_false (get_or w.inode.block 0 0) 0 (omega (arith, here.0, first, last)),
      )
      refl

file_write-first :
    (disk : Disk) (part : Partition) (inode : Inode) (fd_pos : ℕ) (src : List ℕ) (started : Attempt)
    (r : WriteResult)
    → inode.size + length src ≤ 71680
    → first_block (record { disk = disk; part = part; inode = inode; all_blocks = cleared })
      ≡ some started
    → write_blocks started fd_pos src ≡ some r
    → file_write disk part inode true fd_pos src ≡ some r
unfolding file_write
file_write-first disk part inode fd_pos src started r le first run =
    let total : u32 (inode.size + length src) ≡ inode.size + length src = omega arith in
    rw (total, ltb-false (512 * 140) (inode.size + length src) (omega arith), first) run

-- the blocks that a write takes
abbrev pub new_blocks : Inode → (b : ℕ) → (src : List ℕ) → ℕ
new_blocks inode b src = (inode.size + length src) / 512 + 1 - b

-- `fileWrite` with memory, on a file below twelve blocks that is to stay below them, where the table of inodes
-- is whole and on the disk, and the blocks of the file are different sectors of the data in use: if below bit 512
-- of the map there is a free bit for every new block, it returns the count. `fileRead` then reads the old bytes
-- with the new ones behind them, `inodeOpen` reads the inode with the new size and blocks, and what has been
-- required of the file holds again.
pub file_write-IsWritten :
    (disk : Disk) (part : Partition) (inode : Inode) (b fd_pos : ℕ) (src : List ℕ)
    → IsHome disk part inode
    → IsLayout part
    → HasBlocksUpTo part inode b
    → inode.size + length src < 6144
    → HasRoom part.block_bit_map (new_blocks inode b src)
    → (r : WriteResult) × (file_write disk part inode true fd_pos src ≡ some r)
      × IsWritten disk part inode src r
file_write-IsWritten disk part inode b fd_pos src home lay (v, inl e) few space =
    let w : Writing = record { disk = disk; part = part; inode = inode; all_blocks = cleared } in
    let rest : new_blocks inode b src ≡ (inode.size + length src) / 512 - inode.size / 512 =
      omega (arith, e) in
    let (r, run, ok) =
      write_blocks-IsWritten w fd_pos src home lay
        (subst (λ t. HasDirect part.data_lba_start part.block_bit_map inode.block t) e v)
        length-cleared few (subst (HasRoom part.block_bit_map) rest space) in
    let started = first_block-done w b v lay (omega (arith, e)) in
    (r, file_write-first disk part inode fd_pos src (done w) r (omega arith) started run, ok)
file_write-IsWritten disk part inode b fd_pos src home lay (v, inr (e, empty)) few space =
    let w : Writing = record { disk = disk; part = part; inode = inode; all_blocks = cleared } in
    let rest : new_blocks inode b src ≡ suc ((inode.size + length src) / 512) = omega (arith, e) in
    let (started, r, first, run, ok) =
      write_first-IsWritten w fd_pos src home lay
        (subst (λ t. HasDirect part.data_lba_start part.block_bit_map inode.block t) e v) empty
        length-cleared few (subst (HasRoom part.block_bit_map) rest space) in
    (r, file_write-first disk part inode fd_pos src started r (omega arith) first run, ok)

-- ===== src/Fs/Write/Direct.antt =====
-- fs/file.c, `fileWrite`: the search for the blocks of a file that stays below the table.
use gogoos.Common.{
  ℕ, zero, suc, ◌+◌, ◌-◌, ◌^◌, ◌<◌, ◌≤◌, ◌≡◌, refl, ◌∙◌, some, List, arith, ==_refl, ==_false,
  lt→ltb, length, get_or, set, length-set, get_elem?-get_or, get_elem?-set_self, u32, minus_one,
  ℕ_discrete,
}
use gogoos.Structure.BitMap.{BitMap}
use gogoos.Fs.{Disk}
use gogoos.Fs.Write.{Writing, done, sync_nonzero, first_block, put_direct, add_blocks, find_blocks}
use gogoos.Fs.Write.Space.{HasRoom, IsLayout, Taken, block_bit_map_alloc-Taken, bit_map_sync_lem}
use gogoos.Fs.Write.Blocks.{HasDirect, IsListed, set-HasDirect, set-IsListed, at_other}

-- `w` with another disk, map of blocks, block list and `allBlocks`
abbrev pub advanced : Writing → Disk → BitMap → (block all_blocks : List ℕ) → Writing
advanced w disk bm block all_blocks = record {
  disk = disk;
  part = record w.part { block_bit_map = bm };
  inode = record w.inode { block = block };
  all_blocks = all_blocks;
}

-- The sectors from the table of inodes on are as before, and so are the first `b` blocks of the list.
pub record Advance (w : Writing) (b : ℕ) (disk : Disk) (block : List ℕ) : Type 0 where
  pub same : (s : ℕ) → w.part.inode_table_lba_start ≤ s → disk s ≡ w.disk s
  pub whole : ((s : ℕ) → length (w.disk s) ≡ 512) → (s : ℕ) → length (disk s) ≡ 512
  pub older : (i : ℕ) → i < b → get_or block i 0 ≡ get_or w.inode.block i 0

sync_nonzero_lem :
    (w : Writing) (r room : ℕ)
    → HasRoom w.part.block_bit_map room
    → IsLayout w.part
    → r < 512
    → 0 < r
    → (disk : Disk) × (sync_nonzero w (w.part.data_lba_start + r) ≡ some (record w { disk = disk }))
      × (((s : ℕ) → length (w.disk s) ≡ 512) → (s : ℕ) → length (disk s) ≡ 512)
      × ((s : ℕ) → w.part.inode_table_lba_start ≤ s → disk s ≡ w.disk s)
sync_nonzero_lem w r room v lay low pos =
    let on_disk = lay.on_disk in
    let idx : u32 (w.part.data_lba_start + r + 2 ^ 32 - w.part.data_lba_start) ≡ r =
      omega (arith, low, on_disk) in
    let (disk, run, whole, same) = bit_map_sync_lem w.disk w.part r room v lay low in
    (disk, rw (idx, ==_false r 0 (omega arith), run) refl, whole, same)

-- Bit 0 is in use, so it is not taken.
Taken-pos : (bm bm' : BitMap) (k r : ℕ) → HasRoom bm (suc k) → Taken bm k r bm' → 0 < r
Taken-pos bm bm' k r v t = elim (ℕ_discrete r 0) [
  | no ne ↦ omega arith
  | yes e ↦ absurd (let free = rw e at t.was_free in omega (arith, v.root, free))
]

-- An empty file gets a block.
pub first_block-HasDirect :
    (w : Writing) (k : ℕ)
    → HasDirect w.part.data_lba_start w.part.block_bit_map w.inode.block 0
    → HasRoom w.part.block_bit_map (suc k)
    → IsLayout w.part
    → (disk : Disk) × (bm : BitMap) × (block : List ℕ) × (first_block w
        ≡ some (done (advanced w disk bm block w.all_blocks)))
      × HasDirect w.part.data_lba_start bm block 1
      × HasRoom bm k
      × Advance w 0 disk block
unfolding first_block
first_block-HasDirect w k v space lay =
    let d = w.part.data_lba_start in
    let on_disk = lay.on_disk in
    let (r, bm, run, t) = block_bit_map_alloc-Taken w.part k space lay in
    let low = t.low in
    let block = set w.inode.block 0 (d + r) in
    let (disk, sync, whole, same) =
      sync_nonzero_lem (advanced w w.disk bm block w.all_blocks) r k t.room
        (record { map_first = lay.map_first; data_last = lay.data_last; on_disk = lay.on_disk }) low
        (Taken-pos w.part.block_bit_map bm k r space t) in
    let head = get_elem?-get_or w.inode.block 0 0 (omega (arith, v.thirteen)) in
    (
      disk,
      bm,
      block,
      rw
          (
            head,
            v.empty 0 (omega arith) (omega arith),
            run,
            ==_false (d + r) minus_one (omega (arith, low, on_disk)),
            sync,
          )
          refl,
      set-HasDirect d w.part.block_bit_map bm w.inode.block 0 k r v t (omega arith) lay.on_disk,
      t.room,
      record { same = same; whole = whole; older = λ i lt. absurd (omega arith) },
    )

-- Rounds of the loop.
pub add_blocks-HasDirect :
    (n b : ℕ) (w : Writing) (from : ℕ)
    → HasDirect w.part.data_lba_start w.part.block_bit_map w.inode.block b
    → IsListed w.inode.block w.all_blocks from b
    → HasRoom w.part.block_bit_map n
    → IsLayout w.part
    → b + n ≤ 12
    → (disk : Disk) × (bm : BitMap) × (block : List ℕ) × (all : List ℕ) × (add_blocks put_direct n b
          w
        ≡ some (done (advanced w disk bm block all)))
      × HasDirect w.part.data_lba_start bm block (b + n)
      × IsListed block all from (b + n)
      × Advance w b disk block
unfolding add_blocks
add_blocks-HasDirect zero b w from v l space lay few =
    let e : b + 0 ≡ b = omega arith in
    (
      w.disk,
      w.part.block_bit_map,
      w.inode.block,
      w.all_blocks,
      refl,
      rw (e) v,
      rw (e) l,
      record { same = λ s le. refl; whole = λ h. h; older = λ i lt. refl },
    )
add_blocks-HasDirect (suc n) b w from v l space lay few =
    let d = w.part.data_lba_start in
    let on_disk = lay.on_disk in
    let (r, bm1, run, t) = block_bit_map_alloc-Taken w.part n space lay in
    let low = t.low in
    let block1 = set w.inode.block b (d + r) in
    let all1 = set w.all_blocks b (d + r) in
    let lay1 : IsLayout (record w.part { block_bit_map = bm1 }) = record {
      map_first = lay.map_first;
      data_last = lay.data_last;
      on_disk = lay.on_disk;
    } in
    let (disk1, sync, whole1, same1) =
      sync_nonzero_lem (advanced w w.disk bm1 block1 all1) r n t.room lay1 low
        (Taken-pos w.part.block_bit_map bm1 n r space t) in
    let v1 =
      set-HasDirect d w.part.block_bit_map bm1 w.inode.block b n r v t (omega arith) lay.on_disk in
    let l1 = set-IsListed w.inode.block b (d + r) v.thirteen (omega arith) w.all_blocks from l in
    let (disk, bm, block, all, rest, v2, l2, a) =
      add_blocks-HasDirect n (b + 1) (advanced w disk1 bm1 block1 all1) from v1 l1 t.room lay1
        (omega arith) in
    let e : b + suc n ≡ b + 1 + n = omega arith in
    let free = get_elem?-get_or w.inode.block b 0 (omega (arith, v.thirteen)) in
    (
      disk,
      bm,
      block,
      all,
      rw
          (
            run,
            ==_false (d + r) minus_one (omega (arith, low, on_disk)),
            free,
            v.empty b (omega arith) (omega arith),
            sync,
          )
          rest,
      rw (e) v2,
      rw (e) l2,
      record {
        same = λ s le. a.same s le ∙ same1 s le;
        whole = λ h. a.whole (whole1 h);
        older = λ i lt.
            a.older i (omega arith)
            ∙ at_other w.inode.block b (d + r) v.thirteen (omega arith) i (λ q. omega (arith, q));
      },
    )

-- The blocks are found, or taken, up to the one where the file is going to end.
pub find_blocks-HasDirect :
    (more : ℕ) (w : Writing) (used : ℕ)
    → HasDirect w.part.data_lba_start w.part.block_bit_map w.inode.block (used + 1)
    → length w.all_blocks ≡ 140
    → HasRoom w.part.block_bit_map more
    → IsLayout w.part
    → used + more < 12
    → (disk : Disk) × (bm : BitMap) × (block : List ℕ) × (all : List ℕ) × (find_blocks w used
          (used + more)
        ≡ some (done (advanced w disk bm block all)))
      × HasDirect w.part.data_lba_start bm block (used + more + 1)
      × IsListed block all used (used + more + 1)
      × Advance w (used + 1) disk block
unfolding find_blocks
find_blocks-HasDirect more w used v len space lay few =
    let all1 = set w.all_blocks used (get_or w.inode.block used 0) in
    let here = get_elem?-get_or w.inode.block used 0 (omega (arith, v.thirteen)) in
    let at_end = v.used used (omega arith) in
    let first = lay.map_first in
    let last = lay.data_last in
    let nonzero = ==_false (get_or w.inode.block used 0) 0 (omega (arith, at_end.0, first, last)) in
    let l : IsListed w.inode.block all1 used (used + 1) = record {
      entries = length-set w.all_blocks used (get_or w.inode.block used 0) ∙ len;
      listed = λ i lo hi.
          let e : i ≡ used = omega arith in
          rw (e) (
            get_elem?-set_self w.all_blocks used (get_or w.inode.block used 0)
              (omega (arith, len)));
    } in
    elim (ℕ_discrete more 0) [
      | yes z ↦
          let e : used + more ≡ used = omega arith in
          (
            w.disk,
            w.part.block_bit_map,
            w.inode.block,
            all1,
            rw (e, ==_refl used, lt→ltb used 12 (omega arith), here, nonzero) refl,
            rw (e) v,
            rw (e) l,
            record { same = λ s le. refl; whole = λ h. h; older = λ i lt. refl },
          )
      | no nz ↦
          let (disk, bm, block, all, run, v2, l2, a) =
            add_blocks-HasDirect more (used + 1) (record w { all_blocks = all1 }) used v l space lay
              (omega arith) in
          let rounds : used + more - used ≡ more = omega arith in
          let e : used + 1 + more ≡ used + more + 1 = omega arith in
          (
            disk,
            bm,
            block,
            all,
            rw
                (
                  ==_false (used + more) used (omega arith),
                  lt→ltb (used + more) 12 few,
                  here,
                  nonzero,
                  rounds,
                )
                run,
            rw e at v2,
            rw e at l2,
            record { same = a.same; whole = a.whole; older = a.older },
          )
    ]

-- ===== src/Fs/Release/Freed.antt =====
-- fs/inode.c: which bits `inodeRelease` clears.
use gogoos.Common.{
  true, ℕ, ◌<◌, ◌≡◌, refl, ◌∙◌, Bool, false, ◌||◌, some, List, arith, ◌==◌, ==_false, ==_iff,
  lt→ltb, length, get_elem?, get_or, get_elem?-get_or, ℕ_discrete,
}
use gogoos.Structure.BitMap.{BitMap}
use gogoos.Structure.BitMap.Valid.{updated, updated-IsValid, bit_map_set_lem, bit_at-updated}
use gogoos.Fs.{Disk, Inode}
use gogoos.Fs.BitMaps.{Partition, inode_bitmap}
use gogoos.Fs.BitMaps.Sync.{bit_map_sync-sector}
use gogoos.Fs.OpenFiles.{Files, inode_open, inode_close}
use gogoos.Fs.Read.Blocks.{block_lba}
use gogoos.Fs.Dir.Loaded.{IsTable, cnt, load_blocks-listed}
use gogoos.Fs.Release.{free_table, free_ino, release_blocks, inode_release}
use gogoos.Fs.Release.Cleared.{
  is_of, is_of_any, IsMap, IsOurs, IsCleared, free_block-IsCleared, IsMap-IsCleared, IsCleared-both,
  missing, free_blocks-IsCleared,
}

-- An inode of the partition, whose blocks have the indexes 1 to 511 in the map.
pub record IsReleasable (disk : Disk) (part : Partition) (inode : Inode) : Type 0 where
  pub thirteen : length inode.block ≡ 13
  pub table : IsTable disk inode
  pub ours : (i : ℕ) → i < 13 → IsOurs part.data_lba_start (get_or inode.block i 0)
  pub numbered : inode.ino < 512
  pub block_map : IsMap part.block_bit_map part.block_bit_map_lba_start
  pub inode_map : IsMap part.inode_bit_map part.inode_bit_map_lba_start

-- the bits of the table and of the twelve direct blocks
abbrev pub is_of_inode : (data_lba_start : ℕ) → Inode → (j : ℕ) → Bool
is_of_inode data_lba_start inode j =
    is_of data_lba_start (get_or inode.block 12 0) j || is_of_any data_lba_start inode.block 12 0 j

-- What `inodeRelease` leaves of the maps.
pub record IsReleased (part : Partition) (inode : Inode) (part' : Partition) : Type 0 where
  pub blocks :
      IsCleared part.block_bit_map part'.block_bit_map (is_of_inode part.data_lba_start inode)
  pub inodes : IsCleared part.inode_bit_map part'.inode_bit_map (λ j. inode.ino == j)

free_table-IsCleared :
    (disk : Disk) (part : Partition) (inode : Inode)
    → IsReleasable disk part inode
    → (disk' : Disk) × (bm : BitMap) × (free_table disk part inode
        ≡ some (disk', record part { block_bit_map = bm }))
      × IsCleared part.block_bit_map bm (is_of part.data_lba_start (get_or inode.block 12 0))
unfolding free_table
free_table-IsCleared disk part inode v =
    let t = get_or inode.block 12 0 in
    let last = get_elem?-get_or inode.block 12 0 (omega (arith, v.thirteen)) in
    elim (ℕ_discrete t 0) [
      | yes z ↦ (
        disk,
        part.block_bit_map,
        rw (last, (==_iff t 0).1 z) refl,
        record {
          valid = v.block_map.valid;
          size = refl;
          bits = λ j. rw (missing part.data_lba_start j t z) refl;
        },
      )
      | no nz ↦
          let (disk', bm, run, c) =
            free_block-IsCleared disk part t v.block_map (v.ours 12 (omega arith)) nz in
          (disk', bm, rw (last, ==_false t 0 nz) run, c)
    ]

free_ino-IsCleared :
    (disk : Disk) (part : Partition) (ino : ℕ)
    → IsMap part.inode_bit_map part.inode_bit_map_lba_start
    → ino < 512
    → (disk' : Disk) × (bm : BitMap) × (free_ino disk part ino
        ≡ some (disk', record part { inode_bit_map = bm }))
      × IsCleared part.inode_bit_map bm (λ j. ino == j)
unfolding free_ino
free_ino-IsCleared disk part ino v few =
    let bm = part.inode_bit_map in
    let long = v.long in
    let low = v.low in
    let bm' = updated bm ino false in
    let valid' = updated-IsValid bm ino false v.valid in
    let enough = valid'.inside in
    let clear = bit_map_set_lem bm ino false v.valid (omega (arith, few, long)) in
    let (disk', sync, _, _, _, _) =
      bit_map_sync-sector disk (record part { inode_bit_map = bm' }) ino inode_bitmap
        (omega (arith, few, low)) (omega (arith, few, long, enough)) in
    (
      disk',
      bm',
      rw (clear, sync) refl,
      record {
        valid = valid';
        size = refl;
        bits = λ j. bit_at-updated bm ino false j v.valid (omega (arith, few, long));
      },
    )

release_blocks-IsReleased :
    (disk : Disk) (part : Partition) (inode : Inode)
    → IsReleasable disk part inode
    → (disk' : Disk) × (part' : Partition) × (release_blocks disk part inode ≡ some (disk', part'))
      × IsReleased part inode part'
unfolding release_blocks
release_blocks-IsReleased disk part inode v =
    let d = part.data_lba_start in
    let (all, loaded, _, listed) = load_blocks-listed disk inode v.thirteen v.table in
    let (disk1, bm1, run1, c1) = free_table-IsCleared disk part inode v in
    let part1 = record part { block_bit_map = bm1 } in
    let v1 =
      IsMap-IsCleared part.block_bit_map bm1 part.block_bit_map_lba_start
        (is_of d (get_or inode.block 12 0)) v.block_map c1 in
    let (disk2, bm2, run2, c2) =
      free_blocks-IsCleared 12 0 all inode.block disk1 part1 v1
        (λ i lo hi. (direct all listed i (omega arith), v.ours i (omega arith))) in
    let part2 = record part1 { block_bit_map = bm2 } in
    let (disk3, im, run3, c3) = free_ino-IsCleared disk2 part2 inode.ino v.inode_map v.numbered in
    (
      disk3,
      record part2 { inode_bit_map = im },
      rw (loaded, run1, run2) run3,
      record {
        blocks =
            IsCleared-both part.block_bit_map bm1 bm2 (is_of d (get_or inode.block 12 0))
              (is_of_any d inode.block 12 0) c1 c2;
        inodes = c3;
      },
    )
  where
    direct :
        (all : List ℕ)
        → ((i : ℕ) → i < cnt inode → get_elem? all i ≡ some (block_lba disk inode.block i))
        → (i : ℕ) → i < 12
        → get_elem? all i ≡ some (get_or inode.block i 0)
    direct all listed i lt = listed i (ground arith) ∙ (let few = lt→ltb i 12 lt in rw few refl)

inode_release-run :
    (disk disk' : Disk) (part part' : Partition) (fresh : ℕ) (m m1 : Files) (ino at : ℕ)
    → inode_open disk part.inode_table_lba_start fresh m ino ≡ some (at, m1)
    → (m1.inodes at).ino ≡ ino
    → release_blocks disk part (m1.inodes at) ≡ some (disk', part')
    → inode_release disk part fresh true m ino ≡ some (disk', (part', inode_close m1 at))
unfolding inode_release
inode_release-run disk disk' part part' fresh m m1 ino at opened found run =
    rw (opened, (==_iff (m1.inodes at).ino ino).1 found, run) refl

-- `inodeRelease`, where `inodeOpen` gives the inode and the allocation of `allBlocks` succeeds, does not fault on an
-- inode whose table, if it has one, is a whole sector of the disk, whose number is among the first 512 of its map, and
-- whose blocks and table have the indexes 1 to 511 of theirs; each map has a sector or more and starts on the disk.
-- A block with the index 0, where the code has an assertion, is left out. In the map of blocks it clears the bits
-- of the table and of the twelve direct blocks, and no other: those of the blocks that stand in the table stay set.
-- In the map of inodes it clears the bit of the number alone, and the inode is closed.
pub inode_release-IsReleased :
    (disk : Disk) (part : Partition) (fresh : ℕ) (m m1 : Files) (ino at : ℕ)
    → inode_open disk part.inode_table_lba_start fresh m ino ≡ some (at, m1)
    → (m1.inodes at).ino ≡ ino
    → IsReleasable disk part (m1.inodes at)
    → (disk' : Disk) × (part' : Partition) × (inode_release disk part fresh true m ino
        ≡ some (disk', (part', inode_close m1 at)))
      × IsReleased part (m1.inodes at) part'
inode_release-IsReleased disk part fresh m m1 ino at opened found v =
    let (disk', part', run, released) = release_blocks-IsReleased disk part (m1.inodes at) v in
    (
      disk',
      part',
      inode_release-run disk disk' part part' fresh m m1 ino at opened found run,
      released,
    )

-- ===== src/Fs/Dir/Loaded.antt =====
-- fs/dir.c: `allBlocks` holds the blocks of the inode.
use gogoos.Common.{
  ℕ, ◌<◌, ◌≡◌, ◌≢◌, refl, ◌==◌, ==_false, some, List, arith, if◌then◌else◌, get_elem?, get_or,
  length, get_elem?-get_or, ℕ_discrete,
}
use gogoos.Fs.{Disk, Inode, max_lba}
use gogoos.Fs.Read.{cleared, copy_blocks, read_table}
use gogoos.Fs.Read.Blocks.{
  block_lba, HasBlocks, copy_blocks-Filled, read_table-Filled, length-cleared,
}
use gogoos.Fs.Dir.{load_blocks, block_cnt}

-- how many blocks `dirRead` looks at
abbrev pub cnt : Inode → ℕ
cnt inode = if get_or inode.block 12 0 == 0 then 12 else 140

-- The table of the inode, if it has one, is a sector of the disk.
abbrev pub IsTable : Disk → Inode → Type 0
IsTable disk inode =
    get_or inode.block 12 0 ≢ 0
    → (get_or inode.block 12 0 < max_lba) × (length (disk (get_or inode.block 12 0)) ≡ 512)

module _ (disk : Disk) (inode : Inode) (thirteen : length inode.block ≡ 13)
    (table : IsTable disk inode) where
  load_blocks-read_table :
      (all all' : List ℕ)
      → copy_blocks 12 0 inode.block cleared ≡ some all
      → read_table disk inode.block all ≡ some all'
      → get_or inode.block 12 0 ≢ 0
      → load_blocks disk inode ≡ some all'
  unfolding load_blocks
  load_blocks-read_table all all' run run' nz =
      let last = get_elem?-get_or inode.block 12 0 (omega (arith, thirteen)) in
      rw (run, last, ==_false (get_or inode.block 12 0) 0 nz) run'

  pub load_blocks-listed :
      (all : List ℕ) × (load_blocks disk inode ≡ some all)
      × (block_cnt inode ≡ some (cnt inode))
      × ((i : ℕ) → i < cnt inode → get_elem? all i ≡ some (block_lba disk inode.block i))
  unfolding load_blocks block_cnt
  load_blocks-listed =
      let (all, run, len, filled) =
        copy_blocks-Filled disk inode.block 12 0 0 cleared (omega arith) (omega arith) thirteen
          length-cleared (λ i a b. absurd (omega arith)) in
      let last = get_elem?-get_or inode.block 12 0 (omega (arith, thirteen)) in
      elim (ℕ_discrete (get_or inode.block 12 0) 0) [
        | yes z ↦
            let c : cnt inode ≡ 12 = rw (z) refl in
            (
              all,
              rw (run, last, z) refl,
              rw (last) refl,
              λ i lt. filled i (omega arith) (omega (arith, lt, c)),
            )
        | no nz ↦
            let c : cnt inode ≡ 140 = rw (==_false (get_or inode.block 12 0) 0 nz) refl in
            let hb : HasBlocks disk inode.block 139 = record {
              thirteen = thirteen;
              few = omega arith;
              table = λ h. (nz, (table nz).0, (table nz).1);
            } in
            let (all', run', filled') =
              read_table-Filled disk inode.block 0 139 all hb (omega arith) len filled in
            (
              all',
              load_blocks-read_table all all' run run' nz,
              rw (last) refl,
              λ i lt. filled' i (omega arith) (omega (arith, lt, c)),
            )
      ]

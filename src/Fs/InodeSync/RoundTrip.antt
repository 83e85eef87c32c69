-- ===== src/Fs/InodeSync/RoundTrip.antt =====
-- fs/inode.c: an inode that `inodeSync` has written is the one that `inodeOpen` reads.
use gogoos.Common.{
  ℕ, zero, suc, ◌+◌, ◌-◌, ◌*◌, ◌/◌, ◌%◌, ◌<◌, ◌≤◌, ◌≡◌, ◌≢◌, refl, sym, ap, ap₂, ◌∙◌, true, false,
  Option, some, List, [], ◌∷◌, ◌++◌, arith, leb, lt→ltb, ltb-false, ◌>>=◌, length, take, overwrite,
  length-overwrite, length-append, dec_lt,
}
use gogoos.Fs.{Disk, Inode, ide_read, ide_read2, max_lba, words}
use gogoos.Fs.BitMaps.{Partition, ide_write, ide_write2}
use gogoos.Fs.Sectors.{bytes_of, AllWords, file_bytes-list, file_bytes-same}
use gogoos.Fs.OpenFiles.{inode_locate, inode_of, read_inode}
use gogoos.Fs.InodeSync.{inode_bytes, inode_sync}
use gogoos.Fs.InodeSync.Table.{table, IsTable, Rewritten, read_inode-bytes}
use gogoos.Fs.InodeSync.Written.{IsInode, length-inode_bytes, one_sector, across}

-- `inodeOpen` finds the place, and reads the inode there.
abbrev pub stored : Disk → (inode_table_lba ino : ℕ) → Option Inode
stored disk inode_table_lba ino = do ip ← inode_locate inode_table_lba ino; read_inode disk ip

words_list : (vs : List ℕ) → AllWords vs → words (bytes_of vs) ≡ vs
words_list [] h = refl
words_list (v ∷ vs) h = ap₂ (λ a b. a ∷ b) (omega (arith, h.0)) (words_list vs h.1)

AllWords-append : (xs ys : List ℕ) → AllWords xs → AllWords ys → AllWords (xs ++ ys)
AllWords-append [] ys h g = g
AllWords-append (x ∷ xs) ys h g = (h.0, AllWords-append xs ys h.1 g)

take-append : (xs ys : List ℕ) (n : ℕ) → length xs ≡ n → take n (xs ++ ys) ≡ xs
take-append [] ys zero h = refl
take-append [] ys (suc n) h = absurd (omega (arith, h))
take-append (x ∷ xs) ys zero h = absurd (omega (arith, h))
take-append (x ∷ xs) ys (suc n) h = ap (λ t. x ∷ t) (take-append xs ys n (omega (arith, h)))

inode_of-inode_bytes :
    (inode : Inode)
    → IsInode inode
    → inode_of (inode_bytes inode) ≡ some (record inode { open_cnt = 0; write_deny = false })
unfolding inode_of
inode_of-inode_bytes inode v =
    let tail = inode.block ++ (0 ∷ 0 ∷ []) in
    let ino : inode.ino % 256
          + 256 * (inode.ino / 256 % 256)
          + 65536 * (inode.ino / 65536 % 256)
          + 16777216 * (inode.ino / 16777216 % 256)
        ≡ inode.ino =
      omega (arith, v.numbered) in
    let size : inode.size % 256
          + 256 * (inode.size / 256 % 256)
          + 65536 * (inode.size / 65536 % 256)
          + 16777216 * (inode.size / 16777216 % 256)
        ≡ inode.size =
      omega (arith, v.sized) in
    let block : take 13 (words (bytes_of tail)) ≡ inode.block =
      ap (take 13) (
        words_list tail
          (AllWords-append inode.block (0 ∷ 0 ∷ []) v.words_lt (omega arith, (omega arith, tt))))
      ∙ take-append inode.block (0 ∷ 0 ∷ []) 13 v.thirteen in
    rw (ino, size, block) refl

module _ (disk disk' : Disk) (start : ℕ) (v : IsTable disk start) (v' : IsTable disk' start)
    (inode : Inode) (fit : IsInode inode)
    (w : Rewritten disk start v inode.ino fit.numbered disk' (inode_bytes inode)) where
  written_read :
      stored disk' start inode.ino ≡ some (record inode { open_cnt = 0; write_deny = false })
  unfolding inode_locate
  written_read =
      let len = length-inode_bytes inode fit in
      let listed =
        file_bytes-list disk' (table start) (inode.ino * 76) (inode_bytes inode)
          (λ i lt. w.1 i (omega (arith, lt, len))) in
      rw (lt→ltb inode.ino 4096 fit.numbered) (
        read_inode-bytes disk' start v' inode.ino fit.numbered
        ∙ ap inode_of (rw len at listed)
        ∙ inode_of-inode_bytes inode fit)

  others_same : (other : ℕ) → other ≢ inode.ino → stored disk' start other ≡ stored disk start other
  unfolding inode_locate
  others_same other ne = elim (dec_lt other 4096) [
    | no n ↦ rw (ltb-false other 4096 (omega arith)) refl
    | yes few ↦ rw (lt→ltb other 4096 few) (
        read_inode-bytes disk' start v' other few
        ∙ ap inode_of (
            file_bytes-same disk' disk (table start) (table start) (other * 76) 76 (λ k lo hi.
              elim (dec_lt other inode.ino) [
                | yes below ↦ w.0 k (omega arith)
                | no above ↦ w.2 k (omega arith)
              ]))
        ∙ sym (read_inode-bytes disk start v other few))
  ]

module _ (disk : Disk) (part : Partition) (inode : Inode)
    (v : IsTable disk part.inode_table_lba_start) (fit : IsInode inode)
    (inside : part.inode_table_lba_start + inode.ino * 76 / 512
      ≤ part.lba_start + part.sec_cnt) where
  inode_sync-Rewritten :
      (disk' : Disk) × (inode_sync disk part inode ≡ some disk')
      × Rewritten disk part.inode_table_lba_start v inode.ino fit.numbered disk' (inode_bytes inode)
  unfolding inode_sync inode_locate ide_read ide_read2 ide_write ide_write2
  inode_sync-Rewritten =
      let start = part.inode_table_lba_start in
      let here = start + inode.ino * 76 / 512 in
      let len = length-inode_bytes inode fit in
      let low = v.low in
      let few = fit.numbered in
      let size = v.whole here in
      let on_disk = lt→ltb here max_lba (omega arith) in
      let inside' : leb here (part.lba_start + part.sec_cnt) ≡ true = ground (arith, inside) in
      elim (dec_lt (512 - inode.ino * 76 % 512) 76) [
        | yes cross ↦
            let buf' =
              length-overwrite (inode.ino * 76 % 512) (inode_bytes inode)
                (disk here ++ disk (here + 1))
                (omega (
                  arith,
                  length-append (disk here) (disk (here + 1)),
                  size,
                  v.whole (here + 1),
                  len,
                )) in
            let long : leb 1024 (
                  length (
                    overwrite (inode.ino * 76 % 512) (inode_bytes inode)
                      (disk here ++ disk (here + 1))))
                ≡ true =
              ground (
                arith,
                buf',
                length-append (disk here) (disk (here + 1)),
                size,
                v.whole (here + 1),
              ) in
            (
              _,
              rw
                  (
                    lt→ltb inode.ino 4096 few,
                    inside',
                    lt→ltb (512 - inode.ino * 76 % 512) 76 cross,
                    on_disk,
                    long,
                  )
                  refl,
              across disk start inode.ino v few (inode_bytes inode) len,
            )
        | no inner ↦
            let buf' =
              length-overwrite (inode.ino * 76 % 512) (inode_bytes inode) (disk here)
                (omega (arith, size, len)) in
            let long : leb 512
                  (length (overwrite (inode.ino * 76 % 512) (inode_bytes inode) (disk here)))
                ≡ true =
              ground (arith, buf', size) in
            (
              _,
              rw
                  (
                    lt→ltb inode.ino 4096 few,
                    inside',
                    ltb-false (512 - inode.ino * 76 % 512) 76 (omega arith),
                    on_disk,
                    long,
                  )
                  refl,
              one_sector disk start inode.ino v few (inode_bytes inode) len (omega arith),
            )
      ]

-- `inodeSync` of an inode below 4096 whose size and thirteen blocks are words does not fault where the
-- sectors are whole and the 610 sectors of the table of inodes lie on the disk and the partition. What
-- `inodeOpen` then reads under its number is the inode, with an `openCnt` of 0 and no `writeDeny`; what it
-- reads under any other number is as before, and so is every sector outside the table; all sectors stay whole.
pub inode_sync-stored :
    (disk : Disk) (part : Partition) (inode : Inode)
    → IsTable disk part.inode_table_lba_start
    → IsInode inode
    → part.inode_table_lba_start + inode.ino * 76 / 512 ≤ part.lba_start + part.sec_cnt
    → (disk' : Disk) × (inode_sync disk part inode ≡ some disk')
      × (stored disk' part.inode_table_lba_start inode.ino
          ≡ some (record inode { open_cnt = 0; write_deny = false }))
      × ((other : ℕ)
          → other ≢ inode.ino
          → stored disk' part.inode_table_lba_start other
            ≡ stored disk part.inode_table_lba_start other)
      × ((s : ℕ) → length (disk' s) ≡ 512)
      × ((s : ℕ) → s < part.inode_table_lba_start → disk' s ≡ disk s)
      × ((s : ℕ) → part.inode_table_lba_start + 610 ≤ s → disk' s ≡ disk s)
inode_sync-stored disk part inode v fit inside =
    let start = part.inode_table_lba_start in
    let (disk', run, w) = inode_sync-Rewritten disk part inode v fit inside in
    let v' : IsTable disk' start = record { whole = w.3; low = v.low } in
    (
      disk',
      run,
      written_read disk disk' start v v' inode fit w,
      others_same disk disk' start v v' inode fit w,
      w.3,
      w.4,
      w.5,
    )

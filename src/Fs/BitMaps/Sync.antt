-- ===== src/Fs/BitMaps/Sync.antt =====
-- fs/file.c: which sector `bitMapSync` writes.
use gogoos.Common.{
  ℕ, ◌+◌, ◌*◌, ◌/◌, ◌<◌, ◌≤◌, ◌≡◌, ◌≢◌, refl, true, ==_iff, ==_refl, some, length, length-drop,
  take, drop, arith, leb, lt→ltb, ◌==◌, ==_false, if◌then◌else◌,
}
use gogoos.Fs.{Disk, max_lba}
use gogoos.Fs.BitMaps.{BitMapType, Partition, ide_write, map_of, lba_start_of, bit_map_sync}

-- The sector of the disk that holds a bit of the map: 4096 bits are in one.
abbrev pub sector_of : Partition → BitMapType → ℕ → ℕ
sector_of part btype bit_idx = lba_start_of part btype + bit_idx / 4096

-- the sector that `bitMapSync` writes
abbrev pub synced : Partition → BitMapType → ℕ → ℕ
synced part btype bit_idx = lba_start_of part btype + bit_idx / 512 * 8

-- Where the memory of the map and the disk reach far enough, `bitMapSync` writes the sector bit / 512 * 8 of the
-- map on the disk, with the 512 bytes that have this place in the memory of the map, and every other sector of the
-- disk stays as it was. For the first 512 bits it is the sector that holds the bit, and gets the first 512 bytes;
-- for any later bit it is another one, so that the sector that holds the bit stays as it was.
pub bit_map_sync-sector :
    (disk : Disk) (part : Partition) (bit_idx : ℕ) (btype : BitMapType)
    → lba_start_of part btype + bit_idx / 512 * 8 < max_lba
    → bit_idx / 512 * 8 * 512 + 512 ≤ length (map_of part btype).bytes
    → (disk' : Disk) × (bit_map_sync disk part bit_idx btype ≡ some disk')
      × (disk' (synced part btype bit_idx)
          ≡ take 512 (drop (bit_idx / 512 * 8 * 512) (map_of part btype).bytes))
      × ((s : ℕ) → s ≢ synced part btype bit_idx → disk' s ≡ disk s)
      × (bit_idx < 512
          → (sector_of part btype bit_idx ≡ synced part btype bit_idx)
            × (disk' (sector_of part btype bit_idx) ≡ take 512 (map_of part btype).bytes))
      × (512 ≤ bit_idx
          → (sector_of part btype bit_idx ≢ synced part btype bit_idx)
            × (disk' (sector_of part btype bit_idx) ≡ disk (sector_of part btype bit_idx)))
unfolding bit_map_sync ide_write
bit_map_sync-sector disk part bit_idx btype low long =
    let bytes = (map_of part btype).bytes in
    let lba = lba_start_of part btype + bit_idx / 512 * 8 in
    let enough : leb 512 (length (drop (bit_idx / 512 * 8 * 512) bytes)) ≡ true =
      ground (arith, length-drop (bit_idx / 512 * 8 * 512) bytes) in
    (
      (λ s. if s == lba then take 512 (drop (bit_idx / 512 * 8 * 512) bytes) else disk s),
      rw (lt→ltb lba max_lba low, enough) refl,
      rw (==_refl lba) refl,
      λ s ne. rw (==_false s lba ne) refl,
      λ few.
          let here = (==_iff (sector_of part btype bit_idx) lba).1 (omega arith) in
          let front : bit_idx / 512 * 8 * 512 ≡ 0 = omega arith in
          (omega arith, rw (here, front) refl),
      λ many. (
        λ e. omega (arith, e, many),
        rw (==_false (sector_of part btype bit_idx) lba (λ e. omega (arith, e, many))) refl,
      ),
    )

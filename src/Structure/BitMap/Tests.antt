-- ===== src/Structure/BitMap/Tests.antt =====
-- Runs of the bit map, and the theorems at concrete maps.
use gogoos.Common.{ℕ, ◌≡◌, refl, true, some, [], ◌∷◌, inl, arith, minus_one}
use gogoos.Structure.BitMap.{BitMap, bit_map_test, bit_map_set, bit_map_scan, bit_map_scan_and_set}
use gogoos.Structure.BitMap.Valid.{IsValid}
use gogoos.Structure.BitMap.FirstZero.{Readable}
use gogoos.Structure.BitMap.Scan.{Scanned, bit_map_scan-Scanned}
use gogoos.Structure.BitMap.Claim.{Claimed, bit_map_scan_and_set-Claimed}

-- bits 0 to 8 and bit 12 in use, and a byte behind the map
abbrev small_map : BitMap
small_map = record { size = 2; bytes = 0xff ∷ 0x11 ∷ 0 ∷ [] }

small_map-IsValid : IsValid small_map
small_map-IsValid = omega arith

small_map-Readable : Readable small_map.bytes small_map.size
small_map-Readable = inl (omega arith)

scan_one : bit_map_scan small_map 1 ≡ some 9
unfolding bit_map_scan
scan_one = refl

-- the run of 3 from bit 9 is too short for 4
scan_three : bit_map_scan small_map 3 ≡ some 9
unfolding bit_map_scan bit_map_test
scan_three = refl

scan_four : bit_map_scan small_map 4 ≡ some minus_one
unfolding bit_map_scan bit_map_test
scan_four = refl

claim_three :
    bit_map_scan_and_set small_map 3 true
    ≡ some (9, record { size = 2; bytes = 0xff ∷ 0x1f ∷ 0 ∷ [] })
unfolding bit_map_scan_and_set bit_map_scan bit_map_test bit_map_set
claim_three = refl

bit_map_scan-Scanned_example : (r : ℕ) × (bit_map_scan small_map 3 ≡ some r) × Scanned small_map 3 r
bit_map_scan-Scanned_example =
    bit_map_scan-Scanned small_map 3 small_map-IsValid small_map-Readable (omega arith)

bit_map_scan_and_set-Claimed_example :
    (res : ℕ × BitMap) × (bit_map_scan_and_set small_map 3 true ≡ some res)
    × Claimed small_map 3 true res
bit_map_scan_and_set-Claimed_example =
    bit_map_scan_and_set-Claimed small_map 3 true small_map-IsValid small_map-Readable (omega arith)

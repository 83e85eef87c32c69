-- ===== src/Fs/Write/Tests.antt =====
-- fs/file.c, `fileWrite`: four bytes across the end of the first block.
use gogoos.Common.{
  get_elem?, ◌≢◌, ℕ, ◌<◌, ◌≡◌, inl, refl, Bool, true, false, none, some, [], ◌∷◌, arith,
}
use gogoos.Common.Int.{negsuc}
use gogoos.Fs.{Inode}
use gogoos.Fs.Write.{WriteResult, file_write}
use gogoos.Fs.Write.Small.{IsWritten}
use gogoos.Fs.Write.RoundTrip.{file_write-IsWritten}
use gogoos.Fs.Write.Limit.{file_write_limit}
use gogoos.Fs.Write.Sample.{
  part, nines, short, short-IsHome, part-IsLayout, short-HasDirect, part-HasRoom,
}

file_write-IsWritten_example :
    (r : WriteResult) × (file_write nines part short true 0 (1 ∷ 2 ∷ 3 ∷ 4 ∷ []) ≡ some r)
    × IsWritten nines part short (1 ∷ 2 ∷ 3 ∷ 4 ∷ []) r
file_write-IsWritten_example =
    file_write-IsWritten nines part short 1 0 (1 ∷ 2 ∷ 3 ∷ 4 ∷ []) short-IsHome part-IsLayout
      (short-HasDirect, inl refl) (omega arith) part-HasRoom

abbrev large : Inode
large = record short { size = 71679 }

file_write_limit_example :
    ((allocated : Bool)
      → 71680 < 71680
      → file_write nines part large allocated 0 (1 ∷ [])
        ≡ some
            (record { returned = negsuc 0; disk = nines; part = part; inode = large; fd_pos = 0 }))
    × (file_write nines part large false 0 (1 ∷ [])
        ≡ some
            (record { returned = negsuc 0; disk = nines; part = part; inode = large; fd_pos = 0 }))
    × ((lba : ℕ)
        → get_elem? large.block 0 ≡ some lba
        → lba ≢ 0
        → ◌≡◌ {A = ℕ} 71680 71680
        → file_write nines part large true 0 (1 ∷ []) ≡ none)
file_write_limit_example = file_write_limit nines part large 0 (1 ∷ []) (omega arith)

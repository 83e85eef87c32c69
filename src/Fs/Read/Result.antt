-- ===== src/Fs/Read/Result.antt =====
-- `fileRead` returns the bytes of the file.
use gogoos.Common.{
  ℕ, ◌+◌, ◌-◌, ◌*◌, ◌/◌, ◌^◌, ◌<◌, ◌≤◌, ◌≡◌, refl, ap, inl, inr, ◌⊎◌, ◌∙◌, Bool, true, false, some,
  List, [], arith, ==_false, ==_iff, lt→ltb, ltb-false, length, u32, min, dec_lt, ℕ_discrete,
}
use gogoos.Common.Int.{pos, negsuc}
use gogoos.Fs.{Disk, Inode, max_lba}
use gogoos.Fs.Read.{ReadResult, read_bytes, file_read}
use gogoos.Fs.Read.Bytes.{file_bytes, read_loop-file_bytes}
use gogoos.Fs.Read.Blocks.{block_lba, HasBlocks, collect_blocks_lem}

-- A file on the disk: its block list reaches the block behind its last byte, and every block that
-- holds a byte is a whole sector of the disk.
pub record IsFile (disk : Disk) (inode : Inode) : Type 0 where
  pub blocks : HasBlocks disk inode.block (inode.size / 512)
  pub sectors :
      (i : ℕ)
      → i * 512 < inode.size
      → (block_lba disk inode.block i < max_lba)
        × (length (disk (block_lba disk inode.block i)) ≡ 512)

-- the bytes of the file from `p` on
abbrev pub slice : Disk → Inode → (p n : ℕ) → List ℕ
slice disk inode p n = file_bytes disk (block_lba disk inode.block) p n

module _ (disk : Disk) (inode : Inode) (v : IsFile disk inode) where
  up_to : (e : ℕ) → e ≤ inode.size / 512 → HasBlocks disk inode.block e
  up_to e le = record {
    thirteen = v.blocks.thirteen;
    few = omega (arith, v.blocks.few);
    table = λ h. v.blocks.table (omega arith);
  }

  pub read_bytes-slice :
      (p n : ℕ)
      → p + n ≤ inode.size
      → read_bytes disk inode true p n
        ≡ some (record { returned = pos n; bytes = slice disk inode p n; fd_pos = p + n })
  unfolding read_bytes
  read_bytes-slice p n le =
      let few = v.blocks.few in
      let w : u32 (p + n) ≡ p + n = omega arith in
      let (all, run, listed) =
        collect_blocks_lem disk inode.block (p / 512) ((p + n) / 512) (omega arith)
          (up_to ((p + n) / 512) (omega arith)) in
      let bytes =
        read_loop-file_bytes disk (block_lba disk inode.block) n all p n (omega arith) (omega arith)
          (λ i lo hi. record {
            listed = listed i lo (omega arith);
            on_disk = (v.sectors i (omega arith)).0;
            whole = (v.sectors i (omega arith)).1;
          }) in
      rw (
        w,
        lt→ltb (p / 512) 140 (omega arith),
        lt→ltb ((p + n) / 512) 140 (omega arith),
        run,
        bytes,
      )

-- What a read of `count` bytes at `p` is to return.
pub data Reads (disk : Disk) (inode : Inode) (allocated : Bool) (p count : ℕ)
    : ReadResult → Type 0 where
  reads :
      (n : ℕ)
      → n ≡ min count (inode.size - p)
      → (inode.size < p + count → 0 < n)
      → allocated ≡ true
      → Reads disk inode allocated p count
          (record { returned = pos n; bytes = slice disk inode p n; fd_pos = p + n })
  no_memory :
      (min count (inode.size - p) ≡ count) ⊎ (0 < min count (inode.size - p))
      → allocated ≡ false
      → Reads disk inode allocated p count (record { returned = negsuc 0; bytes = []; fd_pos = p })
  at_end :
      p ≡ inode.size
      → 0 < count
      → Reads disk inode allocated p count (record { returned = negsuc 0; bytes = []; fd_pos = p })

no_memory_lem :
    (disk : Disk) (inode : Inode) (p n : ℕ)
    → read_bytes disk inode false p n
      ≡ some (record { returned = negsuc 0; bytes = []; fd_pos = p })
unfolding read_bytes
no_memory_lem disk inode p n = refl

-- The `n` bytes that a read is to fetch, with or without memory.
fetch :
    (disk : Disk) (inode : Inode) (allocated : Bool) (p count n : ℕ)
    → IsFile disk inode
    → p + n ≤ inode.size
    → n ≡ min count (inode.size - p)
    → (inode.size < p + count → 0 < n)
    → (r : ReadResult) × (read_bytes disk inode allocated p n ≡ some r)
      × Reads disk inode allocated p count r
fetch disk inode true p count n v le e h =
    (_, read_bytes-slice disk inode v p n le, reads n e h refl)
fetch disk inode false p count n v le e h = (
  _,
  no_memory_lem disk inode p n,
  no_memory
      (elim (dec_lt inode.size (p + count)) [
        | yes q ↦ inr (omega (arith, h q))
        | no q ↦ inl (omega arith)
      ])
      refl,
)

-- A read that asks for more than there is.
cut_short :
    (disk : Disk) (inode : Inode) (allocated : Bool) (p count : ℕ)
    → inode.size < p + count
    → p < inode.size
    → p + count < 2 ^ 32
    → file_read disk inode allocated p count ≡ read_bytes disk inode allocated p (inode.size - p)
unfolding file_read
cut_short disk inode allocated p count more lt small =
    let w : u32 (p + count) ≡ p + count = omega arith in
    let left : u32 (inode.size + 2 ^ 32 - p) ≡ inode.size - p = omega arith in
    rw (w, lt→ltb inode.size (p + count) more, left, ==_false (inode.size - p) 0 (omega arith))

-- `fileRead` on a file of the disk, from a position in it and for a count that does not overflow
-- 32 bits with it, does not fault. With memory it returns the bytes from the position on, as many
-- as asked for or as there are, and moves the position behind them; at the end of the file it
-- returns -1 if a byte was asked for. Without memory it returns -1. Where it returns -1 the
-- position stays.
pub file_read-Reads :
    (disk : Disk) (inode : Inode) (allocated : Bool) (p count : ℕ)
    → IsFile disk inode
    → p ≤ inode.size
    → p + count < 2 ^ 32
    → (r : ReadResult) × (file_read disk inode allocated p count ≡ some r)
      × Reads disk inode allocated p count r
unfolding file_read
file_read-Reads disk inode allocated p count v le small = elim (dec_lt inode.size (p + count)) [
  | yes more ↦
      let few = v.blocks.few in
      let left : u32 (inode.size + 2 ^ 32 - p) ≡ inode.size - p = omega arith in
      elim (ℕ_discrete (inode.size - p) 0) [
        | yes none_left ↦ (
          record { returned = negsuc 0; bytes = []; fd_pos = p },
          rw (w, lt→ltb inode.size (p + count) more, left, (==_iff (inode.size - p) 0).1 none_left),
          at_end (omega arith) (omega arith),
        )
        | no some_left ↦
            let (r, run, ok) =
              fetch disk inode allocated p count (inode.size - p) v (omega arith) (omega arith)
                (λ h. omega arith) in
            (r, cut_short disk inode allocated p count more (omega arith) small ∙ run, ok)
      ]
  | no fits ↦
      let (r, run, ok) =
        fetch disk inode allocated p count count v (omega arith) (omega arith)
          (λ h. absurd (omega arith)) in
      (r, rw (w, ltb-false inode.size (p + count) (omega arith)) run, ok)
]
  where
    w : u32 (p + count) ≡ p + count
    w = omega arith

-- Reading the whole of a file.
pub file_read-all :
    (disk : Disk) (inode : Inode) (bytes : List ℕ)
    → IsFile disk inode
    → slice disk inode 0 inode.size ≡ bytes
    → file_read disk inode true 0 inode.size
      ≡ some (record { returned = pos inode.size; bytes = bytes; fd_pos = inode.size })
unfolding file_read
file_read-all disk inode bytes v e =
    let few = v.blocks.few in
    let w : u32 (0 + inode.size) ≡ inode.size = omega arith in
    let z : 0 + inode.size ≡ inode.size = omega arith in
    rw (w, ltb-false inode.size inode.size (omega arith))
      (read_bytes-slice disk inode v 0 inode.size (omega arith)
        ∙ rw (z) (
            ap (λ t. some (record { returned = pos inode.size; bytes = t; fd_pos = inode.size }))
              e))

-- ===== src/Fs/InodeSync/Table.antt =====
-- fs/inode.c: the table of inodes as one run of bytes, of which `inodeSync` writes 76.
use gogoos.Common.{
  ℕ, ◌+◌, ◌-◌, ◌*◌, ◌/◌, ◌%◌, ◌<◌, ◌≤◌, ◌≡◌, refl, sym, ap, ◌∙◌, List, ◌++◌, arith, ltb, lt→ltb,
  ltb-false, length, get_or, take, drop, overwrite, length-append, length-take, length-drop,
  get_or-take, get_or-drop, get_or-append_left, get_or-append_right, get_or-overwrite_in,
  get_or-overwrite_below, get_or-overwrite_above, dec_lt,
}
use gogoos.Fs.{Disk, ide_read, ide_read2, max_lba}
use gogoos.Fs.Read.Bytes.{file_bytes}
use gogoos.Fs.Sectors.{byte_at, file_bytes-list}
use gogoos.Fs.OpenFiles.{InodePosition, inode_of, read_inode}

-- the sectors of the table
abbrev pub table : ℕ → ℕ → ℕ
table start i = start + i

-- the place of inode `ino`, as `inodeLocate` computes it
abbrev pub place : (start ino : ℕ) → InodePosition
place start ino = record {
  cross_sec = ltb (512 - ino * 76 % 512) 76;
  sec_lba = start + ino * 76 / 512;
  byte_offset = ino * 76 % 512;
}

-- Every sector of the table is whole, and on the disk.
pub record IsTable (disk : Disk) (start : ℕ) : Type 0 where
  pub whole : (s : ℕ) → length (disk s) ≡ 512
  pub low : start + 610 < max_lba

-- what an inode takes of its buffer are the bytes of the table
cut_bytes :
    (disk : Disk) (start p r : ℕ) (buf : List ℕ)
    → r + 76 ≤ length buf
    → ((j : ℕ) → j < 76 → get_or buf (r + j) 0 ≡ byte_at disk (table start) (p + j))
    → take 76 (drop r buf) ≡ file_bytes disk (table start) p 76
cut_bytes disk start p r buf fits same =
    let len : length (take 76 (drop r buf)) ≡ 76 =
      omega (arith, length-take 76 (drop r buf), length-drop r buf) in
    let listed = file_bytes-list disk (table start) p (take 76 (drop r buf)) (λ i lt. sym (
      get_or-take 0 76 (drop r buf) i (omega (arith, lt, len))
      ∙ get_or-drop 0 r buf i
      ∙ same i (omega (arith, lt, len)))) in
    sym (rw len at listed)

-- `len` bytes of the table from `base` on are a buffer before the write and another behind it.
pub record Window (disk disk' : Disk) (start base len : ℕ) (buf buf' : List ℕ) : Type 0 where
  pub before :
      (k : ℕ) → base ≤ k → k < base + len → byte_at disk (table start) k ≡ get_or buf (k - base) 0
  pub behind :
      (k : ℕ) → base ≤ k → k < base + len → byte_at disk' (table start) k ≡ get_or buf' (k - base) 0
  pub outside :
      (k : ℕ)
      → ((base ≤ k → k < base + len → ⊥))
      → byte_at disk' (table start) k ≡ byte_at disk (table start) k

-- Where the buffer is overwritten, the bytes are new, and elsewhere they are as before.
module _ {disk disk' : Disk} {start base len : ℕ} {buf : List ℕ} (off : ℕ) (src : List ℕ)
    (w : Window disk disk' start base len buf (overwrite off src buf)) (size : length buf ≡ len)
    (fits : off + length src ≤ len) where
  Window-same :
      (k : ℕ)
      → (base + off ≤ k → k < base + off + length src → ⊥)
      → byte_at disk' (table start) k ≡ byte_at disk (table start) k
  Window-same k out = elim (dec_lt k base) [
    | yes lo ↦ w.outside k (λ a b. omega arith)
    | no n1 ↦ elim (dec_lt k (base + len)) [
      | no n2 ↦ w.outside k (λ a b. omega arith)
      | yes hi ↦ elim (dec_lt k (base + off)) [
        | yes q ↦
            w.behind k (omega arith) hi
            ∙ get_or-overwrite_below 0 off src buf (omega (arith, size)) (k - base) (omega arith)
            ∙ sym (w.before k (omega arith) hi)
        | no q ↦ elim (dec_lt k (base + off + length src)) [
          | yes z ↦ absurd (out (omega arith) z)
          | no z ↦
              w.behind k (omega arith) hi
              ∙ get_or-overwrite_above 0 off src buf (omega (arith, size)) (k - base) (omega arith)
              ∙ sym (w.before k (omega arith) hi)
        ]
      ]
    ]
  ]

  Window-new :
      (i : ℕ) → i < length src → byte_at disk' (table start) (base + off + i) ≡ get_or src i 0
  Window-new i lt =
      w.behind (base + off + i) (omega arith) (omega arith)
      ∙ get_or-overwrite_in 0 off src buf (omega (arith, size)) (base + off + i - base) i
          (omega arith) lt

module _ (disk : Disk) (start : ℕ) (v : IsTable disk start) (ino : ℕ) (few : ino < 4096) where
  -- byte `j` behind the start of the inode
  two_sectors :
      (j : ℕ)
      → j < 512
      → get_or
          (disk (start + ino * 76 / 512) ++ disk (start + ino * 76 / 512 + 1))
          (ino * 76 % 512 + j)
          0
        ≡ byte_at disk (table start) (ino * 76 + j)
  two_sectors j lt =
      let a = disk (start + ino * 76 / 512) in
      let b = disk (start + ino * 76 / 512 + 1) in
      let len = v.whole (start + ino * 76 / 512) in
      elim (dec_lt (ino * 76 % 512 + j) 512) [
        | yes below ↦
            let q : (ino * 76 + j) / 512 ≡ ino * 76 / 512 = omega arith in
            let m : (ino * 76 + j) % 512 ≡ ino * 76 % 512 + j = omega arith in
            rw (q, m) (get_or-append_left 0 a b (ino * 76 % 512 + j) (omega (arith, len, below)))
        | no above ↦
            let q : start + (ino * 76 + j) / 512 ≡ start + ino * 76 / 512 + 1 = omega arith in
            let m : (ino * 76 + j) % 512 ≡ ino * 76 % 512 + j - 512 = omega arith in
            rw (q, m)
              (get_or-append_right 0 a b (ino * 76 % 512 + j) (ino * 76 % 512 + j - 512)
                (omega (arith, len, above)))
      ]

  -- The inode is read out of its 76 bytes of the table.
  pub read_inode-bytes :
      read_inode disk (place start ino) ≡ inode_of (file_bytes disk (table start) (ino * 76) 76)
  unfolding read_inode ide_read ide_read2
  read_inode-bytes =
      let low = v.low in
      let len = v.whole (start + ino * 76 / 512) in
      let on_disk = lt→ltb (start + ino * 76 / 512) max_lba (omega arith) in
      elim (dec_lt (512 - ino * 76 % 512) 76) [
        | yes cross ↦
            let buf = disk (start + ino * 76 / 512) ++ disk (start + ino * 76 / 512 + 1) in
            rw (lt→ltb (512 - ino * 76 % 512) 76 cross, on_disk)
              (ap inode_of (
                cut_bytes disk start (ino * 76) (ino * 76 % 512) buf
                  (omega (
                    arith,
                    length-append (disk (start + ino * 76 / 512))
                        (disk (start + ino * 76 / 512 + 1)),
                    len,
                    v.whole (start + ino * 76 / 512 + 1),
                  ))
                  (λ j lt. two_sectors j (omega arith))))
        | no inner ↦
            rw (ltb-false (512 - ino * 76 % 512) 76 (omega arith), on_disk)
              (ap inode_of (
                cut_bytes disk start (ino * 76) (ino * 76 % 512) (disk (start + ino * 76 / 512))
                  (omega (arith, len))
                  (λ j lt.
                    let q : (ino * 76 + j) / 512 ≡ ino * 76 / 512 = omega arith in
                    let m : (ino * 76 + j) % 512 ≡ ino * 76 % 512 + j = omega arith in
                    rw (q, m) refl)))
      ]

  -- `src` written over the 76 bytes of the inode: what byte `k` of the table is behind it
  abbrev pub Rewritten : Disk → List ℕ → Type 0
  Rewritten disk' src =
      ((k : ℕ) → k < ino * 76 → byte_at disk' (table start) k ≡ byte_at disk (table start) k)
      × ((i : ℕ) → i < 76 → byte_at disk' (table start) (ino * 76 + i) ≡ get_or src i 0)
      × ((k : ℕ) → ino * 76 + 76 ≤ k → byte_at disk' (table start) k ≡ byte_at disk (table start) k)
      × ((s : ℕ) → length (disk' s) ≡ 512)
      × ((s : ℕ) → s < start → disk' s ≡ disk s)
      × ((s : ℕ) → start + 610 ≤ s → disk' s ≡ disk s)

  module _ (src : List ℕ) (whole_src : length src ≡ 76) where
    pub Window-Rewritten :
        {disk' : Disk} {len : ℕ} {buf : List ℕ}
        → Window disk disk' start
            (ino * 76 / 512 * 512)
            len
            buf
            (overwrite (ino * 76 % 512) src buf)
        → length buf ≡ len
        → ino * 76 % 512 + 76 ≤ len
        → ((s : ℕ) → length (disk' s) ≡ 512)
        → ((s : ℕ) → s < start → disk' s ≡ disk s)
        → ((s : ℕ) → start + 610 ≤ s → disk' s ≡ disk s)
        → Rewritten disk' src
    Window-Rewritten w size fits lens lo hi = (
      (λ k lt.
          Window-same (ino * 76 % 512) src w size (omega (arith, whole_src)) k
            (λ a b. omega arith)),
      (λ i lt.
          let e : ino * 76 + i ≡ ino * 76 / 512 * 512 + ino * 76 % 512 + i = omega arith in
          rw (e) (
            Window-new (ino * 76 % 512) src w size (omega (arith, whole_src)) i
              (omega (arith, whole_src)))),
      (λ k le.
          Window-same (ino * 76 % 512) src w size (omega (arith, whole_src)) k
            (λ a b. omega (arith, whole_src))),
      lens,
      lo,
      hi,
    )

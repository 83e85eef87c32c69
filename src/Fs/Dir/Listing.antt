-- ===== src/Fs/Dir/Listing.antt =====
-- fs/dir.c, `dirRead`: a directory that is read from the start to the end.
use gogoos.Common.{
  ℕ, zero, suc, ◌+◌, ◌-◌, ◌*◌, ◌%◌, ◌^◌, ◌<◌, ◌≡◌, ◌≢◌, refl, sym, ap, ◌∙◌, true, none, some, List,
  [], ◌∷◌, arith, ==_iff, get_elem?, get_or, length, take, drop, Bool, false, Bool-cases, inl, inr,
  dec_lt, ◌≤◌, get_elem?_in, u32,
}
use gogoos.Fs.{Disk, Inode, max_lba}
use gogoos.Fs.Read.Blocks.{block_lba}
use gogoos.Fs.Dir.{DirEntry, load_blocks, block_cnt, dir_read, list_dir}
use gogoos.Fs.Dir.Loaded.{cnt, load_blocks-listed}
use gogoos.Fs.Dir.Entries.{block_entries, IsListed, read_entries-found, read_entries_end}

-- the entries in use of a directory, in the order of its blocks
abbrev pub entries : Disk → Inode → List DirEntry
entries disk inode = block_entries disk (block_lba disk inode.block) (cnt inode) 0

-- A directory on the disk: its blocks can be read, and its size counts its entries.
pub record IsDirectory (disk : Disk) (inode : Inode) : Type 0 where
  pub thirteen : length inode.block ≡ 13
  pub table :
      get_or inode.block 12 0 ≢ 0
      → (get_or inode.block 12 0 < max_lba) × (length (disk (get_or inode.block 12 0)) ≡ 512)
  pub on_disk :
      (i : ℕ)
      → i < cnt inode
      → block_lba disk inode.block i ≢ 0
      → block_lba disk inode.block i < max_lba
  pub counted : inode.size ≡ length (entries disk inode) * 24
  pub small : inode.size < 2 ^ 32 - 24

drop-cons :
    (xs : List DirEntry) (k : ℕ) (de : DirEntry)
    → get_elem? xs k ≡ some de
    → drop k xs ≡ de ∷ drop (suc k) xs
drop-cons [] k de h = absurd (ground arith)
drop-cons (x ∷ xs) zero de h = ground arith
drop-cons (x ∷ xs) (suc k) de h = drop-cons xs k de h

module _ (disk : Disk) (inode : Inode) (v : IsDirectory disk inode) where
  abbrev lba : ℕ → ℕ
  lba = block_lba disk inode.block

  pub load_blocks-IsListed :
      (all : List ℕ) × (load_blocks disk inode ≡ some all)
      × (block_cnt inode ≡ some (cnt inode))
      × ((i : ℕ) → i < cnt inode → IsListed disk lba all i)
  load_blocks-IsListed =
      let (all, run, count, listed) = load_blocks-listed disk inode v.thirteen v.table in
      (all, run, count, λ i lt. (listed i lt, v.on_disk i lt))

  abbrev pub whole : inode.size % 24 ≡ 0
  whole = omega (arith, v.counted)

  -- Behind `k` entries `dirRead` returns the next one.
  dir_read-entry :
      (k : ℕ) (de : DirEntry)
      → k < length (entries disk inode)
      → get_elem? (entries disk inode) k ≡ some de
      → dir_read disk inode true (k * 24) ≡ some (some de, suc k * 24)
  unfolding dir_read
  dir_read-entry k de lt h =
      let (all, run, count, listed) = load_blocks-IsListed in
      let small = v.small in
      let counted = v.counted in
      let start : k - 0 ≡ k = omega arith in
      let found =
        read_entries-found disk lba (cnt inode) 0 all inode.size 0 k de
          (λ i lo hi. listed i (omega (arith, hi))) (omega arith) (omega (arith, counted, lt))
          (omega (arith, small)) (ap (get_elem? (entries disk inode)) start ∙ h) in
      let next : u32 (k * 24 + 24) ≡ suc k * 24 = omega (arith, counted, lt, small) in
      rw (run, count, (==_iff (inode.size % 24) 0).1 whole, found, next) refl

  -- Behind all of them it returns NULL.
  dir_read_end :
      dir_read disk inode true (length (entries disk inode) * 24)
      ≡ some (none, length (entries disk inode) * 24)
  unfolding dir_read
  dir_read_end =
      let (all, run, count, listed) = load_blocks-IsListed in
      let counted = v.counted in
      let done_all =
        read_entries_end (cnt inode) 0 disk all inode.size 0 (length (entries disk inode) * 24)
          (omega (arith, counted)) in
      rw (run, count, (==_iff (inode.size % 24) 0).1 whole, done_all) refl

  -- Without memory `dirRead` returns NULL.
  dir_read-no_memory : (pos : ℕ) → dir_read disk inode false pos ≡ some (none, pos)
  unfolding dir_read
  dir_read-no_memory pos = refl

  -- The loop behind `k` entries, with memory for `n` more.
  list_dir-drop :
      (f n k : ℕ) (allocated : ℕ → Bool)
      → k + n ≤ length (entries disk inode)
      → n ≤ f
      → ((i : ℕ) → i < n → allocated i ≡ true)
      → (k + n < length (entries disk inode) → allocated n ≡ false)
      → list_dir (suc f) disk inode allocated (k * 24) ≡ some (take n (drop k (entries disk inode)))
  unfolding list_dir
  list_dir-drop f zero k allocated le few ok out = elim (Bool-cases (allocated 0)) [
    | inr no_more ↦ rw (no_more, dir_read-no_memory (k * 24)) refl
    | inl more ↦ elim (dec_lt k (length (entries disk inode))) [
      | yes lt ↦ absurd (cc (more, out (omega (arith, lt))))
      | no nlt ↦
          let full : k ≡ length (entries disk inode) = omega (arith, nlt, le) in
          rw (more, full, dir_read_end) refl
    ]
  ]
  list_dir-drop zero (suc n) k allocated le few ok out = absurd (omega (arith, few))
  list_dir-drop (suc f) (suc n) k allocated le few ok out =
      let (de, h) = get_elem?_in (entries disk inode) k (omega (arith, le)) in
      let ih =
        list_dir-drop f n (suc k) (λ i. allocated (i + 1)) (omega (arith, le)) (omega (arith, few))
          (λ i lt. ok (i + 1) (omega (arith, lt)))
          (λ lt. ap allocated (omega arith) ∙ out (omega (arith, lt))) in
      rw (ok 0 (omega arith), dir_read-entry k de (omega (arith, le)) h, ih)
        (ap (λ t. some (take (suc n) t)) (sym (drop-cons (entries disk inode) k de h)))

-- In a directory on the disk, whose size counts its entries in use, the loop of `ls`, which calls `dirRead` until
-- it returns NULL, ends. It gets the entries in use, once each and in the order of the blocks, and no other: the first
-- `n` of them, where the allocations of the first `n` calls succeed and that of the next one fails, and all of them,
-- where none of these fails.
pub list_dir-entries :
    (disk : Disk) (inode : Inode) (allocated : ℕ → Bool) (n : ℕ)
    → IsDirectory disk inode
    → n ≤ length (entries disk inode)
    → ((i : ℕ) → i < n → allocated i ≡ true)
    → (n < length (entries disk inode) → allocated n ≡ false)
    → list_dir (suc (length (entries disk inode))) disk inode allocated 0
      ≡ some (take n (entries disk inode))
list_dir-entries disk inode allocated n v le ok out =
    list_dir-drop disk inode v (length (entries disk inode)) n 0 allocated (omega (arith, le)) le ok
      (λ lt. out (omega (arith, lt)))

-- ===== src/Fs/Dir/Search/Found.antt =====
-- fs/dir.c: what `searchDirEntry` finds among the places of a directory.
use mathlib.Core.Path.{subst}
use gogoos.Common.{
  ℕ, zero, suc, ◌+◌, ◌<◌, ◌≤◌, ◌≡◌, ◌≢◌, refl, sym, ap, ◌∙◌, true, Option, none, some, List, [],
  ◌∷◌, ◌++◌, arith, ==_false, ◌>>=◌, length, length-append, ℕ_discrete, get_elem?, get_or,
  get_elem?-get_or, dec_lt,
}
use gogoos.Fs.{Disk, Inode}
use gogoos.Fs.Read.{cleared, copy_blocks}
use gogoos.Fs.Read.Bytes.{ide_read_lem}
use gogoos.Fs.Read.Blocks.{
  block_lba, copy_blocks-Filled, length-cleared, copy_blocks-kept, get_elem?-cleared,
}
use gogoos.Fs.Dir.{DirEntry, entry_at, load_blocks}
use gogoos.Fs.Dir.Entries.{IsListed}
use gogoos.Fs.Dir.Loaded.{cnt}
use gogoos.Fs.Dir.Listing.{IsDirectory, load_blocks-IsListed}
use gogoos.Fs.Dir.Search.{after_search, search_blocks, search_dir_entry}
use gogoos.Fs.Dir.Search.Places.{IsNamed, InBuffer, search_entries-InBuffer}

module _ (disk : Disk) (inode : Inode) (behind name : List ℕ) where
  abbrev lba : ℕ → ℕ
  lba = block_lba disk inode.block

  -- the places of block `i`, and those behind them
  abbrev buf : ℕ → List ℕ
  buf i = disk (lba i) ++ behind

  -- the answer for the blocks from `lo` on
  abbrev pub InBlocks : (lo : ℕ) → Option DirEntry → Type 0
  InBlocks lo none =
      (i k : ℕ) → lo ≤ i → i < cnt inode → lba i ≢ 0 → k < 24 → ¬ IsNamed name (buf i) k
  InBlocks lo (some de) =
      (b : ℕ) × (k : ℕ) × (b < cnt inode)
      × (lba b ≢ 0)
      × (k < 24)
      × (entry_at (buf b) k ≡ de)
      × IsNamed name (buf b) k
      × ((i j : ℕ)
          → lo ≤ i
          → i ≤ b
          → lba i ≢ 0
          → j < 24
          → (i ≡ b → j < k)
          → ¬ IsNamed name (buf i) j)

  InBlocks-skip :
      (lo : ℕ) (r : Option DirEntry)
      → ((k : ℕ) → lo < cnt inode → lba lo ≢ 0 → k < 24 → ¬ IsNamed name (buf lo) k)
      → InBlocks (lo + 1) r
      → InBlocks lo r
  InBlocks-skip lo none other h = λ i k a inside nz few. elim (ℕ_discrete lo i) [
    | yes e ↦
        subst (λ t. t < cnt inode → lba t ≢ 0 → ¬ IsNamed name (buf t) k) e
          (λ inside' nz'. other k inside' nz' few) inside nz
    | no ne ↦ h i k (omega arith) inside nz few
  ]
  InBlocks-skip lo (some de) other (b, k, inside, nz, few, at_k, named, first) = (
    b,
    k,
    inside,
    nz,
    few,
    at_k,
    named,
    λ i j a le nzi fewj before. elim (ℕ_discrete lo i) [
      | yes e ↦
          subst (λ t. t < cnt inode → lba t ≢ 0 → ¬ IsNamed name (buf t) j) e
            (λ inside' nz'. other j inside' nz' fewj) (omega (arith, le, inside)) nzi
      | no ne ↦ first i j (omega arith) le nzi fewj before
    ],
  )

  module _ (v : IsDirectory disk inode)
      (sectors : (i : ℕ)
        → i < cnt inode
        → block_lba disk inode.block i ≢ 0
        → length (disk (block_lba disk inode.block i)) ≡ 512)
      (len : length behind ≡ 64) (short : length name < 24) where
    loaded :
        (all all' : List ℕ)
        → copy_blocks 12 0 inode.block cleared ≡ some all'
        → load_blocks disk inode ≡ some all
        → get_or inode.block 12 0 ≡ 0
        → some all' ≡ some all
    unfolding load_blocks
    loaded all all' copied run z =
        rw (copied, get_elem?-get_or inode.block 12 0 (omega (arith, v.thirteen)), z) at run

    -- No other block is listed.
    missing :
        (all : List ℕ)
        → load_blocks disk inode ≡ some all
        → (i : ℕ) → cnt inode ≤ i
        → i < 140
        → get_elem? all i ≡ some 0
    missing all run i le lt = elim (ℕ_discrete (get_or inode.block 12 0) 0) [
      | yes z ↦
          let c : cnt inode ≡ 12 = rw (z) refl in
          let (all', copied, _, _) =
            copy_blocks-Filled disk inode.block 12 0 0 cleared (omega arith) (omega arith)
              v.thirteen length-cleared (λ j a b. absurd (omega arith)) in
          sym (ap (λ t. t >>= λ l. get_elem? l i) (loaded all all' copied run z))
          ∙ copy_blocks-kept 12 0 i inode.block cleared all' (omega arith) v.thirteen copied
              (omega (arith, c, le))
          ∙ get_elem?-cleared i lt
      | no nz ↦
          let c : cnt inode ≡ 140 = rw (==_false (get_or inode.block 12 0) 0 nz) refl in
          absurd (omega (arith, c, le, lt))
    ]

    -- The answer for one block, and the one for those behind it.
    settle :
        (idx : ℕ) (r r1 : Option DirEntry)
        → lba idx ≢ 0
        → idx < cnt inode
        → InBuffer name (buf idx) 0 r1
        → InBlocks (idx + 1) r
        → (r' : Option DirEntry) × (after_search (some r) r1 ≡ some r') × InBlocks idx r'
    settle idx r none nz inside found answer =
        (r, refl, InBlocks-skip idx r (λ k _ _ lt. found k (omega arith) lt) answer)
    settle idx r (some de) nz inside (k, fewk, at_k, named, first) answer = (
      some de,
      refl,
      (
        idx,
        k,
        inside,
        nz,
        fewk,
        at_k,
        named,
        λ i j lo le nzi fewj before.
            let e : idx ≡ i = omega arith in
            subst (λ t. ¬ IsNamed name (buf t) j) e (first j (omega arith) (before (sym e))),
      ),
    )

    search_blocks-InBlocks :
        (n idx : ℕ) (all : List ℕ)
        → idx + n ≡ 140
        → cnt inode ≤ 140
        → load_blocks disk inode ≡ some all
        → ((i : ℕ) → i < cnt inode → IsListed disk lba all i)
        → (r : Option DirEntry) × (search_blocks n idx disk all behind (name ++ (0 ∷ [])) ≡ some r)
          × InBlocks idx r
    unfolding search_blocks
    search_blocks-InBlocks zero idx all e few run listed =
        (none, refl, λ i k a inside. absurd (omega arith))
    search_blocks-InBlocks (suc n) idx all e few run listed =
        let (r, next, answer) =
          search_blocks-InBlocks n (idx + 1) all (omega arith) few run listed in
        elim (dec_lt idx (cnt inode)) [
          | no out ↦ (
            r,
            rw (missing all run idx (omega arith) (omega arith)) next,
            InBlocks-skip idx r (λ k inside. absurd (out inside)) answer,
          )
          | yes inside ↦
              let (here, on_disk) = listed idx inside in
              elim (ℕ_discrete (lba idx) 0) [
                | yes z ↦ (
                  r,
                  rw (here, z) next,
                  InBlocks-skip idx r (λ k inside' nz. absurd (nz z)) answer,
                )
                | no nz ↦
                    let read = ide_read_lem disk lba (lba idx) (on_disk nz) in
                    let (r1, run1, found) =
                      search_entries-InBuffer 24 0 (buf idx) name (omega arith)
                        (omega (
                          arith,
                          length-append (disk (lba idx)) behind,
                          len,
                          sectors idx inside nz,
                        ))
                        short in
                    let (r', out, answer') = settle idx r r1 nz inside found answer in
                    (
                      r',
                      rw (here, ==_false (lba idx) 0 nz, read, run1)
                          (ap (λ t. after_search t r1) next ∙ out),
                      answer',
                    )
              ]
        ]

-- `searchDirEntry` with memory, on a directory whose size counts its entries and whose blocks are whole sectors, and
-- with a name of at most 23 bytes, returns. Where it returns false, none of the 24 places that it tries in each
-- block has the name, as `strcmp` has it; where it returns true, `de` is what lies at the first place that has it,
-- in the order of the blocks. The last three places of a block reach into the 64 bytes behind the buffer, and a
-- place counts whether it is in use or not.
pub search_dir_entry-InBlocks :
    (disk : Disk) (inode : Inode) (behind name : List ℕ)
    → IsDirectory disk inode
    → ((i : ℕ)
        → i < cnt inode
        → block_lba disk inode.block i ≢ 0
        → length (disk (block_lba disk inode.block i)) ≡ 512)
    → length behind ≡ 64
    → length name < 24
    → (r : Option DirEntry) × (search_dir_entry disk inode true behind (name ++ (0 ∷ [])) ≡ some r)
      × InBlocks disk inode behind name 0 r
unfolding search_dir_entry
search_dir_entry-InBlocks disk inode behind name v sectors len short =
    let (all, run, _, listed) = load_blocks-IsListed disk inode v in
    let (r, found, answer) =
      search_blocks-InBlocks disk inode behind name v sectors len short 140 0 all (omega arith)
        (ground arith) run listed in
    (r, rw (run) found, answer)

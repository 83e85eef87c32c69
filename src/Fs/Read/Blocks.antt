-- ===== src/Fs/Read/Blocks.antt =====
-- `allBlocks` holds the sector of every block that the read meets.
use gogoos.Common.{
  ℕ, zero, suc, ◌+◌, ◌-◌, ◌*◌, ◌<◌, ◌≤◌, ◌≡◌, ◌≢◌, refl, ap, ◌∙◌, get_or-zeros, some, List, [], ◌∷◌,
  ◌++◌, arith, ltb, ==_false, ==_iff, lt→ltb, ltb-false, if◌then◌else◌, length, get_elem?, get_or,
  set, take, get_elem?-get_or, get_elem?-append_left, get_elem?-append_right, get_elem?-take,
  get_elem?-set_self, get_elem?-set_ne, length-set, length-take, dec_lt, ℕ_discrete,
}
use gogoos.Fs.{Disk, ide_read, words, max_lba}
use gogoos.Fs.Read.{copy_blocks, read_table, has_table, collect_blocks, cleared}

-- the sector of block `i` of a file
abbrev pub block_lba : Disk → List ℕ → ℕ → ℕ
block_lba disk block i =
    if ltb i 12 then get_or block i 0 else get_or (words (disk (get_or block 12 0))) (i - 12) 0

-- An inode's block list, and its table if the blocks up to `last` need it.
pub record HasBlocks (disk : Disk) (block : List ℕ) (last : ℕ) : Type 0 where
  pub thirteen : length block ≡ 13
  pub few : last < 140
  pub table :
      12 ≤ last
      → (get_or block 12 0 ≢ 0)
        × (get_or block 12 0 < max_lba)
        × (length (disk (get_or block 12 0)) ≡ 512)

length-words : (n : ℕ) (s : List ℕ) → length s ≡ 4 * n → length (words s) ≡ n
length-words zero [] h = refl
length-words zero (a ∷ s) h = absurd (omega arith)
length-words (suc n) [] h = absurd (omega arith)
length-words (suc n) (a ∷ []) h = absurd (omega arith)
length-words (suc n) (a ∷ b ∷ []) h = absurd (omega arith)
length-words (suc n) (a ∷ b ∷ c ∷ []) h = absurd (omega arith)
length-words (suc n) (a ∷ b ∷ c ∷ d ∷ s) h = ap suc (length-words n s (omega arith))

-- entry `i` of `all` is the number of block `i`, from `lo` up to `hi`
abbrev pub Filled : Disk → List ℕ → List ℕ → ℕ → ℕ → Type 0
Filled disk block all lo hi =
    (i : ℕ) → lo ≤ i → i < hi → get_elem? all i ≡ some (block_lba disk block i)

pub length-cleared : length cleared ≡ 140
unfolding cleared
length-cleared = refl

module _ (disk : Disk) (block : List ℕ) where
  -- Copying keeps what is filled below, and fills as far as it goes.
  pub copy_blocks-Filled :
      (n i lo : ℕ) (all : List ℕ)
      → lo ≤ i
      → i + n ≤ 12
      → length block ≡ 13
      → length all ≡ 140
      → Filled disk block all lo i
      → (all' : List ℕ) × (copy_blocks n i block all ≡ some all')
        × (length all' ≡ 140)
        × Filled disk block all' lo (i + n)
  unfolding copy_blocks
  copy_blocks-Filled zero i lo all le hi len la f = (all, refl, la, λ j a b. f j a (omega arith))
  copy_blocks-Filled (suc n) i lo all le hi len la f =
      let x = get_or block i 0 in
      let (all', run, la', f') =
        copy_blocks-Filled n (i + 1) lo (set all i x) (omega arith) (omega arith) len
          (omega (arith, length-set all i x)) extended in
      (all', rw (get_elem?-get_or block i 0 (omega arith)) run, la', λ j a b. f' j a (omega arith))
    where
      extended : Filled disk block (set all i (get_or block i 0)) lo (i + 1)
      extended j a b = elim (ℕ_discrete i j) [
        | yes e ↦ rw (
          ← e,
          get_elem?-set_self all i (get_or block i 0) (omega arith),
          lt→ltb i 12 (omega arith),
        )
        | no ne ↦ rw (get_elem?-set_ne all i j (get_or block i 0) ne) (f j a (omega arith))
      ]

  pub read_table-Filled :
      (lo last : ℕ) (all : List ℕ)
      → HasBlocks disk block last
      → 12 ≤ last
      → length all ≡ 140
      → Filled disk block all lo 12
      → (all' : List ℕ) × (read_table disk block all ≡ some all') × Filled disk block all' lo 140
  unfolding read_table ide_read
  read_table-Filled lo last all hb le la f =
      let t = get_or block 12 0 in
      let (ne, on, whole) = hb.table le in
      (
        take 12 all ++ words (disk t),
        rw (get_elem?-get_or block 12 0 (omega (arith, hb.thirteen)), lt→ltb t max_lba on),
        filled,
      )
    where
      filled : Filled disk block (take 12 all ++ words (disk (get_or block 12 0))) lo 140
      filled i a b = elim (dec_lt i 12) [
        | yes p ↦
            rw
              (
                get_elem?-append_left (take 12 all) (words (disk (get_or block 12 0))) i
                    (omega (arith, length-take 12 all)),
                get_elem?-take 12 all i p,
              )
              (f i a p)
        | no q ↦
            rw
              (
                get_elem?-append_right (take 12 all) (words (disk (get_or block 12 0))) i (i - 12)
                    (omega (arith, length-take 12 all)),
                ltb-false i 12 (omega arith),
              )
              (get_elem?-get_or (words (disk (get_or block 12 0))) (i - 12) 0
                (omega (arith, length-words 128 (disk (get_or block 12 0)) (hb.table le).2)))
      ]

  has_table_lem : (last : ℕ) → HasBlocks disk block last → 12 ≤ last → has_table block ≡ some tt
  unfolding has_table
  has_table_lem last hb le = rw (
    get_elem?-get_or block 12 0 (omega (arith, hb.thirteen)),
    ==_false (get_or block 12 0) 0 (hb.table le).0,
  )

  -- The read reaches the blocks of the table.
  far :
      (start last : ℕ)
      → start ≤ last
      → start ≢ last
      → 12 ≤ last
      → HasBlocks disk block last
      → (all : List ℕ) × (collect_blocks disk block start last ≡ some all)
        × ((i : ℕ) → start ≤ i → i ≤ last → get_elem? all i ≡ some (block_lba disk block i))
  unfolding collect_blocks
  far start last le ne q hb = elim (dec_lt start 12) [
    | yes p ↦
        let (all, run, la, f) =
          copy_blocks-Filled (12 - start) start start cleared (omega arith) (omega arith)
            hb.thirteen length-cleared (λ i a b. absurd (omega arith)) in
        let (all', run', f') =
          read_table-Filled start last all hb q la (λ i a b. f i a (omega arith)) in
        (
          all',
          rw
              (
                ==_false start last ne,
                ltb-false last 12 q,
                lt→ltb start 12 p,
                run,
                has_table_lem last hb q,
              )
              run',
          λ i a b. f' i a (omega (arith, hb.few)),
        )
    | no r ↦
        let (all, run, f) =
          read_table-Filled start last cleared hb q length-cleared
            (λ i a b. absurd (omega arith)) in
        (
          all,
          rw
              (
                ==_false start last ne,
                ltb-false last 12 q,
                ltb-false start 12 (omega arith),
                has_table_lem last hb q,
              )
              run,
          λ i a b. f i a (omega (arith, hb.few)),
        )
  ]

  -- Every block from `start` to `last` is listed.
  pub collect_blocks_lem :
      (start last : ℕ)
      → start ≤ last
      → HasBlocks disk block last
      → (all : List ℕ) × (collect_blocks disk block start last ≡ some all)
        × ((i : ℕ) → start ≤ i → i ≤ last → get_elem? all i ≡ some (block_lba disk block i))
  unfolding collect_blocks
  collect_blocks_lem start last le hb = elim (ℕ_discrete start last) [
    | yes e ↦ elim (dec_lt last 12) [
      | yes p ↦
          let (all, run, _, f) =
            copy_blocks-Filled 1 last start cleared le (omega arith) hb.thirteen length-cleared
              (λ i a b. absurd (omega arith)) in
          (all, rw ((==_iff start last).1 e, lt→ltb last 12 p) run, λ i a b. f i a (omega arith))
      | no q ↦
          let (all, run, f) =
            read_table-Filled start last cleared hb (omega arith) length-cleared
              (λ i a b. absurd (omega arith)) in
          (
            all,
            rw ((==_iff start last).1 e, ltb-false last 12 (omega arith)) run,
            λ i a b. f i a (omega (arith, hb.few)),
          )
    ]
    | no ne ↦ elim (dec_lt last 12) [
      | yes p ↦
          let (all, run, _, f) =
            copy_blocks-Filled (last + 1 - start) start start cleared (omega arith) (omega arith)
              hb.thirteen length-cleared (λ i a b. absurd (omega arith)) in
          (all, rw (==_false start last ne, lt→ltb last 12 p) run, λ i a b. f i a (omega arith))
      | no q ↦ far start last le ne (omega arith) hb
    ]
  ]

-- Copying the first blocks leaves what is behind them.
pub copy_blocks-kept :
    (n i j : ℕ) (block all all' : List ℕ)
    → i + n ≤ 12
    → length block ≡ 13
    → copy_blocks n i block all ≡ some all'
    → i + n ≤ j
    → get_elem? all' j ≡ get_elem? all j
unfolding copy_blocks
copy_blocks-kept zero i j block all all' few len run le = ground arith
copy_blocks-kept (suc n) i j block all all' few len run le =
    let x = get_or block i 0 in
    let run' : copy_blocks n (i + 1) block (set all i x) ≡ some all' =
      rw (get_elem?-get_or block i 0 (omega arith)) at run in
    copy_blocks-kept n (i + 1) j block (set all i x) all' (omega arith) len run' (omega arith)
    ∙ get_elem?-set_ne all i j x (λ e. omega arith)

pub get_elem?-cleared : (j : ℕ) → j < 140 → get_elem? cleared j ≡ some 0
unfolding cleared
get_elem?-cleared j lt = get_elem?-get_or cleared j 0 lt ∙ ap some (get_or-zeros 140 j)

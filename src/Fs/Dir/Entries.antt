-- ===== src/Fs/Dir/Entries.antt =====
-- fs/dir.c, the loops of `dirRead`: they pass over as many entries as the position says.
use gogoos.Common.{
  ℕ, zero, suc, ◌+◌, ◌-◌, ◌*◌, ◌^◌, ◌<◌, ◌≤◌, ◌≡◌, ◌≢◌, refl, sym, ap, ◌∙◌, none, some, List, [],
  ◌∷◌, ◌++◌, arith, ◌==◌, ==_refl, ==_false, lt→ltb, ltb-false, if◌then◌else◌, ◌>>=◌, get_elem?,
  length, get_elem?-append_left, get_elem?-append_right, u32, dec_lt, ℕ_discrete,
}
use gogoos.Fs.{Disk, max_lba}
use gogoos.Fs.Read.Bytes.{ide_read_lem}
use gogoos.Fs.Dir.{
  DirEntry, dir_entry_cnt_per_sec, entry_at, found, passed, scan_entries, read_entries,
}

-- the entries in use of a sector, from entry `idx` on
unfoldable pub used_entries : (n idx : ℕ) → List ℕ → List DirEntry
used_entries zero idx sector = []
used_entries (suc n) idx sector =
    let rest = used_entries n (idx + 1) sector in
    if (entry_at sector idx).file_type == 0 then rest else entry_at sector idx ∷ rest

-- the entries in use of the blocks from `idx` on
unfoldable pub block_entries : Disk → (lba : ℕ → ℕ) → (n idx : ℕ) → List DirEntry
block_entries disk lba zero idx = []
block_entries disk lba (suc n) idx =
    let rest = block_entries disk lba n (idx + 1) in
    if lba idx == 0 then rest else used_entries dir_entry_cnt_per_sec 0 (disk (lba idx)) ++ rest

-- One entry of a sector.
module _ (n idx : ℕ) (sector : List ℕ) where
  pub used_free :
      (entry_at sector idx).file_type ≡ 0
      → used_entries (suc n) idx sector ≡ used_entries n (idx + 1) sector
  unfolding used_entries
  used_free e = rw (e) refl

  pub used_taken :
      (entry_at sector idx).file_type ≢ 0
      → used_entries (suc n) idx sector ≡ entry_at sector idx ∷ used_entries n (idx + 1) sector
  unfolding used_entries
  used_taken ne = rw (==_false (entry_at sector idx).file_type 0 ne) refl

  scan_free :
      (cur pos : ℕ)
      → (entry_at sector idx).file_type ≡ 0
      → scan_entries (suc n) idx sector cur pos ≡ scan_entries n (idx + 1) sector cur pos
  unfolding scan_entries
  scan_free cur pos e = rw (e) refl

  scan_before :
      (c k : ℕ)
      → (entry_at sector idx).file_type ≢ 0
      → c < k
      → k * 24 < 2 ^ 32
      → scan_entries (suc n) idx sector (c * 24) (k * 24)
        ≡ scan_entries n (idx + 1) sector ((c + 1) * 24) (k * 24)
  unfolding scan_entries
  scan_before c k ne lt small =
      let next : u32 (c * 24 + 24) ≡ (c + 1) * 24 = omega arith in
      rw
        (
          ==_false (entry_at sector idx).file_type 0 ne,
          lt→ltb (c * 24) (k * 24) (omega arith),
          next,
        )
        refl

  scan_here :
      (k : ℕ)
      → (entry_at sector idx).file_type ≢ 0
      → scan_entries (suc n) idx sector (k * 24) (k * 24) ≡ some (found (entry_at sector idx))
  unfolding scan_entries
  scan_here k ne =
      rw
        (
          ==_false (entry_at sector idx).file_type 0 ne,
          ltb-false (k * 24) (k * 24) (omega arith),
          ==_refl (k * 24),
        )
        refl

-- Entry `k` is found, where `c` entries stand before these.
scan_entries-found :
    (n idx : ℕ) (sector : List ℕ) (c k : ℕ) (de : DirEntry)
    → c ≤ k
    → k * 24 < 2 ^ 32
    → get_elem? (used_entries n idx sector) (k - c) ≡ some de
    → scan_entries n idx sector (c * 24) (k * 24) ≡ some (found de)
unfolding scan_entries used_entries
scan_entries-found zero idx sector c k de le small h = absurd (ground arith)
scan_entries-found (suc n) idx sector c k de le small h =
    elim (ℕ_discrete (entry_at sector idx).file_type 0) [
      | yes e ↦
          scan_free n idx sector (c * 24) (k * 24) e
          ∙ scan_entries-found n (idx + 1) sector c k de le small
              (ap (λ t. get_elem? t (k - c)) (sym (used_free n idx sector e)) ∙ h)
      | no ne ↦
          let g = ap (λ t. get_elem? t (k - c)) (sym (used_taken n idx sector ne)) ∙ h in
          elim (dec_lt c k) [
            | yes lt ↦
                let j : k - c ≡ suc (k - (c + 1)) = omega arith in
                scan_before n idx sector c k ne lt small
                ∙ scan_entries-found n (idx + 1) sector (c + 1) k de (omega arith) small (rw j at g)
            | no nlt ↦
                let j : k - c ≡ 0 = omega arith in
                let ck : c ≡ k = omega arith in
                rw (ck)
                  (scan_here n idx sector k ne ∙ ap (λ t. t >>= λ d. some (found d)) (rw j at g))
          ]
    ]

-- All of the entries are passed over.
scan_entries-passed :
    (n idx : ℕ) (sector : List ℕ) (c k m : ℕ)
    → length (used_entries n idx sector) ≡ m
    → c + m ≤ k
    → k * 24 < 2 ^ 32
    → scan_entries n idx sector (c * 24) (k * 24) ≡ some (passed ((c + m) * 24))
unfolding scan_entries used_entries
scan_entries-passed zero idx sector c k m e le small = ap (λ t. some (passed t)) (omega (arith, e))
scan_entries-passed (suc n) idx sector c k m e le small =
    elim (ℕ_discrete (entry_at sector idx).file_type 0) [
      | yes z ↦
          scan_free n idx sector (c * 24) (k * 24) z
          ∙ scan_entries-passed n (idx + 1) sector c k m
              (ap length (sym (used_free n idx sector z)) ∙ e) le small
      | no ne ↦
          let len = ap length (used_taken n idx sector ne) in
          let q : (c + 1 + (m - 1)) * 24 ≡ (c + m) * 24 = omega (arith, len, e) in
          scan_before n idx sector c k ne (omega (arith, len, e, le)) small
          ∙ scan_entries-passed n (idx + 1) sector (c + 1) k (m - 1) (omega (arith, len, e))
              (omega (arith, len, e, le)) small
          ∙ ap (λ t. some (passed t)) q
    ]

module _ (disk : Disk) (lba : ℕ → ℕ) where
  -- Block `i` is listed, and on the disk where it is not 0.
  abbrev pub IsListed : (all_blocks : List ℕ) → ℕ → Type 0
  IsListed all i = (get_elem? all i ≡ some (lba i)) × (lba i ≢ 0 → lba i < max_lba)

  pub block_free :
      (n idx : ℕ)
      → lba idx ≡ 0
      → block_entries disk lba (suc n) idx ≡ block_entries disk lba n (idx + 1)
  unfolding block_entries
  block_free n idx z = rw (z) refl

  pub block_used :
      (n idx : ℕ)
      → lba idx ≢ 0
      → block_entries disk lba (suc n) idx
        ≡ used_entries 21 0 (disk (lba idx)) ++ block_entries disk lba n (idx + 1)
  unfolding block_entries
  block_used n idx nz = rw (==_false (lba idx) 0 nz) refl

  -- Entry `k` is found in the blocks, where `c` entries stand before these.
  pub read_entries-found :
      (n idx : ℕ) (all : List ℕ) (size c k : ℕ) (de : DirEntry)
      → ((i : ℕ) → idx ≤ i → i < idx + n → IsListed all i)
      → c ≤ k
      → k * 24 < size
      → size < 2 ^ 32
      → get_elem? (block_entries disk lba n idx) (k - c) ≡ some de
      → read_entries n idx disk all size (c * 24) (k * 24) ≡ some (some de)
  unfolding read_entries block_entries
  read_entries-found zero idx all size c k de listed le below small h = absurd (ground arith)
  read_entries-found (suc n) idx all size c k de listed le below small h =
      let (here, on_disk) = listed idx (omega arith) (omega arith) in
      let entries = used_entries dir_entry_cnt_per_sec 0 (disk (lba idx)) in
      let rest = block_entries disk lba n (idx + 1) in
      let go = lt→ltb (k * 24) size below in
      elim (ℕ_discrete (lba idx) 0) [
        | yes z ↦
            let h' = ap (λ t. get_elem? t (k - c)) (sym (block_free n idx z)) ∙ h in
            rw (go, here, z)
              (read_entries-found n (idx + 1) all size c k de
                (λ i lo hi. listed i (omega arith) (omega arith)) le below small h')
        | no nz ↦
            let h' = ap (λ t. get_elem? t (k - c)) (sym (block_used n idx nz)) ∙ h in
            let sector = ide_read_lem disk lba (lba idx) (on_disk nz) in
            elim (dec_lt (k - c) (length entries)) [
              | yes lt ↦
                  let scan =
                    scan_entries-found 21 0 (disk (lba idx)) c k de le (omega arith)
                      (sym (get_elem?-append_left entries rest (k - c) lt) ∙ h') in
                  rw (go, here, ==_false (lba idx) 0 nz, sector, scan) refl
              | no nlt ↦
                  let scan =
                    scan_entries-passed 21 0 (disk (lba idx)) c k (length entries) refl
                      (omega arith) (omega arith) in
                  let split =
                    get_elem?-append_right entries rest (k - c) (k - (c + length entries))
                      (omega arith) in
                  rw (go, here, ==_false (lba idx) 0 nz, sector, scan)
                    (read_entries-found n (idx + 1) all size (c + length entries) k de
                      (λ i lo hi. listed i (omega arith) (omega arith)) (omega arith) below small
                      (sym split ∙ h'))
            ]
      ]

-- At the end of the directory the loop stops.
pub read_entries_end :
    (n idx : ℕ) (disk : Disk) (all : List ℕ) (size cur pos : ℕ)
    → size ≤ pos
    → read_entries n idx disk all size cur pos ≡ some none
unfolding read_entries
read_entries_end zero idx disk all size cur pos le = refl
read_entries_end (suc n) idx disk all size cur pos le = rw (ltb-false pos size le) refl

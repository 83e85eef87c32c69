-- ===== src/Fs/Dir/Remove/Counts.antt =====
-- fs/dir.c, the inner loop of `deleteDirEntry`: what it counts in a sector.
use mathlib.Core.Path.{subst}
use gogoos.Common.{
  ℕ, zero, suc, ◌+◌, ◌<◌, ◌≤◌, ◌≡◌, ◌≢◌, refl, sym, ap, ◌∙◌, Bool, true, false, Option, none, some,
  List, [], ◌∷◌, arith, ◌==◌, not, ◌&&◌, inl, inr, Bool-cases, ==_refl, ==_false, if◌then◌else◌,
  length, ℕ_discrete,
}
use gogoos.Common.Int.{ℤ, is_zero}
use gogoos.CString.{strcmp}
use gogoos.CString.Compare.{strcmp_ends}
use gogoos.Fs.Dir.{DirEntry, entry_at}
use gogoos.Fs.Dir.Remove.{Counted, count_entry, count_entries}

abbrev zero_result : Option ℤ → Bool
zero_result none = false
zero_result (some r) = is_zero r

-- the test for the name "."
abbrev pub dot_named : DirEntry → Bool
dot_named de = zero_result (strcmp de.file_name (b'.' ∷ 0 ∷ []))

-- an entry in use with the number, not named "."
pub record IsMatch (ino : ℕ) (de : DirEntry) : Type 0 where
  pub in_use : de.file_type ≢ 0
  pub named : dot_named de ≡ false
  pub numbered : de.ino ≡ ino

-- How much a block holds, up to 2: an entry "." alone keeps it.
abbrev pub seen : Counted → ℕ
seen c = if c.is_dir_first_block then 2 + c.dir_entry_cnt else c.dir_entry_cnt

pub keeps :
    (c : Counted)
    → 1 ≤ c.dir_entry_cnt
    → 2 ≤ seen c
    → (c.dir_entry_cnt == 1 && not c.is_dir_first_block) ≡ false
keeps c one two = ground arith

-- One more is seen, unless two are.
abbrev Grows : Counted → Counted → Type 0
Grows c c' = (k : ℕ) → k < 2 → k ≤ seen c → suc k ≤ seen c'

module _ (de : DirEntry) (ino idx : ℕ) (c : Counted) where
  count_free : de.file_type ≡ 0 → count_entry de ino idx c ≡ some c
  unfolding count_entry
  count_free z = rw (z) refl

  module _ (long : 2 ≤ length de.file_name) (nz : de.file_type ≢ 0) where
    count_dot :
        dot_named de ≡ true
        → count_entry de ino idx c ≡ some (record c { is_dir_first_block = true })
    unfolding count_entry
    count_dot d =
        let (r, run) = strcmp_ends de.file_name (b'.' ∷ []) (omega arith) in
        let is : is_zero r ≡ true = ap zero_result (sym run) ∙ d in
        rw (==_false de.file_type 0 nz, run, is) refl

    count_other :
        dot_named de ≡ false
        → de.ino ≢ ino
        → count_entry de ino idx c ≡ some (record c { dir_entry_cnt = c.dir_entry_cnt + 1 })
    unfolding count_entry
    count_other d ne =
        let (r, run) = strcmp_ends de.file_name (b'.' ∷ []) (omega arith) in
        let is : is_zero r ≡ false = ap zero_result (sym run) ∙ d in
        rw (==_false de.file_type 0 nz, run, is, ==_false de.ino ino ne) refl

    count_match :
        dot_named de ≡ false
        → de.ino ≡ ino
        → c.de_found ≡ none
        → count_entry de ino idx c
          ≡ some (record c { dir_entry_cnt = c.dir_entry_cnt + 1; de_found = some idx })
    unfolding count_entry
    count_match d e none_yet =
        let (r, run) = strcmp_ends de.file_name (b'.' ∷ []) (omega arith) in
        let is : is_zero r ≡ false = ap zero_result (sym run) ∙ d in
        rw (==_false de.file_type 0 nz, run, is, e, ==_refl ino, none_yet) refl

module _ (sector : List ℕ) (ino : ℕ)
    (long : (i : ℕ) → i < 21 → 2 ≤ length (entry_at sector i).file_name) where
  -- What an entry that is not the one adds.
  count_entry-passed :
      (idx : ℕ) (c : Counted)
      → idx < 21
      → ¬ IsMatch ino (entry_at sector idx)
      → (c' : Counted) × (count_entry (entry_at sector idx) ino idx c ≡ some c')
        × (c'.de_found ≡ c.de_found)
        × (c.dir_entry_cnt ≤ c'.dir_entry_cnt)
        × (seen c ≤ seen c')
        × ((entry_at sector idx).file_type ≢ 0 → Grows c c')
  count_entry-passed idx c lt none_here =
      let de = entry_at sector idx in
      elim (ℕ_discrete de.file_type 0) [
        | yes z ↦
            (c, count_free de ino idx c z, refl, omega arith, omega arith, λ nz. absurd (nz z))
        | no nz ↦ elim (Bool-cases (dot_named de)) [
          | inl d ↦ (
            _,
            count_dot de ino idx c (long idx lt) nz d,
            refl,
            omega arith,
            ground arith,
            λ _ k small le. omega arith,
          )
          | inr d ↦
              let ne : de.ino ≢ ino =
                λ e. none_here (record { in_use = nz; named = d; numbered = e }) in
              (
                _,
                count_other de ino idx c (long idx lt) nz d ne,
                refl,
                omega arith,
                ground arith,
                λ _ k small le. ground arith,
              )
        ]
      ]

  pub count_entries-passed :
      (n idx : ℕ) (c : Counted)
      → idx + n ≤ 21
      → ((i : ℕ) → idx ≤ i → i < idx + n → ¬ IsMatch ino (entry_at sector i))
      → (c' : Counted) × (count_entries n idx sector ino c ≡ some c')
        × (c'.de_found ≡ c.de_found)
        × (c.dir_entry_cnt ≤ c'.dir_entry_cnt)
        × (seen c ≤ seen c')
        × ((i : ℕ) → idx ≤ i → i < idx + n → (entry_at sector i).file_type ≢ 0 → Grows c c')
  unfolding count_entries
  count_entries-passed zero idx c few none_here =
      (c, refl, refl, omega arith, omega arith, λ i lo hi. absurd (omega arith))
  count_entries-passed (suc n) idx c few none_here =
      let (c1, run, same, more, saw, grew) =
        count_entry-passed idx c (omega arith) (none_here idx (omega arith) (omega arith)) in
      let (c', run', same', more', saw', grew') =
        count_entries-passed n (idx + 1) c1 (omega arith)
          (λ i lo hi. none_here i (omega arith) (omega arith)) in
      (
        c',
        rw (run) run',
        same' ∙ same,
        omega arith,
        omega arith,
        λ i lo hi nz k small le. elim (ℕ_discrete idx i) [
          | yes e ↦
              let now =
                grew (λ z. nz (ap (λ t. (entry_at sector t).file_type) (sym e) ∙ z)) k small le in
              omega (arith, now, saw')
          | no ne ↦ grew' i (omega arith) (omega arith) nz k small (omega (arith, le, saw))
        ],
      )

  -- The loop finds the one entry that matches, and sees every other entry in use.
  pub count_entries-found :
      (n idx j : ℕ) (c : Counted)
      → idx + n ≤ 21
      → idx ≤ j
      → j < idx + n
      → IsMatch ino (entry_at sector j)
      → ((i : ℕ) → idx ≤ i → i < idx + n → IsMatch ino (entry_at sector i) → i ≡ j)
      → c.de_found ≡ none
      → (c' : Counted) × (count_entries n idx sector ino c ≡ some c')
        × (c'.de_found ≡ some j)
        × (1 ≤ c'.dir_entry_cnt)
        × Grows c c'
        × ((i : ℕ)
            → idx ≤ i
            → i < idx + n
            → i ≢ j
            → (entry_at sector i).file_type ≢ 0
            → 2 ≤ seen c')
  unfolding count_entries
  count_entries-found zero idx j c few lo hi m only none_yet = absurd (omega arith)
  count_entries-found (suc n) idx j c few lo hi m only none_yet = elim (ℕ_discrete idx j) [
    | yes e ↦
        let m' = subst (λ t. IsMatch ino (entry_at sector t)) (sym e) m in
        let run =
          count_match (entry_at sector idx) ino idx c (long idx (omega arith)) m'.in_use m'.named
            m'.numbered none_yet in
        let (c', run', same, more, saw, grew) =
          count_entries-passed n (idx + 1)
            (record c { dir_entry_cnt = c.dir_entry_cnt + 1; de_found = some idx }) (omega arith)
            (λ i a b q. absurd (omega (arith, only i (omega arith) (omega arith) q))) in
        (
          c',
          rw (run) run',
          same ∙ ap some e,
          omega arith,
          λ k small le. ground arith,
          λ i a b ne nz.
              grew i (omega (arith, ne, e)) (omega arith) nz 1 (omega arith) (ground arith),
        )
    | no ne ↦
        let (c1, run, same, more, saw, grew) =
          count_entry-passed idx c (omega arith)
            (λ q. ne (only idx (omega arith) (omega arith) q)) in
        let (c', run', at_j, one, grew', others) =
          count_entries-found n (idx + 1) j c1 (omega arith) (omega arith) (omega arith) m
            (λ i a b. only i (omega arith) (omega arith)) (same ∙ none_yet) in
        (
          c',
          rw (run) run',
          at_j,
          one,
          λ k small le. grew' k small (omega (arith, le, saw)),
          λ i a b nj nz. elim (ℕ_discrete idx i) [
            | yes e ↦ grew' 1 (omega arith) (
                grew (λ z. nz (ap (λ t. (entry_at sector t).file_type) (sym e) ∙ z)) 0 (omega arith)
                  (omega arith))
            | no ni ↦ others i (omega arith) (omega arith) nj nz
          ],
        )
  ]

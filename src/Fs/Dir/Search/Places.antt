-- ===== src/Fs/Dir/Search/Places.antt =====
-- fs/dir.c: what the inner loop of `searchDirEntry` finds among the places of a block.
use gogoos.Common.{
  ℕ, zero, suc, ◌+◌, ◌*◌, ◌<◌, ◌≤◌, ◌≡◌, refl, ap, ◌∙◌, true, false, Option, none, some, List, [],
  ◌∷◌, ◌++◌, arith, ==_iff, inl, inr, Bool-cases, length, length-drop, drop, ℕ_discrete,
}
use gogoos.Common.Int.{ℤ, pos, negsuc, is_zero}
use gogoos.CString.{strcmp}
use gogoos.CString.Compare.{strcmp_ends}
use gogoos.Fs.Dir.{DirEntry, entry_at}
use gogoos.Fs.Dir.Search.{search_entries}

-- Place `k` of a buffer has the name, as `strcmp` has it.
abbrev pub IsNamed : (name buf : List ℕ) → ℕ → Type 0
IsNamed name buf k = strcmp (drop (24 * k) buf) (name ++ (0 ∷ [])) ≡ some (pos 0)

is_zero_lem : (r : ℤ) → is_zero r ≡ true → r ≡ pos 0
is_zero_lem (pos n) h = ap pos ((==_iff n 0).0 h)
is_zero_lem (negsuc n) h = ground arith

not_zero : {r : Option ℤ} (z : ℤ) → r ≡ some z → is_zero z ≡ false → ¬ (r ≡ some (pos 0))
not_zero z run other q = let e : z ≡ pos 0 = cc in absurd (ground (arith, rw (e) at other))

-- the answer for the places `lo` to 23 of a buffer
abbrev pub InBuffer : (name buf : List ℕ) → (lo : ℕ) → Option DirEntry → Type 0
InBuffer name buf lo none = (k : ℕ) → lo ≤ k → k < 24 → ¬ IsNamed name buf k
InBuffer name buf lo (some de) =
    (k : ℕ) × (k < 24)
    × (entry_at buf k ≡ de)
    × IsNamed name buf k
    × ((i : ℕ) → lo ≤ i → i < k → ¬ IsNamed name buf i)

InBuffer-skip :
    (name buf : List ℕ) (lo : ℕ) (r : Option DirEntry)
    → ¬ IsNamed name buf lo
    → InBuffer name buf (lo + 1) r
    → InBuffer name buf lo r
InBuffer-skip name buf lo none other h = λ k a b. elim (ℕ_discrete lo k) [
  | yes e ↦ λ q. other (ap (λ t. strcmp (drop (24 * t) buf) (name ++ (0 ∷ []))) e ∙ q)
  | no ne ↦ h k (omega arith) b
]
InBuffer-skip name buf lo (some de) other (k, few, at_k, named, first) = (
  k,
  few,
  at_k,
  named,
  λ i a b. elim (ℕ_discrete lo i) [
    | yes e ↦ λ q. other (ap (λ t. strcmp (drop (24 * t) buf) (name ++ (0 ∷ []))) e ∙ q)
    | no ne ↦ first i (omega arith) b
  ],
)

pub search_entries-InBuffer :
    (n idx : ℕ) (buf name : List ℕ)
    → idx + n ≡ 24
    → length buf ≡ 576
    → length name < 24
    → (r : Option DirEntry) × (search_entries n idx buf (name ++ (0 ∷ [])) ≡ some r)
      × InBuffer name buf idx r
unfolding search_entries
search_entries-InBuffer zero idx buf name e len short = (none, refl, λ k a b. absurd (omega arith))
search_entries-InBuffer (suc n) idx buf name e len short =
    let (z, run) =
      strcmp_ends (drop (24 * idx) buf) name
        (omega (arith, length-drop (24 * idx) buf, len, short)) in
    elim (Bool-cases (is_zero z)) [
      | inl same ↦ (
        some (entry_at buf idx),
        rw (run, same) refl,
        (idx, omega arith, refl, run ∙ ap some (is_zero_lem z same), λ i a b. absurd (omega arith)),
      )
      | inr other ↦
          let (r, run', found) =
            search_entries-InBuffer n (idx + 1) buf name (omega arith) len short in
          (r, rw (run, other) run', InBuffer-skip name buf idx r (not_zero z run other) found)
    ]

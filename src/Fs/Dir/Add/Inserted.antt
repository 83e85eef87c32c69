-- ===== src/Fs/Dir/Add/Inserted.antt =====
-- fs/dir.c: the entries of a directory when one of them is written.
use mathlib.Core.Path.{subst}
use gogoos.Common.{
  ℕ, zero, suc, ◌+◌, ◌<◌, ◌≤◌, ◌≡◌, ◌≢◌, refl, sym, ap, ap₂, ◌∙◌, some, List, [], ◌∷◌, ◌++◌, arith,
  ==_false, length, length-append, ℕ_discrete,
}
use gogoos.Fs.{Disk}
use gogoos.Fs.Dir.{DirEntry, entry_at}
use gogoos.Fs.Dir.Entries.{
  used_entries, used_free, used_taken, block_entries, block_free, block_used,
}
use gogoos.Fs.Dir.Add.{free_entry}

-- `l'` is `l` with `de` at some place.
pub record IsInserted (de : DirEntry) (l l' : List DirEntry) : Type 0 where
  pub front : List DirEntry
  pub rest : List DirEntry
  pub before : l ≡ front ++ rest
  pub after : l' ≡ front ++ (de ∷ rest)

append_assoc : (xs ys zs : List DirEntry) → (xs ++ ys) ++ zs ≡ xs ++ (ys ++ zs)
append_assoc [] ys zs = refl
append_assoc (x ∷ xs) ys zs = ap (λ t. x ∷ t) (append_assoc xs ys zs)

IsInserted-append_left :
    (de : DirEntry) (p l l' : List DirEntry) → IsInserted de l l' → IsInserted de (p ++ l) (p ++ l')
IsInserted-append_left de p l l' v = record {
  front = p ++ v.front;
  rest = v.rest;
  before = ap (λ t. p ++ t) v.before ∙ sym (append_assoc p v.front v.rest);
  after = ap (λ t. p ++ t) v.after ∙ sym (append_assoc p v.front (de ∷ v.rest));
}

IsInserted-append_right :
    (de : DirEntry) (l l' q : List DirEntry) → IsInserted de l l' → IsInserted de (l ++ q) (l' ++ q)
IsInserted-append_right de l l' q v = record {
  front = v.front;
  rest = v.rest ++ q;
  before = ap (λ t. t ++ q) v.before ∙ append_assoc v.front v.rest q;
  after = ap (λ t. t ++ q) v.after ∙ append_assoc v.front (de ∷ v.rest) q;
}

IsInserted-to :
    (de : DirEntry) {l l' m m' : List DirEntry}
    → m ≡ l
    → m' ≡ l'
    → IsInserted de l l'
    → IsInserted de m m'
IsInserted-to de e e' v = record {
  front = v.front;
  rest = v.rest;
  before = e ∙ v.before;
  after = e' ∙ v.after;
}

pub length-IsInserted :
    (de : DirEntry) (l l' : List DirEntry) → IsInserted de l l' → length l' ≡ suc (length l)
length-IsInserted de l l' v =
    ap length v.after
    ∙ omega (
      arith,
      length-append v.front (de ∷ v.rest),
      length-append v.front v.rest,
      ap length v.before,
    )

pub free_entry-free :
    (n idx : ℕ) (s : List ℕ) (j : ℕ)
    → free_entry n idx s ≡ some j
    → (idx ≤ j) × (j < idx + n) × ((entry_at s j).file_type ≡ 0)
unfolding free_entry
free_entry-free zero idx s j h = absurd (ground arith)
free_entry-free (suc n) idx s j h = elim (ℕ_discrete (entry_at s idx).file_type 0) [
  | yes z ↦
      let e : idx ≡ j = ground (arith, h, z) in
      (omega arith, omega arith, ap (λ t. (entry_at s t).file_type) (sym e) ∙ z)
  | no nz ↦
      let h' : free_entry n (idx + 1) s ≡ some j =
        rw (==_false (entry_at s idx).file_type 0 nz) at h in
      let (lo, hi, z) = free_entry-free n (idx + 1) s j h' in (omega arith, omega arith, z)
]

module _ (s s' : List ℕ) where
  used_entries-same :
      (n idx : ℕ)
      → ((i : ℕ) → idx ≤ i → i < idx + n → entry_at s' i ≡ entry_at s i)
      → used_entries n idx s' ≡ used_entries n idx s
  unfolding used_entries
  used_entries-same zero idx same = refl
  used_entries-same (suc n) idx same =
      let ih = used_entries-same n (idx + 1) (λ i lo hi. same i (omega arith) (omega arith)) in
      rw (same idx (omega arith) (omega arith), ih) refl

  -- The entry that was free is `de`.
  pub used_entries-IsInserted :
      (n idx j : ℕ) (de : DirEntry)
      → idx ≤ j
      → j < idx + n
      → (entry_at s j).file_type ≡ 0
      → entry_at s' j ≡ de
      → de.file_type ≢ 0
      → ((i : ℕ) → i < 21 → i ≢ j → entry_at s' i ≡ entry_at s i)
      → idx + n ≤ 21
      → IsInserted de (used_entries n idx s) (used_entries n idx s')
  used_entries-IsInserted zero idx j de lo hi z new nz same few = absurd (omega arith)
  used_entries-IsInserted (suc n) idx j de lo hi z new nz same few = elim (ℕ_discrete idx j) [
    | yes e ↦
        let free = used_free n idx s (ap (λ t. (entry_at s t).file_type) e ∙ z) in
        let here = ap (entry_at s') e ∙ new in
        let taken = used_taken n idx s' (λ q. nz (ap (λ d. d.file_type) (sym here) ∙ q)) in
        record {
          front = [];
          rest = used_entries n (idx + 1) s;
          before = free;
          after =
              taken
              ∙ ap₂ (λ a b. a ∷ b) here
                  (used_entries-same n (idx + 1)
                    (λ i a b. same i (omega arith) (λ q. omega arith)));
        }
    | no ne ↦
        let ih =
          used_entries-IsInserted n (idx + 1) j de (omega arith) (omega arith) z new nz same
            (omega arith) in
        let old = same idx (omega arith) ne in
        elim (ℕ_discrete (entry_at s idx).file_type 0) [
          | yes f ↦
              IsInserted-to de (used_free n idx s f)
                (used_free n idx s' (ap (λ d. d.file_type) old ∙ f)) ih
          | no nf ↦
              IsInserted-to de (used_taken n idx s nf)
                (used_taken n idx s' (λ q. nf (ap (λ d. d.file_type) (sym old) ∙ q))
                  ∙ ap (λ t. t ∷ used_entries n (idx + 1) s') old)
                (IsInserted-append_left de (entry_at s idx ∷ []) (used_entries n (idx + 1) s)
                  (used_entries n (idx + 1) s') ih)
        ]
  ]

module _ (disk disk' : Disk) (lba lba' : ℕ → ℕ) where
  block_entries-same :
      (n idx : ℕ)
      → ((i : ℕ)
          → idx ≤ i
          → i < idx + n
          → (lba' i ≡ lba i) × (lba i ≢ 0 → disk' (lba i) ≡ disk (lba i)))
      → block_entries disk' lba' n idx ≡ block_entries disk lba n idx
  unfolding block_entries
  block_entries-same zero idx same = refl
  block_entries-same (suc n) idx same =
      let ih = block_entries-same n (idx + 1) (λ i lo hi. same i (omega arith) (omega arith)) in
      let (e, d) = same idx (omega arith) (omega arith) in
      elim (ℕ_discrete (lba idx) 0) [
        | yes z ↦ rw (e, z) ih
        | no nz ↦ rw (e, ==_false (lba idx) 0 nz, d nz, ih) refl
      ]

  pub block_entries-IsInserted :
      (n idx b : ℕ) (de : DirEntry)
      → idx ≤ b
      → b < idx + n
      → lba b ≢ 0
      → IsInserted de (used_entries 21 0 (disk (lba b))) (used_entries 21 0 (disk' (lba b)))
      → ((i : ℕ) → idx ≤ i → i < idx + n → lba' i ≡ lba i)
      → ((i : ℕ) → idx ≤ i → i < idx + n → i ≢ b → lba i ≢ 0 → disk' (lba i) ≡ disk (lba i))
      → IsInserted de (block_entries disk lba n idx) (block_entries disk' lba' n idx)
  block_entries-IsInserted zero idx b de lo hi nz v same others = absurd (omega arith)
  block_entries-IsInserted (suc n) idx b de lo hi nz v same others =
      let rest = block_entries disk lba n (idx + 1) in
      let rest' = block_entries disk' lba' n (idx + 1) in
      let here = same idx (omega arith) (omega arith) in
      elim (ℕ_discrete idx b) [
        | yes q ↦
            let at_b = ap lba q in
            let v' : IsInserted de (used_entries 21 0 (disk (lba idx)))
                (used_entries 21 0 (disk' (lba idx))) =
              subst (λ t. IsInserted de (used_entries 21 0 (disk t)) (used_entries 21 0 (disk' t)))
                (sym at_b) v in
            let kept : rest' ≡ rest = block_entries-same n (idx + 1) (λ i a c. (
              same i (omega arith) (omega arith),
              others i (omega arith) (omega arith) (λ e. omega arith),
            )) in
            IsInserted-to de (block_used disk lba n idx (λ z. nz (sym at_b ∙ z)))
              (block_used disk' lba' n idx (λ z. nz (sym at_b ∙ sym here ∙ z))
                ∙ ap₂ (λ t r. used_entries 21 0 (disk' t) ++ r) here kept)
              (IsInserted-append_right de (used_entries 21 0 (disk (lba idx)))
                (used_entries 21 0 (disk' (lba idx))) rest v')
        | no ne ↦
            let ih =
              block_entries-IsInserted n (idx + 1) b de (omega arith) (omega arith) nz v
                (λ i a c. same i (omega arith) (omega arith))
                (λ i a c. others i (omega arith) (omega arith)) in
            elim (ℕ_discrete (lba idx) 0) [
              | yes z ↦
                  IsInserted-to de (block_free disk lba n idx z)
                    (block_free disk' lba' n idx (here ∙ z)) ih
              | no nzi ↦
                  IsInserted-to de (block_used disk lba n idx nzi)
                    (block_used disk' lba' n idx (λ z. nzi (sym here ∙ z))
                      ∙ ap (λ t. used_entries 21 0 t ++ rest')
                          (ap disk' here ∙ others idx (omega arith) (omega arith) ne nzi))
                    (IsInserted-append_left de (used_entries 21 0 (disk (lba idx))) rest rest' ih)
            ]
      ]

-- ===== src/Fs/Dir/Add/Slots.antt =====
-- fs/dir.c: an entry that is written into a sector, and the others, which stay.
use gogoos.Common.{
  ℕ, zero, suc, ◌+◌, ◌*◌, ◌/◌, ◌%◌, ◌^◌, ◌<◌, ◌≤◌, ◌≡◌, ◌≢◌, refl, sym, ap, ap₂, ◌∙◌, List, [], ◌∷◌,
  ◌++◌, arith, get_or, take, drop, length, length-append, length-take, length-drop, overwrite,
  length-overwrite, get_or-take, get_or-drop, get_or-append_left, get_or-append_right,
  get_or-overwrite_in,
}
use gogoos.Fs.{words}
use gogoos.Fs.Read.Bytes.{drop_head}
use gogoos.Fs.Sectors.{le32}
use gogoos.Fs.Dir.{DirEntry, entry_at}
use gogoos.Fs.Dir.Add.{entry_bytes}

-- an entry that fits in its 24 bytes, and is in use
pub record IsEntry (de : DirEntry) : Type 0 where
  pub sixteen : length de.file_name ≡ 16
  pub ino_lt : de.ino < 2 ^ 32
  pub type_lt : de.file_type < 2 ^ 32
  pub in_use : de.file_type ≢ 0

-- the word at byte `p`
abbrev pub word_of : List ℕ → ℕ → ℕ
word_of s p =
    get_or s p 0
    + 256 * get_or s (suc p) 0
    + 65536 * get_or s (suc (suc p)) 0
    + 16777216 * get_or s (suc (suc (suc p))) 0

pub words-drop :
    (s : List ℕ) (p : ℕ) → p + 4 ≤ length s → get_or (words (drop p s)) 0 0 ≡ word_of s p
words-drop s p le =
    rw
      (
        drop_head s p (omega arith),
        drop_head s (suc p) (omega arith),
        drop_head s (suc (suc p)) (omega arith),
        drop_head s (suc (suc (suc p))) (omega arith),
      )
      refl

drop_nil : (n : ℕ) → drop {A = ℕ} n [] ≡ []
drop_nil zero = refl
drop_nil (suc n) = refl

word_same :
    (s s' : List ℕ) (p : ℕ)
    → ((k : ℕ) → p ≤ k → k < p + 4 → get_or s' k 0 ≡ get_or s k 0)
    → word_of s' p ≡ word_of s p
word_same s s' p h =
    rw
      (
        h p (omega arith) (omega arith),
        h (suc p) (omega arith) (omega arith),
        h (suc (suc p)) (omega arith) (omega arith),
        h (suc (suc (suc p))) (omega arith) (omega arith),
      )
      refl

word_is :
    (s : List ℕ) (p v : ℕ)
    → v < 2 ^ 32
    → ((k : ℕ) → k < 4 → get_or s (p + k) 0 ≡ get_or (le32 v) k 0)
    → word_of s p ≡ v
word_is s p v small h =
    let b0 : get_or s p 0 ≡ v % 256 = ap (λ t. get_or s t 0) (omega arith) ∙ h 0 (omega arith) in
    let b1 : get_or s (suc p) 0 ≡ v / 256 % 256 =
      ap (λ t. get_or s t 0) (omega arith) ∙ h 1 (omega arith) in
    let b2 : get_or s (suc (suc p)) 0 ≡ v / 65536 % 256 =
      ap (λ t. get_or s t 0) (omega arith) ∙ h 2 (omega arith) in
    let b3 : get_or s (suc (suc (suc p))) 0 ≡ v / 16777216 % 256 =
      ap (λ t. get_or s t 0) (omega arith) ∙ h 3 (omega arith) in
    rw (b0, b1, b2, b3) (omega (arith, small))

pub drop-drop : (a b : ℕ) (s : List ℕ) → drop a (drop b s) ≡ drop (b + a) s
drop-drop a zero s = ap (λ t. drop t s) (omega arith)
drop-drop a (suc b) [] = drop_nil a ∙ sym (drop_nil (suc b + a))
drop-drop a (suc b) (x ∷ s) =
    let e : suc b + a ≡ suc (b + a) = omega arith in rw (e) (drop-drop a b s)

-- A piece of a list is another list where every element is.
piece_lem :
    (xs s : List ℕ) (p : ℕ)
    → p + length xs ≤ length s
    → ((i : ℕ) → i < length xs → get_or s (p + i) 0 ≡ get_or xs i 0)
    → take (length xs) (drop p s) ≡ xs
piece_lem [] s p le same = refl
piece_lem (x ∷ xs) s p le same = rw (drop_head s p (omega arith)) (
    ap₂ (λ a b. a ∷ b) (ap (λ t. get_or s t 0) (omega arith) ∙ same 0 (omega arith))
      (piece_lem xs s (suc p) (omega arith)
        (λ i lt. ap (λ t. get_or s t 0) (omega arith) ∙ same (suc i) (omega arith))))

-- the fields, out of the bytes
fields :
    (s : List ℕ) (i : ℕ) (name : List ℕ)
    → length s ≡ 512
    → i < 21
    → length name ≡ 16
    → ((k : ℕ) → k < 16 → get_or s (24 * i + k) 0 ≡ get_or name k 0)
    → entry_at s i ≡ record {
      file_name = name;
      ino = word_of s (24 * i + 16);
      file_type = word_of s (24 * i + 20);
    }
unfolding entry_at
fields s i name len few sixteen same =
    let cut : take 16 (drop (24 * i) s) ≡ name =
      ap (λ t. take t (drop (24 * i) s)) (sym sixteen)
      ∙ piece_lem name s (24 * i) (omega (arith, len, sixteen))
          (λ k lt. same k (omega (arith, lt, sixteen))) in
    rw
      (
        cut,
        drop-drop 16 (24 * i) s,
        drop-drop 20 (24 * i) s,
        words-drop s (24 * i + 16) (omega (arith, len)),
        words-drop s (24 * i + 20) (omega (arith, len)),
      )
      refl

pub entry_at-same :
    (s s' : List ℕ) (i : ℕ)
    → length s ≡ 512
    → length s' ≡ 512
    → i < 21
    → ((k : ℕ) → 24 * i ≤ k → k < 24 * i + 24 → get_or s' k 0 ≡ get_or s k 0)
    → entry_at s' i ≡ entry_at s i
entry_at-same s s' i len len' few same =
    let name = take 16 (drop (24 * i) s) in
    let sixteen : length name ≡ 16 =
      omega (arith, length-take 16 (drop (24 * i) s), length-drop (24 * i) s, len) in
    let old : (k : ℕ) → k < 16 → get_or s (24 * i + k) 0 ≡ get_or name k 0 =
      λ k lt. sym (get_or-take 0 16 (drop (24 * i) s) k lt ∙ get_or-drop 0 (24 * i) s k) in
    fields s' i name len' few sixteen
      (λ k lt. same (24 * i + k) (omega arith) (omega arith) ∙ old k lt)
    ∙ rw
        (
          word_same s s' (24 * i + 16) (λ k lo hi. same k (omega arith) (omega arith)),
          word_same s s' (24 * i + 20) (λ k lo hi. same k (omega arith) (omega arith)),
        )
        (sym (fields s i name len few sixteen old))

-- The entry that is written is read.
pub entry_at-written :
    (s : List ℕ) (i : ℕ) (de : DirEntry)
    → length s ≡ 512
    → i < 21
    → IsEntry de
    → entry_at (overwrite (24 * i) (entry_bytes de) s) i ≡ de
entry_at-written s i de len few v =
    let bytes = entry_bytes de in
    let s' = overwrite (24 * i) bytes s in
    let size : length bytes ≡ 24 =
      omega (arith, length-append de.file_name (le32 de.ino ++ le32 de.file_type), v.sixteen) in
    let len' = length-overwrite (24 * i) bytes s (omega (arith, len, size)) in
    let at_byte : (k : ℕ) → k < 24 → get_or s' (24 * i + k) 0 ≡ get_or bytes k 0 = λ k lt.
      get_or-overwrite_in 0 (24 * i) bytes s (omega (arith, len, size)) (24 * i + k) k refl
        (omega (arith, size, lt)) in
    let behind : (k : ℕ)
        → k < 8
        → get_or bytes (16 + k) 0 ≡ get_or (le32 de.ino ++ le32 de.file_type) k 0 =
      λ k lt.
        get_or-append_right 0 de.file_name (le32 de.ino ++ le32 de.file_type) (16 + k) k
          (omega (arith, v.sixteen)) in
    let word : (k : ℕ)
        → k < 8
        → get_or s' (24 * i + (16 + k)) 0 ≡ get_or (le32 de.ino ++ le32 de.file_type) k 0 =
      λ k lt. at_byte (16 + k) (omega arith) ∙ behind k lt in
    fields s' i de.file_name (omega (arith, len', len)) few v.sixteen (λ k lt.
      at_byte k (omega arith)
      ∙ get_or-append_left 0 de.file_name (le32 de.ino ++ le32 de.file_type) k
          (omega (arith, v.sixteen, lt)))
    ∙ rw
        (
          word_is s' (24 * i + 16) de.ino v.ino_lt (λ k lt.
              ap (λ t. get_or s' t 0) (omega arith)
              ∙ word k (omega arith)
              ∙ get_or-append_left 0 (le32 de.ino) (le32 de.file_type) k (omega (arith, lt))),
          word_is s' (24 * i + 20) de.file_type v.type_lt (λ k lt.
              ap (λ t. get_or s' t 0) (omega arith)
              ∙ word (4 + k) (omega arith)
              ∙ get_or-append_right 0 (le32 de.ino) (le32 de.file_type) (4 + k) k refl),
        )
        refl

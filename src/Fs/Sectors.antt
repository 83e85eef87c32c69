-- ===== src/Fs/Sectors.antt =====
-- The bytes of a run of sectors, where byte `k` lies in the sector `lba (k / 512)`, and `uint32` numbers
-- as bytes.
use gogoos.Common.{
  ℕ, zero, suc, ◌+◌, ◌*◌, ◌/◌, ◌%◌, ◌^◌, ◌<◌, ◌≤◌, ◌≡◌, refl, sym, ap, ap₂, ◌∙◌, List, [], ◌∷◌,
  ◌++◌, arith, length, get_or,
}
use gogoos.Fs.{Disk, words}
use gogoos.Fs.Read.Bytes.{file_bytes, file_bytes-suc, file_bytes_zero}

abbrev pub byte_at : Disk → (ℕ → ℕ) → ℕ → ℕ
byte_at disk lba k = get_or (disk (lba (k / 512))) (k % 512) 0

-- the low byte first
abbrev pub le32 : ℕ → List ℕ
le32 v = v % 256 ∷ v / 256 % 256 ∷ v / 65536 % 256 ∷ v / 16777216 % 256 ∷ []

abbrev pub bytes_of : List ℕ → List ℕ
bytes_of [] = []
bytes_of (v ∷ vs) = le32 v ++ bytes_of vs

abbrev pub AllWords : List ℕ → Type 0
AllWords [] = Unit {0}
AllWords (v ∷ vs) = (v < 2 ^ 32) × AllWords vs

pub length-bytes_of : (vs : List ℕ) → length (bytes_of vs) ≡ 4 * length vs
length-bytes_of [] = refl
length-bytes_of (v ∷ vs) = omega (arith, length-bytes_of vs)

pub words-bytes_of :
    (vs rest : List ℕ) → AllWords vs → words (bytes_of vs ++ rest) ≡ vs ++ words rest
words-bytes_of [] rest h = refl
words-bytes_of (v ∷ vs) rest h =
    ap₂ (λ a b. a ∷ b) (omega (arith, h.0)) (words-bytes_of vs rest h.1)

-- Two runs of bytes are the same where every byte is.
pub file_bytes-same :
    (disk disk' : Disk) (lba lba' : ℕ → ℕ) (p n : ℕ)
    → ((k : ℕ) → p ≤ k → k < p + n → byte_at disk lba k ≡ byte_at disk' lba' k)
    → file_bytes disk lba p n ≡ file_bytes disk' lba' p n
file_bytes-same disk disk' lba lba' p zero h =
    file_bytes_zero disk lba p ∙ sym (file_bytes_zero disk' lba' p)
file_bytes-same disk disk' lba lba' p (suc n) h =
    file_bytes-suc disk lba p n
    ∙ ap₂ (λ a b. a ∷ b) (h p (omega arith) (omega arith))
        (file_bytes-same disk disk' lba lba' (suc p) n (λ k lo hi. h k (omega arith) (omega arith)))
    ∙ sym (file_bytes-suc disk' lba' p n)

-- A run of bytes is a list where every byte is.
pub file_bytes-list :
    (disk : Disk) (lba : ℕ → ℕ) (p : ℕ) (xs : List ℕ)
    → ((i : ℕ) → i < length xs → byte_at disk lba (p + i) ≡ get_or xs i 0)
    → file_bytes disk lba p (length xs) ≡ xs
file_bytes-list disk lba p [] h = file_bytes_zero disk lba p
file_bytes-list disk lba p (x ∷ xs) h =
    file_bytes-suc disk lba p (length xs)
    ∙ ap₂ (λ a b. a ∷ b) (ap (byte_at disk lba) (omega arith) ∙ h 0 (omega arith))
        (file_bytes-list disk lba (suc p) xs
          (λ i lt. ap (byte_at disk lba) (omega arith) ∙ h (suc i) (omega arith)))

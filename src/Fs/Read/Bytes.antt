-- ===== src/Fs/Read/Bytes.antt =====
-- The bytes of a file, and the loop that copies them.
use gogoos.Common.{
  ℕ, zero, suc, ◌+◌, ◌-◌, ◌*◌, ◌/◌, ◌%◌, ◌^◌, ◌<◌, ◌≤◌, ◌≡◌, refl, ap, sym, some, List, [], ◌∷◌,
  ◌++◌, arith, ==_false, lt→ltb, length, get_elem?, get_or, take, drop, u32, min,
}
use gogoos.Fs.{Disk, ide_read, max_lba}
use gogoos.Fs.Read.{read_loop}

-- the `n` bytes from `p` on of the file whose block `i` is the sector `lba i`
pub file_bytes : Disk → (ℕ → ℕ) → (p n : ℕ) → List ℕ
file_bytes disk lba p zero = []
file_bytes disk lba p (suc n) =
    get_or (disk (lba (p / 512))) (p % 512) 0 ∷ file_bytes disk lba (suc p) n

pub drop_head : (xs : List ℕ) (i : ℕ) → i < length xs → drop i xs ≡ get_or xs i 0 ∷ drop (suc i) xs
drop_head [] i h = elim h [ ]
drop_head (x ∷ xs) zero h = refl
drop_head (x ∷ xs) (suc i) h = drop_head xs i (omega arith)

module _ (disk : Disk) (lba : ℕ → ℕ) where
  pub file_bytes-add :
      (p a b : ℕ)
      → file_bytes disk lba p (a + b) ≡ file_bytes disk lba p a ++ file_bytes disk lba (p + a) b
  unfolding file_bytes
  file_bytes-add p zero b =
      let e : zero + b ≡ b = omega arith in let q : p + 0 ≡ p = omega arith in rw (e, q)
  file_bytes-add p (suc a) b =
      let e : suc a + b ≡ suc (a + b) = omega arith in
      let q : p + suc a ≡ suc p + a = omega arith in rw (e, q, file_bytes-add (suc p) a b)

  pub file_bytes_zero : (p : ℕ) → file_bytes disk lba p 0 ≡ []
  unfolding file_bytes
  file_bytes_zero p = refl

  pub file_bytes-suc :
      (p n : ℕ)
      → file_bytes disk lba p (suc n)
        ≡ get_or (disk (lba (p / 512))) (p % 512) 0 ∷ file_bytes disk lba (suc p) n
  unfolding file_bytes
  file_bytes-suc p n = refl

  -- A piece of a sector.
  pub chunk_lem :
      (c p i r : ℕ)
      → p / 512 ≡ i
      → p % 512 ≡ r
      → r + c ≤ 512
      → length (disk (lba i)) ≡ 512
      → take c (drop r (disk (lba i))) ≡ file_bytes disk lba p c
  chunk_lem zero p i r di mo le len = sym (file_bytes_zero p)
  chunk_lem (suc zero) p i r di mo le len = rw (
    drop_head (disk (lba i)) r (omega arith),
    file_bytes-suc p 0,
    di,
    mo,
    file_bytes_zero (suc p),
  )
  chunk_lem (suc (suc c)) p i r di mo le len =
      rw (drop_head (disk (lba i)) r (omega arith), file_bytes-suc p (suc c), di, mo)
        (ap (λ t. get_or (disk (lba i)) r 0 ∷ t)
          (chunk_lem (suc c) (suc p) i (suc r) (omega arith) (omega arith) (omega arith) len))

  -- Block `i` can be read: its sector is in the table and on the disk.
  pub record IsBlock (all_blocks : List ℕ) (i : ℕ) : Type 0 where
    pub listed : get_elem? all_blocks i ≡ some (lba i)
    pub on_disk : lba i < max_lba
    pub whole : length (disk (lba i)) ≡ 512

  pub ide_read_lem : (n : ℕ) → n < max_lba → ide_read disk n ≡ some (disk n)
  unfolding ide_read
  ide_read_lem n h = rw (lt→ltb n max_lba h)

  -- The loop copies the bytes of the file, if every block that it meets can be read.
  pub read_loop-file_bytes :
      (f : ℕ) (all_blocks : List ℕ) (p n : ℕ)
      → n ≤ f
      → p + n < 2 ^ 32
      → ((i : ℕ) → p / 512 ≤ i → i * 512 < p + n → IsBlock all_blocks i)
      → read_loop f disk all_blocks p n ≡ some (file_bytes disk lba p n)
  unfolding read_loop
  read_loop-file_bytes zero all p n le small h =
      let e : n ≡ 0 = omega arith in rw (e, file_bytes_zero p)
  read_loop-file_bytes (suc f) all p zero le small h = rw (file_bytes_zero p)
  read_loop-file_bytes (suc f) all p (suc n) le small h =
      let c = min (suc n) (512 - p % 512) in
      let b = h (p / 512) (omega arith) (omega arith) in
      let w : u32 (p + c) ≡ p + c = omega arith in
      let ih =
        read_loop-file_bytes f all (p + c) (suc n - c) (omega arith) (omega arith)
          (λ i lo hi. h i (omega arith) (omega arith)) in
      let split : c + (suc n - c) ≡ suc n = omega arith in
      let piece = chunk_lem c p (p / 512) (p % 512) refl refl (omega arith) b.whole in
      rw
        (
          ==_false (suc n) 0 (omega arith),
          b.listed,
          ide_read_lem (lba (p / 512)) b.on_disk,
          w,
          ih,
          piece,
        )
        (ap some (sym (rw split at (file_bytes-add p c (suc n - c)))))

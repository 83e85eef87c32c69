-- ===== src/Fs/Write/Loop.antt =====
-- fs/file.c, the last loop of `fileWrite`: the bytes stand behind those of the file.
use gogoos.Common.{
  ℕ, zero, suc, ◌+◌, ◌-◌, ◌*◌, ◌/◌, ◌%◌, ◌^◌, ◌<◌, ◌≤◌, ◌≡◌, ◌≢◌, refl, sym, ap, ap₂, ◌∙◌, Bool,
  true, false, some, List, [], ◌∷◌, arith, leb, ◌==◌, ==_refl, ==_false, lt→ltb, if◌then◌else◌,
  length, get_or, take, drop, overwrite, length-overwrite, length-take, length-drop, length-zeros,
  get_or-take, get_or-drop, get_or-overwrite_in, get_or-overwrite_below, u32, min, dec_lt,
  ℕ_discrete,
}
use gogoos.Fs.{Disk, max_lba}
use gogoos.Fs.BitMaps.{ide_write}
use gogoos.Fs.Read.Bytes.{IsBlock, ide_read_lem}
use gogoos.Fs.Sectors.{byte_at}
use gogoos.Fs.Write.{blank_sector, write_loop}

-- No two of the blocks below the byte `n` lie in one sector.
abbrev pub Distinct : (ℕ → ℕ) → ℕ → Type 0
Distinct lba n = (i j : ℕ) → i * 512 < n → j * 512 < n → lba i ≡ lba j → i ≡ j

-- `src` stands behind the first `size` bytes of the file, and no sector but the ones it needed has changed.
pub record Appended (lba : ℕ → ℕ) (disk disk' : Disk) (size : ℕ) (src : List ℕ) : Type 0 where
  pub kept : (k : ℕ) → k < size → byte_at disk' lba k ≡ byte_at disk lba k
  pub added : (i : ℕ) → i < length src → byte_at disk' lba (size + i) ≡ get_or src i 0
  pub elsewhere :
      (s : ℕ)
      → ((i : ℕ) → size / 512 ≤ i → i * 512 < size + length src → s ≢ lba i)
      → disk' s ≡ disk s
  pub whole : (s : ℕ) → length (disk s) ≡ 512 → length (disk' s) ≡ 512

length-blank_sector : length blank_sector ≡ 512
unfolding blank_sector
length-blank_sector = length-zeros 512

module _ (lba : ℕ → ℕ) where
  nothing_added : (disk : Disk) (size : ℕ) → Appended lba disk disk size []
  nothing_added disk size = record {
    kept = λ k lt. refl;
    added = λ i lt. absurd (omega arith);
    elsewhere = λ s h. refl;
    whole = λ s h. h;
  }

  -- First some bytes, then the others.
  added_both :
      (disk disk1 disk2 : Disk) (size c : ℕ) (src : List ℕ)
      → 0 < c
      → c ≤ length src
      → Appended lba disk disk1 size (take c src)
      → Appended lba disk1 disk2 (size + c) (drop c src)
      → Appended lba disk disk2 size src
  added_both disk disk1 disk2 size c src pos le a b =
      let len = length-take c src in
      let len' = length-drop c src in
      record {
        kept = λ k lt. b.kept k (omega arith) ∙ a.kept k lt;
        added = λ i lt. elim (dec_lt i c) [
          | yes low ↦
              b.kept (size + i) (omega arith)
              ∙ a.added i (omega (arith, len))
              ∙ get_or-take 0 c src i low
          | no high ↦
              let e : size + i ≡ size + c + (i - c) = omega arith in
              let e' : c + (i - c) ≡ i = omega arith in
              rw (e) (
                b.added (i - c) (omega (arith, len'))
                ∙ get_or-drop 0 c src (i - c)
                ∙ ap (λ j. get_or src j 0) e')
        ];
        elsewhere = λ s h.
            b.elsewhere s (λ i lo hi. h i (omega arith) (omega (arith, hi, len')))
            ∙ a.elsewhere s (λ i lo hi. h i lo (omega (arith, hi, len)));
        whole = λ s h. b.whole s (a.whole s h);
      }

  -- One sector is written: up to the end of the file it holds what it held.
  one_round :
      (disk : Disk) (size n : ℕ) (piece buf : List ℕ)
      → Distinct lba n
      → size % 512 + length piece ≤ 512
      → 0 < length piece
      → size + length piece ≤ n
      → length buf ≡ 512
      → ((j : ℕ) → j < size % 512 → get_or buf j 0 ≡ get_or (disk (lba (size / 512))) j 0)
      → Appended lba disk
          (λ s.
            if s == lba (size / 512) then take 512 (overwrite (size % 512) piece buf) else disk s)
          size
          piece
  one_round disk size n piece buf distinct fits pos le len same =
      let here = lba (size / 512) in
      let buf' = overwrite (size % 512) piece buf in
      let len' = length-overwrite (size % 512) piece buf (omega (arith, len)) in
      record {
        kept = λ k lt. elim (ℕ_discrete (k / 512) (size / 512)) [
          | yes e ↦
              rw (e, ==_refl here)
                (get_or-take 0 512 buf' (k % 512) (omega arith)
                  ∙ get_or-overwrite_below 0 (size % 512) piece buf (omega (arith, len)) (k % 512)
                      (omega (arith, e))
                  ∙ same (k % 512) (omega (arith, e)))
          | no ne ↦
              rw
                (==_false (lba (k / 512)) here
                  (λ e. ne (distinct (k / 512) (size / 512) (omega arith) (omega arith) e)))
                refl
        ];
        added = λ i lt.
            let q : (size + i) / 512 ≡ size / 512 = omega arith in
            rw (q, ==_refl here)
              (get_or-take 0 512 buf' ((size + i) % 512) (omega arith)
                ∙ get_or-overwrite_in 0 (size % 512) piece buf (omega (arith, len))
                    ((size + i) % 512) i (omega arith) lt);
        elsewhere = λ s h. rw (==_false s here (h (size / 512) (omega arith) (omega arith))) refl;
        whole = λ s h. elim (ℕ_discrete s here) [
          | yes e ↦ rw (e, ==_refl here) (omega (arith, length-take 512 buf', len, len'))
          | no ne ↦ rw (==_false s here ne) h
        ];
      }

  -- the sectors of the blocks from the end of the file on, as far as it is going to reach
  abbrev pub AllBlocks : Disk → (all_blocks : List ℕ) → (size n : ℕ) → Type 0
  AllBlocks disk all size n = (i : ℕ) → size / 512 ≤ i → i * 512 < n → IsBlock disk lba all i

  -- `ioBuf` in a round
  abbrev io_buf : Bool → Disk → (size : ℕ) → List ℕ
  io_buf true disk size = disk (lba (size / 512))
  io_buf false disk size = blank_sector

  abbrev written : Bool → Disk → (size : ℕ) → (piece : List ℕ) → Disk
  written first disk size piece = λ s.
      if s == lba (size / 512)
      then take 512 (overwrite (size % 512) piece (io_buf first disk size))
      else disk s

  -- A round of the loop, whose buffer is the sector or zeros.
  round_Appended :
      (first : Bool) (disk : Disk) (all : List ℕ) (size n c : ℕ) (src : List ℕ)
      → 0 < c
      → c ≤ length src
      → size % 512 + c ≤ 512
      → size + length src ≤ n
      → (first ≡ false → 0 < length src → size % 512 ≡ 0)
      → IsBlock disk lba all (size / 512)
      → Distinct lba n
      → Appended lba disk (written first disk size (take c src)) size (take c src)
  round_Appended true disk all size n c src pos le fits end edge b distinct =
      let len = length-take c src in
      one_round disk size n (take c src) (disk (lba (size / 512))) distinct (omega (arith, len))
        (omega (arith, len)) (omega (arith, len)) b.whole (λ j lt. refl)
  round_Appended false disk all size n c src pos le fits end edge b distinct =
      let len = length-take c src in
      let start = edge refl (omega arith) in
      one_round disk size n (take c src) (blank_sector) distinct (omega (arith, len))
        (omega (arith, len)) (omega (arith, len)) (length-blank_sector)
        (λ j lt. absurd (omega (arith, start)))

  run_round :
      (f : ℕ) (first : Bool) (disk : Disk) (all : List ℕ) (size c fd_pos x : ℕ) (xs : List ℕ)
      → c ≡ min (suc (length xs)) (512 - size % 512)
      → IsBlock disk lba all (size / 512)
      → write_loop (suc f) first disk all size fd_pos (x ∷ xs)
        ≡ write_loop f false
            (written first disk size (take c (x ∷ xs)))
            all
            (u32 (size + c))
            (u32 (fd_pos + c))
            (drop c (x ∷ xs))
  unfolding write_loop ide_write
  run_round f true disk all size c fd_pos x xs e b =
      let src = x ∷ xs in
      let len =
        length-overwrite (size % 512) (take c src) (disk (lba (size / 512)))
          (omega (arith, b.whole, length-take c src)) in
      let long : leb 512 (length (overwrite (size % 512) (take c src) (disk (lba (size / 512)))))
          ≡ true =
        ground (arith, len, b.whole) in
      rw
        (
          sym e,
          ==_false (length src) 0 (omega arith),
          b.listed,
          ide_read_lem disk lba (lba (size / 512)) b.on_disk,
          lt→ltb (lba (size / 512)) max_lba b.on_disk,
          long,
        )
        refl
  run_round f false disk all size c fd_pos x xs e b =
      let src = x ∷ xs in
      let len =
        length-overwrite (size % 512) (take c src) (blank_sector)
          (omega (arith, length-blank_sector, length-take c src)) in
      let long : leb 512 (length (overwrite (size % 512) (take c src) (blank_sector))) ≡ true =
        ground (arith, len, length-blank_sector) in
      rw
        (
          sym e,
          ==_false (length src) 0 (omega arith),
          b.listed,
          lt→ltb (lba (size / 512)) max_lba b.on_disk,
          long,
        )
        refl

  -- The loop writes the bytes, if the first round reads the sector or the file ends with one.
  pub write_loop-Appended :
      (f : ℕ) (first : Bool) (disk : Disk) (all : List ℕ) (size n fd_pos : ℕ) (src : List ℕ)
      → length src ≤ f
      → size + length src ≡ n
      → n < 2 ^ 32
      → fd_pos < 2 ^ 32
      → (first ≡ false → 0 < length src → size % 512 ≡ 0)
      → AllBlocks disk all size n
      → Distinct lba n
      → (disk' : Disk) × (write_loop f first disk all size fd_pos src
          ≡ some (disk', (n, u32 (fd_pos + length src))))
        × Appended lba disk disk' size src
  unfolding write_loop
  write_loop-Appended zero first disk all size n fd_pos [] le e small w edge blocks distinct =
      let size_n : size ≡ n = omega (arith, e) in
      let pos : fd_pos ≡ u32 (fd_pos + 0) = omega arith in
      (disk, ap₂ (λ a b. some (disk, (a, b))) size_n pos, nothing_added disk size)
  write_loop-Appended zero first disk all size n fd_pos (x ∷ src) le e small w edge blocks
        distinct =
      absurd (omega arith)
  write_loop-Appended (suc f) first disk all size n fd_pos [] le e small w edge blocks distinct =
      let size_n : size ≡ n = omega (arith, e) in
      let pos : fd_pos ≡ u32 (fd_pos + 0) = omega arith in
      (disk, ap₂ (λ a b. some (disk, (a, b))) size_n pos, nothing_added disk size)
  write_loop-Appended (suc f) first disk all size n fd_pos (x ∷ xs) le e small w edge blocks
        distinct =
      let src = x ∷ xs in
      let c = min (length src) (512 - size % 512) in
      let b = blocks (size / 512) (omega arith) (omega arith) in
      let len = length-take c src in
      let len' = length-drop c src in
      let disk1 = written first disk size (take c src) in
      let round =
        round_Appended first disk all size n c src (omega arith) (omega arith) (omega arith)
          (omega arith) edge b distinct in
      let size1 : u32 (size + c) ≡ size + c = omega arith in
      let pos1 : u32 (u32 (fd_pos + c) + length (drop c src)) ≡ u32 (fd_pos + length src) =
        omega (arith, len') in
      let (disk', run, rest) =
        write_loop-Appended f false disk1 all (size + c) n (u32 (fd_pos + c)) (drop c src)
          (omega (arith, len')) (omega (arith, len')) small (omega arith)
          (λ q more. omega (arith, len', more))
          (λ i lo hi.
            let old = blocks i (omega arith) hi in
            record {
              listed = old.listed;
              on_disk = old.on_disk;
              whole = round.whole (lba i) old.whole;
            })
          distinct in
      (
        disk',
        run_round f first disk all size c fd_pos x xs refl b
            ∙ ap (λ t. write_loop f false disk1 all t (u32 (fd_pos + c)) (drop c src)) size1
            ∙ run
            ∙ ap (λ p. some (disk', (n, p))) pos1,
        added_both disk disk1 disk' size c src (omega arith) (omega arith) round rest,
      )

-- ===== src/Fs/OpenFiles/Users.antt =====
-- fs/file.c and fs/inode.c: who uses the inodes, over all opens and closes of files.
use mathlib.Core.Option.{some-injective}
use mathlib.Core.Path.{subst}
use gogoos.Common.{
  assert-eq-some, ℕ, zero, suc, ◌+◌, ◌^◌, ◌<◌, ◌≤◌, ◌≡◌, ◌≢◌, refl, sym, ap, ◌∙◌, Bool, true, false,
  not, Option, some, none, List, [], ◌∷◌, ◌==◌, ==_refl, ==_false, ==_iff, if◌then◌else◌, arith,
  ℕ_discrete, inl, inr, >>=-eq-some, if-cases, get_elem?-set_self, get_elem?, set, length,
  length-set,
}
use gogoos.Common.Int.{ℤ, pos}
use gogoos.Kernel.Thread.Count.{count}
use gogoos.Fs.{Disk, File}
use gogoos.Fs.Descriptors.{pcb_fd_install, get_free_slot_in_global}
use gogoos.Fs.Descriptors.Slots.{
  Global, slot as found_slot, exhausted, get_free_slot_in_global-Global,
}
use gogoos.Fs.OpenFiles.{
  Files, with_inode, with_file, inode_open, inode_close, open_at, load_inode, inode_locate,
  read_inode, reopened, find_inode, install_fd, writes, deny_writers, file_open, file_close,
}
use gogoos.Fs.OpenFiles.Counts.{
  IsCounted, and_one, inode_close-IsCounted, IsCounted-same, find_inode-count, reopened-IsCounted,
  loaded-IsCounted,
}

-- how many entries of the table name the inode at a place
unfoldable pub refs : ℕ → List File → ℕ
refs p [] = 0
refs p (f ∷ table) = (if f.fd_inode == p then 1 else 0) + refs p table

refs-set :
    (p : ℕ) (table : List File) (i : ℕ) (old new : File)
    → get_elem? table i ≡ some old
    → refs p (set table i new) + (if old.fd_inode == p then 1 else 0)
      ≡ refs p table + (if new.fd_inode == p then 1 else 0)
unfolding refs
refs-set p [] i old new e = cc
refs-set p (f ∷ table) zero old new e =
    let q : f ≡ old = some-injective _ _ e in rw (q) (omega arith)
refs-set p (f ∷ table) (suc i) old new e = omega (arith, refs-set p table i old new e)

refs-length : (p : ℕ) (table : List File) → refs p table ≤ length table
unfolding refs
refs-length p [] = omega arith
refs-length p (f ∷ table) = ground (arith, refs-length p table)

-- Every inode of the list counts the entries of the table that name it and its other users, which
-- are open directories.
pub record Held (others : ℕ → ℕ) (m : Files) : Type 0 where
  pub size : length m.file_table ≡ 32
  pub counted : IsCounted m.inodes m.open_inodes (λ p. refs p m.file_table + others p)

-- `inodeOpen`, of a place that is new, gives its inode one user more.
inode_open-IsCounted :
    (disk : Disk) (inode_table_lba fresh : ℕ) (m m' : Files) (ino at : ℕ) (users : ℕ → ℕ)
    → fresh ≢ 0
    → count fresh m.open_inodes ≡ 0
    → ((p : ℕ) → p ≢ 0 → users p < 2 ^ 30)
    → IsCounted m.inodes m.open_inodes users
    → inode_open disk inode_table_lba fresh m ino ≡ some (at, m')
    → (at ≢ 0)
      × IsCounted m'.inodes m'.open_inodes (and_one at users)
      × (m'.file_table ≡ m.file_table)
unfolding inode_open load_inode
inode_open-IsCounted disk lba fresh m m' ino at users new absent few h run =
    by_found (find_inode m.inodes m.open_inodes ino) refl run
  where
    Opened : ℕ × Files → Type 0
    Opened r =
        (r.0 ≢ 0)
        × IsCounted r.1.inodes r.1.open_inodes (and_one r.0 users)
        × (r.1.file_table ≡ m.file_table)

    by_found :
        (o : Option ℕ)
        → find_inode m.inodes m.open_inodes ino ≡ o
        → ◌≡◌ {A = Option (ℕ × Files)}
            (elim o [ some p ↦ some (p, reopened m p) | none ↦ load_inode disk lba fresh m ino ])
            (some (at, m'))
        → Opened (at, m')
    by_found (some p) known e =
        let listed : count p m.open_inodes ≡ 1 =
          omega (arith, find_inode-count m.inodes m.open_inodes ino p known, h.once p) in
        subst Opened (some-injective _ _ e)
          ((h.counted p listed).0, reopened-IsCounted m p users listed few h, refl)
    by_found none unknown e =
        let (ip, located, e1) = >>=-eq-some (inode_locate lba ino) _ e in
        let (placed, e2) = assert-eq-some (not (fresh == 0)) _ e1 in
        let (inode, loaded, e3) = >>=-eq-some (read_inode disk ip) _ e2 in
        subst Opened (some-injective _ _ e3)
          (new, loaded-IsCounted m.inodes m.open_inodes fresh inode users new absent few h, refl)

module _ (others : ℕ → ℕ) (bound : (p : ℕ) → p ≢ 0 → others p < 2 ^ 20) where
  users_few :
      (m : Files) → Held others m → (p : ℕ) → p ≢ 0 → refs p m.file_table + others p < 2 ^ 30
  users_few m h p ne = omega (arith, refs-length p m.file_table, h.size, bound p ne)

  -- A change of an inode that leaves its count.
  deny-Held :
      (m : Files) (at : ℕ) (deny : Bool)
      → Held others m
      → Held others (with_inode m at (record (m.inodes at) { write_deny = deny }))
  deny-Held m at deny h = record {
    size = h.size;
    counted =
        IsCounted-same m.inodes
          (with_inode m at (record (m.inodes at) { write_deny = deny })).inodes m.open_inodes _ _
          h.counted same_count (λ q nq. refl);
  }
    where
      same_count :
          (q : ℕ)
          → (if q == at then record (m.inodes at) { write_deny = deny } else m.inodes q).open_cnt
            ≡ (m.inodes q).open_cnt
      same_count q = elim (ℕ_discrete q at) [
        | yes e ↦ rw (e, ==_refl at) refl
        | no ne ↦ rw (==_false q at ne) refl
      ]

  -- An inode is closed, and the entry that named it is empty.
  closed-Held :
      (m : Files) (slot : ℕ) (file empty : File)
      → Held others m
      → get_elem? m.file_table slot ≡ some file
      → file.fd_inode ≢ 0
      → empty.fd_inode ≡ 0
      → Held others (with_file (inode_close m file.fd_inode) slot empty)
  closed-Held m slot file empty h at used none_left =
      let p = file.fd_inode in
      let users : ℕ → ℕ = λ q. refs q (set m.file_table slot empty) + others q in
      let before =
        IsCounted-same m.inodes m.inodes m.open_inodes _ (and_one p users) h.counted (λ q. refl)
          taken in
      let (after, table) = inode_close-IsCounted m p users used before in
      record {
        size = rw (table) (length-set m.file_table slot empty ∙ h.size);
        counted = rw (table) after;
      }
    where
      taken :
          (q : ℕ)
          → q ≢ 0
          → and_one file.fd_inode (λ r. refs r (set m.file_table slot empty) + others r) q
            ≡ refs q m.file_table + others q
      taken q nq =
          let moved = refs-set q m.file_table slot file empty at in
          let gone : (empty.fd_inode == q) ≡ false =
            rw (none_left) (==_false 0 q (λ e. nq (sym e))) in
          ground (arith, moved, gone)

  -- `fileClose` of an entry that is in use does not fault, and takes one user from its inode.
  pub file_close-Held :
      (m : Files) (slot : ℕ) (file : File)
      → Held others m
      → get_elem? m.file_table slot ≡ some file
      → file.fd_inode ≢ 0
      → (m' : Files) × (file_close m slot ≡ some m') × Held others m'
  unfolding file_close
  file_close-Held m slot file h at used =
      let p = file.fd_inode in
      let writable = with_inode m p (record (m.inodes p) { write_deny = false }) in
      let empty = record file { fd_inode = 0 } in
      (
        with_file (inode_close writable p) slot empty,
        rw (at, ==_false p 0 used) refl,
        closed-Held writable slot file empty (deny-Held m p false h) at used refl,
      )

  install_fd-Held :
      (m m' : Files) (slot : ℕ) (fd : ℤ)
      → Held others m
      → install_fd m slot ≡ some (fd, m')
      → Held others m'
  unfolding install_fd
  install_fd-Held m m' slot fd h run =
      let (r, installed, e) = >>=-eq-some (pcb_fd_install m.fd_table (pos slot)) _ run in
      rw (sym (ap (λ x. x.1) (some-injective _ _ e)))
        (record { size = h.size; counted = h.counted })

  deny_writers-Held :
      (m m' : Files) (slot at flag : ℕ) (file : File) (fd : ℤ)
      → Held others m
      → get_elem? m.file_table slot ≡ some file
      → file.fd_inode ≡ at
      → at ≢ 0
      → deny_writers m slot at flag ≡ some (fd, m')
      → Held others m'
  unfolding deny_writers
  deny_writers-Held m m' slot at flag file fd h entry names used run =
      elim (if-cases (not (writes flag)) _ _ run) [
        | inl p ↦ install_fd-Held m m' slot fd h p.1
        | inr p ↦ elim (if-cases (m.inodes at).write_deny _ _ p.1) [
          | inl q ↦
              let empty : File = record { fd_pos = 0; fd_flag = flag; fd_inode = 0 } in
              let closed = closed-Held m slot file empty h entry (λ z. used (sym names ∙ z)) refl in
              rw (sym (ap (λ x. x.1) (some-injective _ _ q.1)), sym names) closed
          | inr q ↦
              install_fd-Held (with_inode m at (record (m.inodes at) { write_deny = true })) m' slot
                fd (deny-Held m at true h) q.1
        ]
      ]

  -- `fileOpen`, of a place that is new, keeps the counts, whatever it returns.
  pub file_open-Held :
      (disk : Disk) (inode_table_lba fresh : ℕ) (m m' : Files) (ino flag : ℕ) (fd : ℤ)
      → Held others m
      → fresh ≢ 0
      → count fresh m.open_inodes ≡ 0
      → file_open disk inode_table_lba fresh m ino flag ≡ some (fd, m')
      → Held others m'
  unfolding file_open open_at
  file_open-Held disk lba fresh m m' ino flag fd h new absent run =
      let (fd_idx, found, e) = >>=-eq-some (get_free_slot_in_global m.file_table) _ run in
      let (r, found', g) = get_free_slot_in_global-Global m.file_table h.size in
      by_slot r g (rw (some-injective _ _ (sym found ∙ found')) at e)
    where
      joined :
          (m1 : Files) (i : ℕ) (old file : File)
          → m1.file_table ≡ m.file_table
          → get_elem? m1.file_table i ≡ some old
          → old.fd_inode ≡ 0
          → (q : ℕ) → q ≢ 0
          → refs q (set m1.file_table i file) + others q
            ≡ and_one file.fd_inode (λ p. refs p m.file_table + others p) q
      joined m1 i old file table entry unused q nq =
          let moved = refs-set q m1.file_table i old file entry in
          let gone : (old.fd_inode == q) ≡ false = rw (unused) (==_false 0 q (λ e. nq (sym e))) in
          let same = ap (refs q) table in ground (arith, moved, gone, same)

      by_slot :
          (r : ℤ)
          → Global m.file_table r
          → open_at disk lba fresh m ino flag r ≡ some (fd, m')
          → Held others m'
      by_slot r (exhausted full) e = rw (sym (ap (λ x. x.1) (some-injective _ _ e))) h
      by_slot r (found_slot {i = i} f) e =
          let ((at, m1), opened, e1) = >>=-eq-some (inode_open disk lba fresh m ino) _ e in
          let (used, counted, table) =
            inode_open-IsCounted disk lba fresh m m1 ino at _ new absent (users_few m h) h.counted
              opened in
          let file : File = record { fd_pos = 0; fd_flag = flag; fd_inode = at } in
          let unused : f.entry.fd_inode ≡ 0 = (==_iff f.entry.fd_inode 0).0 f.is_free in
          let size : length m1.file_table ≡ 32 = rw (table) h.size in
          let entry : get_elem? m1.file_table i ≡ some f.entry = rw (table) f.at in
          let upper = f.upper in
          let named : Held others (with_file m1 i file) = record {
            size = length-set m1.file_table i file ∙ size;
            counted =
                IsCounted-same m1.inodes m1.inodes m1.open_inodes _ _ counted (λ q. refl)
                  (λ q nq. joined m1 i f.entry file table entry unused q nq);
          } in
          deny_writers-Held (with_file m1 i file) m' i at flag file fd named
            (get_elem?-set_self m1.file_table i file (omega (arith, upper, size))) refl used e1

-- ===== src/Stdio/Rendered.antt =====
-- What `vsprintf` prints, as a text, and that it prints it.
use gogoos.Common.{
  assert, ◌>>◌, ltb, ltb→lt, assert-eq-some, ℕ, zero, suc, ◌+◌, ◌-◌, ◌%◌, ◌^◌, ◌<◌, ◌≡◌, refl, sym,
  ap, ◌∙◌, Bool-cases, ◌||◌, Option, none, some, List, [], ◌∷◌, ◌++◌, append_assoc, arith, ◌==◌,
  ==_false, if◌then◌else◌, ◌>>=◌, >>=-eq-some, length, length-append, replicate, zeros,
  length-zeros, drop-zeros, take-length, drop-length, ℕ_discrete, inl, inr,
}
use gogoos.CString.Laws.{IsText, strlen-text, strcpy-text}
use gogoos.Stdio.Texts.{signed_decimal, hexadecimal, signed_text-signed_decimal, itoha-hexadecimal}
use gogoos.Stdio.{Arg, word, text, put_all, put_text, directive, format_from, vsprintf}

-- the text of a string argument
unfoldable pub until_nul : List ℕ → Option (List ℕ)
until_nul [] = none
until_nul (c ∷ s) = if c == 0 then some [] else do t ← until_nul s; some (c ∷ t)

abbrev read_as : List Arg → List ℕ → Option (List ℕ × List Arg)
read_as args t = some (t, args)

-- the text of a directive, and the arguments behind it; a word is below 2 ^ 32
unfoldable pub piece : ℕ → List Arg → Option (List ℕ × List Arg)
unfolding until_nul
piece c [] = if c == b'd' || c == b'x' || c == b'c' || c == b's' then none else some (c ∷ [], [])
piece c (word w ∷ args) =
    if c == b'd'
    then (do assert (ltb w (2 ^ 32)); some (signed_decimal w, args))
    else if c == b'x'
    then (do assert (ltb w (2 ^ 32)); some (hexadecimal w, args))
    else if c == b'c'
    then some (w % 256 ∷ [], args)
    else if c == b's'
    then none
    else some (c ∷ [], word w ∷ args)
piece c (text s ∷ args) =
    if c == b's'
    then (do t ← until_nul s; some (t, args))
    else if c == b'd' || c == b'x' || c == b'c'
    then none
    else some (c ∷ [], text s ∷ args)

-- the text of a format
unfoldable pub rendered : List ℕ → List Arg → Option (List ℕ)
rendered [] args = none
rendered (c ∷ []) args = if c == 0 then some [] else none
rendered (c ∷ e ∷ format) args =
    let plain = (do t ← rendered (e ∷ format) args; some (c ∷ t)) in
    if c == 0
    then some []
    else if c == b'%'
    then (do (t, args') ← piece e args; u ← rendered format args'; some (t ++ u))
    else plain

until_nul-IsText :
    (s : List ℕ) (t : List ℕ)
    → until_nul s ≡ some t
    → IsText t × ((rest : List ℕ) × (s ≡ t ++ (0 ∷ rest)))
unfolding until_nul
until_nul-IsText [] t h = cc
until_nul-IsText (c ∷ s) t h = elim (ℕ_discrete c 0) [
  | yes e ↦ let q : t ≡ [] = cc (rw e at h) in rw q (tt, (s, ap (λ (k : ℕ). k ∷ s) e))
  | no ne ↦
      let (u, run, q) = >>=-eq-some (until_nul s) _ (rw (==_false c 0 ne) at h) in
      let (isu, (rest, eq)) = until_nul-IsText s u run in
      let qt : t ≡ c ∷ u = cc in rw qt ((ne, isu), (rest, ap (λ k. c ∷ k) eq))
]

put_all-zeros :
    (cs : List ℕ) (next : List ℕ → Option (List ℕ)) (n m : ℕ) (r : List ℕ)
    → n ≡ length cs + m
    → next (zeros m) ≡ some r
    → put_all cs next (zeros n) ≡ some (cs ++ r)
unfolding put_all
put_all-zeros [] next n m r e h = ap (λ (k : ℕ). next (zeros k)) n_eq ∙ h
  where
    n_eq : n ≡ m
    n_eq = omega arith
put_all-zeros (c ∷ cs) next zero m r e h = absurd (omega arith)
put_all-zeros (c ∷ cs) next (suc n) m r e h = rw (put_all-zeros cs next n m r (omega arith) h) refl

put_text-zeros :
    (t rest : List ℕ) (next : List ℕ → Option (List ℕ)) (n m : ℕ) (r : List ℕ)
    → IsText t
    → length t < 2 ^ 32
    → n ≡ length t + suc m
    → next (zeros (suc m)) ≡ some r
    → put_text (t ++ (0 ∷ rest)) next (zeros n) ≡ some (t ++ r)
unfolding put_text
put_text-zeros t rest next n m r is few e h =
    rw
      (
        strcpy-text t rest (zeros n) is (omega (arith, length-zeros n)),
        strlen-text t rest is few,
        drop-zeros (suc (length t)) n m (omega arith),
        drop-length t (0 ∷ zeros m),
        take-length t (0 ∷ zeros m),
        h,
      )
      refl

-- A directive writes its piece at zeros.
module _ (c : ℕ) (next : List Arg → List ℕ → Option (List ℕ)) (n m : ℕ) where
  plain-zeros :
      (args args' : List Arg) (t r : List ℕ)
      → read_as args (c ∷ []) ≡ read_as args' t
      → n ≡ length t + suc m
      → next args' (zeros (suc m)) ≡ some r
      → put_all (c ∷ []) (next args) (zeros n) ≡ some (t ++ r)
  plain-zeros args args' t r p e h =
      let q : t ≡ c ∷ [] = cc in
      let a : args ≡ args' = cc in
      rw (q, a)
        (put_all-zeros (c ∷ []) (next args') n (suc m) r (e ∙ ap (λ k. length k + suc m) q) h)

  converted-zeros :
      (o : Option (List ℕ)) (args args' : List Arg) (t r : List ℕ)
      → (o >>= read_as args) ≡ read_as args' t
      → n ≡ length t + suc m
      → next args' (zeros (suc m)) ≡ some r
      → (o >>= λ u. put_all u (next args) (zeros n)) ≡ some (t ++ r)
  converted-zeros none args args' t r p e h = cc
  converted-zeros (some u) args args' t r p e h =
      let q : t ≡ u = cc in
      let a : args ≡ args' = cc in
      rw (q, a) (put_all-zeros u (next args') n (suc m) r (e ∙ ap (λ k. length k + suc m) q) h)

  none_ne : {q : List ℕ × List Arg} → none ≡ some q → ⊥
  none_ne z = cc

  string :
      (s : List ℕ) (args args' : List Arg) (t r : List ℕ)
      → (until_nul s >>= read_as args) ≡ read_as args' t
      → length t < 2 ^ 32
      → n ≡ length t + suc m
      → next args' (zeros (suc m)) ≡ some r
      → put_text s (next args) (zeros n) ≡ some (t ++ r)
  string s args args' t r p few e h =
      let (u, run, q) = >>=-eq-some (until_nul s) (read_as args) p in
      let same : u ≡ t = cc in
      let a : args ≡ args' = cc in
      let (is, (rest, split)) = until_nul-IsText s t (run ∙ ap some same) in
      rw (split, a) (put_text-zeros t rest (next args') n m r is few e h)

  directive-zeros :
      (args args' : List Arg) (t r : List ℕ)
      → piece c args ≡ read_as args' t
      → length t < 2 ^ 32
      → n ≡ length t + suc m
      → next args' (zeros (suc m)) ≡ some r
      → directive c next args (zeros n) ≡ some (t ++ r)
  unfolding piece directive
  directive-zeros [] args' t r p few e h =
      elim (Bool-cases (c == b'd' || c == b'x' || c == b'c' || c == b's')) [
        | inl q ↦ absurd (none_ne (rw q at p))
        | inr q ↦ rw q (plain-zeros [] args' t r (rw q at p) e h)
      ]
  directive-zeros (word w ∷ args) args' t r p few e h = elim (Bool-cases (c == b'd')) [
    | inl d ↦
        let (ok, q) = assert-eq-some (ltb w (2 ^ 32)) _ (rw d at p) in
        rw (d, signed_text-signed_decimal w (ltb→lt w (2 ^ 32) ok))
          (converted-zeros (some (signed_decimal w)) args args' t r q e h)
    | inr nd ↦ elim (Bool-cases (c == b'x')) [
      | inl x ↦
          let (ok, q) = assert-eq-some (ltb w (2 ^ 32)) _ (rw (nd, x) at p) in
          rw (nd, x, itoha-hexadecimal w (ltb→lt w (2 ^ 32) ok))
            (converted-zeros (some (hexadecimal w)) args args' t r q e h)
      | inr nx ↦ elim (Bool-cases (c == b'c')) [
        | inl y ↦
            rw (nd, nx, y)
              (converted-zeros (some (w % 256 ∷ [])) args args' t r (rw (nd, nx, y) at p) e h)
        | inr ny ↦ elim (Bool-cases (c == b's')) [
          | inl z ↦ absurd (none_ne (rw (nd, nx, ny, z) at p))
          | inr nz ↦
              rw (nd, nx, ny, nz)
                (plain-zeros (word w ∷ args) args' t r (rw (nd, nx, ny, nz) at p) e h)
        ]
      ]
    ]
  ]
  directive-zeros (text s ∷ args) args' t r p few e h = elim (Bool-cases (c == b's')) [
    | inl z ↦ rw z (string s args args' t r (rw z at p) few e h)
    | inr nz ↦ elim (Bool-cases (c == b'd' || c == b'x' || c == b'c')) [
      | inl q ↦ absurd (none_ne (rw (nz, q) at p))
      | inr q ↦ rw (nz, q) (plain-zeros (text s ∷ args) args' t r (rw (nz, q) at p) e h)
    ]
  ]

-- The loop puts the text of the format at zeros, if there is room for it and a byte more.
format_from-rendered :
    (format : List ℕ) (args : List Arg) (t : List ℕ) (n m : ℕ)
    → rendered format args ≡ some t
    → n ≡ length t + suc m
    → n < 2 ^ 32
    → format_from format args (zeros n) ≡ some (t ++ zeros (suc m))
unfolding rendered format_from
format_from-rendered [] args t n m p e lt = cc
format_from-rendered (c ∷ []) args t n m p e lt = elim (ℕ_discrete c 0) [
  | yes z ↦
      let q : t ≡ [] = cc (rw z at p) in
      let n_eq : n ≡ suc m = omega (arith, e, ap length q) in rw (z, q, n_eq) refl
  | no ne ↦ absurd (none_ne' (rw (==_false c 0 ne) at p))
]
  where
    none_ne' : {q : List ℕ} → none ≡ some q → ⊥
    none_ne' z = cc
format_from-rendered (c ∷ d ∷ format) args t n m p e lt = elim (ℕ_discrete c 0) [
  | yes z ↦
      let q : t ≡ [] = cc (rw z at p) in
      let n_eq : n ≡ suc m = omega (arith, e, ap length q) in rw (z, q, n_eq) refl
  | no ne ↦ elim (Bool-cases (c == b'%')) [
    | inl pc ↦
        let ((u, args'), run, q) = >>=-eq-some (piece d args) _ (rw (==_false c 0 ne, pc) at p) in
        let (v, run', q') = >>=-eq-some (rendered format args') _ q in
        let te : t ≡ u ++ v = cc in
        let len = ap length te ∙ length-append u v in
        let shifted : suc (length v + m) ≡ length v + suc m = omega arith in
        let ih = format_from-rendered format args' v (length v + suc m) m run' refl (omega arith) in
        rw (==_false c 0 ne, pc, te)
          (directive-zeros d (format_from format) n (length v + m) args args' u (v ++ zeros (suc m))
              run (omega arith) (omega (arith, len))
              (ap (λ (k : ℕ). format_from format args' (zeros k)) shifted ∙ ih)
            ∙ ap some (sym (append_assoc u v (zeros (suc m)))))
    | inr npc ↦
        let (u, run, q) =
          >>=-eq-some (rendered (d ∷ format) args) _ (rw (==_false c 0 ne, npc) at p) in
        let te : t ≡ c ∷ u = cc in
        let len = ap length te in
        rw (==_false c 0 ne, npc, te)
          (put_all-zeros (c ∷ []) (format_from (d ∷ format) args) n (length u + suc m)
            (u ++ zeros (suc m)) (omega (arith, len))
            (format_from-rendered (d ∷ format) args u (length u + suc m) m run refl
              (omega (arith, len))))
  ]
]

-- Into a zeroed buffer that is longer than the text of the format, `vsprintf` prints that text, with zeros behind it,
-- and returns its length, if the text has no NUL in it. In that text a %d is the signed number of its word in decimal
-- digits, with a '-' in front of a negative one, a %x its word as "0x" and hexadecimal digits, both without leading
-- zeros, a %c its byte, and a %s its string.
pub vsprintf-rendered :
    (format : List ℕ) (args : List Arg) (t : List ℕ) (n : ℕ)
    → rendered format args ≡ some t
    → IsText t
    → length t < n
    → n < 2 ^ 32
    → vsprintf (replicate n 0) format args ≡ some (length t, t ++ replicate (n - length t) 0)
unfolding vsprintf
vsprintf-rendered format args t n p is room lt =
    let m = n - length t - 1 in
    let left : n - length t ≡ suc m = omega arith in
    let fills : List ℕ → Option (ℕ × List ℕ) = λ z. some (length t, t ++ z) in
    rw
      (
        format_from-rendered format args t n m p (omega arith) lt,
        strlen-text t (zeros m) is (omega arith),
      )
      (ap (λ (k : ℕ). fills (zeros k)) (sym left))

-- ===== src/Shell/WashPath/Memory.antt =====
-- What each step does to the path in memory.
use gogoos.Common.{
  ℕ, zero, suc, ◌+◌, ◌<◌, ◌≤◌, ◌≡◌, ◌≢◌, refl, sym, ap, ◌∙◌, true, false, Bool-cases, Option, none,
  some, List, [], ◌∷◌, ◌++◌, append_assoc, arith, length, length-append, length-drop, drop,
  get_elem?, set, ◌>>=◌, inl, inr,
}
use gogoos.Common.Int.{ℤ, pos, negsuc, is_zero}
use gogoos.CString.{strcmp, strrchr, strcat}
use gogoos.CString.Laws.{IsText, strcat-text}
use gogoos.CString.Compare.{IsChars, strcmp-eq-zero}
use gogoos.CString.Find.{strrchr-last}
use gogoos.Shell.WashPath.{slash, store, cut, go_up, go_down, walk}
use gogoos.Shell.WashPath.Stack.{
  same_text, same_text-eq, same_text_refl, up, step, body, shown, IsName, AllNames, IsChars-IsText,
}

-- The memory holds a text and its NUL, in `n` bytes.
pub record Holds (m t : List ℕ) (n : ℕ) : Type 0 where
  pub rest : List ℕ
  pub eq : m ≡ t ++ (0 ∷ rest)
  pub size : length t + suc (length rest) ≡ n

-- `strcmp` as a test, where the texts end in a NUL.
pub strcmp-same_text :
    (s t rest rest' : List ℕ)
    → IsChars s
    → IsChars t
    → (r : ℤ) × (strcmp (s ++ (0 ∷ rest)) (t ++ (0 ∷ rest')) ≡ some r) × (is_zero r ≡ same_text s t)
strcmp-same_text s t rest rest' hs ht =
    let (r, run, iff) = strcmp-eq-zero s t rest rest' hs ht in
    (
      r,
      run,
      elim (Bool-cases (same_text s t)) [
        | inl same ↦ ap is_zero (iff.1 (same_text-eq s t same)) ∙ sym same
        | inr differ ↦ elim (Bool-cases (is_zero r)) [
          | inl z ↦ absurd (
              false_ne
                (sym differ ∙ ap (same_text s) (sym (iff.0 (zero_only r z))) ∙ same_text_refl s))
          | inr nz ↦ nz ∙ sym differ
        ]
      ],
    )
  where
    false_ne : false ≡ true → ⊥
    false_ne q = cc

    zero_only : (r : ℤ) → is_zero r ≡ true → r ≡ pos 0
    zero_only (pos k) z = ground arith
    zero_only (negsuc k) z = cc

body-IsChars : (st : List (List ℕ)) → AllNames st → IsChars (body st)
unfolding body
body-IsChars [] h = tt
body-IsChars (c ∷ st) h =
    IsChars-append (body st) (b'/' ∷ c) (body-IsChars st h.1) (omega arith, omega arith, h.0.chars)
  where
    IsChars-append : (xs ys : List ℕ) → IsChars xs → IsChars ys → IsChars (xs ++ ys)
    IsChars-append [] ys hx hy = hy
    IsChars-append (x ∷ xs) ys hx hy = (hx.0, hx.1, IsChars-append xs ys hx.2 hy)

positive : (w : List ℕ) → w ≢ [] → 0 < length w
positive [] ne = absurd (ne refl)
positive (c ∷ w) ne = omega arith

pub length-body :
    (c : List ℕ) (st : List (List ℕ)) → length (body (c ∷ st)) ≡ length (body st) + suc (length c)
unfolding body
length-body c st = length-append (body st) (b'/' ∷ c)

not_slash :
    (c : List ℕ) (st : List (List ℕ)) → IsName c → same_text (body (c ∷ st)) (b'/' ∷ []) ≡ false
not_slash c st h = elim (Bool-cases (same_text (body (c ∷ st)) (b'/' ∷ []))) [
  | inl same ↦ absurd (
      omega (
        arith,
        ap length (same_text-eq (body (c ∷ st)) (b'/' ∷ []) same),
        length-body c st,
        positive c h.nonempty,
      ))
  | inr differ ↦ differ
]

strcat-Holds :
    (m t s r : List ℕ) (n : ℕ)
    → Holds m t n
    → IsText t
    → IsText s
    → length t + length s < n
    → (m' : List ℕ) × (strcat m (s ++ (0 ∷ r)) ≡ some m') × Holds m' (t ++ s) n
strcat-Holds m t s r n h tt' ts room =
    let fits : length s ≤ length h.rest = omega (arith, h.size) in
    (
      t ++ (s ++ (0 ∷ drop (length s) h.rest)),
      ap (λ k. strcat k (s ++ (0 ∷ r))) h.eq ∙ strcat-text t h.rest s r tt' ts fits,
      record {
        rest = drop (length s) h.rest;
        eq = sym (append_assoc t s (0 ∷ drop (length s) h.rest));
        size = omega (arith, length-append t s, length-drop (length s) h.rest, h.size);
      },
    )

go_down-Holds :
    (m w r : List ℕ) (st : List (List ℕ)) (n : ℕ)
    → AllNames st
    → IsName w
    → length (body st) + suc (length w) < n
    → Holds m (shown st) n
    → (m' : List ℕ) × (go_down m (w ++ (0 ∷ r)) ≡ some m') × Holds m' (shown (w ∷ st)) n
unfolding go_down shown body
go_down-Holds m w r [] n all name room h =
    let (q, run, test) =
      strcmp-same_text (b'/' ∷ []) (b'/' ∷ []) h.rest [] (omega arith, omega arith, tt)
        (omega arith, omega arith, tt) in
    let (m', run', h') =
      strcat-Holds m (b'/' ∷ []) w r n h (IsChars-IsText (b'/' ∷ []) (omega arith, omega arith, tt))
        (IsChars-IsText w name.chars) (omega arith) in
    (m', rw (ap (λ k. strcmp k slash) h.eq ∙ run, test, same_text_refl (b'/' ∷ [])) run', h')
go_down-Holds m w r (x ∷ st) n all name room h =
    let b = body (x ∷ st) in
    let chars = body-IsChars (x ∷ st) all in
    let (q, run, test) =
      strcmp-same_text b (b'/' ∷ []) h.rest [] chars (omega arith, omega arith, tt) in
    let one = IsChars-IsText (b'/' ∷ []) (omega arith, omega arith, tt) in
    let (m1, run1, h1) =
      strcat-Holds m b (b'/' ∷ []) [] n h (IsChars-IsText b chars) one (omega arith) in
    let (m2, run2, h2) =
      strcat-Holds m1 (b ++ (b'/' ∷ [])) w r n h1
        (IsText-append b (b'/' ∷ []) (IsChars-IsText b chars) one) (IsChars-IsText w name.chars)
        (omega (arith, length-append b (b'/' ∷ []))) in
    (
      m2,
      rw (ap (λ k. strcmp k slash) h.eq ∙ run, test, not_slash x st all.0, run1) run2,
      rw (append_assoc b (b'/' ∷ []) w) at h2,
    )
  where
    IsText-append : (xs ys : List ℕ) → IsText xs → IsText ys → IsText (xs ++ ys)
    IsText-append [] ys hx hy = hy
    IsText-append (x ∷ xs) ys hx hy = (hx.0, IsText-append xs ys hx.1 hy)

store-suc :
    (x : ℕ) (m : List ℕ) (i : ℕ) (m' : List ℕ)
    → store m i 0 ≡ some m'
    → store (x ∷ m) (suc i) 0 ≡ some (x ∷ m')
unfolding store
store-suc x m i m' h = found (get_elem? m i) refl h
  where
    none_ne : none ≡ some m' → ⊥
    none_ne z = cc

    some_eq : some (set m i 0) ≡ some m' → set m i 0 ≡ m'
    some_eq z = cc

    found :
        (o : Option ℕ)
        → get_elem? m i ≡ o
        → (get_elem? m i >>= λ old. some (set m i 0)) ≡ some m'
        → (get_elem? m i >>= λ old. some (x ∷ set m i 0)) ≡ some (x ∷ m')
    found none e k = absurd (none_ne (rw e at k))
    found (some c) e k = rw e (ap (λ z. some (x ∷ z)) (some_eq (rw e at k)))

-- a NUL written at the end of `t`
store-end :
    (t : List ℕ) (c : ℕ) (rest : List ℕ)
    → store (t ++ (c ∷ rest)) (length t) 0 ≡ some (t ++ (0 ∷ rest))
unfolding store
store-end [] c rest = refl
store-end (x ∷ t) c rest =
    store-suc x (t ++ (c ∷ rest)) (length t) (t ++ (0 ∷ rest)) (store-end t c rest)

-- `cut` at an index other than the first
cut-store : (m : List ℕ) (i : ℕ) → i ≢ 0 → cut m (some i) ≡ store m i 0
unfolding cut
cut-store m zero ne = absurd (ne refl)
cut-store m (suc i) ne = refl

body-IsText : (st : List (List ℕ)) → AllNames st → IsText (body st)
body-IsText st h = IsChars-IsText (body st) (body-IsChars st h)

-- cut behind the first slash
first_cut :
    (c : ℕ) (x rest : List ℕ) (n : ℕ)
    → suc (suc (length x)) + suc (length rest) ≡ n
    → (m' : List ℕ) × (cut (b'/' ∷ c ∷ x ++ (0 ∷ rest)) (some 0) ≡ some m') × Holds m' (b'/' ∷ []) n
unfolding cut store
first_cut c x rest n size = (
  b'/' ∷ 0 ∷ x ++ (0 ∷ rest),
  refl,
  record { rest = x ++ (0 ∷ rest); eq = refl; size = omega (arith, length-append x (0 ∷ rest)) },
)

-- the last slash of a path, and the path cut there
cut-Holds :
    (x rest : List ℕ) (st : List (List ℕ)) (n : ℕ)
    → AllNames st
    → IsName x
    → length (body st) + suc (length x) + suc (length rest) ≡ n
    → (m' : List ℕ) × (cut (body st ++ (b'/' ∷ (x ++ (0 ∷ rest)))) (some (length (body st)))
        ≡ some m')
      × Holds m' (shown st) n
unfolding shown body
cut-Holds [] rest [] n all name size = absurd (name.nonempty refl)
cut-Holds (c ∷ x) rest [] n all name size = first_cut c x rest n (omega arith)
cut-Holds x rest (y ∷ st) n all name size =
    let b = body (y ∷ st) in
    (
      b ++ (0 ∷ (x ++ (0 ∷ rest))),
      cut-store (b ++ (b'/' ∷ (x ++ (0 ∷ rest)))) (length b)
            (λ e. absurd (omega (arith, e, length-body y st)))
          ∙ store-end b b'/' (x ++ (0 ∷ rest)),
      record {
        rest = x ++ (0 ∷ rest);
        eq = refl;
        size = omega (arith, length-append x (0 ∷ rest));
      },
    )

go_up-Holds :
    (m x : List ℕ) (st : List (List ℕ)) (n : ℕ)
    → AllNames (x ∷ st)
    → Holds m (shown (x ∷ st)) n
    → (m' : List ℕ) × (go_up m ≡ some m') × Holds m' (shown st) n
unfolding go_up shown body
go_up-Holds m x st n all h =
    let q : m ≡ body st ++ (b'/' ∷ (x ++ (0 ∷ h.rest))) =
      h.eq ∙ append_assoc (body st) (b'/' ∷ x) (0 ∷ h.rest) in
    let last =
      strrchr-last b'/' (body st) x h.rest (omega arith) (body-IsText st all.1)
        (IsChars-IsText x all.0.chars) all.0.no_slash in
    let (m', run, h') =
      cut-Holds x h.rest st n all.1 all.0
        (omega (arith, h.size, length-append (body st) (b'/' ∷ x))) in
    (
      m',
      rw (ap (λ k. strrchr k b'/') q ∙ last) (ap (λ k. cut k (some (length (body st)))) q ∙ run),
      h',
    )

go_up-root :
    (m : List ℕ) (n : ℕ)
    → 1 < n
    → Holds m (b'/' ∷ []) n
    → (m' : List ℕ) × (go_up m ≡ some m') × Holds m' (b'/' ∷ []) n
unfolding go_up cut store
go_up-root m n lt h =
    let last = strrchr-last b'/' [] [] h.rest (omega arith) tt tt tt in
    (
      m,
      rw (ap (λ k. strrchr k b'/') h.eq ∙ last)
          (ap (λ k. cut k (some 0)) h.eq ∙ ap some (sym h.eq)),
      h,
    )

upward :
    (m : List ℕ) (st : List (List ℕ)) (n : ℕ)
    → AllNames st
    → 1 < n
    → Holds m (shown st) n
    → (m' : List ℕ) × (go_up m ≡ some m') × Holds m' (shown (up st)) n
unfolding shown
upward m [] n all lt h = go_up-root m n lt h
upward m (x ∷ st) n all lt h = go_up-Holds m x st n all h

-- A name other than ".." and "." needs room for itself and a slash.
pub walk-Holds :
    (m w r : List ℕ) (st : List (List ℕ)) (n : ℕ)
    → AllNames st
    → IsName w
    → length (body st) + suc (length w) < n
    → Holds m (shown st) n
    → (m' : List ℕ) × (walk m (w ++ (0 ∷ r)) ≡ some m')
      × Holds m' (shown (step st w)) n
      × AllNames (step st w)
      × (length (body (step st w)) ≤ length (body st) + suc (length w))
unfolding walk step
walk-Holds m w r st n all name room h =
    let (p, run, is_zero_up) =
      strcmp-same_text (b'.' ∷ b'.' ∷ []) w [] r
        (omega arith, omega arith, (omega arith, omega arith, tt)) name.chars in
    let (q, run', stay) =
      strcmp-same_text (b'.' ∷ []) w [] r (omega arith, omega arith, tt) name.chars in
    elim (Bool-cases (same_text (b'.' ∷ b'.' ∷ []) w)) [
      | inl is_up ↦
          let (m', go, h') = upward m st n all (omega arith) h in
          (
            m',
            rw (run, run', is_zero_up, is_up) go,
            rw is_up h',
            rw is_up (up-AllNames st all),
            rw is_up (up-shorter st),
          )
      | inr not_up ↦ elim (Bool-cases (same_text (b'.' ∷ []) w)) [
        | inl is_dot ↦ (
          m,
          rw (run, run', is_zero_up, stay, not_up, is_dot) refl,
          rw (not_up, is_dot) h,
          rw (not_up, is_dot) all,
          rw (not_up, is_dot) (omega arith),
        )
        | inr not_dot ↦
            let (m', down, h') = go_down-Holds m w r st n all name room h in
            (
              m',
              rw (run, run', is_zero_up, stay, not_up, not_dot) down,
              rw (not_up, not_dot) h',
              rw (not_up, not_dot) (name, all),
              rw (not_up, not_dot) (omega (arith, length-body w st)),
            )
      ]
    ]
  where
    up-AllNames : (st : List (List ℕ)) → AllNames st → AllNames (up st)
    up-AllNames [] h = tt
    up-AllNames (x ∷ st) h = h.1

    up-shorter : (st : List (List ℕ)) → length (body (up st)) ≤ length (body st) + suc (length w)
    up-shorter [] = omega arith
    up-shorter (x ∷ st) = omega (arith, length-body x st)

-- ===== src/Kernel/Sync/Owners.antt =====
-- kernel/thread/sync.c: which thread has a part of the lock.
use gogoos.Common.{
  ==_iff, Bool, true, false, ap, ℕ, ◌≡◌, ◌≢◌, refl, sym, ◌∙◌, none, some, ◌==◌, if◌then◌else◌,
  ==_refl, ==_false, ℕ_discrete, ◌⊎◌, inl, inr,
}
use gogoos.Kernel.Sync.{Lock, is_holder}
use gogoos.Kernel.Sync.Calls.{Valued}

-- where a thread stands: out of the lock, in `semaDown` behind the test of the holder, between `semaDown` and the
-- holder, in the lock, and between the holder and `semaUp`
pub data Phase : Type 0 where
  outside : Phase
  downing : Phase
  taking : Phase
  inside : Phase
  leaving : Phase

-- The thread has no part of the lock.
abbrev pub is_out : Phase → Bool
is_out outside = true
is_out downing = true
is_out taking = false
is_out inside = false
is_out leaving = false

-- A thread may call `lockLock`.
abbrev pub is_calling : Phase → Bool
is_calling outside = true
is_calling downing = false
is_calling taking = false
is_calling inside = true
is_calling leaving = false

abbrev pub moved : (ℕ → Phase) → ℕ → Phase → ℕ → Phase
moved phase t p x = if x == t then p else phase x

-- The lock as a thread in this phase has it.
abbrev pub Owned : Lock → ℕ → Phase → Type 0
Owned l t outside = ⊥
Owned l t downing = ⊥
Owned l t taking = l.holder ≡ none
Owned l t inside = l.holder ≡ some t
Owned l t leaving = l.holder ≡ none

-- Either the lock is free and all threads are outside, or one thread has it.
abbrev pub Excludes : Lock → (ℕ → Phase) → Type 0
Excludes l phase =
    ((l.value ≡ 1) × (l.holder ≡ none) × ((t : ℕ) → is_out (phase t) ≡ true))
    ⊎ ((t : ℕ) × (l.value ≡ 0) × Owned l t (phase t) × ((x : ℕ) → x ≢ t → is_out (phase x) ≡ true))

pub true_not_false : ◌≢◌ {A = Bool} true false
true_not_false q = cc

pub owner :
    (l : Lock) (phase : ℕ → Phase) (c : ℕ)
    → Excludes l phase
    → is_out (phase c) ≡ false
    → (l.value ≡ 0) × Owned l c (phase c) × ((x : ℕ) → x ≢ c → is_out (phase x) ≡ true)
owner l phase c (inl (v, none_has, out)) ne = absurd (true_not_false (sym (out c) ∙ ne))
owner l phase c (inr (t, v, own, out)) ne = elim (ℕ_discrete c t) [
  | yes e ↦ rw (e) (v, own, out)
  | no other ↦ absurd (true_not_false (sym (out c other) ∙ ne))
]

pub takes_over :
    (l : Lock) (phase : ℕ → Phase) (c : ℕ) (p : Phase)
    → ((x : ℕ) → x ≢ c → is_out (phase x) ≡ true)
    → l.value ≡ 0
    → Owned l c p
    → Excludes l (moved phase c p)
takes_over l phase c p out v own =
    inr (c, v, rw (==_refl c) own, λ x ne. rw (==_false x c ne) (out x ne))

pub frees :
    (l : Lock) (phase : ℕ → Phase) (c : ℕ)
    → ((x : ℕ) → x ≢ c → is_out (phase x) ≡ true)
    → l.value ≡ 1
    → l.holder ≡ none
    → Excludes l (moved phase c outside)
frees l phase c out v none_has = inl (
  v,
  none_has,
  λ t. elim (ℕ_discrete t c) [
    | yes e ↦ rw (e, ==_refl c) refl
    | no ne ↦ rw (==_false t c ne) (out t ne)
  ],
)

pub same-moved :
    (phase : ℕ → Phase) (c : ℕ) (p : Phase) → phase c ≡ p → (x : ℕ) → moved phase c p x ≡ phase x
same-moved phase c p o x = elim (ℕ_discrete x c) [
  | yes e ↦ rw (e, ==_refl c) (sym o)
  | no ne ↦ rw (==_false x c ne) refl
]

Owned-same : (l l' : Lock) (t : ℕ) (p : Phase) → Valued l l.value l' → Owned l t p → Owned l' t p
Owned-same l l' t outside (v, h, r) o = o
Owned-same l l' t downing (v, h, r) o = o
Owned-same l l' t taking (v, h, r) o = h ∙ o
Owned-same l l' t inside (v, h, r) o = h ∙ o
Owned-same l l' t leaving (v, h, r) o = h ∙ o

-- The lock keeps its value, holder and count, and a thread its phase.
pub Excludes-same :
    (l l' : Lock) (phase : ℕ → Phase) (c : ℕ) (p : Phase)
    → phase c ≡ p
    → Valued l l.value l'
    → Excludes l phase
    → Excludes l' (moved phase c p)
Excludes-same l l' phase c p o (v, h, r) (inl (v1, none_has, out)) =
    inl (v ∙ v1, h ∙ none_has, λ t. ap is_out (same-moved phase c p o t) ∙ out t)
Excludes-same l l' phase c p o (v, h, r) (inr (t, v0, own, out)) = inr (
  t,
  v ∙ v0,
  rw (same-moved phase c p o t) (Owned-same l l' t (phase t) (v, h, r) own),
  λ x ne. ap is_out (same-moved phase c p o x) ∙ out x ne,
)

-- A thread that has a part of the lock and may call `lockLock` is the holder.
Owned-calling :
    (l : Lock) (c : ℕ) (p : Phase) → Owned l c p → is_calling p ≡ true → l.holder ≡ some c
Owned-calling l c outside own calls = absurd own
Owned-calling l c downing own calls = absurd own
Owned-calling l c taking own calls = absurd (true_not_false (sym calls))
Owned-calling l c inside own calls = own
Owned-calling l c leaving own calls = absurd (true_not_false (sym calls))

-- The holder is the thread that has the lock, and the thread is inside.
Owned-holder :
    (l : Lock) (t c : ℕ) (p : Phase)
    → Owned l t p
    → is_holder l c ≡ true
    → (t ≡ c) × (l.holder ≡ some c)
Owned-holder l t c outside own mine = absurd own
Owned-holder l t c downing own mine = absurd own
Owned-holder l t c taking own mine = absurd (true_not_false (sym (rw (own) at mine)))
Owned-holder l t c inside own mine =
    let e = (==_iff t c).0 (rw (own) at mine) in (e, own ∙ ap some e)
Owned-holder l t c leaving own mine = absurd (true_not_false (sym (rw (own) at mine)))

-- A thread that is not the holder goes to `semaDown`.
pub tests-Excludes :
    (l : Lock) (phase : ℕ → Phase) (c : ℕ)
    → is_calling (phase c) ≡ true
    → is_holder l c ≡ false
    → Excludes l phase
    → Excludes l (moved phase c downing)
tests-Excludes l phase c calls other (inl (v, none_has, out)) = inl (
  v,
  none_has,
  λ t. elim (ℕ_discrete t c) [
    | yes e ↦ rw (e, ==_refl c) refl
    | no ne ↦ rw (==_false t c ne) (out t)
  ],
)
tests-Excludes l phase c calls other (inr (t, v, own, out)) = elim (ℕ_discrete t c) [
  | yes e ↦
      let held = Owned-calling l t (phase t) own (ap (λ k. is_calling (phase k)) e ∙ calls) in
      let mine : (t == c) ≡ false = rw (held) at other in
      absurd (true_not_false (sym ((==_iff t c).1 e) ∙ mine))
  | no ne ↦ inr (
    t,
    v,
    rw (==_false t c ne) own,
    λ x other_x. elim (ℕ_discrete x c) [
      | yes e ↦ rw (e, ==_refl c) refl
      | no nx ↦ rw (==_false x c nx) (out x other_x)
    ],
  )
]

-- What the holder has, that all others are out, and the value.
pub again-owner :
    (l : Lock) (phase : ℕ → Phase) (c : ℕ)
    → is_holder l c ≡ true
    → Excludes l phase
    → (l.value ≡ 0) × (l.holder ≡ some c) × ((x : ℕ) → x ≢ c → is_out (phase x) ≡ true)
again-owner l phase c mine (inl (v, none_has, out)) =
    absurd (true_not_false (sym (rw (none_has) at mine)))
again-owner l phase c mine (inr (t, v, own, out)) =
    let (e, held) = Owned-holder l t c (phase t) own mine in
    (v, held, λ x ne. out x (λ q. ne (q ∙ e)))

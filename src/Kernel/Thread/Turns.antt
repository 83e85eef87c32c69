-- ===== src/Kernel/Thread/Turns.antt =====
-- Round robin: how long a ready thread waits.
use gogoos.Common.{
  ℕ, zero, suc, ◌≡◌, refl, ap, ◌∙◌, Option, some, List, [], ◌∷◌, ◌++◌, append_assoc, length, ◌>>=◌,
}
use gogoos.Kernel.Thread.{System, thread_yield}
use gogoos.Kernel.Thread.Sched.{IsSched}
use gogoos.Kernel.Thread.Steps.{thread_yield-IsSched}

-- `n` yields, one after the other, each by the thread that then runs
unfoldable pub yields : (n : ℕ) → System → Option System
yields zero s = some s
yields (suc n) s = do s' ← thread_yield s; yields n s'

-- From a state of the invariant, if every thread that runs yields, a ready thread with `length
-- before` threads in front of it runs after one yield more than that. Those that ran stand behind
-- the threads that were behind it, in the same order.
pub yields-turn :
    (s : System) (before : List ℕ) (t : ℕ) (behind : List ℕ)
    → IsSched s
    → s.ready_list ≡ before ++ (t ∷ behind)
    → (s' : System) × (yields (suc (length before)) s ≡ some s')
      × IsSched s'
      × (s'.current ≡ t)
      × (s'.ready_list ≡ behind ++ (s.current ∷ before))
unfolding yields
yields-turn s [] t behind h e =
    let (u, run, hu, line) = thread_yield-IsSched s h in
    let line' : u.current ∷ u.ready_list ≡ t ∷ (behind ++ (s.current ∷ [])) =
      line ∙ ap (λ q. q ++ (s.current ∷ [])) e in
    (u, rw run refl, hu, cc, cc)
yields-turn s (b ∷ before) t behind h e =
    let (u, run, hu, line) = thread_yield-IsSched s h in
    let line' : u.current ∷ u.ready_list ≡ b ∷ ((before ++ (t ∷ behind)) ++ (s.current ∷ [])) =
      line ∙ ap (λ q. q ++ (s.current ∷ [])) e in
    let first : u.current ≡ b = cc in
    let others : u.ready_list ≡ before ++ (t ∷ (behind ++ (s.current ∷ []))) =
      tail_of line' ∙ append_assoc before (t ∷ behind) (s.current ∷ []) in
    let (s', run', h', c', r') = yields-turn u before t (behind ++ (s.current ∷ [])) hu others in
    (
      s',
      rw run run',
      h',
      c',
      r'
          ∙ append_assoc behind (s.current ∷ []) (u.current ∷ before)
          ∙ ap (λ (k : ℕ). behind ++ (s.current ∷ k ∷ before)) first,
    )
  where
    tail_of : {x y : ℕ} {xs ys : List ℕ} → x ∷ xs ≡ y ∷ ys → xs ≡ ys
    tail_of q = cc

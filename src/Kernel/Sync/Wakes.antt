-- ===== src/Kernel/Sync/Wakes.antt =====
-- kernel/thread/sync.c: whom `semaUp` wakes.
use gogoos.Common.{
  ℕ, ◌≡◌, refl, ap, true, false, some, List, [], ◌∷◌, ◌++◌, ◌==◌, Bool-cases, ◌⊎◌, inl, inr,
}
use gogoos.Kernel.Thread.{
  TaskStatus, task_running, task_ready, task_blocked, task_waiting, task_hanging, task_died,
  is_suspended, System, thread_unblock,
}
use gogoos.Kernel.Thread.Sched.{IsSched, thread_unblock_lem}
use gogoos.Kernel.Sync.{World, is_blocked, wake_blocked, sema_up}

blocked-suspended : (st : TaskStatus) → is_blocked st ≡ true → is_suspended st ≡ true
blocked-suspended task_running h = h
blocked-suspended task_ready h = h
blocked-suspended task_blocked h = refl
blocked-suspended task_waiting h = refl
blocked-suspended task_hanging h = refl
blocked-suspended task_died h = h

-- no thread of the list is blocked
pub NoneBlocked : System → List ℕ → Type 0
NoneBlocked sys [] = Unit {0}
NoneBlocked sys (t ∷ ts) = (is_blocked (sys.tasks t).status ≡ false) × NoneBlocked sys ts

-- The list and the system behind the call: nobody was blocked, or the first who was is ready, in
-- front of the others, and the list goes on behind it.
abbrev pub Woken : System → (before after : List ℕ) → System → Type 0
Woken sys before after sys' =
    (NoneBlocked sys before × (after ≡ []) × (sys' ≡ sys))
    ⊎ ((front : List ℕ) × (t : ℕ) × (before ≡ front ++ (t ∷ after))
        × NoneBlocked sys front
        × (is_blocked (sys.tasks t).status ≡ true)
        × (thread_unblock sys t ≡ some sys')
        × (sys'.ready_list ≡ t ∷ sys.ready_list))

wake_blocked-Woken :
    (ts : List ℕ) (sys : System)
    → IsSched sys
    → (after : List ℕ) × (sys' : System) × (wake_blocked ts sys ≡ some (after, sys'))
      × IsSched sys'
      × Woken sys ts after sys'
unfolding wake_blocked NoneBlocked
wake_blocked-Woken [] sys h = ([], sys, refl, h, inl (tt, refl, refl))
wake_blocked-Woken (t ∷ ts) sys h = elim (Bool-cases (is_blocked (sys.tasks t).status)) [
  | inl b ↦
      let (sys', run, h', ready, cur) =
        thread_unblock_lem sys (λ x. sys.current == x) t h (blocked-suspended _ b) in
      (ts, sys', rw (b, run) refl, rw (cur) h', inr ([], t, refl, tt, b, run, ready))
  | inr b ↦
      let (after, sys', run, h', w) = wake_blocked-Woken ts sys h in
      (
        after,
        sys',
        rw (b) run,
        h',
        elim w [
          | inl (none_left, e, same) ↦ inl ((b, none_left), e, same)
          | inr (front, x, e, skipped, bx, woke, ready) ↦
              inr (t ∷ front, x, ap (λ l. t ∷ l) e, (b, skipped), bx, woke, ready)
        ],
      )
]

-- In a state of the scheduler's invariant `semaUp` of a taken semaphore does not fault, sets the
-- value to 1 and keeps the invariant. It takes the threads off the blocked list up to the first
-- that is still blocked, which becomes ready in front of all others; if none is blocked, the list
-- is empty behind it and no thread changes.
pub sema_up-Woken :
    (w : World)
    → IsSched w.sys
    → w.lock.value ≡ 0
    → (w' : World) × (sema_up w ≡ some w')
      × (w'.lock.value ≡ 1)
      × IsSched w'.sys
      × Woken w.sys w.lock.blocked_list w'.lock.blocked_list w'.sys
unfolding sema_up
sema_up-Woken w h v =
    let (after, sys', run, h', woken) = wake_blocked-Woken w.lock.blocked_list w.sys h in
    (
      record { sys = sys'; lock = record w.lock { blocked_list = after; value = 1 } },
      rw (v, run) refl,
      refl,
      h',
      woken,
    )

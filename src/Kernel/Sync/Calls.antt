-- ===== src/Kernel/Sync/Calls.antt =====
-- kernel/thread/sync.c: what the calls do to the value, the holder and the count of a lock.
use gogoos.Common.{
  ℕ, suc, zero, ◌-◌, ◌+◌, ◌≡◌, refl, sym, ap, true, false, not, Option, none, some, List, [], ◌∷◌,
  ◌++◌, ◌==◌, ltb, >>=-eq-some, if-cases, assert-eq-some, ==_iff, ltb→lt, ◌<◌, arith, ◌⊎◌, inl, inr,
}
use mathlib.Core.Option.{some-injective}
use gogoos.Structure.LinkedList.Walk.{contains}
use gogoos.Kernel.Thread.{task_blocked, task_waiting, thread_block, thread_unblock}
use gogoos.Kernel.Sync.{
  Lock, World, Outcome, returns, switches, is_holder, sema_down, wake_blocked, sema_up, leave_lock,
  unlock_once, lock_unlock, lock_wait, lock_notify, notify_first, wake_all, lock_notify_all,
}

-- The value is set, the holder and the count stay.
abbrev pub Valued : Lock → ℕ → Lock → Type 0
Valued l v l' =
    (l'.value ≡ v) × (l'.holder ≡ l.holder) × (l'.holder_repeat_times ≡ l.holder_repeat_times)

abbrev world_of : Option Outcome → World → World
world_of none d = d
world_of (some (returns w)) d = w
world_of (some (switches w)) d = w

pub some-eq : {u v : World} → some u ≡ some v → u ≡ v
some-eq h = some-injective _ _ h

-- `semaDown` returns only where the value was one.
pub sema_down-returns :
    (w w' : World)
    → sema_down w ≡ some (returns w')
    → (w.lock.value ≡ 1) × Valued w.lock 0 w'.lock × (w'.sys ≡ w.sys)
unfolding sema_down
sema_down-returns w w' h = elim (if-cases (w.lock.value == 0) _ _ h) [
  | inl p ↦
      let (ok, h1) = assert-eq-some (not (contains w.sys.current w.lock.blocked_list)) _ p.1 in
      let (sys, run, h2) = >>=-eq-some (thread_block w.sys task_blocked) _ h1 in absurd (cc (h2))
  | inr p ↦
      let (ok, h1) = assert-eq-some (w.lock.value - 1 == 0) _ p.1 in
      let e = ap (λ o. world_of o w) h1 in
      rw (sym e) (one_left w.lock.value p.0 ok, (taken w.lock.value ok, refl, refl), refl)
]
  where
    taken : (v : ℕ) → (v - 1 == 0) ≡ true → v - 1 ≡ 0
    taken v q = (==_iff (v - 1) 0).0 q

    one_left : (v : ℕ) → (v == 0) ≡ false → (v - 1 == 0) ≡ true → v ≡ 1
    one_left zero p q = cc
    one_left (suc v) p q = omega (arith, taken (suc v) q)

-- A switch out of `semaDown` leaves the value, the holder and the count.
pub sema_down-switches :
    (w w' : World) → sema_down w ≡ some (switches w') → Valued w.lock w.lock.value w'.lock
unfolding sema_down
sema_down-switches w w' h = elim (if-cases (w.lock.value == 0) _ _ h) [
  | inl p ↦
      let (ok, h1) = assert-eq-some (not (contains w.sys.current w.lock.blocked_list)) _ p.1 in
      let (sys, run, h2) = >>=-eq-some (thread_block w.sys task_blocked) _ h1 in
      let e = ap (λ o. world_of o w) h2 in rw (sym e) (refl, refl, refl)
  | inr p ↦ let (ok, h1) = assert-eq-some (w.lock.value - 1 == 0) _ p.1 in absurd (cc (h1))
]

pub sema_up-Valued :
    (w w' : World) → sema_up w ≡ some w' → (w.lock.value ≡ 0) × Valued w.lock 1 w'.lock
unfolding sema_up
sema_up-Valued w w' h =
    let (zero_value, h1) = assert-eq-some (w.lock.value == 0) _ h in
    let (r, run, h2) = >>=-eq-some (wake_blocked w.lock.blocked_list w.sys) _ h1 in
    let (one, h3) = assert-eq-some (w.lock.value + 1 == 1) _ h2 in
    rw (sym (some-eq h3))
      ((==_iff w.lock.value 0).0 zero_value, ((==_iff (w.lock.value + 1) 1).0 one, refl, refl))

-- `lockUnlock` lowers a count above one, and leaves the lock at the last.
pub lock_unlock-lem :
    (w w' : World)
    → lock_unlock w ≡ some w'
    → (is_holder w.lock w.sys.current ≡ true)
      × (((1 < w.lock.holder_repeat_times) × (w' ≡ unlock_once w))
          ⊎ ((w.lock.holder_repeat_times ≡ 1) × (sema_up (leave_lock w) ≡ some w')))
unfolding lock_unlock
lock_unlock-lem w w' h =
    let (mine, h1) = assert-eq-some (is_holder w.lock w.sys.current) _ h in
    (
      mine,
      elim (if-cases (ltb 1 w.lock.holder_repeat_times) _ _ h1) [
        | inl p ↦ inl (ltb→lt 1 _ p.0, sym (some-eq p.1))
        | inr p ↦
            let (last, h2) = assert-eq-some (w.lock.holder_repeat_times == 1) _ p.1 in
            inr ((==_iff w.lock.holder_repeat_times 1).0 last, h2)
      ],
    )

pub lock_notify-Valued :
    (w w' : World) → lock_notify w ≡ some w' → Valued w.lock w.lock.value w'.lock
unfolding lock_notify notify_first
lock_notify-Valued w w' h =
    let (mine, h1) = assert-eq-some (is_holder w.lock w.sys.current) _ h in
    first w.lock.waiting_list h1
  where
    first : (ts : List ℕ) → notify_first w ts ≡ some w' → Valued w.lock w.lock.value w'.lock
    first [] q = rw (sym (some-eq q)) (refl, refl, refl)
    first (t ∷ ts) q =
        let (sys, run, q1) = >>=-eq-some (thread_unblock w.sys t) _ q in
        rw (sym (some-eq q1)) (refl, refl, refl)

pub lock_notify_all-Valued :
    (w w' : World) → lock_notify_all w ≡ some w' → Valued w.lock w.lock.value w'.lock
unfolding lock_notify_all
lock_notify_all-Valued w w' h =
    let (mine, h1) = assert-eq-some (is_holder w.lock w.sys.current) _ h in
    let (sys, run, h2) = >>=-eq-some (wake_all w.lock.waiting_list w.sys) _ h1 in
    rw (sym (some-eq h2)) (refl, refl, refl)

-- the lock with the current thread in its waiting list
abbrev pub queued : World → World
queued w = record w {
  lock = record w.lock { waiting_list = w.lock.waiting_list ++ (w.sys.current ∷ []) };
}

-- `lockWait` queues its thread, unlocks, and gives the processor away.
pub lock_wait-queued :
    (w w' : World)
    → lock_wait w ≡ some w'
    → (u : World) × (lock_unlock (queued w) ≡ some u) × (w'.lock ≡ u.lock)
unfolding lock_wait
lock_wait-queued w w' h =
    let (mine, h1) = assert-eq-some (is_holder w.lock w.sys.current) _ h in
    let (new, h2) = assert-eq-some (not (contains w.sys.current w.lock.waiting_list)) _ h1 in
    let (free, h3) = assert-eq-some (not (contains w.sys.current w.lock.blocked_list)) _ h2 in
    let (u, run, h4) = >>=-eq-some (lock_unlock (queued w)) _ h3 in
    let (sys, ran, h5) = >>=-eq-some (thread_block u.sys task_waiting) _ h4 in
    (u, run, ap (λ x. x.lock) (sym (some-eq h5)))

-- Of a lock that is held once `lockWait` lets go; a count above one only goes down.
pub lock_wait-lem :
    (w w' : World)
    → lock_wait w ≡ some w'
    → ((1 < w.lock.holder_repeat_times)
        × (w'.lock.value ≡ w.lock.value)
        × (w'.lock.holder ≡ w.lock.holder)
        × (w'.lock.holder_repeat_times ≡ w.lock.holder_repeat_times - 1))
      ⊎ ((w.lock.holder_repeat_times ≡ 1) × (w'.lock.value ≡ 1) × (w'.lock.holder ≡ none))
unfolding unlock_once leave_lock
lock_wait-lem w w' h =
    let (u, run, same) = lock_wait-queued w w' h in
    elim (lock_unlock-lem (queued w) u run).1 [
      | inl p ↦ inl (p.0, rw (same, p.1) refl, rw (same, p.1) refl, rw (same, p.1) refl)
      | inr p ↦
          let (v0, (v1, holder, count)) = sema_up-Valued (leave_lock (queued w)) u p.1 in
          inr (p.0, rw (same) v1, rw (same) holder)
    ]

-- ===== src/Kernel/Sync/Exclusion.antt =====
-- kernel/thread/sync.c: threads that lock, unlock, wait and notify, in any order that the scheduler
-- makes of them. A step is a part of a call that nothing interrupts: the test of the holder in `lockLock`, `semaDown`
-- to its return or to its switch, `semaUp`, `lockWait` to its switch, and the assignments between them. A thread
-- calls `lockLock` from outside or from inside; which way it goes is what the test of the holder says.
use gogoos.Common.{
  Bool, true, false, ap, ℕ, ◌≡◌, ◌≢◌, ◌<◌, refl, sym, ◌∙◌, some, if◌then◌else◌, arith, ℕ_discrete,
  ltb, lt→ltb, ltb-false, inl, inr,
}
use gogoos.Kernel.Thread.{System}
use gogoos.Kernel.Thread.Steps.{Step as ThreadStep}
use gogoos.Kernel.Sync.{
  Lock, World, is_holder, returns, switches, lock_init, sema_down, sema_up, take_lock, lock_again,
  unlock_once, leave_lock, lock_wait, lock_notify, lock_notify_all,
}
use gogoos.Kernel.Sync.Calls.{
  sema_down-returns, sema_down-switches, sema_up-Valued, lock_notify-Valued, lock_notify_all-Valued,
  lock_wait-lem,
}
use gogoos.Kernel.Sync.Owners.{
  Phase, outside, downing, taking, inside, leaving, is_out, is_calling, moved, Owned, Excludes,
  true_not_false, owner, takes_over, frees, Excludes-same, tests-Excludes, again-owner,
}

pub record State : Type 0 where
  pub world : World
  pub phase : ℕ → Phase

-- The current thread goes on.
abbrev pub goes : State → World → Phase → State
goes s w p = record { world = w; phase = moved s.phase s.world.sys.current p }

abbrev pub stands : State → Phase
stands s = s.phase s.world.sys.current

-- `lockWait` of a lock that is held more than once keeps it.
abbrev pub waits_in : Lock → Phase
waits_in l = if ltb 1 l.holder_repeat_times then inside else outside

-- lock->holder == getCurrentThread()
abbrev pub holds_lock : State → Bool
holds_lock s = is_holder s.world.lock s.world.sys.current

pub data Step (s : State) : State → Type 0 where
  tests : is_calling (stands s) ≡ true → holds_lock s ≡ false → Step s (goes s s.world downing)
  again :
      is_calling (stands s) ≡ true
      → holds_lock s ≡ true
      → Step s (goes s (lock_again s.world) inside)
  downs :
      {w : World}
      → stands s ≡ downing
      → sema_down s.world ≡ some (returns w)
      → Step s (goes s w taking)
  blocks :
      {w : World}
      → stands s ≡ downing
      → sema_down s.world ≡ some (switches w)
      → Step s (goes s w downing)
  takes : stands s ≡ taking → Step s (goes s (take_lock s.world) inside)
  once :
      stands s ≡ inside
      → holds_lock s ≡ true
      → 1 < s.world.lock.holder_repeat_times
      → Step s (goes s (unlock_once s.world) inside)
  leaves :
      stands s ≡ inside
      → holds_lock s ≡ true
      → s.world.lock.holder_repeat_times ≡ 1
      → Step s (goes s (leave_lock s.world) leaving)
  ups : {w : World} → stands s ≡ leaving → sema_up s.world ≡ some w → Step s (goes s w outside)
  waits :
      {w : World}
      → stands s ≡ inside
      → lock_wait s.world ≡ some w
      → Step s (goes s w (waits_in s.world.lock))
  notifies :
      {w : World} → stands s ≡ inside → lock_notify s.world ≡ some w → Step s (goes s w inside)
  notifies_all :
      {w : World} → stands s ≡ inside → lock_notify_all s.world ≡ some w → Step s (goes s w inside)
  schedules :
      {sys : System}
      → ThreadStep s.world.sys sys
      → Step s (record s { world = record s.world { sys = sys } })

pub data Reach (s : State) : State → Type 0 where
  here : Reach s s
  next : {u v : State} → Reach s u → Step u v → Reach s v

-- what the current thread has in a phase that is not outside
holds :
    (s : State) {p : Phase}
    → stands s ≡ p
    → is_out p ≡ false
    → Excludes s.world.lock s.phase
    → (s.world.lock.value ≡ 0)
      × Owned s.world.lock s.world.sys.current p
      × ((x : ℕ) → x ≢ s.world.sys.current → is_out (s.phase x) ≡ true)
holds s st n h =
    let (v, own, out) = owner s.world.lock s.phase s.world.sys.current h (ap is_out st ∙ n) in
    (v, (rw (st) at own), out)

Step-Excludes :
    {s s' : State} → Step s s' → Excludes s.world.lock s.phase → Excludes s'.world.lock s'.phase
unfolding take_lock lock_again unlock_once leave_lock
Step-Excludes {s = s} (downs {w = w} at_door run) h =
    let (v1, (v0, holder, count), sys) = sema_down-returns s.world w run in
    elim h [
      | inl f ↦
          takes_over w.lock s.phase s.world.sys.current taking (λ x ne. f.2 x) v0 (holder ∙ f.1)
      | inr b ↦ absurd (omega (arith, v1, b.1))
    ]
Step-Excludes {s = s} (blocks {w = w} at_door run) h =
    Excludes-same s.world.lock w.lock s.phase s.world.sys.current downing at_door
      (sema_down-switches s.world w run) h
Step-Excludes {s = s} (takes st) h =
    let (v, own, out) = holds s st refl h in
    takes_over (take_lock s.world).lock s.phase s.world.sys.current inside out v refl
Step-Excludes {s = s} (tests calls other) h =
    tests-Excludes s.world.lock s.phase s.world.sys.current calls other h
Step-Excludes {s = s} (again calls mine) h =
    let (v, own, out) = again-owner s.world.lock s.phase s.world.sys.current mine h in
    takes_over (lock_again s.world).lock s.phase s.world.sys.current inside out v own
Step-Excludes {s = s} (once st mine more) h =
    let (v, own, out) = holds s st refl h in
    takes_over (unlock_once s.world).lock s.phase s.world.sys.current inside out v own
Step-Excludes {s = s} (leaves st mine last) h =
    let (v, own, out) = holds s st refl h in
    takes_over (leave_lock s.world).lock s.phase s.world.sys.current leaving out v refl
Step-Excludes {s = s} (ups {w = w} st run) h =
    let (v, own, out) = holds s st refl h in
    let (v0, (v1, holder, count)) = sema_up-Valued s.world w run in
    frees w.lock s.phase s.world.sys.current out v1 (holder ∙ own)
Step-Excludes {s = s} (waits {w = w} st run) h =
    let (v, own, out) = holds s st refl h in
    elim (lock_wait-lem s.world w run) [
      | inl p ↦
          rw (lt→ltb 1 s.world.lock.holder_repeat_times p.0)
            (takes_over w.lock s.phase s.world.sys.current inside out (p.1 ∙ v) (p.2 ∙ own))
      | inr p ↦
          rw (ltb-false 1 s.world.lock.holder_repeat_times (omega (arith, p.0)))
            (frees w.lock s.phase s.world.sys.current out p.1 p.2)
    ]
Step-Excludes {s = s} (notifies {w = w} st run) h =
    Excludes-same s.world.lock w.lock s.phase s.world.sys.current inside st
      (lock_notify-Valued s.world w run) h
Step-Excludes {s = s} (notifies_all {w = w} st run) h =
    Excludes-same s.world.lock w.lock s.phase s.world.sys.current inside st
      (lock_notify_all-Valued s.world w run) h
Step-Excludes {s = s} (schedules st) h = h

Reach-Excludes :
    {s s' : State} → Excludes s.world.lock s.phase → Reach s s' → Excludes s'.world.lock s'.phase
Reach-Excludes h here = h
Reach-Excludes h (next r st) = Step-Excludes st (Reach-Excludes h r)

-- the lock as `lockInit` leaves it, with all threads outside
abbrev pub initial : System → State
initial sys = record { world = record { sys = sys; lock = lock_init }; phase = λ t. outside }

abbrev pub Alone : Lock → (ℕ → Phase) → ℕ → Type 0
Alone l phase t = (l.value ≡ 0) × ((x : ℕ) → is_out (phase x) ≡ false → x ≡ t) × Owned l t (phase t)

-- From a lock that `lockInit` has set up, in every state that locking, unlocking, waiting and
-- notifying reach in any order, at most one thread is in the lock or on its way behind `semaDown` into it or out of
-- it to `semaUp`; the value is 0 then; and the thread in the lock is the holder.
pub lock-excludes :
    (sys : System) (s : State) (t : ℕ)
    → Reach (initial sys) s
    → is_out (s.phase t) ≡ false
    → Alone s.world.lock s.phase t
unfolding lock_init
lock-excludes sys s t r ne =
    let (v, own, out) =
      owner s.world.lock s.phase t (Reach-Excludes (inl (refl, refl, λ x. refl)) r) ne in
    (
      v,
      λ x busy. elim (ℕ_discrete x t) [
        | yes e ↦ e
        | no other ↦ absurd (true_not_false (sym (out x other) ∙ busy))
      ],
      own,
    )

-- ===== src/Kernel/Sync.antt =====
-- kernel/thread/sync.c: one lock over the scheduler of Kernel.Thread. The lists hold threads, as the
-- ready list there does. A call runs with interrupts off up to the switch in `threadBlock`; what it
-- does behind the switch is done when its thread runs again: `semaDown` tests the value again.
pub mod Calls
pub mod Exclusion
pub mod Owners
pub mod Wakes
mod Tests
use gogoos.Common.{
  u32, ℕ, ◌+◌, ◌-◌, Bool, true, false, not, Option, none, some, List, [], ◌∷◌, ◌++◌, ◌==◌, ltb,
  if◌then◌else◌, ◌>>=◌, ◌>>◌, assert,
}
use gogoos.Structure.LinkedList.Walk.{contains}
use gogoos.Kernel.Thread.{
  TaskStatus, task_running, task_ready, task_blocked, task_waiting, task_hanging, task_died, System,
  thread_block, thread_unblock,
}

-- `Lock` with its `Semaphore`; `none` is the holder NULL
pub record Lock : Type 0 where
  pub holder : Option ℕ
  pub value : ℕ
  pub blocked_list : List ℕ
  pub waiting_list : List ℕ
  pub holder_repeat_times : ℕ

pub record World : Type 0 where
  pub sys : System
  pub lock : Lock

-- How a call goes on: it returns, or its thread has been switched away in the middle.
pub data Outcome : Type 0 where
  returns : World → Outcome
  switches : World → Outcome

-- `lockInit` with `semaInit`
pub lock_init : Lock
lock_init = record {
  holder = none;
  value = 1;
  blocked_list = [];
  waiting_list = [];
  holder_repeat_times = 0;
}

-- lock->holder == cur
abbrev pub is_holder : Lock → ℕ → Bool
is_holder lock cur = elim lock.holder [ none ↦ false | some h ↦ h == cur ]

abbrev pub is_blocked : TaskStatus → Bool
is_blocked task_running = false
is_blocked task_ready = false
is_blocked task_blocked = true
is_blocked task_waiting = false
is_blocked task_hanging = false
is_blocked task_died = false

-- One round of the loop of `semaDown`, and what follows it.
unfoldable pub sema_down : World → Option Outcome
sema_down w =
    let cur = w.sys.current in
    if w.lock.value == 0
    then (do
      assert (not (contains cur w.lock.blocked_list))
      sys ← thread_block w.sys task_blocked
      some (
          switches (record {
            sys = sys;
            lock = record w.lock { blocked_list = w.lock.blocked_list ++ (cur ∷ []) };
          })))
    else (do
      assert (w.lock.value - 1 == 0)
      some (returns (record w { lock = record w.lock { value = w.lock.value - 1 } })))

-- The loop of `semaUp`: the list and the threads as it leaves them.
unfoldable pub wake_blocked : (blocked_list : List ℕ) → System → Option (List ℕ × System)
wake_blocked [] sys = some ([], sys)
wake_blocked (t ∷ ts) sys =
    let rest = wake_blocked ts sys in
    if is_blocked (sys.tasks t).status
    then (do sys' ← thread_unblock sys t; some (ts, sys'))
    else rest

-- `semaUp`
unfoldable pub sema_up : World → Option World
sema_up w = do
  assert (w.lock.value == 0)
  (blocked, sys) ← wake_blocked w.lock.blocked_list w.sys
  assert (w.lock.value + 1 == 1)
  some (record {
    sys = sys;
    lock = record w.lock { blocked_list = blocked; value = w.lock.value + 1 };
  })

-- `lockLock` behind `semaDown`
pub take_lock : World → World
take_lock w = record w {
  lock = record w.lock { holder = some w.sys.current; holder_repeat_times = 1 };
}

pub lock_again : World → World
lock_again w = record w {
  lock = record w.lock { holder_repeat_times = u32 (w.lock.holder_repeat_times + 1) };
}

-- `lockLock`
unfoldable pub lock_lock : World → Option Outcome
lock_lock w =
    if not (is_holder w.lock w.sys.current)
    then (do
      o ← sema_down w
      some (elim o [ returns w' ↦ returns (take_lock w') | switches w' ↦ switches w' ]))
    else some (returns (lock_again w))

pub unlock_once : World → World
unlock_once w = record w {
  lock = record w.lock { holder_repeat_times = w.lock.holder_repeat_times - 1 };
}

-- `lockUnlock` in front of `semaUp`
pub leave_lock : World → World
leave_lock w = record w { lock = record w.lock { holder = none; holder_repeat_times = 0 } }

-- `lockUnlock`
unfoldable pub lock_unlock : World → Option World
lock_unlock w = do
  assert (is_holder w.lock w.sys.current)
  if ltb 1 w.lock.holder_repeat_times
      then some (unlock_once w)
      else do assert (w.lock.holder_repeat_times == 1); sema_up (leave_lock w)

-- `lockWait`, to the switch; behind it the thread calls `lockLock`.
unfoldable pub lock_wait : World → Option World
lock_wait w = do
  let cur = w.sys.current
  assert (is_holder w.lock cur)
  assert (not (contains cur w.lock.waiting_list))
  assert (not (contains cur w.lock.blocked_list))
  w' ←
      lock_unlock
        (record w { lock = record w.lock { waiting_list = w.lock.waiting_list ++ (cur ∷ []) } })
  sys ← thread_block w'.sys task_waiting
  some (record w' { sys = sys })

unfoldable pub notify_first : World → (waiting_list : List ℕ) → Option World
notify_first w [] = some w
notify_first w (t ∷ ts) = do
  sys ← thread_unblock w.sys t
  some (record { sys = sys; lock = record w.lock { waiting_list = ts } })

-- `lockNotify`
unfoldable pub lock_notify : World → Option World
lock_notify w = do assert (is_holder w.lock w.sys.current); notify_first w w.lock.waiting_list

-- The loop of `lockNotifyAll`.
unfoldable pub wake_all : (waiting_list : List ℕ) → System → Option System
wake_all [] sys = some sys
wake_all (t ∷ ts) sys = do sys' ← thread_unblock sys t; wake_all ts sys'

-- `lockNotifyAll`
unfoldable pub lock_notify_all : World → Option World
lock_notify_all w = do
  assert (is_holder w.lock w.sys.current)
  sys ← wake_all w.lock.waiting_list w.sys
  some (record { sys = sys; lock = record w.lock { waiting_list = [] } })

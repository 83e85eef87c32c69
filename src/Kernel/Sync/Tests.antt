-- ===== src/Kernel/Sync/Tests.antt =====
-- kernel/thread/sync.c: a lock on a system of threads.
use gogoos.Common.{ℕ, ◌≡◌, refl, some, [], ◌∷◌, ◌==◌, if◌then◌else◌, arith}
use gogoos.Kernel.Thread.{
  TaskStatus, task_running, task_ready, task_blocked, task_died, System, stack_magic_number,
  is_running,
}
use gogoos.Kernel.Thread.Count.{count}
use gogoos.Kernel.Thread.Sched.{IsSched, ready_count}
use gogoos.Kernel.Sync.{World, returns, lock_init, sema_down, sema_up, take_lock}
use gogoos.Kernel.Sync.Exclusion.{
  State, goes, tests, initial, Alone, here, next, downs, takes, lock-excludes,
}
use gogoos.Kernel.Sync.Owners.{downing, taking, inside}
use gogoos.Kernel.Sync.Wakes.{Woken, sema_up-Woken}

abbrev status_of : ℕ → TaskStatus
status_of t =
    if t == 1
    then task_running
    else if t == 2
    then task_ready
    else if t == 3
    then task_blocked
    else if t == 9
    then task_blocked
    else task_died

-- thread 1 runs, 2 is ready, 3 and the idle thread 9 are blocked
abbrev four : System
four = record {
  tasks = λ t. record {
    status = status_of t;
    priority = 4;
    ticks = 4;
    elapsed_ticks = 0;
    stack_magic_num = stack_magic_number;
  };
  ready_list = 2 ∷ [];
  current = 1;
  idle_thread = 9;
}

listed_four : (t : ℕ) → count t (2 ∷ []) ≡ ready_count (status_of t)
unfolding count
listed_four t = ground arith

runs_four : (t : ℕ) → is_running (status_of t) ≡ (1 == t)
runs_four t = ground arith

four-IsSched : IsSched four
four-IsSched = record { listed = listed_four; runs = runs_four; idle_alive = refl }

-- thread 3 waits for the lock, thread 2 does no longer
abbrev contended : World
contended = record { sys = four; lock = record lock_init { value = 0; blocked_list = 2 ∷ 3 ∷ [] } }

sema_up-Woken_example :
    (w' : World) × (sema_up contended ≡ some w')
    × (w'.lock.value ≡ 1)
    × IsSched w'.sys
    × Woken four (2 ∷ 3 ∷ []) w'.lock.blocked_list w'.sys
sema_up-Woken_example = sema_up-Woken contended four-IsSched refl

abbrev taken : World
taken = record { sys = four; lock = record lock_init { value = 0 } }

downs_four : sema_down (record { sys = four; lock = lock_init }) ≡ some (returns taken)
unfolding sema_down lock_init
downs_four = refl

-- thread 1 in `semaDown`
abbrev tested : State
tested = goes (initial four) (initial four).world downing

-- thread 1 in the lock
abbrev entered : State
entered = goes (goes tested taken taking) (take_lock taken) inside

lock-excludes_example : Alone entered.world.lock entered.phase 1
unfolding lock_init
lock-excludes_example =
    lock-excludes four entered 1
      (next (next (next here (tests refl refl)) (downs refl downs_four)) (takes refl)) refl

-- ===== src/Kernel/Thread/Tests.antt =====
-- The scheduler on a system of five threads.
use gogoos.Common.{
  ℕ, ◌≡◌, ◌≢◌, refl, true, false, none, some, [], ◌∷◌, ◌++◌, ◌==◌, if◌then◌else◌, arith,
}
use gogoos.Kernel.Thread.{
  TaskStatus, task_running, task_ready, task_blocked, task_died, System, stack_magic_number,
  is_running, schedule, thread_block, intr_timer_handler,
}
use gogoos.Kernel.Thread.Count.{count}
use gogoos.Kernel.Thread.Sched.{IsSched, ready_count}
use gogoos.Kernel.Thread.Resched.{Next, schedule-IsSched}
use gogoos.Kernel.Thread.Steps.{
  Ticked, here, next, yields_to, thread_block-IsSched, thread_yield-IsSched,
  intr_timer_handler-IsSched, Reach-IsSched,
}
use gogoos.Kernel.Thread.Turns.{yields, yields-turn}

abbrev status_of : ℕ → TaskStatus
status_of t =
    if t == 1
    then task_running
    else if t == 2
    then task_ready
    else if t == 3
    then task_ready
    else if t == 9
    then task_blocked
    else task_died

-- thread 1 runs, 2 and 3 are ready, the idle thread 9 is blocked
abbrev five : System
five = record {
  tasks = λ t. record {
    status = status_of t;
    priority = 4;
    ticks = 4;
    elapsed_ticks = 0;
    stack_magic_num = stack_magic_number;
  };
  ready_list = 2 ∷ 3 ∷ [];
  current = 1;
  idle_thread = 9;
}

listed_five : (t : ℕ) → count t (2 ∷ 3 ∷ []) ≡ ready_count (status_of t)
unfolding count
listed_five t = ground arith

runs_five : (t : ℕ) → is_running (status_of t) ≡ (1 == t)
runs_five t = ground arith

five-IsSched : IsSched five
five-IsSched = record { listed = listed_five; runs = runs_five; idle_alive = refl }

schedule-IsSched_example :
    (schedule false five ≡ none)
    × (s' : System) × (schedule true five ≡ some s')
    × IsSched s'
    × (s'.current ∷ s'.ready_list ≡ (2 ∷ 3 ∷ []) ++ (1 ∷ []))
schedule-IsSched_example = schedule-IsSched five five-IsSched

thread_block-IsSched_example :
    (s' : System) × (thread_block five task_blocked ≡ some s') × IsSched s' × Next five s'
thread_block-IsSched_example = thread_block-IsSched five task_blocked five-IsSched refl

intr_timer_handler-IsSched_example :
    (stack_magic_number ≢ stack_magic_number → intr_timer_handler five ≡ none)
    × (stack_magic_number ≡ stack_magic_number → Ticked five)
intr_timer_handler-IsSched_example = intr_timer_handler-IsSched five five-IsSched

abbrev after_yield : System
after_yield = (thread_yield-IsSched five five-IsSched).0

Reach-IsSched_example : IsSched after_yield
Reach-IsSched_example =
    Reach-IsSched five-IsSched (next here (yields_to (thread_yield-IsSched five five-IsSched).1))

yields-turn_example :
    (s' : System) × (yields 2 five ≡ some s')
    × IsSched s'
    × (s'.current ≡ 3)
    × (s'.ready_list ≡ [] ++ (1 ∷ 2 ∷ []))
yields-turn_example = yields-turn five (2 ∷ []) 3 [] five-IsSched refl

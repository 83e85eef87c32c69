-- ===== src/Kernel/Thread.antt =====
-- kernel/thread/thread.c and the tick of device/timer.c: the scheduler. A thread is the address of
-- its `TaskStruct`. A list of threads is the sequence of its elements, which is what the functions
-- of lib/structure/list.c make of it. `current` is the thread that `getCurrentThread` finds by the
-- stack. `switchTo` changes the stack: what a function does behind it is done when the thread
-- runs again. `processActivate` loads page tables. `threadBlock` and `threadYield` turn interrupts off before they
-- call `schedule`, and the gate of the timer does: `schedule` takes whether they are off.
pub mod Count
pub mod Sched
pub mod Resched
pub mod Steps
pub mod Turns
mod Tests
use gogoos.Common.{
  ℕ, ◌-◌, ◌+◌, Bool, true, false, not, ◌||◌, Option, none, some, List, [], ◌∷◌, ◌++◌, ◌==◌,
  if◌then◌else◌, ◌>>=◌, ◌>>◌, assert, u32,
}
use gogoos.Structure.LinkedList.Walk.{contains}

pub data TaskStatus : Type 0 where
  task_running : TaskStatus
  task_ready : TaskStatus
  task_blocked : TaskStatus
  task_waiting : TaskStatus
  task_hanging : TaskStatus
  task_died : TaskStatus

abbrev pub is_running : TaskStatus → Bool
is_running task_running = true
is_running task_ready = false
is_running task_blocked = false
is_running task_waiting = false
is_running task_hanging = false
is_running task_died = false

-- (status == TASK_BLOCKED) || (status == TASK_HANGING) || (status == TASK_WAITING)
abbrev pub is_suspended : TaskStatus → Bool
is_suspended task_running = false
is_suspended task_ready = false
is_suspended task_blocked = true
is_suspended task_waiting = true
is_suspended task_hanging = true
is_suspended task_died = false

-- the fields of `TaskStruct` that the scheduler uses
pub record TaskStruct : Type 0 where
  pub status : TaskStatus
  pub priority : ℕ
  pub ticks : ℕ
  pub elapsed_ticks : ℕ
  pub stack_magic_num : ℕ

-- `STACK_MAGIC_NUMBER`
abbrev pub stack_magic_number : ℕ
stack_magic_number = 0x20212021

pub record System : Type 0 where
  pub tasks : ℕ → TaskStruct
  pub ready_list : List ℕ
  pub current : ℕ
  pub idle_thread : ℕ

abbrev pub update : (ℕ → TaskStruct) → ℕ → TaskStruct → ℕ → TaskStruct
update tasks t task x = if x == t then task else tasks x

abbrev pub with_status : System → ℕ → TaskStatus → System
with_status s t status = record s {
  tasks = update s.tasks t (record (s.tasks t) { status = status });
}

-- `threadUnblock`
pub thread_unblock : System → (pcb : ℕ) → Option System
thread_unblock s pcb = do
  assert (not (contains pcb s.ready_list))
  assert (is_suspended (s.tasks pcb).status)
  some (record (with_status s pcb task_ready) { ready_list = pcb ∷ s.ready_list })

-- the first part of `schedule`: a running thread goes to the end of the ready list
pub put_back : System → Option System
put_back s =
    let cur = s.current in
    if is_running (s.tasks cur).status
    then (do
      assert (not (contains cur s.ready_list))
      some (record s {
        ready_list = s.ready_list ++ (cur ∷ []);
        tasks =
            update s.tasks cur
              (record (s.tasks cur) { ticks = (s.tasks cur).priority; status = task_ready });
      }))
    else some s

-- the second part: the idle thread, if nobody else is ready
pub ensure_ready : System → List ℕ → Option System
ensure_ready s [] = thread_unblock s s.idle_thread
ensure_ready s (t ∷ rest) = some s

-- the last part; `listPop` of an empty list gives NULL, which is no thread
pub run_next : System → List ℕ → Option System
run_next s [] = none
run_next s (next ∷ rest) =
    some (record (with_status s next task_running) { ready_list = rest; current = next })

-- `schedule`, with the test of `getIntrStatus`
pub schedule : (intr_off : Bool) → System → Option System
schedule intr_off s = do
  assert intr_off
  s1 ← put_back s
  s2 ← ensure_ready s1 s1.ready_list
  run_next s2 s2.ready_list

-- `threadBlock`, to the switch
pub thread_block : System → TaskStatus → Option System
thread_block s status = do
  assert (is_suspended status)
  assert (not (contains s.current s.ready_list))
  schedule true (with_status s s.current status)

-- `threadYield`, to the switch
pub thread_yield : System → Option System
thread_yield s = do
  assert (not (contains s.current s.ready_list))
  schedule true (record (with_status s s.current task_ready) {
    ready_list = s.ready_list ++ (s.current ∷ []);
  })

-- `intrTimerHandler`; the count of all ticks is left out
pub intr_timer_handler : System → Option System
intr_timer_handler s = do
  let cur = s.tasks s.current
  assert (cur.stack_magic_num == stack_magic_number)
  let s1 = record s {
    tasks = update s.tasks s.current (record cur { elapsed_ticks = u32 (cur.elapsed_ticks + 1) });
  }
  if cur.ticks == 0
      then schedule true s1
      else some (record s1 {
        tasks = update s1.tasks s.current (record (s1.tasks s.current) { ticks = cur.ticks - 1 });
      })

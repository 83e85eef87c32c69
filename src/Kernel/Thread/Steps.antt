-- ===== src/Kernel/Thread/Steps.antt =====
-- The steps of the threads between two switches, and what holds in every state that they reach.
use gogoos.Common.{
  ℕ, suc, ◌+◌, ◌-◌, ◌≡◌, ◌≢◌, refl, sym, ap, ◌∙◌, true, false, Option, none, some, List, [], ◌∷◌,
  ◌++◌, ◌==◌, ==_refl, ==_iff, ==_false, if◌then◌else◌, ℕ_discrete, inl, inr, u32,
}
use gogoos.Kernel.Thread.{
  TaskStatus, task_ready, is_running, is_suspended, TaskStruct, stack_magic_number, System, update,
  with_status, thread_unblock, thread_block, thread_yield, intr_timer_handler,
}
use gogoos.Kernel.Thread.Count.{count, contains-absent}
use gogoos.Kernel.Thread.Sched.{
  ready_count, is_died, IsSched, suspended-ready_count, running-ready_count, suspended_not_died,
  suspended_not_running, Holds-change, thread_unblock_lem, running_not_died,
}
use gogoos.Kernel.Thread.Resched.{
  count_skip_end, count_end, Next, schedule_stopped, schedule-IsSched,
}

-- the current thread runs, and is not in the ready list
current-absent :
    (s : System)
    → IsSched s
    → (is_running (s.tasks s.current).status ≡ true) × (count s.current s.ready_list ≡ 0)
current-absent s h =
    let running = h.runs s.current ∙ ==_refl s.current in
    (running, h.listed s.current ∙ running-ready_count _ running)

-- From a state of the invariant `threadBlock` of the current thread, with a status that suspends
-- it, does not fault; the invariant holds behind it, and the first of the ready list runs, or the
-- idle thread if the list is empty.
pub thread_block-IsSched :
    (s : System) (status : TaskStatus)
    → IsSched s
    → is_suspended status ≡ true
    → (s' : System) × (thread_block s status ≡ some s') × IsSched s' × Next s s'
unfolding thread_block
thread_block-IsSched s status h sus =
    let (running, absent) = current-absent s h in
    let task = record (s.tasks s.current) { status = status } in
    let hu =
      Holds-change s (λ t. s.current == t) (λ t. false) s.current s.current task s.ready_list h
        (λ x ne. refl) (absent ∙ sym (suspended-ready_count status sus))
        (λ x ne. ==_false s.current x ne) (suspended_not_running status sus)
        (inl (suspended_not_died status sus)) in
    let (s', run, h', n) = schedule_stopped (with_status s s.current status) hu in
    (s', rw (sus, contains-absent s.current s.ready_list absent) run, h', n)

-- From a state of the invariant `threadYield` does not fault, the invariant holds behind it, the
-- current thread goes to the end of the line, and the first of the line runs.
pub thread_yield-IsSched :
    (s : System)
    → IsSched s
    → (s' : System) × (thread_yield s ≡ some s')
      × IsSched s'
      × (s'.current ∷ s'.ready_list ≡ s.ready_list ++ (s.current ∷ []))
unfolding thread_yield
thread_yield-IsSched s h =
    let cur = s.current in
    let (running, absent) = current-absent s h in
    let task = record (s.tasks cur) { status = task_ready } in
    let u = record (with_status s cur task_ready) { ready_list = s.ready_list ++ (cur ∷ []) } in
    let hu =
      Holds-change s (λ t. cur == t) (λ t. false) cur cur task (s.ready_list ++ (cur ∷ [])) h
        (λ x ne. count_skip_end cur x s.ready_list ne) (count_end cur s.ready_list ∙ ap suc absent)
        (λ x ne. ==_false cur x ne) refl (inl refl) in
    let (s', run, h', n) = schedule_stopped u hu in
    (
      s',
      rw (contains-absent cur s.ready_list absent) run,
      h',
      elim n [ inl e ↦ e | inr p ↦ absurd (never_nil s.ready_list p.0) ],
    )
  where
    never_nil : (xs : List ℕ) → (xs ++ (s.current ∷ []) ≡ []) → ⊥
    never_nil [] q = cc
    never_nil (x ∷ xs) q = cc

-- An entry of the current thread changes, but not its status.
keep-IsSched :
    (s : System) (task : TaskStruct)
    → IsSched s
    → task.status ≡ (s.tasks s.current).status
    → IsSched (record s { tasks = update s.tasks s.current task })
keep-IsSched s task h same =
    let (running, absent) = current-absent s h in
    Holds-change s (λ t. s.current == t) (λ t. s.current == t) s.current s.current task s.ready_list
      h (λ x ne. refl) (h.listed s.current ∙ ap ready_count (sym same)) (λ x ne. refl)
      (ap is_running same ∙ h.runs s.current)
      (inl (ap is_died same ∙ running_not_died (s.tasks s.current).status running))

-- What a tick does. A thread with ticks left goes on with one less; a thread with none goes to the end of the line,
-- and the first of the line runs.
abbrev pub Ticked : System → Type 0
Ticked s =
    (s' : System) × (intr_timer_handler s ≡ some s')
    × IsSched s'
    × (if (s.tasks s.current).ticks == 0
        then (s'.current ∷ s'.ready_list ≡ s.ready_list ++ (s.current ∷ []))
        else ((s'.current ≡ s.current)
            × (s'.ready_list ≡ s.ready_list)
            × ((s'.tasks s.current).ticks ≡ (s.tasks s.current).ticks - 1)))

intr_timer_handler-Ticked :
    (s : System) → IsSched s → (s.tasks s.current).stack_magic_num ≡ stack_magic_number → Ticked s
unfolding intr_timer_handler
intr_timer_handler-Ticked s h intact =
    let cur = s.tasks s.current in
    let counted = record cur { elapsed_ticks = u32 (cur.elapsed_ticks + 1) } in
    let u = record s { tasks = update s.tasks s.current counted } in
    let sound = (==_iff cur.stack_magic_num stack_magic_number).1 intact in
    let hu = keep-IsSched s counted h refl in
    elim (ℕ_discrete cur.ticks 0) [
      | yes e ↦
          let zero_left : (cur.ticks == 0) ≡ true = ap (λ k. k == 0) e in
          let (_, s', run, h', line) = schedule-IsSched u hu in
          (s', rw (sound, zero_left) run, h', rw zero_left line)
      | no ne ↦
          let less = record (u.tasks s.current) { ticks = cur.ticks - 1 } in
          (
            record u { tasks = update u.tasks s.current less },
            rw (sound, ==_false cur.ticks 0 ne) refl,
            keep-IsSched u less hu refl,
            rw (==_false cur.ticks 0 ne) (refl, refl, rw (==_refl s.current) refl),
          )
    ]

-- From a state of the invariant a tick of the timer faults if the magic number at the end of the stack of the current
-- thread is not intact. If it is, the tick does not fault, and the invariant holds behind it: a thread with ticks left
-- goes on with one less; a thread with none goes to the end of the line, and the first of the line runs.
pub intr_timer_handler-IsSched :
    (s : System)
    → IsSched s
    → ((s.tasks s.current).stack_magic_num ≢ stack_magic_number → intr_timer_handler s ≡ none)
      × ((s.tasks s.current).stack_magic_num ≡ stack_magic_number → Ticked s)
unfolding intr_timer_handler
intr_timer_handler-IsSched s h = (
  (λ broken. rw (==_false (s.tasks s.current).stack_magic_num stack_magic_number broken) refl),
  λ intact. intr_timer_handler-Ticked s h intact,
)

-- What a thread that runs can do, and the interrupts that it can meet.
pub data Step : System → System → Type 0 where
  blocks :
      {s s' : System} (status : TaskStatus)
      → is_suspended status ≡ true
      → thread_block s status ≡ some s'
      → Step s s'
  yields_to : {s s' : System} → thread_yield s ≡ some s' → Step s s'
  unblocks :
      {s s' : System} (t : ℕ)
      → is_suspended (s.tasks t).status ≡ true
      → thread_unblock s t ≡ some s'
      → Step s s'
  ticks : {s s' : System} → intr_timer_handler s ≡ some s' → Step s s'

pub data Reach (s : System) : System → Type 0 where
  here : Reach s s
  next : {u v : System} → Reach s u → Step u v → Reach s v

-- the state that a step has by its lemma is the state that it ends in
same_end :
    {m : Option System} {s' : System}
    → (u : System) → m ≡ some u
    → m ≡ some s'
    → IsSched u
    → IsSched s'
same_end {s' = s'} u p q h = let e : u ≡ s' = cc in rw (sym e) h

Step-IsSched : {s s' : System} → Step s s' → IsSched s → IsSched s'
Step-IsSched {s = s} (blocks status sus run) h =
    let (u, run', h', n) = thread_block-IsSched s status h sus in same_end u run' run h'
Step-IsSched {s = s} (yields_to run) h =
    let (u, run', h', n) = thread_yield-IsSched s h in same_end u run' run h'
Step-IsSched {s = s} (unblocks t sus run) h =
    let (u, run', hu, ru, cu) = thread_unblock_lem s (λ x. s.current == x) t h sus in
    same_end u run' run (rw cu hu)
Step-IsSched {s = s} (ticks run) h =
    elim (ℕ_discrete (s.tasks s.current).stack_magic_num stack_magic_number) [
      | yes intact ↦
          let (u, run', h', n) = intr_timer_handler-Ticked s h intact in same_end u run' run h'
      | no broken ↦ absurd (cc ((intr_timer_handler-IsSched s h).0 broken, run))
    ]

-- In every state that blocking, yielding, unblocking and ticks reach from a state of the
-- invariant, the ready list has each ready thread once and no other, exactly the current thread
-- runs, and the idle thread has not died.
pub Reach-IsSched : {s s' : System} → IsSched s → Reach s s' → IsSched s'
Reach-IsSched h here = h
Reach-IsSched h (next r st) = Step-IsSched st (Reach-IsSched h r)

-- ===== src/Kernel/Thread/Sched.antt =====
-- The invariant of the scheduler, and that `schedule` restores it.
use gogoos.Common.{
  ℕ, suc, ◌≡◌, ◌≢◌, refl, sym, ◌∙◌, Bool, true, false, some, List, ◌∷◌, ◌==◌, ==_refl, ==_false,
  arith, ℕ_discrete, inl, inr, ◌⊎◌,
}
use gogoos.Kernel.Thread.{
  TaskStatus, task_running, task_ready, task_blocked, task_waiting, task_hanging, task_died,
  is_running, is_suspended, TaskStruct, System, update, with_status, thread_unblock,
}
use gogoos.Kernel.Thread.Count.{count, count_here, count_skip, contains-absent}

-- how often a thread of this status stands in the ready list
abbrev pub ready_count : TaskStatus → ℕ
ready_count task_running = 0
ready_count task_ready = 1
ready_count task_blocked = 0
ready_count task_waiting = 0
ready_count task_hanging = 0
ready_count task_died = 0

abbrev pub is_died : TaskStatus → Bool
is_died task_running = false
is_died task_ready = false
is_died task_blocked = false
is_died task_waiting = false
is_died task_hanging = false
is_died task_died = true

-- The ready list has each ready thread once and no other, the threads that `busy` names are the
-- running ones, and the idle thread has not died.
pub record Holds (s : System) (busy : ℕ → Bool) : Type 0 where
  pub listed : (t : ℕ) → count t s.ready_list ≡ ready_count (s.tasks t).status
  pub runs : (t : ℕ) → is_running (s.tasks t).status ≡ busy t
  pub idle_alive : is_died (s.tasks s.idle_thread).status ≡ false

-- Just the current thread runs.
abbrev pub IsSched : System → Type 0
IsSched s = Holds s (λ t. s.current == t)

-- Nobody runs: inside `schedule`.
abbrev pub IsStopped : System → Type 0
IsStopped s = Holds s (λ t. false)

pub suspended-ready_count : (st : TaskStatus) → is_suspended st ≡ true → ready_count st ≡ 0
suspended-ready_count task_running h = refl
suspended-ready_count task_ready h = cc
suspended-ready_count task_blocked h = refl
suspended-ready_count task_waiting h = refl
suspended-ready_count task_hanging h = refl
suspended-ready_count task_died h = refl

pub running-ready_count : (st : TaskStatus) → is_running st ≡ true → ready_count st ≡ 0
running-ready_count task_running h = refl
running-ready_count task_ready h = cc
running-ready_count task_blocked h = refl
running-ready_count task_waiting h = refl
running-ready_count task_hanging h = refl
running-ready_count task_died h = refl

pub suspended_not_died : (st : TaskStatus) → is_suspended st ≡ true → is_died st ≡ false
suspended_not_died task_running h = refl
suspended_not_died task_ready h = refl
suspended_not_died task_blocked h = refl
suspended_not_died task_waiting h = refl
suspended_not_died task_hanging h = refl
suspended_not_died task_died h = cc

pub suspended_not_running : (st : TaskStatus) → is_suspended st ≡ true → is_running st ≡ false
suspended_not_running task_running h = cc
suspended_not_running task_ready h = refl
suspended_not_running task_blocked h = refl
suspended_not_running task_waiting h = refl
suspended_not_running task_hanging h = refl
suspended_not_running task_died h = refl

pub is_suspended_rest :
    (st : TaskStatus)
    → ready_count st ≡ 0
    → is_running st ≡ false
    → is_died st ≡ false
    → is_suspended st ≡ true
is_suspended_rest task_running z r d = sym r
is_suspended_rest task_ready z r d = absurd (omega arith)
is_suspended_rest task_blocked z r d = refl
is_suspended_rest task_waiting z r d = refl
is_suspended_rest task_hanging z r d = refl
is_suspended_rest task_died z r d = sym d

pub ready_count_one : (st : TaskStatus) (n : ℕ) → suc n ≡ ready_count st → st ≡ task_ready
ready_count_one task_running n h = absurd (omega arith)
ready_count_one task_ready n h = refl
ready_count_one task_blocked n h = absurd (omega arith)
ready_count_one task_waiting n h = absurd (omega arith)
ready_count_one task_hanging n h = absurd (omega arith)
ready_count_one task_died n h = absurd (omega arith)

-- One thread's entry, the ready list and the current thread change.
pub Holds-change :
    (s : System) (busy busy' : ℕ → Bool) (t cur : ℕ) (task : TaskStruct) (ready : List ℕ)
    → Holds s busy
    → ((x : ℕ) → t ≢ x → count x ready ≡ count x s.ready_list)
    → count t ready ≡ ready_count task.status
    → ((x : ℕ) → t ≢ x → busy x ≡ busy' x)
    → is_running task.status ≡ busy' t
    → is_died task.status ≡ false ⊎ (t ≢ s.idle_thread)
    → Holds (record s { tasks = update s.tasks t task; ready_list = ready; current = cur }) busy'
Holds-change s busy busy' t cur task ready h others own same now alive = record {
  listed = λ x. elim (ℕ_discrete t x) [
    | yes e ↦ rw (sym e, ==_refl t) own
    | no ne ↦ rw (==_false x t (λ q. ne (sym q))) (others x ne ∙ h.listed x)
  ];
  runs = λ x. elim (ℕ_discrete t x) [
    | yes e ↦ rw (sym e, ==_refl t) now
    | no ne ↦ rw (==_false x t (λ q. ne (sym q))) (h.runs x ∙ same x ne)
  ];
  idle_alive = elim (ℕ_discrete t s.idle_thread) [
    | yes e ↦ elim alive [ inl a ↦ rw (sym e, ==_refl t) a | inr ne ↦ absurd (ne e) ]
    | no ne ↦ rw (==_false s.idle_thread t (λ q. ne (sym q))) h.idle_alive
  ];
}

-- `threadUnblock` of a suspended thread puts it first.
pub thread_unblock_lem :
    (s : System) (busy : ℕ → Bool) (t : ℕ)
    → Holds s busy
    → is_suspended (s.tasks t).status ≡ true
    → (s' : System) × (thread_unblock s t ≡ some s')
      × Holds s' busy
      × (s'.ready_list ≡ t ∷ s.ready_list)
      × (s'.current ≡ s.current)
unfolding thread_unblock
thread_unblock_lem s busy t h sus =
    let none_yet : count t s.ready_list ≡ 0 = h.listed t ∙ suspended-ready_count _ sus in
    (
      record (with_status s t task_ready) { ready_list = t ∷ s.ready_list },
      rw (contains-absent t s.ready_list none_yet, sus) refl,
      Holds-change s busy busy t s.current (record (s.tasks t) { status = task_ready })
          (t ∷ s.ready_list) h (λ x ne. count_skip x t s.ready_list ne)
          (omega (arith, count_here t s.ready_list, none_yet)) (λ x ne. refl)
          (sym (suspended_not_running _ sus) ∙ h.runs t) (inl refl),
      refl,
      refl,
    )

pub running_not_died : (st : TaskStatus) → is_running st ≡ true → is_died st ≡ false
running_not_died task_running h = refl
running_not_died task_ready h = refl
running_not_died task_blocked h = refl
running_not_died task_waiting h = refl
running_not_died task_hanging h = refl
running_not_died task_died h = sym h

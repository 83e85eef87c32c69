-- ===== src/Kernel/Thread/Resched.antt =====
-- `schedule`: who runs next, and that the invariant holds again.
use gogoos.Common.{
  ℕ, suc, ◌≡◌, ◌≢◌, refl, sym, ap, ◌∙◌, true, false, none, some, List, [], ◌∷◌, ◌++◌, ◌==◌, ==_refl,
  ==_false, ◌>>=◌, arith, inl, inr, ◌⊎◌,
}
use gogoos.Kernel.Thread.{
  task_running, task_ready, is_running, System, update, with_status, put_back, ensure_ready,
  run_next, schedule,
}
use gogoos.Kernel.Thread.Count.{count, count-append, count_here, count_skip, contains-absent}
use gogoos.Kernel.Thread.Sched.{
  ready_count, IsSched, IsStopped, running-ready_count, is_suspended_rest, ready_count_one,
  Holds-change, thread_unblock_lem,
}

pub count_skip_end : (t x : ℕ) (xs : List ℕ) → t ≢ x → count x (xs ++ (t ∷ [])) ≡ count x xs
unfolding count
count_skip_end t x xs ne = omega (arith, count-append x xs (t ∷ []), count_skip x t [] ne)

pub count_end : (t : ℕ) (xs : List ℕ) → count t (xs ++ (t ∷ [])) ≡ suc (count t xs)
unfolding count
count_end t xs = omega (arith, count-append t xs (t ∷ []), count_here t [])

-- The running thread goes to the end of the ready list.
put_back_lem :
    (s : System)
    → IsSched s
    → (s' : System) × (put_back s ≡ some s')
      × IsStopped s'
      × (s'.ready_list ≡ s.ready_list ++ (s.current ∷ []))
unfolding put_back
put_back_lem s h =
    let cur = s.current in
    let running : is_running (s.tasks cur).status ≡ true = h.runs cur ∙ ==_refl cur in
    let absent : count cur s.ready_list ≡ 0 = h.listed cur ∙ running-ready_count _ running in
    let task = record (s.tasks cur) { ticks = (s.tasks cur).priority; status = task_ready } in
    (
      record s { ready_list = s.ready_list ++ (cur ∷ []); tasks = update s.tasks cur task },
      rw (running, contains-absent cur s.ready_list absent) refl,
      Holds-change s (λ t. cur == t) (λ t. false) cur cur task (s.ready_list ++ (cur ∷ [])) h
          (λ x ne. count_skip_end cur x s.ready_list ne)
          (count_end cur s.ready_list ∙ ap suc absent) (λ x ne. ==_false cur x ne) refl (inl refl),
      refl,
    )

-- Where nobody runs, nothing is put back.
put_back_stopped : (s : System) → IsStopped s → put_back s ≡ some s
unfolding put_back
put_back_stopped s h = rw (h.runs s.current) refl

run_next_lem :
    (s : System) (t : ℕ) (rest : List ℕ)
    → IsStopped s
    → s.ready_list ≡ t ∷ rest
    → (s' : System) × (run_next s (t ∷ rest) ≡ some s')
      × IsSched s'
      × (s'.current ≡ t)
      × (s'.ready_list ≡ rest)
unfolding run_next
run_next_lem s t rest h e =
    let once : suc (count t rest) ≡ ready_count (s.tasks t).status =
      sym (count_here t rest) ∙ ap (count t) (sym e) ∙ h.listed t in
    let ready : (s.tasks t).status ≡ task_ready = ready_count_one _ (count t rest) once in
    let absent : count t rest ≡ 0 = omega (arith, once, ap ready_count ready) in
    (
      record (with_status s t task_running) { ready_list = rest; current = t },
      refl,
      Holds-change s (λ x. false) (λ x. t == x) t t (record (s.tasks t) { status = task_running })
          rest h (λ x ne. sym (count_skip x t rest ne) ∙ ap (count x) (sym e)) absent
          (λ x ne. sym (==_false t x ne)) (sym (==_refl t)) (inl refl),
      refl,
      refl,
    )

-- Where nobody runs, the first ready thread is next, and the idle thread if there is none.
abbrev pub Next : System → System → Type 0
Next s s' =
    (s'.current ∷ s'.ready_list ≡ s.ready_list)
    ⊎ ((s.ready_list ≡ []) × (s'.current ≡ s.idle_thread) × (s'.ready_list ≡ []))

-- the two last parts of `schedule`, by the ready list
run_first :
    (s : System) (ready : List ℕ)
    → IsStopped s
    → s.ready_list ≡ ready
    → (s' : System) × ((ensure_ready s ready >>= λ u. run_next u u.ready_list) ≡ some s')
      × IsSched s'
      × Next s s'
unfolding ensure_ready count
run_first s [] h e =
    let idle = s.idle_thread in
    let sus =
      is_suspended_rest (s.tasks idle).status
        (sym (h.listed idle) ∙ ap (count idle) e ∙ count_nil idle) (h.runs idle) h.idle_alive in
    let (u, run, hu, ru, cu) = thread_unblock_lem s (λ x. false) idle h sus in
    let (s', run', h', c', r') = run_next_lem u idle s.ready_list hu ru in
    (s', rw (run, ru) run', h', inr (e, c', r' ∙ e))
  where
    count_nil : (t : ℕ) → count t [] ≡ 0
    count_nil t = refl
run_first s (t ∷ rest) h e =
    let (s', run', h', c', r') = run_next_lem s t rest h e in
    (s', ap (run_next s) e ∙ run', h', inl (rw (c', r') (sym e)))

pub schedule_stopped :
    (s : System)
    → IsStopped s
    → (s' : System) × (schedule true s ≡ some s') × IsSched s' × Next s s'
unfolding schedule
schedule_stopped s h =
    let (s', run, h', n) = run_first s s.ready_list h refl in
    (s', rw (put_back_stopped s h) run, h', n)

-- From a state of the invariant, where the current thread runs, `schedule` faults with interrupts on. With interrupts
-- off it does not fault, the invariant holds behind it, and the threads take turns: the current thread goes to the end
-- of the line, and the first of the line runs.
pub schedule-IsSched :
    (s : System)
    → IsSched s
    → (schedule false s ≡ none)
      × (s' : System) × (schedule true s ≡ some s')
      × IsSched s'
      × (s'.current ∷ s'.ready_list ≡ s.ready_list ++ (s.current ∷ []))
unfolding schedule
schedule-IsSched s h =
    let (u, back, hu, ru) = put_back_lem s h in
    let (s', run, h', n) = run_first u u.ready_list hu refl in
    (
      refl,
      s',
      rw back run,
      h',
      elim n [ inl e ↦ e ∙ ru | inr p ↦ absurd (never_nil s.ready_list (sym ru ∙ p.0)) ],
    )
  where
    never_nil : (xs : List ℕ) → (xs ++ (s.current ∷ []) ≡ []) → ⊥
    never_nil [] q = cc
    never_nil (x ∷ xs) q = cc

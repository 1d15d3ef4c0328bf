-- ===== src/Reachability.antt =====
-- Every state of user code that a process of the library can come to (uthreads.cpp, scheduler.cpp):
-- from `uthread_init`, by any calls and any signals of the timer.
use os_ex.Prelude.{
  ◌==◌, ℕ, some, count, of_bool, lookup, ap, ◌∙◌, suc, ◌<◌, ◌≡◌, ◌≢◌, inl, inr, subst, Bool, true,
  false, pos, arith,
}
use os_ex.Checked.{int_max}
use os_ex.Thread.{is_running, Thread, blocked_and_sleeping, is_ready, is_sleeping, not_sleeping}
use os_ex.Machine.{System, Os, Result, returns}
use os_ex.Scheduler.{success, max_thread_num}
use os_ex.Uthreads.{Seen, absent, initialized, uthread_init, Call, sleep, step_call, step_tick}
use os_ex.Invariant.{IsValid, cell_at, ready_weight, sleeping_weight}
use os_ex.Safety.{
  current_thread, Outcome, call_safe, tick_safe, initial, uthread_init_lem, initial-IsValid,
}

-- The quantums stay below the largest int, and nobody calls `uthread_sleep(-1)`.
pub data Reach : System → Type 0 where
  start :
      (os : Os) (n : ℕ) (masked : Bool) {s : System}
      → os.allocates ≡ true
      → uthread_init os (pos (suc n)) (absent masked) ≡ initialized (returns success s)
      → Reach s
  call :
      (os : Os) (c : Call) {s : System} (seen : Seen) {s' : System}
      → Reach s
      → s.total_quantoms < int_max
      → c ≢ sleep not_sleeping
      → step_call os c s ≡ returns seen s'
      → Reach s'
  tick :
      (os : Os) {s : System} (seen : Seen) {s' : System}
      → Reach s
      → s.total_quantoms < int_max
      → step_tick os s ≡ returns seen s'
      → Reach s'

outcome-IsValid :
    {r : Result System Seen} {seen : Seen} {s : System}
    → r ≡ returns seen s
    → Outcome r
    → (cur : ℕ) × IsValid cur s
outcome-IsValid e o = rw e at o

-- Every state that the library reaches from a `uthread_init` that returns 0, with memory for the
-- main thread's object, by ticks and by calls other than `uthread_sleep(-1)`, each with fewer
-- quantums than the largest int before it, is valid for some running thread: the lists, the table
-- and the ids agree with the objects, and the signal is let in.
pub Reach-IsValid : {s : System} → Reach s → (cur : ℕ) × IsValid cur s
Reach-IsValid (start os n masked {s} a e) =
    let first : initial os (suc n) false ≡ s = cc (e, uthread_init_lem os n masked a) in
    (1, subst (IsValid 1) first (initial-IsValid os (suc n)))
Reach-IsValid (call os c seen r lt h e) =
    let (cur, v) = Reach-IsValid r in
    elim (call_safe v lt os c h) [
      | inl o ↦ outcome-IsValid e o
      | inr (faults, lost) ↦ cc (e, faults)
    ]
Reach-IsValid (tick os seen r lt e) =
    let (cur, v) = Reach-IsValid r in outcome-IsValid e (tick_safe v lt os)

-- In every state that the library reaches from a `uthread_init` that returns 0, with memory for
-- the main thread's object, by ticks and by calls other than `uthread_sleep(-1)`, each with fewer
-- quantums than the largest int before it, the object on whose stack the processor is is live and
-- has the id `_running_thread_id`, and a live thread is running if it is that one and not else.
pub Reach-one_running :
    {s : System} (q : ℕ) {u : Thread}
    → Reach s
    → s.heap q ≡ some u
    → (t : Thread) × (s.heap s.stack ≡ some t)
      × (t.id ≡ s.running_thread_id)
      × (is_running u ≡ (q == s.stack))
unfolding is_running
Reach-one_running {s} q {u} r e =
    let (cur, v) = Reach-IsValid r in
    let (t, live, i) = current_thread v.busy in
    let c = cell_at v.inv q e in
    (t, ap s.heap v.on_stack ∙ live, i, ground (arith, c.runs, c.current, v.on_stack))

-- In every state that the library reaches from a `uthread_init` that returns 0, with memory for
-- the main thread's object, by ticks and by calls other than `uthread_sleep(-1)`, each with fewer
-- quantums than the largest int before it, a live thread is in the ready queue once if it is
-- ready and else not at all, in the set of sleepers once if it sleeps and else not at all, is
-- never both blocked and sleeping, is the entry of its id in the table, and its id is below the
-- limit.
pub Reach-lists :
    {s : System} (p : ℕ) {t : Thread}
    → Reach s
    → s.heap p ≡ some t
    → (count p s.ready_queue ≡ of_bool (is_ready t))
      × (count p s.sleeping_threads ≡ of_bool (is_sleeping false t))
      × (t.state ≢ blocked_and_sleeping)
      × (lookup t.id s.active_threads ≡ some p)
      × (t.id < max_thread_num)
unfolding is_ready is_sleeping
Reach-lists {s} p {t} r live =
    let (cur, v) = Reach-IsValid r in
    let c = cell_at v.inv p live in
    (
      v.inv.queue p ∙ ap ready_weight live,
      v.inv.sleepers p ∙ ap sleeping_weight live ∙ alone t c.not_both,
      c.not_both,
      c.registered,
      ground (arith, v.inv.split t.id, c.registered, v.inv.few),
    )
  where
    alone :
        (t : Thread)
        → t.state ≢ blocked_and_sleeping
        → sleeping_weight (some t) ≡ of_bool (is_sleeping false t)
    alone t n = ground arith

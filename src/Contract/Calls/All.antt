-- ===== src/Contract/Calls/All.antt =====
-- Every function of uthreads.h, and the end of a quantum, beside its comment.
use os_ex.Prelude.{
  ℕ, zero, suc, ◌<◌, ◌≡◌, ◌≢◌, refl, sym, ap, subst, ◌∙◌, Option, none, some, ℤ, pos, negsuc, true,
  false, lookup, ◌==◌, if◌then◌else◌, [], ◌∷◌, ◌++◌, arith, Bool,
}
use os_ex.Checked.{int_max}
use os_ex.Thread.{Thread, ready, sleeping, in_handler}
use os_ex.Machine.{System, Os, Result, returns}
use os_ex.Uthreads.{
  Seen, Call, spawn, terminate, block, resume, sleep, get_tid, get_total_quantums, get_quantums,
  step_call,
}
use os_ex.Invariant.{IsValid}
use os_ex.Safety.{LosesStack, current_thread, left_in}
use os_ex.Contract.{View, Info, Status, switches, NextQuantum, Moves}
use os_ex.Contract.{Resumes, IsPlain, NotAsleep, TickPromise, InitPromise}
use os_ex.Uthreads.{step_tick, InitResult, initialized, uthread_init, absent}
use os_ex.Safety.{yielded, yielded-Inv, initial, uthread_init_lem}
use os_ex.Quantums.{tick_lem}
use os_ex.Contract.Quantum.{switch-NextQuantum}
use os_ex.Contract.Calls.Spawn.{spawn-Conforms}
use os_ex.Contract.Calls.Terminate.{terminate-Conforms}
use os_ex.Contract.Calls.Block.{block-Conforms}
use os_ex.Contract.Calls.Resume.{resume-Conforms}
use os_ex.Contract.Calls.Sleep.{sleep-Conforms}
use os_ex.Contract.Calls.Getters.{get_quantums-Conforms, get_tid-Conforms, get_total-Conforms}
use os_ex.Contract.Abstraction.{view, info_of, info-live}
use os_ex.Contract.Ids.{ids-snoc}
use os_ex.Contract.Calls.Common.{Conforms, update-Moves, seen_at-Resumes}

awake-NotAsleep :
    (i : Info) (n : ℕ) (o : Option Info) → o ≡ some i → NotAsleep o → i.status ≢ Status.sleeping n
awake-NotAsleep i n o e a h = rw h at (rw e at a)

-- The call does not run on a stack that it has freed, whose contents are lost.
abbrev pub KeepsStack : Os → Call → System → Type 0
KeepsStack os c s = ¬ LosesStack os c s

module _ {cur : ℕ} {s : System} (v : IsValid cur s) (lt : s.total_quantoms < int_max) (os : Os)
    (a : os.allocates ≡ true) where
  -- In a valid state with fewer quantums than the largest int, with memory for a new thread, and
  -- with freed memory that keeps its contents if a thread that is not the main one ends itself or
  -- the main thread, every call of the library but `uthread_sleep` of a negative number and
  -- `uthread_resume` of a sleeper does, in the view of the state by thread ids, what its comment
  -- in uthreads.h promises: it returns the code and leaves the view that the comment allows, or a
  -- scheduling decision starts the next quantum as the comments say, where a call that returns in
  -- the thread that goes on returns 0; the process ends only for `uthread_terminate(0)`, with
  -- code 0.
  pub call-Conforms :
      (c : Call) → KeepsStack os c s → IsPlain c (view s) → Conforms (view s) c (step_call os c s)
  call-Conforms (spawn entry_point) kept h = spawn-Conforms v lt os entry_point a
  call-Conforms (terminate tid) kept h = terminate-Conforms v lt os tid kept
  call-Conforms (block tid) kept h = block-Conforms v lt os tid
  call-Conforms (resume (pos id)) kept h =
      resume-Conforms v lt os (pos id)
        (λ k i n e l. awake-NotAsleep i n ((view s).info id) (ap (view s).info (pos-inj e) ∙ l) h)
    where
      pos-inj : {m n : ℕ} → pos m ≡ pos n → m ≡ n
      pos-inj e = cc
  call-Conforms (resume (negsuc n)) kept h = resume-Conforms v lt os (negsuc n) (λ k i m e. cc)
  call-Conforms (sleep (pos n)) kept h = sleep-Conforms v lt os n
  call-Conforms (sleep (negsuc n)) kept h = absurd h
  call-Conforms (get_quantums tid) kept h = get_quantums-Conforms v lt os tid
  call-Conforms get_tid kept h = get_tid-Conforms v lt os
  call-Conforms get_total_quantums kept h = get_total-Conforms v lt os

-- What a tick comes to by the contract.
abbrev pub TickConforms : View → Result System Seen → Type 0
TickConforms v (returns seen s') = TickPromise v switches (view s') × Resumes seen
TickConforms v _ = ⊥

-- In a valid state with fewer quantums than the largest int, the timer's signal does, in the view
-- of the state by thread ids, what uthreads.h says of the end of a quantum: the thread that ran
-- goes to the end of the ready list, the sleepers count down, those that are due follow it in
-- some order, and the thread at the front runs in a new quantum, where a call that returns in it
-- returns 0.
pub tick-Conforms :
    {cur : ℕ} {s : System} (os : Os)
    → IsValid cur s
    → s.total_quantoms < int_max
    → TickConforms (view s) (step_tick os s)
tick-Conforms {cur} {s} os v lt =
    let (seen, s', runs, k) = tick_lem os v lt in
    let inside : System = record s { masked = true } in
    let (t, live, i) = current_thread k.busy in
    let u : Thread = left_in ready k.thread.quantoms_left_to_sleep in_handler inside k.thread in
    let same : k.thread.id ≡ s.running_thread_id = ground (arith, live, k.live, i) in
    rw runs (
      record {
        between = view (yielded k.busy k.live);
        first = (
          info_of k.thread,
          ap (view s).info (sym same) ∙ info-live k.busy.inv cur k.live,
          subst
              (λ m.
                Moves m (record (info_of k.thread) { status = Status.ready })
                  ((view s).ready ++ m ∷ []) (view s) (view (yielded k.busy k.live)))
              same
              (update-Moves k.busy.inv cur u (s.ready_queue ++ cur ∷ []) s.sleeping_threads k.live
                refl (ids-snoc s.heap s.ready_queue cur k.live)),
        );
        next =
            subst (λ z. NextQuantum (view (yielded k.busy k.live)) (view z)) (sym k.lands)
              (switch-NextQuantum (yielded-Inv k.busy k.live) k.by);
        reply = refl;
      },
      subst Resumes (sym (k.sees seen runs)) (seen_at-Resumes k.context.point),
    )

only_main :
    (os : Os) (n : ℕ) (id : ℕ)
    → (view (initial os n false)).info id
      ≡ (if id == 0 then some (record { status = Status.running; quantums = 1 }) else none)
unfolding lookup
only_main os n id = ground arith

-- What the first `uthread_init` comes to by the contract.
abbrev pub InitConforms : ℤ → InitResult → Type 0
InitConforms quantum_usecs (InitResult.refused n) = InitPromise quantum_usecs n none
InitConforms quantum_usecs (initialized (returns n s)) = InitPromise quantum_usecs n (some (view s))
InitConforms quantum_usecs (initialized _) = ⊥

-- Where there is memory for the main thread's object, the first `uthread_init` does what its
-- comment in uthreads.h promises: it returns -1 for a quantum that is not positive, and else 0
-- with the main thread alone, running in the first quantum.
pub init-Conforms :
    (os : Os) (quantum_usecs : ℤ) (masked : Bool)
    → os.allocates ≡ true
    → InitConforms quantum_usecs (uthread_init os quantum_usecs (absent masked))
unfolding uthread_init
init-Conforms os (negsuc n) masked a = InitPromise.refused (λ k e. cc) refl
init-Conforms os (pos zero) masked a = InitPromise.refused (λ k e. cc) refl
init-Conforms os (pos (suc n)) masked a = rw (uthread_init_lem os n masked a) (
    InitPromise.started (view (initial os (suc n) false)) refl refl refl refl (only_main os (suc n))
      refl refl)

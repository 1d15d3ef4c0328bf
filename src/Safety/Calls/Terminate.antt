-- ===== src/Safety/Calls/Terminate.antt =====
-- `uthread_terminate` of uthreads.cpp, branch by branch.
use os_ex.Prelude.{
  ℕ, zero, suc, ◌<◌, ◌≡◌, ◌≢◌, inl, inr, refl, sym, subst, ◌∙◌, List, true, none, some, ℤ, pos,
  negsuc, lookup-remove, arith, ◌⊎◌, false, ap, Bool-cases,
}
use os_ex.Checked.{int_max, freed_stack}
use os_ex.Thread.{Thread, running, main_thread_id}
use os_ex.Machine.{System, Os, Result, returns, aborts}
use os_ex.Scheduler.{
  success, failure, find, change_blockage_status_sigvtalrm, terminate_thread, terminate_found,
}
use os_ex.Uthreads.{Seen, settle, uthread_terminate, perform, step_call, terminate}
use os_ex.Invariant.{Inv, IsBusy, IsValid, cell_at}
use os_ex.Safety.Terminate.{
  gone, gone-Inv_ready, gone-Inv_sleeping, gone-Inv_blocked, gone-Inv_running,
  terminate_found-ready, terminate_found-sleeping, terminate_found-blocked, terminate_found-running,
  terminate_found-freed,
}
use os_ex.Safety.Leave.{current_thread}
use os_ex.Safety.Ways.{Outcome, masked-IsBusy, returns_safe, jumps_safe, find-cases, to_user}
use os_ex.Safety.Destroy.{exit-Ends}
use os_ex.Safety.Calls.Inside.{is_run, is_rdy, is_blk, is_slp, state_of, nonmain, nonmain_id}

module _ {cur : ℕ} {s0 : System} (valid : IsValid cur s0) (lt : s0.total_quantoms < int_max)
    (os : Os) where
  -- The state inside the call, where the signal is blocked.
  abbrev s : System
  s = record s0 { masked = true }

  abbrev busy : IsBusy cur s
  busy = masked-IsBusy true valid.busy

  abbrev inv : Inv s.total_quantoms cur s
  inv = busy.inv

  -- Another thread than the main one ends itself or the process.
  abbrev pub LosesThread : ℤ → Type 0
  LosesThread tid =
      (os.keeps_freed ≡ false)
      × (s0.running_thread_id ≢ main_thread_id)
      × ((tid ≡ pos s0.running_thread_id) ⊎ (tid ≡ pos main_thread_id))

  -- No fault, or the stack is lost.
  abbrev pub Survives : ℤ → Result System Seen → Type 0
  Survives tid r = Outcome r ⊎ ((r ≡ aborts freed_stack) × LosesThread tid)

  -- Another thread is gone, and the running one runs on.
  pub gone-IsBusy :
      (p : ℕ) {t : Thread} (live : s.heap p ≡ some t) (ready' sleeping' : List ℕ)
      → t.state ≢ running
      → Inv s.total_quantoms cur (gone inv p live ready' sleeping')
      → IsBusy cur (gone inv p live ready' sleeping')
  gone-IsBusy p {t} live ready' sleeping' r inv' = record {
    inv = inv';
    runner = ground (
      arith,
      other,
      busy.runner,
      lookup-remove t.id s.running_thread_id s.active_threads inv.unique,
    );
    on_stack = busy.on_stack;
  }
    where
      other : t.id ≢ s.running_thread_id
      other z = r (
          (cell_at inv p live).current
            (ground (arith, (cell_at inv p live).registered, busy.runner)))

  pub running-on_stack :
      (p : ℕ) {t : Thread} (live : s.heap p ≡ some t)
      → t.state ≡ running
      → (s.stack ≡ p) × (t.id ≡ s0.running_thread_id)
  running-on_stack p live r =
      let c = cell_at inv p live in
      let (u, here, i) = current_thread busy in
      (busy.on_stack ∙ sym (c.runs r), ground (arith, here, live, i, c.runs r))

  pub terminate_freed :
      (p : ℕ) {t : Thread}
      → s.heap p ≡ some t
      → t.state ≡ running
      → os.keeps_freed ≡ false
      → to_user os (terminate_found os t.id p s) ≡ aborts freed_stack
  unfolding settle
  terminate_freed p live r lost =
      rw (terminate_found-freed inv p live os lost r (running-on_stack p live r).0) refl

  terminate_found_safe :
      (p : ℕ) {t : Thread}
      → s.heap p ≡ some t
      → t.id ≢ main_thread_id
      → Survives (pos t.id) (to_user os (terminate_found os t.id p s))
  terminate_found_safe p {t} live n = elim (state_of t (cell_at inv p live).not_both) [
    | is_run r ↦ elim (Bool-cases os.keeps_freed) [
      | inl kept ↦ inl (
          jumps_safe os _ (gone inv p live s.ready_queue s.sleeping_threads)
            (terminate_found-running inv p live os kept r) (gone-Inv_running inv p live n r) lt)
      | inr lost ↦ inr (
        terminate_freed p live r lost,
        (
          lost,
          λ z. n ((running-on_stack p live r).1 ∙ z),
          inl (ap pos (running-on_stack p live r).1),
        ),
      )
    ]
    | is_rdy r ↦ inl (
        returns_safe os _ success _ (terminate_found-ready inv p live os r)
          (gone-IsBusy p live _ _ (λ e. cc) (gone-Inv_ready inv p live n r)))
    | is_blk r ↦ inl (
        returns_safe os _ success _ (terminate_found-blocked inv p live os r)
          (gone-IsBusy p live _ _ (λ e. cc) (gone-Inv_blocked inv p live n r)))
    | is_slp r ↦ inl (
        returns_safe os _ success _ (terminate_found-sleeping inv p live os r)
          (gone-IsBusy p live _ _ (λ e. cc) (gone-Inv_sleeping inv p live n r)))
  ]

  pub terminate_enters :
      (tid : ℤ)
      → tid ≢ pos main_thread_id
      → step_call os (terminate tid) s0 ≡ to_user os (terminate_thread os tid s)
  unfolding step_call perform uthread_terminate change_blockage_status_sigvtalrm
  terminate_enters tid n = rw (nonmain tid n)

  pub terminate_thread_missing :
      (tid : ℤ) → find tid s ≡ none → terminate_thread os tid s ≡ returns failure s
  unfolding terminate_thread
  terminate_thread_missing tid e = rw (e, terminate_thread)

  pub terminate_thread_found :
      (tid : ℤ) {id p : ℕ}
      → find tid s ≡ some (id, p)
      → terminate_thread os tid s ≡ terminate_found os id p s
  unfolding terminate_thread
  terminate_thread_found tid e = rw (e, terminate_thread)

  terminate_nonmain_safe :
      (tid : ℤ) → tid ≢ pos main_thread_id → Survives tid (to_user os (terminate_thread os tid s))
  terminate_nonmain_safe tid n = elim (find-cases tid s) [
    | inl e ↦ inl (returns_safe os _ failure s (terminate_thread_missing tid e) busy)
    | inr (id, p, i, e, l) ↦
        let (t, live, j) = inv.entries id p l in
        rw (terminate_thread_found tid e, i)
          (subst (λ k. Survives (pos k) (to_user os (terminate_found os k p s))) j
            (terminate_found_safe p live (λ z. nonmain_id n i (sym j ∙ z))))
  ]

  -- Terminating the main thread ends the process.
  terminate_main_safe :
      Survives (pos main_thread_id) (step_call os (terminate (pos main_thread_id)) s0)
  unfolding step_call perform uthread_terminate change_blockage_status_sigvtalrm settle
  terminate_main_safe = elim (exit-Ends os ℤ 0 s.largest_thread_id s.unused_threads_id inv) [
    | inl (s', runs, empty) ↦ inl (rw runs (inl refl, empty))
    | inr (runs, lost, n) ↦ inr (rw runs refl, (lost, n, inr refl))
  ]

  pub terminate_safe : (tid : ℤ) → Survives tid (step_call os (terminate tid) s0)
  terminate_safe (pos zero) = terminate_main_safe
  terminate_safe (pos (suc n)) =
      rw (terminate_enters (pos (suc n)) (λ z. cc)) (terminate_nonmain_safe (pos (suc n)) (λ z. cc))
  terminate_safe (negsuc n) =
      rw (terminate_enters (negsuc n) (λ z. cc)) (terminate_nonmain_safe (negsuc n) (λ z. cc))

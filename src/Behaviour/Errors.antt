-- ===== src/Behaviour/Errors.antt =====
-- The calls of uthreads.cpp that fail.
use os_ex.Prelude.{
  ◌⊎◌, inl, inr, ℕ, zero, suc, ◌≤◌, ◌<◌, ◌≡◌, ◌≢◌, sym, ap, ◌∙◌, true, false, none, ℤ, pos, length,
  ◌==◌, arith,
}
use os_ex.Checked.{int_max}
use os_ex.Thread.{main_thread_id}
use os_ex.Machine.{System, Os, Result, returns}
use os_ex.Scheduler.{
  failure, max_thread_num, find, change_blockage_status_sigvtalrm, get_current_running_thread_id,
}
use os_ex.Uthreads.{
  returned, settle, perform, step_call, uthread_spawn, uthread_block, uthread_sleep, spawn,
  terminate, block, resume, sleep, get_quantums,
}
use os_ex.Invariant.{IsValid}
use os_ex.Safety.{
  find_masked, to_user, finish_lem, spawn_full, spawn_enters, terminate_enters, block_enters,
  resume_enters, quantums_enter, terminate_thread_missing, block_thread_missing,
  resume_thread_missing, quantums_missing,
}

-- The mask is as it was before the call.
pub mask_restored : (s : System) → s.masked ≡ false → record s { masked = false } ≡ s
mask_restored s e = ap (λ m. record s { masked = m }) (sym e)

-- A call that returns from the scheduler in the state `s'` goes back to user code.
pub to_user_returns :
    (os : Os) (m : Result System ℤ) (code : ℤ) (s : System)
    → m ≡ returns code s
    → to_user os m ≡ returns (returned code) (record s { masked = false })
unfolding settle
to_user_returns os m code s e = rw e (rw (finish_lem code s))

module _ {cur : ℕ} {s : System} (v : IsValid cur s) (lt : s.total_quantoms < int_max)
    (os : Os) where
  abbrev inside : System
  inside = record s { masked = true }

  failed :
      (m : Result System ℤ)
      → m ≡ returns failure inside
      → to_user os m ≡ returns (returned failure) s
  failed m e =
      to_user_returns os m failure inside e
      ∙ ap (returns (returned failure)) (mask_restored s v.let_in)

  -- In a valid state with fewer quantums than the largest int, to terminate, to block, to resume
  -- and to count the quantums of an id that is not 0 and that no thread has returns -1 and
  -- changes nothing.
  pub missing_thread :
      (tid : ℤ)
      → tid ≢ pos main_thread_id
      → find tid s ≡ none
      → (step_call os (terminate tid) s ≡ returns (returned failure) s)
        × (step_call os (block tid) s ≡ returns (returned failure) s)
        × (step_call os (resume tid) s ≡ returns (returned failure) s)
        × (step_call os (get_quantums tid) s ≡ returns (returned failure) s)
  missing_thread tid n e = (
    terminate_enters v lt os tid n ∙ failed _ (terminate_thread_missing v lt os tid (same tid e)),
    block_enters v lt os tid n ∙ failed _ (block_thread_missing v lt os tid n (same tid e)),
    resume_enters v lt os tid ∙ failed _ (resume_thread_missing v lt os tid (same tid e)),
    quantums_enter v lt os tid ∙ failed _ (quantums_missing v lt os tid (same tid e)),
  )
    where
      same : (tid : ℤ) → find tid s ≡ none → find tid inside ≡ none
      same tid e = find_masked tid s true ∙ e

  refused : returns (returned failure) (record s { masked = false }) ≡ returns (returned failure) s
  refused = ap (returns (returned failure)) (mask_restored s v.let_in)

  -- In a valid state with fewer quantums than the largest int, where the entry point is null or
  -- there are as many threads as the limit, `uthread_spawn` returns -1 and changes nothing.
  pub spawn_refused :
      (entry_point : ℕ)
      → (entry_point ≡ 0) ⊎ (max_thread_num ≤ length s.active_threads)
      → step_call os (spawn entry_point) s ≡ returns (returned failure) s
  unfolding step_call perform uthread_spawn change_blockage_status_sigvtalrm settle
  spawn_refused zero h = refused
  spawn_refused (suc e) (inl h) = cc
  spawn_refused (suc e) (inr h) =
      spawn_enters v lt os (suc e) (λ z. cc) ∙ failed _ (spawn_full os (suc e) inside h)

  -- In a valid state with fewer quantums than the largest int, to block the main thread returns
  -- -1 and changes nothing, whichever thread calls.
  pub block_main_refused :
      step_call os (block (pos main_thread_id)) s ≡ returns (returned failure) s
  unfolding step_call perform uthread_block change_blockage_status_sigvtalrm settle
  block_main_refused = refused

  -- In a valid state with fewer quantums than the largest int where the main thread runs,
  -- `uthread_sleep` of any count returns -1 and changes nothing.
  pub sleep_main_refused :
      (n : ℤ)
      → s.running_thread_id ≡ main_thread_id
      → step_call os (sleep n) s ≡ returns (returned failure) s
  unfolding step_call perform uthread_sleep change_blockage_status_sigvtalrm settle
      get_current_running_thread_id
  sleep_main_refused n e = rw (is_main s.running_thread_id e) refused
    where
      is_main : (m : ℕ) → m ≡ 0 → (m == 0) ≡ true
      is_main m e = ground arith

-- ===== src/Safety/Calls/All.antt =====
-- Every function of uthreads.cpp together.
use os_ex.Prelude.{ℕ, ◌<◌, ◌≡◌, ◌≢◌, ◌⊎◌, inl, ap, pos, false}
use os_ex.Checked.{int_max, freed_stack}
use os_ex.Thread.{main_thread_id, not_sleeping}
use os_ex.Machine.{System, Os, aborts}
use os_ex.Uthreads.{
  step_call, spawn, terminate, block, resume, sleep, Call, get_quantums, get_tid,
  get_total_quantums,
}
use os_ex.Invariant.{IsValid}
use os_ex.Safety.Ways.{Outcome}
use os_ex.Safety.Calls.Spawn.{spawn_safe}
use os_ex.Safety.Calls.Terminate.{terminate_safe}
use os_ex.Safety.Calls.Block.{block_safe}
use os_ex.Safety.Calls.Resume.{resume_safe}
use os_ex.Safety.Calls.Sleep.{sleep_safe}
use os_ex.Safety.Calls.Getters.{get_quantums_safe, get_tid_safe, get_total_safe}

-- Where freed memory does not keep its contents, a call by another thread than the main one loses the
-- stack on which it runs: it ends its own thread, or it ends the process, by `uthread_terminate(0)` or
-- for lack of memory.
abbrev pub LosesStack : Os → Call → System → Type 0
LosesStack os (terminate tid) s =
    (os.keeps_freed ≡ false)
    × (s.running_thread_id ≢ main_thread_id)
    × ((tid ≡ pos s.running_thread_id) ⊎ (tid ≡ pos main_thread_id))
LosesStack os (spawn entry_point) s =
    (os.keeps_freed ≡ false) × (s.running_thread_id ≢ main_thread_id) × (os.allocates ≡ false)
LosesStack os c s = ⊥

module _ {cur : ℕ} {s0 : System} (valid : IsValid cur s0) (lt : s0.total_quantoms < int_max)
    (os : Os) where
  -- In a valid state with fewer quantums than the largest int, take any call of the library but
  -- `uthread_sleep(-1)`, and any answers of the operating system. User code goes on in a valid
  -- state; or the process exits with code 0 or 1 and every thread object deleted; or, where freed
  -- memory does not keep its contents and the main thread is not the one that calls, the process
  -- faults because it runs on the stack that it has freed, in `uthread_terminate` of the calling
  -- thread or of the main one, or in `uthread_spawn` with no memory.
  pub call_safe :
      (c : Call)
      → c ≢ sleep not_sleeping
      → Outcome (step_call os c s0)
        ⊎ ((step_call os c s0 ≡ aborts freed_stack) × LosesStack os c s0)
  call_safe (spawn entry_point) h = spawn_safe valid lt os entry_point
  call_safe (terminate tid) h = terminate_safe valid lt os tid
  call_safe (block tid) h = inl (block_safe valid lt os tid)
  call_safe (resume tid) h = inl (resume_safe valid lt os tid)
  call_safe (sleep n) h = inl (sleep_safe valid lt os n (λ e. h (ap Call.sleep e)))
  call_safe (get_quantums tid) h = inl (get_quantums_safe valid lt os tid)
  call_safe get_tid h = inl (get_tid_safe valid lt os)
  call_safe get_total_quantums h = inl (get_total_safe valid lt os)

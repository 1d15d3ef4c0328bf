-- ===== src/Safety/Calls/Sleep.antt =====
-- `uthread_sleep` of uthreads.cpp, branch by branch.
use os_ex.Prelude.{ℕ, ◌<◌, ◌≡◌, ◌≢◌, sym, ◌∙◌, true, ℤ, ◌==◌, arith, ℕ_discrete}
use os_ex.Checked.{int_max}
use os_ex.Thread.{not_sleeping, main_thread_id}
use os_ex.Machine.{System, Os}
use os_ex.Scheduler.{change_blockage_status_sigvtalrm, sleep_thread, get_current_running_thread_id}
use os_ex.Uthreads.{settle, uthread_sleep, perform, step_call, sleep}
use os_ex.Invariant.{Inv, IsBusy, IsValid}
use os_ex.Safety.Leave.{current_thread, laid_down, laid_down-Inv, sleep_thread-laid_down}
use os_ex.Safety.Ways.{Outcome, masked-IsBusy, jumps_safe, to_user}
use os_ex.Safety.Calls.Inside.{nonzero, refused_IsValid}

module _ {cur : ℕ} {s0 : System} (valid : IsValid cur s0) (lt : s0.total_quantoms < int_max)
    (os : Os) where
  -- The state inside the call, where the signal is blocked.
  abbrev s : System
  s = record s0 { masked = true }

  abbrev busy : IsBusy cur s
  busy = masked-IsBusy true valid.busy

  abbrev inv : Inv s.total_quantoms cur s
  inv = busy.inv

  pub sleep_enters :
      (n : ℤ)
      → s.running_thread_id ≢ main_thread_id
      → step_call os (sleep n) s0 ≡ to_user os (sleep_thread os n s)
  unfolding step_call perform uthread_sleep change_blockage_status_sigvtalrm
      get_current_running_thread_id
  sleep_enters n h = rw (nonzero s.running_thread_id h)

  sleep_main_safe :
      (n : ℤ) → s.running_thread_id ≡ main_thread_id → Outcome (step_call os (sleep n) s0)
  unfolding step_call perform uthread_sleep change_blockage_status_sigvtalrm
      get_current_running_thread_id settle
  sleep_main_safe n h = rw (zero_eq s.running_thread_id h) (cur, refused_IsValid valid)
    where
      zero_eq : (m : ℕ) → m ≡ 0 → (m == 0) ≡ true
      zero_eq m e = ground arith

  pub sleep_safe : (n : ℤ) → n ≢ not_sleeping → Outcome (step_call os (sleep n) s0)
  sleep_safe n k = elim (ℕ_discrete s.running_thread_id main_thread_id) [
    | yes h ↦ sleep_main_safe n h
    | no h ↦
        let (t, live, i) = current_thread busy in
        rw (sleep_enters n h) (
          jumps_safe os _ (laid_down busy live n) (sleep_thread-laid_down busy live os n h)
            (laid_down-Inv busy live n k (λ z. h (sym i ∙ z))) lt)
  ]

-- ===== src/Behaviour/Sleep.antt =====
-- `uthread_sleep` of uthreads.cpp, called by a thread other than the main one.
use os_ex.Prelude.{ℕ, suc, ◌<◌, ◌≡◌, ◌≢◌, refl, sym, ◌∙◌, true, some, pos, arith}
use os_ex.Checked.{int_max, fail, assertion}
use os_ex.Thread.{
  Thread, sleeping, not_sleeping, main_thread_id, update_sleep_value, is_sleeping, in_sleep,
}
use os_ex.Machine.{System, Os, returns, aborts}
use os_ex.Machine.Laws.{call_fails}
use os_ex.Scheduler.{
  run_topmost_thread_in_ready_queue, update_sleeping_threads, update_each, update_sleeping,
}
use os_ex.Uthreads.{Seen, settle, step_call, sleep}
use os_ex.Invariant.{IsBusy, IsValid, update_self}
use os_ex.Dispatch.{counted, count_quantom_lem, run_topmost_lem}
use os_ex.Safety.{
  current_thread, laid_down, laid_down-Inv, left_in, sleep_thread-laid_down, masked-IsBusy,
  sleep_enters, go_to_lem, arrived,
}
use os_ex.Quantums.{Sleeps}
use os_ex.Behaviour.Switches.{switch_sleeper, switch_total}

module _ {cur : ℕ} {s : System} (v : IsValid cur s) (lt : s.total_quantoms < int_max) (os : Os)
    (n≢main : s.running_thread_id ≢ main_thread_id) where
  abbrev busy : IsBusy cur (record s { masked = true })
  busy = masked-IsBusy true v.busy

  -- In a valid state with fewer quantums than the largest int where the main thread does not run,
  -- `uthread_sleep(n + 1)` leaves the caller asleep with count n, the total of quantums is one
  -- more, and the state is valid.
  sleep_switches :
      (n : ℕ)
      → (seen : Seen) × (s' : System) × (cur' : ℕ) × (step_call os (sleep (pos (suc n))) s
          ≡ returns seen s')
        × IsValid cur' s'
        × Sleeps cur n s'
        × (s'.total_quantoms ≡ suc s.total_quantoms)
  unfolding settle
  sleep_switches n =
      let (t, live, i) = current_thread busy in
      let inv = laid_down-Inv busy live (pos (suc n)) (λ e. cc) (λ z. n≢main (sym i ∙ z)) in
      let (c, j, runs, w) = run_topmost_lem os inv lt in
      let (seen, lands, valid) = go_to_lem w in
      (
        seen,
        arrived w,
        w.front,
        sleep_enters v lt os (pos (suc n)) n≢main
            ∙ rw (sleep_thread-laid_down busy live os (pos (suc n)) n≢main) (rw runs (rw lands)),
        valid,
        switch_sleeper inv w cur n
            (left_in sleeping (pos (suc n)) in_sleep (record s { masked = true }) t)
            (update_self s.heap cur
              (some (left_in sleeping (pos (suc n)) in_sleep (record s { masked = true }) t)))
            refl refl,
        switch_total inv w,
      )

  update_sleep_value_fails :
      (t : Thread) → t.quantoms_left_to_sleep ≡ not_sleeping → update_sleep_value t ≡ fail assertion
  unfolding update_sleep_value is_sleeping
  update_sleep_value_fails t e = ground arith

  -- In a valid state with fewer quantums than the largest int where the main thread does not run,
  -- `uthread_sleep(-1)` stops the process by a failed assertion.
  pub sleep_minus_one : step_call os (sleep not_sleeping) s ≡ aborts assertion
  unfolding settle run_topmost_thread_in_ready_queue update_sleeping_threads update_each
      update_sleeping
  sleep_minus_one =
      let (t, live, i) = current_thread busy in
      let u : Thread = left_in sleeping not_sleeping in_sleep (record s { masked = true }) t in
      sleep_enters v lt os not_sleeping n≢main
      ∙ rw (sleep_thread-laid_down busy live os not_sleeping n≢main) (
          rw (count_quantom_lem (laid_down busy live not_sleeping) lt) (
            rw (
              call_fails cur update_sleep_value (counted (laid_down busy live not_sleeping))
                (update_self s.heap cur (some u)) (update_sleep_value_fails u refl))))

-- ===== src/Safety/Calls/Resume.antt =====
-- `uthread_resume` of uthreads.cpp, branch by branch.
use os_ex.Prelude.{ℕ, ◌<◌, ◌≡◌, ◌≢◌, inl, inr, refl, true, none, some, ℤ}
use os_ex.Checked.{int_max}
use os_ex.Thread.{Thread, blocked, blocked_and_sleeping}
use os_ex.Thread.States.{is_blocked-false}
use os_ex.Machine.{System, Os, returns}
use os_ex.Machine.Laws.{deref_lem}
use os_ex.Scheduler.{
  success, failure, find, change_blockage_status_sigvtalrm, resume_thread, resume_found,
}
use os_ex.Uthreads.{uthread_resume, perform, step_call, resume}
use os_ex.Invariant.{Inv, IsBusy, IsValid, cell_at}
use os_ex.Safety.Queue.{resumed, resumed-Inv, resume_found-resumed}
use os_ex.Safety.Ways.{Outcome, masked-IsBusy, returns_safe, find-cases, to_user}
use os_ex.Safety.Calls.Inside.{is_run, is_rdy, is_blk, is_slp, state_of}

module _ {cur : ℕ} {s0 : System} (valid : IsValid cur s0) (lt : s0.total_quantoms < int_max)
    (os : Os) where
  -- The state inside the call, where the signal is blocked.
  abbrev s : System
  s = record s0 { masked = true }

  abbrev busy : IsBusy cur s
  busy = masked-IsBusy true valid.busy

  abbrev inv : Inv s.total_quantoms cur s
  inv = busy.inv

  pub resumed-IsBusy :
      (p : ℕ) {t : Thread} (live : s.heap p ≡ some t)
      → t.state ≡ blocked
      → IsBusy cur (resumed inv p live)
  resumed-IsBusy p live r = record {
    inv = resumed-Inv inv p live r;
    runner = busy.runner;
    on_stack = busy.on_stack;
  }

  pub resume_found_idle :
      (p : ℕ) {t : Thread}
      → s.heap p ≡ some t
      → t.state ≢ blocked
      → t.state ≢ blocked_and_sleeping
      → resume_found p s ≡ returns success s
  unfolding resume_found
  resume_found_idle p {t} live r n = rw (deref_lem p s live) (rw (is_blocked-false t r n))

  resume_found_safe :
      (p : ℕ) {t : Thread} → s.heap p ≡ some t → Outcome (to_user os (resume_found p s))
  resume_found_safe p {t} live = elim (state_of t (cell_at inv p live).not_both) [
    | is_run r ↦ returns_safe os _ success s (resume_found_idle p live (λ e. cc) (λ e. cc)) busy
    | is_rdy r ↦ returns_safe os _ success s (resume_found_idle p live (λ e. cc) (λ e. cc)) busy
    | is_slp r ↦ returns_safe os _ success s (resume_found_idle p live (λ e. cc) (λ e. cc)) busy
    | is_blk r ↦
        returns_safe os _ success (resumed inv p live) (resume_found-resumed inv p live r)
          (resumed-IsBusy p live r)
  ]

  pub resume_enters : (tid : ℤ) → step_call os (resume tid) s0 ≡ to_user os (resume_thread tid s)
  unfolding step_call perform uthread_resume change_blockage_status_sigvtalrm
  resume_enters tid = refl

  pub resume_thread_missing :
      (tid : ℤ) → find tid s ≡ none → resume_thread tid s ≡ returns failure s
  unfolding resume_thread
  resume_thread_missing tid e = rw (e, resume_thread)

  pub resume_thread_found :
      (tid : ℤ) {id p : ℕ} → find tid s ≡ some (id, p) → resume_thread tid s ≡ resume_found p s
  unfolding resume_thread
  resume_thread_found tid e = rw (e, resume_thread)

  pub resume_safe : (tid : ℤ) → Outcome (step_call os (resume tid) s0)
  resume_safe tid = rw (resume_enters tid) (elim (find-cases tid s) [
    | inl e ↦ returns_safe os _ failure s (resume_thread_missing tid e) busy
    | inr (id, p, i, e, l) ↦
        let (t, live, j) = inv.entries id p l in
        rw (resume_thread_found tid e) (resume_found_safe p live)
  ])

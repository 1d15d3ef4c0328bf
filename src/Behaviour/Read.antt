-- ===== src/Behaviour/Read.antt =====
-- The calls of uthreads.cpp that only read: `uthread_get_tid`, `uthread_get_total_quantums` and
-- `uthread_get_quantums`.
use os_ex.Prelude.{ℕ, true, false, ◌<◌, ◌≡◌, ap, sym, ◌∙◌, some, pos, lookup}
use os_ex.Checked.{int_max}
use os_ex.Thread.{Thread}
use os_ex.Machine.{System, Os, returns}
use os_ex.Scheduler.{
  change_blockage_status_sigvtalrm, get_current_running_thread_id, get_total_quantoms,
}
use os_ex.Uthreads.{
  returned, settle, perform, step_call, uthread_get_tid, uthread_get_total_quantums, get_tid,
  get_total_quantums, get_quantums,
}
use os_ex.Invariant.{IsValid}
use os_ex.Safety.{current_thread, quantums_enter, quantums_found}
use os_ex.Behaviour.Errors.{to_user_returns, mask_restored}
use os_ex.Behaviour.Others.{find_lem}

-- In a valid state with fewer quantums than the largest int, `uthread_get_tid` returns the id of
-- the running thread, `uthread_get_total_quantums` the total of quantums, and
-- `uthread_get_quantums` the quantums of the thread under an id in the table; none of them
-- changes anything.
pub getters_read :
    {cur : ℕ} {s : System} (os : Os) (id p : ℕ) {u : Thread}
    → IsValid cur s
    → s.total_quantoms < int_max
    → lookup id s.active_threads ≡ some p
    → s.heap p ≡ some u
    → (t : Thread) × (s.heap cur ≡ some t)
      × (step_call os get_tid s ≡ returns (returned (pos t.id)) s)
      × (step_call os get_total_quantums s ≡ returns (returned (pos s.total_quantoms)) s)
      × (step_call os (get_quantums (pos id)) s ≡ returns (returned (pos u.running_quantoms_num)) s)
unfolding step_call perform uthread_get_tid uthread_get_total_quantums
    change_blockage_status_sigvtalrm settle get_current_running_thread_id get_total_quantoms
getters_read {cur} {s} os id p {u} v lt e l =
    let inside : System = record s { masked = true } in
    let (t, live, i) = current_thread v.busy in
    (
      t,
      live,
      ap (λ m. returns (returned m) (record s { masked = false })) (ap pos (sym i))
          ∙ ap (returns (returned (pos t.id))) (mask_restored s v.let_in),
      ap (returns (returned (pos s.total_quantoms))) (mask_restored s v.let_in),
      quantums_enter v lt os (pos id)
          ∙ to_user_returns os _ (pos u.running_quantoms_num) inside
              (quantums_found v lt os (pos id) (find_lem id p inside e) l)
          ∙ ap (returns (returned (pos u.running_quantoms_num))) (mask_restored s v.let_in),
    )

-- ===== src/Contract/Calls/Getters.antt =====
-- The functions of uthreads.cpp that only read beside their comments in uthreads.h.
use os_ex.Prelude.{ℕ, ◌<◌, inl, inr, refl, sym, ap, ◌∙◌, ℤ, pos, true}
use os_ex.Checked.{int_max}
use os_ex.Machine.{System, Os}
use os_ex.Scheduler.{
  failure, change_blockage_status_sigvtalrm, get_current_running_thread_id, get_total_quantoms,
}
use os_ex.Uthreads.{
  settle, get_tid, get_total_quantums, get_quantums, step_call, perform, uthread_get_tid,
  uthread_get_total_quantums,
}
use os_ex.Invariant.{Inv, IsBusy, IsValid}
use os_ex.Safety.{masked-IsBusy, find-cases, quantums_enter, quantums_missing, quantums_found}
use os_ex.Contract.{code, QuantumsPromise}
use os_ex.Contract.Abstraction.{view, info_of, info-live}
use os_ex.Contract.Calls.Common.{Conforms, returns-Conforms, find-IsMissing}

module _ {cur : ℕ} {s0 : System} (valid : IsValid cur s0) (lt : s0.total_quantoms < int_max)
    (os : Os) where
  -- The state inside the call, where the signal is blocked.
  abbrev s : System
  s = record s0 { masked = true }

  abbrev busy : IsBusy cur s
  busy = masked-IsBusy true valid.busy

  abbrev inv : Inv s.total_quantoms cur s
  inv = busy.inv

  pub get_quantums-Conforms :
      (tid : ℤ) → Conforms (view s0) (get_quantums tid) (step_call os (get_quantums tid) s0)
  get_quantums-Conforms tid = rw (quantums_enter valid lt os tid) (elim (find-cases tid s) [
    | inl e ↦
        returns-Conforms os (view s) (get_quantums tid) _ failure s
          (quantums_missing valid lt os tid e)
          (QuantumsPromise.refused (find-IsMissing tid s e) (record { reply = refl; same = refl }))
    | inr (id, p, i, e, l) ↦
        let (t, live, j) = inv.entries id p l in
        returns-Conforms os (view s) (get_quantums tid) _ (pos t.running_quantoms_num) s
          (quantums_found valid lt os tid e live)
          (QuantumsPromise.counted t.id (info_of t) (i ∙ ap pos (sym j)) (info-live inv p live)
            (record { reply = refl; same = refl }))
  ])

  pub get_tid-Conforms : Conforms (view s0) get_tid (step_call os get_tid s0)
  unfolding step_call perform uthread_get_tid change_blockage_status_sigvtalrm settle
      get_current_running_thread_id
  get_tid-Conforms = (code (pos s0.running_thread_id), record { reply = refl; same = refl }, refl)

  pub get_total-Conforms :
      Conforms (view s0) get_total_quantums (step_call os get_total_quantums s0)
  unfolding step_call perform uthread_get_total_quantums change_blockage_status_sigvtalrm settle
      get_total_quantoms
  get_total-Conforms = (code (pos s0.total_quantoms), record { reply = refl; same = refl }, refl)

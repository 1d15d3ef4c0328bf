-- ===== src/Safety/Calls/Getters.antt =====
-- The functions of uthreads.cpp that only read.
use os_ex.Prelude.{ℕ, ◌<◌, ◌≡◌, inl, inr, refl, true, none, some, ℤ, pos}
use os_ex.Checked.{int_max}
use os_ex.Thread.{Thread, get_age}
use os_ex.Machine.{System, Os, returns}
use os_ex.Machine.Laws.{deref_lem}
use os_ex.Scheduler.{failure, find, change_blockage_status_sigvtalrm, get_quantoms_running_num}
use os_ex.Uthreads.{
  settle, uthread_get_tid, uthread_get_total_quantums, uthread_get_quantums, perform, step_call,
  get_quantums, get_tid, get_total_quantums,
}
use os_ex.Invariant.{Inv, IsBusy, IsValid}
use os_ex.Safety.Ways.{Outcome, masked-IsBusy, returns_safe, find-cases, to_user}
use os_ex.Safety.Calls.Inside.{refused_IsValid}

module _ {cur : ℕ} {s0 : System} (valid : IsValid cur s0) (lt : s0.total_quantoms < int_max)
    (os : Os) where
  -- The state inside the call, where the signal is blocked.
  abbrev s : System
  s = record s0 { masked = true }

  abbrev busy : IsBusy cur s
  busy = masked-IsBusy true valid.busy

  abbrev inv : Inv s.total_quantoms cur s
  inv = busy.inv

  pub quantums_enter :
      (tid : ℤ) → step_call os (get_quantums tid) s0 ≡ to_user os (get_quantoms_running_num tid s)
  unfolding step_call perform uthread_get_quantums change_blockage_status_sigvtalrm
  quantums_enter tid = refl

  pub quantums_missing :
      (tid : ℤ) → find tid s ≡ none → get_quantoms_running_num tid s ≡ returns failure s
  unfolding get_quantoms_running_num
  quantums_missing tid e = rw (e, get_quantoms_running_num)

  pub quantums_found :
      (tid : ℤ) {id p : ℕ} {t : Thread}
      → find tid s ≡ some (id, p)
      → s.heap p ≡ some t
      → get_quantoms_running_num tid s ≡ returns (pos t.running_quantoms_num) s
  unfolding get_quantoms_running_num get_age
  quantums_found tid {p = p} e live = rw (e, get_quantoms_running_num) (rw (deref_lem p s live))

  pub get_quantums_safe : (tid : ℤ) → Outcome (step_call os (get_quantums tid) s0)
  get_quantums_safe tid = rw (quantums_enter tid) (elim (find-cases tid s) [
    | inl e ↦ returns_safe os _ failure s (quantums_missing tid e) busy
    | inr (id, p, i, e, l) ↦
        let (t, live, j) = inv.entries id p l in
        returns_safe os _ (pos t.running_quantoms_num) s (quantums_found tid e live) busy
  ])

  pub get_tid_safe : Outcome (step_call os get_tid s0)
  unfolding step_call perform uthread_get_tid change_blockage_status_sigvtalrm settle
  get_tid_safe = (cur, refused_IsValid valid)

  pub get_total_safe : Outcome (step_call os get_total_quantums s0)
  unfolding step_call perform uthread_get_total_quantums change_blockage_status_sigvtalrm settle
  get_total_safe = (cur, refused_IsValid valid)

-- ===== src/Contract/Calls/Sleep.antt =====
-- `uthread_sleep` of uthreads.cpp beside its comment in uthreads.h.
use os_ex.Prelude.{ℕ, ◌<◌, refl, sym, ap, subst, ◌∙◌, pos, true, ◌∷◌, erase, ℕ_discrete}
use os_ex.Checked.{int_max}
use os_ex.Thread.{sleeping, main_thread_id, in_sleep}
use os_ex.Machine.{System, Os}
use os_ex.Scheduler.{failure}
use os_ex.Uthreads.{sleep, step_call}
use os_ex.Invariant.{Inv, IsBusy, IsValid}
use os_ex.Safety.{
  masked-IsBusy, current_thread, sleep_enters, sleep_thread-laid_down, laid_down, laid_down-Inv,
  left_in,
}
use os_ex.Behaviour.{sleep_main_refused}
use os_ex.Contract.{Status, code, Moves, SleepPromise}
use os_ex.Contract.Abstraction.{view, info_of, info-live}
use os_ex.Contract.Calls.Common.{Conforms, switches-Conforms, update-Moves}

module _ {cur : ℕ} {s0 : System} (valid : IsValid cur s0) (lt : s0.total_quantoms < int_max)
    (os : Os) where
  -- The state inside the call, where the signal is blocked.
  abbrev s : System
  s = record s0 { masked = true }

  abbrev busy : IsBusy cur s
  busy = masked-IsBusy true valid.busy

  abbrev inv : Inv s.total_quantoms cur s
  inv = busy.inv

  pub sleep-Conforms :
      (n : ℕ) → Conforms (view s0) (sleep (pos n)) (step_call os (sleep (pos n)) s0)
  sleep-Conforms n = elim (ℕ_discrete s0.running_thread_id main_thread_id) [
    | yes h ↦
        rw (sleep_main_refused valid lt os (pos n) h)
          (code failure, SleepPromise.refused h (record { reply = refl; same = refl }), refl)
    | no h ↦
        let (t, live, i) = current_thread busy in
        rw (sleep_enters valid lt os (pos n) h) (
          switches-Conforms os (view s) (sleep (pos n)) _
            (Moves s.running_thread_id (record (info_of t) { status = Status.sleeping n })
              (view s).ready (view s))
            (laid_down busy live (pos n)) (sleep_thread-laid_down busy live os (pos n) h)
            (laid_down-Inv busy live (pos n) (λ e. cc) (λ z. h (sym i ∙ z))) lt
            (subst
              (λ k.
                Moves k (record (info_of t) { status = Status.sleeping n }) (view s).ready (view s)
                  (view (laid_down busy live (pos n))))
              i
              (update-Moves inv cur (left_in sleeping (pos n) in_sleep s t) s.ready_queue
                (cur ∷ erase cur s.sleeping_threads) live refl refl))
            (λ v' w.
              SleepPromise.slept n (info_of t) refl h
                (ap (view s).info (sym i) ∙ info-live inv cur live) w))
  ]

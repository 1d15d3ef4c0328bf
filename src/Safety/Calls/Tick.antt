-- ===== src/Safety/Calls/Tick.antt =====
-- The timer's signal (`static_external_time_handler` of scheduler.cpp).
use os_ex.Prelude.{ℕ, ◌<◌, true}
use os_ex.Checked.{int_max}
use os_ex.Machine.{System, Os}
use os_ex.Uthreads.{static_external_time_handler, step_tick}
use os_ex.Invariant.{Inv, IsBusy, IsValid}
use os_ex.Safety.Leave.{current_thread, yielded, yielded-Inv, internal_time_handler-yielded}
use os_ex.Safety.Ways.{Outcome, masked-IsBusy, tick_jumps_safe}

module _ {cur : ℕ} {s0 : System} (valid : IsValid cur s0) (lt : s0.total_quantoms < int_max)
    (os : Os) where
  -- The state inside the call, where the signal is blocked.
  abbrev s : System
  s = record s0 { masked = true }

  abbrev busy : IsBusy cur s
  busy = masked-IsBusy true valid.busy

  abbrev inv : Inv s.total_quantoms cur s
  inv = busy.inv

  -- In a valid state with fewer quantums than the largest int, the timer's signal meets no fault,
  -- whatever the operating system answers, and user code goes on in a valid state.
  pub tick_safe : Outcome (step_tick os s0)
  unfolding step_tick static_external_time_handler
  tick_safe =
      let (t, live, i) = current_thread busy in
      tick_jumps_safe os _ (yielded busy live) (internal_time_handler-yielded busy live os)
        (yielded-Inv busy live) lt

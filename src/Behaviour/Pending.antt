-- ===== src/Behaviour/Pending.antt =====
-- The end of `run_topmost_thread_in_ready_queue` of scheduler.cpp, where SIGVTALRM is let in before
-- `do_jump`: what the handler does if the signal is pending there.
use os_ex.Prelude.{ℕ, ◌<◌, ◌≡◌, refl, ap, ◌∙◌, some, lookup, true, false}
use os_ex.Checked.{int_max}
use os_ex.Thread.{Thread, Context, ready, in_handler}
use os_ex.Machine.{System, Os, returns, jumps, bind}
use os_ex.Scheduler.{run_topmost_thread_in_ready_queue}
use os_ex.Uthreads.{static_external_time_handler}
use os_ex.Invariant.{Inv, cell_at, update_self}
use os_ex.Dispatch.{Switch, started, run_topmost_lem}
use os_ex.Safety.{internal_time_handler_lem, left_in}

module _ {os : Os} {s : System} {c : Context} {j : System} (w : Switch os s c j) where
  next_live : j.heap w.front ≡ some (started w.thread)
  next_live =
      ap (λ r. r.heap w.front) w.final ∙ update_self w.mid.heap w.front (some (started w.thread))

  next_registered : lookup j.running_thread_id j.active_threads ≡ some w.front
  next_registered =
      ap (λ r. lookup r.running_thread_id j.active_threads) w.final
      ∙ (cell_at w.inv w.front next_live).registered

  same_stack : j.stack ≡ s.stack
  same_stack = ap (λ r. r.stack) w.final ∙ ap (λ r. r.stack) w.slept.frame

-- With the invariant, no running thread and fewer quantums than the largest int, let the start of
-- a quantum come to its jump. The signal is let in there already; if it arrives, the handler sets
-- the thread that was to run ready and replaces its saved context by one in the handler on the
-- stack that is still in use, and starts the next quantum.
pub pending_signal :
    {s : System} (os os' : Os)
    → Inv s.total_quantoms 0 s
    → s.total_quantoms < int_max
    → (c : Context) × (j : System) × (p : ℕ) × (t : Thread) × (next : System)
      × (run_topmost_thread_in_ready_queue os s ≡ jumps c j)
      × (j.masked ≡ false)
      × (lookup j.running_thread_id j.active_threads ≡ some p)
      × (static_external_time_handler os' j
          ≡ bind (run_topmost_thread_in_ready_queue os' next) (λ _ s'. returns tt s'))
      × (next.heap p ≡ some t)
      × (t.state ≡ ready)
      × (t.env ≡ record { point = in_handler; stack = s.stack; masked = true })
unfolding static_external_time_handler
pending_signal {s} os os' inv lt =
    let (c, j, runs, w) = run_topmost_lem os inv lt in
    let inside : System = record j { masked = true } in
    let u : Thread = started w.thread in
    let t : Thread = left_in ready u.quantoms_left_to_sleep in_handler inside u in
    (
      c,
      j,
      w.front,
      t,
      _,
      runs,
      ap (λ r. r.masked) w.final,
      next_registered w,
      internal_time_handler_lem os' w.front inside (next_registered w) (next_live w),
      update_self j.heap w.front (some t),
      refl,
      ap (λ k. record { point = in_handler; stack = k; masked = true }) (same_stack w),
    )

-- ===== src/Examples/Parts.antt =====
-- The parts of scheduler.cpp and thread.cpp at concrete states.
use os_ex.Prelude.{false, ℤ, ℕ, ◌≡◌, refl, [], ◌∷◌, ◌++◌, true, some, pos, lookup, arith}
use os_ex.Checked.{pass}
use os_ex.Thread.{in_handler, Context, Thread, running, ready, not_sleeping, wake_up, is_sleeping}
use os_ex.Thread.Laws.{count_down, count_down_lem}
use os_ex.Machine.{bind, jumps, System, returns}
use os_ex.Scheduler.{
  update_sleeping_threads, run_topmost_thread_in_ready_queue, init_timer_for_a_quantom,
}
use os_ex.Uthreads.{static_external_time_handler}
use os_ex.Invariant.{Inv, IsBusy}
use os_ex.Dispatch.{passed, due, sleepers_pass, Switch, run_topmost_lem}
use os_ex.Safety.{masked-IsBusy, yielded, yielded-Inv}
use os_ex.Behaviour.{pending_signal, Sets, timer_set}
use os_ex.Examples.States.{quiet, main_runs, main_runs-IsValid, main_of, sleeper}

timer_set_example :
    (code : ℤ) × (s' : System) × (init_timer_for_a_quantom quiet main_runs ≡ returns code s')
    × Sets quiet main_runs code s'
timer_set_example = timer_set quiet main_runs

count_down_lem_example :
    (count_down 2 sleeper ≡ pass (record sleeper { quantoms_left_to_sleep = pos 0 }))
    × (count_down 3 sleeper ≡ wake_up (record sleeper { quantoms_left_to_sleep = not_sleeping }))
unfolding is_sleeping
count_down_lem_example = count_down_lem 2 sleeper refl refl

sleepers_pass_example :
    (s' : System) × (update_sleeping_threads main_runs ≡ returns tt s')
    × Inv 7 1 s'
    × ((q : ℕ) → s'.heap q ≡ passed (main_runs.heap q))
    × (s'.ready_queue ≡ (2 ∷ []) ++ due main_runs.heap (3 ∷ []))
sleepers_pass_example = sleepers_pass main_runs-IsValid.inv

inside_busy : IsBusy 1 (record main_runs { masked = true })
inside_busy = masked-IsBusy true main_runs-IsValid.busy

run_topmost_lem_example :
    (c : Context) × (s' : System) × (run_topmost_thread_in_ready_queue quiet
        (yielded inside_busy {t = main_of running} refl)
      ≡ jumps c s')
    × Switch quiet (yielded inside_busy {t = main_of running} refl) c s'
run_topmost_lem_example =
    run_topmost_lem quiet (yielded-Inv inside_busy {t = main_of running} refl) (omega arith)

pending_signal_example :
    (c : Context) × (j : System) × (p : ℕ) × (t : Thread) × (next : System)
    × (run_topmost_thread_in_ready_queue quiet (yielded inside_busy {t = main_of running} refl)
        ≡ jumps c j)
    × (j.masked ≡ false)
    × (lookup j.running_thread_id j.active_threads ≡ some p)
    × (static_external_time_handler quiet j
        ≡ bind (run_topmost_thread_in_ready_queue quiet next) (λ _ s'. returns tt s'))
    × (next.heap p ≡ some t)
    × (t.state ≡ ready)
    × (t.env ≡ record { point = in_handler; stack = 1; masked = true })
pending_signal_example =
    pending_signal quiet quiet (yielded-Inv inside_busy {t = main_of running} refl) (omega arith)

-- ===== src/Examples/Steps.antt =====
-- Calls, ticks and runs of them (uthreads.cpp) at concrete states.
use os_ex.Prelude.{
  ◌⊎◌, ℕ, ◌+◌, ◌<◌, ◌≡◌, ◌≢◌, refl, [], ◌∷◌, ◌++◌, false, some, pos, count, lookup, assign, update,
  arith, ◌==◌, of_bool,
}
use os_ex.Checked.{freed_stack}
use os_ex.Thread.{
  is_running, new_thread, Thread, ready, blocked_and_sleeping, is_ready, is_sleeping,
}
use os_ex.Machine.{aborts, allocate, deref, System, returns}
use os_ex.Scheduler.{
  change_blockage_status_sigvtalrm, create_thread, set_active, push_ready, max_thread_num,
  generate_thread_id, create_thread_and_push_to_ready,
}
use os_ex.Uthreads.{
  perform, uthread_spawn, settle, Seen, returned, step_call, step_tick, spawn, block,
}
use os_ex.Invariant.{IsValid}
use os_ex.Dispatch.{due}
use os_ex.Safety.{LosesStack, Outcome, call_safe, tick_safe, initial, uthread_init_lem, born}
use os_ex.Reachability.{Reach, start, call, Reach-one_running, Reach-lists}
use os_ex.Quantums.{
  run_ticks, round_robin, runs_after, Sleeps, sleep_lasts, tick_accounts, Agree, tick-Agree,
}
use os_ex.Behaviour.{let_go, resume_blocked_thread}
use os_ex.Examples.States.{
  held_thread, worker_of, quiet, main_runs, main_runs-IsValid, sleeper, two_sleep,
  two_sleep-IsValid,
}

call_safe_example :
    Outcome (step_call quiet (block (pos 1)) main_runs)
    ⊎ ((step_call quiet (block (pos 1)) main_runs ≡ aborts freed_stack)
        × LosesStack quiet (block (pos 1)) main_runs)
call_safe_example = call_safe main_runs-IsValid (omega arith) quiet (block (pos 1)) (λ e. cc)

tick_safe_example : Outcome (step_tick quiet main_runs)
tick_safe_example = tick_safe main_runs-IsValid (omega arith) quiet

first_reached : Reach (initial quiet 100 false)
first_reached = start quiet 99 false refl (uthread_init_lem quiet 99 false refl)

abbrev newborn : Thread
newborn = born 1 (initial quiet 100 false) 77

-- The process once a thread has been spawned.
abbrev grown : System
grown = record (initial quiet 100 false) {
  heap = update (initial quiet 100 false).heap 2 (some newborn);
  next_address = 3;
  largest_thread_id = 1;
  active_threads = (0, 1) ∷ (1, 2) ∷ [];
  ready_queue = 2 ∷ [];
}

grows : step_call quiet (spawn 77) (initial quiet 100 false) ≡ returns (returned (pos 1)) grown
unfolding step_call perform uthread_spawn change_blockage_status_sigvtalrm
    create_thread_and_push_to_ready create_thread generate_thread_id new_thread allocate deref
    set_active assign is_ready push_ready settle
grows = refl

grown_reached : Reach grown
grown_reached = call quiet (spawn 77) (returned (pos 1)) first_reached (omega arith) (λ e. cc) grows

Reach-one_running_example :
    (t : Thread) × (grown.heap grown.stack ≡ some t)
    × (t.id ≡ grown.running_thread_id)
    × (is_running newborn ≡ (2 == grown.stack))
Reach-one_running_example = Reach-one_running 2 grown_reached refl

Reach-lists_example :
    (count 2 grown.ready_queue ≡ of_bool (is_ready newborn))
    × (count 2 grown.sleeping_threads ≡ of_bool (is_sleeping false newborn))
    × (newborn.state ≢ blocked_and_sleeping)
    × (lookup newborn.id grown.active_threads ≡ some 2)
    × (newborn.id < max_thread_num)
Reach-lists_example = Reach-lists 2 grown_reached refl

-- The process with the blocked thread resumed, so that two threads are ready.
abbrev released : System
released = let_go main_runs-IsValid (omega arith) quiet 4 {t = held_thread} refl

runs_after_example :
    (seen : Seen) × (s' : System) × (run_ticks (quiet ∷ quiet ∷ []) released ≡ returns seen s')
    × IsValid 4 s'
runs_after_example =
    runs_after (2 ∷ []) (quiet ∷ quiet ∷ []) 4 [] refl
      (resume_blocked_thread main_runs-IsValid (omega arith) quiet 4 {t = held_thread} refl refl).1
      (omega arith) refl

round_robin_example :
    (seen : Seen) × (s' : System) × (step_tick quiet main_runs ≡ returns seen s')
    × IsValid 2 s'
    × (s'.ready_queue ≡ [] ++ 1 ∷ due main_runs.heap (3 ∷ []))
    × (s'.total_quantoms ≡ 8)
round_robin_example = round_robin quiet 2 [] main_runs-IsValid (omega arith) refl

abbrev main_sleeps : Sleeps 3 2 main_runs
main_sleeps = record { thread = sleeper; live = refl; asleep = refl; count = refl }

sleep_lasts_example :
    (seen : Seen) × (s' : System) × (seen' : Seen) × (s'' : System) × (t : Thread) × (run_ticks
        (quiet ∷ quiet ∷ [])
        main_runs
      ≡ returns seen s')
    × Sleeps 3 0 s'
    × (step_tick quiet s' ≡ returns seen' s'')
    × (s''.heap 3 ≡ some t)
    × (t.state ≡ ready)
sleep_lasts_example =
    sleep_lasts 2 (quiet ∷ quiet ∷ []) quiet 3 refl main_runs-IsValid (omega arith) main_sleeps

tick_accounts_example :
    (seen : Seen) × (s' : System) × (next : ℕ) × (u : Thread) × (step_tick quiet main_runs
      ≡ returns seen s')
    × IsValid next s'
    × (s'.total_quantoms ≡ 8)
    × (s'.heap 2 ≡ some u)
    × (u.running_quantoms_num ≡ 2 + of_bool (2 == next))
    × (u.id ≡ 1)
tick_accounts_example =
    tick_accounts quiet 2 {t = worker_of ready} main_runs-IsValid (omega arith) refl

other_order : (p : ℕ) → count p (3 ∷ 2 ∷ []) ≡ count p (2 ∷ 3 ∷ [])
unfolding count
other_order p = ground arith

tick-Agree_example :
    (seen : Seen) × (s1 : System) × (s2 : System) × (step_tick quiet two_sleep ≡ returns seen s1)
    × (step_tick quiet (record two_sleep { sleeping_threads = 3 ∷ 2 ∷ [] }) ≡ returns seen s2)
    × Agree 1 two_sleep s1 s2
tick-Agree_example = tick-Agree quiet (3 ∷ 2 ∷ []) two_sleep-IsValid (omega arith) other_order

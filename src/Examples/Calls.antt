-- ===== src/Examples/Calls.antt =====
-- The calls of uthreads.cpp at concrete states.
use os_ex.Prelude.{
  false, of_bool, ltb, ◌≤◌, length, ℕ, ◌<◌, ◌≡◌, refl, [], ◌∷◌, ◌++◌, none, some, pos, lookup,
  update, arith, erase, is_some,
}
use os_ex.Checked.{freed_stack, assertion}
use os_ex.Thread.{running, ready, not_sleeping}
use os_ex.Machine.{Os, System, returns, aborts}
use os_ex.Scheduler.{success, max_thread_num}
use os_ex.Uthreads.{returned, step_call, spawn, terminate, block, resume, sleep}
use os_ex.Invariant.{IsValid}
use os_ex.Safety.{born}
use os_ex.Behaviour.{spawn-terminate, spawn_succeeds, block-resume, sleep_minus_one, terminate_self}
use os_ex.Examples.States.{
  quiet, main_runs, worker_runs, main_runs-IsValid, worker_runs-IsValid, worker_of, sleeper,
}

sleep_minus_one_example : step_call quiet (sleep not_sleeping) worker_runs ≡ aborts assertion
sleep_minus_one_example = sleep_minus_one worker_runs-IsValid (omega arith) quiet (omega arith)

spawn_succeeds_example :
    (id : ℕ) × (s' : System) × (step_call quiet (spawn 77) main_runs
      ≡ returns (returned (pos id)) s')
    × (id < max_thread_num)
    × (lookup id main_runs.active_threads ≡ none)
    × ((i : ℕ) → of_bool (ltb i id) ≤ is_some (lookup i main_runs.active_threads))
    × (lookup id s'.active_threads ≡ some 5)
    × (s'.heap ≡ update main_runs.heap 5 (some (born id main_runs 77)))
    × (s'.ready_queue ≡ 2 ∷ 5 ∷ [])
    × (length s'.active_threads ≡ 5)
    × (s'.total_quantoms ≡ 7)
    × IsValid 1 s'
spawn_succeeds_example =
    spawn_succeeds quiet 77 main_runs-IsValid (omega arith) (omega arith) refl (λ e. cc)

-- The system as it is where freed memory does not keep its contents.
abbrev forgetful : Os
forgetful = record quiet { keeps_freed = false }

terminate_self_example : step_call forgetful (terminate (pos 1)) worker_runs ≡ aborts freed_stack
terminate_self_example =
    terminate_self worker_runs-IsValid (omega arith) forgetful {t = worker_of running} refl
      (λ e. cc)

block-resume_example :
    (s1 : System) × (step_call quiet (block (pos 1)) main_runs ≡ returns (returned success) s1)
    × (step_call quiet (resume (pos 1)) s1
        ≡ returns
            (returned success)
            (record main_runs { ready_queue = erase 2 (2 ∷ []) ++ 2 ∷ [] }))
block-resume_example =
    block-resume quiet quiet 2 {t = worker_of ready} main_runs-IsValid (omega arith) refl refl
      (λ e. cc)

spawn-terminate_example :
    (s1 : System) × (id : ℕ) × (s2 : System) × (step_call quiet (terminate (pos 2)) main_runs
      ≡ returns (returned success) s1)
    × (step_call quiet (spawn 77) s1 ≡ returns (returned (pos id)) s2)
    × (id ≤ 2)
    × (length s2.active_threads ≡ 4)
    × IsValid 1 s2
spawn-terminate_example =
    spawn-terminate quiet quiet 3 77 {t = sleeper} main_runs-IsValid (omega arith) refl (λ e. cc)
      (λ e. cc) refl (λ e. cc)

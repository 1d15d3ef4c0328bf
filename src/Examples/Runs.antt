-- ===== src/Examples/Runs.antt =====
-- main.cpp on the library (main.cpp, uthreads.cpp, scheduler.cpp), for some statements and signals.
use os_ex.Prelude.{
  ◌≤◌, length, ℕ, zero, suc, ◌≡◌, refl, List, [], ◌∷◌, ℤ, pos, true, arith, lookup, assign, remove,
  count, erase, insert,
}
use os_ex.Machine.{Result, returns, exits, aborts, jumps, bind, deref, call, allocate}
use os_ex.Sample.{Message, blocked_by_0, goes_to_sleep}
use os_ex.Program.{
  Process, Event, statement, expiry, Output, line, said, ops, call_of, answered, entered,
  main_frame, receive, go_on, local, perform_op, step, run, start,
}
use os_ex.Uthreads.{
  finish, uthread_spawn, uthread_block, uthread_resume, uthread_sleep, uthread_get_tid,
  uthread_get_total_quantums, uthread_get_quantums, get_instance, uthread_init,
  static_external_time_handler, land, go_to, settle, perform, step_call, step_tick,
}
use os_ex.Scheduler.{
  generate_thread_id, change_blockage_status_sigvtalrm, init_timer_for_a_quantom, create_thread,
  push_ready, set_active, create_thread_and_push_to_ready, find, active_at, erase_sleeping,
  leave_sleeping, update_sleeping, update_each, update_sleeping_threads, count_quantom, run_thread,
  pop_and_run, run_topmost_thread_in_ready_queue, erase_first, erase_thread_from_ready_queue,
  save_env_at, block_and_run, block_resumed, block_running, set_blocked, block_ready, block_found,
  block_thread, resume_found, resume_thread, insert_sleeping, sleep_resumed, sleep_thread,
  handler_resumed, internal_time_handler, get_current_running_thread_id, get_total_quantoms,
  get_quantoms_running_num, construct,
}
use os_ex.Thread.{
  setup_env, new_thread, save_env, is_running, is_ready, is_blocked, is_sleeping, get_age,
  set_block, set_ready, set_running, set_sleep, unblock, wake_up, update_sleep_value,
}
use os_ex.Program.Landed.{IsFine}
use os_ex.Program.Lines.{main_lines, numbered, AreApart}
use os_ex.Program.Runs.{run-IsFine, main_prints, main_starts}
use os_ex.Examples.States.{quiet}

abbrev statements : ℕ → List Event → List Event
statements zero es = es
statements (suc n) es = statement quiet ∷ statements n es

-- Quantums of 16 statements each.
abbrev quantums_of_16 : ℕ → List Event
quantums_of_16 zero = []
quantums_of_16 (suc n) = statements 16 (expiry quiet ∷ quantums_of_16 n)

abbrev shows_tid : List Output → List ℤ
shows_tid [] = []
shows_tid (line l s j ∷ o) = s.tid ∷ shows_tid o
shows_tid (said m ∷ o) = shows_tid o

abbrev says : List Output → List Message
says [] = []
says (line l s j ∷ o) = says o
says (said m ∷ o) = m ∷ says o

abbrev printed_by : {A : Type 0} → (List Output → List A) → Result Process (Unit {0}) → List A
printed_by f (returns u p) = f p.printed
printed_by f (exits n p) = []
printed_by f (aborts e) = []
printed_by f (jumps c p) = []

-- In the fourth quantum the first thread runs, which the third has spawned.
first_quantums :
    printed_by shows_tid (bind (start quiet) (λ _ p. run (quantums_of_16 5) p))
    ≡ pos 0 ∷ pos 0 ∷ pos 0 ∷ pos 1 ∷ pos 0 ∷ []
unfolding ops call_of answered entered main_frame receive go_on local perform_op step run start
    finish uthread_spawn uthread_block uthread_resume uthread_sleep uthread_get_tid
    uthread_get_total_quantums uthread_get_quantums get_instance uthread_init
    static_external_time_handler land go_to settle perform step_call step_tick generate_thread_id
    change_blockage_status_sigvtalrm init_timer_for_a_quantom create_thread push_ready set_active
    create_thread_and_push_to_ready find active_at erase_sleeping leave_sleeping update_sleeping
    update_each update_sleeping_threads count_quantom run_thread pop_and_run
    run_topmost_thread_in_ready_queue erase_first erase_thread_from_ready_queue save_env_at
    block_and_run block_resumed block_running set_blocked block_ready block_found block_thread
    resume_found resume_thread insert_sleeping sleep_resumed sleep_thread handler_resumed
    internal_time_handler get_current_running_thread_id get_total_quantoms get_quantoms_running_num
    construct setup_env new_thread save_env is_running is_ready is_blocked is_sleeping get_age
    set_block set_ready set_running set_sleep unblock wake_up update_sleep_value deref call allocate
    lookup assign remove count erase insert
first_quantums = refl

-- With quantums long enough for a round, thread 1 sleeps through the twenty-fifth.
never_resumed :
    printed_by says (bind (start quiet) (λ _ p. run (quantums_of_16 40) p))
    ≡ blocked_by_0 ∷ goes_to_sleep ∷ []
unfolding ops call_of answered entered main_frame receive go_on local perform_op step run start
    finish uthread_spawn uthread_block uthread_resume uthread_sleep uthread_get_tid
    uthread_get_total_quantums uthread_get_quantums get_instance uthread_init
    static_external_time_handler land go_to settle perform step_call step_tick generate_thread_id
    change_blockage_status_sigvtalrm init_timer_for_a_quantom create_thread push_ready set_active
    create_thread_and_push_to_ready find active_at erase_sleeping leave_sleeping update_sleeping
    update_each update_sleeping_threads count_quantom run_thread pop_and_run
    run_topmost_thread_in_ready_queue erase_first erase_thread_from_ready_queue save_env_at
    block_and_run block_resumed block_running set_blocked block_ready block_found block_thread
    resume_found resume_thread insert_sleeping sleep_resumed sleep_thread handler_resumed
    internal_time_handler get_current_running_thread_id get_total_quantoms get_quantoms_running_num
    construct setup_env new_thread save_env is_running is_ready is_blocked is_sleeping get_age
    set_block set_ready set_running set_sleep unblock wake_up update_sleep_value deref call allocate
    lookup assign remove count erase insert
never_resumed = refl

run-IsFine_example : IsFine 68 true (bind (start quiet) (λ _ p. run (quantums_of_16 4) p))
run-IsFine_example = run-IsFine quiet (quantums_of_16 4) refl (omega arith)

main_prints_example :
    (p : Process) × (bind (start quiet) (λ _ p. run (quantums_of_16 4) p) ≡ returns tt p)
    × (main_lines p.printed ≡ numbered (length (main_lines p.printed)) 100)
    × AreApart p.printed
main_prints_example = main_prints quiet (quantums_of_16 4) refl refl (omega arith)

main_starts_example :
    (p : Process) × (bind (start quiet) (λ _ p. run (quantums_of_16 4) p) ≡ returns tt p)
    × (length p.system.active_threads ≤ 3)
main_starts_example = main_starts quiet (quantums_of_16 4) refl refl (omega arith)

-- ===== src/Messages.antt =====
-- What the functions of uthreads.cpp, and create_thread of scheduler.cpp, write to `cerr`, by the
-- state at the call and by what the scheduler's methods come to.
pub mod Reasons
pub mod Failures
use os_ex.Prelude.{
  ℕ, zero, suc, Option, none, some, true, ℤ, pos, negsuc, eq_ℤ, ◌==◌, if◌then◌else◌,
}
use os_ex.Checked.{assertion, bad_pointer, bad_context, overflow, freed_stack}
use os_ex.Thread.{nullptr, main_thread_id}
use os_ex.Machine.{System, Os, Result, returns, jumps, exits, aborts}
use os_ex.Scheduler.{
  failure, create_thread_and_push_to_ready, terminate_thread, block_thread, resume_thread,
  sleep_thread, get_current_running_thread_id, get_quantoms_running_num,
}
use os_ex.Uthreads.{
  Call, spawn, terminate, block, resume, sleep, get_quantums, get_tid, get_total_quantums, Library,
  absent, get_instance, block_in,
}

pub data Message : Type 0 where
  max_threads_exceeded invalid_quantum invalid_entry_point thread_not_found main_thread_block :
      Message
  main_thread_sleep bad_allocation : Message

-- After a method of the scheduler: a message if it failed.
abbrev pub on_failure : Message → Result System ℤ → Option Message
on_failure m (returns code s) = if eq_ℤ code failure then some m else none
on_failure m (jumps c s) = none
on_failure m (exits n s) = none
on_failure m (aborts e) = none

-- `create_thread` writes a message of its own before it exits, which can lose the stack.
abbrev pub on_spawn : Result System ℤ → Option Message
on_spawn (exits n s) = some bad_allocation
on_spawn (returns code s) = on_failure max_threads_exceeded (returns code s)
on_spawn (jumps c s) = none
on_spawn (aborts freed_stack) = some bad_allocation
on_spawn (aborts assertion) = none
on_spawn (aborts bad_pointer) = none
on_spawn (aborts bad_context) = none
on_spawn (aborts overflow) = none

abbrev pub on_init : Result System (Unit {0}) → Option Message
on_init (exits n s) = some bad_allocation
on_init (returns u s) = none
on_init (jumps c s) = none
on_init (aborts e) = none

-- Inside a call the signal is blocked.
abbrev inside : System → System
inside s = record s { masked = true }

unfoldable pub init_message : Os → ℤ → Library → Option Message
init_message os (negsuc n) lib = some invalid_quantum
init_message os (pos zero) lib = some invalid_quantum
init_message os (pos (suc n)) lib = on_init (get_instance os (suc n) (block_in lib))

unfoldable pub spawn_message : Os → ℕ → System → Option Message
spawn_message os entry_point s =
    if entry_point == nullptr
    then some invalid_entry_point
    else on_spawn (create_thread_and_push_to_ready os entry_point (inside s))

unfoldable pub terminate_message : Os → ℤ → System → Option Message
terminate_message os tid s =
    if eq_ℤ tid (pos main_thread_id)
    then none
    else on_failure thread_not_found (terminate_thread os tid (inside s))

unfoldable pub block_message : Os → ℤ → System → Option Message
block_message os tid s =
    if eq_ℤ tid (pos main_thread_id)
    then some main_thread_block
    else on_failure thread_not_found (block_thread os tid (inside s))

unfoldable pub resume_message : ℤ → System → Option Message
resume_message tid s = on_failure thread_not_found (resume_thread tid (inside s))

unfoldable pub sleep_message : Os → ℤ → System → Option Message
sleep_message os num_quantums s =
    if get_current_running_thread_id (inside s) == main_thread_id
    then some main_thread_sleep
    else on_failure thread_not_found (sleep_thread os num_quantums (inside s))

unfoldable pub quantums_message : ℤ → System → Option Message
quantums_message tid s = on_failure thread_not_found (get_quantoms_running_num tid (inside s))

unfoldable pub message : Os → Call → System → Option Message
unfolding spawn_message terminate_message block_message resume_message sleep_message
    quantums_message
message os (spawn entry_point) s = spawn_message os entry_point s
message os (terminate tid) s = terminate_message os tid s
message os (block tid) s = block_message os tid s
message os (resume tid) s = resume_message tid s
message os (sleep num_quantums) s = sleep_message os num_quantums s
message os (get_quantums tid) s = quantums_message tid s
message os get_tid s = none
message os get_total_quantums s = none

-- ===== src/Examples/Complaints.antt =====
-- The messages of uthreads.cpp at concrete states.
use os_ex.Prelude.{◌≡◌, refl, some, pos, arith}
use os_ex.Machine.{returns}
use os_ex.Scheduler.{failure, get_current_running_thread_id}
use os_ex.Uthreads.{returned, step_call, sleep}
use os_ex.Messages.{main_thread_sleep, message}
use os_ex.Messages.Reasons.{reason, message-reason}
use os_ex.Messages.Failures.{message-fails}
use os_ex.Examples.States.{quiet, main_runs, main_runs-IsValid}

message-reason_example : message quiet (sleep (pos 2)) main_runs ≡ some main_thread_sleep
unfolding reason
message-reason_example =
    message-reason main_runs-IsValid (omega arith) quiet (sleep (pos 2)) (λ e. cc)

-- What the process in `main_runs` writes for its call.
refuses_sleep : message quiet (sleep (pos 2)) main_runs ≡ some main_thread_sleep
unfolding message get_current_running_thread_id
refuses_sleep = refl

message-fails_example :
    step_call quiet (sleep (pos 2)) main_runs ≡ returns (returned failure) main_runs
message-fails_example =
    message-fails main_runs-IsValid (omega arith) quiet (sleep (pos 2)) (λ e. cc) refuses_sleep
      (λ e. cc)

-- ===== src/Examples/Contracts.antt =====
-- The promises of uthreads.h at concrete states.
use os_ex.Prelude.{refl, pos, false, arith}
use os_ex.Uthreads.{step_call, step_tick, uthread_init, absent, sleep}
use os_ex.Contract.Abstraction.{view}
use os_ex.Contract.Calls.Common.{Conforms}
use os_ex.Contract.Calls.All.{
  call-Conforms, TickConforms, tick-Conforms, InitConforms, init-Conforms,
}
use os_ex.Examples.States.{quiet, main_runs, worker_runs, main_runs-IsValid, worker_runs-IsValid}

call-Conforms_example :
    Conforms (view worker_runs) (sleep (pos 3)) (step_call quiet (sleep (pos 3)) worker_runs)
call-Conforms_example =
    call-Conforms worker_runs-IsValid (omega arith) quiet refl (sleep (pos 3)) (λ h. h) tt

tick-Conforms_example : TickConforms (view main_runs) (step_tick quiet main_runs)
tick-Conforms_example = tick-Conforms quiet main_runs-IsValid (omega arith)

init-Conforms_example : InitConforms (pos 100) (uthread_init quiet (pos 100) (absent false))
init-Conforms_example = init-Conforms quiet (pos 100) false refl

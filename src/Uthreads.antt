-- ===== src/Uthreads.antt =====
-- uthreads.h and uthreads.cpp: the library's functions, and what user code sees of a jump.
use os_ex.Prelude.{ℕ, zero, suc, Bool, true, false, ℤ, pos, negsuc, eq_ℤ, ◌==◌, if◌then◌else◌}
use os_ex.Checked.{bad_context}
use os_ex.Thread.{
  Context, Point, nowhere, in_setup, in_block, in_sleep, in_handler, entry, nullptr, main_thread_id,
}
use os_ex.Machine.{System, Os, M, Result, returns, jumps, exits, aborts, pure, bind, ◌>>=◌, ◌>>◌}
use os_ex.Scheduler.{
  success, failure, sig_block, sig_unblock, change_blockage_status_sigvtalrm,
  create_thread_and_push_to_ready, terminate_thread, block_thread, block_resumed, resume_thread,
  sleep_thread, sleep_resumed, internal_time_handler, handler_resumed, exit, construct,
  get_current_running_thread_id, get_total_quantoms, get_quantoms_running_num,
}

-- The end of a call: the signal is let in again, and a failure is told apart from a result.
unfoldable pub finish : ℤ → M ℤ
finish code =
    if eq_ℤ code failure
    then (change_blockage_status_sigvtalrm sig_unblock >> pure failure)
    else (change_blockage_status_sigvtalrm sig_unblock >> pure code)

unfoldable pub uthread_spawn : Os → ℕ → M ℤ
unfolding finish
uthread_spawn os entry_point = do
  change_blockage_status_sigvtalrm sig_block
  if entry_point == nullptr
      then (change_blockage_status_sigvtalrm sig_unblock >> pure failure)
      else (create_thread_and_push_to_ready os entry_point >>= finish)

unfoldable pub uthread_terminate : Os → ℤ → M ℤ
unfolding finish
uthread_terminate os tid = do
  change_blockage_status_sigvtalrm sig_block
  if eq_ℤ tid (pos main_thread_id) then exit os 0 else (terminate_thread os tid >>= finish)

unfoldable pub uthread_block : Os → ℤ → M ℤ
unfolding finish
uthread_block os tid = do
  change_blockage_status_sigvtalrm sig_block
  if eq_ℤ tid (pos main_thread_id)
      then (change_blockage_status_sigvtalrm sig_unblock >> pure failure)
      else (block_thread os tid >>= finish)

unfoldable pub uthread_resume : ℤ → M ℤ
unfolding finish
uthread_resume tid = do
  change_blockage_status_sigvtalrm sig_block
  code ← resume_thread tid
  finish code

unfoldable pub uthread_sleep : Os → ℤ → M ℤ
unfolding finish
uthread_sleep os num_quantums = do
  change_blockage_status_sigvtalrm sig_block
  λ s.
      (if get_current_running_thread_id s == main_thread_id
          then (change_blockage_status_sigvtalrm sig_unblock >> pure failure)
          else (sleep_thread os num_quantums >>= finish))
        s

unfoldable pub uthread_get_tid : M ℤ
uthread_get_tid = do
  change_blockage_status_sigvtalrm sig_block
  ret_val ← λ s. returns (pos (get_current_running_thread_id s)) s
  change_blockage_status_sigvtalrm sig_unblock
  pure ret_val

unfoldable pub uthread_get_total_quantums : M ℤ
uthread_get_total_quantums = do
  change_blockage_status_sigvtalrm sig_block
  ret_val ← λ s. returns (pos (get_total_quantoms s)) s
  change_blockage_status_sigvtalrm sig_unblock
  pure ret_val

unfoldable pub uthread_get_quantums : ℤ → M ℤ
unfolding finish
uthread_get_quantums tid = do
  change_blockage_status_sigvtalrm sig_block
  quantums_num ← get_quantoms_running_num tid
  finish quantums_num

-- Before the first `getInstance` the process has its signal mask and no scheduler.
pub data Library : Type 0 where
  absent : Bool → Library
  present : System → Library

unfoldable pub get_instance : Os → ℕ → Library → Result System (Unit {0})
get_instance os quantum_usecs (absent masked) = construct os quantum_usecs masked
get_instance os quantum_usecs (present s) = returns tt s

abbrev pub block_in : Library → Library
block_in (absent masked) = absent true
block_in (present s) = present (record s { masked = true })

-- A refusal returns a code and leaves the process as it is; else the instance is there afterwards.
pub data InitResult : Type 0 where
  refused : ℤ → InitResult
  initialized : Result System ℤ → InitResult

unfoldable pub uthread_init : Os → ℤ → Library → InitResult
uthread_init os (negsuc n) lib = refused failure
uthread_init os (pos zero) lib = refused failure
uthread_init os (pos (suc n)) lib = initialized (
    bind (get_instance os (suc n) (block_in lib))
      (λ _. change_blockage_status_sigvtalrm sig_unblock >> pure success))

-- The timer's signal, which user code can meet at any point: it is blocked while its handler runs.
unfoldable pub static_external_time_handler : Os → M (Unit {0})
static_external_time_handler os s = internal_time_handler os (record s { masked = true })

-- What user code sees next: it starts at an entry point, a call returns, or it goes on where the
-- signal met it.
pub data Seen : Type 0 where
  enters : ℕ → Seen
  returned : ℤ → Seen
  interrupted : Seen

-- The second return of `sigsetjmp`, from which the code runs on to user code. The end of a signal's
-- handler restores the mask in which the signal could arrive.
unfoldable pub land : Os → Point → ℕ → M Seen
unfolding finish
land os nowhere this s = aborts bad_context
land os in_setup this s = aborts bad_context
land os (entry entry_point) this s = returns (enters entry_point) s
land os in_block this s =
    (block_resumed os this true >>= λ c. finish c >>= λ r. pure (returned r)) s
land os in_sleep this s = (sleep_resumed os true >>= λ c. finish c >>= λ r. pure (returned r)) s
land os in_handler this s =
    (handler_resumed os true >>= λ _ s'. returns interrupted (record s' { masked = false })) s

-- The jump restores the mask and the stack of the context.
unfoldable pub go_to : Os → Context → M Seen
unfolding land
go_to os c s = land os c.point c.stack (record s { masked = c.masked; stack = c.stack })

-- A call or a signal up to the next point of user code, across the jump if there is one.
unfoldable pub settle : Os → Result System Seen → Result System Seen
unfolding go_to
settle os (jumps c s) = go_to os c s
settle os (returns r s) = returns r s
settle os (exits n s) = exits n s
settle os (aborts e) = aborts e

-- A call of the library by the running thread.
pub data Call : Type 0 where
  spawn : ℕ → Call
  terminate block resume sleep get_quantums : ℤ → Call
  get_tid get_total_quantums : Call

unfoldable pub perform : Os → Call → M ℤ
perform os (spawn entry_point) = uthread_spawn os entry_point
perform os (terminate tid) = uthread_terminate os tid
perform os (block tid) = uthread_block os tid
perform os (resume tid) = uthread_resume tid
perform os (sleep num_quantums) = uthread_sleep os num_quantums
perform os (get_quantums tid) = uthread_get_quantums tid
perform os get_tid = uthread_get_tid
perform os get_total_quantums = uthread_get_total_quantums

-- A call, and the timer's signal, from one point of user code to the next.
unfoldable pub step_call : Os → Call → System → Result System Seen
step_call os c s = settle os (bind (perform os c s) (λ r s'. returns (returned r) s'))

unfoldable pub step_tick : Os → System → Result System Seen
step_tick os s =
    settle os (bind (static_external_time_handler os s) (λ _ s'. returns interrupted s'))

-- ===== src/Scheduler/Lifetime.antt =====
-- scheduler.h and scheduler.cpp: what the scheduler tells of itself, and its constructor.
use os_ex.Prelude.{ℕ, [], Bool, false, not, none, some, ℤ, pos, ◌==◌, insert}
use os_ex.Thread.{nullptr, main_thread_id, get_age, set_running}
use os_ex.Machine.{System, Os, M, Result, returns, pure, bind, ◌>>=◌, ◌>>◌, assert, deref, call}
use os_ex.Scheduler.Threads.{failure, init_timer_for_a_quantom, create_thread, set_active, find}

unfoldable pub get_current_running_thread_id : System → ℕ
get_current_running_thread_id s = s.running_thread_id

unfoldable pub get_total_quantoms : System → ℕ
get_total_quantoms s = s.total_quantoms

unfoldable pub get_quantoms_running_num : ℤ → M ℤ
get_quantoms_running_num tid s = elim (find tid s) [
  | none ↦ returns failure s
  | some (id, thread) ↦ bind (deref thread s) λ t s'. returns (pos (get_age t)) s'
]

-- The process as the constructor finds it: no objects, and no thread but its own. The main thread's
-- object is the first that is built, at address 1.
abbrev pub boot : ℕ → Bool → System
boot quantum_usecs masked = record {
  heap = λ _. none;
  next_address = 1;
  stack = 1;
  masked = masked;
  handled = false;
  itimer = none;
  quantum_usecs = quantum_usecs;
  largest_thread_id = main_thread_id;
  running_thread_id = main_thread_id;
  total_quantoms = 1;
  unused_threads_id = [];
  active_threads = [];
  sleeping_threads = [];
  ready_queue = [];
}

-- The constructor.
unfoldable pub construct : Os → ℕ → Bool → Result System (Unit {0})
construct os quantum_usecs masked = body (boot quantum_usecs masked)
  where
    body : M (Unit {0})
    body = do
      λ s. returns tt (record s { unused_threads_id = insert main_thread_id s.unused_threads_id })
      main_thread ← create_thread os nullptr
      assert (not (main_thread == nullptr))
      set_active main_thread_id main_thread
      call main_thread set_running
      code ← init_timer_for_a_quantom os
      pure tt

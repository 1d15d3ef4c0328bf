-- ===== src/Scheduler/Threads.antt =====
-- scheduler.h and scheduler.cpp: ids, the signal mask, the timer, the table, and the making and
-- deleting of threads. A Thread pointer is an address in the heap.
use os_ex.Prelude.{
  ℕ, ◌/◌, ◌%◌, List, [], ◌∷◌, ◌++◌, Bool, true, false, Option, none, some, ℤ, pos, negsuc, eq_ℤ,
  ◌==◌, leb, if◌then◌else◌, length, lookup, assign, remove,
}
use os_ex.Checked.{increment}
use os_ex.Thread.{in_setup, nullptr, main_thread_id, new_thread, is_ready}
use os_ex.Machine.{
  System, Os, Itimerval, M, returns, exits, pure, ◌>>=◌, ◌>>◌, lift, assert, deref, delete,
  use_stack, allocate, context_at,
}

abbrev pub success : ℤ
success = pos 0

abbrev pub failure : ℤ
failure = negsuc 0

abbrev pub usec_in_sec : ℕ
usec_in_sec = 1000000

abbrev pub max_thread_num : ℕ
max_thread_num = 100

-- The smallest unused id, or a new one.
unfoldable pub generate_thread_id : M ℕ
generate_thread_id s = elim s.unused_threads_id [
  | id ∷ rest ↦ returns id (record s { unused_threads_id = rest })
  | [] ↦ (lift (increment s.largest_thread_id) >>= grow) s
]
  where
    grow : ℕ → M ℕ
    grow id s = returns id (record s { largest_thread_id = id })

pub data MaskOperation : Type 0 where
  sig_block sig_unblock : MaskOperation

abbrev blocks : MaskOperation → Bool
blocks sig_block = true
blocks sig_unblock = false

unfoldable pub change_blockage_status_sigvtalrm : MaskOperation → M (Unit {0})
change_blockage_status_sigvtalrm operation s = returns tt (record s { masked = blocks operation })

abbrev pub is_negative : ℤ → Bool
is_negative (pos n) = false
is_negative (negsuc n) = true

-- One shot after `_quantum_usecs` microseconds.
abbrev pub quantum_timer : ℕ → Itimerval
quantum_timer usecs = record {
  value_sec = usecs / usec_in_sec;
  value_usec = usecs % usec_in_sec;
  interval_sec = 0;
  interval_usec = 0;
}

unfoldable pub init_timer_for_a_quantom : Os → M ℤ
init_timer_for_a_quantom os s =
    if is_negative os.sigaction
    then returns failure s
    else if eq_ℤ os.setitimer (pos 0)
    then returns success
        (record s { handled = true; itimer = some (quantum_timer s.quantum_usecs) })
    else returns failure (record s { handled = true })

-- The destructor, run by `exit` on the static object: it deletes every active thread.
unfoldable pub destroy_each : List (ℕ × ℕ) → M (Unit {0})
destroy_each [] = pure tt
destroy_each ((id, thread) ∷ rest) = do
  delete thread
  λ s. returns tt (record s { active_threads = remove id s.active_threads })
  destroy_each rest

unfoldable pub destroy : M (Unit {0})
unfolding destroy_each
destroy s = destroy_each s.active_threads s

-- The stack on which `exit` runs: the main thread's is the process's own.
unfoldable pub exit_stack : Os → M (Unit {0})
unfolding use_stack
exit_stack os s = if s.running_thread_id == main_thread_id then returns tt s else use_stack os s

-- `exit(code)` once the instance is complete. The destructor runs on after it has deleted the objects.
unfoldable pub exit : {A : Type 0} → Os → ℕ → M A
unfolding destroy exit_stack
exit os code = (destroy >>= λ _. exit_stack os) >>= λ _ s. exits code s

-- A null pointer says that there are too many threads.
unfoldable pub create_thread : Os → ℕ → M ℕ
unfolding generate_thread_id exit
create_thread os entry_point s =
    if leb max_thread_num (length s.active_threads)
    then returns nullptr s
    else (generate_thread_id >>= build) s
  where
    build : ℕ → M ℕ
    build id s =
        if os.allocates
        then allocate (λ this. new_thread (context_at in_setup s) this id entry_point) s
        else exit os 1 s

unfoldable pub push_ready : ℕ → M (Unit {0})
push_ready p s = returns tt (record s { ready_queue = s.ready_queue ++ p ∷ [] })

unfoldable pub set_active : ℕ → ℕ → M (Unit {0})
set_active id p s = returns tt (record s { active_threads = assign id p s.active_threads })

unfoldable pub create_thread_and_push_to_ready : Os → ℕ → M ℤ
create_thread_and_push_to_ready os entry_point = do
  thread ← create_thread os entry_point
  if thread == nullptr then pure failure else added thread
  where
    added : ℕ → M ℤ
    added thread = do
      t ← deref thread
      set_active t.id thread
      assert (is_ready t)
      push_ready thread
      pure (pos t.id)

-- `_active_threads.find(tid)`: the entry, or `none` for `end()`. No key is negative.
unfoldable pub find : ℤ → System → Option (ℕ × ℕ)
find (negsuc n) s = none
find (pos id) s = elim (lookup id s.active_threads) [ none ↦ none | some p ↦ some (id, p) ]

-- `_active_threads[id]`, which puts a null pointer where there is no entry.
unfoldable pub active_at : ℕ → M ℕ
active_at id s = elim (lookup id s.active_threads) [
  | some p ↦ returns p s
  | none ↦ returns nullptr (record s { active_threads = assign id nullptr s.active_threads })
]

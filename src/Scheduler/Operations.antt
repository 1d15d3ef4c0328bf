-- ===== src/Scheduler/Operations.antt =====
-- scheduler.cpp: what the library's functions and the timer's signal call. Each function that saves a
-- context is in two parts: `…_resumed` is what runs after `save_env`, at its first return, where
-- `executed_from_jump` is false, and at its second return, where it is true.
use os_ex.Prelude.{
  ℕ, List, [], ◌∷◌, Bool, false, not, Option, none, some, ℤ, pos, eq_ℤ, ◌==◌, if◌then◌else◌, erase,
  insert, remove,
}
use os_ex.Checked.{pass}
use os_ex.Thread.{
  Thread, Point, in_block, in_sleep, in_handler, main_thread_id, save_env, is_running, is_ready,
  is_blocked, is_sleeping, set_block, set_ready, set_sleep, unblock,
}
use os_ex.Machine.{
  System, Os, M, Result, returns, pure, bind, ◌>>=◌, ◌>>◌, assert, deref, call, delete, use_stack,
  context_at,
}
use os_ex.Scheduler.Threads.{success, failure, push_ready, find, active_at}
use os_ex.Scheduler.Dispatch.{erase_sleeping, run_topmost_thread_in_ready_queue}

-- The loop looks through each pointer until it meets the id.
unfoldable pub erase_first : ℕ → List ℕ → System → Result System (Option (List ℕ))
erase_first tid [] = pure none
erase_first tid (p ∷ rest) = do
  t ← deref p
  if t.id == tid then pure (some rest) else (erase_first tid rest >>= λ r. pure (keep r))
  where
    keep : Option (List ℕ) → Option (List ℕ)
    keep r = elim r [ none ↦ none | some xs ↦ some (p ∷ xs) ]

unfoldable pub erase_thread_from_ready_queue : ℕ → M ℤ
unfolding erase_first
erase_thread_from_ready_queue tid s = bind (erase_first tid s.ready_queue s) λ r s'. elim r [
  | none ↦ returns failure s'
  | some rest ↦ returns success (record s' { ready_queue = rest })
]

-- The entry goes, and its id can be given anew.
unfoldable pub release_id : ℕ → M (Unit {0})
release_id id s = returns tt (record s {
  active_threads = remove id s.active_threads;
  unused_threads_id = insert id s.unused_threads_id;
})

-- The running thread ends itself: the object that holds its stack goes before the jump away from it.
unfoldable pub terminate_running : Os → ℕ → M ℤ
terminate_running os thread_to_terminate = do
  delete thread_to_terminate
  use_stack os
  code ← run_topmost_thread_in_ready_queue os
  pure success

unfoldable pub terminate_other : ℕ → ℕ → Thread → M ℤ
terminate_other tid thread_to_terminate t = do
  if is_sleeping false t then erase_sleeping thread_to_terminate else pure tt
  if is_ready t then (erase_thread_from_ready_queue tid >>= λ _. pure tt) else pure tt
  delete thread_to_terminate
  pure success

unfoldable pub terminate_found : Os → ℕ → ℕ → M ℤ
unfolding terminate_running terminate_other
terminate_found os tid thread_to_terminate = do
  release_id tid
  t ← deref thread_to_terminate
  if is_running t
      then terminate_running os thread_to_terminate
      else terminate_other tid thread_to_terminate t

unfoldable pub terminate_thread : Os → ℤ → M ℤ
unfolding terminate_found
terminate_thread os tid s = elim (find tid s) [
  | none ↦ returns failure s
  | some (id, thread) ↦ terminate_found os id thread s
]

-- `p->save_env()` at a place in the code.
unfoldable pub save_env_at : Point → ℕ → M Bool
save_env_at place p s = bind (deref p s) λ t s'. store (save_env (context_at place s) t) s'
  where
    store : Thread × Bool → M Bool
    store (t, executed_from_jump) = call p (λ _. pass t) >>= λ _. pure executed_from_jump

unfoldable pub block_and_run : Os → ℕ → M ℤ
block_and_run os thread_to_block = do
  call thread_to_block (λ t. pass (set_block t))
  code ← run_topmost_thread_in_ready_queue os
  pure success

unfoldable pub block_resumed : Os → ℕ → Bool → M ℤ
unfolding block_and_run
block_resumed os thread_to_block executed_from_jump =
    if executed_from_jump then pure success else block_and_run os thread_to_block

unfoldable pub block_running : Os → ℕ → ℕ → M ℤ
unfolding save_env_at block_resumed
block_running os tid thread_to_block = do
  λ s. assert (s.running_thread_id == tid) s
  executed_from_jump ← save_env_at in_block thread_to_block
  block_resumed os thread_to_block executed_from_jump

unfoldable pub set_blocked : ℕ → M ℤ
set_blocked thread_to_block = do call thread_to_block (λ t. pass (set_block t)); pure success

unfoldable pub block_ready : ℕ → ℕ → M ℤ
unfolding set_blocked
block_ready tid thread_to_block = do
  code ← erase_thread_from_ready_queue tid
  if eq_ℤ code success then set_blocked thread_to_block else pure failure

-- A thread that is neither running nor ready is left as it is.
unfoldable pub block_found : Os → ℕ → ℕ → M ℤ
unfolding block_running block_ready
block_found os tid thread_to_block = do
  t ← deref thread_to_block
  if is_running t
      then block_running os tid thread_to_block
      else if is_ready t
      then block_ready tid thread_to_block
      else pure success

unfoldable pub block_thread : Os → ℤ → M ℤ
unfolding block_found
block_thread os tid = do
  assert (not (eq_ℤ tid (pos 0)))
  λ s. elim (find tid s) [
    | none ↦ returns failure s
    | some (id, thread) ↦ block_found os id thread s
  ]

unfoldable pub unblock_and_push : ℕ → M ℤ
unblock_and_push thread_to_resume = do
  call thread_to_resume (λ t. pass (unblock t))
  t ← deref thread_to_resume
  if is_ready t then push_ready thread_to_resume else pure tt
  pure success

unfoldable pub resume_found : ℕ → M ℤ
unfolding unblock_and_push
resume_found thread_to_resume = do
  t ← deref thread_to_resume
  if not (is_blocked false t) then pure success else unblock_and_push thread_to_resume

unfoldable pub resume_thread : ℤ → M ℤ
unfolding resume_found
resume_thread tid s = elim (find tid s) [
  | none ↦ returns failure s
  | some (id, thread) ↦ resume_found thread s
]

unfoldable pub insert_sleeping : ℕ → M (Unit {0})
insert_sleeping p s = returns tt (record s { sleeping_threads = p ∷ erase p s.sleeping_threads })

unfoldable pub sleep_resumed : Os → Bool → M ℤ
sleep_resumed os executed_from_jump =
    if executed_from_jump
    then pure success
    else (run_topmost_thread_in_ready_queue os >>= λ _. pure success)

unfoldable pub sleep_thread : Os → ℤ → M ℤ
unfolding save_env_at sleep_resumed insert_sleeping
sleep_thread os num_quantums = do
  λ s. assert (not (s.running_thread_id == main_thread_id)) s
  running_thread ← λ s. active_at s.running_thread_id s
  call running_thread (λ t. pass (set_sleep num_quantums t))
  insert_sleeping running_thread
  executed_from_jump ← save_env_at in_sleep running_thread
  sleep_resumed os executed_from_jump

unfoldable pub handler_resumed : Os → Bool → M (Unit {0})
handler_resumed os executed_from_jump =
    if executed_from_jump then pure tt else (run_topmost_thread_in_ready_queue os >>= λ _. pure tt)

unfoldable pub internal_time_handler : Os → M (Unit {0})
unfolding save_env_at handler_resumed
internal_time_handler os = do
  running_thread ← λ s. active_at s.running_thread_id s
  call running_thread (λ t. pass (set_ready t))
  push_ready running_thread
  executed_from_jump ← save_env_at in_handler running_thread
  handler_resumed os executed_from_jump

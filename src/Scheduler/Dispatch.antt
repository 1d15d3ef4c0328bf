-- ===== src/Scheduler/Dispatch.antt =====
-- scheduler.cpp: the start of a quantum, from the sleepers' countdown to the jump into the thread at
-- the front of the ready queue.
use os_ex.Prelude.{ℕ, List, [], ◌∷◌, false, not, ℤ, if◌then◌else◌, erase}
use os_ex.Checked.{increment}
use os_ex.Thread.{Thread, is_ready, is_sleeping, set_running, update_sleep_value}
use os_ex.Machine.{Os, M, returns, pure, ◌>>=◌, ◌>>◌, lift, assert, deref, call, jump}
use os_ex.Scheduler.Threads.{
  failure, sig_unblock, change_blockage_status_sigvtalrm, init_timer_for_a_quantom, push_ready,
  active_at,
}

unfoldable pub erase_sleeping : ℕ → M (Unit {0})
erase_sleeping p s = returns tt (record s { sleeping_threads = erase p s.sleeping_threads })

-- A sleeper whose time is over leaves the set, and goes to the queue unless it is also blocked.
unfoldable pub leave_sleeping : ℕ → Thread → M (Unit {0})
leave_sleeping p cur_thread = do
  erase_sleeping p
  if is_ready cur_thread then (active_at cur_thread.id >>= push_ready) else pure tt

-- One round of the loop.
unfoldable pub update_sleeping : ℕ → M (Unit {0})
unfolding leave_sleeping
update_sleeping p = do
  call p update_sleep_value
  cur_thread ← deref p
  if not (is_sleeping false cur_thread) then leave_sleeping p cur_thread else pure tt

-- A round erases no other member than its own, so the loop meets the members that the set has at
-- its start.
unfoldable pub update_each : List ℕ → M (Unit {0})
update_each [] = pure tt
update_each (p ∷ rest) = do update_sleeping p; update_each rest

unfoldable pub update_sleeping_threads : M (Unit {0})
update_sleeping_threads s = update_each s.sleeping_threads s

unfoldable pub count_quantom : M (Unit {0})
count_quantom s =
    (lift (increment s.total_quantoms) >>= λ n s'. returns tt (record s' { total_quantoms = n })) s

-- From `set_running` on: the thread has left the queue.
unfoldable pub run_thread : Os → ℕ → M ℤ
run_thread os front_thread = do
  t ← deref front_thread
  assert (is_ready t)
  call front_thread set_running
  λ s. returns tt (record s { running_thread_id = t.id })
  code ← init_timer_for_a_quantom os
  change_blockage_status_sigvtalrm sig_unblock
  t' ← deref front_thread
  jump t'.env

unfoldable pub pop_and_run : Os → List ℕ → M ℤ
pop_and_run os [] = pure failure
pop_and_run os (front_thread ∷ rest) = do
  λ s. returns tt (record s { ready_queue = rest })
  run_thread os front_thread

unfoldable pub run_topmost_thread_in_ready_queue : Os → M ℤ
run_topmost_thread_in_ready_queue os = do
  count_quantom
  update_sleeping_threads
  λ s. pop_and_run os s.ready_queue s

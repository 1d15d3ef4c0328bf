-- ===== src/Thread/States.antt =====
-- The methods of thread.h and thread.cpp on each state of a thread.
use os_ex.Prelude.{◌≡◌, ◌≢◌, suc, ◌<◌, true, false, ℤ, is_positive, arith}
use os_ex.Checked.{pass, int_max}
use os_ex.Thread.{
  Thread, running, ready, blocked, sleeping, blocked_and_sleeping, not_sleeping, decrement,
  is_running, is_ready, is_blocked, is_sleeping, set_block, set_running, set_sleep, unblock,
  update_sleep_value,
}

module _ (t : Thread) where
  pub is_running-true : t.state ≡ running → is_running t ≡ true
  unfolding is_running
  is_running-true r = ground arith

  pub is_running-false : t.state ≢ running → is_running t ≡ false
  unfolding is_running
  is_running-false r = ground arith

  pub is_ready-true : t.state ≡ ready → is_ready t ≡ true
  unfolding is_ready
  is_ready-true r = ground arith

  pub is_ready-false : t.state ≢ ready → is_ready t ≡ false
  unfolding is_ready
  is_ready-false r = ground arith

  pub is_blocked-true : t.state ≡ blocked → is_blocked false t ≡ true
  unfolding is_blocked
  is_blocked-true r = ground arith

  pub is_blocked-false :
      t.state ≢ blocked → t.state ≢ blocked_and_sleeping → is_blocked false t ≡ false
  unfolding is_blocked
  is_blocked-false r b = ground arith

  pub is_sleeping-true : t.state ≡ sleeping → is_sleeping false t ≡ true
  unfolding is_sleeping
  is_sleeping-true r = ground arith

  pub is_sleeping-false :
      t.state ≢ sleeping → t.state ≢ blocked_and_sleeping → is_sleeping false t ≡ false
  unfolding is_sleeping
  is_sleeping-false r b = ground arith

  pub set_block_awake : t.state ≢ sleeping → set_block t ≡ record t { state = blocked }
  unfolding set_block
  set_block_awake r = ground arith

  pub set_sleep_unblocked :
      (n : ℤ)
      → t.state ≢ blocked
      → set_sleep n t ≡ record t { state = sleeping; quantoms_left_to_sleep = n }
  unfolding set_sleep
  set_sleep_unblocked n r = ground arith

  pub unblock_blocked : t.state ≡ blocked → unblock t ≡ record t { state = ready }
  unfolding unblock
  unblock_blocked r = ground arith

  pub set_running_lem :
      t.running_quantoms_num < int_max
      → set_running t
        ≡ pass (record t { state = running; running_quantoms_num = suc t.running_quantoms_num })
  unfolding set_running
  set_running_lem h = ground arith

  -- A sleeper counts down while the count is positive, and then wakes.
  pub update_sleep_value_rests :
      t.state ≡ sleeping
      → is_positive t.quantoms_left_to_sleep ≡ true
      → update_sleep_value t
        ≡ pass (record t { quantoms_left_to_sleep = decrement t.quantoms_left_to_sleep })
  unfolding update_sleep_value is_sleeping
  update_sleep_value_rests h n = ground arith

  pub update_sleep_value_wakes :
      t.state ≡ sleeping
      → is_positive t.quantoms_left_to_sleep ≡ false
      → t.quantoms_left_to_sleep ≢ not_sleeping
      → update_sleep_value t
        ≡ pass (record t { state = ready; quantoms_left_to_sleep = not_sleeping })
  unfolding update_sleep_value is_sleeping
  update_sleep_value_wakes h n m = ground arith

-- ===== src/Dispatch/Sleepers.antt =====
-- `update_sleeping_threads` of scheduler.cpp, round by round.
use os_ex.Prelude.{
  ℕ, ◌≡◌, ◌≢◌, [], ◌∷◌, ◌++◌, true, false, some, is_positive, update, lookup, erase,
}
use os_ex.Thread.{
  Thread, sleeping, ready, not_sleeping, decrement, update_sleep_value, is_sleeping, is_ready,
}
use os_ex.Thread.States.{update_sleep_value_rests, update_sleep_value_wakes, is_sleeping-true}
use os_ex.Machine.{System, returns}
use os_ex.Machine.Laws.{deref_lem, call_lem}
use os_ex.Scheduler.{update_sleeping, erase_sleeping, active_at, push_ready}
use os_ex.Invariant.{update_self}

-- A sleeper one quantum on: it counts down, or its time is over.
abbrev pub rested : Thread → Thread
rested t = record t { quantoms_left_to_sleep = decrement t.quantoms_left_to_sleep }

abbrev pub woken : Thread → Thread
woken t = record t { state = ready; quantoms_left_to_sleep = not_sleeping }

abbrev pub rest_round : System → ℕ → Thread → System
rest_round s p t = record s { heap = update s.heap p (some (rested t)) }

abbrev pub wake_round : System → ℕ → Thread → System
wake_round s p t = record s {
  heap = update s.heap p (some (woken t));
  sleeping_threads = erase p s.sleeping_threads;
  ready_queue = s.ready_queue ++ p ∷ [];
}

module _ (s : System) (p : ℕ) (t : Thread) (live : s.heap p ≡ some t)
    (asleep : t.state ≡ sleeping) where
  pub update_sleeping-rests :
      is_positive t.quantoms_left_to_sleep ≡ true
      → update_sleeping p s ≡ returns tt (rest_round s p t)
  unfolding update_sleeping
  update_sleeping-rests h =
      rw (call_lem p update_sleep_value s live (update_sleep_value_rests t asleep h)) (
        rw (deref_lem p (rest_round s p t) (update_self s.heap p (some (rested t))))
          (rw (is_sleeping-true (rested t) asleep)))

  pub update_sleeping-wakes :
      is_positive t.quantoms_left_to_sleep ≡ false
      → t.quantoms_left_to_sleep ≢ not_sleeping
      → lookup t.id s.active_threads ≡ some p
      → update_sleeping p s ≡ returns tt (wake_round s p t)
  unfolding update_sleeping is_sleeping is_ready erase_sleeping active_at push_ready
  update_sleeping-wakes h n r =
      rw (call_lem p update_sleep_value s live (update_sleep_value_wakes t asleep h n)) (
        rw
          (deref_lem p (record s { heap = update s.heap p (some (woken t)) })
            (update_self s.heap p (some (woken t))))
          (rw (r, active_at)))

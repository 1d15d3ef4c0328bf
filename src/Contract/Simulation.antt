-- ===== src/Contract/Simulation.antt =====
-- Runs of the library (uthreads.cpp) beside the runs that uthreads.h allows.
use os_ex.Prelude.{ℕ, suc, ◌<◌, ◌≡◌, ◌≢◌, Bool, true, pos}
use os_ex.Checked.{int_max}
use os_ex.Thread.{not_sleeping}
use os_ex.Machine.{System, Os, returns}
use os_ex.Scheduler.{success}
use os_ex.Uthreads.{Seen, absent, initialized, uthread_init, Call, sleep, step_call, step_tick}
use os_ex.Reachability.{Reach, start, call, tick}
use os_ex.Contract.{View, IsPlain}
use os_ex.Contract.Abstraction.{view}
use os_ex.Contract.Calls.All.{KeepsStack}

-- The states to which the library comes by ticks and by plain calls, with memory for each thread.
pub data Served : System → Type 0 where
  first :
      (os : Os) (n : ℕ) (masked : Bool) {s : System}
      → os.allocates ≡ true
      → uthread_init os (pos (suc n)) (absent masked) ≡ initialized (returns success s)
      → Served s
  called :
      (os : Os) (c : Call) {s : System} (seen : Seen) {s' : System}
      → Served s
      → s.total_quantoms < int_max
      → os.allocates ≡ true
      → KeepsStack os c s
      → IsPlain c (view s)
      → step_call os c s ≡ returns seen s'
      → Served s'
  ticked :
      (os : Os) {s : System} (seen : Seen) {s' : System}
      → Served s
      → s.total_quantoms < int_max
      → step_tick os s ≡ returns seen s'
      → Served s'

plain_sleep : (c : Call) (v : View) → IsPlain c v → c ≢ sleep not_sleeping
plain_sleep c v h e = rw e at h

pub Served-Reach : {s : System} → Served s → Reach s
Served-Reach (first os n masked a e) = start os n masked a e
Served-Reach (called os c {s} seen r lt a kept h e) =
    call os c seen (Served-Reach r) lt (plain_sleep c (view s) h) e
Served-Reach (ticked os seen r lt e) = tick os seen (Served-Reach r) lt e

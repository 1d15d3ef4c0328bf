-- ===== src/Contract/Runs.antt =====
-- Runs of steps that uthreads.h allows.
use os_ex.Prelude.{◌≡◌, some, ℤ, pos}
use os_ex.Uthreads.{Call}
use os_ex.Contract.{View, Reply, Promise, TickPromise, InitPromise, IsPlain}

-- A view that comes about after `uthread_init` by calls and ticks.
pub data Run : View → Type 0 where
  begins :
      (quantum_usecs r : ℤ) (v : View) → InitPromise quantum_usecs r (some v) → r ≡ pos 0 → Run v
  calls : (v v' : View) (c : Call) (r : Reply) → Run v → IsPlain c v → Promise c v r v' → Run v'
  ticks : (v v' : View) (r : Reply) → Run v → TickPromise v r v' → Run v'

-- ===== src/Dispatch/Start.antt =====
-- The timer of a quantum and the thread that starts it: `init_timer_for_a_quantom` and the end of
-- `run_topmost_thread_in_ready_queue` in scheduler.cpp.
use os_ex.Prelude.{
  ℕ, suc, ◌<◌, ◌≡◌, inl, inr, Bool, true, false, Option, some, if◌then◌else◌, ℤ, pos, eq_ℤ, update,
  Bool-cases,
}
use os_ex.Checked.{int_max}
use os_ex.Thread.{Thread, running, ready, set_running}
use os_ex.Thread.States.{set_running_lem, is_ready-true}
use os_ex.Machine.{System, Os, Itimerval, returns, jumps}
use os_ex.Machine.Laws.{deref_lem, call_lem}
use os_ex.Scheduler.{
  is_negative, quantum_timer, success, failure, init_timer_for_a_quantom, run_thread,
  change_blockage_status_sigvtalrm,
}
use os_ex.Invariant.{update_self}

abbrev pub handled_after : Os → System → Bool
handled_after os s = if is_negative os.sigaction then s.handled else true

abbrev pub itimer_after : Os → System → Option Itimerval
itimer_after os s =
    if is_negative os.sigaction
    then s.itimer
    else if eq_ℤ os.setitimer (pos 0)
    then some (quantum_timer s.quantum_usecs)
    else s.itimer

abbrev timer_code : Os → ℤ
timer_code os =
    if is_negative os.sigaction
    then failure
    else if eq_ℤ os.setitimer (pos 0)
    then success
    else failure

-- Whatever the two system calls answer, only the timer and its handler can change.
pub init_timer_for_a_quantom_lem :
    (os : Os) (s : System)
    → init_timer_for_a_quantom os s
      ≡ returns
          (timer_code os)
          (record s { handled = handled_after os s; itimer = itimer_after os s })
unfolding init_timer_for_a_quantom
init_timer_for_a_quantom_lem os s = elim (Bool-cases (is_negative os.sigaction)) [
  | inl h ↦ rw h
  | inr h ↦ rw h (elim (Bool-cases (eq_ℤ os.setitimer (pos 0))) [ inl k ↦ rw k | inr k ↦ rw k ])
]

-- The thread once it runs.
abbrev pub started : Thread → Thread
started t = record t { state = running; running_quantoms_num = suc t.running_quantoms_num }

abbrev pub switched : Os → System → ℕ → Thread → System
switched os s p t = record s {
  heap = update s.heap p (some (started t));
  running_thread_id = t.id;
  masked = false;
  handled = handled_after os s;
  itimer = itimer_after os s;
}

pub run_thread_lem :
    (os : Os) (s : System) (p : ℕ) (t : Thread)
    → s.heap p ≡ some t
    → t.state ≡ ready
    → t.running_quantoms_num < int_max
    → run_thread os p s ≡ jumps t.env (switched os s p t)
unfolding run_thread change_blockage_status_sigvtalrm
run_thread_lem os s p t live h lt = rw (deref_lem p s live) (
    rw (is_ready-true t h) (
      rw (call_lem p set_running s live (set_running_lem t lt)) (
        rw (init_timer_for_a_quantom_lem os)
          (rw (deref_lem p (switched os s p t) (update_self s.heap p (some (started t))))))))

-- ===== src/Behaviour/Timer.antt =====
-- `init_timer_for_a_quantom` of scheduler.cpp.
use os_ex.Prelude.{
  ℤ, true, false, inl, inr, ◌+◌, ◌*◌, ◌<◌, ◌≡◌, ◌≢◌, refl, some, pos, eq_ℤ, Bool-cases, arith,
}
use os_ex.Machine.{System, Os, returns, Itimerval}
use os_ex.Scheduler.{init_timer_for_a_quantom, success, failure, quantum_timer, is_negative}

-- What the call comes to, by what `sigaction` and `setitimer` return.
pub data Sets (os : Os) (s : System) (code : ℤ) (s' : System) : Type 0 where
  unhandled : is_negative os.sigaction ≡ true → code ≡ failure → s' ≡ s → Sets os s code s'
  untimed :
      is_negative os.sigaction ≡ false
      → os.setitimer ≢ pos 0
      → code ≡ failure
      → s' ≡ record s { handled = true }
      → Sets os s code s'
  timed :
      (timer : Itimerval)
      → is_negative os.sigaction ≡ false
      → os.setitimer ≡ pos 0
      → code ≡ success
      → s' ≡ record s { handled = true; itimer = some timer }
      → timer.value_sec * 1000000 + timer.value_usec ≡ s.quantum_usecs
      → timer.value_usec < 1000000
      → timer.interval_sec ≡ 0
      → timer.interval_usec ≡ 0
      → Sets os s code s'

eq_ℤ-cases : (n : ℤ) → eq_ℤ n (pos 0) ≡ true → n ≡ pos 0
eq_ℤ-cases n h = ground arith

-- `init_timer_for_a_quantom` returns. Where `sigaction` is negative it returns -1 and changes
-- nothing; where `setitimer` then is not 0 it returns -1 with the handler installed and nothing
-- else changed; else it returns 0 with the handler installed, nothing else changed, and a timer
-- whose seconds, a million microseconds each, and microseconds add up to `_quantum_usecs`, with
-- fewer than a million microseconds, and which does not repeat.
pub timer_set :
    (os : Os) (s : System)
    → (code : ℤ) × (s' : System) × (init_timer_for_a_quantom os s ≡ returns code s')
      × Sets os s code s'
unfolding init_timer_for_a_quantom
timer_set os s = elim (Bool-cases (is_negative os.sigaction)) [
  | inl h ↦ (failure, s, rw h refl, Sets.unhandled h refl refl)
  | inr h ↦ elim (Bool-cases (eq_ℤ os.setitimer (pos 0))) [
    | inl k ↦ (
      success,
      record s { handled = true; itimer = some (quantum_timer s.quantum_usecs) },
      rw h (rw k refl),
      Sets.timed (quantum_timer s.quantum_usecs) h (eq_ℤ-cases os.setitimer k) refl refl
          (omega arith) (omega arith) refl refl,
    )
    | inr k ↦ (
      failure,
      record s { handled = true },
      rw h (rw k refl),
      Sets.untimed h (λ e. cc (rw e at k)) refl refl,
    )
  ]
]

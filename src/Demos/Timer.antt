-- ===== src/Demos/Timer.antt =====
-- demos/demo_itimer.c: a flag that the handler of the timer's signal sets and the loop clears. The
-- signal comes between two of the loop's three statements.
pub mod Flag
use os_ex.Prelude.{
  ℕ, zero, suc, ◌+◌, List, [], ◌∷◌, ◌++◌, Option, none, some, Bool, true, false, ℤ, pos, negsuc,
  not, eq_ℤ, ◌==◌, if◌then◌else◌,
}

pub data Line : Type 0 where
  timer_expired got_it sigaction_error setitimer_error : Line

-- `struct itimerval`.
pub record Itimer : Type 0 where
  pub value_sec : ℕ
  pub value_usec : ℕ
  pub interval_sec : ℕ
  pub interval_usec : ℕ

-- The statement of the loop that comes next.
pub data Place : Type 0 where
  at_test at_print at_clear : Place

pub record Process : Type 0 where
  pub gotit : ℕ
  pub place : Place
  pub handled : Bool
  pub timer : Option Itimer
  pub printed : List Line

abbrev pub print : Line → Process → Process
print line p = record p { printed = p.printed ++ line ∷ [] }

-- `timer_handler`.
unfoldable pub timer_handler : Process → Process
timer_handler p = print timer_expired (record p { gotit = 1 })

-- `sigaction(SIGVTALRM, &sa, NULL)`, by its answer.
abbrev install : ℤ → Process → Process
install (pos n) p = record p { handled = true }
install (negsuc n) p = print sigaction_error p

abbrev pub seconds : Itimer
seconds = record { value_sec = 1; value_usec = 0; interval_sec = 3; interval_usec = 0 }

-- `setitimer(ITIMER_VIRTUAL, &timer, NULL)`, by its answer.
abbrev set_timer : ℤ → Process → Process
set_timer answer p =
    if eq_ℤ answer (pos 0) then record p { timer = some seconds } else print setitimer_error p

-- `main` up to its loop.
unfoldable pub main : ℤ → ℤ → Process
main sigaction setitimer = set_timer setitimer (
    install sigaction
      (record { gotit = 0; place = at_test; handled = false; timer = none; printed = [] }))

-- One statement of the loop.
unfoldable pub loop_step : Process → Process
loop_step p = elim p.place [
  | at_test ↦ if p.gotit == 0 then p else record p { place = at_print }
  | at_print ↦ print got_it (record p { place = at_clear })
  | at_clear ↦ record p { gotit = 0; place = at_test }
]

pub data Event : Type 0 where
  statement expiry : Event

-- A signal with no handler ends the process.
unfoldable pub step : Event → Process → Option Process
unfolding timer_handler loop_step
step statement p = some (loop_step p)
step expiry p = if p.handled then some (timer_handler p) else none

unfoldable pub run : List Event → Process → Option Process
unfolding step
run [] p = some p
run (e ∷ es) p = elim (step e p) [ none ↦ none | some p' ↦ run es p' ]

-- ===== src/Examples/Samples.antt =====
-- The programs of demos on concrete inputs.
use os_ex.Prelude.{false, ◌+◌, ◌≤◌, ◌≡◌, refl, List, [], ◌∷◌, some, true, pos, negsuc, arith}
use os_ex.Checked.{pass, ◌>>=◌}
use os_ex.Demos.Jump as Jump
use os_ex.Demos.Jump.{Symbols, Demo, start, counted, yielding, yield_returned}
use os_ex.Demos.Jump.Turns.{IsGood, top_of}
use os_ex.Demos.Jump.Simulation.{counted_up, transcript, run-transcript}
use os_ex.Demos.Timer as Timer
use os_ex.Demos.Timer.Flag.{
  is_expired, is_got, tally, expiries, due, answers_bounded, statements, expiries_then,
  expired_lines, expiries-answered, expiries-lost,
}
use os_ex.Demos.Interrupt as Interrupt
use os_ex.Demos.Interrupt.Output.{interrupts, times, interrupts-shown, Reports, error-not_shown}

abbrev symbols : Symbols
symbols = record {
  thread0 = 4198880;
  thread1 = 4198972;
  in_yield = 4198790;
  stack0 = 6295744;
  stack1 = 6299840;
  guard = 0x5ca1ab1e0ddba11;
}

symbols-IsGood : IsGood symbols
symbols-IsGood = record {
  entries_apart = λ e. omega (arith, e);
  yield_apart0 = λ e. omega (arith, e);
  yield_apart1 = λ e. omega (arith, e);
  stacks_apart = λ e. omega (arith, e);
  thread0_fits = omega arith;
  thread1_fits = omega arith;
  yield_fits = omega arith;
  guard_fits = omega arith;
  stack0_fits = omega arith;
  stack1_fits = omega arith;
}

run-transcript_example :
    (d : Demo) × ((start symbols >>= Jump.run symbols 16) ≡ pass d)
    × (d.printed ≡ transcript 2)
    × (d.current_thread ≡ pos 0)
    × (d.sp ≡ top_of symbols 0)
run-transcript_example = run-transcript symbols-IsGood 2 (omega arith)

-- The first lines.
transcript_1 :
    transcript 1
    ≡ counted 0 1
      ∷ counted 0 2
      ∷ counted 0 3
      ∷ yielding 0
      ∷ yield_returned 0
      ∷ counted 1 1
      ∷ counted 1 2
      ∷ counted 1 3
      ∷ counted 1 4
      ∷ counted 1 5
      ∷ yielding 1
      ∷ yield_returned 0
      ∷ yield_returned 1
      ∷ []
unfolding transcript counted_up
transcript_1 = refl

abbrev events : List Timer.Event
events =
    Timer.statement ∷ Timer.expiry ∷ Timer.statement ∷ Timer.statement ∷ Timer.expiry
    ∷ Timer.statement ∷ []

answers_bounded_example :
    (p : Timer.Process) × (Timer.run events (Timer.main (pos 0) (pos 0)) ≡ some p)
    × (tally is_expired p.printed ≡ 2)
    × (tally is_got p.printed + due p ≤ 2)
unfolding expiries
answers_bounded_example = answers_bounded 0 (pos 0) events

abbrev process : Timer.Place → Timer.Process
process place = record {
  gotit = 0;
  place = place;
  handled = true;
  timer = some Timer.seconds;
  printed = [];
}

expiries-answered_example :
    Timer.run (expiries_then 2 (statements 3)) (process Timer.at_test)
    ≡ some (record (process Timer.at_test) {
      printed = Timer.timer_expired ∷ Timer.timer_expired ∷ Timer.got_it ∷ [];
    })
unfolding expired_lines
expiries-answered_example = expiries-answered 1 (process Timer.at_test) refl refl

expiries-lost_example :
    Timer.run (expiries_then 1 (statements 9)) (record (process Timer.at_clear) { gotit = 1 })
    ≡ some (record (process Timer.at_test) { printed = Timer.timer_expired ∷ [] })
unfolding expired_lines
expiries-lost_example = expiries-lost 0 8 (record (process Timer.at_clear) { gotit = 1 }) refl refl

abbrev keys : List Interrupt.Event
keys = Interrupt.statement ∷ Interrupt.interrupt ∷ Interrupt.statement ∷ Interrupt.interrupt ∷ []

interrupts-shown_example :
    Reports
      (Interrupt.caught ∷ [])
      []
      true
      (Interrupt.run true keys (Interrupt.main true true (pos 0)))
unfolding interrupts times
interrupts-shown_example = interrupts-shown true true 0 keys

error-not_shown_example :
    Reports []
      (Interrupt.sigaction_error ∷ [])
      true
      (Interrupt.run true keys (Interrupt.main true false (negsuc 0)))
unfolding interrupts
error-not_shown_example = error-not_shown true false 0 keys

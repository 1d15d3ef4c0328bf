-- ===== src/Demos/Interrupt/Output.antt =====
-- demos/demo_singInt_handler.c: what it shows.
use os_ex.Prelude.{
  ℕ, zero, suc, ◌≡◌, refl, ◌∙◌, ap, List, [], ◌∷◌, ◌++◌, Bool, true, false, pos, negsuc, arith,
  ◌==◌, ◌&&◌, not, ltb, sym,
}
use mathlib.Core.List.{append-nil, append_assoc}
use os_ex.Demos.Interrupt.{
  Text, caught, sigaction_error, Stdout, catch_int, main, Event, statement, interrupt, Outcome,
  goes_on, ended, step, run,
}

unfoldable pub interrupts : List Event → ℕ
interrupts [] = 0
interrupts (statement ∷ es) = interrupts es
interrupts (interrupt ∷ es) = suc (interrupts es)

unfoldable pub times : ℕ → List Text
times zero = []
times (suc n) = caught ∷ times n

catch_int-shows :
    (terminal : Bool) (shown : List Text)
    → catch_int terminal (record { buffer = []; shown = shown })
      ≡ record { buffer = []; shown = shown ++ caught ∷ [] }
unfolding catch_int
catch_int-shows true shown =
    ap (λ s. record { buffer = []; shown = s }) (append-nil (shown ++ caught ∷ []))
catch_int-shows false shown = refl

abbrev pub shown_of : Outcome → List Text
shown_of (goes_on p) = p.out.shown
shown_of (ended out) = out.shown

abbrev pub buffer_of : Outcome → List Text
buffer_of (goes_on p) = p.out.buffer
buffer_of (ended out) = out.buffer

abbrev pub is_ended : Outcome → Bool
is_ended (goes_on p) = false
is_ended (ended out) = true

-- What is written, what waits in the buffer, and whether the process has ended.
pub record Reports (shown buffer : List Text) (over : Bool) (o : Outcome) : Type 0 where
  pub written : shown_of o ≡ shown
  pub waiting : buffer_of o ≡ buffer
  pub finished : is_ended o ≡ over

unhandled-ends :
    (terminal : Bool) (es : List Event) (resets paused : Bool) (out : Stdout)
    → Reports out.shown out.buffer
        (not (interrupts es == 0))
        (run terminal es (record { handled = false; resets = resets; paused = paused; out = out }))
unfolding run step interrupts
unhandled-ends terminal [] resets paused out = record {
  written = refl;
  waiting = refl;
  finished = refl;
}
unhandled-ends terminal (statement ∷ es) resets paused out =
    unhandled-ends terminal es resets true out
unhandled-ends terminal (interrupt ∷ es) resets paused out = record {
  written = refl;
  waiting = refl;
  finished = ground arith;
}

-- The lines that the handler writes, and whether it is gone at the last interrupt.
abbrev pub handled_times : Bool → ℕ → ℕ
handled_times false n = n
handled_times true zero = 0
handled_times true (suc n) = 1

handled-Reports :
    (terminal : Bool) (es : List Event) (resets paused : Bool) (shown : List Text)
    → Reports
        (shown ++ times (handled_times resets (interrupts es)))
        []
        (resets && ltb 1 (interrupts es))
        (run terminal es (record {
          handled = true;
          resets = resets;
          paused = paused;
          out = record { buffer = []; shown = shown };
        }))
unfolding run step interrupts times
handled-Reports terminal [] true paused shown = record {
  written = sym (append-nil shown);
  waiting = refl;
  finished = refl;
}
handled-Reports terminal [] false paused shown = record {
  written = sym (append-nil shown);
  waiting = refl;
  finished = refl;
}
handled-Reports terminal (statement ∷ es) resets paused shown =
    handled-Reports terminal es resets true shown
handled-Reports terminal (interrupt ∷ es) true paused shown = rw (catch_int-shows terminal shown) (
    let w =
      unhandled-ends terminal es true false
        (record { buffer = []; shown = shown ++ caught ∷ [] }) in
    record { written = w.written; waiting = w.waiting; finished = w.finished ∙ ground arith })
handled-Reports terminal (interrupt ∷ es) false paused shown = rw (catch_int-shows terminal shown) (
    let w = handled-Reports terminal es false false (shown ++ caught ∷ []) in
    record {
      written = w.written ∙ append_assoc shown (caught ∷ []) (times (interrupts es));
      waiting = w.waiting;
      finished = w.finished;
    })

-- In demo_singInt_handler.c with its handler installed, on a terminal or not, take any order of
-- calls of `pause` and interrupts. Where the flags of the uninitialised `sa` do not have
-- SA_RESETHAND, the process goes on and has written one line for each interrupt; where they have
-- it, it has written one line if there was an interrupt, and the second one ends the process.
-- Nothing waits in the buffer.
pub interrupts-shown :
    (terminal sa_resethand : Bool) (n : ℕ) (es : List Event)
    → Reports
        (times (handled_times sa_resethand (interrupts es)))
        []
        (sa_resethand && ltb 1 (interrupts es))
        (run terminal es (main terminal sa_resethand (pos n)))
unfolding main
interrupts-shown terminal sa_resethand n es = handled-Reports terminal es sa_resethand false []

-- In demo_singInt_handler.c after `sigaction` has failed, on a terminal or not, nothing is ever
-- written, the message of the error stays in the buffer, and the process has ended just if there
-- was an interrupt.
pub error-not_shown :
    (terminal sa_resethand : Bool) (n : ℕ) (es : List Event)
    → Reports []
        (sigaction_error ∷ [])
        (not (interrupts es == 0))
        (run terminal es (main terminal sa_resethand (negsuc n)))
unfolding main
error-not_shown true sa_resethand n es =
    unhandled-ends true es false false (record { buffer = sigaction_error ∷ []; shown = [] })
error-not_shown false sa_resethand n es =
    unhandled-ends false es false false (record { buffer = sigaction_error ∷ []; shown = [] })

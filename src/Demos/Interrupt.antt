-- ===== src/Demos/Interrupt.antt =====
-- demos/demo_singInt_handler.c: a handler for SIGINT, with the buffer of stdout that it flushes.
pub mod Output
use os_ex.Prelude.{List, [], ◌∷◌, ◌++◌, Bool, true, false, ℤ, pos, negsuc, ◌&&◌, not, if◌then◌else◌}

pub data Text : Type 0 where
  caught sigaction_error : Text

abbrev pub ends_line : Text → Bool
ends_line caught = true
ends_line sigaction_error = false

-- stdout: the texts that wait in its buffer, and those that are written.
pub record Stdout : Type 0 where
  pub buffer : List Text
  pub shown : List Text

-- Whether stdout is a terminal, where the end of a line writes the buffer.
abbrev pub printf : Bool → Text → Stdout → Stdout
printf terminal text out =
    let buffer = out.buffer ++ text ∷ [] in
    if terminal && ends_line text
    then record { buffer = []; shown = out.shown ++ buffer }
    else record out { buffer = buffer }

abbrev pub fflush : Stdout → Stdout
fflush out = record { buffer = []; shown = out.shown ++ out.buffer }

-- `paused` holds inside `pause`. `resets` holds where the action of SIGINT has SA_RESETHAND, so that
-- the default action comes back when the signal is handled.
pub record Process : Type 0 where
  pub handled : Bool
  pub resets : Bool
  pub paused : Bool
  pub out : Stdout

unfoldable pub catch_int : Bool → Stdout → Stdout
catch_int terminal out = fflush (printf terminal caught out)

-- `main` up to its loop, by the answer of `sigaction`. `sa` is not initialised: whether `sa_flags` has
-- SA_RESETHAND is a parameter. Its other flags and `sa_mask` change nothing where no signal comes
-- inside the handler.
unfoldable pub main : Bool → Bool → ℤ → Process
main terminal sa_resethand (pos n) = record {
  handled = true;
  resets = sa_resethand;
  paused = false;
  out = record { buffer = []; shown = [] };
}
main terminal sa_resethand (negsuc n) = record {
  handled = false;
  resets = false;
  paused = false;
  out = printf terminal sigaction_error (record { buffer = []; shown = [] });
}

pub data Event : Type 0 where
  statement interrupt : Event

-- A process that a signal ends leaves its buffer unwritten.
pub data Outcome : Type 0 where
  goes_on : Process → Outcome
  ended : Stdout → Outcome

-- The loop calls `pause`, which returns when a signal has been handled.
unfoldable pub step : Bool → Event → Process → Outcome
unfolding catch_int
step terminal statement p = goes_on (record p { paused = true })
step terminal interrupt p =
    if p.handled
    then goes_on
        (record p { handled = not p.resets; paused = false; out = catch_int terminal p.out })
    else ended p.out

unfoldable pub run : Bool → List Event → Process → Outcome
unfolding step
run terminal [] p = goes_on p
run terminal (e ∷ es) p = elim (step terminal e p) [
  | goes_on p' ↦ run terminal es p'
  | ended out ↦ ended out
]

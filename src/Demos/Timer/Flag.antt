-- ===== src/Demos/Timer/Flag.antt =====
-- demos/demo_itimer.c: the answers to the timer's signal.
use os_ex.Prelude.{
  ℕ, zero, suc, ◌+◌, ◌≤◌, ◌≡◌, refl, ap, ◌∙◌, List, [], ◌∷◌, ◌++◌, some, Bool, true, false, ℤ, pos,
  of_bool, ◌==◌, arith, not,
}
use mathlib.Core.List.{append_assoc}
use os_ex.Demos.Timer.{
  Line, timer_expired, got_it, at_test, at_print, at_clear, Process, timer_handler, main, loop_step,
  Event, statement, expiry, step, run,
}

-- The number of lines of each kind.
abbrev pub is_expired : Line → Bool
is_expired timer_expired = true
is_expired line = false

abbrev pub is_got : Line → Bool
is_got got_it = true
is_got line = false

unfoldable pub tally : (Line → Bool) → List Line → ℕ
tally f [] = 0
tally f (x ∷ xs) = of_bool (f x) + tally f xs

tally-snoc :
    (f : Line → Bool) (xs : List Line) (y : Line)
    → tally f (xs ++ y ∷ []) ≡ tally f xs + of_bool (f y)
unfolding tally
tally-snoc f [] y = omega arith
tally-snoc f (x ∷ xs) y = omega (arith, tally-snoc f xs y)

unfoldable pub expiries : List Event → ℕ
expiries [] = 0
expiries (statement ∷ es) = expiries es
expiries (expiry ∷ es) = suc (expiries es)

expiries-cons : (e : Event) (es : List Event) → expiries (e ∷ es) ≡ expiries (e ∷ []) + expiries es
unfolding expiries
expiries-cons statement es = omega arith
expiries-cons expiry es = omega arith

-- An answer that is due: the flag is seen at the test, or the answer comes next.
abbrev pub due : Process → ℕ
due p = elim p.place [ at_test ↦ of_bool (not (p.gotit == 0)) | at_print ↦ 1 | at_clear ↦ 0 ]

-- The answers that are due and the lines after one event.
step_lem :
    (e : Event) (p : Process)
    → p.handled ≡ true
    → (p' : Process) × (step e p ≡ some p')
      × (p'.handled ≡ true)
      × (tally is_expired p'.printed ≡ expiries (e ∷ []) + tally is_expired p.printed)
      × (tally is_got p'.printed + due p' ≤ expiries (e ∷ []) + (tally is_got p.printed + due p))
unfolding step loop_step timer_handler expiries
step_lem statement p h =
    let a = tally-snoc is_expired p.printed got_it in
    let b = tally-snoc is_got p.printed got_it in
    (loop_step p, refl, ground arith, ground (arith, a), ground (arith, b))
step_lem expiry p h =
    let a = tally-snoc is_expired p.printed timer_expired in
    let b = tally-snoc is_got p.printed timer_expired in
    (timer_handler p, rw h refl, h, omega (arith, a), ground (arith, b))

run-cons :
    (e : Event) (es : List Event) (p : Process) {p' : Process}
    → step e p ≡ some p'
    → run (e ∷ es) p ≡ run es p'
unfolding run
run-cons e es p h = rw (run, h) refl

run_lem :
    (es : List Event) (p : Process)
    → p.handled ≡ true
    → (p' : Process) × (run es p ≡ some p')
      × (p'.handled ≡ true)
      × (tally is_expired p'.printed ≡ expiries es + tally is_expired p.printed)
      × (tally is_got p'.printed + due p' ≤ expiries es + (tally is_got p.printed + due p))
unfolding run expiries
run_lem [] p h = (p, refl, h, omega arith, omega arith)
run_lem (e ∷ es) p h =
    let (p1, r1, h1, a1, b1) = step_lem e p h in
    let (p2, r2, h2, a2, b2) = run_lem es p1 h1 in
    let c = expiries-cons e es in
    (p2, run-cons e es p r1 ∙ r2, h2, omega (arith, c, a1, a2), omega (arith, c, b1, b2))

main_lem :
    (n : ℕ) (setitimer : ℤ)
    → ((main (pos n) setitimer).handled ≡ true)
      × (tally is_expired (main (pos n) setitimer).printed ≡ 0)
      × (tally is_got (main (pos n) setitimer).printed ≡ 0)
      × (due (main (pos n) setitimer) ≡ 0)
unfolding main tally
main_lem n setitimer = (ground arith, ground arith, ground arith, ground arith)

-- In demo_itimer.c with its handler installed, over any order of statements of the loop and
-- signals of the timer, the process goes on, there is one line `Timer expired` for each signal,
-- and the lines `Got it!` with the answer that is due are at most the signals.
pub answers_bounded :
    (n : ℕ) (setitimer : ℤ) (es : List Event)
    → (p : Process) × (run es (main (pos n) setitimer) ≡ some p)
      × (tally is_expired p.printed ≡ expiries es)
      × (tally is_got p.printed + due p ≤ expiries es)
answers_bounded n setitimer es =
    let (h, a, b, c) = main_lem n setitimer in
    let (p, r, h', a', b') = run_lem es (main (pos n) setitimer) h in
    (p, r, omega (arith, a, a'), omega (arith, b, c, b'))

-- `n` expiries and then `k` statements.
unfoldable pub statements : ℕ → List Event
statements zero = []
statements (suc k) = statement ∷ statements k

unfoldable pub expiries_then : ℕ → List Event → List Event
expiries_then zero es = es
expiries_then (suc n) es = expiry ∷ expiries_then n es

unfoldable pub expired_lines : ℕ → List Line
expired_lines zero = []
expired_lines (suc n) = timer_expired ∷ expired_lines n

expiry_lem : (p : Process) → p.handled ≡ true → step expiry p ≡ some (timer_handler p)
unfolding step
expiry_lem p h = rw h refl

-- One or more expiries where the flag is set, or is set by the first.
expiries_lem :
    (n : ℕ) (es : List Event) (p : Process)
    → p.handled ≡ true
    → run (expiries_then (suc n) es) p
      ≡ run es (record p { gotit = 1; printed = p.printed ++ expired_lines (suc n) })
unfolding run timer_handler expiries_then expired_lines
expiries_lem zero es p h = run-cons expiry es p (expiry_lem p h)
expiries_lem (suc n) es p h =
    run-cons expiry (expiries_then (suc n) es) p (expiry_lem p h)
    ∙ (expiries_lem n es (timer_handler p) h
        ∙ rw (append_assoc p.printed (timer_expired ∷ []) (expired_lines (suc n))) refl)

-- In demo_itimer.c with its handler installed and the test of `gotit` next, one or more signals
-- of the timer are answered by one `Got it!` in the next three statements, after which `gotit` is
-- 0 and the test is next.
pub expiries-answered :
    (n : ℕ) (p : Process)
    → p.handled ≡ true
    → p.place ≡ at_test
    → run (expiries_then (suc n) (statements 3)) p
      ≡ some (record p { gotit = 0; printed = p.printed ++ expired_lines (suc n) ++ got_it ∷ [] })
unfolding run step loop_step statements
expiries-answered n p h k =
    expiries_lem n (statements 3) p h
    ∙ rw k (rw (append_assoc p.printed (expired_lines (suc n)) (got_it ∷ [])) refl)

idle_step : (p : Process) → p.gotit ≡ 0 → p.place ≡ at_test → loop_step p ≡ p
unfolding loop_step
idle_step p g h = ground arith

-- With the flag clear the loop goes round.
idle : (k : ℕ) (p : Process) → p.gotit ≡ 0 → p.place ≡ at_test → run (statements k) p ≡ some p
unfolding run step statements
idle zero p g h = refl
idle (suc k) p g h = run-cons statement (statements k) p (ap some (idle_step p g h)) ∙ idle k p g h

-- In demo_itimer.c with its handler installed and the statement `gotit = 0` next, signals of the
-- timer that come now are not answered: however long the loop then runs with no other signal, it
-- prints no `Got it!`.
pub expiries-lost :
    (n k : ℕ) (p : Process)
    → p.handled ≡ true
    → p.place ≡ at_clear
    → run (expiries_then (suc n) (statements (suc k))) p
      ≡ some (record p { gotit = 0; place = at_test; printed = p.printed ++ expired_lines (suc n) })
unfolding run step loop_step statements
expiries-lost n k p h c =
    expiries_lem n (statements (suc k)) p h
    ∙ rw c (
        idle k
          (record p { gotit = 0; place = at_test; printed = p.printed ++ expired_lines (suc n) })
          refl refl)

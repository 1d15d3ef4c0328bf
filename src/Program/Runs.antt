-- ===== src/Program/Runs.antt =====
-- main.cpp from the start of `main`, for any order of its statements and the timer's signals.
use os_ex.Prelude.{
  ◌≤◌, ℕ, suc, ◌+◌, ◌<◌, ◌≡◌, ◌≢◌, refl, sym, subst, List, [], ◌∷◌, none, Bool, true, false, arith,
  if◌then◌else◌, length,
}
use os_ex.Checked.{int_max}
use os_ex.Machine.{Os, Result, returns, jumps, exits, aborts, bind}
use os_ex.Safety.{initial, uthread_init_lem, initial-IsValid}
use os_ex.Program.Places.{place_of}
use os_ex.Program.Frames.{main_frame-Sound}
use os_ex.Program.Lines.{main_lines, numbered, AreApart}
use os_ex.Program.Owned.{main_frame-Own}
use os_ex.Program.Rising.{main_frame-Spawning}
use os_ex.Program.Good.{scene, Resumes, Good, few_threads}
use os_ex.Program.Landed.{IsFine, has_memory}
use os_ex.Program.Safe.{step_Fine}
use os_ex.Program.{Process, Event, step, run, start, first_frame}

abbrev pub all_have_memory : List Event → Bool
all_have_memory [] = true
all_have_memory (e ∷ es) = if has_memory e then all_have_memory es else false

IsFine-lack :
    (k : ℕ) (e : Event) (es : List Event) (r : Result Process (Unit {0}))
    → IsFine k (all_have_memory es) r
    → IsFine k (all_have_memory (e ∷ es)) r
IsFine-lack k e es (returns u p) h = h
IsFine-lack k e es (jumps c p) h = h
IsFine-lack k e es (exits n p) (h, a) = (h, ground (arith, a))
IsFine-lack k e es (aborts x) h = h

run_Fine :
    (es : List Event) (k : ℕ) (p : Process)
    → Good k p
    → k + length es + 301 < int_max
    → IsFine (k + length es) (all_have_memory es) (run es p)
unfolding run
run_Fine [] k p g h = subst (λ n. Good n p) (omega arith) g
run_Fine (e ∷ es) k p g h = go (step e p) refl (step_Fine k p g (omega (arith, h)) e) (run_Fine es)
  where
    go :
        (r : Result Process (Unit {0}))
        → step e p ≡ r
        → IsFine (suc k) (has_memory e) r
        → ((k : ℕ) (p : Process)
            → Good k p
            → k + length es + 301 < int_max
            → IsFine (k + length es) (all_have_memory es) (run es p))
        → IsFine (k + length (e ∷ es)) (all_have_memory (e ∷ es)) (bind r (λ _ p'. run es p'))
    go (returns u p') eq g' rec =
        let same : suc k + length es ≡ k + length (e ∷ es) = omega arith in
        IsFine-lack (k + length (e ∷ es)) e es (run es p') (
          subst (λ n. IsFine n (all_have_memory es) (run es p')) same
            (rec (suc k) p' g' (omega (arith, h))))
    go (jumps c p') eq g' rec = absurd g'
    go (exits n p') eq (g', a) rec = (g', ground (arith, a))
    go (aborts x) eq g' rec = absurd g'

first_Good : (os : Os) → Good 0 (first_frame (initial os 100000 false))
first_Good os = record {
  valid = initial-IsValid os 100000;
  early = omega arith;
  main = refl;
  told = record { count_up = refl; apart = tt };
  active = (main_frame-Sound, main_frame-Own, main_frame-Spawning);
  others = λ q n.
      subst (λ o. Resumes (scene 0 [] first.system) q (place_of o) (first.frames q))
        (sym (nobody q n)) tt;
}
  where
    first : Process
    first = first_frame (initial os 100000 false)

    nobody : (q : ℕ) → q ≢ 1 → (initial os 100000 false).heap q ≡ none
    nobody q n = ground (arith, n)

start_lem :
    (os : Os) → os.allocates ≡ true → start os ≡ returns tt (first_frame (initial os 100000 false))
unfolding start
start_lem os a = rw (uthread_init_lem os 99999 false a)

-- From the start of main.cpp with memory for the main thread's object, any order of statements of
-- the running thread and signals of the timer, as many in all as leave 302 of the ints, meets no
-- fault, whatever the operating system answers. The program goes on: the scheduler is in a valid
-- state, the running thread has its locals and what is left of its round, and every thread that
-- waits has what it needs where it goes on, an entry point of main.cpp, a round cut by a signal,
-- or one that waits for a call's result; `i` and `j` of every thread are at most the number of
-- steps plus 1 and plus 300. Or it exits with code 1, which it does only where a statement found
-- no memory.
pub run-IsFine :
    (os : Os) (es : List Event)
    → os.allocates ≡ true
    → length es + 301 < int_max
    → IsFine (length es) (all_have_memory es) (bind (start os) (λ _ p. run es p))
run-IsFine os es a h = rw (start_lem os a) (
    subst (λ n. IsFine n (all_have_memory es) (run es (first_frame (initial os 100000 false))))
      (omega arith) (run_Fine es 0 _ (first_Good os) (omega (arith, h))))

-- With memory throughout the process goes on.
runs_on :
    (os : Os) (es : List Event)
    → os.allocates ≡ true
    → all_have_memory es ≡ true
    → length es + 301 < int_max
    → (p : Process) × (bind (start os) (λ _ p. run es p) ≡ returns tt p) × Good (length es) p
runs_on os es a m h = go (bind (start os) (λ _ p. run es p)) (run-IsFine os es a h)
  where
    go :
        (r : Result Process (Unit {0}))
        → IsFine (length es) (all_have_memory es) r
        → (p : Process) × (r ≡ returns tt p) × Good (length es) p
    go (returns u p) g = (p, refl, g)
    go (jumps c p) g = absurd g
    go (exits n p) (e, lack) = absurd (cc (m, lack))
    go (aborts e) g = absurd g

-- From the start of main.cpp with memory for the main thread's object, any order of statements of
-- the running thread, none of which finds no memory, and signals of the timer, as many in all as
-- leave 302 of the ints, runs to its end. The lines of the main thread's loop, in the order in
-- which they are printed, then show the id 0 and for `j` the numbers 100, 101, 102 and so on, and
-- no line of the other two loops shows the id 0.
pub main_prints :
    (os : Os) (es : List Event)
    → os.allocates ≡ true
    → all_have_memory es ≡ true
    → length es + 301 < int_max
    → (p : Process) × (bind (start os) (λ _ p. run es p) ≡ returns tt p)
      × (main_lines p.printed ≡ numbered (length (main_lines p.printed)) 100)
      × AreApart p.printed
main_prints os es a m h =
    let (p, runs, g) = runs_on os es a m h in (p, runs, g.told.count_up, g.told.apart)

-- From the start of main.cpp with memory for the main thread's object, any order of statements of
-- the running thread, none of which finds no memory, and signals of the timer, as many in all as
-- leave 302 of the ints, runs to its end, and the scheduler then has at most three threads, so
-- that the limit of threads is never met.
pub main_starts :
    (os : Os) (es : List Event)
    → os.allocates ≡ true
    → all_have_memory es ≡ true
    → length es + 301 < int_max
    → (p : Process) × (bind (start os) (λ _ p. run es p) ≡ returns tt p)
      × (length p.system.active_threads ≤ 3)
main_starts os es a m h =
    let (p, runs, g) = runs_on os es a m h in (p, runs, few_threads (length es) p g)

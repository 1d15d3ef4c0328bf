-- ===== src/Sample/Effects.antt =====
-- The calls by which the programs of main.cpp change the library.
use os_ex.Prelude.{ℕ, suc, ◌+◌, ◌≤◌, ◌≡◌, refl, ap, ◌∙◌, List, [], ◌∷◌, ◌++◌, pos, length, arith}
use os_ex.Checked.{pass, int_max}
use os_ex.Uthreads.{Call, spawn, block, resume, sleep}
use os_ex.Sample.{
  Loop, main_loop, thread1_loop, thread2_loop, Print, quantums, Readings, Effect, initializes,
  prints, says, calls, flushes, body, bodies, main, thread1, main_calls, thread1_calls,
  thread2_calls, calls_at, also, thread1_entry, thread2_entry, main_start, thread1_start,
}
use os_ex.Sample.Rounds.{IsSteady, IsRising, rounds-IsRising, has, has_above, calls_at-main_calls}

unfoldable pub calls_of : List Effect → List Call
calls_of [] = []
calls_of (calls c ∷ es) = c ∷ calls_of es
calls_of (initializes n ∷ es) = calls_of es
calls_of (prints loop p ∷ es) = calls_of es
calls_of (says m ∷ es) = calls_of es
calls_of (flushes ∷ es) = calls_of es

calls_of-append : (xs ys : List Effect) → calls_of (xs ++ ys) ≡ calls_of xs ++ calls_of ys
unfolding calls_of
calls_of-append [] ys = refl
calls_of-append (calls c ∷ es) ys = ap (λ z. c ∷ z) (calls_of-append es ys)
calls_of-append (initializes n ∷ es) ys = calls_of-append es ys
calls_of-append (prints loop p ∷ es) ys = calls_of-append es ys
calls_of-append (says m ∷ es) ys = calls_of-append es ys
calls_of-append (flushes ∷ es) ys = calls_of-append es ys

-- The quantums for which lines are printed.
unfoldable pub printed_of : List Effect → List ℕ
printed_of [] = []
printed_of (prints loop p ∷ es) = p.i ∷ printed_of es
printed_of (calls c ∷ es) = printed_of es
printed_of (initializes n ∷ es) = printed_of es
printed_of (says m ∷ es) = printed_of es
printed_of (flushes ∷ es) = printed_of es

printed_of-append : (xs ys : List Effect) → printed_of (xs ++ ys) ≡ printed_of xs ++ printed_of ys
unfolding printed_of
printed_of-append [] ys = refl
printed_of-append (prints loop p ∷ es) ys = ap (λ z. p.i ∷ z) (printed_of-append es ys)
printed_of-append (calls c ∷ es) ys = printed_of-append es ys
printed_of-append (initializes n ∷ es) ys = printed_of-append es ys
printed_of-append (says m ∷ es) ys = printed_of-append es ys
printed_of-append (flushes ∷ es) ys = printed_of-append es ys

printed_of-body : (loop : Loop) (p : Print) → printed_of (body loop p) ≡ p.i ∷ []
unfolding printed_of body
printed_of-body main_loop p = ground arith
printed_of-body thread1_loop p = ground arith
printed_of-body thread2_loop p = refl

printed_of-bodies : (loop : Loop) (ps : List Print) → printed_of (bodies loop ps) ≡ quantums ps
unfolding printed_of bodies
printed_of-bodies loop [] = refl
printed_of-bodies loop (p ∷ ps) =
    printed_of-append (body loop p) (bodies loop ps)
    ∙ rw (printed_of-body loop p, printed_of-bodies loop ps) refl

calls_for : Loop → ℕ → List Call
calls_for main_loop = main_calls
calls_for thread1_loop = thread1_calls
calls_for thread2_loop = thread2_calls

calls_of-body : (loop : Loop) (p : Print) → calls_of (body loop p) ≡ calls_for loop p.i
unfolding calls_of body calls_for main_calls thread1_calls thread2_calls
calls_of-body main_loop p = ground arith
calls_of-body thread1_loop p = ground arith
calls_of-body thread2_loop p = refl

calls_of-bodies :
    (loop : Loop) (ps : List Print)
    → calls_of (bodies loop ps) ≡ calls_at (calls_for loop) (quantums ps)
unfolding calls_of bodies calls_at
calls_of-bodies loop [] = refl
calls_of-bodies loop (p ∷ ps) =
    calls_of-append (body loop p) (bodies loop ps)
    ∙ rw (calls_of-body loop p, calls_of-bodies loop ps) refl

calls_at-thread1_calls :
    (a : ℕ) (printed : List ℕ)
    → IsRising a printed
    → calls_at thread1_calls printed
      ≡ also (has 17 printed) (sleep (pos 1)) ++ also (has 25 printed) (resume (pos 2))
unfolding calls_at thread1_calls has
calls_at-thread1_calls a [] r = refl
calls_at-thread1_calls a (x ∷ xs) r =
    rw (calls_at-thread1_calls (suc x) xs r.1)
      (ground (arith, has_above 17 (suc x) xs r.1, has_above 25 (suc x) xs r.1))

calls_at-thread2_calls : (printed : List ℕ) → calls_at thread2_calls printed ≡ []
unfolding calls_at thread2_calls
calls_at-thread2_calls [] = refl
calls_at-thread2_calls (x ∷ xs) = calls_at-thread2_calls xs

-- `main` of main.cpp, where the readings of the total do not fall from 1 and stay below the
-- largest int, for a number of rounds that leaves `j` an int, meets no overflow, prints for
-- quantums in rising order, and by its calls spawns the first thread if 3 is among these
-- quantums, the second if 11 is, and blocks thread 2 if 14 is, each once and in this order.
pub main-calls_of :
    (rs : List Readings)
    → IsSteady 1 rs
    → 100 + length rs ≤ int_max
    → (es : List Effect) × (main rs ≡ pass es)
      × IsRising 1 (printed_of es)
      × (calls_of es
          ≡ also (has 3 (printed_of es)) (spawn thread1_entry)
            ++ (also (has 11 (printed_of es)) (spawn thread2_entry)
                ++ also (has 14 (printed_of es)) (block (pos 2))))
unfolding main calls_of calls_for printed_of
main-calls_of rs s h =
    let (l, ps, runs, rising) =
      rounds-IsRising main_loop rs main_start 1 s (omega arith) (omega arith) in
    (
      initializes (pos 100000) ∷ bodies main_loop ps,
      rw runs refl,
      rw (printed_of-bodies main_loop ps) rising,
      rw (printed_of-bodies main_loop ps)
          (calls_of-bodies main_loop ps ∙ calls_at-main_calls 1 (quantums ps) rising),
    )

-- `thread1` of main.cpp, where the readings of the total do not fall from its first one and stay
-- below the largest int, for a number of rounds that leaves `j` an int, meets no overflow, prints
-- for quantums in rising order, and by its calls sleeps for one quantum if 17 is among these
-- quantums and resumes thread 2 if 25 is, each once and in this order.
thread1-calls_of :
    (total : ℕ) (rs : List Readings)
    → IsSteady total rs
    → 300 + length rs ≤ int_max
    → (es : List Effect) × (thread1 total rs ≡ pass es)
      × IsRising total (printed_of es)
      × (calls_of es
          ≡ also (has 17 (printed_of es)) (sleep (pos 1))
            ++ also (has 25 (printed_of es)) (resume (pos 2)))
unfolding thread1 calls_for
thread1-calls_of total rs s h =
    let (l, ps, runs, rising) =
      rounds-IsRising thread1_loop rs (thread1_start total) total s (omega arith) (omega arith) in
    (
      bodies thread1_loop ps,
      rw runs refl,
      rw (printed_of-bodies thread1_loop ps) rising,
      rw (printed_of-bodies thread1_loop ps)
          (calls_of-bodies thread1_loop ps ∙ calls_at-thread1_calls total (quantums ps) rising),
    )

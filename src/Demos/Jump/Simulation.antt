-- ===== src/Demos/Jump/Simulation.antt =====
-- demos/demo_jmp.c: `main` and any number of rounds of the two loops.
use os_ex.Prelude.{
  ℕ, zero, suc, ◌+◌, ◌-◌, ◌*◌, ◌%◌, ◌≤◌, ◌<◌, ◌≡◌, refl, sym, subst, ◌∙◌, List, [], ◌∷◌, ◌++◌,
  Option, none, some, pos, arith, ℕ_discrete,
}
use mathlib.Core.List.{append_assoc}
use os_ex.Checked.{Checked, pass, fail, int_max, ◌>>=◌}
use os_ex.Demos.Jump.{
  Symbols, Line, counted, yielding, yield_returned, Demo, period, setup, setup_thread, loop_round,
  boot, start, run,
}
use os_ex.Demos.Jump.Turns.{
  IsGood, Turn, top_of, count_of, resumed, restored, top_fits, go_on-entry, entered,
}
use os_ex.Demos.Jump.Rounds.{round-counts, round-yields}

-- The lines for `j` counts after the count `n`, and for a thread's whole share of the processor.
unfoldable pub counted_up : ℕ → ℕ → ℕ → List Line
counted_up t n zero = []
counted_up t n (suc j) = counted t (suc n) ∷ counted_up t (suc n) j

abbrev pub share : ℕ → ℕ → ℕ → Option ℕ → List Line
share t n j m = counted_up t n j ++ yielding t ∷ yield_returned 0 ∷ resumed m

mod_step :
    (c : Symbols) (t n : ℕ)
    → suc (n % period c t) < period c t
    → suc n % period c t ≡ suc (n % period c t)
mod_step c zero n h = omega arith
mod_step c (suc t) n h = omega arith

mod_wrap : (c : Symbols) (t n : ℕ) → suc (n % period c t) ≡ period c t → suc n % period c t ≡ 0
mod_wrap c zero n h = omega arith
mod_wrap c (suc t) n h = omega arith

module _ {c : Symbols} (g : IsGood c) where
  -- The program's first jump.
  pub start-Turn : (d : Demo) × (start c ≡ pass d) × Turn c 0 0 none [] d
  unfolding start setup setup_thread
  start-Turn =
      let d = setup c (boot c) in
      (
        entered g 0 d,
        rw (restored g c.thread0 g.thread0_fits, restored g (top_of c 0) (top_fits g 0))
            (go_on-entry g 0 (top_of c 0) (record d { current_thread = pos 0 }) (omega arith)),
        record {
          current = refl;
          sp = refl;
          frame = ground arith;
          printed = refl;
          waits = record {
            buffer = _;
            saved = refl;
            sp = restored g (top_of c 1) (top_fits g 1);
            pc = restored g c.thread1 g.thread1_fits;
            frame = λ n e. cc;
          };
        },
      )

  -- The rounds that are left of a thread's share.
  run-share :
      (j t n : ℕ) {m : Option ℕ} {lines : List Line} {d : Demo}
      → t < 2
      → n % period c t + suc j ≡ period c t
      → n + suc j ≤ int_max
      → Turn c t n m lines d
      → (d' : Demo) × (run c (suc j) d ≡ pass d')
        × Turn c (1 - t) (count_of m) (some (n + suc j)) (lines ++ share t n (suc j) m) d'
  unfolding run counted_up
  run-share zero t n h p b k =
      let (d', r, w) = round-yields g t n h (omega arith) (mod_wrap c t n (omega arith)) k in
      let e : n + 1 ≡ suc n = omega arith in (d', rw r refl, rw e w)
  run-share (suc j) t n {m} {lines} h p b k =
      let more : suc n % period c t ≡ suc (n % period c t) = mod_step c t n (omega arith) in
      let (d1, r1, k1) = round-counts g t n h (omega arith) (omega arith) k in
      let (d2, r2, k2) = run-share j t (suc n) h (omega arith) (omega arith) k1 in
      let e : n + suc (suc j) ≡ suc n + suc j = omega arith in
      (
        d2,
        rw r1 r2,
        rw e
            (rw (sym (append_assoc lines (counted t (suc n) ∷ []) (share t (suc n) (suc j) m))) k2),
      )

  run-zero : (d : Demo) → run c 0 d ≡ pass d
  unfolding run
  run-zero d = refl

  run-add : (n m : ℕ) (d : Demo) {d1 : Demo} → run c n d ≡ pass d1 → run c (n + m) d ≡ run c m d1
  unfolding run
  run-add zero m d e = let z : 0 + m ≡ m = omega arith in rw z cc
  run-add (suc n) m d e =
      let z : suc n + m ≡ suc (n + m) = omega arith in
      rw z (go (loop_round c d) refl e (λ d2 k. run-add n m d2 k))
    where
      go :
          (r : Checked Demo) {d1 : Demo}
          → loop_round c d ≡ r
          → (loop_round c d >>= run c n) ≡ pass d1
          → ((d2 : Demo) → run c n d2 ≡ pass d1 → run c (n + m) d2 ≡ run c m d1)
          → (loop_round c d >>= run c (n + m)) ≡ run c m d1
      go (pass d2) q e rest = rw q (rest d2 (rw q at e))
      go (fail x) q e rest = cc (rw q at e)

  start-run-add :
      (n m : ℕ) {d : Demo}
      → (start c >>= run c n) ≡ pass d
      → (start c >>= run c (n + m)) ≡ run c m d
  start-run-add n m e = let (d, s, k) = start-Turn in rw s (run-add n m d (rw s at e))

  -- Any number of rounds, for counts that are bounded.
  run-Turn :
      (n b t a : ℕ) {m : Option ℕ} {lines : List Line} {d : Demo}
      → t < 2
      → a ≤ b
      → count_of m ≤ b
      → b + n ≤ int_max
      → Turn c t a m lines d
      → (d' : Demo) × (run c n d ≡ pass d')
        × (u a' : ℕ) × (m' : Option ℕ) × (lines' : List Line) × (u < 2)
        × Turn c u a' m' lines' d'
  unfolding run
  run-Turn zero b t a {m} {lines} {d} h p q r k = (d, refl, t, a, m, lines, h, k)
  run-Turn (suc n) b t a {m} h p q r k = elim (ℕ_discrete (suc a % period c t) 0) [
    | yes z ↦
        let (d1, r1, k1) = round-yields g t a h (omega arith) z k in
        let (d2, r2, u, a', m', lines', l, w) =
          run-Turn n (suc b) (1 - t) (count_of m) (omega arith) (omega arith) (omega arith)
            (omega arith) k1 in
        (d2, rw r1 r2, u, a', m', lines', l, w)
    | no z ↦
        let (d1, r1, k1) = round-counts g t a h (omega arith) z k in
        let (d2, r2, u, a', m', lines', l, w) =
          run-Turn n (suc b) t (suc a) h (omega arith) (omega arith) (omega arith) k1 in
        (d2, rw r1 r2, u, a', m', lines', l, w)
  ]

  -- For addresses of 64 bits, the code addresses and the stacks apart, `main` of demo_jmp.c and
  -- any number of rounds of its loops up to the largest int meet no fault, and `current_thread`
  -- is then 0 or 1 with the processor on the stack of that thread.
  run-passes :
      (n : ℕ)
      → n ≤ int_max
      → (d : Demo) × ((start c >>= run c n) ≡ pass d)
        × (t : ℕ) × (t < 2)
        × (d.current_thread ≡ pos t)
        × (d.sp ≡ top_of c t)
  run-passes n h =
      let (d, e, k) = start-Turn in
      let (d', e', u, a, m, lines, l, w) =
        run-Turn n 0 0 0 (omega arith) (omega arith) (omega arith) (omega arith) k in
      (d', rw e e', u, l, w.current, w.sp)

-- The count of the second thread before it starts, and after `k` turns of both.
abbrev pub before : ℕ → Option ℕ
before zero = none
before (suc k) = some (suc k * 5)

before-count_of : (k : ℕ) → count_of (before k) ≡ k * 5
before-count_of zero = refl
before-count_of (suc k) = refl

-- The lines of one turn of both threads, and of the first `k`.
abbrev pub both : ℕ → List Line
both k = share 0 (k * 3) 3 (before k) ++ share 1 (k * 5) 5 (some (k * 3 + 3))

unfoldable pub transcript : ℕ → List Line
transcript zero = []
transcript (suc k) = transcript k ++ both k

module _ {c : Symbols} (g : IsGood c) where
  run-both :
      (k : ℕ) {lines : List Line} {d : Demo}
      → k * 5 + 5 ≤ int_max
      → Turn c 0 (k * 3) (before k) lines d
      → (d' : Demo) × (run c 8 d ≡ pass d')
        × Turn c 0 (suc k * 3) (before (suc k)) (lines ++ both k) d'
  run-both k {lines} {d} h w =
      let e = before-count_of k in
      let (d1, r1, k1) = run-share g 2 0 (k * 3) (omega arith) (omega arith) (omega arith) w in
      let (d2, r2, k2) = run-share g 4 1 (k * 5) (omega arith) (omega arith) (omega arith) (
        subst (λ n. Turn c 1 n (some (k * 3 + 3)) (lines ++ share 0 (k * 3) 3 (before k)) d1) e
          k1) in
      let three : suc k * 3 ≡ k * 3 + 3 = omega arith in
      let five : suc k * 5 ≡ k * 5 + 5 = omega arith in
      (
        d2,
        run-add g 3 5 d r1 ∙ r2,
        rw
            (
              three,
              five,
              sym (
                  append_assoc lines (share 0 (k * 3) 3 (before k))
                    (share 1 (k * 5) 5 (some (k * 3 + 3)))),
            )
            k2,
      )

  run-cycles :
      (k : ℕ)
      → k * 5 ≤ int_max
      → (d : Demo) × ((start c >>= run c (k * 8)) ≡ pass d)
        × Turn c 0 (k * 3) (before k) (transcript k) d
  unfolding transcript
  run-cycles zero h = let (d, e, k) = start-Turn g in (d, rw e (run-zero g d), k)
  run-cycles (suc k) h =
      let (d, e, w) = run-cycles k (omega arith) in
      let (d', e', w') = run-both k (omega arith) w in
      let more : suc k * 8 ≡ k * 8 + 8 = omega arith in
      (d', rw more (start-run-add g (k * 8) 8 e ∙ e'), w')

  -- For addresses of 64 bits, the code addresses and the stacks apart, and 5k at most the largest
  -- int, demo_jmp.c meets no fault in `main` and 8k rounds of its loops, prints k times what one
  -- turn of both threads prints (three counts and a yield of thread 0, five counts and a yield of
  -- thread 1, the second return in `yield` only for a thread that had yielded before), and is in
  -- thread 0 on its stack again.
  pub run-transcript :
      (k : ℕ)
      → k * 5 ≤ int_max
      → (d : Demo) × ((start c >>= run c (k * 8)) ≡ pass d)
        × (d.printed ≡ transcript k)
        × (d.current_thread ≡ pos 0)
        × (d.sp ≡ top_of c 0)
  run-transcript k h = let (d, e, w) = run-cycles k h in (d, e, w.printed, w.current, w.sp)

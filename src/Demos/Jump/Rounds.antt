-- ===== src/Demos/Jump/Rounds.antt =====
-- demos/demo_jmp.c: the rounds of the loops, those that count and those that yield.
use os_ex.Prelude.{
  ℕ, suc, ◌-◌, ◌%◌, ◌<◌, ◌≡◌, ◌≢◌, refl, ◌∙◌, List, [], ◌∷◌, ◌++◌, Option, some, lt→ltb, ◌==◌,
  if◌then◌else◌, arith,
}
use mathlib.Core.List.{append_assoc}
use os_ex.Checked.{pass, int_max}
use os_ex.Demos.Jump.{
  Symbols, Line, counted, yielding, yield_returned, Demo, print, put_env, put_frame, period,
  translate_address, jump_to_thread, yield, count_round, loop_round,
}
use os_ex.Demos.Jump.Turns.{
  IsGood, top_of, Waits, Turn, resumed, count_of, restored, tops_apart, top_fits, jump-Turn,
}

module _ {c : Symbols} (g : IsGood c) where
  -- The count, its line, and the count in the frame.
  abbrev counts : ℕ → ℕ → Demo → Demo
  counts t n d =
      print (counted t (suc n)) (put_frame (top_of c t) (record { thread = t; i = suc n }) d)

  counts-Turn :
      (t n : ℕ) {m : Option ℕ} {lines : List Line} {d : Demo}
      → t < 2
      → Turn c t n m lines d
      → Turn c t (suc n) m (lines ++ counted t (suc n) ∷ []) (counts t n d)
  counts-Turn t n {m} h k = record {
    current = k.current;
    sp = k.sp;
    frame = ground arith;
    waits = record {
      buffer = k.waits.buffer;
      saved = k.waits.saved;
      sp = k.waits.sp;
      pc = k.waits.pc;
      frame = λ j i. ground (arith, k.waits.frame j i, tops_apart g t h);
    };
    printed = rw (k.printed) refl;
  }

  loop_round_lem :
      (t n : ℕ) {m : Option ℕ} {lines : List Line} {d : Demo}
      → n < int_max
      → Turn c t n m lines d
      → loop_round c d ≡ (
          if suc n % period c t == 0
          then yield c (print (yielding t) (counts t n d))
          else pass (counts t n d))
  unfolding loop_round count_round
  loop_round_lem t n {d = d} h k = rw (k.sp, k.frame, lt→ltb n int_max h) refl

  -- A round that does not yield.
  pub round-counts :
      (t n : ℕ) {m : Option ℕ} {lines : List Line} {d : Demo}
      → t < 2
      → n < int_max
      → suc n % period c t ≢ 0
      → Turn c t n m lines d
      → (d' : Demo) × (loop_round c d ≡ pass d')
        × Turn c t (suc n) m (lines ++ counted t (suc n) ∷ []) d'
  round-counts t n {d = d} h lt p k =
      (counts t n d, loop_round_lem t n lt k ∙ ground (arith, p), counts-Turn t n h k)

  -- What thread `t` stores when `sigsetjmp` returns for the first time in `yield`.
  abbrev parks : ℕ → Demo → Demo
  parks t d = print (yield_returned 0) (
      put_env t
        (record {
          sp = translate_address c.guard (top_of c t);
          pc = translate_address c.guard c.in_yield;
        })
        (print (yielding t) d))

  parks-Waits :
      (t n : ℕ) {m : Option ℕ} {lines : List Line} {d : Demo}
      → Turn c t n m lines d
      → Waits c t (some n) (parks t d)
  parks-Waits t n k = record {
    buffer = _;
    saved = ground arith;
    sp = restored g (top_of c t) (top_fits g t);
    pc = restored g c.in_yield g.yield_fits;
    frame = λ j i. ground (arith, k.frame);
  }

  parks-Waits_other :
      (t n : ℕ) {m : Option ℕ} {lines : List Line} {d : Demo}
      → t < 2
      → Turn c t n m lines d
      → Waits c (1 - t) m (parks t d)
  parks-Waits_other t n h k = record {
    buffer = k.waits.buffer;
    saved = ground (arith, k.waits.saved);
    sp = k.waits.sp;
    pc = k.waits.pc;
    frame = k.waits.frame;
  }

  yield_lem :
      (t n : ℕ) {m : Option ℕ} {lines : List Line} {d : Demo}
      → t < 2
      → Turn c t n m lines d
      → yield c (print (yielding t) d) ≡ jump_to_thread c (1 - t) (parks t d)
  unfolding yield
  yield_lem t n {d = d} h k = rw (k.current, k.sp, lt→ltb t 2 h) refl

  -- A round that yields, up to the next round of the other thread.
  pub round-yields :
      (t n : ℕ) {m : Option ℕ} {lines : List Line} {d : Demo}
      → t < 2
      → n < int_max
      → suc n % period c t ≡ 0
      → Turn c t n m lines d
      → (d' : Demo) × (loop_round c d ≡ pass d')
        × Turn c
            (1 - t)
            (count_of m)
            (some (suc n))
            (lines ++ counted t (suc n) ∷ yielding t ∷ yield_returned 0 ∷ resumed m)
            d'
  round-yields t n {m} {lines} {d} h lt p k =
      let k' = counts-Turn t n h k in
      let (d', jumps, w) =
        jump-Turn g (1 - t) m t (suc n) (omega arith) (omega arith)
          (parks-Waits_other t (suc n) h k') (parks-Waits t (suc n) k') in
      (
        d',
        loop_round_lem t n lt k ∙ rw p (yield_lem t (suc n) h k' ∙ jumps),
        record {
          current = w.current;
          sp = w.sp;
          frame = w.frame;
          waits = w.waits;
          printed = w.printed ∙ rw (k.printed) (simp append_assoc);
        },
      )

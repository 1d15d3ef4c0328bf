-- ===== src/Demos/Jump/Turns.antt =====
-- demos/demo_jmp.c: one thread counts and the other waits in `yield`, or has not started.
use Prim.Native.Nat.{◌^◌}
use os_ex.Prelude.{
  ℕ, zero, suc, ◌+◌, ◌-◌, ◌≤◌, ◌<◌, ◌≡◌, ◌≢◌, refl, sym, ◌∙◌, List, [], ◌∷◌, ◌++◌, Option, none,
  some, pos, arith,
}
use mathlib.Core.List.{append-nil}
use os_ex.Checked.{pass}
use os_ex.Address.Words.{restore_address, restore-translate_address}
use os_ex.Address as Address
use os_ex.Demos.Jump.{
  Symbols, JumpBuffer, Line, yield_returned, Demo, print, put_frame, top, translate_address, go_on,
  jump, jump_to_thread, stack_size,
}

-- Addresses of 64 bits, the code addresses apart and the stacks apart.
pub record IsGood (c : Symbols) : Type 0 where
  pub entries_apart : c.thread0 ≢ c.thread1
  pub yield_apart0 : c.in_yield ≢ c.thread0
  pub yield_apart1 : c.in_yield ≢ c.thread1
  pub stacks_apart : c.stack0 ≢ c.stack1
  pub thread0_fits : c.thread0 < 2 ^ 64
  pub thread1_fits : c.thread1 < 2 ^ 64
  pub yield_fits : c.in_yield < 2 ^ 64
  pub guard_fits : c.guard < 2 ^ 64
  pub stack0_fits : c.stack0 + stack_size ≤ 2 ^ 64
  pub stack1_fits : c.stack1 + stack_size ≤ 2 ^ 64

abbrev pub entry_of : Symbols → ℕ → ℕ
entry_of c zero = c.thread0
entry_of c (suc n) = c.thread1

abbrev pub top_of : Symbols → ℕ → ℕ
top_of c zero = top c.stack0
top_of c (suc n) = top c.stack1

-- The thread that does not run: with no count it has not started.
pub record Waits (c : Symbols) (u : ℕ) (m : Option ℕ) (d : Demo) : Type 0 where
  pub buffer : JumpBuffer
  pub saved : d.env u ≡ some buffer
  pub sp : restore_address 17 47 c.guard buffer.sp ≡ top_of c u
  pub pc :
      restore_address 17 47 c.guard buffer.pc ≡ elim m [ none ↦ entry_of c u | some n ↦ c.in_yield ]
  pub frame : (n : ℕ) → m ≡ some n → d.frames (top_of c u) ≡ some (record { thread = u; i = n })

-- Thread `t` runs and has counted to `n`.
pub record Turn (c : Symbols) (t n : ℕ) (m : Option ℕ) (lines : List Line) (d : Demo) : Type 0 where
  pub current : d.current_thread ≡ pos t
  pub sp : d.sp ≡ top_of c t
  pub frame : d.frames (top_of c t) ≡ some (record { thread = t; i = n })
  pub waits : Waits c (1 - t) m d
  pub printed : d.printed ≡ lines

-- What a jump to a waiting thread prints, and the count that it goes on with.
abbrev pub resumed : Option ℕ → List Line
resumed none = []
resumed (some n) = yield_returned 1 ∷ []

abbrev pub count_of : Option ℕ → ℕ
count_of none = 0
count_of (some n) = n

module _ {c : Symbols} (g : IsGood c) where
  pub restored :
      (addr : ℕ)
      → addr < 2 ^ 64
      → restore_address 17 47 c.guard (translate_address c.guard addr) ≡ addr
  unfolding translate_address Address.translate_address
  restored addr h = (restore-translate_address c.guard addr g.guard_fits h).1

  pub tops_apart : (t : ℕ) → t < 2 → top_of c t ≢ top_of c (1 - t)
  tops_apart zero h e = g.stacks_apart (omega (arith, e))
  tops_apart (suc zero) h e = g.stacks_apart (omega (arith, e))
  tops_apart (suc (suc t)) h e = absurd (omega arith)

  pub top_fits : (t : ℕ) → top_of c t < 2 ^ 64
  top_fits zero = omega (arith, g.stack0_fits)
  top_fits (suc t) = omega (arith, g.stack1_fits)

  pub go_on-entry :
      (u sp : ℕ) (d : Demo)
      → u < 2
      → go_on c (entry_of c u) sp d
        ≡ pass (put_frame sp (record { thread = u; i = 0 }) (record d { sp = sp }))
  unfolding go_on
  go_on-entry zero sp d h = ground arith
  go_on-entry (suc zero) sp d h = ground (arith, g.entries_apart)
  go_on-entry (suc (suc u)) sp d h = absurd (omega arith)

  go_on-in_yield :
      (sp : ℕ) (d : Demo)
      → go_on c c.in_yield sp d ≡ pass (print (yield_returned 1) (record d { sp = sp }))
  unfolding go_on
  go_on-in_yield sp d = ground (arith, g.yield_apart0, g.yield_apart1)

  pub jump_lem :
      (u : ℕ) (d : Demo) {b : JumpBuffer}
      → d.env u ≡ some b
      → jump_to_thread c u d
        ≡ go_on c
            (restore_address 17 47 c.guard b.pc)
            (restore_address 17 47 c.guard b.sp)
            (record d { current_thread = pos u })
  unfolding jump_to_thread jump
  jump_lem u d e = rw e refl

  -- After a jump to thread `u`: at its start, or at the second return of `sigsetjmp`.
  abbrev pub entered : ℕ → Demo → Demo
  entered u d =
      put_frame (top_of c u) (record { thread = u; i = 0 })
        (record d { current_thread = pos u; sp = top_of c u })

  abbrev back : ℕ → Demo → Demo
  back u d = print (yield_returned 1) (record d { current_thread = pos u; sp = top_of c u })

  -- A jump to thread `u`, which waits.
  pub jump-Turn :
      (u : ℕ) (m : Option ℕ) {d : Demo} (t n : ℕ)
      → u < 2
      → 1 - u ≡ t
      → Waits c u m d
      → Waits c t (some n) d
      → (d' : Demo) × (jump_to_thread c u d ≡ pass d')
        × Turn c u (count_of m) (some n) (d.printed ++ resumed m) d'
  jump-Turn u none {d} t n h e w v = (
    entered u d,
    jump_lem u d w.saved
        ∙ rw (w.pc, w.sp) (go_on-entry u (top_of c u) (record d { current_thread = pos u }) h),
    record {
      current = refl;
      sp = refl;
      frame = ground arith;
      waits = rw e (record {
        buffer = v.buffer;
        saved = v.saved;
        sp = v.sp;
        pc = v.pc;
        frame = λ k i. ground (arith, v.frame k i, tops_apart u h, e);
      });
      printed = sym (append-nil d.printed);
    },
  )
  jump-Turn u (some k) {d} t n h e w v = (
    back u d,
    jump_lem u d w.saved
        ∙ rw (w.pc, w.sp) (go_on-in_yield (top_of c u) (record d { current_thread = pos u })),
    record {
      current = refl;
      sp = refl;
      frame = w.frame k refl;
      waits =
          rw e
            (record { buffer = v.buffer; saved = v.saved; sp = v.sp; pc = v.pc; frame = v.frame });
      printed = refl;
    },
  )

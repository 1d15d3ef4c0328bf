-- ===== src/Demos/Jump.antt =====
-- demos/demo_jmp.c: two threads that hand the processor to each other by `sigsetjmp` and `siglongjmp`.
pub mod Turns
pub mod Rounds
pub mod Simulation
use Prim.Native.Nat.{bit_xor}
use os_ex.Prelude.{
  ℕ, zero, suc, ◌+◌, ◌-◌, ◌%◌, List, [], ◌∷◌, ◌++◌, Option, none, some, Bool, true, false, ℤ, pos,
  negsuc, ltb, ◌==◌, if◌then◌else◌, update,
}
use os_ex.Checked.{Checked, pass, fail, bad_pointer, bad_context, ◌>>=◌, increment}
use os_ex.Address.{rotate_left}
use os_ex.Address.Words.{restore_address}

-- `translate_address` on 64 bits, and on 32.
unfoldable pub translate_address : ℕ → ℕ → ℕ
translate_address guard addr = rotate_left 0x11 47 (bit_xor addr guard)

unfoldable pub translate_address_32 : ℕ → ℕ → ℕ
translate_address_32 guard addr = rotate_left 0x9 23 (bit_xor addr guard)

abbrev pub stack_size : ℕ
stack_size = 4096

abbrev pub address_size : ℕ
address_size = 8

-- Addresses in the program: the two functions, the place after `sigsetjmp` in `yield`, the two
-- stacks; and the pointer guard.
pub record Symbols : Type 0 where
  pub thread0 : ℕ
  pub thread1 : ℕ
  pub in_yield : ℕ
  pub stack0 : ℕ
  pub stack1 : ℕ
  pub guard : ℕ

-- The two words of a `sigjmp_buf`, as they are stored; the saved mask is left out, as no signal is
-- blocked or handled here.
pub record JumpBuffer : Type 0 where
  pub sp : ℕ
  pub pc : ℕ

pub data Line : Type 0 where
  counted : ℕ → ℕ → Line
  yielding : ℕ → Line
  yield_returned : ℕ → Line

-- What a stack holds: which of the two loops runs on it, and its `i`.
pub record Frame : Type 0 where
  pub thread : ℕ
  pub i : ℕ

-- A stack is known by the stack pointer at which its loop runs.
pub record Demo : Type 0 where
  pub env : ℕ → Option JumpBuffer
  pub current_thread : ℤ
  pub sp : ℕ
  pub frames : ℕ → Option Frame
  pub printed : List Line

abbrev pub print : Line → Demo → Demo
print line d = record d { printed = d.printed ++ line ∷ [] }

abbrev pub put_env : ℕ → JumpBuffer → Demo → Demo
put_env tid b d = record d { env = λ k. if tid == k then some b else d.env k }

abbrev pub put_frame : ℕ → Frame → Demo → Demo
put_frame sp f d = record d { frames = λ q. if sp == q then some f else d.frames q }

-- The stack pointer that a thread starts with.
abbrev pub top : ℕ → ℕ
top stack = stack + stack_size - address_size

module _ (c : Symbols) where
  unfoldable pub setup_thread : ℕ → ℕ → ℕ → Demo → Demo
  unfolding translate_address
  setup_thread tid stack entry_point = put_env tid (record {
    sp = translate_address c.guard (top stack);
    pc = translate_address c.guard entry_point;
  })

  unfoldable pub setup : Demo → Demo
  unfolding setup_thread
  setup d = setup_thread 1 c.stack1 c.thread1 (setup_thread 0 c.stack0 c.thread0 d)

  -- Where the processor goes on after a jump: at the start of a thread, or at the second return of
  -- `sigsetjmp` in `yield`, which prints and goes back to the loop on that stack.
  unfoldable pub go_on : ℕ → ℕ → Demo → Checked Demo
  go_on pc sp d =
      if pc == c.thread0
      then pass (put_frame sp (record { thread = 0; i = 0 }) (record d { sp = sp }))
      else if pc == c.thread1
      then pass (put_frame sp (record { thread = 1; i = 0 }) (record d { sp = sp }))
      else if pc == c.in_yield
      then pass (print (yield_returned 1) (record d { sp = sp }))
      else fail bad_context

  -- `siglongjmp(env[tid], 1)`.
  unfoldable pub jump : ℕ → Demo → Checked Demo
  unfolding go_on
  jump tid d = elim (d.env tid) [
    | none ↦ fail bad_context
    | some b ↦ go_on (restore_address 17 47 c.guard b.pc) (restore_address 17 47 c.guard b.sp) d
  ]

  unfoldable pub jump_to_thread : ℕ → Demo → Checked Demo
  unfolding jump
  jump_to_thread tid d = jump tid (record d { current_thread = pos tid })

  -- The first return of `sigsetjmp`; `env` has two buffers, and `current_thread` is -1 before the
  -- first jump.
  unfoldable pub yield : Demo → Checked Demo
  unfolding translate_address jump_to_thread
  yield d = elim d.current_thread [
    | negsuc n ↦ fail bad_pointer
    | pos tid ↦
        if ltb tid 2
        then jump_to_thread (1 - tid) (
            print (yield_returned 0) (
              put_env tid
                (record {
                  sp = translate_address c.guard d.sp;
                  pc = translate_address c.guard c.in_yield;
                })
                d))
        else fail bad_pointer
  ]

  abbrev pub period : ℕ → ℕ
  period zero = 3
  period (suc n) = 5

  -- One round of the loop of `thread0` or `thread1`, but for its `usleep`.
  unfoldable pub count_round : Frame → Demo → Checked Demo
  unfolding yield
  count_round f d = do
    i ← increment f.i
    let d' = print (counted f.thread i) (put_frame d.sp (record f { i = i }) d)
    if i % period f.thread == 0 then yield (print (yielding f.thread) d') else pass d'

  unfoldable pub loop_round : Demo → Checked Demo
  unfolding count_round
  loop_round d = elim (d.frames d.sp) [ none ↦ fail bad_pointer | some f ↦ count_round f d ]

  abbrev pub boot : Demo
  boot = record {
    env = λ k. none;
    current_thread = negsuc 0;
    sp = 0;
    frames = λ q. none;
    printed = [];
  }

  -- `main`, and the rounds of the two loops from then on.
  unfoldable pub start : Checked Demo
  unfolding setup jump_to_thread
  start = jump_to_thread 0 (setup boot)

  unfoldable pub run : ℕ → Demo → Checked Demo
  unfolding loop_round
  run zero d = pass d
  run (suc n) d = loop_round d >>= run n

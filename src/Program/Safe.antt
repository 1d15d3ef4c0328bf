-- ===== src/Program/Safe.antt =====
-- What a step of main.cpp on the library does to the invariant of its runs.
use os_ex.Prelude.{
  length, pos, ℕ, suc, ◌+◌, ◌<◌, ◌≡◌, ◌≢◌, inl, inr, refl, List, [], ◌∷◌, Option, none, some, arith,
}
use os_ex.Checked.{int_max}
use os_ex.Machine.{System, Os}
use os_ex.Uthreads.{step_call}
use os_ex.Program.Calls.{call_Goes}
use os_ex.Program.Statements.{AreOps, call_of-cases, IsAllowed-IsMild}
use os_ex.Program.Frames.{Sound, rest_Sound, count_Sound}
use os_ex.Program.Lines.{main_lines, Own, Told}
use os_ex.Program.Owned.{todo_Own, flushed_Own, next_Own, counted_Own}
use os_ex.Program.Printed.{line_Told, line_Own, line_others, said_Told, said_Own, said_silent}
use os_ex.Program.Spawns.{Spawning}
use os_ex.Program.Rising.{todo_Spawning, passed-Spawning, counted-Spawning, next-Spawning}
use os_ex.Program.Good.{scene, Later, Fair, Holds, Good, put-Good}
use os_ex.Program.{
  Output, Op, read_start, test, take, compare, ask_tid, ask_own, ask_quantums, ask_total, print,
  flush, count, invoke, say, Frame, Process, call_of, put_frame, local, perform_op, Event,
  statement, expiry, step,
}
use os_ex.Program.Landed.{has_memory, IsFine, perform_op-round, perform_op-call, perform_op-local}
use os_ex.Program.Called.{in_main, few, ticked, fair, known, called}

-- A step in which the threads and the total stay as they are.
still :
    (k : ℕ) {out : List Output} (out' : List Output) (s : System) (q : ℕ)
    → (q ≡ 1 → length (main_lines out') ≡ length (main_lines out))
    → Later (scene k out s) (scene (suc k) out' s) q
still k out' s q h = record {
  step = refl;
  lines = h;
  fewer = λ _. omega arith;
  longer = omega arith;
}

module _ (k : ℕ) (p : Process) (good : Good k p) (early : k + 301 < int_max) where
  module _ (os : Os) (f : Frame) (e : p.frames p.system.stack ≡ some f) (op : Op) (rest : List Op)
      (next : f.todo ≡ op ∷ rest) where
    abbrev w : Sound k f
    w = (fair k p good early os f e op rest next).0

    abbrev ops_left : AreOps rest
    ops_left = known k p good early os f e op rest next

    -- A statement without a call, after which the process has printed `out`.
    rests :
        (f' : Frame) (out : List Output)
        → Told out
        → Fair (scene (suc k) out p.system) p.system.stack f'
        → ((q : ℕ)
            → q ≢ p.system.stack
            → q ≡ 1
            → length (main_lines out) ≡ length (main_lines p.printed))
        → Good (suc k) (put_frame f' p.system (record p { printed = out }))
    rests f' out told w lines =
        put-Good k p p.system f' out good.valid (omega (arith, good.early)) good.main told w
          (λ q n. still k out p.system q (lines q n)) good.others

    local_Fine :
        (op : Op)
        → call_of op f ≡ none
        → Own p.printed p.system.stack (record f { todo = op ∷ rest })
        → Spawning
            (length p.system.active_threads)
            p.system.total_quantoms
            p.system.stack
            (record f { todo = op ∷ rest })
        → IsFine (suc k) os.allocates (local op rest f p)
    unfolding local call_of
    local_Fine print h o sp =
        rests _ _ (line_Told p.printed p.system.stack f rest o good.told)
          (
            rest_Sound w rest ops_left,
            line_Own p.printed p.system.stack f rest o,
            passed-Spawning print rest f refl refl sp,
          )
          (line_others p.printed p.system.stack f rest o)
    local_Fine (say m) h o sp =
        rests _ _ (said_Told p.printed m good.told)
          (
            rest_Sound w rest ops_left,
            said_Own p.printed p.system.stack f m rest o,
            passed-Spawning (say m) rest f refl refl sp,
          )
          (λ q n z. said_silent p.printed m)
    local_Fine count h o sp =
        let (i, j, i_eq, j_eq, counts_i, counts_j, w') = count_Sound w rest ops_left early in
        rw counts_i (
          rw counts_j (
            rests _ p.printed good.told
              (
                w',
                counted_Own rest f (pos (suc i)) j j_eq o,
                counted-Spawning rest f i (pos (suc j)) i_eq sp,
              )
              (λ q n z. refl)))
    local_Fine flush h o sp =
        rests _ p.printed good.told
          (
            rest_Sound w rest ops_left,
            flushed_Own rest f o,
            passed-Spawning flush rest f refl refl sp,
          )
          (λ q n z. refl)
    local_Fine read_start h o sp = absurd (cc)
    local_Fine test h o sp = absurd (cc)
    local_Fine take h o sp = absurd (cc)
    local_Fine compare h o sp = absurd (cc)
    local_Fine ask_tid h o sp = absurd (cc)
    local_Fine ask_own h o sp = absurd (cc)
    local_Fine ask_quantums h o sp = absurd (cc)
    local_Fine ask_total h o sp = absurd (cc)
    local_Fine (invoke c) h o sp = absurd (cc)

  stated : (os : Os) → IsFine (suc k) os.allocates (step (statement os) p)
  unfolding step perform_op
  stated os = found (p.frames p.system.stack) refl good.active
    where
      round :
          (f : Frame)
          → p.frames p.system.stack ≡ some f
          → Fair (scene k p.printed p.system) p.system.stack f
          → (todo : List Op) → f.todo ≡ todo
          → AreOps todo
          → IsFine (suc k) os.allocates (perform_op os f p)
      round f e z [] next a = rw (perform_op-round os f p next) (
          put-Good k p p.system _ p.printed good.valid (omega (arith, good.early)) good.main
            good.told
            (
              rest_Sound z.0 (test ∷ []) (tt, tt),
              next_Own f (todo_Own next z.1),
              next-Spawning f (todo_Spawning f _ next z.2),
            )
            (λ q n. still k p.printed p.system q (λ _. refl)) good.others)
      round f e z (op ∷ rest) next (o, a) = elim (call_of-cases op f o) [
        | inl (c, h, allowed, asks) ↦ rw (perform_op-call os f p op rest next h) (
            called k p good early os f e op rest next c (step_call os c p.system) allowed asks h (
              call_Goes good.valid (few k p good early) os c (IsAllowed-IsMild c allowed)
                (in_main k p good early os f e op rest next c h)))
        | inr h ↦
            rw (perform_op-local os f p op rest next h)
              (local_Fine os f e op rest next op h (todo_Own next z.1) (todo_Spawning f _ next z.2))
      ]

      found :
          (o : Option Frame)
          → p.frames p.system.stack ≡ o
          → Holds (scene k p.printed p.system) p.system.stack o
          → IsFine (suc k) os.allocates (step (statement os) p)
      found none e h = absurd h
      found (some f) e z = rw (e, step) (round f e z f.todo refl z.0.ops_known)

  -- The memory that a step asks for; a signal asks for none.
  pub step_Fine : (e : Event) → IsFine (suc k) (has_memory e) (step e p)
  step_Fine (statement os) = stated os
  step_Fine (expiry os) = ticked k p good early os

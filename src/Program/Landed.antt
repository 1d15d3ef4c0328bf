-- ===== src/Program/Landed.antt =====
-- A frame of main.cpp that goes on where its thread had left (scheduler.cpp), or with its next statement.
use os_ex.Prelude.{
  length, arith, ℕ, suc, ◌≤◌, ◌≡◌, refl, subst, List, [], ◌∷◌, Option, none, some, Bool, true,
  false,
}
use os_ex.Thread.{Point, nowhere, in_setup, in_block, in_sleep, in_handler, entry}
use os_ex.Machine.{System, Os, Result, returns, jumps, exits, aborts}
use os_ex.Scheduler.{success}
use os_ex.Uthreads.{Call, step_call}
use os_ex.Invariant.{IsValid}
use os_ex.Safety.{seen_at}
use os_ex.Program.Places.{owner, place_of}
use os_ex.Program.Statements.{AreOps, IsInvoke, call_of-asking, IsInvoke-IsAsking}
use os_ex.Program.Frames.{Sound-suc, success-Fits, answered-Sound, entered-Sound}
use os_ex.Program.Lines.{Told}
use os_ex.Program.Owned.{todo_Own, answered-Own, entered-Own}
use os_ex.Program.Spawns.{Spawning-later, IsInvoke-IsReading}
use os_ex.Program.Rising.{todo_Spawning, answered-Spawning, entered-Spawning}
use os_ex.Program.Good.{
  Scene, scene, Later, Fair, CallsFirst, Awaits, Resumes, Good, Holds-later, Resumes-later,
  put-Good,
}
use os_ex.Program.{
  Op, test, Frame, Process, call_of, done, put_frame, receive, go_on, local, perform_op, Event,
  statement, expiry,
}

abbrev pub has_memory : Event → Bool
has_memory (statement os) = os.allocates
has_memory (expiry os) = true

-- The process goes on, or it ends for want of memory.
abbrev pub IsFine : ℕ → Bool → Result Process (Unit {0}) → Type 0
IsFine k allocates (returns u p) = Good k p
IsFine k allocates (jumps c p) = ⊥
IsFine k allocates (exits n p) = (n ≡ 1) × (allocates ≡ false)
IsFine k allocates (aborts e) = ⊥

module _ (os : Os) (f : Frame) (p : Process) where
  pub perform_op-round :
      f.todo ≡ [] → perform_op os f p ≡ done (put_frame (record f { todo = test ∷ [] }) p.system p)
  unfolding perform_op
  perform_op-round e = rw (e, perform_op) refl

  module _ (op : Op) (rest : List Op) (e : f.todo ≡ op ∷ rest) where
    pub perform_op-call :
        {c : Call} → call_of op f ≡ some c → perform_op os f p ≡ go_on (step_call os c p.system) p
    unfolding perform_op
    perform_op-call h = rw (e, perform_op) (rw h refl)

    pub perform_op-local : call_of op f ≡ none → perform_op os f p ≡ local op rest f p
    unfolding perform_op
    perform_op-local h = simp (e, perform_op, h)

module _ (k : ℕ) (p : Process) where
  abbrev here : Scene
  here = scene k p.printed p.system

  module _ (allocates : Bool) (s' : System) (v : IsValid s'.stack s')
      (t : s'.total_quantoms ≤ suc (suc k))
      (one_more : s'.total_quantoms ≡ suc p.system.total_quantoms)
      (size : length s'.active_threads ≡ length p.system.active_threads)
      (m : owner (s'.heap 1) ≡ some 0) (told : Told p.printed)
      (r : (q : ℕ)
        → Resumes (scene k p.printed p.system) q (place_of (s'.heap q)) (p.frames q)) where
    later : (q : ℕ) → Later here (scene (suc k) p.printed s') q
    later q = record {
      step = refl;
      lines = λ _. refl;
      fewer = λ _. omega (arith, size);
      longer = omega (arith, one_more);
    }

    put :
        (f : Frame) → Fair (scene (suc k) p.printed s') s'.stack f → Good (suc k) (put_frame f s' p)
    put f w = put-Good k p s' f p.printed v t m told w (λ q n. later q) (λ q n. r q)

    received :
        (o : Option Frame)
        → Awaits (scene k p.printed p.system) s'.stack o
        → IsFine (suc k) allocates (receive success s' p o)
    unfolding receive
    received none a = absurd a
    received (some f) ((w, o, sp), a) = go f.todo refl w.ops_known a
      where
        go :
            (todo : List Op)
            → f.todo ≡ todo
            → AreOps todo
            → CallsFirst todo
            → IsFine (suc k) allocates (receive success s' p (some f))
        go [] e known a = absurd a
        go (op ∷ rest) e (known, os) a =
            let asks = IsInvoke-IsAsking op a in
            let (c, h) = call_of-asking op f asks in
            rw e (
              rw h (
                put _ (
                  answered-Sound w op success rest os (success-Fits k op),
                  answered-Own op success rest f asks (λ z. absurd (subst IsInvoke z a))
                      (todo_Own e o),
                  answered-Spawning op success rest f (length s'.active_threads) asks (todo_Own e o)
                      (λ z. absurd (IsInvoke-IsReading op a z)) (omega arith)
                      (Spawning-later (length s'.active_threads) s'.total_quantoms s'.stack _
                        (λ _. omega (arith, size)) (omega (arith, one_more))
                        (todo_Spawning f _ e sp)),
                )))

    pub resumed_Fine :
        (point : Point)
        → Resumes (scene k p.printed p.system) s'.stack (some point) (p.frames s'.stack)
        → IsFine (suc k) allocates (go_on (returns (seen_at point) s') p)
    unfolding go_on
    resumed_Fine nowhere h = absurd h
    resumed_Fine in_setup h = absurd h
    resumed_Fine (entry e) (h, n) =
        let (f, enters_f, w) = entered-Sound k e h in
        rw enters_f
          (put f (Sound-suc w, entered-Own e f h n enters_f, entered-Spawning e f h n enters_f))
    resumed_Fine in_block h = received (p.frames s'.stack) h
    resumed_Fine in_sleep h = received (p.frames s'.stack) h
    resumed_Fine in_handler h = record {
      valid = v;
      early = t;
      main = m;
      told = told;
      active = Holds-later (later s'.stack) (p.frames s'.stack) h;
      others = λ q n. Resumes-later (later q) (place_of (s'.heap q)) (p.frames q) (r q);
    }

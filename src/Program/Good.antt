-- ===== src/Program/Good.antt =====
-- The invariant of main.cpp on the library: the frames, the places where threads go on, and the output.
use os_ex.Prelude.{
  ℕ_discrete, ◌≤◌, length, ℕ, suc, ◌≤◌, ◌≡◌, ◌≢◌, refl, sym, subst, ap, ◌∙◌, List, [], ◌∷◌, Option,
  none, some, pos, arith, update, length, lookup,
}
use os_ex.Thread.{Thread, Point, nowhere, in_setup, in_block, in_sleep, in_handler, entry}
use os_ex.Machine.{System}
use os_ex.Invariant.{IsValid, cell_at}
use os_ex.Program.Places.{place_of, owner}
use os_ex.Program.Statements.{IsEntry, IsInvoke}
use os_ex.Program.Frames.{Sound, Sound-suc}
use os_ex.Program.Lines.{Own, Told, main_lines, IsTid}
use os_ex.Program.Printed.{other_Own}
use os_ex.Program.Spawns.{Spawning, Spawning-later, Rising-le}
use os_ex.Program.{Op, Frame, Process, Output, put_frame}

-- What a frame depends on besides its own locals: the steps so far, the output, the number of threads
-- and the total of quantums.
pub record Scene : Type 0 where
  pub steps : ℕ
  pub out : List Output
  pub threads : ℕ
  pub total : ℕ

abbrev pub scene : ℕ → List Output → System → Scene
scene k out s = record {
  steps = k;
  out = out;
  threads = length s.active_threads;
  total = s.total_quantoms;
}

-- The frame of the thread at `q`.
abbrev pub Fair : Scene → ℕ → Frame → Type 0
Fair c q f = Sound c.steps f × Own c.out q f × Spawning c.threads c.total q f

abbrev pub Holds : Scene → ℕ → Option Frame → Type 0
Holds c q none = ⊥
Holds c q (some f) = Fair c q f

abbrev pub CallsFirst : List Op → Type 0
CallsFirst [] = ⊥
CallsFirst (op ∷ rest) = IsInvoke op

abbrev pub Awaits : Scene → ℕ → Option Frame → Type 0
Awaits c q none = ⊥
Awaits c q (some f) = Fair c q f × CallsFirst f.todo

-- The frame of a thread that waits fits the place where it goes on: it starts at one of the two
-- functions, it was in the middle of a round, or it waits for a call's result.
abbrev pub Resumes : Scene → ℕ → Option Point → Option Frame → Type 0
Resumes c q none o = Unit {0}
Resumes c q (some nowhere) o = ⊥
Resumes c q (some in_setup) o = ⊥
Resumes c q (some (entry e)) o = IsEntry e × (q ≢ 1)
Resumes c q (some in_handler) o = Holds c q o
Resumes c q (some in_block) o = Awaits c q o
Resumes c q (some in_sleep) o = Awaits c q o

-- After at most `k` statements and signals.
pub record Good (k : ℕ) (p : Process) : Type 0 where
  pub valid : IsValid p.system.stack p.system
  pub early : p.system.total_quantoms ≤ suc k
  pub main : owner (p.system.heap 1) ≡ some 0
  pub told : Told p.printed
  pub active : Holds (scene k p.printed p.system) p.system.stack (p.frames p.system.stack)
  pub others :
      (q : ℕ)
      → q ≢ p.system.stack
      → Resumes (scene k p.printed p.system) q (place_of (p.system.heap q)) (p.frames q)

-- One step later, for a thread that has not run in it.
pub record Later (c c' : Scene) (q : ℕ) : Type 0 where
  pub step : c'.steps ≡ suc c.steps
  pub lines : q ≡ 1 → length (main_lines c'.out) ≡ length (main_lines c.out)
  pub fewer : q ≡ 1 → c'.threads ≤ c.threads
  pub longer : c.total ≤ c'.total

module _ {c c' : Scene} {q : ℕ} (l : Later c c' q) where
  Fair-later : (f : Frame) → Fair c q f → Fair c' q f
  Fair-later f (w, o, m) = (
    subst (λ k. Sound k f) (sym l.step) (Sound-suc w),
    other_Own c'.out q f l.lines o,
    Spawning-later c'.threads c'.total q f l.fewer l.longer m,
  )

  pub Holds-later : (o : Option Frame) → Holds c q o → Holds c' q o
  Holds-later none h = absurd h
  Holds-later (some f) h = Fair-later f h

  Awaits-later : (o : Option Frame) → Awaits c q o → Awaits c' q o
  Awaits-later none h = absurd h
  Awaits-later (some f) (h, a) = (Fair-later f h, a)

  pub Resumes-later :
      (place : Option Point) (o : Option Frame) → Resumes c q place o → Resumes c' q place o
  Resumes-later none o r = tt
  Resumes-later (some nowhere) o r = absurd r
  Resumes-later (some in_setup) o r = absurd r
  Resumes-later (some (entry e)) o r = r
  Resumes-later (some in_handler) o r = Holds-later o r
  Resumes-later (some in_block) o r = Awaits-later o r
  Resumes-later (some in_sleep) o r = Awaits-later o r

update_same : (frames : ℕ → Option Frame) (p : ℕ) (o : Option Frame) → update frames p o p ≡ o
update_same frames p o = ground arith

update_apart :
    (frames : ℕ → Option Frame) (p q : ℕ) (o : Option Frame)
    → q ≢ p
    → update frames p o q ≡ frames q
update_apart frames p q o n = ground arith

-- A state whose running thread gets the frame `f`, after it has printed.
pub put-Good :
    (k : ℕ) (p : Process) (s : System) (f : Frame) (out : List Output)
    → IsValid s.stack s
    → s.total_quantoms ≤ suc (suc k)
    → owner (s.heap 1) ≡ some 0
    → Told out
    → Fair (scene (suc k) out s) s.stack f
    → ((q : ℕ) → q ≢ s.stack → Later (scene k p.printed p.system) (scene (suc k) out s) q)
    → ((q : ℕ)
        → q ≢ s.stack
        → Resumes (scene k p.printed p.system) q (place_of (s.heap q)) (p.frames q))
    → Good (suc k) (put_frame f s (record p { printed = out }))
put-Good k p s f out v t m told w later r = record {
  valid = v;
  early = t;
  main = m;
  told = told;
  active =
      subst (Holds (scene (suc k) out s) s.stack) (sym (update_same p.frames s.stack (some f))) w;
  others = λ q n.
      subst (Resumes (scene (suc k) out s) q (place_of (s.heap q)))
        (sym (update_apart p.frames s.stack q (some f) n))
        (Resumes-later (later q n) (place_of (s.heap q)) (p.frames q) (r q n));
}

owned : (o : Option Thread) → owner o ≡ some 0 → (t : Thread) × (o ≡ some t) × (t.id ≡ 0)
owned none e = absurd (cc)
owned (some t) e = (t, refl, cc)

-- The main thread's object is at 1, so that the running thread has the id 0 just if it is there.
pub running-IsTid :
    {s : System}
    → IsValid s.stack s
    → owner (s.heap 1) ≡ some 0
    → IsTid s.stack (pos s.running_thread_id)
running-IsTid {s} v m =
    let (t, live, i) = v.inv.entries s.running_thread_id s.stack v.runner in
    (
      λ e.
          let same : some t.id ≡ some 0 = sym (ap owner live) ∙ ap (λ q. owner (s.heap q)) e ∙ m in
          cc (same, i),
      λ n z.
          let (u, at_1, j) = owned (s.heap 1) m in
          let first : lookup u.id s.active_threads ≡ some 1 = (cell_at v.inv 1 at_1).registered in
          let same : s.running_thread_id ≡ u.id = cc (z, j) in
          let found : some s.stack ≡ some 1 =
            sym v.runner ∙ ap (λ id. lookup id s.active_threads) same ∙ first in
          n (cc (found)),
    )

-- The main thread's frame tells that there are at most three threads.
pub few_threads : (k : ℕ) (p : Process) → Good k p → length p.system.active_threads ≤ 3
few_threads k p g = elim (ℕ_discrete 1 p.system.stack) [
  | yes e ↦ from_active (p.frames p.system.stack) (sym e) g.active
  | no n ↦ from_waiting (p.system.heap 1) (p.frames 1) g.main (g.others 1 n)
]
  where
    from_active :
        (o : Option Frame)
        → p.system.stack ≡ 1
        → Holds (scene k p.printed p.system) p.system.stack o
        → length p.system.active_threads ≤ 3
    from_active none e h = absurd h
    from_active (some f) e (w, o, m) = Rising-le f (m.main e)

    from_main :
        (o : Option Frame)
        → Holds (scene k p.printed p.system) 1 o
        → length p.system.active_threads ≤ 3
    from_main none h = absurd h
    from_main (some f) (w, o, m) = Rising-le f (m.main refl)

    from_call :
        (o : Option Frame)
        → Awaits (scene k p.printed p.system) 1 o
        → length p.system.active_threads ≤ 3
    from_call none h = absurd h
    from_call (some f) (h, a) = from_main (some f) h

    at_place :
        (place : Point) (o : Option Frame)
        → Resumes (scene k p.printed p.system) 1 (some place) o
        → length p.system.active_threads ≤ 3
    at_place nowhere o r = absurd r
    at_place in_setup o r = absurd r
    at_place (entry e) o (h, n) = absurd (n refl)
    at_place in_handler o r = from_main o r
    at_place in_block o r = from_call o r
    at_place in_sleep o r = from_call o r

    from_waiting :
        (t : Option Thread) (o : Option Frame)
        → owner t ≡ some 0
        → Resumes (scene k p.printed p.system) 1 (place_of t) o
        → length p.system.active_threads ≤ 3
    from_waiting none o e r = absurd (cc)
    from_waiting (some t) o e r = at_place t.env.point o r

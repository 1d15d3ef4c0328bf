-- ===== src/Program/Called.antt =====
-- A signal, or a call of the library, in main.cpp: how the process goes on.
use os_ex.Prelude.{
  ℕ_discrete, pos, length, ℕ, suc, ◌+◌, ◌<◌, ◌≡◌, ◌≢◌, inl, inr, refl, sym, subst, ap, ◌∙◌, List,
  ◌∷◌, some, Bool, true, false, arith, ◌==◌, ℕ_discrete,
}
use os_ex.Checked.{int_max}
use os_ex.Thread.{Point, in_handler}
use os_ex.Machine.{System, Os, Result, returns, jumps, exits, aborts}
use os_ex.Uthreads.{
  spawn, terminate, block, resume, sleep, get_quantums, get_tid, get_total_quantums, Call, Seen,
}
use os_ex.Invariant.{IsValid}
use os_ex.Program.Places.{place_of, Moves}
use os_ex.Program.Outcomes.{SpawnsInMain, Stays, Goes, IsLeft}
use os_ex.Program.Calls.{tick_Moves}
use os_ex.Program.Statements.{
  IsAllowed, AreOps, IsAsking, IsInvoke, block-IsInvoke, sleep-IsInvoke, ask_tid_answer,
}
use os_ex.Program.Frames.{Answers-Fits, answered-Sound}
use os_ex.Program.Lines.{Own, IsTid}
use os_ex.Program.Owned.{todo_Own, answered-Own}
use os_ex.Program.Spawns.{Spawning, reading_answer, spawns-starts}
use os_ex.Program.Rising.{todo_Spawning, answered-Spawning}
use os_ex.Program.Good.{
  scene, Later, Fair, CallsFirst, Awaits, Resumes, Good, put-Good, running-IsTid,
}
use os_ex.Program.{answered, Op, ask_tid, Frame, Process, call_of, receive, go_on, expiry, step}
use os_ex.Program.Landed.{IsFine, resumed_Fine}

module _ (k : ℕ) (p : Process) where
  module _ (good : Good k p) (early : k + 301 < int_max) where
    pub few : p.system.total_quantoms < int_max
    few = omega (arith, good.early, early)

    moved :
        (allocates : Bool) (place : Point) (seen : Seen) (s' : System)
        → Moves place p.system seen s'
        → Resumes (scene k p.printed p.system) p.system.stack (some place) (p.frames p.system.stack)
        → IsFine (suc k) allocates (go_on (returns seen s') p)
    moved allocates place seen s' m h =
        subst (λ seen. IsFine (suc k) allocates (go_on (returns seen s') p)) (sym m.seen_eq)
          (resumed_Fine k p allocates s' m.valid (omega (arith, m.total, good.early)) m.total m.size
            (m.owners 1 0 good.main) good.told all m.point
            (subst (λ x. Resumes (scene k p.printed p.system) s'.stack x (p.frames s'.stack))
              m.landed (all s'.stack)))
      where
        all : (q : ℕ) → Resumes (scene k p.printed p.system) q (place_of (s'.heap q)) (p.frames q)
        all q =
            subst (λ x. Resumes (scene k p.printed p.system) q x (p.frames q)) (sym (m.places q))
              (elim (ℕ_discrete p.system.stack q) [
                | yes e ↦ rw (same e) (
                    subst (λ q. Resumes (scene k p.printed p.system) q (some place) (p.frames q)) e
                      h)
                | no n ↦ rw (apart n) (good.others q (λ z. n (sym z)))
              ])
          where
            same : p.system.stack ≡ q → (p.system.stack == q) ≡ true
            same e = ground (arith, e)

            apart : p.system.stack ≢ q → (p.system.stack == q) ≡ false
            apart n = ground (arith, n)

    pub ticked : (os : Os) → IsFine (suc k) true (step (expiry os) p)
    unfolding step
    ticked os =
        let (seen, s', runs, m) = tick_Moves good.valid few os in
        rw runs (moved true in_handler seen s' m good.active)

    module _ (os : Os) (f : Frame) (e : p.frames p.system.stack ≡ some f) (op : Op) (rest : List Op)
        (next : f.todo ≡ op ∷ rest) where
      pub fair : Fair (scene k p.printed p.system) p.system.stack f
      fair = rw e at good.active

      pub known : AreOps rest
      known = (rw next at fair.0.ops_known).1

      own : Own p.printed p.system.stack (record f { todo = op ∷ rest })
      own = todo_Own next fair.1

      start :
          Spawning
            (length p.system.active_threads)
            p.system.total_quantoms
            p.system.stack
            (record f { todo = op ∷ rest })
      start = todo_Spawning f _ next fair.2

      pub in_main : (c : Call) → call_of op f ≡ some c → SpawnsInMain p.system c
      in_main (spawn x) h = elim (ℕ_discrete p.system.stack 1) [
        | yes z ↦
            let i : pos p.system.running_thread_id ≡ pos 0 =
              (running-IsTid good.valid good.main).0 z in
            cc
        | no n ↦ absurd (omega (arith, start.other n, spawns-starts op f h))
      ]
      in_main (terminate tid) h = tt
      in_main (block tid) h = tt
      in_main (resume tid) h = tt
      in_main (sleep n) h = tt
      in_main (get_quantums tid) h = tt
      in_main get_tid h = tt
      in_main get_total_quantums h = tt

      stayed :
          (c : Call) (seen : Seen) (s' : System)
          → IsAllowed c
          → IsAsking op
          → call_of op f ≡ some c
          → Stays c p.system seen s'
          → IsFine (suc k) os.allocates (go_on (returns seen s') p)
      unfolding go_on receive
      stayed c seen s' allowed asks h m = rw m.seen_eq (
          rw (ap p.frames m.valid.on_stack ∙ e) (
            rw next (
              rw h (
                put-Good k p s' _ p.printed
                  (subst (λ q. IsValid q s') (sym m.valid.on_stack) m.valid)
                  (omega (arith, m.total, good.early)) (m.owners 1 0 good.main) good.told
                  (
                    answered-Sound fair.0 op m.code rest known
                        (Answers-Fits p.system m.code op f h m.answers good.early),
                    subst (λ q. Own p.printed q (answered op m.code rest f)) (sym m.valid.on_stack)
                        (answered-Own op m.code rest f asks tid own),
                    spawning,
                  )
                  later others))))
        where
          spawning :
              Spawning
                (length s'.active_threads)
                s'.total_quantoms
                s'.stack
                (answered op m.code rest f)
          spawning =
              subst
                (λ q.
                  Spawning (length s'.active_threads) s'.total_quantoms q
                    (answered op m.code rest f))
                (sym m.valid.on_stack)
                (subst
                  (λ t.
                    Spawning (length s'.active_threads) t p.system.stack
                      (answered op m.code rest f))
                  (sym m.total)
                  (answered-Spawning op m.code rest f (length s'.active_threads) asks own
                    (λ i. reading_answer p.system m.code op f i h m.answers)
                    (omega (arith, m.size, spawns-starts op f h)) start))

          later :
              (q : ℕ)
              → q ≢ s'.stack
              → Later (scene k p.printed p.system) (scene (suc k) p.printed s') q
          later q n = record {
            step = refl;
            lines = λ _. refl;
            fewer = λ z. omega (
              arith,
              m.size,
              spawns-starts op f h,
              start.other (λ z'. n (z ∙ sym z' ∙ sym m.valid.on_stack)),
            );
            longer = omega (arith, m.total);
          }

          tid : op ≡ ask_tid → IsTid p.system.stack m.code
          tid i =
              subst (IsTid p.system.stack) (sym (ask_tid_answer p.system m.code op f i h m.answers))
                (running-IsTid good.valid good.main)

          others :
              (q : ℕ)
              → q ≢ s'.stack
              → Resumes (scene k p.printed p.system) q (place_of (s'.heap q)) (p.frames q)
          others q n = elim (m.places q) [
            | inl same ↦ rw same (good.others q (λ z. n (z ∙ sym m.valid.on_stack)))
            | inr (x, spawns, fresh, born) ↦
                rw born (subst IsAllowed spawns allowed, λ z. cc (rw z at fresh, good.main))
          ]

      pub called :
          (c : Call) (r : Result System Seen)
          → IsAllowed c
          → IsAsking op
          → call_of op f ≡ some c
          → Goes os c p.system r
          → IsFine (suc k) os.allocates (go_on r p)
      unfolding go_on
      called c (returns seen s') allowed asks h (inl m) = stayed c seen s' allowed asks h m
      called c (returns seen s') allowed asks h (inr (place, left, m)) =
          moved os.allocates place seen s' m (awaits left)
        where
          waits :
              IsInvoke op
              → Awaits (scene k p.printed p.system) p.system.stack (p.frames p.system.stack)
          waits i = rw e (fair, subst CallsFirst (sym next) i)

          awaits :
              IsLeft c place
              → Resumes
                  (scene k p.printed p.system)
                  p.system.stack
                  (some place)
                  (p.frames p.system.stack)
          awaits (inl (tid, same, at_block)) =
              rw at_block (waits (block-IsInvoke op f tid (h ∙ ap some same)))
          awaits (inr (n, same, at_sleep)) =
              rw at_sleep (waits (sleep-IsInvoke op f n (h ∙ ap some same)))
      called c (jumps x s') allowed asks h g = absurd g
      called c (exits n s') allowed asks h g = g
      called c (aborts x) allowed asks h g = absurd g

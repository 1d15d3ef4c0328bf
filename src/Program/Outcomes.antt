-- ===== src/Program/Outcomes.antt =====
-- What a call of uthreads.cpp comes to, by the places where the threads go on.
use os_ex.Prelude.{
  length, ◌+◌, ◌≤◌, ℕ, ◌<◌, ◌≡◌, ◌≢◌, ◌⊎◌, inl, inr, refl, ap, ◌∙◌, none, some, ℤ, pos, update,
  arith, ℕ_discrete, true, false,
}
use os_ex.Checked.{int_max}
use os_ex.Thread.{Thread, Point, in_block, in_sleep, entry, not_sleeping}
use os_ex.Machine.{System, Os, Result, returns, jumps, exits, aborts, bind}
use os_ex.Scheduler.{success, run_topmost_thread_in_ready_queue}
use os_ex.Uthreads.{
  Seen, returned, settle, Call, spawn, terminate, block, sleep, get_tid, get_total_quantums,
}
use os_ex.Invariant.{Inv, IsBusy, IsValid}
use os_ex.Dispatch.{run_topmost_lem}
use os_ex.Safety.{masked-IsBusy, to_user, refused_IsValid}
use os_ex.Behaviour.{to_user_returns}
use os_ex.Program.Places.{owner, place_of, Moves, leaves}

-- Where the thread is that gave the processor up in a call.
abbrev pub IsLeft : Call → Point → Type 0
IsLeft c place =
    ((tid : ℤ) × (c ≡ block tid) × (place ≡ in_block))
    ⊎ ((n : ℤ) × (c ≡ sleep n) × (place ≡ in_sleep))

-- Every call but the end of a thread and a sleep of -1.
abbrev pub IsMild : Call → Type 0
IsMild (terminate tid) = ⊥
IsMild (sleep n) = n ≢ not_sleeping
IsMild _ = Unit {0}

-- What a call returns that reads the scheduler.
abbrev pub Answers : Call → System → ℤ → Type 0
Answers get_total_quantums s n = n ≡ pos s.total_quantoms
Answers get_tid s n = n ≡ pos s.running_thread_id
Answers _ s n = Unit {0}

-- Only the main thread spawns.
abbrev pub SpawnsInMain : System → Call → Type 0
SpawnsInMain s (spawn e) = s.running_thread_id ≡ 0
SpawnsInMain s c = Unit {0}

abbrev pub spawns : Call → ℕ
spawns (spawn e) = 1
spawns _ = 0

-- The call returns, and all threads go on where they would have before, but for a new one.
pub record Stays (c : Call) (s : System) (seen : Seen) (s' : System) : Type 0 where
  pub code : ℤ
  pub seen_eq : seen ≡ returned code
  pub answers : Answers c s code
  pub valid : IsValid s.stack s'
  pub total : s'.total_quantoms ≡ s.total_quantoms
  pub places :
      (q : ℕ)
      → (place_of (s'.heap q) ≡ place_of (s.heap q))
        ⊎ ((e : ℕ) × (c ≡ spawn e)
            × (owner (s.heap q) ≡ none)
            × (place_of (s'.heap q) ≡ some (entry e)))
  pub size : length s'.active_threads ≤ length s.active_threads + spawns c
  pub owners : (q id : ℕ) → owner (s.heap q) ≡ some id → owner (s'.heap q) ≡ some id

-- The next quantum starts.
abbrev pub GivesUp : Call → System → Seen → System → Type 0
GivesUp c s seen s' = (place : Point) × IsLeft c place × Moves place s seen s'

-- What a call comes to. There is no fault, and only a lack of memory ends the process.
abbrev pub Goes : Os → Call → System → Result System Seen → Type 0
Goes os c s (returns seen s') = Stays c s seen s' ⊎ GivesUp c s seen s'
Goes os c s (jumps k s') = ⊥
Goes os c s (exits n s') = (n ≡ 1) × (os.allocates ≡ false)
Goes os c s (aborts e) = ⊥

module _ {s0 : System} (valid : IsValid s0.stack s0) (lt : s0.total_quantoms < int_max)
    (os : Os) where
  abbrev s : System
  s = record s0 { masked = true }

  abbrev busy : IsBusy s0.stack s
  busy = masked-IsBusy true valid.busy

  abbrev inv : Inv s.total_quantoms s0.stack s
  inv = busy.inv

  pub unmoved_Goes :
      (c : Call) (code : ℤ)
      → Answers c s0 code
      → Goes os c s0 (returns (returned code) (record s0 { masked = false }))
  unmoved_Goes c code a = inl (record {
    code = code;
    seen_eq = refl;
    answers = a;
    valid = refused_IsValid valid;
    total = refl;
    places = λ q. inl refl;
    size = omega arith;
    owners = λ q id h. h;
  })

  pub refused_Goes :
      (c : Call) (code : ℤ) → Answers c s0 code → Goes os c s0 (returns (returned code) s0)
  refused_Goes c code a = inl (record {
    code = code;
    seen_eq = refl;
    answers = a;
    valid = valid;
    total = refl;
    places = λ q. inl refl;
    size = omega arith;
    owners = λ q id h. h;
  })

  module _ (c : Call) (m : Result System ℤ) where
    pub same_Goes :
        (code : ℤ) → Answers c s0 code → m ≡ returns code s → Goes os c s0 (to_user os m)
    same_Goes code a e = rw (to_user_returns os m code s e) (unmoved_Goes c code a)

    -- One object changes, and not its context.
    pub other_Goes :
        (code : ℤ) (s1 : System) (p : ℕ) (t t' : Thread)
        → Answers c s0 code
        → m ≡ returns code s1
        → IsBusy s0.stack s1
        → s0.heap p ≡ some t
        → t'.env ≡ t.env
        → t'.id ≡ t.id
        → s1.heap ≡ update s0.heap p (some t')
        → s1.total_quantoms ≡ s0.total_quantoms
        → s1.active_threads ≡ s0.active_threads
        → Goes os c s0 (to_user os m)
    other_Goes code s1 p t t' a e b live same id h n z = rw (to_user_returns os m code s1 e) (
        inl (record {
          code = code;
          seen_eq = refl;
          answers = a;
          valid = record { busy = masked-IsBusy false b; let_in = refl };
          total = n;
          places = λ q. inl (
              ap (λ f. place_of (f q)) h ∙ elim (ℕ_discrete p q) [
                | yes k ↦ ground (arith, k, ap place_of live, ap (λ x. x.point) same)
                | no k ↦ ground (arith, k)
              ]);
          size = omega (arith, ap length z);
          owners = λ q i e'. ap (λ f. owner (f q)) h ∙ elim (ℕ_discrete p q) [
            | yes k ↦ ground (arith, k, ap owner live, id, e')
            | no k ↦ ground (arith, k, e')
          ];
        }))

    pub leaves_Goes :
        (s1 : System) (t : Thread)
        → m ≡ bind (run_topmost_thread_in_ready_queue os s1) (λ _ s'. returns success s')
        → Inv s1.total_quantoms 0 s1
        → s1.total_quantoms ≡ s0.total_quantoms
        → s1.active_threads ≡ s0.active_threads
        → s1.heap ≡ update s0.heap s0.stack (some t)
        → owner (s0.heap s0.stack) ≡ some t.id
        → IsLeft c t.env.point
        → Goes os c s0 (to_user os m)
    unfolding settle
    leaves_Goes s1 t e i n z h id k =
        let (cx, j, runs, w) = run_topmost_lem os i (omega (arith, n, lt)) in
        let (seen, lands, moves) = leaves i w s0 t h id n z in
        rw e (rw runs (rw lands (inr (t.env.point, k, moves))))

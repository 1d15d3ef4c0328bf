-- ===== src/Safety/Ways.antt =====
-- What a call of uthreads.cpp or a signal comes to, and the two ways in which a call goes on: it
-- returns to its caller, or the next quantum starts.
use os_ex.Prelude.{
  ℕ, ◌<◌, ◌≡◌, ◌⊎◌, inl, inr, refl, Bool, true, false, Option, none, some, ℤ, pos, negsuc, eq_ℤ,
  lookup, arith,
}
use os_ex.Checked.{int_max}
use os_ex.Machine.{System, Os, Result, returns, jumps, exits, aborts, bind}
use os_ex.Scheduler.{
  success, failure, find, change_blockage_status_sigvtalrm, run_topmost_thread_in_ready_queue,
}
use os_ex.Uthreads.{Seen, returned, interrupted, finish, settle}
use os_ex.Invariant.{Inv, IsBusy, IsValid, outer-Inv}
use os_ex.Dispatch.{run_topmost_lem}
use os_ex.Safety.Land.{go_to_lem}

-- User code goes on in a valid state, or the process ends with every object freed. There is no fault.
abbrev pub Outcome : Result System Seen → Type 0
Outcome (returns seen s) = (cur : ℕ) × IsValid cur s
Outcome (jumps c s) = ⊥
Outcome (exits n s) = ((n ≡ 0) ⊎ (n ≡ 1)) × ((p : ℕ) → s.heap p ≡ none)
Outcome (aborts e) = ⊥

pub masked-IsBusy :
    {cur : ℕ} {s : System} (masked : Bool)
    → IsBusy cur s
    → IsBusy cur (record s { masked = masked })
masked-IsBusy {cur} {s} masked b = record {
  inv = outer-Inv s.stack s.running_thread_id s.total_quantoms masked s.handled s.itimer b.inv;
  runner = b.runner;
  on_stack = b.on_stack;
}

eq_ℤ-eq : (a b : ℤ) → eq_ℤ a b ≡ true → a ≡ b
eq_ℤ-eq a b h = ground arith

pub finish_lem :
    (code : ℤ) (s : System) → finish code s ≡ returns code (record s { masked = false })
unfolding finish change_blockage_status_sigvtalrm
finish_lem code s = ground (arith, eq_ℤ-eq code failure)

module _ (os : Os) (m : Result System ℤ) where
  -- A call up to user code, from its result inside the scheduler.
  abbrev pub to_user : Result System Seen
  to_user = settle os (bind (bind m finish) (λ r s'. returns (returned r) s'))

  pub returns_safe :
      {cur : ℕ} (code : ℤ) (s : System) → m ≡ returns code s → IsBusy cur s → Outcome to_user
  unfolding settle
  returns_safe {cur} code s e b =
      rw e (rw (finish_lem code s) (cur, record { busy = masked-IsBusy false b; let_in = refl }))

  pub jumps_safe :
      (s : System)
      → m ≡ bind (run_topmost_thread_in_ready_queue os s) (λ _ s'. returns success s')
      → Inv s.total_quantoms 0 s
      → s.total_quantoms < int_max
      → Outcome to_user
  unfolding settle
  jumps_safe s e inv lt =
      let (c, s', runs, w) = run_topmost_lem os inv lt in
      let (seen, lands, valid) = go_to_lem w in rw e (rw runs (rw lands (w.front, valid)))

pub tick_jumps_safe :
    (os : Os) (m : Result System (Unit {0})) (s : System)
    → m ≡ bind (run_topmost_thread_in_ready_queue os s) (λ _ s'. returns tt s')
    → Inv s.total_quantoms 0 s
    → s.total_quantoms < int_max
    → Outcome (settle os (bind m (λ _ s'. returns interrupted s')))
unfolding settle
tick_jumps_safe os m s e inv lt =
    let (c, s', runs, w) = run_topmost_lem os inv lt in
    let (seen, lands, valid) = go_to_lem w in rw e (rw runs (rw lands (w.front, valid)))

-- What `find` finds: nothing, or the entry of a non-negative id.
pub find-cases :
    (tid : ℤ) (s : System)
    → (find tid s ≡ none)
      ⊎ ((id : ℕ) × (p : ℕ) × (tid ≡ pos id)
          × (find tid s ≡ some (id, p))
          × (lookup id s.active_threads ≡ some p))
unfolding find
find-cases (negsuc n) s = inl refl
find-cases (pos id) s = go (lookup id s.active_threads) refl
  where
    go :
        (o : Option ℕ)
        → lookup id s.active_threads ≡ o
        → (find (pos id) s ≡ none)
          ⊎ ((i : ℕ) × (p : ℕ) × (pos id ≡ pos i)
              × (find (pos id) s ≡ some (i, p))
              × (lookup i s.active_threads ≡ some p))
    go none e = inl (rw (e, find))
    go (some p) e = inr (id, p, refl, rw (e, find), e)

pub find_masked :
    (tid : ℤ) (s : System) (masked : Bool) → find tid (record s { masked = masked }) ≡ find tid s
unfolding find
find_masked (pos id) s masked = refl
find_masked (negsuc n) s masked = refl

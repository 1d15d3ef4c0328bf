-- ===== src/Dispatch/Countdown.antt =====
-- `update_sleeping_threads` of scheduler.cpp as a whole.
use os_ex.Prelude.{ℕ, ◌≡◌, refl, sym, ◌∙◌, ap, ◌++◌, Option, none, some, count, ℕ_discrete, arith}
use os_ex.Thread.{Thread}
use os_ex.Machine.{System, returns}
use os_ex.Scheduler.{update_sleeping_threads}
use os_ex.Invariant.{Inv, sleeping_weight}
use os_ex.Dispatch.Loop.{passed, due, Slept, update_each_lem}

-- With the invariant the loop meets no fault, and every sleeper counts one quantum down.
pub update_sleeping_threads_lem :
    {cap cur : ℕ} {s : System}
    → Inv cap cur s
    → (s' : System) × (update_sleeping_threads s ≡ returns tt s')
      × Slept cap cur s.sleeping_threads s s'
unfolding update_sleeping_threads
update_sleeping_threads_lem {s} inv = update_each_lem s.sleeping_threads inv (λ q. omega arith)

module _ {cap cur : ℕ} {s s' : System} (inv : Inv cap cur s)
    (k : Slept cap cur s.sleeping_threads s s') where
  awake : (o : Option Thread) → sleeping_weight o ≡ 0 → passed o ≡ o
  awake none h = refl
  awake (some t) h = ground arith

  -- Every sleeper has counted one quantum down, and no other thread has changed.
  pub Slept-heap : (q : ℕ) → s'.heap q ≡ passed (s.heap q)
  Slept-heap q = elim (ℕ_discrete (count q s.sleeping_threads) 0) [
    | yes h ↦ k.unmet q h ∙ sym (awake (s.heap q) (sym (inv.sleepers q) ∙ h))
    | no h ↦ k.met q (omega arith)
  ]

  pub Slept-queue : s'.ready_queue ≡ s.ready_queue ++ due s.heap s.sleeping_threads
  Slept-queue = ap (λ r. r.ready_queue) k.frame

-- With the invariant the loop of `update_sleeping_threads` ends with no fault and keeps the
-- invariant; each sleeper with a positive count has one less, each other sleeper is ready, no
-- other thread has changed, and the sleepers that woke are at the end of the ready queue in the
-- order of the set.
pub sleepers_pass :
    {cap cur : ℕ} {s : System}
    → Inv cap cur s
    → (s' : System) × (update_sleeping_threads s ≡ returns tt s')
      × Inv cap cur s'
      × ((q : ℕ) → s'.heap q ≡ passed (s.heap q))
      × (s'.ready_queue ≡ s.ready_queue ++ due s.heap s.sleeping_threads)
sleepers_pass inv =
    let (s', runs, k) = update_sleeping_threads_lem inv in
    (s', runs, k.inv, Slept-heap inv k, Slept-queue inv k)

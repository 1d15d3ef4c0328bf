-- ===== src/Dispatch/Topmost.antt =====
-- `run_topmost_thread_in_ready_queue` of scheduler.cpp as a whole.
use os_ex.Prelude.{
  ℕ, suc, ◌<◌, ◌≡◌, ◌≢◌, inl, inr, refl, ◌∙◌, ap, List, [], ◌∷◌, false, Option, none, some, count,
  count-nil, count-cons, count-cons_self, lookup, is_some, lt→ltb, arith,
}
use os_ex.Checked.{int_max}
use os_ex.Thread.{main_thread_id, Thread, Context, ready}
use os_ex.Machine.{System, Os, returns, jumps}
use os_ex.Scheduler.{pop_and_run, count_quantom, run_topmost_thread_in_ready_queue}
use os_ex.Invariant.{Inv, CellInv, cell_at, ready_weight, change-Inv, outer-Inv}
use os_ex.Dispatch.Start.{handled_after, itimer_after, started, switched, run_thread_lem}
use os_ex.Dispatch.Loop.{Slept}
use os_ex.Dispatch.Countdown.{update_sleeping_threads_lem}

abbrev pub counted : System → System
counted s = record s { total_quantoms = suc s.total_quantoms }

pub count_quantom_lem :
    (s : System) → s.total_quantoms < int_max → count_quantom s ≡ returns tt (counted s)
unfolding count_quantom
count_quantom_lem s h = rw (lt→ltb s.total_quantoms int_max h)

-- A member of the queue is a live thread that is ready.
pub ready_at :
    {cap cur : ℕ} {s : System}
    → Inv cap cur s
    → (p : ℕ) → 0 < count p s.ready_queue
    → (t : Thread) × (s.heap p ≡ some t) × (t.state ≡ ready)
ready_at {cap} {cur} {s} inv p h = go (s.heap p) refl (rw (inv.queue p) at h)
  where
    go :
        (o : Option Thread)
        → s.heap p ≡ o
        → 0 < ready_weight o
        → (t : Thread) × (s.heap p ≡ some t) × (t.state ≡ ready)
    go none e w = absurd (omega arith)
    go (some t) e w = (t, e, ground arith)

is_some-elim : (o : Option ℕ) → is_some o ≡ 1 → (p : ℕ) × (o ≡ some p)
is_some-elim none h = absurd (omega arith)
is_some-elim (some p) h = (p, refl)

-- While no thread runs, the main thread is ready, so the queue is not empty.
pub queue_nonempty :
    {cap : ℕ} {s : System} → Inv cap 0 s → (p : ℕ) × (rest : List ℕ) × (s.ready_queue ≡ p ∷ rest)
queue_nonempty {cap} {s} inv =
    let (p, e) = is_some-elim (lookup main_thread_id s.active_threads) inv.has_main in
    let (t, live, i) = inv.entries main_thread_id p e in
    elim ((cell_at inv p live).main i) [
      | inl r ↦ absurd (absent p live ((cell_at inv p live).runs r))
      | inr r ↦ nonempty p s.ready_queue (inv.queue p ∙ ap ready_weight live ∙ weight t r)
    ]
  where
    absent : (p : ℕ) {t : Thread} → s.heap p ≡ some t → p ≢ 0
    absent p live z = cc (inv.null, rw z at live)

    weight : (t : Thread) → t.state ≡ ready → ready_weight (some t) ≡ 1
    weight t r = ground arith

    nonempty : (p : ℕ) (xs : List ℕ) → count p xs ≡ 1 → (q : ℕ) × (rest : List ℕ) × (xs ≡ q ∷ rest)
    nonempty p [] h = absurd (omega (arith, h, count-nil p))
    nonempty p (q ∷ rest) h = (q, rest, refl)

-- The start of a quantum: the sleepers have counted down in `mid`, and `front` leaves its queue.
pub record Switch (os : Os) (s : System) (c : Context) (s' : System) : Type 0 where
  pub mid : System
  pub front : ℕ
  pub rest : List ℕ
  pub thread : Thread
  pub slept : Slept s.total_quantoms 0 s.sleeping_threads (counted s) mid
  pub queue : mid.ready_queue ≡ front ∷ rest
  pub live : mid.heap front ≡ some thread
  pub was_ready : thread.state ≡ ready
  pub context : c ≡ thread.env
  pub final : s' ≡ switched os (record mid { ready_queue = rest }) front thread
  pub inv : Inv (suc s.total_quantoms) front s'

module _ {cap : ℕ} {s : System} (inv : Inv cap 0 s) (p : ℕ) (rest : List ℕ)
    (queue : s.ready_queue ≡ p ∷ rest) (t : Thread) (live : s.heap p ≡ some t)
    (h : t.state ≡ ready) where
  p≢0 : p ≢ 0
  p≢0 z = cc (inv.null, rw z at live)

  front_CellInv : CellInv s.active_threads (suc cap) p p (started t)
  front_CellInv = ground (arith, cell_at inv p live)

  pub switched-Inv : (os : Os) → Inv (suc cap) p (switched os (record s { ready_queue = rest }) p t)
  switched-Inv os =
      outer-Inv s.stack t.id s.total_quantoms false (handled_after os s) (itimer_after os s) (
        change-Inv inv (suc cap) p p (started t) live rest s.sleeping_threads refl front_CellInv
          (λ q n z. (λ e. absurd (z e), λ e. absurd (n e))) (omega arith)
          (λ q. ground (arith, inv.queue q, rw queue at (inv.queue q), count-cons q p rest))
          (λ q. ground (arith, inv.sleepers q)))

-- With the invariant, no running thread and fewer quantums than the largest int,
-- `run_topmost_thread_in_ready_queue` meets no fault and never returns: the sleepers count down,
-- the thread at the front of the queue that they leave was ready, it is taken off the queue and
-- set running, and the code jumps to its context in a state where the invariant holds again.
pub run_topmost_lem :
    (os : Os) {s : System}
    → Inv s.total_quantoms 0 s
    → s.total_quantoms < int_max
    → (c : Context) × (s' : System) × (run_topmost_thread_in_ready_queue os s ≡ jumps c s')
      × Switch os s c s'
unfolding run_topmost_thread_in_ready_queue pop_and_run
run_topmost_lem os {s} inv lt =
    let (mid, runs, slept) = update_sleeping_threads_lem (
      outer-Inv s.stack s.running_thread_id (suc s.total_quantoms) s.masked s.handled s.itimer
        inv) in
    let (p, rest, e) = queue_nonempty slept.inv in
    let (t, live, h) = ready_at slept.inv p (rw e (omega (arith, count-cons_self p rest))) in
    let s' : System = switched os (record mid { ready_queue = rest }) p t in
    (
      t.env,
      s',
      rw (count_quantom_lem s lt) (
          rw runs (
            rw (e, pop_and_run)
              (run_thread_lem os (record mid { ready_queue = rest }) p t live h
                (omega (arith, (cell_at slept.inv p live).aged))))),
      record {
        mid = mid;
        front = p;
        rest = rest;
        thread = t;
        slept = slept;
        queue = e;
        live = live;
        was_ready = h;
        context = refl;
        final = refl;
        inv = switched-Inv slept.inv p rest e t live h os;
      },
    )

-- ===== src/Quantums/Rounds.antt =====
-- Ticks in a row (`internal_time_handler` of scheduler.cpp) and the ready queue.
use os_ex.Prelude.{
  ap, some, count, ℕ, suc, ◌+◌, ◌<◌, ◌≡◌, ◌∙◌, List, [], ◌∷◌, ◌++◌, length, arith, subst,
}
use mathlib.Core.List.{append_assoc}
use os_ex.Checked.{int_max}
use os_ex.Machine.{System, Os, Result, returns, bind}
use os_ex.Uthreads.{Seen, interrupted, step_tick}
use os_ex.Thread.{Thread}
use os_ex.Dispatch.{due, due-update}
use os_ex.Safety.{current_running}
use os_ex.Invariant.{IsValid}
use os_ex.Quantums.Tick.{tick_lem, tick_queue, final_total}

-- Ticks in a row, each with its own answers of the operating system.
unfoldable pub run_ticks : List Os → System → Result System Seen
run_ticks [] s = returns interrupted s
run_ticks (os ∷ rest) s = bind (step_tick os s) (λ _ s'. run_ticks rest s')

-- In a valid state with fewer quantums than the largest int and a ready queue that is not empty,
-- one tick makes the thread at the front run and leaves in the queue the others in their order,
-- then the thread that ran, then the sleepers whose count is not positive, in the order of the
-- set; the total of quantums rises by one and the state is valid.
pub round_robin :
    {cur : ℕ} {s : System} (os : Os) (p : ℕ) (rest : List ℕ)
    → IsValid cur s
    → s.total_quantoms < int_max
    → s.ready_queue ≡ p ∷ rest
    → (seen : Seen) × (s' : System) × (step_tick os s ≡ returns seen s')
      × IsValid p s'
      × (s'.ready_queue ≡ rest ++ cur ∷ due s.heap s.sleeping_threads)
      × (s'.total_quantoms ≡ suc s.total_quantoms)
round_robin {cur} {s} os p rest v lt e =
    let (seen, s', runs, k) = tick_lem os v lt in
    let (front, queue) = tick_queue k p rest e in
    (
      seen,
      s',
      runs,
      subst (λ q. IsValid q s') front k.valid,
      queue ∙ ap (λ w. rest ++ cur ∷ w) (due-update s.heap cur _ s.sleeping_threads (awake k.live)),
      final_total k,
    )
  where
    awake : {t : Thread} → s.heap cur ≡ some t → count cur s.sleeping_threads ≡ 0
    awake live = ground (arith, v.inv.sleepers cur, live, current_running v.busy live)

-- In a valid state a thread with k others before it in the ready queue runs after k + 1 ticks of
-- the timer with no call in between, if the total of quantums plus k is below the largest int;
-- the state is valid again.
pub runs_after :
    (before : List ℕ) (oss : List Os) {cur : ℕ} {s : System} (p : ℕ) (behind : List ℕ)
    → length oss ≡ suc (length before)
    → IsValid cur s
    → s.total_quantoms + length before < int_max
    → s.ready_queue ≡ before ++ p ∷ behind
    → (seen : Seen) × (s' : System) × (run_ticks oss s ≡ returns seen s') × IsValid p s'
unfolding run_ticks
runs_after before [] p behind l v lt e = absurd (omega arith)
runs_after [] (os ∷ []) p behind l v lt e =
    let (seen, s', runs, valid, queue, total) = round_robin os p behind v (omega arith) e in
    (interrupted, s', rw runs, valid)
runs_after [] (os ∷ o ∷ oss) p behind l v lt e = absurd (omega arith)
runs_after (q ∷ before) (os ∷ oss) {cur} {s} p behind l v lt e =
    let (seen, s', runs, valid, queue, total) =
      round_robin os q (before ++ p ∷ behind) v (omega arith) e in
    let (seen', s'', runs', valid') =
      runs_after before oss {s = s'} p (behind ++ cur ∷ due s.heap s.sleeping_threads) (omega arith)
        valid (omega (arith, total))
        (queue ∙ append_assoc before (p ∷ behind) (cur ∷ due s.heap s.sleeping_threads)) in
    (seen', s'', rw runs runs', valid')

-- ===== src/Quantums/Tick.antt =====
-- The timer's signal (`internal_time_handler` of scheduler.cpp), from user code to user code.
use mathlib.Core.List.{append_assoc}
use os_ex.Prelude.{
  ℕ, suc, ◌+◌, ◌<◌, ◌≡◌, ◌≢◌, inl, inr, refl, sym, ◌∙◌, ap, List, [], ◌∷◌, ◌++◌, true, Option, none,
  some, ◌==◌, of_bool, if◌then◌else◌, count, count-cons_self, ◌⊎◌, update, arith, ℕ_discrete,
}
use os_ex.Checked.{int_max}
use os_ex.Thread.{Thread, Context, ready, sleeping, same_state, in_handler}
use os_ex.Machine.{System, Os, returns}
use os_ex.Uthreads.{Seen, settle, step_tick, static_external_time_handler}
use os_ex.Invariant.{IsBusy, IsValid, update_self, update_other, outer-Inv}
use os_ex.Dispatch.{Switch, due, started, passed, slept, run_topmost_lem, Slept-heap}
use os_ex.Safety.{
  current_thread, left_in, yielded, yielded-Inv, internal_time_handler-yielded, go_to_lem,
  go_to-seen_at, seen_at, arrived, masked-IsBusy,
}

-- A tick: the current thread `cur` yields as `thread`, and the switch `by` leads to user code.
pub record Ticked (os : Os) (cur : ℕ) (s s' : System) : Type 0 where
  pub busy : IsBusy cur (record s { masked = true })
  pub thread : Thread
  pub live : s.heap cur ≡ some thread
  pub context : Context
  pub jumped : System
  pub by : Switch os (yielded busy live) context jumped
  pub lands : s' ≡ arrived by
  pub sees : (seen : Seen) → step_tick os s ≡ returns seen s' → seen ≡ seen_at context.point
  pub valid : IsValid by.front s'

pub tick_lem :
    {cur : ℕ} {s : System} (os : Os)
    → IsValid cur s
    → s.total_quantoms < int_max
    → (seen : Seen) × (s' : System) × (step_tick os s ≡ returns seen s') × Ticked os cur s s'
unfolding step_tick static_external_time_handler settle
tick_lem {cur} {s} os v lt =
    let busy : IsBusy cur (record s { masked = true }) = masked-IsBusy true v.busy in
    let (t, live, i) = current_thread busy in
    let (c, j, runs, w) = run_topmost_lem os (yielded-Inv busy live) lt in
    let (seen, lands, valid) = go_to_lem w in
    let ticks : step_tick os s ≡ returns seen (arrived w) =
      rw (internal_time_handler-yielded busy live os) (rw runs (rw lands)) in
    (
      seen,
      arrived w,
      ticks,
      record {
        busy = busy;
        thread = t;
        live = live;
        context = c;
        jumped = j;
        by = w;
        lands = refl;
        sees = λ seen' e. cc (e, ticks, go_to-seen_at w lands);
        valid = valid;
      },
    )

module _ {os : Os} {cur : ℕ} {s s' : System} (k : Ticked os cur s s') where
  abbrev pub mid : System
  mid = k.by.mid

  -- The queue once the running thread has yielded and the sleepers that are due have woken.
  pub mid_queue :
      mid.ready_queue
      ≡ (s.ready_queue ++ cur ∷ []) ++ due (yielded k.busy k.live).heap s.sleeping_threads
  mid_queue = ap (λ r. r.ready_queue) k.by.slept.frame

  final_queue : s'.ready_queue ≡ k.by.rest
  final_queue = ap (λ r. r.ready_queue) k.lands ∙ ap (λ r. r.ready_queue) k.by.final

  pub final_total : s'.total_quantoms ≡ suc s.total_quantoms
  final_total =
      ap (λ r. r.total_quantoms) k.lands
      ∙ ap (λ r. r.total_quantoms) k.by.final
      ∙ ap (λ r. r.total_quantoms) k.by.slept.frame

  final_heap : s'.heap ≡ update mid.heap k.by.front (some (started k.by.thread))
  final_heap = ap (λ r. r.heap) k.lands ∙ ap (λ r. r.heap) k.by.final

  -- The thread at the front of the queue runs next, the others move up, and the thread that ran
  -- goes behind them, before the sleepers that wake.
  pub tick_queue :
      (p : ℕ) (rest : List ℕ)
      → s.ready_queue ≡ p ∷ rest
      → (k.by.front ≡ p)
        × (s'.ready_queue ≡ rest ++ cur ∷ due (yielded k.busy k.live).heap s.sleeping_threads)
  tick_queue p rest e =
      let joined : k.by.front ∷ k.by.rest ≡ p ∷ ((rest ++ cur ∷ []) ++ woken) =
        sym k.by.queue ∙ mid_queue ∙ ap (λ r. (r ++ cur ∷ []) ++ woken) e in
      (head-eq joined, final_queue ∙ tail-eq joined ∙ append_assoc rest (cur ∷ []) woken)
    where
      woken : List ℕ
      woken = due (yielded k.busy k.live).heap s.sleeping_threads

      head-eq : {a b : ℕ} {xs ys : List ℕ} → a ∷ xs ≡ b ∷ ys → a ≡ b
      head-eq h = cc

      tail-eq : {a b : ℕ} {xs ys : List ℕ} → a ∷ xs ≡ b ∷ ys → xs ≡ ys
      tail-eq h = cc

  -- The next thread was in the queue, or it is the one that ran, with nobody else ready.
  pub tick_front : (k.by.front ≡ cur) ⊎ (0 < count k.by.front s.ready_queue)
  tick_front = go s.ready_queue refl
    where
      head-eq : {a b : ℕ} {xs ys : List ℕ} → a ∷ xs ≡ b ∷ ys → a ≡ b
      head-eq h = cc

      go :
          (xs : List ℕ)
          → s.ready_queue ≡ xs
          → (k.by.front ≡ cur) ⊎ (0 < count k.by.front s.ready_queue)
      go [] e = inl (
          head-eq (
            sym k.by.queue
            ∙ mid_queue
            ∙ ap (λ r. (r ++ cur ∷ []) ++ due (yielded k.busy k.live).heap s.sleeping_threads) e))
      go (p ∷ r) e = inr (rw (e, (tick_queue p r e).0) (omega (arith, count-cons_self p r)))

  pub mid_heap : (q : ℕ) → mid.heap q ≡ passed ((yielded k.busy k.live).heap q)
  mid_heap =
      Slept-heap
        (outer-Inv s.stack s.running_thread_id (suc s.total_quantoms) true s.handled s.itimer
          (yielded-Inv k.busy k.live))
        k.by.slept

  -- A thread that neither ran nor runs next only counts down its sleep.
  pub tick_bystander : (q : ℕ) → q ≢ cur → q ≢ k.by.front → s'.heap q ≡ passed (s.heap q)
  tick_bystander q n m =
      ap (λ f. f q) final_heap
      ∙ update_other mid.heap k.by.front q (some (started k.by.thread)) m
      ∙ mid_heap q
      ∙ ap passed (
          update_other s.heap cur q
            (some (
              left_in ready k.thread.quantoms_left_to_sleep in_handler (record s { masked = true })
                k.thread))
            n)

  abbrev leaver : Thread
  leaver =
      left_in ready k.thread.quantoms_left_to_sleep in_handler (record s { masked = true }) k.thread

  passed_keeps :
      (o : Option Thread) {t : Thread}
      → o ≡ some t
      → (u : Thread) × (passed o ≡ some u)
        × (u.running_quantoms_num ≡ t.running_quantoms_num)
        × (u.id ≡ t.id)
  passed_keeps none e = absurd (cc)
  passed_keeps (some u) {t} e =
      (if same_state u.state sleeping then slept u else u, refl, ground arith, ground arith)

  mid_keeps :
      (q : ℕ) {t : Thread}
      → s.heap q ≡ some t
      → (u : Thread) × (mid.heap q ≡ some u)
        × (u.running_quantoms_num ≡ t.running_quantoms_num)
        × (u.id ≡ t.id)
  mid_keeps q {t} e = elim (ℕ_discrete q cur) [
    | yes h ↦
        let (u, e', a, i) =
          passed_keeps ((yielded k.busy k.live).heap q) {t = leaver}
            (rw h (update_self s.heap cur (some leaver))) in
        (
          u,
          mid_heap q ∙ e',
          a ∙ ap (λ r. r.running_quantoms_num) (same h),
          i ∙ ap (λ r. r.id) (same h),
        )
    | no h ↦
        let (u, e', a, i) =
          passed_keeps ((yielded k.busy k.live).heap q)
            (update_other s.heap cur q (some leaver) h ∙ e) in
        (u, mid_heap q ∙ e', a, i)
  ]
    where
      same : q ≡ cur → k.thread ≡ t
      same h = cc (k.live, e, h)

  -- Accounting: every thread keeps its id, and the one that starts to run has one quantum more.
  pub tick_counts :
      (q : ℕ) {t : Thread}
      → s.heap q ≡ some t
      → (u : Thread) × (s'.heap q ≡ some u)
        × (u.running_quantoms_num ≡ t.running_quantoms_num + of_bool (q == k.by.front))
        × (u.id ≡ t.id)
  tick_counts q {t} e =
      let (u, e', a, i) = mid_keeps q e in
      elim (ℕ_discrete q k.by.front) [
        | yes h ↦
            let same : k.by.thread ≡ u = cc (k.by.live, e', h) in
            (
              started k.by.thread,
              ap (λ f. f q) final_heap
                  ∙ rw h (update_self mid.heap k.by.front (some (started k.by.thread))),
              ground (arith, h, a, ap (λ r. r.running_quantoms_num) same),
              ap (λ r. r.id) same ∙ i,
            )
        | no h ↦ (
          u,
          ap (λ f. f q) final_heap
              ∙ update_other mid.heap k.by.front q (some (started k.by.thread)) h
              ∙ e',
          ground (arith, h, a),
          i,
        )
      ]

-- ===== src/Quantums/Order.antt =====
-- The order in which the unordered set of sleepers is iterated (scheduler.cpp, C++ leaves it open).
use os_ex.Prelude.{
  is_positive, Bool, false, of_bool, none, ◌&&◌, arith, ℕ_discrete, ℕ, suc, ◌<◌, ◌≡◌, sym, ◌∙◌, ap,
  fun_ext, List, [], ◌∷◌, ◌++◌, true, false, Option, some, count, update, if◌then◌else◌,
}
use os_ex.Checked.{int_max}
use os_ex.Thread.{Thread, ready, sleeping, in_handler, same_state}
use os_ex.Machine.{System, Os, returns}
use os_ex.Uthreads.{Seen, step_tick}
use os_ex.Invariant.{IsValid, sleeping_weight}
use os_ex.Dispatch.{due, is_due, count-due, passed, started, handled_after, itimer_after, switched}
use os_ex.Safety.{current_running, left_in, yielded, front-Waits, seen_at}
use os_ex.Quantums.Tick.{Ticked, tick_lem, mid, mid_queue, mid_heap}

-- The same members, in any order.
abbrev pub IsReordered : List ℕ → List ℕ → Type 0
IsReordered xs ys = (p : ℕ) → count p ys ≡ count p xs

-- A sleeper that has no further quantum to wait for.
abbrev pub ends_sleep : Option Thread → Bool
ends_sleep none = false
ends_sleep (some t) =
    same_state t.state sleeping && (if is_positive t.quantoms_left_to_sleep then false else true)

-- After a tick from `s`, where `cur` ran: the two states differ at most in the order of the sleepers
-- and in the order of the threads that this tick has woken, which end the queue, behind those that
-- were ready and the thread that ran.
pub record Agree (cur : ℕ) (s s1 s2 : System) : Type 0 where
  pub same : s2 ≡ record s1 { ready_queue = s2.ready_queue; sleeping_threads = s2.sleeping_threads }
  pub sleepers : IsReordered s1.sleeping_threads s2.sleeping_threads
  pub ahead : List ℕ
  pub woken1 : List ℕ
  pub woken2 : List ℕ
  pub queue1 : s1.ready_queue ≡ ahead ++ woken1
  pub queue2 : s2.ready_queue ≡ ahead ++ woken2
  pub next : s1.stack ∷ ahead ≡ s.ready_queue ++ cur ∷ []
  pub wakes : (p : ℕ) → count p woken1 ≡ of_bool (ends_sleep (s.heap p))
  pub woken : IsReordered woken1 woken2

reordered-IsValid :
    {cur : ℕ} {s : System} (xs : List ℕ)
    → IsReordered s.sleeping_threads xs
    → IsValid cur s
    → IsValid cur (record s { sleeping_threads = xs })
reordered-IsValid xs h v = record {
  busy = record {
    inv = record {
      objects = record {
        cells = v.inv.cells;
        fresh = v.inv.fresh;
        null = v.inv.null;
        nonnull = v.inv.nonnull;
        entries = v.inv.entries;
        queue = v.inv.queue;
        sleepers = λ p. h p ∙ v.inv.sleepers p;
      };
      ids = record {
        split = v.inv.split;
        sorted = v.inv.sorted;
        unique = v.inv.unique;
        sizes = v.inv.sizes;
        capacity = v.inv.capacity;
        few = v.inv.few;
        has_main = v.inv.has_main;
      };
    };
    runner = v.runner;
    on_stack = v.on_stack;
  };
  let_in = v.let_in;
}

-- The state after a tick, from the thread that runs next.
abbrev after : Os → System → ℕ → Thread → (ℕ → Option Thread) → List ℕ → List ℕ → System
after os s p t heap ready_queue sleepers = record s {
  heap = update heap p (some (started t));
  ready_queue = ready_queue;
  sleeping_threads = sleepers;
  total_quantoms = suc s.total_quantoms;
  running_thread_id = t.id;
  masked = false;
  handled = handled_after os s;
  itimer = itimer_after os s;
  stack = p;
}

-- Where the queue starts.
front_of :
    (xs w : List ℕ) (cur p : ℕ) (rest : List ℕ)
    → p ∷ rest ≡ (xs ++ cur ∷ []) ++ w
    → (ahead : List ℕ) × (p ∷ ahead ≡ xs ++ cur ∷ []) × (rest ≡ ahead ++ w)
front_of [] w cur p rest e = ([], cc, cc)
front_of (x ∷ xs) w cur p rest e = (xs ++ cur ∷ [], cc, cc)

module _ {os : Os} {cur : ℕ} {s s' : System} (k : Ticked os cur s s') where
  ticked_after :
      s' ≡ after os s k.by.front k.by.thread (mid k).heap k.by.rest (mid k).sleeping_threads
  ticked_after =
      k.lands
      ∙ ap {A = System} (λ j. record j { masked = false; stack = k.context.stack }) k.by.final
      ∙ ap {A = System}
          (λ m. record (switched os (record m { ready_queue = k.by.rest }) k.by.front k.by.thread) {
            masked = false;
            stack = k.context.stack;
          })
          k.by.slept.frame
      ∙ ap
          (λ q.
            record (after os s k.by.front k.by.thread (mid k).heap k.by.rest
              (mid k).sleeping_threads) { stack = q })
          (front-Waits k.by).0

  abbrev woken_by : List ℕ
  woken_by = due (yielded k.busy k.live).heap s.sleeping_threads

  ticked_queue :
      (ahead : List ℕ) × (k.by.front ∷ ahead ≡ s.ready_queue ++ cur ∷ [])
      × (k.by.rest ≡ ahead ++ woken_by)
  ticked_queue =
      front_of s.ready_queue woken_by cur k.by.front k.by.rest (sym k.by.queue ∙ mid_queue k)

module _ {os : Os} {cur : ℕ} {s s' : System} (k : Ticked os cur s s') where
  due_weight :
      (o : Option Thread) → (if is_due o then sleeping_weight o else 0) ≡ of_bool (ends_sleep o)
  due_weight none = ground arith
  due_weight (some t) = ground arith

  woken-count : (p : ℕ) → count p (woken_by k) ≡ of_bool (ends_sleep (s.heap p))
  woken-count p =
      count-due (yielded k.busy k.live).heap s.sleeping_threads p
      ∙ ap (λ n. if is_due ((yielded k.busy k.live).heap p) then n else 0) (k.busy.inv.sleepers p)
      ∙ elim (ℕ_discrete p cur) [
        | yes h ↦ rw h (rw k.live (ground (arith, current_running k.busy k.live)))
        | no h ↦
            let same : (yielded k.busy k.live).heap p ≡ s.heap p = ground (arith, h) in
            ap (λ o. if is_due o then sleeping_weight (s.heap p) else 0) same
            ∙ due_weight (s.heap p)
      ]

module _ {os : Os} {cur : ℕ} {s s1 s2 : System} (xs : List ℕ) (k1 : Ticked os cur s s1)
    (k2 : Ticked os cur (record s { sleeping_threads = xs }) s2) where
  same_thread : k1.thread ≡ k2.thread
  same_thread = cc (k1.live, k2.live)

  same_yielded : (yielded k1.busy k1.live).heap ≡ (yielded k2.busy k2.live).heap
  same_yielded =
      ap
        (λ t.
          update s.heap cur (
            some
              (left_in ready t.quantoms_left_to_sleep in_handler (record s { masked = true }) t)))
        same_thread

  same_mid : (mid k1).heap ≡ (mid k2).heap
  same_mid = fun_ext λ q. mid_heap k1 q ∙ ap (λ h. passed (h q)) same_yielded ∙ sym (mid_heap k2 q)

  same_front : k1.by.front ≡ k2.by.front
  same_front = head ((ticked_queue k1).1 ∙ sym (ticked_queue k2).1)
    where
      head : {a b : ℕ} {xs ys : List ℕ} → a ∷ xs ≡ b ∷ ys → a ≡ b
      head h = cc

  same_next : k1.by.thread ≡ k2.by.thread
  same_next = cc (k1.by.live, k2.by.live, same_front, same_mid)

  same_after :
      s2 ≡ after os s k1.by.front k1.by.thread (mid k1).heap s2.ready_queue s2.sleeping_threads
  same_after =
      let e = ticked_after k2 in
      e
      ∙ ap (λ p. after os s p k2.by.thread (mid k2).heap k2.by.rest (mid k2).sleeping_threads)
          (sym same_front)
      ∙ ap (λ t. after os s k1.by.front t (mid k2).heap k2.by.rest (mid k2).sleeping_threads)
          (sym same_next)
      ∙ ap (λ h. after os s k1.by.front k1.by.thread h k2.by.rest (mid k2).sleeping_threads)
          (sym same_mid)
      ∙ ap (λ r. after os s k1.by.front k1.by.thread (mid k1).heap r (mid k2).sleeping_threads)
          (sym (ap (λ r. r.ready_queue) e))
      ∙ ap (λ z. after os s k1.by.front k1.by.thread (mid k1).heap s2.ready_queue z)
          (sym (ap (λ r. r.sleeping_threads) e))

  same_but_lists :
      s2 ≡ record s1 { ready_queue = s2.ready_queue; sleeping_threads = s2.sleeping_threads }
  same_but_lists =
      same_after
      ∙ sym (
          ap {A = System}
            (λ r. record r { ready_queue = s2.ready_queue; sleeping_threads = s2.sleeping_threads })
            (ticked_after k1))

  same_ahead : (ticked_queue k1).0 ≡ (ticked_queue k2).0
  same_ahead = tail ((ticked_queue k1).1 ∙ sym (ticked_queue k2).1)
    where
      tail : {a b : ℕ} {xs ys : List ℕ} → a ∷ xs ≡ b ∷ ys → xs ≡ ys
      tail h = cc

  agree : IsReordered s.sleeping_threads xs → Agree cur s s1 s2
  agree h = record {
    same = same_but_lists;
    sleepers = λ p.
        k2.valid.inv.sleepers p
        ∙ ap (λ r. sleeping_weight (r.heap p)) same_but_lists
        ∙ sym (k1.valid.inv.sleepers p);
    ahead = (ticked_queue k1).0;
    woken1 = woken_by k1;
    woken2 = woken_by k2;
    queue1 = ap (λ r. r.ready_queue) (ticked_after k1) ∙ (ticked_queue k1).2;
    queue2 =
        ap (λ r. r.ready_queue) (ticked_after k2)
        ∙ (ticked_queue k2).2
        ∙ ap (λ a. a ++ woken_by k2) (sym same_ahead);
    next = ap (λ r. r.stack ∷ (ticked_queue k1).0) (ticked_after k1) ∙ (ticked_queue k1).1;
    wakes = woken-count k1;
    woken = λ p.
        count-due (yielded k2.busy k2.live).heap xs p
        ∙ ap (λ f. if is_due (f p) then count p xs else 0) (sym same_yielded)
        ∙ ap (λ n. if is_due ((yielded k1.busy k1.live).heap p) then n else 0) (h p)
        ∙ sym (count-due (yielded k1.busy k1.live).heap s.sleeping_threads p);
  }

-- Take a valid state with fewer quantums than the largest int, and the same state with the set of
-- sleepers in another order of iteration. A tick of the timer leads both to states in which user
-- code sees the same, and which agree in all but the order of the sleepers and the order of the
-- woken threads in the ready queue: the queue is what is left of the old one and the thread that
-- ran, without the one that runs now, and behind these once each the sleepers whose count was not
-- positive, and no others.
pub tick-Agree :
    {cur : ℕ} {s : System} (os : Os) (xs : List ℕ)
    → IsValid cur s
    → s.total_quantoms < int_max
    → IsReordered s.sleeping_threads xs
    → (seen : Seen) × (s1 : System) × (s2 : System) × (step_tick os s ≡ returns seen s1)
      × (step_tick os (record s { sleeping_threads = xs }) ≡ returns seen s2)
      × Agree cur s s1 s2
tick-Agree {cur} {s} os xs v lt h =
    let (seen1, s1, runs1, k1) = tick_lem os v lt in
    let (seen2, s2, runs2, k2) = tick_lem os (reordered-IsValid xs h v) lt in
    let same_place : k1.context.point ≡ k2.context.point =
      ap (λ c. c.point)
        (k1.by.context ∙ ap (λ t. t.env) (same_next xs k1 k2) ∙ sym k2.by.context) in
    let same_seen : seen2 ≡ seen1 =
      k2.sees seen2 runs2 ∙ ap seen_at (sym same_place) ∙ sym (k1.sees seen1 runs1) in
    (seen1, s1, s2, runs1, runs2 ∙ ap (λ n. returns n s2) same_seen, agree xs k1 k2 h)

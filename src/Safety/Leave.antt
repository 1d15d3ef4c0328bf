-- ===== src/Safety/Leave.antt =====
-- The running thread leaves the processor (scheduler.cpp): by the timer's signal, by blocking itself,
-- or by going to sleep. Its context is saved, and the next quantum starts.
use os_ex.Prelude.{
  ℕ, ◌≡◌, ◌≢◌, refl, inr, ap, [], ◌∷◌, ◌++◌, true, false, some, ℤ, ◌==◌, count-cons, count-snoc,
  count-erase, erase, lookup, update, arith,
}
use os_ex.Checked.{pass}
use os_ex.Thread.{
  Thread, ThreadState, running, ready, blocked, sleeping, blocked_and_sleeping, not_sleeping,
  main_thread_id, Point, in_block, in_sleep, in_handler, set_ready, set_block, set_sleep, save_env,
}
use os_ex.Thread.States.{set_block_awake, set_sleep_unblocked}
use os_ex.Machine.{System, Os, returns, bind, context_at}
use os_ex.Machine.Laws.{deref_lem, call_lem}
use os_ex.Scheduler.{
  active_at, push_ready, save_env_at, run_topmost_thread_in_ready_queue, handler_resumed,
  internal_time_handler, block_and_run, block_resumed, block_running, insert_sleeping,
  sleep_resumed, sleep_thread, success,
}
use os_ex.Invariant.{
  update-update, Inv, CellInv, IsBusy, cell_at, change-Inv, update_self, Waits, Gives, IsResumable,
}

save_env_at_lem :
    (place : Point) (p : ℕ) (s : System) {t : Thread}
    → s.heap p ≡ some t
    → save_env_at place p s
      ≡ returns false
          (record s { heap = update s.heap p (some (record t { env = context_at place s })) })
unfolding save_env_at save_env
save_env_at_lem place p s {t} e =
    rw (deref_lem p s e)
      (rw (call_lem p (λ _. pass (record t { env = context_at place s })) s e refl))

-- The thread at `p` as it leaves: in another state, with its context saved.
abbrev pub left_in : ThreadState → ℤ → Point → System → Thread → Thread
left_in state quantoms place s t = record t {
  state = state;
  quantoms_left_to_sleep = quantoms;
  env = context_at place s;
}

-- The handler of the timer's signal, up to the start of the next quantum: the thread whose id is
-- `_running_thread_id` is ready, at the end of the queue, with the context in which the code runs.
pub internal_time_handler_lem :
    (os : Os) (cur : ℕ) (s : System) {t : Thread}
    → lookup s.running_thread_id s.active_threads ≡ some cur
    → s.heap cur ≡ some t
    → internal_time_handler os s
      ≡ bind
          (run_topmost_thread_in_ready_queue os (record s {
            heap = update s.heap cur (some (left_in ready t.quantoms_left_to_sleep in_handler s t));
            ready_queue = s.ready_queue ++ cur ∷ [];
          }))
          (λ _ s'. returns tt s')
unfolding internal_time_handler active_at push_ready set_ready handler_resumed
internal_time_handler_lem os cur s {t} runner live =
    let u : Thread = record t { state = ready } in
    let s1 : System = record s {
      heap = update s.heap cur (some u);
      ready_queue = s.ready_queue ++ cur ∷ [];
    } in
    rw (runner, active_at)
      (rw (call_lem cur (λ u. pass (set_ready u)) s live refl) (
        rw (save_env_at_lem in_handler cur s1 (update_self s.heap cur (some u))) (
          rw (
            update-update s.heap cur (some u)
              (some (record u { env = context_at in_handler s1 }))))))

same_id : (m n : ℕ) → m ≡ n → (m == n) ≡ true
same_id m n h = ground arith

not_main : (n : ℕ) → n ≢ main_thread_id → (n == main_thread_id) ≡ false
not_main n h = ground arith

module _ {cur : ℕ} {s : System} (busy : IsBusy cur s) where
  pub current_thread : (t : Thread) × (s.heap cur ≡ some t) × (t.id ≡ s.running_thread_id)
  current_thread = busy.inv.entries s.running_thread_id cur busy.runner

  pub current_running : {t : Thread} → s.heap cur ≡ some t → t.state ≡ running
  current_running e = (cell_at busy.inv cur e).current refl

  pub current_nonnull : {t : Thread} → s.heap cur ≡ some t → cur ≢ 0
  current_nonnull e z = cc (busy.inv.null, rw z at e)

  module _ {t : Thread} (live : s.heap cur ≡ some t) where
    abbrev pub yielded : System
    yielded = record s {
      heap = update s.heap cur (some (left_in ready t.quantoms_left_to_sleep in_handler s t));
      ready_queue = s.ready_queue ++ cur ∷ [];
    }

    abbrev pub parked : System
    parked = record s {
      heap = update s.heap cur (some (left_in blocked t.quantoms_left_to_sleep in_block s t));
    }

    abbrev pub laid_down : ℤ → System
    laid_down n = record s {
      heap = update s.heap cur (some (left_in sleeping n in_sleep s t));
      sleeping_threads = cur ∷ erase cur s.sleeping_threads;
    }

    pub internal_time_handler-yielded :
        (os : Os)
        → internal_time_handler os s
          ≡ bind (run_topmost_thread_in_ready_queue os yielded) (λ _ s'. returns tt s')
    internal_time_handler-yielded os = internal_time_handler_lem os cur s busy.runner live

    pub block_running-parked :
        (os : Os) (id : ℕ)
        → s.running_thread_id ≡ id
        → block_running os id cur s
          ≡ bind (run_topmost_thread_in_ready_queue os parked) (λ _ s'. returns success s')
    unfolding block_running block_resumed block_and_run
    block_running-parked os id e =
        let u : Thread = record t { env = context_at in_block s } in
        let s1 : System = record s { heap = update s.heap cur (some u) } in
        rw (same_id s.running_thread_id id e) (
          rw (save_env_at_lem in_block cur s live) (
            rw
              (call_lem cur (λ u. pass (set_block u)) s1 (update_self s.heap cur (some u))
                (ap pass (set_block_awake u (λ e. cc (current_running live)))))
              (rw (update-update s.heap cur (some u) (some (record u { state = blocked }))))))

    pub sleep_thread-laid_down :
        (os : Os) (n : ℤ)
        → s.running_thread_id ≢ main_thread_id
        → sleep_thread os n s
          ≡ bind (run_topmost_thread_in_ready_queue os (laid_down n)) (λ _ s'. returns success s')
    unfolding sleep_thread active_at insert_sleeping sleep_resumed
    sleep_thread-laid_down os n e =
        let u : Thread = record t { state = sleeping; quantoms_left_to_sleep = n } in
        let s1 : System = record s {
          heap = update s.heap cur (some u);
          sleeping_threads = cur ∷ erase cur s.sleeping_threads;
        } in
        rw (not_main s.running_thread_id e) (
          rw (busy.runner, active_at)
            (rw
              (call_lem cur (λ u. pass (set_sleep n u)) s live
                (ap pass (set_sleep_unblocked t n (λ e. cc (current_running live)))))
              (rw (save_env_at_lem in_sleep cur s1 (update_self s.heap cur (some u))) (
                rw (
                  update-update s.heap cur (some u)
                    (some (record u { env = context_at in_sleep s1 })))))))

    module _ (state : ThreadState) (n : ℤ) (place : Point) where
      abbrev leaver : Thread
      leaver = left_in state n place s t

      -- What a leaving thread must be for the others not to notice.
      pub leaver-CellInv :
          state ≢ running
          → state ≢ blocked_and_sleeping
          → (t.id ≡ main_thread_id → state ≡ ready)
          → (state ≡ sleeping → n ≢ not_sleeping)
          → Waits cur (context_at place s)
          → CellInv s.active_threads s.total_quantoms 0 cur leaver
      leaver-CellInv r b m c w = record {
        registered = (cell_at busy.inv cur live).registered;
        runs = λ e. absurd (r e);
        current = λ e. absurd (current_nonnull live e);
        not_both = b;
        main = λ e. inr (m e);
        aged = (cell_at busy.inv cur live).aged;
        countdown = c;
        waits = λ _. w;
      }

    gives : Gives cur cur 0
    gives q h n = (λ e. absurd (h e), λ e. absurd (n e))

    saved : (place : Point) → IsResumable place s.masked → Waits cur (context_at place s)
    saved place r = (busy.on_stack, r)

    pub yielded-Inv : Inv s.total_quantoms 0 yielded
    yielded-Inv =
        change-Inv busy.inv s.total_quantoms 0 cur
          (leaver ready t.quantoms_left_to_sleep in_handler) live (s.ready_queue ++ cur ∷ [])
          s.sleeping_threads refl
          (leaver-CellInv ready t.quantoms_left_to_sleep in_handler (λ e. cc) (λ e. cc) (λ _. refl)
            (λ e. cc) (saved in_handler tt))
          gives (omega arith)
          (λ q.
            ground (arith, current_running live, busy.inv.queue q, count-snoc q s.ready_queue cur))
          (λ q. ground (arith, current_running live, busy.inv.sleepers q))

    pub parked-Inv : t.id ≢ main_thread_id → Inv s.total_quantoms 0 parked
    parked-Inv n =
        change-Inv busy.inv s.total_quantoms 0 cur
          (leaver blocked t.quantoms_left_to_sleep in_block) live s.ready_queue s.sleeping_threads
          refl
          (leaver-CellInv blocked t.quantoms_left_to_sleep in_block (λ e. cc) (λ e. cc)
            (λ e. absurd (n e)) (λ e. cc) (saved in_block tt))
          gives (omega arith) (λ q. ground (arith, current_running live, busy.inv.queue q))
          (λ q. ground (arith, current_running live, busy.inv.sleepers q))

    pub laid_down-Inv :
        (k : ℤ) → k ≢ not_sleeping → t.id ≢ main_thread_id → Inv s.total_quantoms 0 (laid_down k)
    laid_down-Inv k m n =
        change-Inv busy.inv s.total_quantoms 0 cur (leaver sleeping k in_sleep) live s.ready_queue
          (cur ∷ erase cur s.sleeping_threads) refl
          (leaver-CellInv sleeping k in_sleep (λ e. cc) (λ e. cc) (λ e. absurd (n e)) (λ _. m)
            (saved in_sleep tt))
          gives (omega arith) (λ q. ground (arith, current_running live, busy.inv.queue q))
          (λ q. ground (
            arith,
            current_running live,
            busy.inv.sleepers q,
            count-cons q cur (erase cur s.sleeping_threads),
            count-erase q cur s.sleeping_threads,
          ))

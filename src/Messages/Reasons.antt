-- ===== src/Messages/Reasons.antt =====
-- Why the functions of uthreads.cpp write a message.
use os_ex.Prelude.{
  ℕ, zero, suc, ◌<◌, ◌≡◌, ◌≢◌, ◌⊎◌, inl, inr, refl, sym, ap, subst, ◌∙◌, Option, none, some, ℤ, pos,
  negsuc, eq_ℤ, is_positive, true, Bool, leb, ◌==◌, if◌then◌else◌, length, arith, dec_lt,
  ℕ_discrete, Bool-cases,
}
use os_ex.Checked.{int_max}
use os_ex.Thread.{Thread, running, not_sleeping, main_thread_id}
use os_ex.Machine.{System, Os, Result, returns, bind}
use os_ex.Scheduler.{
  success, failure, find, max_thread_num, run_topmost_thread_in_ready_queue, terminate_thread,
  terminate_found, block_thread, block_found, resume_thread, resume_found, sleep_thread,
  get_current_running_thread_id,
}
use os_ex.Uthreads.{
  absent, get_instance, Call, spawn, terminate, block, resume, sleep, get_quantums, get_tid,
  get_total_quantums,
}
use os_ex.Invariant.{Inv, IsBusy, IsValid, cell_at}
use os_ex.Dispatch.{run_topmost_lem}
use os_ex.Safety.{
  construct_lem, masked-IsBusy, nonmain, find_masked, find-cases, current_thread, current_running,
  is_run, is_rdy, is_blk, is_slp, state_of, resume_thread_missing, resume_thread_found,
  resume_found_idle, resume_found-resumed, block_thread_missing, block_thread_found,
  block_found_running, block_running-parked, block_found-held_back, block_found_idle, parked,
  parked-Inv, sleep_thread-laid_down, laid_down, laid_down-Inv, terminate_thread_missing,
  terminate_thread_found, terminate_found-ready, terminate_found-sleeping, terminate_found-blocked,
  terminate_found-running, terminate_found-freed, running-on_stack, gone, gone-Inv_running,
  quantums_missing, quantums_found, create_thread_and_push_to_ready-spawned, spawn_full,
  spawn_without_memory,
}
use os_ex.Messages.{
  Message, max_threads_exceeded, invalid_quantum, invalid_entry_point, thread_not_found,
  main_thread_block, main_thread_sleep, bad_allocation, on_failure, init_message, spawn_message,
  terminate_message, block_message, resume_message, sleep_message, quantums_message, message,
}

-- The reason for which a call has to complain, from the state at the call.
abbrev pub if_missing : ℤ → System → Option Message
if_missing tid s = elim (find tid s) [ none ↦ some thread_not_found | some e ↦ none ]

unfoldable pub reason : Os → Call → System → Option Message
reason os (spawn entry_point) s =
    if entry_point == 0
    then some invalid_entry_point
    else if leb max_thread_num (length s.active_threads)
    then some max_threads_exceeded
    else if os.allocates
    then none
    else some bad_allocation
reason os (terminate tid) s = if eq_ℤ tid (pos main_thread_id) then none else if_missing tid s
reason os (block tid) s =
    if eq_ℤ tid (pos main_thread_id) then some main_thread_block else if_missing tid s
reason os (resume tid) s = if_missing tid s
reason os (sleep num_quantums) s =
    if s.running_thread_id == main_thread_id then some main_thread_sleep else none
reason os (get_quantums tid) s = if_missing tid s
reason os get_tid s = none
reason os get_total_quantums s = none

succeeds :
    (m : Message) (r : Result System ℤ) {n : ℕ} {s : System}
    → r ≡ returns (pos n) s
    → on_failure m r ≡ none
succeeds m r e = rw e refl

fails :
    (m : Message) (r : Result System ℤ) {s : System}
    → r ≡ returns failure s
    → on_failure m r ≡ some m
fails m r e = rw e refl

pub is_main : (tid : ℤ) → (tid ≡ pos main_thread_id) ⊎ (tid ≢ pos main_thread_id)
is_main (pos zero) = inl refl
is_main (pos (suc n)) = inr (λ e. cc)
is_main (negsuc n) = inr (λ e. cc)

-- A scheduling decision jumps.
switches :
    (os : Os) (m : Message) (r : Result System ℤ) (s1 : System)
    → r ≡ bind (run_topmost_thread_in_ready_queue os s1) (λ _ s'. returns success s')
    → Inv s1.total_quantoms 0 s1
    → s1.total_quantoms < int_max
    → on_failure m r ≡ none
switches os m r s1 e inv lt = let (k, j, runs, w) = run_topmost_lem os inv lt in rw e (rw runs refl)

module _ {cur : ℕ} {s0 : System} (valid : IsValid cur s0) (lt : s0.total_quantoms < int_max)
    (os : Os) where
  abbrev s : System
  s = record s0 { masked = true }

  abbrev busy : IsBusy cur s
  busy = masked-IsBusy true valid.busy

  abbrev inv : Inv s.total_quantoms cur s
  inv = busy.inv

  -- A method that fails where the id has no thread, and only there.
  looks_up :
      (tid : ℤ) (r : Result System ℤ)
      → (find tid s ≡ none → r ≡ returns failure s)
      → ((id p : ℕ) (t : Thread)
          → tid ≡ pos id
          → find tid s ≡ some (id, p)
          → s.heap p ≡ some t
          → t.id ≡ id
          → on_failure thread_not_found r ≡ none)
      → on_failure thread_not_found r ≡ if_missing tid s0
  looks_up tid r missing found = elim (find-cases tid s) [
    | inl e ↦ fails thread_not_found r (missing e) ∙ sym (answers none e)
    | inr (id, p, i, e, l) ↦
        let (t, live, j) = inv.entries id p l in
        found id p t i e live j ∙ sym (answers (some (id, p)) e)
  ]
    where
      answers :
          (o : Option (ℕ × ℕ))
          → find tid s ≡ o
          → if_missing tid s0 ≡ elim o [ none ↦ some thread_not_found | some e ↦ none ]
      answers o e = rw (if_missing, sym (find_masked tid s0 true) ∙ e) refl

  resume_reason : (tid : ℤ) → resume_message tid s0 ≡ if_missing tid s0
  unfolding resume_message
  resume_reason tid =
      looks_up tid (resume_thread tid s) (resume_thread_missing valid lt os tid)
        (λ id p t i e live j. rw (resume_thread_found valid lt os tid e) (found p live))
    where
      found :
          (p : ℕ) {t : Thread}
          → s.heap p ≡ some t
          → on_failure thread_not_found (resume_found p s) ≡ none
      found p {t} live = elim (state_of t (cell_at inv p live).not_both) [
        | is_run r ↦ succeeds _ _ (resume_found_idle valid lt os p live (λ h. cc) (λ h. cc))
        | is_rdy r ↦ succeeds _ _ (resume_found_idle valid lt os p live (λ h. cc) (λ h. cc))
        | is_slp r ↦ succeeds _ _ (resume_found_idle valid lt os p live (λ h. cc) (λ h. cc))
        | is_blk r ↦ succeeds _ _ (resume_found-resumed inv p live r)
      ]

  quantums_reason : (tid : ℤ) → quantums_message tid s0 ≡ if_missing tid s0
  unfolding quantums_message
  quantums_reason tid =
      looks_up tid _ (quantums_missing valid lt os tid)
        (λ id p t i e live j. succeeds _ _ (quantums_found valid lt os tid e live))

  terminate_found-quiet :
      (id p : ℕ) {t : Thread}
      → id ≢ main_thread_id
      → s.heap p ≡ some t
      → t.id ≡ id
      → on_failure thread_not_found (terminate_found os id p s) ≡ none
  terminate_found-quiet id p {t} n live j =
      rw (sym j) (elim (state_of t (cell_at inv p live).not_both) [
        | is_run r ↦ elim (Bool-cases os.keeps_freed) [
          | inl kept ↦
              switches os _ _ (gone inv p live s.ready_queue s.sleeping_threads)
                (terminate_found-running inv p live os kept r)
                (gone-Inv_running inv p live (λ z. n (sym j ∙ z)) r) lt
          | inr lost ↦
              rw
                (terminate_found-freed inv p live os lost r
                  (running-on_stack valid lt os p live r).0)
                refl
        ]
        | is_rdy r ↦ succeeds _ _ (terminate_found-ready inv p live os r)
        | is_blk r ↦ succeeds _ _ (terminate_found-blocked inv p live os r)
        | is_slp r ↦ succeeds _ _ (terminate_found-sleeping inv p live os r)
      ])

  terminate_reason :
      (tid : ℤ)
      → terminate_message os tid s0
        ≡ (if eq_ℤ tid (pos main_thread_id) then none else if_missing tid s0)
  unfolding terminate_message
  terminate_reason tid = elim (is_main tid) [
    | inl e ↦ rw e refl
    | inr n ↦ rw (nonmain tid n) (
        looks_up tid (terminate_thread os tid s) (terminate_thread_missing valid lt os tid)
          (λ id p t i e live j.
            rw (terminate_thread_found valid lt os tid e)
              (terminate_found-quiet id p (λ z. n (i ∙ ap pos z)) live j)))
  ]

  block_running-quiet :
      {id : ℕ} (p : ℕ) {t : Thread}
      → id ≢ main_thread_id
      → s.heap p ≡ some t
      → t.id ≡ id
      → t.state ≡ running
      → on_failure thread_not_found (block_found os t.id p s) ≡ none
  block_running-quiet p {t} n live j r =
      let h = (cell_at inv p live).runs r in
      subst (λ q. on_failure thread_not_found (block_found os t.id q s) ≡ none) (sym h)
        (at_current (rw h at live))
    where
      at_current :
          s.heap cur ≡ some t → on_failure thread_not_found (block_found os t.id cur s) ≡ none
      at_current live' =
          let (u, live2, i) = current_thread busy in
          switches os _ _ (parked busy live')
            (block_found_running valid lt os t.id cur live' (current_running busy live')
              ∙ block_running-parked busy live' os t.id (ground (arith, live', live2, i)))
            (parked-Inv busy live' (λ z. n (sym j ∙ z))) lt

  block_found-quiet :
      (id p : ℕ) {t : Thread}
      → id ≢ main_thread_id
      → s.heap p ≡ some t
      → t.id ≡ id
      → on_failure thread_not_found (block_found os id p s) ≡ none
  block_found-quiet id p {t} n live j =
      rw (sym j) (elim (state_of t (cell_at inv p live).not_both) [
        | is_run r ↦ block_running-quiet p n live j r
        | is_rdy r ↦ succeeds _ _ (block_found-held_back inv p live os r)
        | is_blk r ↦ succeeds _ _ (block_found_idle valid lt os t.id p live (λ e. cc) (λ e. cc))
        | is_slp r ↦ succeeds _ _ (block_found_idle valid lt os t.id p live (λ e. cc) (λ e. cc))
      ])

  block_reason :
      (tid : ℤ)
      → block_message os tid s0
        ≡ (if eq_ℤ tid (pos main_thread_id) then some main_thread_block else if_missing tid s0)
  unfolding block_message
  block_reason tid = elim (is_main tid) [
    | inl e ↦ rw e refl
    | inr n ↦ rw (nonmain tid n) (
        looks_up tid (block_thread os tid s) (block_thread_missing valid lt os tid n)
          (λ id p t i e live j.
            rw (block_thread_found valid lt os tid n e)
              (block_found-quiet id p (λ z. n (i ∙ ap pos z)) live j)))
  ]

  sleep_reason :
      (n : ℤ)
      → n ≢ not_sleeping
      → sleep_message os n s0
        ≡ (if s0.running_thread_id == main_thread_id then some main_thread_sleep else none)
  unfolding sleep_message get_current_running_thread_id
  sleep_reason n h = elim (ℕ_discrete s0.running_thread_id main_thread_id) [
    | yes e ↦ rw e refl
    | no e ↦
        let (t, live, i) = current_thread busy in
        ground (
          arith,
          e,
          switches os thread_not_found (sleep_thread os n s) (laid_down busy live n)
              (sleep_thread-laid_down busy live os n e)
              (laid_down-Inv busy live n h (λ z. e (sym i ∙ z))) lt,
        )
  ]

  spawn_reason :
      (entry_point : ℕ) → spawn_message os entry_point s0 ≡ reason os (spawn entry_point) s0
  unfolding spawn_message reason
  spawn_reason zero = refl
  spawn_reason (suc e) = elim (dec_lt (length s0.active_threads) max_thread_num) [
    | yes room ↦ elim (Bool-cases os.allocates) [
      | inl a ↦
          let n : suc e ≢ 0 = λ z. cc in
          ground (arith, room, a, create_thread_and_push_to_ready-spawned inv room os a (suc e) n)
      | inr a ↦ elim (spawn_without_memory os (suc e) inv room a) [
        | inl (s', runs, empty) ↦ ground (arith, room, a, runs)
        | inr (runs, lost, n) ↦ ground (arith, room, a, runs)
      ]
    ]
    | no full ↦ ground (arith, full, spawn_full os (suc e) s (omega (arith, full)))
  ]

  -- In a valid state with fewer quantums than the largest int, what a call other than
  -- `uthread_sleep(-1)` writes to `cerr` by the code is what the state at the call gives reason
  -- for: a null entry point, as many threads as the limit, no memory, an id that no thread has, a
  -- block of the main thread or a sleep of it; and nothing where there is no such reason.
  pub message-reason : (c : Call) → c ≢ sleep not_sleeping → message os c s0 ≡ reason os c s0
  unfolding message reason
  message-reason (spawn entry_point) h = spawn_reason entry_point
  message-reason (terminate tid) h = terminate_reason tid
  message-reason (block tid) h = block_reason tid
  message-reason (resume tid) h = resume_reason tid
  message-reason (sleep n) h = sleep_reason n (λ e. h (ap Call.sleep e))
  message-reason (get_quantums tid) h = quantums_reason tid
  message-reason get_tid h = refl
  message-reason get_total_quantums h = refl

-- With memory `uthread_init` complains of a quantum that is not positive, and of nothing else.
init_message_lem :
    (os : Os) (quantum_usecs : ℤ) (masked : Bool)
    → os.allocates ≡ true
    → init_message os quantum_usecs (absent masked)
      ≡ (if is_positive quantum_usecs then none else some invalid_quantum)
unfolding init_message get_instance
init_message_lem os (negsuc n) masked a = refl
init_message_lem os (pos zero) masked a = refl
init_message_lem os (pos (suc n)) masked a = rw (construct_lem os (suc n) true a) (ground arith)

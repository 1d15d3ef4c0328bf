-- ===== src/Program/Calls.antt =====
-- What each call of uthreads.cpp, and the timer's signal, does to the places where the threads go on.
use os_ex.Prelude.{
  ℕ, zero, suc, ◌<◌, ◌≡◌, ◌≢◌, inl, inr, refl, sym, ap, ◌∙◌, some, ℤ, pos, negsuc, arith,
  ℕ_discrete, subst, true, dec_lt, Bool-cases, length,
}
use os_ex.Checked.{int_max}
use os_ex.Thread.{
  Thread, in_handler, in_block, in_sleep, blocked, sleeping, ready, main_thread_id, not_sleeping,
}
use os_ex.Machine.{System, Os, returns}
use os_ex.Scheduler.{
  success, failure, max_thread_num, change_blockage_status_sigvtalrm, get_current_running_thread_id,
  get_total_quantoms, block_found, resume_found,
}
use os_ex.Uthreads.{
  Seen, settle, Call, spawn, terminate, block, resume, sleep, get_quantums, get_tid,
  get_total_quantums, step_call, step_tick, static_external_time_handler, perform, uthread_get_tid,
  uthread_get_total_quantums,
}
use os_ex.Invariant.{Inv, IsBusy, IsValid, cell_at}
use os_ex.Dispatch.{run_topmost_lem}
use os_ex.Safety.{
  masked-IsBusy, to_user, find-cases, current_thread, current_running, is_run, is_rdy, is_blk,
  is_slp, state_of, nonmain_id, block_enters, block_thread_missing, block_thread_found,
  block_found_running, block_running-parked, block_found-held_back, block_found_idle, parked,
  parked-Inv, held_back, held_back-IsBusy, resume_enters, resume_thread_missing,
  resume_thread_found, resume_found_idle, resume_found-resumed, resumed, resumed-IsBusy,
  sleep_enters, sleep_thread-laid_down, laid_down, laid_down-Inv, left_in, yielded-Inv,
  internal_time_handler-yielded, arrived, quantums_enter, quantums_missing, quantums_found,
  spawn_enters, spawn_without_memory,
}
use os_ex.Behaviour.{spawn_refused, spawn_succeeds, block_main_refused, sleep_main_refused}
use os_ex.Program.Places.{owner, place_of, Moves, leaves}
use os_ex.Program.Outcomes.{
  SpawnsInMain, Answers, Goes, IsMild, unmoved_Goes, refused_Goes, same_Goes, other_Goes,
  leaves_Goes,
}

module _ {s0 : System} (valid : IsValid s0.stack s0) (lt : s0.total_quantoms < int_max)
    (os : Os) where
  abbrev s : System
  s = record s0 { masked = true }

  abbrev busy : IsBusy s0.stack s
  busy = masked-IsBusy true valid.busy

  abbrev inv : Inv s.total_quantoms s0.stack s
  inv = busy.inv

  resume_found-Goes :
      (c : Call) (p : ℕ) {t : Thread}
      → s0.heap p ≡ some t
      → Answers c s0 success
      → Goes os c s0 (to_user os (resume_found p s))
  resume_found-Goes c p {t} live a = elim (state_of t (cell_at inv p live).not_both) [
    | is_run r ↦
        same_Goes valid lt os c _ success a
          (resume_found_idle valid lt os p live (λ h. cc) (λ h. cc))
    | is_rdy r ↦
        same_Goes valid lt os c _ success a
          (resume_found_idle valid lt os p live (λ h. cc) (λ h. cc))
    | is_slp r ↦
        same_Goes valid lt os c _ success a
          (resume_found_idle valid lt os p live (λ h. cc) (λ h. cc))
    | is_blk r ↦
        other_Goes valid lt os c _ success (resumed inv p live) p t (record t { state = ready }) a
          (resume_found-resumed inv p live r) (resumed-IsBusy valid lt os p live r) live refl refl
          refl refl refl
  ]

  resume_Goes : (tid : ℤ) → Goes os (resume tid) s0 (step_call os (resume tid) s0)
  resume_Goes tid = rw (resume_enters valid lt os tid) (elim (find-cases tid s) [
    | inl e ↦
        same_Goes valid lt os (resume tid) _ failure tt (resume_thread_missing valid lt os tid e)
    | inr (id, p, i, e, l) ↦
        let (t, live, j) = inv.entries id p l in
        rw (resume_thread_found valid lt os tid e) (resume_found-Goes (resume tid) p live tt)
  ])

  block_current_Goes :
      (tid : ℤ) {t : Thread} (live : s0.heap s0.stack ≡ some t)
      → t.id ≢ main_thread_id
      → Goes os (block tid) s0 (to_user os (block_found os t.id s0.stack s))
  block_current_Goes tid {t} live n =
      let (u, live', i) = current_thread busy in
      leaves_Goes valid lt os (block tid) _ (parked busy live)
        (left_in blocked t.quantoms_left_to_sleep in_block s t)
        (block_found_running valid lt os t.id s0.stack live (current_running busy live)
          ∙ block_running-parked busy live os t.id (ground (arith, live, live', i)))
        (parked-Inv busy live n) refl refl refl (ap owner live) (inl (tid, refl, refl))

  block_found-Goes :
      (tid : ℤ) (p : ℕ) {t : Thread}
      → s0.heap p ≡ some t
      → t.id ≢ main_thread_id
      → Goes os (block tid) s0 (to_user os (block_found os t.id p s))
  block_found-Goes tid p {t} live n = elim (state_of t (cell_at inv p live).not_both) [
    | is_run r ↦
        subst (λ q. Goes os (block tid) s0 (to_user os (block_found os t.id q s)))
          (sym ((cell_at inv p live).runs r))
          (block_current_Goes tid (rw ((cell_at inv p live).runs r) at live) n)
    | is_rdy r ↦
        other_Goes valid lt os (block tid) _ success (held_back inv p live) p t
          (record t { state = blocked }) tt (block_found-held_back inv p live os r)
          (held_back-IsBusy valid lt os p live r n) live refl refl refl refl refl
    | is_blk r ↦
        same_Goes valid lt os (block tid) _ success tt
          (block_found_idle valid lt os t.id p live (λ e. cc) (λ e. cc))
    | is_slp r ↦
        same_Goes valid lt os (block tid) _ success tt
          (block_found_idle valid lt os t.id p live (λ e. cc) (λ e. cc))
  ]

  block_nonmain_Goes :
      (tid : ℤ) → tid ≢ pos main_thread_id → Goes os (block tid) s0 (step_call os (block tid) s0)
  block_nonmain_Goes tid n = rw (block_enters valid lt os tid n) (elim (find-cases tid s) [
    | inl e ↦
        same_Goes valid lt os (block tid) _ failure tt (block_thread_missing valid lt os tid n e)
    | inr (id, p, i, e, l) ↦
        let (t, live, j) = inv.entries id p l in
        rw (block_thread_found valid lt os tid n e) (
          subst (λ k. Goes os (block tid) s0 (to_user os (block_found os k p s))) j
            (block_found-Goes tid p live (λ z. nonmain_id n i (sym j ∙ z))))
  ])

  block_Goes : (tid : ℤ) → Goes os (block tid) s0 (step_call os (block tid) s0)
  block_Goes (pos zero) =
      rw (block_main_refused valid lt os) (refused_Goes valid lt os (block (pos 0)) failure tt)
  block_Goes (pos (suc n)) = block_nonmain_Goes (pos (suc n)) (λ z. cc)
  block_Goes (negsuc n) = block_nonmain_Goes (negsuc n) (λ z. cc)

  sleep_Goes : (n : ℤ) → n ≢ not_sleeping → Goes os (sleep n) s0 (step_call os (sleep n) s0)
  sleep_Goes n k = elim (ℕ_discrete s0.running_thread_id main_thread_id) [
    | yes h ↦
        rw (sleep_main_refused valid lt os n h) (refused_Goes valid lt os (sleep n) failure tt)
    | no h ↦
        let (t, live, i) = current_thread busy in
        rw (sleep_enters valid lt os n h) (
          leaves_Goes valid lt os (sleep n) _ (laid_down busy live n)
            (left_in sleeping n in_sleep s t) (sleep_thread-laid_down busy live os n h)
            (laid_down-Inv busy live n k (λ z. h (sym i ∙ z))) refl refl refl (ap owner live)
            (inr (n, refl, refl)))
  ]

  quantums_Goes : (tid : ℤ) → Goes os (get_quantums tid) s0 (step_call os (get_quantums tid) s0)
  quantums_Goes tid = rw (quantums_enter valid lt os tid) (elim (find-cases tid s) [
    | inl e ↦
        same_Goes valid lt os (get_quantums tid) _ failure tt (quantums_missing valid lt os tid e)
    | inr (id, p, i, e, l) ↦
        let (t, live, j) = inv.entries id p l in
        same_Goes valid lt os (get_quantums tid) _ (pos t.running_quantoms_num) tt
          (quantums_found valid lt os tid e live)
  ])

  get_tid_Goes : Goes os get_tid s0 (step_call os get_tid s0)
  unfolding step_call perform uthread_get_tid change_blockage_status_sigvtalrm settle
      get_current_running_thread_id
  get_tid_Goes = unmoved_Goes valid lt os get_tid (pos s0.running_thread_id) refl

  get_total_Goes : Goes os get_total_quantums s0 (step_call os get_total_quantums s0)
  unfolding step_call perform uthread_get_total_quantums change_blockage_status_sigvtalrm settle
      get_total_quantoms
  get_total_Goes = unmoved_Goes valid lt os get_total_quantums (pos s0.total_quantoms) refl

  spawn_room_Goes :
      (e : ℕ)
      → e ≢ 0
      → length s0.active_threads < max_thread_num
      → s0.running_thread_id ≡ main_thread_id
      → Goes os (spawn e) s0 (step_call os (spawn e) s0)
  unfolding settle
  spawn_room_Goes e n room is_main = elim (Bool-cases os.allocates) [
    | inl a ↦
        let (id, s', runs, few, unused, least, entered, heap, queue, size, total, v) =
          spawn_succeeds os e valid lt room a n in
        rw runs (
          inl (record {
            code = pos id;
            seen_eq = refl;
            answers = tt;
            valid = v;
            total = total;
            size = omega (arith, size);
            places = λ q. elim (ℕ_discrete s0.next_address q) [
              | yes k ↦ inr (
                e,
                refl,
                ap owner (inv.fresh q (omega (arith, k))),
                ap (λ f. place_of (f q)) heap ∙ ground (arith, k),
              )
              | no k ↦ inl (ap (λ f. place_of (f q)) heap ∙ ground (arith, k))
            ];
            owners = λ q i h. ap (λ f. owner (f q)) heap ∙ elim (ℕ_discrete s0.next_address q) [
              | yes k ↦ absurd (cc (h, k, ap owner (inv.fresh s0.next_address (omega arith))))
              | no k ↦ ground (arith, k, h)
            ];
          }))
    | inr d ↦ elim (spawn_without_memory os e inv room d) [
      | inl (s', runs, empty) ↦ rw (spawn_enters valid lt os e n) (rw runs (refl, d))
      | inr (runs, lost, k) ↦ absurd (k is_main)
    ]
  ]

  spawn_Goes :
      (e : ℕ)
      → s0.running_thread_id ≡ main_thread_id
      → Goes os (spawn e) s0 (step_call os (spawn e) s0)
  spawn_Goes zero is_main =
      rw (spawn_refused valid lt os 0 (inl refl)) (refused_Goes valid lt os (spawn 0) failure tt)
  spawn_Goes (suc e) is_main = elim (dec_lt (length s0.active_threads) max_thread_num) [
    | yes room ↦ spawn_room_Goes (suc e) (λ z. cc) room is_main
    | no full ↦
        rw (spawn_refused valid lt os (suc e) (inr (omega arith)))
          (refused_Goes valid lt os (spawn (suc e)) failure tt)
  ]

  pub call_Goes : (c : Call) → IsMild c → SpawnsInMain s0 c → Goes os c s0 (step_call os c s0)
  call_Goes (spawn e) k i = spawn_Goes e i
  call_Goes (terminate tid) k i = absurd k
  call_Goes (block tid) k i = block_Goes tid
  call_Goes (resume tid) k i = resume_Goes tid
  call_Goes (sleep n) k i = sleep_Goes n k
  call_Goes (get_quantums tid) k i = quantums_Goes tid
  call_Goes get_tid k i = get_tid_Goes
  call_Goes get_total_quantums k i = get_total_Goes

  -- The timer's signal, in the middle of user code.
  pub tick_Moves :
      (seen : Seen) × (s' : System) × (step_tick os s0 ≡ returns seen s')
      × Moves in_handler s0 seen s'
  unfolding step_tick static_external_time_handler settle
  tick_Moves =
      let (t, live, i) = current_thread busy in
      let (c, j, runs, w) = run_topmost_lem os (yielded-Inv busy live) lt in
      let (seen, lands, moves) =
        leaves (yielded-Inv busy live) w s0 (left_in ready t.quantoms_left_to_sleep in_handler s t)
          refl (ap owner live) refl refl in
      (seen, arrived w, rw (internal_time_handler-yielded busy live os) (rw runs (rw lands)), moves)

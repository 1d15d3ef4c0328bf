-- ===== src/Safety/Calls/Block.antt =====
-- `uthread_block` of uthreads.cpp, branch by branch.
use os_ex.Prelude.{
  ℕ, zero, suc, ◌<◌, ◌≡◌, ◌≢◌, inl, inr, sym, subst, ◌∙◌, true, none, some, ℤ, pos, negsuc, arith,
}
use os_ex.Checked.{int_max}
use os_ex.Thread.{Thread, running, ready, main_thread_id}
use os_ex.Thread.States.{is_running-true, is_running-false, is_ready-false}
use os_ex.Machine.{System, Os, returns, bind}
use os_ex.Machine.Laws.{deref_lem}
use os_ex.Scheduler.{
  success, failure, find, change_blockage_status_sigvtalrm, block_thread, block_found,
  block_running,
}
use os_ex.Uthreads.{settle, uthread_block, perform, step_call, block}
use os_ex.Invariant.{Inv, IsBusy, IsValid, cell_at}
use os_ex.Safety.Leave.{current_thread, current_running, parked, parked-Inv, block_running-parked}
use os_ex.Safety.Queue.{held_back, held_back-Inv, block_found-held_back}
use os_ex.Safety.Ways.{Outcome, masked-IsBusy, returns_safe, jumps_safe, find-cases, to_user}
use os_ex.Safety.Calls.Inside.{
  is_run, is_rdy, is_blk, is_slp, state_of, nonmain, nonmain_id, refused_IsValid,
}

module _ {cur : ℕ} {s0 : System} (valid : IsValid cur s0) (lt : s0.total_quantoms < int_max)
    (os : Os) where
  -- The state inside the call, where the signal is blocked.
  abbrev s : System
  s = record s0 { masked = true }

  abbrev busy : IsBusy cur s
  busy = masked-IsBusy true valid.busy

  abbrev inv : Inv s.total_quantoms cur s
  inv = busy.inv

  pub held_back-IsBusy :
      (p : ℕ) {t : Thread} (live : s.heap p ≡ some t)
      → t.state ≡ ready
      → t.id ≢ main_thread_id
      → IsBusy cur (held_back inv p live)
  held_back-IsBusy p live r n = record {
    inv = held_back-Inv inv p live r n;
    runner = busy.runner;
    on_stack = busy.on_stack;
  }

  pub block_found_idle :
      (id p : ℕ) {t : Thread}
      → s.heap p ≡ some t
      → t.state ≢ running
      → t.state ≢ ready
      → block_found os id p s ≡ returns success s
  unfolding block_found
  block_found_idle id p {t} live r n =
      rw (deref_lem p s live) (rw (is_running-false t r, is_ready-false t n))

  pub block_found_running :
      (id p : ℕ) {t : Thread}
      → s.heap p ≡ some t
      → t.state ≡ running
      → block_found os id p s ≡ block_running os id p s
  unfolding block_found
  block_found_running id p {t} live r = rw (deref_lem p s live) (rw (is_running-true t r))

  block_current_safe :
      {t : Thread} (live : s.heap cur ≡ some t)
      → t.id ≢ main_thread_id
      → Outcome (to_user os (block_found os t.id cur s))
  block_current_safe {t} live n =
      jumps_safe os _ (parked busy live)
        (block_found_running t.id cur live (current_running busy live)
          ∙ block_running-parked busy live os t.id (current_id live))
        (parked-Inv busy live n) lt
    where
      current_id : {t : Thread} → s.heap cur ≡ some t → s.running_thread_id ≡ t.id
      current_id e = let (u, live, i) = current_thread busy in ground (arith, e, live, i)

  block_found_safe :
      (p : ℕ) {t : Thread}
      → s.heap p ≡ some t
      → t.id ≢ main_thread_id
      → Outcome (to_user os (block_found os t.id p s))
  block_found_safe p {t} live n = elim (state_of t (cell_at inv p live).not_both) [
    | is_run r ↦
        subst (λ q. Outcome (to_user os (block_found os t.id q s)))
          (sym ((cell_at inv p live).runs r))
          (block_current_safe (rw ((cell_at inv p live).runs r) at live) n)
    | is_rdy r ↦
        returns_safe os _ success (held_back inv p live) (block_found-held_back inv p live os r)
          (held_back-IsBusy p live r n)
    | is_blk r ↦ returns_safe os _ success s (block_found_idle t.id p live (λ e. cc) (λ e. cc)) busy
    | is_slp r ↦ returns_safe os _ success s (block_found_idle t.id p live (λ e. cc) (λ e. cc)) busy
  ]

  pub block_enters :
      (tid : ℤ)
      → tid ≢ pos main_thread_id
      → step_call os (block tid) s0 ≡ to_user os (block_thread os tid s)
  unfolding step_call perform uthread_block change_blockage_status_sigvtalrm
  block_enters tid n = rw (nonmain tid n)

  pub block_thread_missing :
      (tid : ℤ)
      → tid ≢ pos main_thread_id
      → find tid s ≡ none
      → block_thread os tid s ≡ returns failure s
  unfolding block_thread
  block_thread_missing tid n e = rw (nonmain tid n) (rw (e, bind))

  pub block_thread_found :
      (tid : ℤ) {id p : ℕ}
      → tid ≢ pos main_thread_id
      → find tid s ≡ some (id, p)
      → block_thread os tid s ≡ block_found os id p s
  unfolding block_thread
  block_thread_found tid n e = rw (nonmain tid n) (rw (e, bind))

  block_nonmain_safe :
      (tid : ℤ) → tid ≢ pos main_thread_id → Outcome (to_user os (block_thread os tid s))
  block_nonmain_safe tid n = elim (find-cases tid s) [
    | inl e ↦ returns_safe os _ failure s (block_thread_missing tid n e) busy
    | inr (id, p, i, e, l) ↦
        let (t, live, j) = inv.entries id p l in
        rw (block_thread_found tid n e) (
          subst (λ k. Outcome (to_user os (block_found os k p s))) j
            (block_found_safe p live (λ z. nonmain_id n i (sym j ∙ z))))
  ]

  block_main_safe : Outcome (step_call os (block (pos main_thread_id)) s0)
  unfolding step_call perform uthread_block change_blockage_status_sigvtalrm settle
  block_main_safe = (cur, refused_IsValid valid)

  pub block_safe : (tid : ℤ) → Outcome (step_call os (block tid) s0)
  block_safe (pos zero) = block_main_safe
  block_safe (pos (suc n)) =
      rw (block_enters (pos (suc n)) (λ z. cc)) (block_nonmain_safe (pos (suc n)) (λ z. cc))
  block_safe (negsuc n) =
      rw (block_enters (negsuc n) (λ z. cc)) (block_nonmain_safe (negsuc n) (λ z. cc))

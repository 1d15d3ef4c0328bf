-- ===== src/Contract/Calls/Block.antt =====
-- `uthread_block` of uthreads.cpp beside its comment in uthreads.h.
use os_ex.Prelude.{
  ℕ, zero, suc, ◌<◌, ◌≡◌, ◌≢◌, inl, inr, refl, sym, ap, subst, ◌∙◌, some, ℤ, pos, negsuc, true,
  arith, erase,
}
use os_ex.Checked.{int_max}
use os_ex.Thread.{Thread, running, ready, blocked, main_thread_id, in_block}
use os_ex.Machine.{System, Os}
use os_ex.Scheduler.{success, failure, block_found}
use os_ex.Uthreads.{block, step_call}
use os_ex.Invariant.{Inv, IsBusy, IsValid, cell_at}
use os_ex.Safety.{
  masked-IsBusy, to_user, find-cases, current_thread, current_running, is_run, is_rdy, is_blk,
  is_slp, state_of, block_enters, block_thread_missing, block_thread_found, block_found_running,
  block_running-parked, block_found-held_back, block_found_idle, parked, parked-Inv, held_back,
  left_in,
}
use os_ex.Behaviour.{block_main_refused}
use os_ex.Contract.{IsBlocked, Status, code, Moves, BlockPromise}
use os_ex.Dispatch.{ready_at}
use os_ex.Contract.Abstraction.{view, info_of, info-live}
use os_ex.Contract.Ids.{AreLive, ids-erase}
use os_ex.Contract.Calls.Common.{
  Conforms, returns-Conforms, switches-Conforms, find-IsMissing, update-Moves,
}

module _ {cur : ℕ} {s0 : System} (valid : IsValid cur s0) (lt : s0.total_quantoms < int_max)
    (os : Os) where
  -- The state inside the call, where the signal is blocked.
  abbrev s : System
  s = record s0 { masked = true }

  abbrev busy : IsBusy cur s
  busy = masked-IsBusy true valid.busy

  abbrev inv : Inv s.total_quantoms cur s
  inv = busy.inv

  queue-AreLive : AreLive s.heap s.ready_queue
  queue-AreLive q h = let (t, e, r) = ready_at inv q h in (t, e)

  current_id : {t : Thread} → s.heap cur ≡ some t → t.id ≡ s.running_thread_id
  current_id e = let (u, live, i) = current_thread busy in ground (arith, e, live, i)

  block_self-Conforms :
      (n : ℕ) {t : Thread}
      → t.id ≡ suc n
      → s.heap cur ≡ some t
      → Conforms (view s) (block (pos (suc n))) (to_user os (block_found os t.id cur s))
  block_self-Conforms n {t} i live =
      let u : Thread = left_in blocked t.quantoms_left_to_sleep in_block s t in
      switches-Conforms os (view s) (block (pos (suc n))) _
        (Moves (suc n) (record (info_of t) { status = Status.blocked }) (view s).ready (view s))
        (parked busy live)
        (block_found_running valid lt os t.id cur live (current_running busy live)
          ∙ block_running-parked busy live os t.id (sym (current_id live)))
        (parked-Inv busy live (λ z. cc (i, z))) lt
        (subst
          (λ k.
            Moves k (record (info_of t) { status = Status.blocked }) (view s).ready (view s)
              (view (parked busy live)))
          i (update-Moves inv cur u s.ready_queue s.sleeping_threads live refl refl))
        (λ v' w.
          BlockPromise.held_self n (info_of t) refl
            (ap (view s).info (sym i) ∙ info-live inv cur live) (sym i ∙ current_id live) w)

  block_found-Conforms :
      (n p : ℕ) {t : Thread}
      → t.id ≡ suc n
      → s.heap p ≡ some t
      → Conforms (view s) (block (pos (suc n))) (to_user os (block_found os t.id p s))
  block_found-Conforms n p {t} i live = elim (state_of t (cell_at inv p live).not_both) [
    | is_run r ↦
        let h = (cell_at inv p live).runs r in
        subst (λ q. Conforms (view s) (block (pos (suc n))) (to_user os (block_found os t.id q s)))
          (sym h) (block_self-Conforms n i (rw h at live))
    | is_slp r ↦ idle (λ e. cc) (λ e. cc) (rw r tt)
    | is_blk r ↦ idle (λ e. cc) (λ e. cc) (rw r tt)
    | is_rdy r ↦
        let t' : Thread = record t { state = blocked } in
        returns-Conforms os (view s) (block (pos (suc n))) _ success _
          (block_found-held_back inv p live os r)
          (BlockPromise.held n (info_of t) refl known (ground (arith, r)) refl (
            subst
              (λ k.
                Moves k (record (info_of t) { status = Status.blocked }) (erase k (view s).ready)
                  (view s) (view (held_back inv p live)))
              i
              (update-Moves inv p t' (erase p s.ready_queue) s.sleeping_threads live refl
                (ids-erase inv s.ready_queue p queue-AreLive live))))
  ]
    where
      known : (view s).info (suc n) ≡ some (info_of t)
      known = ap (view s).info (sym i) ∙ info-live inv p live

      idle :
          t.state ≢ running
          → t.state ≢ ready
          → IsBlocked (info_of t).status
          → Conforms (view s) (block (pos (suc n))) (to_user os (block_found os t.id p s))
      idle a b h =
          returns-Conforms os (view s) (block (pos (suc n))) _ success s
            (block_found_idle valid lt os t.id p live a b)
            (BlockPromise.no_effect (suc n) (info_of t) refl known h
              (record { reply = refl; same = refl }))

  block_nonmain-Conforms :
      (tid : ℤ)
      → tid ≢ pos main_thread_id
      → Conforms (view s0) (block tid) (step_call os (block tid) s0)
  block_nonmain-Conforms tid m = rw (block_enters valid lt os tid m) (elim (find-cases tid s) [
    | inl e ↦
        returns-Conforms os (view s) (block tid) _ failure s
          (block_thread_missing valid lt os tid m e)
          (BlockPromise.refused (inr (find-IsMissing tid s e))
            (record { reply = refl; same = refl }))
    | inr (id, p, i, e, l) ↦
        let (t, live, j) = inv.entries id p l in
        rw (block_thread_found valid lt os tid m e) (found id p t i live j)
  ])
    where
      found :
          (id p : ℕ) (t : Thread)
          → tid ≡ pos id
          → s.heap p ≡ some t
          → t.id ≡ id
          → Conforms (view s) (block tid) (to_user os (block_found os id p s))
      found zero p t i live j = absurd (m i)
      found (suc n) p t i live j = rw i (
          subst (λ k. Conforms (view s) (block (pos (suc n))) (to_user os (block_found os k p s))) j
            (block_found-Conforms n p j live))

  pub block-Conforms : (tid : ℤ) → Conforms (view s0) (block tid) (step_call os (block tid) s0)
  block-Conforms (pos zero) =
      rw (block_main_refused valid lt os)
        (code failure, BlockPromise.refused (inl refl) (record { reply = refl; same = refl }), refl)
  block-Conforms (pos (suc n)) = block_nonmain-Conforms (pos (suc n)) (λ z. cc)
  block-Conforms (negsuc n) = block_nonmain-Conforms (negsuc n) (λ z. cc)

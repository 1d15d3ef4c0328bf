-- ===== src/Behaviour/Terminate.antt =====
-- `uthread_terminate` of uthreads.cpp: of another thread, of the calling one, and of the main one.
use os_ex.Prelude.{
  ℕ, suc, ◌<◌, ◌≡◌, ◌≢◌, refl, sym, subst, ap, ◌∙◌, List, Bool, true, false, inl, inr, Bool-cases,
  some, none, ℤ, pos, count, count-insert, remove, update, arith,
}
use os_ex.Checked.{int_max, freed_stack}
use os_ex.Thread.{Thread, running, main_thread_id}
use os_ex.Machine.{System, Os, Result, returns, exits, aborts}
use os_ex.Scheduler.{success, terminate_found, change_blockage_status_sigvtalrm}
use os_ex.Uthreads.{Seen, returned, settle, perform, uthread_terminate, step_call, terminate}
use os_ex.Invariant.{Inv, IsValid, cell_at, update_self}
use os_ex.Dispatch.{run_topmost_lem}
use os_ex.Safety.{
  masked-IsBusy, to_user, terminate_enters, terminate_thread_found, terminate_found-ready,
  terminate_found-sleeping, terminate_found-blocked, terminate_found-running, terminate_freed, gone,
  gone-Inv_ready, gone-Inv_sleeping, gone-Inv_blocked, gone-Inv_running, gone-IsBusy, is_run,
  is_rdy, is_blk, is_slp, state_of, exit-Ends, current_running, go_to_lem, arrived,
}
use os_ex.Behaviour.Errors.{to_user_returns}
use os_ex.Behaviour.Others.{find_lem, pos-main}
use os_ex.Behaviour.Switches.{switch_absent}

-- The thread has no object, no entry and no place in a list, and its id can be given anew.
pub record Gone (p id : ℕ) (s s' : System) : Type 0 where
  pub object : s'.heap ≡ update s.heap p none
  pub entry : s'.active_threads ≡ remove id s.active_threads
  pub unused : count id s'.unused_threads_id ≡ suc (count id s.unused_threads_id)
  pub unqueued : count p s'.ready_queue ≡ 0
  pub unlisted : count p s'.sleeping_threads ≡ 0
  pub total : s'.total_quantoms ≡ s.total_quantoms

module _ {cur : ℕ} {s : System} (v : IsValid cur s) (lt : s.total_quantoms < int_max)
    (os : Os) where
  abbrev inside : System
  inside = record s { masked = true }

  abbrev inv : Inv inside.total_quantoms cur inside
  inv = (masked-IsBusy true v.busy).inv

  goes :
      (p : ℕ) {t : Thread}
      → s.heap p ≡ some t
      → t.id ≢ main_thread_id
      → step_call os (terminate (pos t.id)) s ≡ to_user os (terminate_found os t.id p inside)
  goes p {t} live n =
      terminate_enters v lt os (pos t.id) (pos-main n)
      ∙ ap (to_user os) (
          terminate_thread_found v lt os (pos t.id)
            (find_lem t.id p inside (cell_at inv p live).registered))

  -- What it comes to that the calling thread ends itself, by whether freed memory keeps its contents.
  abbrev pub EndsSelf : Bool → Result System Seen → Type 0
  EndsSelf false r = r ≡ aborts freed_stack
  EndsSelf true r =
      (seen : Seen) × (s' : System) × (cur' : ℕ) × (r ≡ returns seen s')
      × IsValid cur' s'
      × (s'.heap cur ≡ none)
      × (s'.total_quantoms ≡ suc s.total_quantoms)

  -- What a call that ended another thread gives.
  abbrev pub Ends : ℕ → ℕ → Type 0
  Ends p id =
      (s' : System) × (step_call os (terminate (pos id)) s ≡ returns (returned success) s')
      × IsValid cur s'
      × Gone p id s s'

  ends :
      (p : ℕ) {t : Thread} (live : s.heap p ≡ some t) (ready' sleeping' : List ℕ)
      → t.id ≢ main_thread_id
      → t.state ≢ running
      → terminate_found os t.id p inside ≡ returns success (gone inv p live ready' sleeping')
      → Inv inside.total_quantoms cur (gone inv p live ready' sleeping')
      → Ends p t.id
  ends p {t} live ready' sleeping' n r e inv' = (
    record (gone inv p live ready' sleeping') { masked = false },
    goes p live n ∙ to_user_returns os _ success _ e,
    record {
      busy = masked-IsBusy false (gone-IsBusy v lt os p live ready' sleeping' r inv');
      let_in = refl;
    },
    record {
      object = refl;
      entry = refl;
      unused = ground (arith, count-insert t.id t.id s.unused_threads_id);
      unqueued = ground (arith, inv'.queue p);
      unlisted = ground (arith, inv'.sleepers p);
      total = refl;
    },
  )

  -- In a valid state with fewer quantums than the largest int, `uthread_terminate` of a live
  -- thread that is neither the main thread nor running returns 0: its object, its entry and its
  -- places in the queue and the set are gone, its id is unused once more than before, the total
  -- of quantums is the same, and the state is valid with the same thread running.
  pub terminate_other_thread :
      (p : ℕ) {t : Thread}
      → s.heap p ≡ some t
      → t.id ≢ main_thread_id
      → t.state ≢ running
      → Ends p t.id
  terminate_other_thread p {t} live n r = elim (state_of t (cell_at inv p live).not_both) [
    | is_run e ↦ absurd (r e)
    | is_rdy e ↦
        ends p live _ _ n r (terminate_found-ready inv p live os e) (gone-Inv_ready inv p live n e)
    | is_blk e ↦
        ends p live _ _ n r (terminate_found-blocked inv p live os e)
          (gone-Inv_blocked inv p live n e)
    | is_slp e ↦
        ends p live _ _ n r (terminate_found-sleeping inv p live os e)
          (gone-Inv_sleeping inv p live n e)
  ]

  -- In a valid state with fewer quantums than the largest int, take a calling thread that is not
  -- the main thread and that ends itself. Where freed memory does not keep its contents, the
  -- process faults, because the scheduler runs on, on the stack in the object that it has
  -- deleted. Where freed memory keeps its contents, user code goes on in a valid state in which
  -- that object is gone, in the next quantum.
  pub terminate_self :
      {t : Thread}
      → s.heap cur ≡ some t
      → t.id ≢ main_thread_id
      → EndsSelf os.keeps_freed (step_call os (terminate (pos t.id)) s)
  unfolding settle
  terminate_self {t} live n =
      let r = current_running (masked-IsBusy true v.busy) live in
      elim (Bool-cases os.keeps_freed) [
        | inl kept ↦
            let (c, j, runs, w) = run_topmost_lem os (gone-Inv_running inv cur live n r) lt in
            let (seen, lands, valid) = go_to_lem w in
            subst (λ b. EndsSelf b (step_call os (terminate (pos t.id)) s)) (sym kept)
              (
                seen,
                arrived w,
                w.front,
                goes cur live n
                    ∙ ap (to_user os) (terminate_found-running inv cur live os kept r)
                    ∙ rw runs (rw lands),
                valid,
                switch_absent (gone-Inv_running inv cur live n r) w cur
                    (update_self s.heap cur none),
                ap (λ z. z.total_quantoms) w.final ∙ ap (λ z. z.total_quantoms) w.slept.frame,
              )
        | inr lost ↦
            subst (λ b. EndsSelf b (step_call os (terminate (pos t.id)) s)) (sym lost)
              (goes cur live n ∙ terminate_freed v lt os cur live r lost)
      ]

  -- In a valid state with fewer quantums than the largest int, `uthread_terminate(0)` by the main
  -- thread, or where freed memory keeps its contents, exits with code 0 and every thread object
  -- deleted.
  pub terminate_main :
      ((os.keeps_freed ≡ false) → s.running_thread_id ≡ main_thread_id)
      → (s' : System) × (step_call os (terminate (pos main_thread_id)) s ≡ exits 0 s')
        × ((p : ℕ) → s'.heap p ≡ none)
  unfolding step_call perform uthread_terminate change_blockage_status_sigvtalrm settle
  terminate_main h = elim (exit-Ends os ℤ 0 s.largest_thread_id s.unused_threads_id inv) [
    | inl (s', runs, empty) ↦ (s', rw runs, empty)
    | inr (runs, lost, n) ↦ absurd (n (h lost))
  ]

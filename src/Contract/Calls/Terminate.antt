-- ===== src/Contract/Calls/Terminate.antt =====
-- `uthread_terminate` of uthreads.cpp beside its comment in uthreads.h.
use os_ex.Prelude.{
  false, Bool-cases, count-erase, ℕ, zero, suc, ◌<◌, ◌≡◌, ◌≢◌, inl, inr, refl, sym, ap, subst, ◌∙◌,
  Option, none, some, ℤ, pos, negsuc, true, lookup, ◌==◌, if◌then◌else◌, List, arith, update, erase,
  count, ℕ_discrete, lookup-remove, length-remove, erase-absent, remove,
}
use os_ex.Checked.{int_max}
use os_ex.Thread.{Thread, running, ready, main_thread_id}
use os_ex.Machine.{System, Os, returns}
use os_ex.Scheduler.{success, failure, terminate_found}
use os_ex.Uthreads.{terminate, step_call}
use os_ex.Invariant.{Inv, IsBusy, IsValid, cell_at, update_other}
use os_ex.Safety.{
  LosesStack, masked-IsBusy, to_user, find-cases, current_thread, is_run, is_rdy, is_blk, is_slp,
  state_of, running-on_stack, terminate_enters, terminate_thread_missing, terminate_thread_found,
  terminate_found-ready, terminate_found-sleeping, terminate_found-blocked, terminate_found-running,
  gone, gone-Inv_running,
}
use os_ex.Behaviour.{terminate_main}
use os_ex.Contract.{Removes, TerminatePromise}
use os_ex.Dispatch.{ready_at}
use os_ex.Contract.Abstraction.{view, ids, info_of, info-live, id_of, entry_info}
use os_ex.Contract.Ids.{AreLive, ids-erase, ids-eq_on}
use os_ex.Contract.Calls.Common.{Conforms, returns-Conforms, switches-Conforms, find-IsMissing}

module _ {cur : ℕ} {s0 : System} (valid : IsValid cur s0) (lt : s0.total_quantoms < int_max)
    (os : Os) where
  -- The state inside the call, where the signal is blocked.
  abbrev s : System
  s = record s0 { masked = true }

  abbrev busy : IsBusy cur s
  busy = masked-IsBusy true valid.busy

  abbrev inv : Inv s.total_quantoms cur s
  inv = busy.inv

  queue-AreLive : AreLive s.heap s.ready_queue
  queue-AreLive q h = let (t, e, r) = ready_at inv q h in (t, e)

  module _ (p : ℕ) {t : Thread} (live : s.heap p ≡ some t) where
    -- What is known of the threads once one is gone.
    known :
        (k : ℕ)
        → entry_info (update s.heap p none) (lookup k (remove t.id s.active_threads))
          ≡ (if k == t.id then none else (view s).info k)
    known k =
        ap (entry_info (update s.heap p none)) (lookup-remove t.id k s.active_threads inv.unique)
        ∙ elim (ℕ_discrete t.id k) [
          | yes h ↦ ground (arith, h)
          | no h ↦ go (lookup k s.active_threads) refl h
        ]
      where
        go :
            (o : Option ℕ)
            → lookup k s.active_threads ≡ o
            → t.id ≢ k
            → entry_info (update s.heap p none) (if t.id == k then none else o)
              ≡ (if k == t.id then none else entry_info s.heap o)
        go none l h = ground (arith, h)
        go (some q) l h = let (u, live', i) = inv.entries k q l in ground (arith, h, live, live', i)

    -- A list without the thread loses nothing with its object.
    without : (xs : List ℕ) → count p xs ≡ 0 → ids (update s.heap p none) xs ≡ ids s.heap xs
    without xs h = ids-eq_on (update s.heap p none) s.heap xs (λ q k.
        ap id_of (
          update_other s.heap p q none (λ z. absurd (omega (arith, h, k, ap (λ n. count n xs) z)))))

    removed :
        (ready' sleeping' : List ℕ)
        → count p ready' ≡ 0
        → ids s.heap ready' ≡ erase t.id (view s).ready
        → Removes t.id (view s) (view (gone inv p live ready' sleeping'))
    removed ready' sleeping' h e = record {
      info = known;
      ready = without ready' h ∙ e;
      current = refl;
      size = length-remove t.id p s.active_threads (cell_at inv p live).registered;
      total = refl;
    }

    unqueued : t.state ≢ ready → count p s.ready_queue ≡ 0
    unqueued r = ground (arith, inv.queue p)

    -- Where the thread is not ready its id is in no list.
    unlisted : t.state ≢ ready → (view s).ready ≡ erase t.id (view s).ready
    unlisted r =
        ap (ids s.heap) (sym (erase-absent p s.ready_queue (unqueued r)))
        ∙ ids-erase inv s.ready_queue p queue-AreLive live

    ready_removed :
        t.state ≡ ready
        → Removes t.id (view s) (view (gone inv p live (erase p s.ready_queue) s.sleeping_threads))
    ready_removed r =
        removed (erase p s.ready_queue) s.sleeping_threads
          (ground (arith, inv.queue p, count-erase p p s.ready_queue))
          (ids-erase inv s.ready_queue p queue-AreLive live)

    idle_removed :
        (sleeping' : List ℕ)
        → t.state ≢ ready
        → Removes t.id (view s) (view (gone inv p live s.ready_queue sleeping'))
    idle_removed sleeping' r = removed s.ready_queue sleeping' (unqueued r) (unlisted r)

    module _ (n : ℕ) (i : t.id ≡ suc n) where
      known_id : (view s).info (suc n) ≡ some (info_of t)
      known_id = ap (view s).info (sym i) ∙ info-live inv p live

      other_id : t.state ≢ running → suc n ≢ (view s).current
      other_id r z = r (
          (cell_at inv p live).current
            (ground (arith, (cell_at inv p live).registered, busy.runner, i, z)))

      ended :
          (s1 : System)
          → t.state ≢ running
          → terminate_found os t.id p s ≡ returns success s1
          → Removes t.id (view s) (view s1)
          → Conforms (view s) (terminate (pos (suc n))) (to_user os (terminate_found os t.id p s))
      ended s1 r e k = returns-Conforms os (view s) (terminate (pos (suc n))) _ success s1 e (
          TerminatePromise.ended n (info_of t) refl known_id (other_id r) refl
            (subst (λ m. Removes m (view s) (view s1)) i k))

      ended_self :
          os.keeps_freed ≡ true
          → t.state ≡ running
          → Conforms (view s) (terminate (pos (suc n))) (to_user os (terminate_found os t.id p s))
      ended_self kept r =
          switches-Conforms os (view s) (terminate (pos (suc n))) _ (Removes (suc n) (view s))
            (gone inv p live s.ready_queue s.sleeping_threads)
            (terminate_found-running inv p live os kept r)
            (gone-Inv_running inv p live (λ z. cc (i, z)) r) lt
            (subst
              (λ m. Removes m (view s) (view (gone inv p live s.ready_queue s.sleeping_threads))) i
              (idle_removed s.sleeping_threads (λ e. cc)))
            (λ v' w. TerminatePromise.ended_self n refl (sym i ∙ current_id) w)
        where
          current_id : t.id ≡ s.running_thread_id
          current_id =
              let (u, live', j) = current_thread busy in
              ground (arith, live, live', j, (cell_at inv p live).runs r)

      found-Conforms :
          (pos (suc n) ≡ pos s.running_thread_id → os.keeps_freed ≡ true)
          → Conforms (view s) (terminate (pos (suc n))) (to_user os (terminate_found os t.id p s))
      found-Conforms kept = elim (state_of t (cell_at inv p live).not_both) [
        | is_run r ↦
            ended_self (kept (ap pos (sym i ∙ (running-on_stack valid lt os p live r).1))) r
        | is_rdy r ↦ ended _ (λ e. cc) (terminate_found-ready inv p live os r) (ready_removed r)
        | is_blk r ↦
            ended _ (λ e. cc) (terminate_found-blocked inv p live os r)
              (idle_removed s.sleeping_threads (λ e. cc))
        | is_slp r ↦
            ended _ (λ e. cc) (terminate_found-sleeping inv p live os r)
              (idle_removed (erase p s.sleeping_threads) (λ e. cc))
      ]

  keeps :
      (tid : ℤ)
      → tid ≢ pos main_thread_id
      → ¬ LosesStack os (terminate tid) s0
      → tid ≡ pos s0.running_thread_id
      → os.keeps_freed ≡ true
  keeps tid m kept e = elim (Bool-cases os.keeps_freed) [
    | inl h ↦ h
    | inr lost ↦ absurd (kept (lost, λ z. m (e ∙ ap pos z), inl e))
  ]

  terminate_nonmain-Conforms :
      (tid : ℤ)
      → tid ≢ pos main_thread_id
      → ¬ LosesStack os (terminate tid) s0
      → Conforms (view s0) (terminate tid) (step_call os (terminate tid) s0)
  terminate_nonmain-Conforms tid m kept =
      rw (terminate_enters valid lt os tid m) (elim (find-cases tid s) [
        | inl e ↦
            returns-Conforms os (view s) (terminate tid) _ failure s
              (terminate_thread_missing valid lt os tid e)
              (TerminatePromise.refused m (find-IsMissing tid s e)
                (record { reply = refl; same = refl }))
        | inr (id, p, i, e, l) ↦
            let (t, live, j) = inv.entries id p l in
            rw (terminate_thread_found valid lt os tid e) (found id p t i live j)
      ])
    where
      found :
          (id p : ℕ) (t : Thread)
          → tid ≡ pos id
          → s.heap p ≡ some t
          → t.id ≡ id
          → Conforms (view s) (terminate tid) (to_user os (terminate_found os id p s))
      found zero p t i live j = absurd (m i)
      found (suc n) p t i live j = rw i (
          subst
            (λ k.
              Conforms (view s) (terminate (pos (suc n))) (to_user os (terminate_found os k p s)))
            j (found-Conforms p live n j (λ z. keeps tid m kept (i ∙ z))))

  pub terminate-Conforms :
      (tid : ℤ)
      → ¬ LosesStack os (terminate tid) s0
      → Conforms (view s0) (terminate tid) (step_call os (terminate tid) s0)
  terminate-Conforms (pos zero) kept =
      let (s', runs, empty) = terminate_main valid lt os main_or_kept in rw runs (refl, refl)
    where
      main_or_kept : os.keeps_freed ≡ false → s0.running_thread_id ≡ main_thread_id
      main_or_kept lost = elim (ℕ_discrete s0.running_thread_id main_thread_id) [
        | yes h ↦ h
        | no n ↦ absurd (kept (lost, n, inr refl))
      ]
  terminate-Conforms (pos (suc n)) kept = terminate_nonmain-Conforms (pos (suc n)) (λ z. cc) kept
  terminate-Conforms (negsuc n) kept = terminate_nonmain-Conforms (negsuc n) (λ z. cc) kept

-- ===== src/Contract/Calls/Spawn.antt =====
-- `uthread_spawn` of uthreads.cpp beside its comment in uthreads.h.
use os_ex.Prelude.{
  ℕ, zero, suc, ◌<◌, ◌≤◌, ◌≡◌, ◌≢◌, ◌⊎◌, inl, inr, refl, ap, ◌∙◌, Option, none, some, pos, true,
  lookup, ◌==◌, if◌then◌else◌, [], ◌∷◌, ◌++◌, arith, update, count, length, dec_lt, ℕ_discrete,
  lookup-assign, length-assign, assign,
}
use os_ex.Checked.{int_max}
use os_ex.Thread.{Thread}
use os_ex.Machine.{System, Os}
use os_ex.Scheduler.{failure, max_thread_num}
use os_ex.Uthreads.{spawn, step_call}
use os_ex.Invariant.{Inv, IsBusy, IsValid, update_self, update_other}
use os_ex.Safety.{
  masked-IsBusy, born, spawn_enters, spawned, create_thread_and_push_to_ready-spawned, new_id,
  new_id-least,
}
use os_ex.Behaviour.{spawn_refused}
use os_ex.Contract.{Status, code, Adds, SpawnPromise}
use os_ex.Dispatch.{ready_at}
use os_ex.Contract.Abstraction.{view, ids, id_of, entry_info}
use os_ex.Contract.Ids.{ids-eq_on, ids-snoc}
use os_ex.Contract.Calls.Common.{Conforms, returns-Conforms}

module _ {cur : ℕ} {s0 : System} (valid : IsValid cur s0) (lt : s0.total_quantoms < int_max)
    (os : Os) where
  -- The state inside the call, where the signal is blocked.
  abbrev s : System
  s = record s0 { masked = true }

  abbrev busy : IsBusy cur s
  busy = masked-IsBusy true valid.busy

  abbrev inv : Inv s.total_quantoms cur s
  inv = busy.inv

  module _ (room : length s.active_threads < max_thread_num) (a : os.allocates ≡ true)
      (entry_point : ℕ) (e : entry_point ≢ 0) where
    abbrev id : ℕ
    id = new_id inv

    abbrev newborn : Thread
    newborn = born id s entry_point

    abbrev heap' : ℕ → Option Thread
    heap' = update s.heap s.next_address (some newborn)

    nothing_there : s.heap s.next_address ≡ none
    nothing_there = inv.fresh s.next_address (omega arith)

    apart : (q : ℕ) {t : Thread} → s.heap q ≡ some t → q ≢ s.next_address
    apart q live z = absurd (cc (live, nothing_there, z))

    queued_ids : (q : ℕ) → 0 < count q s.ready_queue → id_of (heap' q) ≡ id_of (s.heap q)
    queued_ids q h =
        let (t, live, r) = ready_at inv q h in
        ap id_of (update_other s.heap s.next_address q (some newborn) (apart q live))

    listed : ids heap' (s.ready_queue ++ s.next_address ∷ []) ≡ (view s).ready ++ id ∷ []
    listed =
        ids-snoc heap' s.ready_queue s.next_address
          (update_self s.heap s.next_address (some newborn))
        ∙ ap (λ xs. xs ++ id ∷ []) (ids-eq_on heap' s.heap s.ready_queue queued_ids)

    known :
        (k : ℕ)
        → entry_info heap' (lookup k (assign id s.next_address s.active_threads)) ≡ (
            if k == id
            then some (record { status = Status.ready; quantums = 0 })
            else (view s).info k)
    known k =
        ap (entry_info heap') (lookup-assign id k s.next_address s.active_threads)
        ∙ elim (ℕ_discrete id k) [
          | yes h ↦ ground (arith, h, update_self s.heap s.next_address (some newborn))
          | no h ↦ go (lookup k s.active_threads) refl h
        ]
      where
        go :
            (o : Option ℕ)
            → lookup k s.active_threads ≡ o
            → id ≢ k
            → entry_info heap' (if id == k then some s.next_address else o) ≡ (
                if k == id
                then some (record { status = Status.ready; quantums = 0 })
                else entry_info s.heap o)
        go none l h = ground (arith, h)
        go (some q) l h =
            let (t, live, i) = inv.entries k q l in
            ground (arith, h, update_other s.heap s.next_address q (some newborn) (apart q live))

    added : Adds id (view s) (view (spawned inv room os a entry_point e))
    added = record {
      unused = ap (entry_info s.heap) (new_id-least inv).0;
      info = known;
      ready = listed;
      current = refl;
      size = length-assign id s.next_address s.active_threads (new_id-least inv).0;
      total = refl;
    }

    added-Conforms : Conforms (view s0) (spawn entry_point) (step_call os (spawn entry_point) s0)
    added-Conforms = rw (spawn_enters valid lt os entry_point e) (
        returns-Conforms os (view s) (spawn entry_point) _ (pos id)
          (spawned inv room os a entry_point e)
          (create_thread_and_push_to_ready-spawned inv room os a entry_point e)
          (SpawnPromise.added id e room refl added))

  refused-Conforms :
      (entry_point : ℕ)
      → (entry_point ≡ 0) ⊎ (max_thread_num ≤ length s.active_threads)
      → Conforms (view s0) (spawn entry_point) (step_call os (spawn entry_point) s0)
  refused-Conforms entry_point h =
      rw (spawn_refused valid lt os entry_point h)
        (code failure, SpawnPromise.refused h (record { reply = refl; same = refl }), refl)

  pub spawn-Conforms :
      (entry_point : ℕ)
      → os.allocates ≡ true
      → Conforms (view s0) (spawn entry_point) (step_call os (spawn entry_point) s0)
  spawn-Conforms zero a = refused-Conforms zero (inl refl)
  spawn-Conforms (suc e) a = elim (dec_lt (length s.active_threads) max_thread_num) [
    | yes room ↦ added-Conforms room a (suc e) (λ z. cc)
    | no full ↦ refused-Conforms (suc e) (inr (omega arith))
  ]

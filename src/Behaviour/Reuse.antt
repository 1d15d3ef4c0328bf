-- ===== src/Behaviour/Reuse.antt =====
-- `uthread_terminate` of uthreads.cpp and then `uthread_spawn`.
use os_ex.Prelude.{
  ℕ, suc, ◌≤◌, ◌<◌, ◌≡◌, ◌≢◌, ap, ◌∙◌, some, none, true, pos, lookup, length, length-remove,
  lookup-remove, arith,
}
use os_ex.Checked.{int_max}
use os_ex.Thread.{Thread, running, main_thread_id}
use os_ex.Machine.{System, Os, returns}
use os_ex.Scheduler.{success}
use os_ex.Uthreads.{returned, step_call, spawn, terminate}
use os_ex.Invariant.{IsValid, cell_at}
use os_ex.Behaviour.Spawn.{spawn_succeeds}
use os_ex.Behaviour.Terminate.{terminate_other_thread}

-- In a valid state with fewer quantums than the largest int, memory and an entry point that is
-- not null, to end a live thread that is neither the main thread nor running and then to spawn
-- one succeeds, with an id that is at most the one of the thread that ended; there are as many
-- threads as before, and the state is valid.
pub spawn-terminate :
    {cur : ℕ} {s : System} (os os' : Os) (p entry_point : ℕ) {t : Thread}
    → IsValid cur s
    → s.total_quantoms < int_max
    → s.heap p ≡ some t
    → t.id ≢ main_thread_id
    → t.state ≢ running
    → os'.allocates ≡ true
    → entry_point ≢ 0
    → (s1 : System) × (id : ℕ) × (s2 : System) × (step_call os (terminate (pos t.id)) s
        ≡ returns (returned success) s1)
      × (step_call os' (spawn entry_point) s1 ≡ returns (returned (pos id)) s2)
      × (id ≤ t.id)
      × (length s2.active_threads ≡ length s.active_threads)
      × IsValid cur s2
spawn-terminate {cur} {s} os os' p entry_point {t} v lt live n r a e =
    let (s1, ends, valid, gone) = terminate_other_thread v lt os p live n r in
    let size : suc (length s1.active_threads) ≡ length s.active_threads =
      ap (λ m. suc (length m)) gone.entry
      ∙ length-remove t.id p s.active_threads (cell_at v.inv p live).registered in
    let freed : lookup t.id s1.active_threads ≡ none =
      ap (lookup t.id) gone.entry
      ∙ ground (arith, lookup-remove t.id t.id s.active_threads v.inv.unique) in
    let (id, s2, runs, below, fresh, least, entry, heap, queue, size', total, valid') =
      spawn_succeeds os' entry_point valid (omega (arith, lt, gone.total))
        (omega (arith, size, v.inv.capacity)) a e in
    (s1, id, s2, ends, runs, ground (arith, least t.id, freed), size' ∙ size, valid')

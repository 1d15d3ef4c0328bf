-- ===== src/Behaviour/Spawn.antt =====
-- `uthread_spawn` of uthreads.cpp with room and memory.
use os_ex.Prelude.{
  of_bool, ltb, ◌≤◌, arith, suc, length-assign, ℕ, ◌<◌, ◌≡◌, ◌≢◌, refl, ◌∙◌, [], ◌∷◌, ◌++◌, true,
  false, some, none, pos, length, lookup, is_some, lookup-assign, update, arith,
}
use os_ex.Checked.{int_max}
use os_ex.Machine.{System, Os, returns}
use os_ex.Scheduler.{max_thread_num}
use os_ex.Uthreads.{returned, step_call, spawn}
use os_ex.Invariant.{IsValid}
use os_ex.Safety.{
  masked-IsBusy, new_id-lt, new_id, new_id-least, born, spawned, spawn_enters, spawned-IsBusy,
  create_thread_and_push_to_ready-spawned,
}
use os_ex.Behaviour.Errors.{to_user_returns}

-- In a valid state with fewer quantums than the largest int, fewer threads than the limit,
-- memory, and an entry point that is not null, `uthread_spawn` returns the least id that no
-- thread has, which is below the limit; the new thread stands under that id, ready at the end of
-- the queue with the entry point in its context and no quantum yet, every other object and the
-- total of quantums are as they were, the table has one entry more, and the state is valid.
pub spawn_succeeds :
    {cur : ℕ} {s : System} (os : Os) (entry_point : ℕ)
    → IsValid cur s
    → s.total_quantoms < int_max
    → length s.active_threads < max_thread_num
    → os.allocates ≡ true
    → entry_point ≢ 0
    → (id : ℕ) × (s' : System) × (step_call os (spawn entry_point) s
        ≡ returns (returned (pos id)) s')
      × (id < max_thread_num)
      × (lookup id s.active_threads ≡ none)
      × ((i : ℕ) → of_bool (ltb i id) ≤ is_some (lookup i s.active_threads))
      × (lookup id s'.active_threads ≡ some s.next_address)
      × (s'.heap ≡ update s.heap s.next_address (some (born id s entry_point)))
      × (s'.ready_queue ≡ s.ready_queue ++ s.next_address ∷ [])
      × (length s'.active_threads ≡ suc (length s.active_threads))
      × (s'.total_quantoms ≡ s.total_quantoms)
      × IsValid cur s'
spawn_succeeds {cur} {s} os e v lt room a n =
    let inside : System = record s { masked = true } in
    let inv = (masked-IsBusy true v.busy).inv in
    let id : ℕ = new_id inv in
    let s1 : System = spawned inv room os a e n in
    (
      id,
      record s1 { masked = false },
      spawn_enters v lt os e n
          ∙ to_user_returns os _ (pos id) s1
              (create_thread_and_push_to_ready-spawned inv room os a e n),
      new_id-lt inv room,
      (new_id-least inv).0,
      λ i. ground (arith, (new_id-least inv).1 i),
      ground (arith, lookup-assign id id s.next_address s.active_threads),
      refl,
      refl,
      length-assign id s.next_address s.active_threads (new_id-least inv).0,
      refl,
      record { busy = masked-IsBusy false (spawned-IsBusy v lt os room a e n); let_in = refl },
    )

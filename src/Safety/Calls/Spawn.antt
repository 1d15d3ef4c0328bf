-- ===== src/Safety/Calls/Spawn.antt =====
-- `uthread_spawn` of uthreads.cpp, branch by branch.
use os_ex.Prelude.{
  ◌⊎◌, false, ℕ, zero, suc, ◌<◌, ◌≡◌, ◌≢◌, inl, inr, refl, true, pos, Bool-cases, dec_lt, length,
  lookup-assign, arith,
}
use os_ex.Checked.{freed_stack, int_max}
use os_ex.Thread.{main_thread_id}
use os_ex.Machine.{aborts, System, Os}
use os_ex.Scheduler.{
  failure, max_thread_num, change_blockage_status_sigvtalrm, create_thread_and_push_to_ready,
}
use os_ex.Uthreads.{settle, uthread_spawn, perform, step_call, spawn}
use os_ex.Invariant.{Inv, IsBusy, IsValid}
use os_ex.Safety.Leave.{current_thread}
use os_ex.Safety.Spawn.{
  new_id, new_id-least, spawned, spawned-Inv, spawn_full, spawn_without_memory,
  create_thread_and_push_to_ready-spawned,
}
use os_ex.Safety.Ways.{Outcome, masked-IsBusy, returns_safe, to_user}
use os_ex.Safety.Calls.Inside.{nonzero, refused_IsValid}

module _ {cur : ℕ} {s0 : System} (valid : IsValid cur s0) (lt : s0.total_quantoms < int_max)
    (os : Os) where
  -- The state inside the call, where the signal is blocked.
  abbrev s : System
  s = record s0 { masked = true }

  abbrev busy : IsBusy cur s
  busy = masked-IsBusy true valid.busy

  abbrev inv : Inv s.total_quantoms cur s
  inv = busy.inv

  cur-lt-next : cur < s.next_address
  cur-lt-next =
      let (t, live, i) = current_thread busy in
      elim (dec_lt cur s.next_address) [
        | yes h ↦ h
        | no h ↦ absurd (cc (live, inv.fresh cur (omega arith)))
      ]

  pub spawned-IsBusy :
      (room : length s.active_threads < max_thread_num) (a : os.allocates ≡ true) (entry_point : ℕ)
      (e : entry_point ≢ 0)
      → IsBusy cur (spawned inv room os a entry_point e)
  spawned-IsBusy room a entry_point e = record {
    inv = spawned-Inv inv room os a entry_point e cur-lt-next;
    runner = ground (
      arith,
      busy.runner,
      (new_id-least inv).0,
      lookup-assign (new_id inv) s.running_thread_id s.next_address s.active_threads,
    );
    on_stack = busy.on_stack;
  }

  pub spawn_enters :
      (entry_point : ℕ)
      → entry_point ≢ 0
      → step_call os (spawn entry_point) s0
        ≡ to_user os (create_thread_and_push_to_ready os entry_point s)
  unfolding step_call perform uthread_spawn change_blockage_status_sigvtalrm
  spawn_enters entry_point n = rw (nonzero entry_point n)

  -- Another thread than the main one has no memory, and exits.
  abbrev pub LosesMemory : Type 0
  LosesMemory =
      (os.keeps_freed ≡ false) × (s0.running_thread_id ≢ main_thread_id) × (os.allocates ≡ false)

  spawn_nonnull_safe :
      (entry_point : ℕ)
      → entry_point ≢ 0
      → Outcome (to_user os (create_thread_and_push_to_ready os entry_point s))
        ⊎ ((to_user os (create_thread_and_push_to_ready os entry_point s) ≡ aborts freed_stack)
            × LosesMemory)
  unfolding settle
  spawn_nonnull_safe e n = elim (dec_lt (length s.active_threads) max_thread_num) [
    | no full ↦ inl (returns_safe os _ failure s (spawn_full os e s (omega arith)) busy)
    | yes room ↦ elim (Bool-cases os.allocates) [
      | inl a ↦ inl (
          returns_safe os _ (pos (new_id inv)) (spawned inv room os a e n)
            (create_thread_and_push_to_ready-spawned inv room os a e n) (spawned-IsBusy room a e n))
      | inr d ↦ elim (spawn_without_memory os e inv room d) [
        | inl (s', runs, empty) ↦ inl (rw runs (inr refl, empty))
        | inr (runs, lost, k) ↦ inr (rw runs refl, (lost, k, d))
      ]
    ]
  ]

  pub spawn_safe :
      (entry_point : ℕ)
      → Outcome (step_call os (spawn entry_point) s0)
        ⊎ ((step_call os (spawn entry_point) s0 ≡ aborts freed_stack) × LosesMemory)
  unfolding step_call perform uthread_spawn change_blockage_status_sigvtalrm settle
  spawn_safe zero = inl (cur, refused_IsValid valid)
  spawn_safe (suc e) = rw (spawn_enters (suc e) (λ z. cc)) (spawn_nonnull_safe (suc e) (λ z. cc))

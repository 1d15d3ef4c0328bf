-- ===== src/Safety/Spawn.antt =====
-- `generate_thread_id` and `create_thread_and_push_to_ready` of scheduler.cpp.
use os_ex.Prelude.{
  inl, inr, ℕ, suc, ◌≤◌, ◌<◌, ◌≡◌, ◌≢◌, refl, ap, List, [], ◌∷◌, ◌++◌, true, false, none, some,
  ◌==◌, leb, lt→ltb, pos, length, count-nil, count-cons, count-cons_self, count-RisesFrom,
  IsSorted-tail, assign, lookup, is_some, update, arith,
}
use os_ex.Checked.{int_max}
use os_ex.Thread.{Thread, entry, in_setup, ready, not_sleeping, new_thread, main_thread_id}
use os_ex.Thread.States.{is_ready-true}
use os_ex.Safety.Destroy.{exit-Ends, Ends}
use os_ex.Machine.{System, Os, returns, allocate, context_at}
use os_ex.Machine.Laws.{deref_lem}
use os_ex.Scheduler.{
  failure, max_thread_num, generate_thread_id, create_thread, create_thread_and_push_to_ready,
  set_active, push_ready,
}
use os_ex.Invariant.{Inv, Taken, add-Inv, update_self}

-- What `generate_thread_id` gives, by the unused ids.
abbrev pub next_id : ℕ → List ℕ → ℕ
next_id largest [] = suc largest
next_id largest (id ∷ rest) = id

abbrev pub largest_after : ℕ → List ℕ → ℕ
largest_after largest [] = suc largest
largest_after largest (id ∷ rest) = largest

abbrev pub unused_after : List ℕ → List ℕ
unused_after [] = []
unused_after (id ∷ rest) = rest

module _ {cap cur : ℕ} {s : System} (inv : Inv cap cur s) where
  abbrev pub new_id : ℕ
  new_id = next_id s.largest_thread_id s.unused_threads_id

  -- All ids in use are below the number of threads while none is unused.
  next-Taken :
      (unused : List ℕ)
      → s.unused_threads_id ≡ unused
      → Taken s
          (next_id s.largest_thread_id unused)
          (largest_after s.largest_thread_id unused)
          (unused_after unused)
  next-Taken [] e = record {
    split = λ i. ground (arith, inv.split i, count-nil i, rw e at (inv.split i));
    sorted = tt;
    sizes = omega (arith, inv.sizes, ap length e);
    few = λ room. omega (arith, inv.sizes, ap length e);
    absent = ground (arith, inv.split (suc s.largest_thread_id));
  }
  next-Taken (id ∷ rest) e = record {
    split = λ i. ground (arith, rw e at (inv.split i), count-cons i id rest);
    sorted = IsSorted-tail id rest (rw e at inv.sorted);
    sizes = omega (arith, inv.sizes, ap length e);
    few = λ room. inv.few;
    absent = ground (arith, rw e at (inv.split id), count-cons_self id rest);
  }

  generated :
      length s.active_threads < max_thread_num
      → (unused : List ℕ) → s.unused_threads_id ≡ unused
      → generate_thread_id s
        ≡ returns (next_id s.largest_thread_id unused) (record s {
          unused_threads_id = unused_after unused;
          largest_thread_id = largest_after s.largest_thread_id unused;
        })
  unfolding generate_thread_id
  generated room [] e =
      rw (e, generate_thread_id)
        (rw (lt→ltb s.largest_thread_id int_max (omega (arith, inv.sizes, ap length e))) (
          ap
            (λ u.
              returns (suc s.largest_thread_id)
                (record s { unused_threads_id = u; largest_thread_id = suc s.largest_thread_id }))
            e))
  generated room (id ∷ rest) e = rw (e, generate_thread_id)

  pub generate_thread_id_lem :
      length s.active_threads < max_thread_num
      → generate_thread_id s
        ≡ returns new_id (record s {
          unused_threads_id = unused_after s.unused_threads_id;
          largest_thread_id = largest_after s.largest_thread_id s.unused_threads_id;
        })
  generate_thread_id_lem room = generated room s.unused_threads_id refl

  id_below :
      (unused : List ℕ)
      → s.unused_threads_id ≡ unused
      → length s.active_threads < max_thread_num
      → next_id s.largest_thread_id unused < max_thread_num
  id_below [] e room = omega (arith, inv.sizes, ap length e)
  id_below (id ∷ rest) e room =
      ground (arith, inv.few, rw e at (inv.split id), count-cons_self id rest)

  pub new_id-lt : length s.active_threads < max_thread_num → new_id < max_thread_num
  new_id-lt = id_below s.unused_threads_id refl

  used_below :
      (unused : List ℕ)
      → s.unused_threads_id ≡ unused
      → (i : ℕ) → i < next_id s.largest_thread_id unused
      → is_some (lookup i s.active_threads) ≡ 1
  used_below [] e i h = ground (arith, count-nil i, rw e at (inv.split i))
  used_below (id ∷ rest) e i h = ground (
    arith,
    rw e at (inv.split i),
    rw e at (inv.split id),
    count-cons i id rest,
    count-cons_self id rest,
    count-RisesFrom id i rest (rw e at inv.sorted),
  )

  -- The id is the least that no thread has.
  pub new_id-least :
      (lookup new_id s.active_threads ≡ none)
      × ((i : ℕ) → i < new_id → is_some (lookup i s.active_threads) ≡ 1)
  new_id-least = ((next-Taken s.unused_threads_id refl).absent, used_below s.unused_threads_id refl)

abbrev pub born : ℕ → System → ℕ → Thread
born id s entry_point = record {
  state = ready;
  env = record { point = entry entry_point; stack = s.next_address; masked = false };
  id = id;
  quantoms_left_to_sleep = not_sleeping;
  running_quantoms_num = 0;
}

new_thread_lem :
    (s : System) (id entry_point : ℕ)
    → id ≢ main_thread_id
    → entry_point ≢ 0
    → new_thread (context_at in_setup s) s.next_address id entry_point ≡ born id s entry_point
unfolding new_thread
new_thread_lem s id entry_point n e = ground arith

create_thread_full :
    (os : Os) (entry_point : ℕ) (s : System)
    → max_thread_num ≤ length s.active_threads
    → create_thread os entry_point s ≡ returns 0 s
unfolding create_thread
create_thread_full os entry_point s h = ground arith

pub spawn_full :
    (os : Os) (entry_point : ℕ) (s : System)
    → max_thread_num ≤ length s.active_threads
    → create_thread_and_push_to_ready os entry_point s ≡ returns failure s
unfolding create_thread_and_push_to_ready
spawn_full os entry_point s h = rw (create_thread_full os entry_point s h)

not_full : {n : ℕ} → n < max_thread_num → leb max_thread_num n ≡ false
not_full h = ground arith

module _ {cap cur : ℕ} {s : System} (inv : Inv cap cur s)
    (room : length s.active_threads < max_thread_num) (os : Os) (allocates : os.allocates ≡ true)
    (entry_point : ℕ) (e : entry_point ≢ 0) where
  new_id-ne_main : new_id inv ≢ main_thread_id
  new_id-ne_main z =
      absurd (omega (arith, inv.has_main, ap is_some (rw z at ((new_id-least inv).0))))

  abbrev pub newcomer : Thread
  newcomer = born (new_id inv) s entry_point

  abbrev pub spawned : System
  spawned = record s {
    heap = update s.heap s.next_address (some newcomer);
    next_address = suc s.next_address;
    largest_thread_id = largest_after s.largest_thread_id s.unused_threads_id;
    unused_threads_id = unused_after s.unused_threads_id;
    active_threads = assign (new_id inv) s.next_address s.active_threads;
    ready_queue = s.ready_queue ++ s.next_address ∷ [];
  }

  abbrev built : System
  built = record s {
    heap = update s.heap s.next_address (some newcomer);
    next_address = suc s.next_address;
    largest_thread_id = largest_after s.largest_thread_id s.unused_threads_id;
    unused_threads_id = unused_after s.unused_threads_id;
  }

  create_thread_lem : create_thread os entry_point s ≡ returns s.next_address built
  unfolding create_thread allocate
  create_thread_lem = rw (not_full room) (
      rw (generate_thread_id_lem inv room)
        (rw allocates (rw (new_thread_lem s (new_id inv) entry_point new_id-ne_main e))))

  pub create_thread_and_push_to_ready-spawned :
      create_thread_and_push_to_ready os entry_point s ≡ returns (pos (new_id inv)) spawned
  unfolding create_thread_and_push_to_ready set_active push_ready
  create_thread_and_push_to_ready-spawned = rw create_thread_lem (
      rw (nonnull s.next_address inv.nonnull) (
        rw (deref_lem s.next_address built (update_self s.heap s.next_address (some newcomer)))
          (rw (is_ready-true newcomer refl))))
    where
      nonnull : (p : ℕ) → 0 < p → (p == 0) ≡ false
      nonnull p h = ground arith

  pub spawned-Inv : cur < s.next_address → Inv cap cur spawned
  spawned-Inv h =
      add-Inv inv (next-Taken inv s.unused_threads_id refl) room newcomer refl refl refl
        (refl, refl) (λ z. absurd (omega arith))

-- With the invariant, fewer threads than the limit and no memory,
-- `create_thread_and_push_to_ready` is an `exit` with code 1.
pub spawn_without_memory :
    {cap cur : ℕ} {s : System} (os : Os) (entry_point : ℕ)
    → Inv cap cur s
    → length s.active_threads < max_thread_num
    → os.allocates ≡ false
    → Ends os 1 s.running_thread_id (create_thread_and_push_to_ready os entry_point s)
unfolding create_thread_and_push_to_ready create_thread
spawn_without_memory {cap} {cur} {s} os entry_point inv room denied =
    elim (exit-Ends os ℕ 1 (largest_after s.largest_thread_id s.unused_threads_id)
      (unused_after s.unused_threads_id) inv) [
        | inl (s', runs, empty) ↦ inl (
          s',
          rw (not_full room) (rw (generate_thread_id_lem inv room) (rw denied (rw runs))),
          empty,
        )
        | inr (runs, lost, n) ↦ inr (
          rw (not_full room) (rw (generate_thread_id_lem inv room) (rw denied (rw runs))),
          lost,
          n,
        )
      ]

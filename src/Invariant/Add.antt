-- ===== src/Invariant/Add.antt =====
-- A thread comes (scheduler.cpp, `create_thread_and_push_to_ready`): its id, its object, its entry and
-- its place in the queue.
use os_ex.Prelude.{
  ℕ, suc, ◌+◌, ◌≡◌, ◌≢◌, refl, ◌∙◌, List, [], ◌∷◌, ◌++◌, Option, none, some, ◌==◌, count,
  count-snoc, length, lookup, assign, lookup-assign, assign-HasUniqueKeys, length-assign, is_some,
  leb, of_bool, IsSorted, update, arith, ℕ_discrete, ◌<◌,
}
use os_ex.Thread.{Thread, main_thread_id, ready}
use os_ex.Machine.{System}
use os_ex.Scheduler.{max_thread_num}
use os_ex.Invariant.Defs.{CellInv, Cell, Inv, Waits}
use os_ex.Invariant.Change.{update_self, update_other}

-- `id` was taken from the unused ids, or is the next one; `largest'` and `unused'` are what is left.
pub record Taken (s : System) (id largest' : ℕ) (unused' : List ℕ) : Type 0 where
  pub split :
      (i : ℕ)
      → count i unused' + is_some (lookup i s.active_threads) + of_bool (id == i)
        ≡ of_bool (leb i largest')
  pub sorted : IsSorted unused'
  pub sizes : suc (length s.active_threads + length unused') ≡ suc largest'
  pub few : length s.active_threads < max_thread_num → largest' < max_thread_num
  pub absent : lookup id s.active_threads ≡ none

module _ {cap cur : ℕ} {s : System} (inv : Inv cap cur s) {id largest' : ℕ} {unused' : List ℕ}
    (taken : Taken s id largest' unused') (room : length s.active_threads < max_thread_num)
    (t : Thread) (same_id : t.id ≡ id) (is_ready : t.state ≡ ready)
    (young : t.running_quantoms_num ≡ 0) (waits : Waits s.next_address t.env)
    (not_current : s.next_address ≢ cur) where
  abbrev p : ℕ
  p = s.next_address

  abbrev pub added : System
  added = record s {
    heap = update s.heap s.next_address (some t);
    next_address = suc s.next_address;
    largest_thread_id = largest';
    unused_threads_id = unused';
    active_threads = assign id s.next_address s.active_threads;
    ready_queue = s.ready_queue ++ s.next_address ∷ [];
  }

  absent_object : s.heap p ≡ none
  absent_object = inv.fresh p (omega arith)

  kept-Cell :
      (q : ℕ) (u : Option Thread)
      → s.heap q ≡ u
      → q ≢ p
      → Cell s.active_threads cap cur q u
      → Cell added.active_threads cap cur q u
  kept-Cell q none e h c = tt
  kept-Cell q (some u) e h c = record {
    registered =
        ground (arith, c.registered, taken.absent, lookup-assign id u.id p s.active_threads);
    runs = c.runs;
    current = c.current;
    not_both = c.not_both;
    main = c.main;
    aged = c.aged;
    countdown = c.countdown;
    waits = c.waits;
  }

  new_cell : CellInv added.active_threads cap cur p t
  new_cell = record {
    registered = ground (arith, same_id, lookup-assign id t.id p s.active_threads);
    runs = λ e. cc;
    current = λ e. absurd (not_current e);
    not_both = λ e. cc;
    main = λ e. ground arith;
    aged = omega arith;
    countdown = λ e. cc;
    waits = λ _. waits;
  }

  entry :
      (i q : ℕ)
      → lookup i added.active_threads ≡ some q
      → (u : Thread) × (added.heap q ≡ some u) × (u.id ≡ i)
  entry i q e = elim (ℕ_discrete i id) [
    | yes h ↦ (t, ground (arith, lookup-assign id i p s.active_threads), ground arith)
    | no h ↦
        let (u, e', j) = inv.entries i q (ground (arith, lookup-assign id i p s.active_threads)) in
        (u, update_other s.heap p q (some t) (λ z. cc (absent_object, e')) ∙ e', j)
  ]

  pub add-Inv : Inv cap cur added
  add-Inv = record {
    objects = record {
      cells = λ q. elim (ℕ_discrete q p) [
        | yes h ↦ rw (h, update_self s.heap p (some t)) new_cell
        | no h ↦
            rw (update_other s.heap p q (some t) h) (kept-Cell q (s.heap q) refl h (inv.cells q))
      ];
      fresh = λ q h. ground (arith, inv.fresh q);
      null = ground (arith, inv.null, inv.nonnull);
      nonnull = omega (arith, inv.nonnull);
      entries = entry;
      queue = λ q. ground (arith, inv.queue q, absent_object, count-snoc q s.ready_queue p);
      sleepers = λ q. ground (arith, inv.sleepers q, absent_object);
    };
    ids = record {
      split =
          λ i. ground (arith, taken.split i, lookup-assign id i p s.active_threads, taken.absent);
      sorted = taken.sorted;
      unique = assign-HasUniqueKeys id p s.active_threads inv.unique;
      sizes = omega (arith, taken.sizes, length-assign id p s.active_threads taken.absent);
      capacity = omega (arith, length-assign id p s.active_threads taken.absent);
      few = taken.few room;
      has_main = ground (arith, inv.has_main, lookup-assign id main_thread_id p s.active_threads);
    };
  }

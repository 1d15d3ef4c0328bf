-- ===== src/Invariant/Remove.antt =====
-- A thread goes (scheduler.cpp, `terminate_thread`): its entry, its place in the lists and its object.
use os_ex.Prelude.{
  ℕ, ◌≡◌, ◌≢◌, refl, sym, ◌∙◌, List, Option, none, some, count, count-insert, length-insert, insert,
  insert-IsSorted, lookup, remove, lookup-remove, remove-HasUniqueKeys, length-remove, update,
  arith, ℕ_discrete,
}
use os_ex.Thread.{Thread, main_thread_id}
use os_ex.Machine.{System}
use os_ex.Invariant.Defs.{ready_weight, sleeping_weight, Cell, Ids, Inv}
use os_ex.Invariant.Change.{cell_at, Gives, update_self, update_other, other-Cell}

module _ {cap cur : ℕ} {s : System} (inv : Inv cap cur s) (cur' p : ℕ) {t : Thread}
    (live : s.heap p ≡ some t) where
  abbrev id : ℕ
  id = t.id

  registered : lookup t.id s.active_threads ≡ some p
  registered = (cell_at inv p live).registered

  kept-Cell :
      Gives p cur cur'
      → (q : ℕ) (u : Option Thread) → s.heap q ≡ u
      → q ≢ p
      → Cell s.active_threads cap cur' q u
      → Cell (remove t.id s.active_threads) cap cur' q u
  kept-Cell others q none e h c = tt
  kept-Cell others q (some u) e h c = record {
    registered =
        ground
          (arith, h, c.registered, registered, lookup-remove t.id u.id s.active_threads inv.unique);
    runs = c.runs;
    current = c.current;
    not_both = c.not_both;
    main = c.main;
    aged = c.aged;
    countdown = c.countdown;
    waits = c.waits;
  }

  removed-Ids :
      t.id ≢ main_thread_id
      → Ids (record s {
        active_threads = remove t.id s.active_threads;
        unused_threads_id = insert t.id s.unused_threads_id;
      })
  removed-Ids n = record {
    split = λ i. ground (
      arith,
      inv.split i,
      registered,
      count-insert i t.id s.unused_threads_id,
      lookup-remove t.id i s.active_threads inv.unique,
    );
    sorted = insert-IsSorted t.id s.unused_threads_id inv.sorted;
    unique = remove-HasUniqueKeys t.id s.active_threads inv.unique;
    sizes = omega (
      arith,
      inv.sizes,
      length-insert t.id s.unused_threads_id,
      length-remove t.id p s.active_threads registered,
    );
    capacity = omega (arith, inv.capacity, length-remove t.id p s.active_threads registered);
    few = inv.few;
    has_main =
        ground
          (arith, n, inv.has_main, lookup-remove t.id main_thread_id s.active_threads inv.unique);
  }

  old_entry :
      (i q : ℕ)
      → lookup i (remove t.id s.active_threads) ≡ some q
      → (i ≢ t.id) × (lookup i s.active_threads ≡ some q)
  old_entry i q e = (
    ground (arith, lookup-remove t.id i s.active_threads inv.unique),
    ground (arith, lookup-remove t.id i s.active_threads inv.unique),
  )

  kept_entry :
      (i q : ℕ)
      → lookup i (remove t.id s.active_threads) ≡ some q
      → (u : Thread) × (update s.heap p none q ≡ some u) × (u.id ≡ i)
  kept_entry i q e =
      let (n, e') = old_entry i q e in
      let (u, e'', j) = inv.entries i q e' in
      (u, update_other s.heap p q none (λ z. n (sym j ∙ same_thread u z e'')) ∙ e'', j)
    where
      same_thread : (u : Thread) → q ≡ p → s.heap q ≡ some u → u.id ≡ t.id
      same_thread u z h = ground (arith, rw z at h)

  module _ (ready' sleeping' : List ℕ) where
    abbrev pub removed : System
    removed = record s {
      heap = update s.heap p none;
      active_threads = remove t.id s.active_threads;
      unused_threads_id = insert t.id s.unused_threads_id;
      ready_queue = ready';
      sleeping_threads = sleeping';
    }

    pub remove-Inv :
        t.id ≢ main_thread_id
        → Gives p cur cur'
        → ((q : ℕ) → count q ready' ≡ ready_weight (update s.heap p none q))
        → ((q : ℕ) → count q sleeping' ≡ sleeping_weight (update s.heap p none q))
        → Inv cap cur' removed
    remove-Inv n others queue sleepers = record {
      objects = record {
        cells = λ q. elim (ℕ_discrete q p) [
          | yes h ↦ rw (h, update_self s.heap p none) tt
          | no h ↦ rw (update_other s.heap p q none h) (
              kept-Cell others q (s.heap q) refl h (
                other-Cell inv cap cur' p t live others (omega arith) q (s.heap q) refl h
                  (inv.cells q)))
        ];
        fresh = λ q h. ground (arith, inv.fresh q h);
        null = ground (arith, inv.null);
        nonnull = inv.nonnull;
        entries = kept_entry;
        queue = queue;
        sleepers = sleepers;
      };
      ids = record {
        split = (removed-Ids n).split;
        sorted = (removed-Ids n).sorted;
        unique = (removed-Ids n).unique;
        sizes = (removed-Ids n).sizes;
        capacity = (removed-Ids n).capacity;
        few = (removed-Ids n).few;
        has_main = (removed-Ids n).has_main;
      };
    }

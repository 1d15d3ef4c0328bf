-- ===== src/Invariant/Change.antt =====
-- One object changes, and the lists with it: what is left to show for the invariant of the scheduler.
use os_ex.Prelude.{
  fun_ext, ℕ, ◌≡◌, ◌≢◌, ◌↔◌, ◌≤◌, refl, List, Option, none, some, count, update, arith, ℕ_discrete,
}
use os_ex.Thread.{Thread}
use os_ex.Machine.{System}
use os_ex.Invariant.Defs.{ready_weight, sleeping_weight, CellInv, Cell, Inv}

-- The invariant at a live object.
pub cell_at :
    {cap cur : ℕ} {s : System}
    → Inv cap cur s
    → (p : ℕ) {t : Thread} → s.heap p ≡ some t
    → CellInv s.active_threads cap cur p t
cell_at {cap} {cur} {s} inv p e = rw e at (inv.cells p)

pub update_self : (f : ℕ → Option Thread) (p : ℕ) (v : Option Thread) → update f p v p ≡ v
update_self f p v = ground arith

pub update_other :
    (f : ℕ → Option Thread) (p q : ℕ) (v : Option Thread) → q ≢ p → update f p v q ≡ f q
update_other f p q v h = ground arith

pub update-update :
    (f : ℕ → Option Thread) (p : ℕ) (v w : Option Thread) → update (update f p v) p w ≡ update f p w
update-update f p v w = fun_ext λ q. ground arith

-- The thread at `cur` gives way to the one at `cur'`: all others but `p` wait as before.
abbrev pub Gives : ℕ → ℕ → ℕ → Type 0
Gives p cur cur' = (q : ℕ) → q ≢ p → q ≢ 0 → (q ≡ cur) ↔ (q ≡ cur')

module _ {cap cur : ℕ} {s : System} (inv : Inv cap cur s) (cap' cur' p : ℕ) {t : Thread}
    (t' : Thread) (live : s.heap p ≡ some t) where
  pub other-Cell :
      Gives p cur cur'
      → cap ≤ cap'
      → (q : ℕ) (u : Option Thread) → s.heap q ≡ u
      → q ≢ p
      → Cell s.active_threads cap cur q u
      → Cell s.active_threads cap' cur' q u
  other-Cell others more q none e h c = tt
  other-Cell others more q (some u) e h c = record {
    registered = c.registered;
    not_both = c.not_both;
    main = c.main;
    aged = omega (arith, c.aged);
    countdown = c.countdown;
    runs = λ r. (others q h q≢0).0 (c.runs r);
    current = λ r. c.current ((others q h q≢0).1 r);
    waits = λ n. c.waits (λ r. n ((others q h q≢0).0 r));
  }
    where
      q≢0 : q ≢ 0
      q≢0 z = cc (inv.null, rw z at e)

  module _ (ready' sleeping' : List ℕ) where
    abbrev changed : System
    changed = record s {
      heap = update s.heap p (some t');
      ready_queue = ready';
      sleeping_threads = sleeping';
    }

    pub change-Inv :
        t'.id ≡ t.id
        → CellInv s.active_threads cap' cur' p t'
        → Gives p cur cur'
        → cap ≤ cap'
        → ((q : ℕ) → count q ready' ≡ ready_weight (update s.heap p (some t') q))
        → ((q : ℕ) → count q sleeping' ≡ sleeping_weight (update s.heap p (some t') q))
        → Inv cap' cur' changed
    change-Inv same_id new others more queue sleepers = record {
      objects = record {
        cells = λ q. elim (ℕ_discrete q p) [
          | yes h ↦ rw (h, update_self s.heap p (some t')) new
          | no h ↦
              rw (update_other s.heap p q (some t') h)
                (other-Cell others more q (s.heap q) refl h (inv.cells q))
        ];
        fresh = λ q h. ground (arith, inv.fresh q h);
        null = ground (arith, inv.null);
        nonnull = inv.nonnull;
        entries = λ id q e.
            let (u, e', i) = inv.entries id q e in
            elim (ℕ_discrete q p) [
              | yes h ↦
                  (t', rw (h, update_self s.heap p (some t')), ground (arith, same_id, i, e', h))
              | no h ↦ (u, rw (update_other s.heap p q (some t') h) e', i)
            ];
        queue = queue;
        sleepers = sleepers;
      };
      ids = record {
        split = inv.split;
        sorted = inv.sorted;
        unique = inv.unique;
        sizes = inv.sizes;
        capacity = inv.capacity;
        few = inv.few;
        has_main = inv.has_main;
      };
    }

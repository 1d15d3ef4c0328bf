-- ===== src/Examples/States.antt =====
-- Two states of a process with four threads: one runs, one is ready, one sleeps, one is blocked.
use os_ex.Prelude.{
  ℕ, ◌≡◌, refl, List, [], ◌∷◌, true, false, Option, none, some, pos, count, lookup, update, arith,
  ℕ_discrete,
}
use os_ex.Thread.{
  Thread, ThreadState, running, ready, blocked, sleeping, Context, Point, in_block, in_sleep,
  in_handler, entry, not_sleeping,
}
use os_ex.Machine.{System, Os}
use os_ex.Scheduler.{quantum_timer}
use os_ex.Invariant.{CellInv, Cell, Inv, IsValid, update_self, update_other}

abbrev pub quiet : Os
quiet = record { sigaction = pos 0; setitimer = pos 0; allocates = true; keeps_freed = true }

abbrev context : Point → ℕ → Context
context place p = record { point = place; stack = p; masked = false }

abbrev pub main_of : ThreadState → Thread
main_of state = record {
  state = state;
  env = context in_handler 1;
  id = 0;
  quantoms_left_to_sleep = not_sleeping;
  running_quantoms_num = 3;
}

abbrev pub worker_of : ThreadState → Thread
worker_of state = record {
  state = state;
  env = context (entry 77) 2;
  id = 1;
  quantoms_left_to_sleep = not_sleeping;
  running_quantoms_num = 2;
}

abbrev pub sleeper : Thread
sleeper = record {
  state = sleeping;
  env = context in_sleep 3;
  id = 2;
  quantoms_left_to_sleep = pos 2;
  running_quantoms_num = 1;
}

abbrev pub held_thread : Thread
held_thread = record {
  state = blocked;
  env = context in_block 4;
  id = 3;
  quantoms_left_to_sleep = not_sleeping;
  running_quantoms_num = 1;
}

abbrev pub objects : Thread → Thread → ℕ → Option Thread
objects m w =
    update (update (update (update (λ _. none) 4 (some held_thread)) 3 (some sleeper)) 2 (some w)) 1
      (some m)

abbrev table : List (ℕ × ℕ)
table = (0, 1) ∷ (1, 2) ∷ (2, 3) ∷ (3, 4) ∷ []

abbrev base : System
base = record {
  heap = objects (main_of running) (worker_of ready);
  next_address = 5;
  stack = 1;
  masked = false;
  handled = true;
  itimer = some (quantum_timer 100);
  quantum_usecs = 100;
  largest_thread_id = 4;
  running_thread_id = 0;
  total_quantoms = 7;
  unused_threads_id = 4 ∷ [];
  active_threads = table;
  sleeping_threads = 3 ∷ [];
  ready_queue = 2 ∷ [];
}

-- The main thread runs and the worker is ready; and the other way round.
abbrev pub main_runs : System
main_runs = base

abbrev pub worker_runs : System
worker_runs = record base {
  heap = objects (main_of ready) (worker_of running);
  stack = 2;
  running_thread_id = 1;
  ready_queue = 1 ∷ [];
}

abbrev dozing : Thread
dozing = record (worker_of sleeping) { quantoms_left_to_sleep = pos 0 }

-- The main thread runs, and two threads sleep, of which one is due.
abbrev pub two_sleep : System
two_sleep = record base {
  heap = objects (main_of running) dozing;
  ready_queue = [];
  sleeping_threads = 2 ∷ 3 ∷ [];
}

update-Cell :
    (active : List (ℕ × ℕ)) (cap cur : ℕ) (f : ℕ → Option Thread) (p : ℕ) (v : Option Thread)
    → Cell active cap cur p v
    → ((q : ℕ) → Cell active cap cur q (f q))
    → (q : ℕ) → Cell active cap cur q (update f p v q)
update-Cell active cap cur f p v c rest q = elim (ℕ_discrete q p) [
  | yes h ↦ rw (h, update_self f p v) c
  | no h ↦ rw (update_other f p q v h) (rest q)
]

module _ (cur : ℕ) (m w : Thread) (cm : CellInv table 7 cur 1 m) (cw : CellInv table 7 cur 2 w)
    (cs : CellInv table 7 cur 3 sleeper) (ch : CellInv table 7 cur 4 held_thread) where
  all_cells : (p : ℕ) → Cell table 7 cur p (objects m w p)
  all_cells = update-Cell table 7 cur _ 1 (some m) cm (
      update-Cell table 7 cur _ 2 (some w) cw (
        update-Cell table 7 cur _ 3 (some sleeper) cs
          (update-Cell table 7 cur _ 4 (some held_thread) ch (λ q. tt))))

  all_entries :
      m.id ≡ 0
      → w.id ≡ 1
      → (id p : ℕ) → lookup id table ≡ some p
      → (t : Thread) × (objects m w p ≡ some t) × (t.id ≡ id)
  unfolding lookup
  all_entries i j id p e = elim (ℕ_discrete id 0) [
    | yes a ↦ (m, ground arith, ground arith)
    | no a ↦ elim (ℕ_discrete id 1) [
      | yes b ↦ (w, ground arith, ground arith)
      | no b ↦ elim (ℕ_discrete id 2) [
        | yes c ↦ (sleeper, ground arith, ground arith)
        | no c ↦ (held_thread, ground arith, ground arith)
      ]
    ]
  ]

main_runs-Inv : Inv 7 1 main_runs
unfolding lookup count
main_runs-Inv = record {
  objects = record {
    cells =
        all_cells 1 (main_of running) (worker_of ready) (ground arith) (ground arith) (ground arith)
          (ground arith);
    fresh = λ p h. ground arith;
    null = refl;
    nonnull = omega arith;
    entries =
        all_entries 1 (main_of running) (worker_of ready) (ground arith) (ground arith)
          (ground arith) (ground arith) refl refl;
    queue = λ p. ground arith;
    sleepers = λ p. ground arith;
  };
  ids = record {
    split = λ id. ground arith;
    sorted = tt;
    unique = (refl, (refl, (refl, (refl, tt))));
    sizes = refl;
    capacity = omega arith;
    few = omega arith;
    has_main = refl;
  };
}

worker_runs-Inv : Inv 7 2 worker_runs
unfolding lookup count
worker_runs-Inv = record {
  objects = record {
    cells =
        all_cells 2 (main_of ready) (worker_of running) (ground arith) (ground arith) (ground arith)
          (ground arith);
    fresh = λ p h. ground arith;
    null = refl;
    nonnull = omega arith;
    entries =
        all_entries 2 (main_of ready) (worker_of running) (ground arith) (ground arith)
          (ground arith) (ground arith) refl refl;
    queue = λ p. ground arith;
    sleepers = λ p. ground arith;
  };
  ids = record {
    split = λ id. ground arith;
    sorted = tt;
    unique = (refl, (refl, (refl, (refl, tt))));
    sizes = refl;
    capacity = omega arith;
    few = omega arith;
    has_main = refl;
  };
}

two_sleep-Inv : Inv 7 1 two_sleep
unfolding lookup count
two_sleep-Inv = record {
  objects = record {
    cells =
        all_cells 1 (main_of running) dozing (ground arith) (ground arith) (ground arith)
          (ground arith);
    fresh = λ p h. ground arith;
    null = refl;
    nonnull = omega arith;
    entries =
        all_entries 1 (main_of running) dozing (ground arith) (ground arith) (ground arith)
          (ground arith) refl refl;
    queue = λ p. ground arith;
    sleepers = λ p. ground arith;
  };
  ids = record {
    split = λ id. ground arith;
    sorted = tt;
    unique = (refl, (refl, (refl, (refl, tt))));
    sizes = refl;
    capacity = omega arith;
    few = omega arith;
    has_main = refl;
  };
}

pub main_runs-IsValid : IsValid 1 main_runs
unfolding lookup
main_runs-IsValid = record {
  busy = record { inv = main_runs-Inv; runner = refl; on_stack = refl };
  let_in = refl;
}

pub worker_runs-IsValid : IsValid 2 worker_runs
unfolding lookup
worker_runs-IsValid = record {
  busy = record { inv = worker_runs-Inv; runner = refl; on_stack = refl };
  let_in = refl;
}

pub two_sleep-IsValid : IsValid 1 two_sleep
unfolding lookup
two_sleep-IsValid = record {
  busy = record { inv = two_sleep-Inv; runner = refl; on_stack = refl };
  let_in = refl;
}

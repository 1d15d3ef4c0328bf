-- ===== src/Safety/Start.antt =====
-- The constructor of scheduler.cpp and `uthread_init` of uthreads.cpp.
use os_ex.Prelude.{
  ℕ, suc, ◌≡◌, refl, inl, [], ◌∷◌, true, false, Bool, Option, none, some, pos, count, lookup,
  insert, assign, update, arith, ℕ_discrete,
}
use os_ex.Thread.{Thread, zeroed, running, new_thread, set_running, not_sleeping, main_thread_id}
use os_ex.Machine.{System, Os, returns, call, allocate}
use os_ex.Scheduler.{
  success, boot, construct, create_thread, generate_thread_id, set_active,
  change_blockage_status_sigvtalrm,
}
use os_ex.Uthreads.{absent, initialized, uthread_init, get_instance}
use os_ex.Invariant.{update-update, Inv, CellInv, Cell, IsValid, update_other}
use os_ex.Dispatch.{init_timer_for_a_quantom_lem, handled_after, itimer_after}

abbrev pub main_thread : Thread
main_thread = record {
  state = running;
  env = zeroed;
  id = main_thread_id;
  quantoms_left_to_sleep = not_sleeping;
  running_quantoms_num = 1;
}

-- The scheduler as the constructor leaves it: the main thread alone, in its first quantum.
abbrev pub initial : Os → ℕ → Bool → System
initial os quantum_usecs masked = record (boot quantum_usecs masked) {
  heap = update (λ _. none) 1 (some main_thread);
  next_address = 2;
  active_threads = (main_thread_id, 1) ∷ [];
  handled = handled_after os (boot quantum_usecs masked);
  itimer = itimer_after os (boot quantum_usecs masked);
}

pub construct_lem :
    (os : Os) (quantum_usecs : ℕ) (masked : Bool)
    → os.allocates ≡ true
    → construct os quantum_usecs masked ≡ returns tt (initial os quantum_usecs masked)
unfolding construct create_thread set_active call generate_thread_id insert new_thread allocate
    set_running assign
construct_lem os quantum_usecs masked a =
    rw a (rw init_timer_for_a_quantom_lem (rw (update-update (λ _. none))))

main_cell : CellInv ((main_thread_id, 1) ∷ []) 1 1 1 main_thread
unfolding lookup
main_cell = record {
  registered = refl;
  runs = λ _. refl;
  current = λ _. refl;
  not_both = λ e. cc;
  main = λ _. inl refl;
  aged = omega arith;
  countdown = λ e. cc;
  waits = λ n. absurd (n refl);
}

abbrev one_object : ℕ → Option Thread
one_object = update (λ _. none) 1 (some main_thread)

module _ (os : Os) (quantum_usecs : ℕ) (masked : Bool) where
  one-Cell : (p : ℕ) → Cell ((main_thread_id, 1) ∷ []) 1 1 p (one_object p)
  one-Cell p = elim (ℕ_discrete p 1) [
    | yes h ↦ rw h main_cell
    | no h ↦ rw (update_other (λ _. none) 1 p (some main_thread) h) tt
  ]

  one_entry :
      (id p : ℕ)
      → lookup id ((main_thread_id, 1) ∷ []) ≡ some p
      → (t : Thread) × (one_object p ≡ some t) × (t.id ≡ id)
  unfolding lookup
  one_entry id p e = (main_thread, ground arith, ground arith)

  initial-Inv : Inv 1 1 (initial os quantum_usecs masked)
  unfolding lookup count
  initial-Inv = record {
    objects = record {
      cells = one-Cell;
      fresh = λ p h. ground arith;
      null = refl;
      nonnull = omega arith;
      entries = one_entry;
      queue = λ p. ground arith;
      sleepers = λ p. ground arith;
    };
    ids = record {
      split = λ id. ground arith;
      sorted = tt;
      unique = (refl, tt);
      sizes = refl;
      capacity = omega arith;
      few = omega arith;
      has_main = refl;
    };
  }

-- Where there is memory for the main thread's object, the first `uthread_init` with a positive
-- quantum returns 0 and leaves the signal let in, the main thread alone in the table under id 0
-- with a quantum of its own running, both lists empty, one quantum in total, and no unused id.
pub uthread_init_lem :
    (os : Os) (n : ℕ) (masked : Bool)
    → os.allocates ≡ true
    → uthread_init os (pos (suc n)) (absent masked)
      ≡ initialized (returns success (initial os (suc n) false))
unfolding uthread_init get_instance change_blockage_status_sigvtalrm
uthread_init_lem os n masked a = rw (construct_lem os (suc n) true a)

pub initial-IsValid : (os : Os) (n : ℕ) → IsValid 1 (initial os n false)
unfolding lookup
initial-IsValid os n = record {
  busy = record { inv = initial-Inv os n false; runner = refl; on_stack = refl };
  let_in = refl;
}

-- ===== src/Invariant/Defs.antt =====
-- What holds of the scheduler of scheduler.cpp between two steps: how its tables, its queue and its
-- set agree with the objects on the heap.
use os_ex.Prelude.{
  ℕ, suc, ◌+◌, ◌≤◌, ◌<◌, ◌≡◌, ◌≢◌, ◌⊎◌, Bool, false, Option, none, some, leb, length, of_bool,
  count, List, IsSorted, lookup, is_some, HasUniqueKeys,
}
use os_ex.Thread.{
  Thread, running, ready, blocked_and_sleeping, sleeping, same_state, Context, Point, nowhere,
  in_setup, entry, main_thread_id, not_sleeping,
}
use os_ex.Machine.{System}
use os_ex.Scheduler.{max_thread_num}

abbrev pub ready_weight : Option Thread → ℕ
ready_weight none = 0
ready_weight (some t) = of_bool (same_state t.state ready)

abbrev pub sleeping_weight : Option Thread → ℕ
sleeping_weight none = 0
sleeping_weight (some t) = of_bool (same_state t.state sleeping)

-- A jump there runs on; a new thread starts with the signal let in.
abbrev pub IsResumable : Point → Bool → Type 0
IsResumable nowhere masked = ⊥
IsResumable in_setup masked = ⊥
IsResumable (entry e) masked = masked ≡ false
IsResumable _ masked = Unit {0}

-- A thread that waits has a context of its own, on its own stack.
abbrev pub Waits : ℕ → Context → Type 0
Waits p c = (c.stack ≡ p) × IsResumable c.point c.masked

-- The object at address `p`. `cur` is the address of the running thread, 0 while none runs, and `cap`
-- bounds the quantums that a thread has had.
pub record CellInv (active : List (ℕ × ℕ)) (cap cur p : ℕ) (t : Thread) : Type 0 where
  pub registered : lookup t.id active ≡ some p
  pub runs : t.state ≡ running → p ≡ cur
  pub current : p ≡ cur → t.state ≡ running
  pub not_both : t.state ≢ blocked_and_sleeping
  pub main : t.id ≡ main_thread_id → (t.state ≡ running) ⊎ (t.state ≡ ready)
  pub aged : t.running_quantoms_num ≤ cap
  pub countdown : t.state ≡ sleeping → t.quantoms_left_to_sleep ≢ not_sleeping
  pub waits : p ≢ cur → Waits p t.env

abbrev pub Cell : List (ℕ × ℕ) → ℕ → ℕ → ℕ → Option Thread → Type 0
Cell active cap cur p none = Unit {0}
Cell active cap cur p (some t) = CellInv active cap cur p t

-- The heap and the lists of addresses.
pub record Objects (cap cur : ℕ) (s : System) : Type 0 where
  pub cells : (p : ℕ) → Cell s.active_threads cap cur p (s.heap p)
  pub fresh : (p : ℕ) → s.next_address ≤ p → s.heap p ≡ none
  pub null : s.heap 0 ≡ none
  pub nonnull : 0 < s.next_address
  pub entries :
      (id p : ℕ)
      → lookup id s.active_threads ≡ some p
      → (t : Thread) × (s.heap p ≡ some t) × (t.id ≡ id)
  pub queue : (p : ℕ) → count p s.ready_queue ≡ ready_weight (s.heap p)
  pub sleepers : (p : ℕ) → count p s.sleeping_threads ≡ sleeping_weight (s.heap p)

-- The ids up to the largest are each in use or unused, never both.
pub record Ids (s : System) : Type 0 where
  pub split :
      (id : ℕ)
      → count id s.unused_threads_id + is_some (lookup id s.active_threads)
        ≡ of_bool (leb id s.largest_thread_id)
  pub sorted : IsSorted s.unused_threads_id
  pub unique : HasUniqueKeys s.active_threads
  pub sizes : length s.active_threads + length s.unused_threads_id ≡ suc s.largest_thread_id
  pub capacity : length s.active_threads ≤ max_thread_num
  pub few : s.largest_thread_id < max_thread_num
  pub has_main : is_some (lookup main_thread_id s.active_threads) ≡ 1

pub record Inv (cap cur : ℕ) (s : System) : Type 0 where
  pub objects : Objects cap cur s
  pub open objects use *
  pub ids : Ids s
  pub open ids use *

-- One thread runs, on its own stack.
pub record IsBusy (cur : ℕ) (s : System) : Type 0 where
  pub inv : Inv s.total_quantoms cur s
  pub runner : lookup s.running_thread_id s.active_threads ≡ some cur
  pub on_stack : s.stack ≡ cur

-- What user code can see: moreover the signal is let in.
pub record IsValid (cur : ℕ) (s : System) : Type 0 where
  pub busy : IsBusy cur s
  pub open busy use *
  pub let_in : s.masked ≡ false

-- ===== src/Behaviour/Ids.antt =====
-- `generate_thread_id` of scheduler.cpp.
use os_ex.Prelude.{of_bool, ltb, ◌≤◌, arith, ℕ, ◌<◌, ◌≡◌, lookup, is_some, none, length}
use os_ex.Machine.{System, returns}
use os_ex.Scheduler.{generate_thread_id, max_thread_num}
use os_ex.Invariant.{Inv}
use os_ex.Safety.{new_id, new_id-lt, new_id-least, generate_thread_id_lem}

-- With the invariant and fewer threads than the limit, `generate_thread_id` gives the least id
-- that no thread has, and it is below the limit.
pub generate_thread_id_least :
    {cap cur : ℕ} {s : System}
    → Inv cap cur s
    → length s.active_threads < max_thread_num
    → (id : ℕ) × (s' : System) × (generate_thread_id s ≡ returns id s')
      × (id < max_thread_num)
      × (lookup id s.active_threads ≡ none)
      × ((i : ℕ) → of_bool (ltb i id) ≤ is_some (lookup i s.active_threads))
generate_thread_id_least {cap} {cur} {s} inv room = (
  new_id inv,
  _,
  generate_thread_id_lem inv room,
  new_id-lt inv room,
  (new_id-least inv).0,
  λ i. ground (arith, (new_id-least inv).1 i),
)

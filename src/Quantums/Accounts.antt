-- ===== src/Quantums/Accounts.antt =====
-- What a tick of the timer (scheduler.cpp) adds to the counters.
use os_ex.Prelude.{ℕ, suc, ◌+◌, ◌<◌, ◌≡◌, some, ◌==◌, of_bool}
use os_ex.Checked.{int_max}
use os_ex.Thread.{Thread}
use os_ex.Machine.{System, Os, returns}
use os_ex.Uthreads.{Seen, step_tick}
use os_ex.Invariant.{IsValid}
use os_ex.Quantums.Tick.{tick_lem, tick_counts, final_total}

-- In a valid state with fewer quantums than the largest int, one tick raises the total of
-- quantums by one; a live thread stays live with its id, with one quantum more if it is the
-- thread that runs next, and else as many as before.
pub tick_accounts :
    {cur : ℕ} {s : System} (os : Os) (q : ℕ) {t : Thread}
    → IsValid cur s
    → s.total_quantoms < int_max
    → s.heap q ≡ some t
    → (seen : Seen) × (s' : System) × (next : ℕ) × (u : Thread) × (step_tick os s ≡ returns seen s')
      × IsValid next s'
      × (s'.total_quantoms ≡ suc s.total_quantoms)
      × (s'.heap q ≡ some u)
      × (u.running_quantoms_num ≡ t.running_quantoms_num + of_bool (q == next))
      × (u.id ≡ t.id)
tick_accounts os q {t} v lt live =
    let (seen, s', runs, k) = tick_lem os v lt in
    let (u, live', age, same) = tick_counts k q {t = t} live in
    (seen, s', k.by.front, u, runs, k.valid, final_total k, live', age, same)

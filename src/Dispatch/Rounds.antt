-- ===== src/Dispatch/Rounds.antt =====
-- A round of `update_sleeping_threads` (scheduler.cpp) and the invariant.
use os_ex.Prelude.{ℕ, ◌≡◌, refl, true, some, is_positive, count-snoc, count-erase, arith}
use os_ex.Thread.{Thread, sleeping}
use os_ex.Machine.{System}
use os_ex.Dispatch.Sleepers.{rested, woken, rest_round, wake_round}
use os_ex.Invariant.{CellInv, Inv, cell_at, change-Inv, Gives}

module _ {cap cur : ℕ} {s : System} (inv : Inv cap cur s) (p : ℕ) (t : Thread)
    (live : s.heap p ≡ some t) (asleep : t.state ≡ sleeping) where
  abbrev cell : CellInv s.active_threads cap cur p t
  cell = cell_at inv p live

  same : Gives p cur cur
  same q h n = (λ e. e, λ e. e)

  rested-CellInv :
      is_positive t.quantoms_left_to_sleep ≡ true → CellInv s.active_threads cap cur p (rested t)
  rested-CellInv h = ground (arith, cell)

  woken-CellInv : CellInv s.active_threads cap cur p (woken t)
  woken-CellInv = ground (arith, cell)

  pub rest_round-Inv : is_positive t.quantoms_left_to_sleep ≡ true → Inv cap cur (rest_round s p t)
  rest_round-Inv h =
      change-Inv inv cap cur p (rested t) live s.ready_queue s.sleeping_threads refl
        (rested-CellInv h) same (omega arith) (λ q. ground (arith, inv.queue q))
        (λ q. ground (arith, inv.sleepers q))

  pub wake_round-Inv : Inv cap cur (wake_round s p t)
  wake_round-Inv =
      change-Inv inv cap cur p (woken t) live (wake_round s p t).ready_queue
        (wake_round s p t).sleeping_threads refl woken-CellInv same (omega arith)
        (λ q. ground (arith, inv.queue q, count-snoc q s.ready_queue p))
        (λ q. ground (arith, inv.sleepers q, count-erase q p s.sleeping_threads))

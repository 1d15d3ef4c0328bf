-- ===== src/Safety/Queue.antt =====
-- `erase_thread_from_ready_queue` and the calls of scheduler.cpp that move another thread: blocking a
-- thread that is ready, and resuming one that is blocked.
use os_ex.Prelude.{
  ℕ, ◌≤◌, ◌<◌, ◌≡◌, ◌≢◌, refl, ◌∙◌, ap, List, [], ◌∷◌, ◌++◌, true, false, some, ◌==◌, count,
  count-nil, count-cons, count-cons_self, count-cons_ne, count-snoc, count-erase, erase, update,
  arith, ℕ_discrete,
}
use os_ex.Checked.{pass}
use os_ex.Thread.{Thread, ready, blocked, set_block, unblock, is_ready, main_thread_id}
use os_ex.Thread.States.{
  is_running-false, is_ready-true, is_blocked-true, set_block_awake, unblock_blocked,
}
use os_ex.Machine.{System, Os, returns}
use os_ex.Machine.Laws.{deref_lem, call_lem}
use os_ex.Scheduler.{
  success, erase_first, erase_thread_from_ready_queue, set_blocked, block_found, resume_found,
  push_ready,
}
use os_ex.Invariant.{Inv, CellInv, cell_at, change-Inv, update_self, Gives}
use os_ex.Dispatch.{ready_at}

module _ {cap cur : ℕ} {s : System} (inv : Inv cap cur s) (p : ℕ) {t : Thread}
    (live : s.heap p ≡ some t) where
  -- Ids are unique among live threads.
  pub same_address : (q : ℕ) {u : Thread} → s.heap q ≡ some u → u.id ≡ t.id → q ≡ p
  same_address q e h = ground (arith, (cell_at inv p live).registered, (cell_at inv q e).registered)

  erase_first_lem :
      (s0 : System)
      → s0.heap ≡ s.heap
      → (xs : List ℕ) → ((q : ℕ) → count q xs ≤ count q s.ready_queue)
      → 0 < count p xs
      → erase_first t.id xs s0 ≡ returns (some (erase p xs)) s0
  unfolding erase_first erase
  erase_first_lem s0 same [] m h = absurd (omega (arith, h, count-nil p))
  erase_first_lem s0 same (x ∷ xs) m h = elim (ℕ_discrete x p) [
    | yes e ↦
        rw (deref_lem x s0 {t = t} (ap (λ f. f x) same ∙ rw e live))
          (rw (hit t.id t.id refl, hit x p e))
    | no n ↦
        let (u, e, r) = ready_at inv x (omega (arith, m x, count-cons_self x xs)) in
        rw (deref_lem x s0 (ap (λ f. f x) same ∙ e)) (
          rw (miss u.id t.id (λ i. n (same_address x e i)), miss x p n)
            (rw (
              erase_first_lem s0 same xs (λ q. omega (arith, m q, count-cons q x xs))
                (rw (count-cons_ne p x xs n) at h))))
  ]
    where
      hit : (a b : ℕ) → a ≡ b → (a == b) ≡ true
      hit a b e = ground arith

      miss : (a b : ℕ) → a ≢ b → (a == b) ≡ false
      miss a b e = ground arith

  -- With the invariant, for a live thread that is ready, `erase_thread_from_ready_queue` of its
  -- id, in any state with the same heap and ready queue, meets no fault, returns 0, and erases
  -- from the queue the first place that holds its address, and nothing else.
  pub erase_thread_lem :
      (s0 : System)
      → s0.heap ≡ s.heap
      → s0.ready_queue ≡ s.ready_queue
      → t.state ≡ ready
      → erase_thread_from_ready_queue t.id s0
        ≡ returns success (record s0 { ready_queue = erase p s0.ready_queue })
  unfolding erase_thread_from_ready_queue
  erase_thread_lem s0 same e r = rw (
      erase_first_lem s0 same s0.ready_queue (λ q. omega (arith, ap (count q) e))
        (ground (arith, inv.queue p, ap (count p) e)))

  abbrev pub held_back : System
  held_back = record s {
    heap = update s.heap p (some (record t { state = blocked }));
    ready_queue = erase p s.ready_queue;
  }

  pub block_found-held_back :
      (os : Os) → t.state ≡ ready → block_found os t.id p s ≡ returns success held_back
  unfolding block_found set_blocked
  block_found-held_back os r = rw (deref_lem p s live) (
      rw (is_running-false t (λ e. cc), is_ready-true t r)
        (rw (erase_thread_lem s refl refl r) (
          rw (
            call_lem p (λ u. pass (set_block u)) (record s { ready_queue = erase p s.ready_queue })
              live (ap pass (set_block_awake t (λ e. cc)))))))

  same : Gives p cur cur
  same q h n = (λ e. e, λ e. e)

  held_back_cell :
      t.state ≡ ready
      → t.id ≢ main_thread_id
      → CellInv s.active_threads cap cur p (record t { state = blocked })
  held_back_cell r n = ground (arith, cell_at inv p live)

  pub held_back-Inv : t.state ≡ ready → t.id ≢ main_thread_id → Inv cap cur held_back
  held_back-Inv r n =
      change-Inv inv cap cur p (record t { state = blocked }) live (erase p s.ready_queue)
        s.sleeping_threads refl (held_back_cell r n) same (omega arith)
        (λ q. ground (arith, inv.queue q, count-erase q p s.ready_queue))
        (λ q. ground (arith, inv.sleepers q))

  abbrev pub resumed : System
  resumed = record s {
    heap = update s.heap p (some (record t { state = ready }));
    ready_queue = s.ready_queue ++ p ∷ [];
  }

  pub resume_found-resumed : t.state ≡ blocked → resume_found p s ≡ returns success resumed
  unfolding resume_found push_ready is_ready
  resume_found-resumed r = rw (deref_lem p s live) (
      rw (is_blocked-true t r) (
        rw (call_lem p (λ u. pass (unblock u)) s live (ap pass (unblock_blocked t r))) (
          rw (
            deref_lem p (record s { heap = update s.heap p (some (record t { state = ready })) })
              (update_self s.heap p (some (record t { state = ready })))))))

  resumed_cell : t.state ≡ blocked → CellInv s.active_threads cap cur p (record t { state = ready })
  resumed_cell r = ground (arith, cell_at inv p live)

  pub resumed-Inv : t.state ≡ blocked → Inv cap cur resumed
  resumed-Inv r =
      change-Inv inv cap cur p (record t { state = ready }) live (s.ready_queue ++ p ∷ [])
        s.sleeping_threads refl (resumed_cell r) same (omega arith)
        (λ q. ground (arith, inv.queue q, count-snoc q s.ready_queue p))
        (λ q. ground (arith, inv.sleepers q))

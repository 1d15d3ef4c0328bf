-- ===== src/Safety/Terminate.antt =====
-- `terminate_thread` of scheduler.cpp: another thread goes, or the running one ends itself.
use os_ex.Prelude.{
  ℕ, ◌≡◌, ◌≢◌, refl, ◌∙◌, List, none, some, count-erase, erase, insert, remove, update, arith, ap,
  true, false,
}
use os_ex.Thread.{Thread, running, ready, blocked, sleeping, main_thread_id}
use os_ex.Thread.States.{
  is_running-true, is_running-false, is_ready-true, is_ready-false, is_sleeping-true,
  is_sleeping-false,
}
use os_ex.Machine.{System, Os, returns, aborts, bind, use_stack}
use os_ex.Checked.{freed_stack}
use os_ex.Machine.Laws.{deref_lem, delete_lem}
use os_ex.Scheduler.{
  success, release_id, terminate_found, erase_sleeping, run_topmost_thread_in_ready_queue,
}
use os_ex.Invariant.{Inv, cell_at, remove-Inv, Gives, update_self}
use os_ex.Safety.Queue.{erase_thread_lem}

module _ {cap cur : ℕ} {s : System} (inv : Inv cap cur s) (p : ℕ) {t : Thread}
    (live : s.heap p ≡ some t) where
  nonnull : p ≢ 0
  nonnull z = cc (inv.null, rw z at live)

  -- Without its entry, and with its id unused.
  abbrev released : System
  released = record s {
    active_threads = remove t.id s.active_threads;
    unused_threads_id = insert t.id s.unused_threads_id;
  }

  abbrev pub gone : List ℕ → List ℕ → System
  gone ready' sleeping' = record released {
    heap = update s.heap p none;
    ready_queue = ready';
    sleeping_threads = sleeping';
  }

  pub terminate_found-ready :
      (os : Os)
      → t.state ≡ ready
      → terminate_found os t.id p s
        ≡ returns success (gone (erase p s.ready_queue) s.sleeping_threads)
  unfolding terminate_found release_id
  terminate_found-ready os r = rw (deref_lem p released live) (
      rw (is_running-false t (λ e. cc), is_sleeping-false t (λ e. cc) (λ e. cc), is_ready-true t r)
        (rw (erase_thread_lem inv p live released refl refl r) (
          rw
            (delete_lem p (record released { ready_queue = erase p s.ready_queue }) live nonnull))))

  pub terminate_found-sleeping :
      (os : Os)
      → t.state ≡ sleeping
      → terminate_found os t.id p s
        ≡ returns success (gone s.ready_queue (erase p s.sleeping_threads))
  unfolding terminate_found release_id erase_sleeping
  terminate_found-sleeping os r = rw (deref_lem p released live) (
      rw (is_running-false t (λ e. cc), is_sleeping-true t r, is_ready-false t (λ e. cc))
        (rw (
          delete_lem p (record released { sleeping_threads = erase p s.sleeping_threads }) live
            nonnull)))

  pub terminate_found-blocked :
      (os : Os)
      → t.state ≡ blocked
      → terminate_found os t.id p s ≡ returns success (gone s.ready_queue s.sleeping_threads)
  unfolding terminate_found release_id
  terminate_found-blocked os r = rw (deref_lem p released live) (
      rw
        (
          is_running-false t (λ e. cc),
          is_sleeping-false t (λ e. cc) (λ e. cc),
          is_ready-false t (λ e. cc),
        )
        (rw (delete_lem p released live nonnull)))

  pub terminate_found-running :
      (os : Os)
      → os.keeps_freed ≡ true
      → t.state ≡ running
      → terminate_found os t.id p s
        ≡ bind
            (run_topmost_thread_in_ready_queue os (gone s.ready_queue s.sleeping_threads))
            (λ _ s'. returns success s')
  unfolding terminate_found release_id use_stack
  terminate_found-running os kept r =
      rw (deref_lem p released live)
        (rw (is_running-true t r) (rw (delete_lem p released live nonnull) (rw kept)))

  -- Where freed memory does not keep its contents, the code that runs on has lost its stack.
  pub terminate_found-freed :
      (os : Os)
      → os.keeps_freed ≡ false
      → t.state ≡ running
      → s.stack ≡ p
      → terminate_found os t.id p s ≡ aborts freed_stack
  unfolding terminate_found release_id use_stack
  terminate_found-freed os lost r h = rw (deref_lem p released live) (
      rw (is_running-true t r) (
        rw (delete_lem p released live nonnull)
          (rw lost (rw (ap (update s.heap p none) h ∙ update_self s.heap p none) refl))))

  module _ (n : t.id ≢ main_thread_id) where
    same : Gives p cur cur
    same q h z = (λ e. e, λ e. e)

    pub gone-Inv_ready :
        t.state ≡ ready → Inv cap cur (gone (erase p s.ready_queue) s.sleeping_threads)
    gone-Inv_ready r =
        remove-Inv inv cur p live (erase p s.ready_queue) s.sleeping_threads n same
          (λ q. ground (arith, inv.queue q, count-erase q p s.ready_queue))
          (λ q. ground (arith, inv.sleepers q))

    pub gone-Inv_sleeping :
        t.state ≡ sleeping → Inv cap cur (gone s.ready_queue (erase p s.sleeping_threads))
    gone-Inv_sleeping r =
        remove-Inv inv cur p live s.ready_queue (erase p s.sleeping_threads) n same
          (λ q. ground (arith, inv.queue q))
          (λ q. ground (arith, inv.sleepers q, count-erase q p s.sleeping_threads))

    pub gone-Inv_blocked : t.state ≡ blocked → Inv cap cur (gone s.ready_queue s.sleeping_threads)
    gone-Inv_blocked r =
        remove-Inv inv cur p live s.ready_queue s.sleeping_threads n same
          (λ q. ground (arith, inv.queue q)) (λ q. ground (arith, inv.sleepers q))

    pub gone-Inv_running : t.state ≡ running → Inv cap 0 (gone s.ready_queue s.sleeping_threads)
    gone-Inv_running r =
        remove-Inv inv 0 p live s.ready_queue s.sleeping_threads n
          (λ q h z. (λ e. absurd (h (e ∙ is_cur)), λ e. absurd (z e)))
          (λ q. ground (arith, inv.queue q)) (λ q. ground (arith, inv.sleepers q))
      where
        is_cur : cur ≡ p
        is_cur = ground (arith, (cell_at inv p live).runs r)

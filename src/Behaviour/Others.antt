-- ===== src/Behaviour/Others.antt =====
-- The calls of uthreads.cpp on another thread: blocking it and resuming it.
use os_ex.Prelude.{
  ℕ, ◌<◌, ◌≡◌, ◌≢◌, inl, inr, ◌⊎◌, refl, sym, ap, fun_ext, ◌∙◌, [], ◌∷◌, ◌++◌, true, some, ℤ, pos,
  erase, lookup, update, arith,
}
use os_ex.Checked.{int_max}
use os_ex.Thread.{Thread, ready, blocked, sleeping, main_thread_id}
use os_ex.Machine.{System, Os, Result, returns}
use os_ex.Scheduler.{success, find, block_found}
use os_ex.Uthreads.{returned, step_call, block, resume}
use os_ex.Invariant.{Inv, IsValid, cell_at, update-update, update_self}
use os_ex.Safety.{
  masked-IsBusy, to_user, block_enters, block_thread_found, block_found_idle, block_found-held_back,
  held_back-IsBusy, resume_enters, resume_thread_found, resume_found-resumed, resume_found_idle,
  resumed-IsBusy,
}
use os_ex.Behaviour.Errors.{to_user_returns}

pub find_lem :
    (id p : ℕ) (s : System) → lookup id s.active_threads ≡ some p → find (pos id) s ≡ some (id, p)
unfolding find
find_lem id p s e = rw (e, find)

pub pos-main : {id : ℕ} → id ≢ main_thread_id → pos id ≢ pos main_thread_id
pos-main n e = n (cc)

module _ {cur : ℕ} {s : System} (v : IsValid cur s) (lt : s.total_quantoms < int_max) (os : Os)
    (p : ℕ) {t : Thread} (live : s.heap p ≡ some t) where
  abbrev inside : System
  inside = record s { masked = true }

  abbrev inv : Inv inside.total_quantoms cur inside
  inv = (masked-IsBusy true v.busy).inv

  found : find (pos t.id) inside ≡ some (t.id, p)
  found = find_lem t.id p inside (cell_at inv p live).registered

  -- A call on this thread that returns 0 in the state `s1`.
  abbrev Succeeds : Result System ℤ → System → Type 0
  Succeeds m s1 = to_user os m ≡ returns (returned success) (record s1 { masked = s.masked })

  succeeds : (m : Result System ℤ) (s1 : System) → m ≡ returns success s1 → Succeeds m s1
  succeeds m s1 e =
      to_user_returns os m success s1 e
      ∙ ap (λ b. returns (returned success) (record s1 { masked = b })) (sym v.let_in)

  block_goes :
      t.id ≢ main_thread_id
      → step_call os (block (pos t.id)) s ≡ to_user os (block_found os t.id p inside)
  block_goes n =
      block_enters v lt os (pos t.id) (pos-main n)
      ∙ ap (to_user os) (block_thread_found v lt os (pos t.id) (pos-main n) found)

  abbrev pub held : System
  held = record s {
    heap = update s.heap p (some (record t { state = blocked }));
    ready_queue = erase p s.ready_queue;
  }

  -- In a valid state with fewer quantums than the largest int, `uthread_block` of a ready thread
  -- that is not the main thread returns 0, sets it blocked and takes it off the ready queue;
  -- nothing else changes, and the state is valid.
  pub block_ready_thread :
      t.state ≡ ready
      → t.id ≢ main_thread_id
      → (step_call os (block (pos t.id)) s ≡ returns (returned success) held) × IsValid cur held
  block_ready_thread r n = (
    block_goes n ∙ succeeds _ _ (block_found-held_back inv p live os r),
    record {
      busy = masked-IsBusy s.masked (held_back-IsBusy v lt os p live r n);
      let_in = v.let_in;
    },
  )

  -- In a valid state with fewer quantums than the largest int, `uthread_block` of a sleeping or a
  -- blocked thread that is not the main thread returns 0 and changes nothing.
  pub block_sleeping_thread :
      (t.state ≡ sleeping) ⊎ (t.state ≡ blocked)
      → t.id ≢ main_thread_id
      → step_call os (block (pos t.id)) s ≡ returns (returned success) s
  block_sleeping_thread (inl r) n =
      block_goes n ∙ succeeds _ _ (block_found_idle v lt os t.id p live (λ e. cc) (λ e. cc))
  block_sleeping_thread (inr r) n =
      block_goes n ∙ succeeds _ _ (block_found_idle v lt os t.id p live (λ e. cc) (λ e. cc))

  abbrev pub let_go : System
  let_go = record s {
    heap = update s.heap p (some (record t { state = ready }));
    ready_queue = s.ready_queue ++ p ∷ [];
  }

  -- In a valid state with fewer quantums than the largest int, `uthread_resume` of a blocked
  -- thread returns 0, sets it ready and puts it at the end of the ready queue; nothing else
  -- changes, and the state is valid.
  pub resume_blocked_thread :
      t.state ≡ blocked
      → (step_call os (resume (pos t.id)) s ≡ returns (returned success) let_go)
        × IsValid cur let_go
  resume_blocked_thread r = (
    resume_enters v lt os (pos t.id)
        ∙ ap (to_user os) (resume_thread_found v lt os (pos t.id) found)
        ∙ succeeds _ _ (resume_found-resumed inv p live r),
    record { busy = masked-IsBusy s.masked (resumed-IsBusy v lt os p live r); let_in = v.let_in },
  )

  -- In a valid state with fewer quantums than the largest int, `uthread_resume` of a sleeping thread
  -- returns 0 and changes nothing.
  pub resume_sleeping_thread :
      t.state ≡ sleeping → step_call os (resume (pos t.id)) s ≡ returns (returned success) s
  resume_sleeping_thread r =
      resume_enters v lt os (pos t.id)
      ∙ ap (to_user os) (resume_thread_found v lt os (pos t.id) found)
      ∙ succeeds _ _ (resume_found_idle v lt os p live (λ e. cc) (λ e. cc))

-- In a valid state with fewer quantums than the largest int, to block a ready thread that is not
-- the main thread and then to resume it returns 0 twice, moves it to the end of the ready queue
-- and changes nothing else.
pub block-resume :
    {cur : ℕ} {s : System} (os os' : Os) (p : ℕ) {t : Thread}
    → IsValid cur s
    → s.total_quantoms < int_max
    → s.heap p ≡ some t
    → t.state ≡ ready
    → t.id ≢ main_thread_id
    → (s1 : System) × (step_call os (block (pos t.id)) s ≡ returns (returned success) s1)
      × (step_call os' (resume (pos t.id)) s1
          ≡ returns (returned success) (record s { ready_queue = erase p s.ready_queue ++ p ∷ [] }))
block-resume {cur} {s} os os' p {t} v lt live r n =
    let (blocks, valid) = block_ready_thread v lt os p live r n in
    let live' = update_self s.heap p (some (record t { state = blocked })) in
    (
      held v lt os p live,
      blocks,
      (resume_blocked_thread valid lt os' p {t = record t { state = blocked }} live' refl).0
          ∙ ap
              (λ h.
                returns (returned success)
                  (record s { heap = h; ready_queue = erase p s.ready_queue ++ p ∷ [] }))
              back,
    )
  where
    back :
        update
          (update s.heap p (some (record t { state = blocked })))
          p
          (some (record t { state = ready }))
        ≡ s.heap
    back = update-update s.heap p _ _ ∙ fun_ext λ q. ground (arith, live, r)

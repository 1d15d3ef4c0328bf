-- ===== src/Behaviour/Current.antt =====
-- `uthread_block` of uthreads.cpp on the calling thread.
use os_ex.Prelude.{ℕ, suc, ◌<◌, ◌≡◌, ◌≢◌, refl, ap, ◌∙◌, true, some, pos, arith}
use os_ex.Checked.{int_max}
use os_ex.Thread.{Thread, blocked, in_block, main_thread_id}
use os_ex.Machine.{System, Os, returns}
use os_ex.Uthreads.{Seen, settle, step_call, block}
use os_ex.Invariant.{IsBusy, IsValid, cell_at, update_self}
use os_ex.Dispatch.{run_topmost_lem}
use os_ex.Safety.{
  masked-IsBusy, current_thread, current_running, to_user, block_enters, block_thread_found,
  block_found_running, block_running-parked, parked-Inv, left_in, go_to_lem, arrived,
}
use os_ex.Behaviour.Others.{find_lem, pos-main}
use os_ex.Behaviour.Switches.{switch_total, switch_blocked}

-- In a valid state with fewer quantums than the largest int, a calling thread that is not the
-- main thread and blocks itself is left blocked, with its context saved in `block_thread` on its
-- own stack and its other fields as they were; another thread runs, the total of quantums is one
-- more, and the state is valid.
pub block_self :
    {cur : ℕ} {s : System} (os : Os) {t : Thread}
    → IsValid cur s
    → s.total_quantoms < int_max
    → s.heap cur ≡ some t
    → t.id ≢ main_thread_id
    → (seen : Seen) × (s' : System) × (next : ℕ) × (step_call os (block (pos t.id)) s
        ≡ returns seen s')
      × IsValid next s'
      × (next ≢ cur)
      × (s'.heap cur
          ≡ some (record t {
            state = blocked;
            env = record { point = in_block; stack = cur; masked = true };
          }))
      × (s'.total_quantoms ≡ suc s.total_quantoms)
unfolding settle
block_self {cur} {s} os {t} v lt live n =
    let inside : System = record s { masked = true } in
    let busy : IsBusy cur inside = masked-IsBusy true v.busy in
    let r = current_running busy live in
    let inv = parked-Inv busy live n in
    let (c, j, runs, w) = run_topmost_lem os inv lt in
    let (seen, lands, valid) = go_to_lem w in
    let u : Thread = left_in blocked t.quantoms_left_to_sleep in_block inside t in
    let (apart, stays) = switch_blocked inv w cur u (update_self s.heap cur (some u)) refl in
    (
      seen,
      arrived w,
      w.front,
      block_enters v lt os (pos t.id) (pos-main n)
          ∙ ap (to_user os) (
              block_thread_found v lt os (pos t.id) (pos-main n)
                (find_lem t.id cur inside (cell_at busy.inv cur live).registered)
              ∙ block_found_running v lt os t.id cur live r
              ∙ block_running-parked busy live os t.id (current_id busy live))
          ∙ rw runs (rw lands),
      valid,
      apart,
      stays
          ∙ ap
              (λ k. some (record t {
                state = blocked;
                env = record { point = in_block; stack = k; masked = true };
              }))
              v.on_stack,
      switch_total inv w,
    )
  where
    current_id :
        {cur : ℕ} {s : System} (busy : IsBusy cur s) {t : Thread}
        → s.heap cur ≡ some t
        → s.running_thread_id ≡ t.id
    current_id busy e = let (u, live, i) = current_thread busy in ground (arith, e, live, i)

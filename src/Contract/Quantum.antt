-- ===== src/Contract/Quantum.antt =====
-- The start of a quantum (`run_topmost_thread_in_ready_queue` of scheduler.cpp) as uthreads.h has it.
use os_ex.Prelude.{
  ℕ, zero, suc, ◌≡◌, refl, sym, ap, ◌∙◌, List, ◌∷◌, ◌++◌, Option, none, some, ℤ, pos, negsuc, count,
  length, lookup, update, ◌==◌, if◌then◌else◌, of_bool, arith, ℕ_discrete,
}
use mathlib.Core.List.{map-append}
use os_ex.Thread.{
  Thread, ThreadState, Context, running, ready, blocked, sleeping, blocked_and_sleeping,
}
use os_ex.Machine.{System, Os}
use os_ex.Invariant.{Inv, cell_at, outer-Inv, sleeping_weight}
use os_ex.Dispatch.{Switch, due, is_due, passed, started, sleeper_at, Slept-heap, count-due}
use os_ex.Safety.{arrived}
use os_ex.Contract.{Info, View, NextQuantum, elapse, starts, count_down}
use os_ex.Contract as Contract
use os_ex.Contract.Abstraction.{
  view, ids, ids-eq, ids-update, id_of, info_of, info_at, entry_info, info-update,
}
use os_ex.Contract.Ids.{AreLive, occurrences, count-ids}

info_at-passed : (o : Option Thread) → info_at (passed o) ≡ elapse (info_at o)
info_at-passed none = refl
info_at-passed (some t) = go t.state t.quantoms_left_to_sleep refl refl
  where
    go :
        (st : ThreadState) (k : ℤ)
        → t.state ≡ st
        → t.quantoms_left_to_sleep ≡ k
        → info_at (passed (some t)) ≡ elapse (info_at (some t))
    go running k h e = ground (arith, h)
    go ready k h e = ground (arith, h)
    go blocked k h e = ground (arith, h)
    go blocked_and_sleeping k h e = ground (arith, h)
    go sleeping (pos zero) h e = ground (arith, h, e)
    go sleeping (pos (suc n)) h e = ground (arith, h, e)
    go sleeping (negsuc n) h e = ground (arith, h, e)

id_of-passed : (o : Option Thread) → id_of (passed o) ≡ id_of o
id_of-passed none = refl
id_of-passed (some t) = ground arith

-- A sleeper wakes in the list of addresses where it is due by the contract.
weight-due :
    (o : Option Thread)
    → (if is_due o then sleeping_weight o else 0) ≡ of_bool (Contract.is_due (info_at o))
weight-due none = refl
weight-due (some t) = go t.state t.quantoms_left_to_sleep refl refl
  where
    go :
        (st : ThreadState) (k : ℤ)
        → t.state ≡ st
        → t.quantoms_left_to_sleep ≡ k
        → (if is_due (some t) then sleeping_weight (some t) else 0)
          ≡ of_bool (Contract.is_due (info_at (some t)))
    go running k h e = ground (arith, h)
    go ready k h e = ground (arith, h)
    go blocked k h e = ground (arith, h)
    go blocked_and_sleeping k h e = ground (arith, h)
    go sleeping (pos zero) h e = ground (arith, h, e)
    go sleeping (pos (suc n)) h e = ground (arith, h, e)
    go sleeping (negsuc n) h e = ground (arith, h, e)

module _ {os : Os} {s : System} {c : Context} {j : System} (inv : Inv s.total_quantoms 0 s)
    (w : Switch os s c j) where
  abbrev woken_ids : List ℕ
  woken_ids = ids s.heap (due s.heap s.sleeping_threads)

  slept_heap : (q : ℕ) → w.mid.heap q ≡ passed (s.heap q)
  slept_heap =
      Slept-heap
        (outer-Inv s.stack s.running_thread_id (suc s.total_quantoms) s.masked s.handled s.itimer
          inv)
        w.slept

  slept_ids : (xs : List ℕ) → ids w.mid.heap xs ≡ ids s.heap xs
  slept_ids xs =
      ids-eq w.mid.heap s.heap xs (λ q. ap id_of (slept_heap q) ∙ id_of-passed (s.heap q))

  final_heap : (arrived w).heap ≡ update w.mid.heap w.front (some (started w.thread))
  final_heap = ap (λ r. r.heap) w.final

  final_ids : (xs : List ℕ) → ids (arrived w).heap xs ≡ ids s.heap xs
  final_ids xs =
      ap (λ h. ids h xs) final_heap
      ∙ ids-update w.mid.heap w.front (started w.thread) xs w.live refl
      ∙ slept_ids xs

  same_entries : (arrived w).active_threads ≡ s.active_threads
  same_entries = ap (λ r. r.active_threads) w.final ∙ ap (λ r. r.active_threads) w.slept.frame

  due-AreLive : AreLive s.heap (due s.heap s.sleeping_threads)
  due-AreLive q h =
      let (t, e, a) = sleeper_at inv q (ground (arith, h, count-due s.heap s.sleeping_threads q)) in
      (t, e)

  wakes : (id : ℕ) → count id woken_ids ≡ of_bool (Contract.is_due ((view s).info id))
  wakes id = count-ids inv _ id due-AreLive ∙ go (lookup id s.active_threads)
    where
      go :
          (o : Option ℕ)
          → occurrences o (due s.heap s.sleeping_threads)
            ≡ of_bool (Contract.is_due (entry_info s.heap o))
      go none = refl
      go (some p) =
          count-due s.heap s.sleeping_threads p
          ∙ ap (λ n. if is_due (s.heap p) then n else 0) (inv.sleepers p)
          ∙ weight-due (s.heap p)

  same_front : id_of (s.heap w.front) ≡ j.running_thread_id
  same_front =
      sym (id_of-passed (s.heap w.front))
      ∙ ap id_of (sym (slept_heap w.front))
      ∙ ap id_of w.live
      ∙ sym (ap (λ r. r.running_thread_id) w.final)

  mid_queue : s.ready_queue ++ due s.heap s.sleeping_threads ≡ w.front ∷ w.rest
  mid_queue = sym (ap (λ r. r.ready_queue) w.slept.frame) ∙ w.queue

  queue : (view s).ready ++ woken_ids ≡ (view (arrived w)).current ∷ (view (arrived w)).ready
  queue =
      sym (map-append (λ p. id_of (s.heap p)) s.ready_queue (due s.heap s.sleeping_threads))
      ∙ ap (ids s.heap) mid_queue
      ∙ ap (λ n. n ∷ ids s.heap w.rest) same_front
      ∙ ap (λ xs. j.running_thread_id ∷ xs)
          (sym (final_ids w.rest) ∙ ap (ids j.heap) (sym (ap (λ r. r.ready_queue) w.final)))

  mid_info : (o : Option ℕ) → entry_info w.mid.heap o ≡ elapse (entry_info s.heap o)
  mid_info none = refl
  mid_info (some p) = ap info_at (slept_heap p) ∙ info_at-passed (s.heap p)

  mid_entries : w.mid.active_threads ≡ s.active_threads
  mid_entries = ap (λ r. r.active_threads) w.slept.frame

  started_info :
      (id : ℕ)
      → (view (arrived w)).info id ≡ (
          if id == w.thread.id
          then some (info_of (started w.thread))
          else entry_info w.mid.heap (lookup id s.active_threads))
  started_info id =
      ap (λ m. entry_info j.heap (lookup id m)) (same_entries ∙ sym mid_entries)
      ∙ ap (λ h. entry_info h (lookup id w.mid.active_threads)) final_heap
      ∙ info-update w.slept.inv w.front (started w.thread) w.live refl id
      ∙ ap
          (λ m.
            if id == w.thread.id
            then some (info_of (started w.thread))
            else entry_info w.mid.heap (lookup id m))
          mid_entries

  front_info : elapse ((view s).info w.thread.id) ≡ some (info_of w.thread)
  front_info =
      sym (mid_info (lookup w.thread.id s.active_threads))
      ∙ ap (λ m. entry_info w.mid.heap (lookup w.thread.id m)) (sym mid_entries)
      ∙ ap (entry_info w.mid.heap) (cell_at w.slept.inv w.front w.live).registered
      ∙ ap info_at w.live

  info :
      (id : ℕ)
      → (view (arrived w)).info id ≡ (
          if id == (view (arrived w)).current
          then starts (elapse ((view s).info id))
          else elapse ((view s).info id))
  info id =
      started_info id
      ∙ ap (λ o. if id == w.thread.id then some (info_of (started w.thread)) else o)
          (mid_info (lookup id s.active_threads))
      ∙ by_id
      ∙ ap (λ n. if id == n then starts (elapse ((view s).info id)) else elapse ((view s).info id))
          (sym (ap (λ r. r.running_thread_id) w.final))
    where
      by_id :
          (if id == w.thread.id
            then some (info_of (started w.thread))
            else elapse ((view s).info id))
          ≡ (if id == w.thread.id
              then starts (elapse ((view s).info id))
              else elapse ((view s).info id))
      by_id = elim (ℕ_discrete id w.thread.id) [
        | yes h ↦ rw h (rw (front_info) refl)
        | no h ↦ ground (arith, h)
      ]

  -- A switch starts a new quantum.
  pub switch-NextQuantum : NextQuantum (view s) (view (arrived w))
  switch-NextQuantum = record {
    woken = woken_ids;
    wakes = wakes;
    queue = queue;
    info = info;
    size = ap length same_entries;
    total = ap (λ r. r.total_quantoms) w.final ∙ ap (λ r. r.total_quantoms) w.slept.frame;
  }

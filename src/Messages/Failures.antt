-- ===== src/Messages/Failures.antt =====
-- The calls of uthreads.cpp that write a message.
use os_ex.Prelude.{
  ℕ, zero, suc, ◌<◌, ◌≡◌, ◌≢◌, inl, inr, refl, sym, ap, ◌∙◌, Option, none, some, ℤ, true, length,
  arith, dec_lt, ℕ_discrete,
}
use os_ex.Checked.{int_max}
use os_ex.Thread.{not_sleeping, main_thread_id}
use os_ex.Machine.{System, Os, Result, returns}
use os_ex.Scheduler.{failure, find, max_thread_num}
use os_ex.Uthreads.{
  Call, returned, spawn, terminate, block, resume, sleep, get_quantums, get_tid, get_total_quantums,
  step_call,
}
use os_ex.Invariant.{IsValid}
use os_ex.Safety.{
  nonmain, to_user, resume_enters, quantums_enter, find_masked, resume_thread_missing,
  quantums_missing,
}
use os_ex.Behaviour.{
  spawn_refused, block_main_refused, sleep_main_refused, missing_thread, to_user_returns,
  mask_restored,
}
use os_ex.Messages.{Message, bad_allocation, message}
use os_ex.Messages.Reasons.{if_missing, reason, is_main, message-reason}

module _ {cur : ℕ} {s0 : System} (valid : IsValid cur s0) (lt : s0.total_quantoms < int_max)
    (os : Os) where
  abbrev s : System
  s = record s0 { masked = true }

  failed :
      (r : Result System ℤ) → r ≡ returns failure s → to_user os r ≡ returns (returned failure) s0
  failed r e =
      to_user_returns os r failure s e
      ∙ ap (returns (returned failure)) (mask_restored s0 valid.let_in)

  missing_fails :
      (c : Call) (tid : ℤ) {m : Message}
      → if_missing tid s0 ≡ some m
      → (find tid s0 ≡ none → step_call os c s0 ≡ returns (returned failure) s0)
      → step_call os c s0 ≡ returns (returned failure) s0
  missing_fails c tid {m} e k = go (find tid s0) refl e
    where
      go :
          (o : Option (ℕ × ℕ))
          → find tid s0 ≡ o
          → if_missing tid s0 ≡ some m
          → step_call os c s0 ≡ returns (returned failure) s0
      go none q h = k q
      go (some x) q h = cc (rw (if_missing, q) at h)

  spawn_fails :
      (entry_point : ℕ) {m : Message}
      → reason os (spawn entry_point) s0 ≡ some m
      → m ≢ bad_allocation
      → step_call os (spawn entry_point) s0 ≡ returns (returned failure) s0
  unfolding reason
  spawn_fails zero h n = spawn_refused valid lt os 0 (inl refl)
  spawn_fails (suc e) h n = elim (dec_lt (length s0.active_threads) max_thread_num) [
    | yes room ↦ absurd (ground (arith, room, h, n))
    | no full ↦ spawn_refused valid lt os (suc e) (inr (omega (arith, full)))
  ]

  -- In a valid state with fewer quantums than the largest int, a call other than
  -- `uthread_sleep(-1)` that writes a message to `cerr`, if it is not the one for lack of memory,
  -- returns -1 and changes nothing.
  pub message-fails :
      (c : Call) {m : Message}
      → c ≢ sleep not_sleeping
      → message os c s0 ≡ some m
      → m ≢ bad_allocation
      → step_call os c s0 ≡ returns (returned failure) s0
  unfolding reason
  message-fails c h e n = go c (sym (message-reason valid lt os c h) ∙ e) n
    where
      go :
          (c : Call) {m : Message}
          → reason os c s0 ≡ some m
          → m ≢ bad_allocation
          → step_call os c s0 ≡ returns (returned failure) s0
      go (spawn entry_point) e n = spawn_fails entry_point e n
      go (terminate tid) e n = elim (is_main tid) [
        | inl z ↦ cc (rw z at e)
        | inr k ↦
            missing_fails (terminate tid) tid (rw (nonmain tid k) at e)
              (λ q. (missing_thread valid lt os tid k q).0)
      ]
      go (block tid) e n = elim (is_main tid) [
        | inl z ↦ rw z (block_main_refused valid lt os)
        | inr k ↦
            missing_fails (block tid) tid (rw (nonmain tid k) at e)
              (λ q. (missing_thread valid lt os tid k q).1)
      ]
      go (resume tid) e n = missing_fails (resume tid) tid e (λ q.
          resume_enters valid lt os tid
          ∙ failed _ (resume_thread_missing valid lt os tid (find_masked tid s0 true ∙ q)))
      go (sleep k) e n = elim (ℕ_discrete s0.running_thread_id main_thread_id) [
        | yes z ↦ sleep_main_refused valid lt os k z
        | no z ↦ absurd (ground (arith, z, e))
      ]
      go (get_quantums tid) e n = missing_fails (get_quantums tid) tid e (λ q.
          quantums_enter valid lt os tid
          ∙ failed _ (quantums_missing valid lt os tid (find_masked tid s0 true ∙ q)))
      go get_tid e n = cc
      go get_total_quantums e n = cc

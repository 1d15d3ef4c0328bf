-- ===== src/Contract/Calls/Resume.antt =====
-- `uthread_resume` of uthreads.cpp beside its comment in uthreads.h.
use os_ex.Prelude.{
  ℕ, ◌<◌, ◌≡◌, ◌≢◌, ◌⊎◌, inl, inr, refl, sym, ap, ◌∙◌, some, ℤ, pos, true, [], ◌∷◌, ◌++◌,
}
use os_ex.Checked.{int_max}
use os_ex.Thread.{Thread, ready, blocked, sleeping, blocked_and_sleeping}
use os_ex.Machine.{System, Os}
use os_ex.Scheduler.{success, failure, resume_found}
use os_ex.Uthreads.{resume, step_call}
use os_ex.Invariant.{Inv, IsBusy, IsValid, cell_at}
use os_ex.Safety.{
  masked-IsBusy, to_user, find-cases, is_run, is_rdy, is_blk, is_slp, state_of, resume_enters,
  resume_thread_missing, resume_thread_found, resume_found_idle, resume_found-resumed,
}
use os_ex.Contract.{Info, Status, ResumePromise}
use os_ex.Contract.Abstraction.{view, info_of, info-live, left, status_of}
use os_ex.Contract.Ids.{ids-snoc}
use os_ex.Contract.Calls.Common.{Conforms, returns-Conforms, find-IsMissing, update-Moves}

module _ {cur : ℕ} {s0 : System} (valid : IsValid cur s0) (lt : s0.total_quantoms < int_max)
    (os : Os) where
  -- The state inside the call, where the signal is blocked.
  abbrev s : System
  s = record s0 { masked = true }

  abbrev busy : IsBusy cur s
  busy = masked-IsBusy true valid.busy

  abbrev inv : Inv s.total_quantoms cur s
  inv = busy.inv

  resume_found-Conforms :
      (tid : ℤ) (p : ℕ) {t : Thread}
      → tid ≡ pos t.id
      → s.heap p ≡ some t
      → t.state ≢ sleeping
      → Conforms (view s) (resume tid) (to_user os (resume_found p s))
  resume_found-Conforms tid p {t} e live awake = elim (state_of t (cell_at inv p live).not_both) [
    | is_run r ↦ idle (λ h. cc) (λ h. cc) (inl (ap (λ k. status_of k t.quantoms_left_to_sleep) r))
    | is_rdy r ↦ idle (λ h. cc) (λ h. cc) (inr (ap (λ k. status_of k t.quantoms_left_to_sleep) r))
    | is_slp r ↦ absurd (awake r)
    | is_blk r ↦
        let t' : Thread = record t { state = ready } in
        returns-Conforms os (view s) (resume tid) _ success _ (resume_found-resumed inv p live r) (
          ResumePromise.resumed t.id (info_of t) e (info-live inv p live) (rw r tt) refl (
            update-Moves inv p t' (s.ready_queue ++ p ∷ []) s.sleeping_threads live refl
              (ids-snoc s.heap s.ready_queue p live)))
  ]
    where
      idle :
          t.state ≢ blocked
          → t.state ≢ blocked_and_sleeping
          → ((info_of t).status ≡ Status.running) ⊎ ((info_of t).status ≡ Status.ready)
          → Conforms (view s) (resume tid) (to_user os (resume_found p s))
      idle b bs n =
          returns-Conforms os (view s) (resume tid) _ success s
            (resume_found_idle valid lt os p live b bs)
            (ResumePromise.no_effect t.id (info_of t) e (info-live inv p live) n
              (record { reply = refl; same = refl }))

  pub resume-Conforms :
      (tid : ℤ)
      → ((id : ℕ) (i : Info) (n : ℕ)
          → tid ≡ pos id
          → (view s0).info id ≡ some i
          → i.status ≢ Status.sleeping n)
      → Conforms (view s0) (resume tid) (step_call os (resume tid) s0)
  resume-Conforms tid awake = rw (resume_enters valid lt os tid) (elim (find-cases tid s) [
    | inl e ↦
        returns-Conforms os (view s) (resume tid) _ failure s
          (resume_thread_missing valid lt os tid e)
          (ResumePromise.refused (find-IsMissing tid s e) (record { reply = refl; same = refl }))
    | inr (id, p, i, e, l) ↦
        let (t, live, j) = inv.entries id p l in
        rw (resume_thread_found valid lt os tid e) (
          resume_found-Conforms tid p (i ∙ ap pos (sym j)) live (λ r.
            awake id (info_of t) (left t.quantoms_left_to_sleep) i
              (ap (view s).info (sym j) ∙ info-live inv p live)
              (ap (λ k. status_of k t.quantoms_left_to_sleep) r)))
  ])

-- ===== src/Behaviour/Switches.antt =====
-- What a switch to the front thread (`run_topmost_thread_in_ready_queue` of scheduler.cpp) does to
-- the threads that do not run next.
use os_ex.Prelude.{ℕ, suc, ◌≡◌, ◌≢◌, refl, sym, ap, ◌∙◌, some, none, pos, arith}
use os_ex.Thread.{Thread, Context, blocked, sleeping}
use os_ex.Machine.{System, Os}
use os_ex.Invariant.{Inv, update_other, outer-Inv}
use os_ex.Dispatch.{Switch, Slept-heap, passed, started}
use os_ex.Safety.{arrived}
use os_ex.Quantums.{Sleeps}

module _ {os : Os} {s : System} {c : Context} {j : System} (inv : Inv s.total_quantoms 0 s)
    (w : Switch os s c j) where
  -- A thread that does not run next only counts down its sleep.
  pub switch_bystander : (q : ℕ) → q ≢ w.front → (arrived w).heap q ≡ passed (s.heap q)
  switch_bystander q n =
      ap (λ r. r.heap q) w.final
      ∙ update_other w.mid.heap w.front q (some (started w.thread)) n
      ∙ Slept-heap
          (outer-Inv s.stack s.running_thread_id (suc s.total_quantoms) s.masked s.handled s.itimer
            inv)
          w.slept q

  pub switch_total : (arrived w).total_quantoms ≡ suc s.total_quantoms
  switch_total = ap (λ r. r.total_quantoms) w.final ∙ ap (λ r. r.total_quantoms) w.slept.frame

  -- Where there was no object there is none.
  pub switch_absent : (q : ℕ) → s.heap q ≡ none → (arrived w).heap q ≡ none
  switch_absent q e = switch_bystander q apart ∙ ap passed e
    where
      nothing : w.mid.heap q ≡ none
      nothing =
          Slept-heap
            (outer-Inv s.stack s.running_thread_id (suc s.total_quantoms) s.masked s.handled
              s.itimer inv)
            w.slept q
          ∙ ap passed e

      apart : q ≢ w.front
      apart h = absurd (cc (w.live, nothing, h))

  -- Nor does a thread that has just gone to sleep for a quantum or more.
  pub switch_sleeper :
      (q n : ℕ) (t : Thread)
      → s.heap q ≡ some t
      → t.state ≡ sleeping
      → t.quantoms_left_to_sleep ≡ pos (suc n)
      → Sleeps q n (arrived w)
  switch_sleeper q n t live a k = record {
    thread = record t { quantoms_left_to_sleep = pos n };
    live = switch_bystander q apart ∙ ap passed live ∙ rests;
    asleep = a;
    count = refl;
  }
    where
      rests : passed (some t) ≡ some (record t { quantoms_left_to_sleep = pos n })
      rests = ground arith

      apart : q ≢ w.front
      apart e = absurd (
          cc (
            w.live,
            w.was_ready,
            a,
            e,
            live,
            rests,
            Slept-heap
                (outer-Inv s.stack s.running_thread_id (suc s.total_quantoms) s.masked s.handled
                  s.itimer inv)
                w.slept q,
          ))

  -- A blocked thread stays as it is and does not run next.
  pub switch_blocked :
      (q : ℕ) (t : Thread)
      → s.heap q ≡ some t
      → t.state ≡ blocked
      → (w.front ≢ q) × ((arrived w).heap q ≡ some t)
  switch_blocked q t live b =
      (λ e. absurd (apart (sym e)), switch_bystander q apart ∙ ap passed live ∙ stays)
    where
      stays : passed (some t) ≡ some t
      stays = ground arith

      apart : q ≢ w.front
      apart e = absurd (
          cc (
            w.live,
            w.was_ready,
            b,
            e,
            live,
            stays,
            Slept-heap
                (outer-Inv s.stack s.running_thread_id (suc s.total_quantoms) s.masked s.handled
                  s.itimer inv)
                w.slept q,
          ))

-- ===== src/Quantums/Sleep.antt =====
-- How long a sleep lasts (`update_sleeping_threads` of scheduler.cpp).
use os_ex.Prelude.{
  ℕ, zero, suc, inl, inr, ◌+◌, ◌<◌, ◌≡◌, ◌≢◌, refl, ◌∙◌, ap, List, [], ◌∷◌, length, arith, pos,
  some,
}
use os_ex.Checked.{int_max}
use os_ex.Thread.{Thread, sleeping, ready}
use os_ex.Machine.{System, Os, returns}
use os_ex.Uthreads.{Seen, interrupted, step_tick}
use os_ex.Invariant.{IsValid, cell_at}
use os_ex.Dispatch.{ready_at, passed, woken}
use os_ex.Quantums.Tick.{Ticked, tick_lem, tick_bystander, tick_front, final_total}
use os_ex.Quantums.Rounds.{run_ticks}

module _ {os : Os} {cur : ℕ} {s s' : System} (v : IsValid cur s) (k : Ticked os cur s s') (q : ℕ)
    {t : Thread} (live : s.heap q ≡ some t) (asleep : t.state ≡ sleeping) where
  not_current : q ≢ cur
  not_current e = absurd (cc (asleep, (cell_at v.inv q live).current e))

  -- A thread that sleeps is not the one that runs next: others were in the queue before it.
  not_next : q ≢ k.by.front
  not_next e = elim (tick_front k) [
    | inl h ↦ not_current (e ∙ h)
    | inr h ↦ let (u, live', r) = ready_at v.inv q (rw e h) in absurd (cc (live, live', asleep, r))
  ]

  pub sleeper_next : s'.heap q ≡ passed (some t)
  sleeper_next = tick_bystander k q not_current not_next ∙ ap passed live

-- A sleeper with count n, seen only by its state, count and id.
pub record Sleeps (q n : ℕ) (s : System) : Type 0 where
  pub thread : Thread
  pub live : s.heap q ≡ some thread
  pub asleep : thread.state ≡ sleeping
  pub count : thread.quantoms_left_to_sleep ≡ pos n

rests :
    (t : Thread) (n : ℕ)
    → t.state ≡ sleeping
    → t.quantoms_left_to_sleep ≡ pos (suc n)
    → passed (some t) ≡ some (record t { quantoms_left_to_sleep = pos n })
rests t n a c = ground arith

wakes :
    (t : Thread)
    → t.state ≡ sleeping
    → t.quantoms_left_to_sleep ≡ pos 0
    → passed (some t) ≡ some (woken t)
wakes t a c = ground arith

-- While the count is positive a tick takes one off.
sleeps_on :
    {cur : ℕ} {s : System} (os : Os) (q n : ℕ)
    → IsValid cur s
    → s.total_quantoms < int_max
    → Sleeps q (suc n) s
    → (seen : Seen) × (s' : System) × (cur' : ℕ) × (step_tick os s ≡ returns seen s')
      × IsValid cur' s'
      × Sleeps q n s'
      × (s'.total_quantoms ≡ suc s.total_quantoms)
sleeps_on {cur} {s} os q n v lt z =
    let (seen, s', runs, k) = tick_lem os v lt in
    (
      seen,
      s',
      k.by.front,
      runs,
      k.valid,
      record {
        thread = record z.thread { quantoms_left_to_sleep = pos n };
        live = sleeper_next v k q z.live z.asleep ∙ rests z.thread n z.asleep z.count;
        asleep = z.asleep;
        count = refl;
      },
      final_total k,
    )

-- In a valid state a sleeper with count n, where the total of quantums plus n is below the
-- largest int, still sleeps after n ticks of the timer, then with count 0, and the next tick
-- makes it ready.
pub sleep_lasts :
    (n : ℕ) (oss : List Os) (os : Os) {cur : ℕ} {s : System} (q : ℕ)
    → length oss ≡ n
    → IsValid cur s
    → s.total_quantoms + n < int_max
    → Sleeps q n s
    → (seen : Seen) × (s' : System) × (seen' : Seen) × (s'' : System) × (t : Thread) × (run_ticks
          oss s
        ≡ returns seen s')
      × Sleeps q 0 s'
      × (step_tick os s' ≡ returns seen' s'')
      × (s''.heap q ≡ some t)
      × (t.state ≡ ready)
unfolding run_ticks
sleep_lasts zero [] os {cur} {s} q l v lt z =
    let (seen, s', runs, k) = tick_lem os v (omega arith) in
    (
      interrupted,
      s,
      seen,
      s',
      woken z.thread,
      refl,
      z,
      runs,
      sleeper_next v k q z.live z.asleep ∙ wakes z.thread z.asleep z.count,
      refl,
    )
sleep_lasts zero (o ∷ oss) os q l v lt z = absurd (omega arith)
sleep_lasts (suc n) [] os q l v lt z = absurd (omega arith)
sleep_lasts (suc n) (o ∷ oss) os {cur} {s} q l v lt z =
    let (seen, s', cur', runs, valid, z', total) = sleeps_on o q n v (omega arith) z in
    let (seen', s1, seen'', s2, t, runs', z'', last, live, r) =
      sleep_lasts n oss os {s = s'} q (omega arith) valid (omega (arith, total)) z' in
    (seen', s1, seen'', s2, t, rw runs runs', z'', last, live, r)

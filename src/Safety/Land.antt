-- ===== src/Safety/Land.antt =====
-- The way of a thread that waits from the jump of scheduler.cpp on to user code.
use os_ex.Prelude.{ℕ, suc, ◌≡◌, refl, sym, subst, ◌∙◌, ap, some, false, pos, lookup}
use os_ex.Thread.{Context, Point, nowhere, in_setup, in_block, in_sleep, in_handler, entry}
use os_ex.Machine.{System, Os, returns}
use os_ex.Scheduler.{
  success, change_blockage_status_sigvtalrm, block_resumed, sleep_resumed, handler_resumed,
}
use os_ex.Uthreads.{enters, returned, interrupted, Seen, land, go_to}
use os_ex.Invariant.{Inv, IsValid, cell_at, outer-Inv, IsResumable, Waits}
use os_ex.Dispatch.{Switch}

abbrev unmasked : System → System
unmasked s = record s { masked = false }

-- What user code sees where a jump to a place ends.
abbrev pub seen_at : Point → Seen
seen_at (entry e) = enters e
seen_at in_handler = interrupted
seen_at _ = returned success

land-seen_at :
    (os : Os) (place : Point) (this : ℕ) (s : System) {s' : System} {seen : Seen}
    → IsResumable place s.masked
    → land os place this s ≡ returns seen s'
    → seen ≡ seen_at place
unfolding land block_resumed sleep_resumed handler_resumed change_blockage_status_sigvtalrm
land-seen_at os nowhere this s r e = absurd r
land-seen_at os in_setup this s r e = absurd r
land-seen_at os (entry p) this s r e = cc
land-seen_at os in_block this s r e = cc
land-seen_at os in_sleep this s r e = cc
land-seen_at os in_handler this s r e = cc

land_lem :
    (os : Os) (place : Point) (this : ℕ) (s : System)
    → IsResumable place s.masked
    → (seen : Seen) × (land os place this s ≡ returns seen (unmasked s))
unfolding land block_resumed sleep_resumed handler_resumed change_blockage_status_sigvtalrm
land_lem os nowhere this s r = absurd r
land_lem os in_setup this s r = absurd r
land_lem os (entry e) this s r =
    (Seen.enters e, ap (λ m. returns (Seen.enters e) (record s { masked = m })) r)
land_lem os in_block this s r = (Seen.returned (pos 0), refl)
land_lem os in_sleep this s r = (Seen.returned (pos 0), refl)
land_lem os in_handler this s r = (Seen.interrupted, refl)

module _ {os : Os} {s : System} {c : Context} {s' : System} (w : Switch os s c s') where
  pub front-Waits : Waits w.front c
  front-Waits =
      rw w.context
        ((cell_at w.slept.inv w.front w.live).waits (λ z. cc (w.slept.inv.null, rw z at w.live)))

  switched_total : s'.total_quantoms ≡ suc s.total_quantoms
  switched_total = ap (λ r. r.total_quantoms) w.final ∙ ap (λ r. r.total_quantoms) w.slept.frame

  switched_runner : lookup s'.running_thread_id s'.active_threads ≡ some w.front
  switched_runner = rw w.final (cell_at w.slept.inv w.front w.live).registered

  abbrev pub arrived : System
  arrived = record s' { masked = false; stack = c.stack }

  arrived-IsValid : IsValid w.front arrived
  arrived-IsValid = record {
    busy = record {
      inv =
          subst (λ n. Inv n w.front arrived) (sym switched_total)
            (outer-Inv c.stack s'.running_thread_id s'.total_quantoms false s'.handled s'.itimer
              w.inv);
      runner = switched_runner;
      on_stack = front-Waits.0;
    };
    let_in = refl;
  }

  pub go_to-seen_at :
      {seen : Seen} {s'' : System} → go_to os c s' ≡ returns seen s'' → seen ≡ seen_at c.point
  unfolding go_to
  go_to-seen_at e =
      land-seen_at os c.point c.stack (record s' { masked = c.masked; stack = c.stack })
        front-Waits.1 e

  -- The jump lands in the front thread, which is the one that runs from then on.
  pub go_to_lem : (seen : Seen) × (go_to os c s' ≡ returns seen arrived) × IsValid w.front arrived
  unfolding go_to
  go_to_lem =
      let (seen, e) =
        land_lem os c.point c.stack (record s' { masked = c.masked; stack = c.stack })
          front-Waits.1 in
      (seen, e, arrived-IsValid)

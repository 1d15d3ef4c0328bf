-- ===== src/Program/Places.antt =====
-- Where the threads of the scheduler go on, across the start of a quantum (scheduler.cpp).
use os_ex.Prelude.{
  length, ℕ, suc, ◌≡◌, refl, sym, ap, ◌∙◌, Option, none, some, ◌==◌, if◌then◌else◌, update, arith,
  ℕ_discrete, subst,
}
use os_ex.Thread.{Thread, Context, Point}
use os_ex.Machine.{System, Os, returns}
use os_ex.Uthreads.{Seen, go_to}
use os_ex.Invariant.{Inv, IsValid, outer-Inv, update_self}
use os_ex.Dispatch.{Switch, passed, started, Slept-heap}
use os_ex.Safety.{seen_at, go_to-seen_at, arrived, go_to_lem, front-Waits}

abbrev pub place_of : Option Thread → Option Point
place_of none = none
place_of (some t) = some t.env.point

abbrev pub owner : Option Thread → Option ℕ
owner none = none
owner (some t) = some t.id

-- The thread that ran left at `place`, and the next one goes on where it had left.
pub record Moves (place : Point) (s : System) (seen : Seen) (s' : System) : Type 0 where
  pub places :
      (q : ℕ) → place_of (s'.heap q) ≡ (if s.stack == q then some place else place_of (s.heap q))
  pub owners : (q id : ℕ) → owner (s.heap q) ≡ some id → owner (s'.heap q) ≡ some id
  pub point : Point
  pub landed : place_of (s'.heap s'.stack) ≡ some point
  pub seen_eq : seen ≡ seen_at point
  pub valid : IsValid s'.stack s'
  pub total : s'.total_quantoms ≡ suc s.total_quantoms
  pub size : length s'.active_threads ≡ length s.active_threads

place_of-passed : (o : Option Thread) → place_of (passed o) ≡ place_of o
place_of-passed none = refl
place_of-passed (some t) = ground arith

owner-passed : (o : Option Thread) → owner (passed o) ≡ owner o
owner-passed none = refl
owner-passed (some t) = ground arith

module _ {os : Os} {s : System} {c : Context} {j : System} (inv : Inv s.total_quantoms 0 s)
    (w : Switch os s c j) where
  mid_heap : (q : ℕ) → w.mid.heap q ≡ passed (s.heap q)
  mid_heap =
      Slept-heap
        (outer-Inv s.stack s.running_thread_id (suc s.total_quantoms) s.masked s.handled s.itimer
          inv)
        w.slept

  mid_places : (q : ℕ) → place_of (w.mid.heap q) ≡ place_of (s.heap q)
  mid_places q = ap place_of (mid_heap q) ∙ place_of-passed (s.heap q)

  mid_owners : (q : ℕ) → owner (w.mid.heap q) ≡ owner (s.heap q)
  mid_owners q = ap owner (mid_heap q) ∙ owner-passed (s.heap q)

  final_heap : (arrived w).heap ≡ update w.mid.heap w.front (some (started w.thread))
  final_heap = ap (λ r. r.heap) w.final

  arrived_places : (q : ℕ) → place_of ((arrived w).heap q) ≡ place_of (s.heap q)
  arrived_places q = ap (λ h. place_of (h q)) final_heap ∙ elim (ℕ_discrete w.front q) [
    | yes h ↦ ground (arith, h, ap place_of w.live, mid_places q)
    | no h ↦ ground (arith, h, mid_places q)
  ]

  arrived_owners : (q : ℕ) → owner ((arrived w).heap q) ≡ owner (s.heap q)
  arrived_owners q = ap (λ h. owner (h q)) final_heap ∙ elim (ℕ_discrete w.front q) [
    | yes h ↦ ground (arith, h, ap owner w.live, mid_owners q)
    | no h ↦ ground (arith, h, mid_owners q)
  ]

  arrived_front : place_of ((arrived w).heap c.stack) ≡ some c.point
  arrived_front =
      ap (λ q. place_of ((arrived w).heap q)) (front-Waits w).0
      ∙ ap (λ h. place_of (h w.front)) final_heap
      ∙ ap place_of (update_self w.mid.heap w.front (some (started w.thread)))
      ∙ ap (λ x. some x.point) (sym w.context)

  -- The thread on the stack in use of `before` left in `s`, and the switch `w` comes next.
  pub leaves :
      (before : System) (t : Thread)
      → s.heap ≡ update before.heap before.stack (some t)
      → owner (before.heap before.stack) ≡ some t.id
      → s.total_quantoms ≡ before.total_quantoms
      → s.active_threads ≡ before.active_threads
      → (seen : Seen) × (go_to os c j ≡ returns seen (arrived w))
        × Moves t.env.point before seen (arrived w)
  leaves before t e i n a =
      let (seen, lands, valid) = go_to_lem w in
      (
        seen,
        lands,
        record {
          places = λ q. arrived_places q ∙ ap (λ h. place_of (h q)) e ∙ ground (arith);
          owners = λ q id h.
              arrived_owners q ∙ ap (λ h. owner (h q)) e ∙ elim (ℕ_discrete before.stack q) [
                | yes k ↦ ground (arith, k, i, h)
                | no k ↦ ground (arith, k, h)
              ];
          point = c.point;
          landed = arrived_front;
          seen_eq = go_to-seen_at w lands;
          valid = subst (λ p. IsValid p (arrived w)) (sym (front-Waits w).0) valid;
          total =
              ap (λ r. r.total_quantoms) w.final
              ∙ ap (λ r. r.total_quantoms) w.slept.frame
              ∙ ap suc n;
          size =
              ap (λ r. length r.active_threads) w.final
              ∙ ap (λ r. length r.active_threads) w.slept.frame
              ∙ ap length a;
        },
      )

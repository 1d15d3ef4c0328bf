-- ===== src/Dispatch/Loop.antt =====
-- The whole loop of `update_sleeping_threads` (scheduler.cpp), round after round.
use mathlib.Core.List.{append-nil, append_assoc}
use os_ex.Prelude.{
  ℕ, ◌≤◌, ◌<◌, ◌≡◌, inl, inr, refl, sym, ◌∙◌, ap, List, [], ◌∷◌, ◌++◌, Bool, true, false, Option,
  none, some, if◌then◌else◌, is_positive, Bool-cases, count, count-nil, count-cons, count-cons_self,
  count-cons_ne, ℕ_discrete, count-erase, update, arith,
}
use os_ex.Thread.{Thread, sleeping, same_state}
use os_ex.Machine.{System, returns}
use os_ex.Scheduler.{update_each}
use os_ex.Invariant.{Inv, cell_at, sleeping_weight, update_other, update_self}
use os_ex.Dispatch.Sleepers.{
  rested, woken, rest_round, wake_round, update_sleeping-rests, update_sleeping-wakes,
}
use os_ex.Dispatch.Rounds.{rest_round-Inv, wake_round-Inv}

-- A sleeper with one quantum less to go, or awake.
abbrev pub slept : Thread → Thread
slept t = if is_positive t.quantoms_left_to_sleep then rested t else woken t

-- A thread at the start of a quantum: only a sleeper changes.
abbrev pub passed : Option Thread → Option Thread
passed none = none
passed (some t) = some (if same_state t.state sleeping then slept t else t)

abbrev pub is_due : Option Thread → Bool
is_due none = false
is_due (some t) = if is_positive t.quantoms_left_to_sleep then false else true

-- The sleepers of a list that wake now, in its order.
pub due : (ℕ → Option Thread) → List ℕ → List ℕ
due heap [] = []
due heap (p ∷ xs) = if is_due (heap p) then p ∷ due heap xs else due heap xs

-- Only the sleepers in the list count.
pub due-update :
    (heap : ℕ → Option Thread) (p : ℕ) (v : Option Thread) (xs : List ℕ)
    → count p xs ≡ 0
    → due (update heap p v) xs ≡ due heap xs
unfolding due
due-update heap p v [] h = refl
due-update heap p v (x ∷ xs) h = ground (arith, count-cons p x xs, due-update heap p v xs)

-- A sleeper is listed as often as in the list, if it is due.
pub count-due :
    (heap : ℕ → Option Thread) (xs : List ℕ) (p : ℕ)
    → count p (due heap xs) ≡ (if is_due (heap p) then count p xs else 0)
unfolding due count
count-due heap [] p = ground arith
count-due heap (x ∷ xs) p = elim (ℕ_discrete x p) [
  | yes h ↦ rw h (ground (arith, count-due heap xs p))
  | no h ↦ ground (arith, count-due heap xs p, h)
]

pub sleeper_at :
    {cap cur : ℕ} {s : System}
    → Inv cap cur s
    → (p : ℕ) → 0 < count p s.sleeping_threads
    → (t : Thread) × (s.heap p ≡ some t) × (t.state ≡ sleeping)
sleeper_at {cap} {cur} {s} inv p h = go (s.heap p) refl (rw (inv.sleepers p) at h)
  where
    go :
        (o : Option Thread)
        → s.heap p ≡ o
        → 0 < sleeping_weight o
        → (t : Thread) × (s.heap p ≡ some t) × (t.state ≡ sleeping)
    go none e w = absurd (omega arith)
    go (some t) e w = (t, e, ground arith)

pub sleepers_once :
    {cap cur : ℕ} {s : System} → Inv cap cur s → (p : ℕ) → count p s.sleeping_threads ≤ 1
sleepers_once {cap} {cur} {s} inv p = rw (inv.sleepers p) (go (s.heap p))
  where
    go : (o : Option Thread) → sleeping_weight o ≤ 1
    go none = omega arith
    go (some t) = ground arith

-- What the rounds for a list of sleepers make of a state.
pub record Slept (cap cur : ℕ) (xs : List ℕ) (s s' : System) : Type 0 where
  pub inv : Inv cap cur s'
  pub frame : s' ≡ record s {
    heap = s'.heap;
    ready_queue = s.ready_queue ++ due s.heap xs;
    sleeping_threads = s'.sleeping_threads;
  }
  pub met : (q : ℕ) → 0 < count q xs → s'.heap q ≡ passed (s.heap q)
  pub unmet : (q : ℕ) → count q xs ≡ 0 → s'.heap q ≡ s.heap q

-- Each is a member, and is listed once.
abbrev pub Members : List ℕ → System → Type 0
Members xs s = (q : ℕ) → count q xs ≤ count q s.sleeping_threads

due-none :
    (heap : ℕ → Option Thread) (p : ℕ) (xs : List ℕ) {t : Thread}
    → heap p ≡ some t
    → is_positive t.quantoms_left_to_sleep ≡ true
    → due heap (p ∷ xs) ≡ due heap xs
unfolding due
due-none heap p xs e h = rw e (rw h)

due-some :
    (heap : ℕ → Option Thread) (p : ℕ) (xs : List ℕ) {t : Thread}
    → heap p ≡ some t
    → is_positive t.quantoms_left_to_sleep ≡ false
    → due heap (p ∷ xs) ≡ p ∷ due heap xs
unfolding due
due-some heap p xs e h = rw e (rw h)

module _ {cap cur : ℕ} {s : System} (inv : Inv cap cur s) (p : ℕ) (xs : List ℕ)
    (members : Members (p ∷ xs) s) (t : Thread) (live : s.heap p ≡ some t)
    (asleep : t.state ≡ sleeping) where
  once : count p xs ≡ 0
  once = omega (arith, members p, count-cons_self p xs, sleepers_once inv p)

  rest-Members : Members xs (rest_round s p t)
  rest-Members q = ground (arith, members q, count-cons q p xs)

  wake-Members : Members xs (wake_round s p t)
  wake-Members q =
      ground (arith, members q, once, count-cons q p xs, count-erase q p s.sleeping_threads)

  module _ {s' : System} where
    met_step :
        (t' : Thread) (s1 : System)
        → passed (some t) ≡ some t'
        → s1.heap ≡ update s.heap p (some t')
        → Slept cap cur xs s1 s'
        → (q : ℕ) → 0 < count q (p ∷ xs)
        → s'.heap q ≡ passed (s.heap q)
    met_step t' s1 e e1 rest q h = elim (ℕ_discrete q p) [
      | yes here ↦
          rw (here, live, e) (rest.unmet p once ∙ ap (λ f. f p) e1 ∙ update_self s.heap p (some t'))
      | no there ↦
          rest.met q (omega (arith, rw (count-cons_ne q p xs (λ z. there (sym z))) at h))
          ∙ ap (λ f. passed (f q)) e1
          ∙ ap passed (update_other s.heap p q (some t') there)
    ]

    unmet_step :
        (t' : Thread) (s1 : System)
        → s1.heap ≡ update s.heap p (some t')
        → Slept cap cur xs s1 s'
        → (q : ℕ) → count q (p ∷ xs) ≡ 0
        → s'.heap q ≡ s.heap q
    unmet_step t' s1 e1 rest q h =
        rest.unmet q (omega (arith, h, count-cons q p xs))
        ∙ ap (λ f. f q) e1
        ∙ update_other s.heap p q (some t')
            (λ z. absurd (omega (arith, rw z at h, count-cons_self p xs)))

    rest_step :
        is_positive t.quantoms_left_to_sleep ≡ true
        → Slept cap cur xs (rest_round s p t) s'
        → Slept cap cur (p ∷ xs) s s'
    rest_step h rest = record {
      inv = rest.inv;
      frame =
          rest.frame
          ∙ ap
              (λ r. record s {
                heap = s'.heap;
                ready_queue = s.ready_queue ++ r;
                sleeping_threads = s'.sleeping_threads;
              })
              (due-update s.heap p (some (rested t)) xs once ∙ sym (due-none s.heap p xs live h));
      met = met_step (rested t) (rest_round s p t) (ground arith) refl rest;
      unmet = unmet_step (rested t) (rest_round s p t) refl rest;
    }

    wake_step :
        is_positive t.quantoms_left_to_sleep ≡ false
        → Slept cap cur xs (wake_round s p t) s'
        → Slept cap cur (p ∷ xs) s s'
    wake_step h rest = record {
      inv = rest.inv;
      frame =
          rest.frame
          ∙ ap
              (λ r. record s {
                heap = s'.heap;
                ready_queue = r;
                sleeping_threads = s'.sleeping_threads;
              })
              (append_assoc s.ready_queue (p ∷ []) _
                ∙ ap (λ r. s.ready_queue ++ p ∷ r) (due-update s.heap p (some (woken t)) xs once)
                ∙ ap (◌++◌ s.ready_queue) (sym (due-some s.heap p xs live h)));
      met = met_step (woken t) (wake_round s p t) (ground arith) refl rest;
      unmet = unmet_step (woken t) (wake_round s p t) refl rest;
    }

pub update_each_lem :
    {cap cur : ℕ} (xs : List ℕ) {s : System}
    → Inv cap cur s
    → Members xs s
    → (s' : System) × (update_each xs s ≡ returns tt s') × Slept cap cur xs s s'
unfolding update_each due
update_each_lem [] {s} inv m = (
  s,
  refl,
  record {
    inv = inv;
    frame = ap (λ r. record s { ready_queue = r }) (sym (append-nil s.ready_queue));
    met = λ q h. absurd (omega (arith, count-nil q));
    unmet = λ q h. refl;
  },
)
update_each_lem (p ∷ xs) {s} inv m =
    let (t, live, asleep) = sleeper_at inv p (omega (arith, m p, count-cons_self p xs)) in
    elim (Bool-cases (is_positive t.quantoms_left_to_sleep)) [
      | inl h ↦
          let (s', runs, rest) =
            update_each_lem xs {s = rest_round s p t} (rest_round-Inv inv p t live asleep h)
              (rest-Members inv p xs m t live asleep) in
          (
            s',
            rw (update_sleeping-rests s p t live asleep h) runs,
            rest_step inv p xs m t live asleep h rest,
          )
      | inr h ↦
          let (s', runs, rest) =
            update_each_lem xs {s = wake_round s p t} (wake_round-Inv inv p t live asleep)
              (wake-Members inv p xs m t live asleep) in
          (
            s',
            rw
                (update_sleeping-wakes s p t live asleep h ((cell_at inv p live).countdown asleep)
                  (cell_at inv p live).registered)
                runs,
            wake_step inv p xs m t live asleep h rest,
          )
    ]

-- ===== src/Safety/Destroy.antt =====
-- `~Scheduler` of scheduler.cpp, run by `exit`.
use os_ex.Prelude.{
  ℕ, ◌≡◌, ◌≢◌, ◌⊎◌, inl, inr, false, Bool-cases, ℕ_discrete, refl, ◌∙◌, List, [], ◌∷◌, Option, none,
  some, lookup, remove, HasUniqueKeys, update, arith,
}
use os_ex.Thread.{Thread, main_thread_id}
use os_ex.Machine.{use_stack, System, Os, Result, returns, exits, aborts}
use os_ex.Checked.{freed_stack}
use os_ex.Machine.Laws.{delete_lem}
use os_ex.Scheduler.{destroy_each, exit, exit_stack}
use os_ex.Invariant.{Inv, cell_at, update_other}

-- The table lists each live object once.
record Owns (m : List (ℕ × ℕ)) (heap : ℕ → Option Thread) : Type 0 where
  null : heap 0 ≡ none
  unique : HasUniqueKeys m
  registered : (p : ℕ) (t : Thread) → heap p ≡ some t → lookup t.id m ≡ some p
  entries : (id p : ℕ) → lookup id m ≡ some p → (t : Thread) × (heap p ≡ some t) × (t.id ≡ id)

module _ {id p : ℕ} {m : List (ℕ × ℕ)} {heap : ℕ → Option Thread}
    (owns : Owns ((id, p) ∷ m) heap) where
  first : (t : Thread) × (heap p ≡ some t) × (t.id ≡ id)
  unfolding lookup
  first = owns.entries id p (ground arith)

  rest_registered : (q : ℕ) (u : Thread) → update heap p none q ≡ some u → lookup u.id m ≡ some q
  unfolding lookup
  rest_registered q u e = ground (arith, owns.registered q u, first.2)

  rest_entry :
      (i q : ℕ) → lookup i m ≡ some q → (u : Thread) × (update heap p none q ≡ some u) × (u.id ≡ i)
  unfolding lookup
  rest_entry i q e =
      let (u, e', j) = owns.entries i q (ground (arith, other)) in
      (u, update_other heap p q none (apart u e' j) ∙ e', j)
    where
      other : i ≢ id
      other z = cc (owns.unique.0, e)

      apart : (u : Thread) → heap q ≡ some u → u.id ≡ i → q ≢ p
      apart u e' j z = other (ground (arith, first.1, first.2))

  rest-Owns : Owns m (update heap p none)
  rest-Owns = record {
    null = ground (arith, owns.null);
    unique = owns.unique.1;
    registered = rest_registered;
    entries = rest_entry;
  }

none_left :
    {heap : ℕ → Option Thread} → Owns [] heap → (p : ℕ) (o : Option Thread) → heap p ≡ o → o ≡ none
unfolding lookup
none_left owns p none e = refl
none_left owns p (some t) e = cc (owns.registered p t e)

destroy_each_lem :
    (m : List (ℕ × ℕ)) (s : System)
    → Owns m s.heap
    → (s' : System) × (destroy_each m s ≡ returns tt s')
      × ((p : ℕ) → s'.heap p ≡ none)
      × (s'.running_thread_id ≡ s.running_thread_id)
unfolding destroy_each
destroy_each_lem [] s owns = (s, refl, λ p. none_left owns p (s.heap p) refl, refl)
destroy_each_lem ((id, p) ∷ m) s owns =
    let (t, live, i) = first owns in
    let s1 : System = record s {
      heap = update s.heap p none;
      active_threads = remove id s.active_threads;
    } in
    let (s', runs, empty, same) = destroy_each_lem m s1 (rest-Owns owns) in
    (s', rw (delete_lem p s live (λ z. cc (owns.null, live))) runs, empty, same)

-- The process ends with every object deleted, or another thread than the main one has lost its stack.
abbrev pub Ends : Os → ℕ → ℕ → {A : Type 0} → Result System A → Type 0
Ends os code id r =
    ((s' : System) × (r ≡ exits code s') × ((p : ℕ) → s'.heap p ≡ none))
    ⊎ ((r ≡ aborts freed_stack) × (os.keeps_freed ≡ false) × (id ≢ main_thread_id))

exit_stack-cases :
    (os : Os) (s : System)
    → s.heap s.stack ≡ none
    → (exit_stack os s ≡ returns tt s)
      ⊎ ((exit_stack os s ≡ aborts freed_stack)
          × (os.keeps_freed ≡ false)
          × (s.running_thread_id ≢ main_thread_id))
unfolding exit_stack use_stack
exit_stack-cases os s e = elim (ℕ_discrete s.running_thread_id main_thread_id) [
  | yes h ↦ inl (ground (arith, h))
  | no h ↦ elim (Bool-cases os.keeps_freed) [
    | inl kept ↦ inl (ground (arith, h, kept))
    | inr lost ↦ inr (ground (arith, h, lost, e), lost, h)
  ]
]

-- `exit`, whatever ids are unused.
pub exit-Ends :
    {cap cur : ℕ} {s : System} (os : Os) (A : Type 0) (code largest : ℕ) (unused : List ℕ)
    → Inv cap cur s
    → Ends os code s.running_thread_id (
        exit {A = A} os code (record s { largest_thread_id = largest; unused_threads_id = unused }))
unfolding exit
exit-Ends {cap} {cur} {s} os A code largest unused inv =
    let s1 : System = record s { largest_thread_id = largest; unused_threads_id = unused } in
    let (s', runs, empty, same) = destroy_each_lem s.active_threads s1 owned in
    elim (exit_stack-cases os s' (empty s'.stack)) [
      | inl e ↦ inl (s', rw runs (rw e refl), empty)
      | inr (e, lost, n) ↦ inr (rw runs (rw e refl), lost, λ z. n (same ∙ z))
    ]
  where
    owned : Owns s.active_threads s.heap
    owned = record {
      null = inv.null;
      unique = inv.unique;
      registered = λ p t e. (cell_at inv p e).registered;
      entries = inv.entries;
    }

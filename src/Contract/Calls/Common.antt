-- ===== src/Contract/Calls/Common.antt =====
-- The two ways in which a call of uthreads.cpp goes on, beside uthreads.h.
use os_ex.Prelude.{
  ℕ, ◌<◌, ◌≡◌, refl, sym, subst, ◌∙◌, Option, none, some, ℤ, pos, negsuc, lookup, List, update,
}
use os_ex.Checked.{int_max}
use os_ex.Thread.{Thread, Point, nowhere, in_setup, in_block, in_sleep, in_handler, entry}
use os_ex.Machine.{System, Os, Result, returns, jumps, exits, aborts, bind}
use os_ex.Scheduler.{success, find, run_topmost_thread_in_ready_queue}
use os_ex.Uthreads.{Seen, Call, settle, terminate}
use os_ex.Invariant.{Inv}
use os_ex.Dispatch.{run_topmost_lem}
use os_ex.Safety.{to_user, go_to_lem, arrived, seen_at, go_to-seen_at}
use os_ex.Behaviour.{to_user_returns}
use os_ex.Contract.{
  Resumes, View, Reply, code, switches, Promise, Shows, Switches, IsMissing, Moves,
}
use os_ex.Contract.Abstraction.{view, ids, ids-update, info_of, info-update}
use os_ex.Contract.Quantum.{switch-NextQuantum}

-- The outcome of a call is one that its comment in uthreads.h allows. The process ends only where
-- the main thread is ended.
abbrev pub Conforms : View → Call → Result System Seen → Type 0
Conforms v c (returns seen s') = (r : Reply) × Promise c v r (view s') × Shows r seen
Conforms v c (jumps k s') = ⊥
Conforms v c (exits n s') = (c ≡ terminate (pos 0)) × (n ≡ 0)
Conforms v c (aborts e) = ⊥

-- The second return of a call that had left is 0.
pub seen_at-Resumes : (place : Point) → Resumes (seen_at place)
seen_at-Resumes nowhere = refl
seen_at-Resumes in_setup = refl
seen_at-Resumes in_block = refl
seen_at-Resumes in_sleep = refl
seen_at-Resumes in_handler = tt
seen_at-Resumes (entry e) = tt

module _ (os : Os) (v : View) (c : Call) (m : Result System ℤ) where
  pub returns-Conforms :
      (n : ℤ) (s1 : System)
      → m ≡ returns n s1
      → Promise c v (code n) (view s1)
      → Conforms v c (to_user os m)
  returns-Conforms n s1 e k = rw (to_user_returns os m n s1 e) (code n, k, refl)

  pub switches-Conforms :
      (First : View → Type 0) (s1 : System)
      → m ≡ bind (run_topmost_thread_in_ready_queue os s1) (λ _ s'. returns success s')
      → Inv s1.total_quantoms 0 s1
      → s1.total_quantoms < int_max
      → First (view s1)
      → ((v' : View) → Switches First switches v' → Promise c v switches v')
      → Conforms v c (to_user os m)
  unfolding settle
  switches-Conforms First s1 e inv lt first promised =
      let (k, j, runs, w) = run_topmost_lem os inv lt in
      let (seen, lands, valid) = go_to_lem w in
      rw e (
        rw runs (
          rw lands (
            switches,
            promised (view (arrived w)) (record {
              between = view s1;
              first = first;
              next = switch-NextQuantum inv w;
              reply = refl;
            }),
            subst Resumes (sym (go_to-seen_at w lands)) (seen_at-Resumes k.point),
          )))

pub find-IsMissing : (tid : ℤ) (s : System) → find tid s ≡ none → IsMissing tid (view s)
unfolding find
find-IsMissing (negsuc n) s e = tt
find-IsMissing (pos id) s e = go (lookup id s.active_threads) refl e
  where
    entry : Option ℕ → Option (ℕ × ℕ)
    entry o = elim o [ none ↦ none | some p ↦ some (id, p) ]

    go :
        (o : Option ℕ)
        → lookup id s.active_threads ≡ o
        → entry (lookup id s.active_threads) ≡ none
        → (view s).info id ≡ none
    go none l h = rw l
    go (some p) l h = cc (l, h)

-- One object changes and keeps its id.
pub update-Moves :
    {cap cur : ℕ} {s : System} (inv : Inv cap cur s) (p : ℕ) (t' : Thread) {t : Thread}
    (ready' sleeping' : List ℕ) {listed : List ℕ}
    → s.heap p ≡ some t
    → t'.id ≡ t.id
    → ids s.heap ready' ≡ listed
    → Moves t.id (info_of t') listed (view s) (
        view (record s {
          heap = update s.heap p (some t');
          ready_queue = ready';
          sleeping_threads = sleeping';
        }))
update-Moves {s = s} inv p t' ready' sleeping' live same e = record {
  info = info-update inv p t' live same;
  ready = ids-update s.heap p t' ready' live same ∙ e;
  current = refl;
  size = refl;
  total = refl;
}

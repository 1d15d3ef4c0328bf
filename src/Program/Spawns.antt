-- ===== src/Program/Spawns.antt =====
-- How many threads main.cpp starts: the main thread's `i` only grows, and each spawn has one value of it.
use os_ex.Prelude.{
  some, ℕ, suc, ◌+◌, ◌≤◌, ◌≡◌, ◌≢◌, ◌⊎◌, inl, inr, refl, sym, ap, subst, ◌∙◌, List, [], ◌∷◌, ◌++◌,
  ℤ, pos, Bool, true, false, arith, eq_ℤ, of_bool, ltb, ◌==◌,
}
use os_ex.Sample.{
  Loop, main_loop, thread1_loop, thread2_loop, thread1_entry, thread2_entry, resumed_by_1,
  goes_to_sleep, blocked_by_0,
}
use os_ex.Uthreads.{Call, get_total_quantums, spawn, block, resume, sleep}
use os_ex.Machine.{System}
use os_ex.Program.Outcomes.{spawns, Answers}
use os_ex.Program.Statements.{IsInvoke}
use os_ex.Program.Lines.{counts}
use os_ex.Program.{
  call_of, Op, read_start, test, take, compare, ask_tid, ask_own, ask_quantums, ask_total, print,
  flush, count, invoke, say, Frame, ops, when, report,
}

-- The threads that a statement may start, and that the rest of a round may.
abbrev pub starts : Op → ℕ
starts (invoke c) = spawns c
starts _ = 0

abbrev pub pending : List Op → ℕ
pending [] = 0
pending (op ∷ rest) = starts op + pending rest

-- The threads that there can be in the rounds up to, and without, the one for `i`.
abbrev pub limit : ℕ → ℕ
limit i = (1 + of_bool (ltb 3 i)) + of_bool (ltb 11 i)

abbrev pub takes : List Op → ℕ
takes [] = 0
takes (take ∷ rest) = suc (takes rest)
takes (_ ∷ rest) = takes rest

abbrev pub IsReading : Op → Type 0
IsReading test = Unit {0}
IsReading take = Unit {0}
IsReading _ = ⊥

pub IsInvoke-IsReading : (op : Op) → IsInvoke op → IsReading op → ⊥
IsInvoke-IsReading (invoke c) i r = r
IsInvoke-IsReading read_start i r = i
IsInvoke-IsReading test i r = i
IsInvoke-IsReading take i r = i
IsInvoke-IsReading compare i r = i
IsInvoke-IsReading ask_tid i r = i
IsInvoke-IsReading ask_own i r = i
IsInvoke-IsReading ask_quantums i r = i
IsInvoke-IsReading ask_total i r = i
IsInvoke-IsReading print i r = i
IsInvoke-IsReading flush i r = i
IsInvoke-IsReading count i r = i
IsInvoke-IsReading (say m) i r = i

pub reading_answer :
    {c : Call} (s : System) (n : ℤ) (op : Op) (f : Frame)
    → IsReading op
    → call_of op f ≡ some c
    → Answers c s n
    → n ≡ pos s.total_quantoms
unfolding call_of
reading_answer {c} s n test f i e a = subst (λ c. Answers c s n) (sym (the_total e)) a
  where
    the_total : some get_total_quantums ≡ some c → get_total_quantums ≡ c
    the_total e = cc
reading_answer {c} s n take f i e a = subst (λ c. Answers c s n) (sym (the_total e)) a
  where
    the_total : some get_total_quantums ≡ some c → get_total_quantums ≡ c
    the_total e = cc
reading_answer {c} s n read_start f i e a = absurd i
reading_answer {c} s n compare f i e a = absurd i
reading_answer {c} s n ask_tid f i e a = absurd i
reading_answer {c} s n ask_own f i e a = absurd i
reading_answer {c} s n ask_quantums f i e a = absurd i
reading_answer {c} s n ask_total f i e a = absurd i
reading_answer {c} s n print f i e a = absurd i
reading_answer {c} s n flush f i e a = absurd i
reading_answer {c} s n count f i e a = absurd i
reading_answer {c} s n (invoke x) f i e a = absurd i
reading_answer {c} s n (say m) f i e a = absurd i

same_spawns : {a b : Call} → some a ≡ some b → spawns b ≡ spawns a
same_spawns {a} {b} e = let same : a ≡ b = cc in ap spawns (sym same)

pub spawns-starts : {c : Call} (op : Op) (f : Frame) → call_of op f ≡ some c → spawns c ≡ starts op
unfolding call_of
spawns-starts read_start f e = same_spawns e
spawns-starts test f e = same_spawns e
spawns-starts take f e = same_spawns e
spawns-starts compare f e = same_spawns e
spawns-starts ask_tid f e = same_spawns e
spawns-starts ask_own f e = same_spawns e
spawns-starts ask_quantums f e = same_spawns e
spawns-starts ask_total f e = same_spawns e
spawns-starts (invoke x) f e = same_spawns e
spawns-starts print f e = absurd (cc)
spawns-starts flush f e = absurd (cc)
spawns-starts count f e = absurd (cc)
spawns-starts (say m) f e = absurd (cc)

-- The frame of the main thread, with `n` threads and `total` quantums.
pub record Rising (n total : ℕ) (f : Frame) : Type 0 where
  pub at : ℕ
  pub at_eq : f.i ≡ pos at
  pub bound : n + pending f.todo ≤ limit (at + counts f.todo)
  pub taking : (takes f.todo ≡ 0) ⊎ ((at ≤ total) × (counts f.todo ≡ 0))

pub record Spawning (n total q : ℕ) (f : Frame) : Type 0 where
  pub main : q ≡ 1 → Rising n total f
  pub other : q ≢ 1 → pending f.todo ≡ 0

-- The condition for a later state.
pub Spawning-later :
    {n total : ℕ} (n' total' q : ℕ) (f : Frame)
    → (q ≡ 1 → n' ≤ n)
    → total ≤ total'
    → Spawning n total q f
    → Spawning n' total' q f
Spawning-later n' total' q f h t o = record {
  main = λ e.
      let m = o.main e in
      record {
        at = m.at;
        at_eq = m.at_eq;
        bound = omega (arith, m.bound, h e);
        taking = elim m.taking [ inl z ↦ inl z | inr (le, z) ↦ inr (omega (arith, le, t), z) ];
      };
  other = o.other;
}

pub limit_mono : (a b : ℕ) → a ≤ b → limit a ≤ limit b
limit_mono a b h = ground (arith, h)

pub limit-suc : (a : ℕ) → limit a + (of_bool (a == 3) + of_bool (a == 11)) ≡ limit (suc a)
limit-suc a = ground arith

pub main_pending :
    (i : ℕ)
    → (pending (ops main_loop (pos i)) ≡ of_bool (i == 3) + of_bool (i == 11))
      × (counts (ops main_loop (pos i)) ≡ 1)
      × (takes (ops main_loop (pos i)) ≡ 0)
unfolding ops
main_pending i = go (i == 3) (i == 11) (i == 14)
  where
    go :
        (a b c : Bool)
        → (pending (
              report (
                when a (invoke (spawn thread1_entry) ∷ [])
                ++ (when b (invoke (spawn thread2_entry) ∷ [])
                    ++ (when c (invoke (block (pos 2)) ∷ say blocked_by_0 ∷ []) ++ count ∷ []))))
            ≡ of_bool a + of_bool b)
          × (counts (
                when a (invoke (spawn thread1_entry) ∷ [])
                ++ (when b (invoke (spawn thread2_entry) ∷ [])
                    ++ (when c (invoke (block (pos 2)) ∷ say blocked_by_0 ∷ []) ++ count ∷ [])))
              ≡ 1)
          × (takes (
                when a (invoke (spawn thread1_entry) ∷ [])
                ++ (when b (invoke (spawn thread2_entry) ∷ [])
                    ++ (when c (invoke (block (pos 2)) ∷ say blocked_by_0 ∷ []) ++ count ∷ [])))
              ≡ 0)
    go true true true = (refl, refl, refl)
    go true true false = (refl, refl, refl)
    go true false true = (refl, refl, refl)
    go true false false = (refl, refl, refl)
    go false true true = (refl, refl, refl)
    go false true false = (refl, refl, refl)
    go false false true = (refl, refl, refl)
    go false false false = (refl, refl, refl)

pub other_pending : (l : Loop) (i : ℤ) → l ≢ main_loop → pending (ops l i) ≡ 0
unfolding ops
other_pending main_loop i n = absurd (n refl)
other_pending thread2_loop i n = refl
other_pending thread1_loop i n = go (eq_ℤ i (pos 25)) (eq_ℤ i (pos 17))
  where
    go :
        (a b : Bool)
        → pending (
            report (
              when a (invoke (resume (pos 2)) ∷ say resumed_by_1 ∷ [])
              ++ (when b (say goes_to_sleep ∷ invoke (sleep (pos 1)) ∷ []) ++ flush ∷ count ∷ [])))
          ≡ 0
    go true true = refl
    go true false = refl
    go false true = refl
    go false false = refl

pub round_Rising :
    {n total : ℕ} (f : Frame)
    → f.loop ≡ main_loop
    → Rising n total (record f { todo = compare ∷ [] })
    → Rising n total (record f { todo = ops f.loop f.i })
round_Rising {n} f l m =
    let same : ops main_loop (pos m.at) ≡ ops f.loop f.i =
      ap (λ x. ops x (pos m.at)) (sym l) ∙ ap (ops f.loop) (sym m.at_eq) in
    let (p, c, t) = main_pending m.at in
    record {
      at = m.at;
      at_eq = m.at_eq;
      bound =
          subst (λ xs. n + pending xs ≤ limit (m.at + counts xs)) same
            (subst (λ k. n + pending (ops main_loop (pos m.at)) ≤ limit (m.at + k)) (sym c)
              (ground (arith, m.bound, p, limit-suc m.at)));
      taking = inl (ap takes (sym same) ∙ t);
    }

-- Whatever the frame of the main thread says of it, there are at most three threads.
pub Rising-le : {n total : ℕ} (f : Frame) → Rising n total f → n ≤ 3
Rising-le f m = ground (arith, m.bound)

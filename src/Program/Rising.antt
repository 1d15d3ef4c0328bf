-- ===== src/Program/Rising.antt =====
-- What each statement of main.cpp does to the number of threads that there can be.
use os_ex.Prelude.{
  ℕ, suc, ◌+◌, ◌≤◌, ◌≡◌, ◌≢◌, ◌⊎◌, inl, inr, refl, sym, ap, subst, ◌∙◌, List, [], ◌∷◌, ℤ, pos, Bool,
  true, false, arith, eq_ℤ, lt_ℤ, if◌then◌else◌, ltb,
}
use os_ex.Checked.{pass}
use os_ex.Sample.{main_loop, thread1_loop, thread2_loop}
use os_ex.Program.Statements.{IsAsking, IsEntry}
use os_ex.Program.Lines.{counts, Own}
use os_ex.Program.{
  Output, Op, read_start, test, take, compare, ask_tid, ask_own, ask_quantums, ask_total, print,
  flush, count, invoke, say, Frame, begin, ops, show_tid, show_quantums, show_total, answered,
  entered, main_frame,
}
use os_ex.Program.Spawns.{
  starts, pending, limit, takes, IsReading, Rising, Spawning, Spawning-later, limit_mono,
  other_pending, round_Rising,
}

module _ {n total q : ℕ} where
  -- A statement that does not touch `i`, and that may start a thread.
  rest_Spawning :
      (op : Op) (rest : List Op) (n' : ℕ) (f g : Frame)
      → g.i ≡ f.i
      → takes (op ∷ rest) ≡ takes rest
      → counts (op ∷ rest) ≡ counts rest
      → n' ≤ n + starts op
      → Spawning n total q (record f { todo = op ∷ rest })
      → Spawning n' total q (record g { todo = rest })
  rest_Spawning op rest n' f g i t c h o = record {
    main = λ z.
        let m = o.main z in
        record {
          at = m.at;
          at_eq = i ∙ m.at_eq;
          bound = subst (λ k. n' + pending rest ≤ limit (m.at + k)) c (omega (arith, m.bound, h));
          taking = elim m.taking [
            | inl h' ↦ inl (sym t ∙ h')
            | inr (le, h') ↦ inr (le, sym c ∙ h')
          ];
        };
    other = λ z. omega (arith, o.other z);
  }

  take_Spawning :
      (rest : List Op) (f : Frame)
      → Spawning n total q (record f { todo = take ∷ rest })
      → Spawning n total q (record f { i = pos total; todo = rest })
  take_Spawning rest f o = record {
    main = λ z.
        let m = o.main z in
        let (le, none_left) = next m.at m.taking in
        record {
          at = total;
          at_eq = refl;
          bound = omega (
            arith,
            m.bound,
            limit_mono (m.at + counts rest) (total + counts rest) (omega (arith, le)),
          );
          taking = inr (omega arith, none_left);
        };
    other = λ z. omega (arith, o.other z);
  }
    where
      next :
          (at : ℕ)
          → (suc (takes rest) ≡ 0) ⊎ ((at ≤ total) × (counts rest ≡ 0))
          → (at ≤ total) × (counts rest ≡ 0)
      next at (inl z) = absurd (omega arith)
      next at (inr h) = h

  tested_Spawning :
      (rest : List Op) (f : Frame) (v : ℤ)
      → v ≡ pos total
      → (q ≡ 1 → rest ≡ [])
      → (b : Bool) → lt_ℤ f.i v ≡ b
      → Spawning n total q (record f { todo = test ∷ rest })
      → Spawning n total q (record f { todo = if b then take ∷ compare ∷ rest else compare ∷ rest })
  tested_Spawning rest f v e last true l o = record {
    main = λ z.
        let m = o.main z in
        record {
          at = m.at;
          at_eq = m.at_eq;
          bound = omega (arith, m.bound);
          taking = inr (below m.at (rw e at (rw m.at_eq at l)), ap counts (last z));
        };
    other = λ z. omega (arith, o.other z);
  }
    where
      below : (at : ℕ) → ltb at total ≡ true → at ≤ total
      below at l = ground (arith, l)
  tested_Spawning rest f v e last false l o = record {
    main = λ z.
        let m = o.main z in
        record {
          at = m.at;
          at_eq = m.at_eq;
          bound = omega (arith, m.bound);
          taking = inl (ap takes (last z));
        };
    other = λ z. omega (arith, o.other z);
  }

  compared_Spawning :
      (rest : List Op) (f : Frame) (b : Bool)
      → (q ≡ 1 → (f.loop ≡ main_loop) × (rest ≡ []))
      → (q ≢ 1 → f.loop ≢ main_loop)
      → Spawning n total q (record f { todo = compare ∷ rest })
      → Spawning n total q (record f { todo = if b then ops f.loop f.i else rest })
  compared_Spawning rest f false last other o =
      rest_Spawning compare rest n f f refl refl refl (omega arith) o
  compared_Spawning rest f true last other o = record {
    main = λ z.
        round_Rising f (last z).0
          (subst (λ xs. Rising n total (record f { todo = compare ∷ xs })) (last z).1 (o.main z));
    other = λ z. other_pending f.loop f.i (other z);
  }

  pub counted-Spawning :
      (rest : List Op) (f : Frame) (i : ℕ) (j : ℤ)
      → f.i ≡ pos i
      → Spawning n total q (record f { todo = count ∷ rest })
      → Spawning n total q (record f { i = pos (suc i); j = j; todo = rest })
  counted-Spawning rest f i j e o = record {
    main = λ z.
        let m = o.main z in
        let same : m.at ≡ i = cc (m.at_eq, e) in
        record {
          at = suc i;
          at_eq = refl;
          bound = omega (arith, m.bound, ap limit (moved m.at i (counts rest) same));
          taking = elim m.taking [ inl h ↦ inl h | inr (le, h) ↦ absurd (omega (arith, h)) ];
        };
    other = λ z. omega (arith, o.other z);
  }
    where
      moved : (at i k : ℕ) → at ≡ i → at + suc k ≡ suc i + k
      moved at i k h = omega (arith, h)

  pub todo_Spawning :
      (f : Frame) (todo : List Op)
      → f.todo ≡ todo
      → Spawning n total q f
      → Spawning n total q (record f { todo = todo })
  todo_Spawning f todo e o = subst (Spawning n total q) (ap (λ t. record f { todo = t }) e) o

  -- A result in the frame that asked for it, when there are `n'` threads.
  pub answered-Spawning :
      {out : List Output} (op : Op) (v : ℤ) (rest : List Op) (f : Frame) (n' : ℕ)
      → IsAsking op
      → Own out q (record f { todo = op ∷ rest })
      → (IsReading op → v ≡ pos total)
      → n' ≤ n + starts op
      → Spawning n total q (record f { todo = op ∷ rest })
      → Spawning n' total q (answered op v rest f)
  unfolding answered
  answered-Spawning read_start v rest f n' a w r h o = record {
    main = λ z. absurd (w.main z).order;
    other = λ z. omega (arith, o.other z);
  }
  answered-Spawning test v rest f n' a w r h o =
      Spawning-later n' total q _ (λ _. omega (arith, h)) (omega arith)
        (tested_Spawning rest f v (r tt) (λ z. (w.main z).order) (lt_ℤ f.i v) refl o)
  answered-Spawning take v rest f n' a w r h o =
      Spawning-later n' total q _ (λ _. omega (arith, h)) (omega arith)
        (subst (λ x. Spawning n total q (record f { i = x; todo = rest })) (sym (r tt))
          (take_Spawning rest f o))
  answered-Spawning compare v rest f n' a w r h o =
      Spawning-later n' total q _ (λ _. omega (arith, h)) (omega arith)
        (compared_Spawning rest f (eq_ℤ f.i v) (λ z. ((w.main z).loop, (w.main z).order)) w.other o)
  answered-Spawning ask_tid v rest f n' a w r h o =
      rest_Spawning ask_tid rest n' f (record f { shown = show_tid v f.shown }) refl refl refl h o
  answered-Spawning ask_own v rest f n' a w r h o =
      rest_Spawning ask_own rest n' f (record f { own = v }) refl refl refl h o
  answered-Spawning ask_quantums v rest f n' a w r h o =
      rest_Spawning ask_quantums rest n' f (record f { shown = show_quantums v f.shown }) refl refl
        refl h o
  answered-Spawning ask_total v rest f n' a w r h o =
      rest_Spawning ask_total rest n' f (record f { shown = show_total v f.shown }) refl refl refl h
        o
  answered-Spawning (invoke c) v rest f n' a w r h o =
      rest_Spawning (invoke c) rest n' f f refl refl refl h o
  answered-Spawning print v rest f n' a w r h o = absurd a
  answered-Spawning flush v rest f n' a w r h o = absurd a
  answered-Spawning count v rest f n' a w r h o = absurd a
  answered-Spawning (say m) v rest f n' a w r h o = absurd a

  pub passed-Spawning :
      (op : Op) (rest : List Op) (f : Frame)
      → takes (op ∷ rest) ≡ takes rest
      → counts (op ∷ rest) ≡ counts rest
      → Spawning n total q (record f { todo = op ∷ rest })
      → Spawning n total q (record f { todo = rest })
  passed-Spawning op rest f t c o = rest_Spawning op rest n f f refl t c (omega arith) o

  pub next-Spawning :
      (f : Frame)
      → Spawning n total q (record f { todo = [] })
      → Spawning n total q (record f { todo = test ∷ [] })
  next-Spawning f o = record {
    main = λ z.
        let m = o.main z in
        record { at = m.at; at_eq = m.at_eq; bound = m.bound; taking = inl refl };
    other = λ z. refl;
  }

  pub entered-Spawning :
      (e : ℕ) (f : Frame) → IsEntry e → q ≢ 1 → entered e ≡ pass f → Spawning n total q f
  unfolding entered
  entered-Spawning e f (inl h) z r =
      let first : begin thread1_loop (pos 300) ≡ f = cc (rw h at r) in
      subst (Spawning n total q) first (record { main = λ y. absurd (z y); other = λ y. refl })
  entered-Spawning e f (inr h) z r =
      let first : begin thread2_loop (pos 200) ≡ f = cc (rw h at r) in
      subst (Spawning n total q) first (record { main = λ y. absurd (z y); other = λ y. refl })

pub main_frame-Spawning : Spawning 1 1 1 main_frame
unfolding main_frame
main_frame-Spawning = record {
  main = λ _. record { at = 1; at_eq = refl; bound = omega arith; taking = inl refl };
  other = λ z. refl;
}

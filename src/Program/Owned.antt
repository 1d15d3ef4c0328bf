-- ===== src/Program/Owned.antt =====
-- What each statement of main.cpp does to what a frame says of the output.
use os_ex.Prelude.{
  ℕ, inl, inr, suc, ◌≡◌, ◌≢◌, refl, sym, ap, subst, ◌∙◌, List, [], ◌∷◌, ℤ, pos, Bool, true, false,
  arith, eq_ℤ, lt_ℤ, if◌then◌else◌,
}
use os_ex.Checked.{pass}
use os_ex.Sample.{Loop, main_loop, thread1_loop, thread2_loop}
use os_ex.Program.Statements.{IsAsking, IsEntry}
use os_ex.Program.{
  Op, read_start, test, take, compare, ask_tid, ask_own, ask_quantums, ask_total, print, flush,
  count, invoke, say, Frame, Output, begin, ops, answered, entered, main_frame,
}
use os_ex.Program.Lines.{IsTid, prints, counts, InOrder, Named, Own, Named-any, ops-Named, main_ops}

module _ {out : List Output} {q : ℕ} where
  pub todo_Own :
      {f : Frame} {todo : List Op}
      → f.todo ≡ todo
      → Own out q f
      → Own out q (record f { todo = todo })
  todo_Own {f} e o = subst (Own out q) (ap (λ t. record f { todo = t }) e) o

  -- A step that leaves the line, the count and the order of what is left.
  pub keep_Own :
      {f : Frame} (f' : Frame)
      → f'.loop ≡ f.loop
      → f'.j ≡ f.j
      → (InOrder f.todo → InOrder f'.todo)
      → counts f'.todo ≡ counts f.todo
      → prints f'.todo ≡ prints f.todo
      → Named (IsTid q) f'.todo f'.shown.tid
      → Own out q f
      → Own out q f'
  keep_Own f' l j order c p n o = record {
    main = λ e.
        let m = o.main e in
        record {
          loop = l ∙ m.loop;
          order = order m.order;
          value = m.value;
          value_eq = j ∙ m.value_eq;
          balance = omega (arith, m.balance, c, p);
        };
    other = λ e h. o.other e (sym l ∙ h);
    named = n;
  }

  tested_Own :
      (b : Bool) (f : Frame) (rest : List Op)
      → Own out q (record f { todo = test ∷ rest })
      → Own out q (record f { todo = if b then take ∷ compare ∷ rest else compare ∷ rest })
  tested_Own true f rest o = keep_Own _ refl refl (λ h. h) refl refl o.named o
  tested_Own false f rest o = keep_Own _ refl refl (λ h. h) refl refl o.named o

  -- A round that prints starts.
  round_Own :
      (f : Frame) (rest : List Op)
      → Own out q (record f { todo = compare ∷ rest })
      → Own out q (record f { todo = ops f.loop f.i })
  round_Own f rest o = record {
    main = λ e.
        let m = o.main e in
        let (p, c, order) = main_ops f.i in
        record {
          loop = m.loop;
          order = subst (λ l. InOrder (ops l f.i)) (sym m.loop) order;
          value = m.value;
          value_eq = m.value_eq;
          balance = ground (
            arith,
            m.balance,
            ap counts m.order,
            ap prints m.order,
            ap (λ l. counts (ops l f.i)) m.loop ∙ c,
            ap (λ l. prints (ops l f.i)) m.loop ∙ p,
          );
        };
    other = o.other;
    named = ops-Named (IsTid q) f.loop f.i f.shown.tid;
  }

  compared_Own :
      (b : Bool) (f : Frame) (rest : List Op)
      → Own out q (record f { todo = compare ∷ rest })
      → Own out q (record f { todo = if b then ops f.loop f.i else rest })
  compared_Own true f rest o = round_Own f rest o
  compared_Own false f rest o =
      keep_Own _ refl refl (λ h. subst InOrder (sym h) tt) refl refl o.named o

  -- A result in the frame that asked for it.
  pub answered-Own :
      (op : Op) (n : ℤ) (rest : List Op) (f : Frame)
      → IsAsking op
      → (op ≡ ask_tid → IsTid q n)
      → Own out q (record f { todo = op ∷ rest })
      → Own out q (answered op n rest f)
  unfolding answered
  answered-Own read_start n rest f a t o = keep_Own _ refl refl (λ h. absurd h) refl refl o.named o
  answered-Own test n rest f a t o = tested_Own (lt_ℤ f.i n) f rest o
  answered-Own take n rest f a t o = keep_Own _ refl refl (λ h. h) refl refl o.named o
  answered-Own compare n rest f a t o = compared_Own (eq_ℤ f.i n) f rest o
  answered-Own ask_tid n rest f a t o =
      keep_Own _ refl refl (λ h. h) refl refl (Named-any (IsTid q) rest n (t refl)) o
  answered-Own ask_own n rest f a t o = keep_Own _ refl refl (λ h. h) refl refl o.named o
  answered-Own ask_quantums n rest f a t o = keep_Own _ refl refl (λ h. h) refl refl o.named o
  answered-Own ask_total n rest f a t o = keep_Own _ refl refl (λ h. h) refl refl o.named o
  answered-Own (invoke c) n rest f a t o = keep_Own _ refl refl (λ h. h) refl refl o.named o
  answered-Own print n rest f a t o = absurd a
  answered-Own flush n rest f a t o = absurd a
  answered-Own count n rest f a t o = absurd a
  answered-Own (say m) n rest f a t o = absurd a

  pub flushed_Own :
      (rest : List Op) (f : Frame)
      → Own out q (record f { todo = flush ∷ rest })
      → Own out q (record f { todo = rest })
  flushed_Own rest f o = keep_Own _ refl refl (λ h. h) refl refl o.named o

  pub next_Own :
      (f : Frame) → Own out q (record f { todo = [] }) → Own out q (record f { todo = test ∷ [] })
  next_Own f o = keep_Own _ refl refl (λ h. refl) refl refl tt o

  -- The count of a round, with the number of the next line.
  pub counted_Own :
      (rest : List Op) (f : Frame) (i : ℤ) (j : ℕ)
      → f.j ≡ pos j
      → Own out q (record f { todo = count ∷ rest })
      → Own out q (record f { i = i; j = pos (suc j); todo = rest })
  counted_Own rest f i j e o = record {
    main = λ h.
        let m = o.main h in
        let same : m.value ≡ j = cc (m.value_eq, e) in
        record {
          loop = m.loop;
          order = m.order;
          value = suc j;
          value_eq = refl;
          balance = omega (arith, m.balance, same);
        };
    other = o.other;
    named = o.named;
  }

  begin-Own : (l : Loop) (j : ℤ) → l ≢ main_loop → q ≢ 1 → Own out q (begin l j)
  begin-Own l j n h = record { main = λ e. absurd (h e); other = λ _. n; named = tt }

  -- A thread that starts is not the main thread.
  pub entered-Own : (e : ℕ) (f : Frame) → IsEntry e → q ≢ 1 → entered e ≡ pass f → Own out q f
  unfolding entered
  entered-Own e f (inl h) n r =
      let first : begin thread1_loop (pos 300) ≡ f = cc (rw h at r) in
      subst (Own out q) first (begin-Own thread1_loop (pos 300) (λ z. cc) n)
  entered-Own e f (inr h) n r =
      let first : begin thread2_loop (pos 200) ≡ f = cc (rw h at r) in
      subst (Own out q) first (begin-Own thread2_loop (pos 200) (λ z. cc) n)

pub main_frame-Own : Own [] 1 main_frame
unfolding main_frame
main_frame-Own = record {
  main = λ _. record { loop = refl; order = tt; value = 100; value_eq = refl; balance = refl };
  other = λ n. absurd (n refl);
  named = tt;
}

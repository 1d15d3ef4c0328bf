-- ===== src/Program/Printed.antt =====
-- What a line or a message of main.cpp does to the output and to what the frames say of it.
use mathlib.Core.List.{append-nil}
use os_ex.Prelude.{
  ℕ, ℕ_discrete, zero, suc, ◌+◌, ◌≡◌, ◌≢◌, refl, sym, ap, ◌∙◌, List, [], ◌∷◌, ◌++◌, ℤ, pos, arith,
  length, length-append,
}
use os_ex.Sample.{Loop, main_loop, thread1_loop, thread2_loop, Shown, Message}
use os_ex.Program.{Op, print, say, Frame, Output, line, said}
use os_ex.Program.Lines.{main_lines, numbered, AreApart, Told, Own}
use os_ex.Program.Owned.{keep_Own}

-- What another thread prints does not matter, unless it is a line of the main loop.
pub other_Own :
    {out : List Output} (out' : List Output) (q : ℕ) (f : Frame)
    → (q ≡ 1 → length (main_lines out') ≡ length (main_lines out))
    → Own out q f
    → Own out' q f
other_Own out' q f h o = record {
  main = λ e.
      let m = o.main e in
      record {
        loop = m.loop;
        order = m.order;
        value = m.value;
        value_eq = m.value_eq;
        balance = omega (arith, m.balance, h e);
      };
  other = o.other;
  named = o.named;
}

main_lines-append :
    (out more : List Output) → main_lines (out ++ more) ≡ main_lines out ++ main_lines more
main_lines-append [] more = refl
main_lines-append (line main_loop s j ∷ out) more =
    ap (λ ls. (s.tid, j) ∷ ls) (main_lines-append out more)
main_lines-append (line thread1_loop s j ∷ out) more = main_lines-append out more
main_lines-append (line thread2_loop s j ∷ out) more = main_lines-append out more
main_lines-append (said m ∷ out) more = main_lines-append out more

AreApart-append : (out more : List Output) → AreApart out → AreApart more → AreApart (out ++ more)
AreApart-append [] more a b = b
AreApart-append (line main_loop s j ∷ out) more a b = AreApart-append out more a b
AreApart-append (line thread1_loop s j ∷ out) more (n, a) b = (n, AreApart-append out more a b)
AreApart-append (line thread2_loop s j ∷ out) more (n, a) b = (n, AreApart-append out more a b)
AreApart-append (said m ∷ out) more a b = AreApart-append out more a b

numbered-snoc : (n k : ℕ) → numbered n k ++ (pos 0, pos (k + n)) ∷ [] ≡ numbered (suc n) k
numbered-snoc zero k = ap (λ m. (pos 0, pos m) ∷ []) (omega arith)
numbered-snoc (suc n) k =
    ap (λ ls. (pos 0, pos k) ∷ ls)
      (ap (λ m. numbered n (suc k) ++ (pos 0, pos m) ∷ []) (omega arith) ∙ numbered-snoc n (suc k))

silent :
    (out : List Output) (o : Output)
    → main_lines (o ∷ []) ≡ []
    → main_lines (out ++ o ∷ []) ≡ main_lines out
silent out o e =
    main_lines-append out (o ∷ []) ∙ ap (λ ls. main_lines out ++ ls) e ∙ append-nil (main_lines out)

is_silent : (l : Loop) (s : Shown) (j : ℤ) → l ≢ main_loop → main_lines (line l s j ∷ []) ≡ []
is_silent main_loop s j n = absurd (n refl)
is_silent thread1_loop s j n = refl
is_silent thread2_loop s j n = refl

still_Told :
    (out : List Output) (o : Output)
    → main_lines (o ∷ []) ≡ []
    → AreApart (o ∷ [])
    → Told out
    → Told (out ++ o ∷ [])
still_Told out o e a t = record {
  count_up =
      silent out o e ∙ t.count_up ∙ ap (λ ls. numbered (length ls) 100) (sym (silent out o e));
  apart = AreApart-append out (o ∷ []) t.apart a;
}

pub said_silent :
    (out : List Output) (m : Message)
    → length (main_lines (out ++ said m ∷ [])) ≡ length (main_lines out)
said_silent out m = ap length (silent out (said m) refl)

pub said_Told : (out : List Output) (m : Message) → Told out → Told (out ++ said m ∷ [])
said_Told out m t = still_Told out (said m) refl tt t

shows_main :
    (l : Loop) (s : Shown) (j : ℤ) → l ≡ main_loop → main_lines (line l s j ∷ []) ≡ (s.tid, j) ∷ []
shows_main main_loop s j e = refl
shows_main thread1_loop s j e = absurd (cc)
shows_main thread2_loop s j e = absurd (cc)

line-AreApart :
    (l : Loop) (s : Shown) (j : ℤ) → (l ≢ main_loop → s.tid ≢ pos 0) → AreApart (line l s j ∷ [])
line-AreApart main_loop s j h = tt
line-AreApart thread1_loop s j h = (h (λ e. cc), tt)
line-AreApart thread2_loop s j h = (h (λ e. cc), tt)

-- The line of the frame `f` at `q`.
module _ (out : List Output) (q : ℕ) (f : Frame) (rest : List Op)
    (o : Own out q (record f { todo = print ∷ rest })) where
  abbrev pub with_line : List Output
  with_line = out ++ line f.loop f.shown f.j ∷ []

  others_silent : q ≢ 1 → main_lines with_line ≡ main_lines out
  others_silent n = silent out _ (is_silent f.loop f.shown f.j (o.other n))

  abbrev so_far : ℕ
  so_far = length (main_lines out)

  -- The line of the main thread has the next number.
  main_line : q ≡ 1 → main_lines with_line ≡ main_lines out ++ (pos 0, pos (100 + so_far)) ∷ []
  main_line e =
      let m = o.main e in
      let next : f.j ≡ pos (100 + so_far) =
        m.value_eq ∙ ap pos (omega (arith, m.balance, m.order.0, m.order.1)) in
      main_lines-append out _
      ∙ ap (λ ls. main_lines out ++ ls)
          (shows_main f.loop f.shown f.j m.loop
            ∙ ap (λ n. (n, f.j) ∷ []) (o.named.0.0 e)
            ∙ ap (λ n. (pos 0, n) ∷ []) next)

  one_more : q ≡ 1 → length (main_lines with_line) ≡ suc so_far
  one_more e = ap length (main_line e) ∙ length-append (main_lines out) _ ∙ omega arith

  pub line_Told : Told out → Told with_line
  line_Told t = elim (ℕ_discrete q 1) [
    | yes e ↦ record {
      count_up =
          main_line e
          ∙ ap (λ ls. ls ++ (pos 0, pos (100 + so_far)) ∷ []) t.count_up
          ∙ numbered-snoc so_far 100
          ∙ ap (λ n. numbered n 100) (sym (one_more e));
      apart =
          AreApart-append out _ t.apart
            (line-AreApart f.loop f.shown f.j (λ n. absurd (n (o.main e).loop)));
    }
    | no n ↦
        still_Told out _ (is_silent f.loop f.shown f.j (o.other n))
          (line-AreApart f.loop f.shown f.j (λ _. o.named.0.1 n)) t
  ]

  pub line_Own : Own with_line q (record f { todo = rest })
  line_Own = record {
    main = λ e.
        let m = o.main e in
        record {
          loop = m.loop;
          order = m.order.2;
          value = m.value;
          value_eq = m.value_eq;
          balance = omega (arith, m.balance, one_more e);
        };
    other = o.other;
    named = o.named.1;
  }

  pub line_others :
      (p : ℕ) → p ≢ q → p ≡ 1 → length (main_lines with_line) ≡ length (main_lines out)
  line_others p n e = ap length (others_silent (λ z. n (e ∙ sym z)))

-- A message of the frame at `q`.
pub said_Own :
    (out : List Output) (q : ℕ) (f : Frame) (m : Message) (rest : List Op)
    → Own out q (record f { todo = say m ∷ rest })
    → Own (out ++ said m ∷ []) q (record f { todo = rest })
said_Own out q f m rest o =
    other_Own (out ++ said m ∷ []) q _ (λ _. said_silent out m)
      (keep_Own (record f { todo = rest }) refl refl (λ h. h) refl refl o.named o)

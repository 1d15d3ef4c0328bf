-- ===== src/Program/Lines.antt =====
-- What main.cpp prints: the lines of the main thread count up, and each line has the id of its thread.
use os_ex.Prelude.{
  ℕ, zero, suc, ◌+◌, ◌≡◌, ◌≢◌, refl, List, [], ◌∷◌, ◌++◌, ℤ, pos, Bool, true, false, eq_ℤ, length,
}
use os_ex.Sample.{
  Loop, main_loop, thread1_loop, thread2_loop, thread1_entry, thread2_entry, blocked_by_0,
}
use os_ex.Uthreads.{spawn, block}
use os_ex.Program.{
  Op, read_start, test, take, compare, ask_tid, ask_own, ask_quantums, ask_total, print, flush,
  count, invoke, say, Frame, Output, line, said, ops, when,
}

-- The id and the number that the lines of the main thread's loop show.
abbrev pub main_lines : List Output → List (ℤ × ℤ)
main_lines [] = []
main_lines (line main_loop s j ∷ out) = (s.tid, j) ∷ main_lines out
main_lines (line thread1_loop s j ∷ out) = main_lines out
main_lines (line thread2_loop s j ∷ out) = main_lines out
main_lines (said m ∷ out) = main_lines out

abbrev pub numbered : ℕ → ℕ → List (ℤ × ℤ)
numbered zero k = []
numbered (suc n) k = (pos 0, pos k) ∷ numbered n (suc k)

-- The lines of the other two loops do not show the main thread's id.
abbrev pub AreApart : List Output → Type 0
AreApart [] = Unit {0}
AreApart (line main_loop s j ∷ out) = AreApart out
AreApart (line thread1_loop s j ∷ out) = (s.tid ≢ pos 0) × AreApart out
AreApart (line thread2_loop s j ∷ out) = (s.tid ≢ pos 0) × AreApart out
AreApart (said m ∷ out) = AreApart out

pub record Told (out : List Output) : Type 0 where
  pub count_up : main_lines out ≡ numbered (length (main_lines out)) 100
  pub apart : AreApart out

abbrev pub prints : List Op → ℕ
prints [] = 0
prints (print ∷ rest) = suc (prints rest)
prints (_ ∷ rest) = prints rest

abbrev pub counts : List Op → ℕ
counts [] = 0
counts (count ∷ rest) = suc (counts rest)
counts (_ ∷ rest) = counts rest

-- In a round of the main thread, the line comes before the count, and the tests end what is left.
abbrev pub InOrder : List Op → Type 0
InOrder [] = Unit {0}
InOrder (print ∷ rest) = (prints rest ≡ 0) × (counts rest ≡ 1) × InOrder rest
InOrder (test ∷ rest) = rest ≡ []
InOrder (read_start ∷ rest) = ⊥
InOrder (compare ∷ rest) = rest ≡ []
InOrder (_ ∷ rest) = InOrder rest

-- The id that a line is going to show.
abbrev pub Named : (ℤ → Type 0) → List Op → ℤ → Type 0
Named P [] n = Unit {0}
Named P (ask_tid ∷ rest) n = Unit {0}
Named P (print ∷ rest) n = P n × Named P rest n
Named P (_ ∷ rest) n = Named P rest n

-- The id of the thread at `q`.
abbrev pub IsTid : ℕ → ℤ → Type 0
IsTid q n = (q ≡ 1 → n ≡ pos 0) × (q ≢ 1 → n ≢ pos 0)

pub record Main (out : List Output) (f : Frame) : Type 0 where
  pub loop : f.loop ≡ main_loop
  pub order : InOrder f.todo
  pub value : ℕ
  pub value_eq : f.j ≡ pos value
  pub balance : value + counts f.todo ≡ (100 + length (main_lines out)) + prints f.todo

-- The frame of the thread at `q`, where the process has printed `out`.
pub record Own (out : List Output) (q : ℕ) (f : Frame) : Type 0 where
  pub main : q ≡ 1 → Main out f
  pub other : q ≢ 1 → f.loop ≢ main_loop
  pub named : Named (IsTid q) f.todo f.shown.tid

pub Named-any : (P : ℤ → Type 0) (todo : List Op) (n : ℤ) → P n → Named P todo n
Named-any P [] n h = tt
Named-any P (read_start ∷ rest) n h = Named-any P rest n h
Named-any P (test ∷ rest) n h = Named-any P rest n h
Named-any P (take ∷ rest) n h = Named-any P rest n h
Named-any P (compare ∷ rest) n h = Named-any P rest n h
Named-any P (ask_tid ∷ rest) n h = tt
Named-any P (ask_own ∷ rest) n h = Named-any P rest n h
Named-any P (ask_quantums ∷ rest) n h = Named-any P rest n h
Named-any P (ask_total ∷ rest) n h = Named-any P rest n h
Named-any P (print ∷ rest) n h = (h, Named-any P rest n h)
Named-any P (flush ∷ rest) n h = Named-any P rest n h
Named-any P (count ∷ rest) n h = Named-any P rest n h
Named-any P (invoke c ∷ rest) n h = Named-any P rest n h
Named-any P (say m ∷ rest) n h = Named-any P rest n h

pub ops-Named : (P : ℤ → Type 0) (l : Loop) (i n : ℤ) → Named P (ops l i) n
unfolding ops
ops-Named P main_loop i n = tt
ops-Named P thread1_loop i n = tt
ops-Named P thread2_loop i n = tt

-- A printing round of the main thread has one line and one count, in this order.
pub main_ops :
    (i : ℤ)
    → (prints (ops main_loop i) ≡ 1) × (counts (ops main_loop i) ≡ 1) × InOrder (ops main_loop i)
unfolding ops
main_ops i = go (eq_ℤ i (pos 3)) (eq_ℤ i (pos 11)) (eq_ℤ i (pos 14))
  where
    go :
        (a b c : Bool)
        → (prints (
              print
              ∷ (when a (invoke (spawn thread1_entry) ∷ [])
                  ++ (when b (invoke (spawn thread2_entry) ∷ [])
                      ++ (when c (invoke (block (pos 2)) ∷ say blocked_by_0 ∷ []) ++ count ∷ []))))
            ≡ 1)
          × (counts (
                when a (invoke (spawn thread1_entry) ∷ [])
                ++ (when b (invoke (spawn thread2_entry) ∷ [])
                    ++ (when c (invoke (block (pos 2)) ∷ say blocked_by_0 ∷ []) ++ count ∷ [])))
              ≡ 1)
          × InOrder (
              print
              ∷ (when a (invoke (spawn thread1_entry) ∷ [])
                  ++ (when b (invoke (spawn thread2_entry) ∷ [])
                      ++ (when c (invoke (block (pos 2)) ∷ say blocked_by_0 ∷ []) ++ count ∷ []))))
    go true true true = (refl, refl, (refl, refl, tt))
    go true true false = (refl, refl, (refl, refl, tt))
    go true false true = (refl, refl, (refl, refl, tt))
    go true false false = (refl, refl, (refl, refl, tt))
    go false true true = (refl, refl, (refl, refl, tt))
    go false true false = (refl, refl, (refl, refl, tt))
    go false false true = (refl, refl, (refl, refl, tt))
    go false false false = (refl, refl, (refl, refl, tt))

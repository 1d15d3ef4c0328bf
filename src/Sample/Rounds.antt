-- ===== src/Sample/Rounds.antt =====
-- The loops of main.cpp, round by round.
use os_ex.Prelude.{
  ℕ, zero, suc, ◌+◌, ◌≤◌, ◌<◌, ◌≡◌, refl, inl, inr, List, [], ◌∷◌, ◌++◌, Bool, false, pos, ◌==◌,
  ◌||◌, length, arith, Bool-cases,
}
use os_ex.Checked.{pass, int_max}
use os_ex.Uthreads.{spawn, block}
use os_ex.Sample.{
  Loop, Shown, Print, quantums, printed_j, Locals, Readings, catch_up, round, rounds, print_round,
  calls_at, main_calls, also, thread1_entry, thread2_entry,
}

-- The total of quantums does not fall from one reading to the next, and stays below the largest int.
abbrev pub IsSteady : ℕ → List Readings → Type 0
IsSteady t [] = Unit {0}
IsSteady t (r ∷ rest) =
    (t ≤ r.tested)
    × (r.tested ≤ r.taken)
    × (r.taken ≤ r.compared)
    × (r.compared < int_max)
    × IsSteady r.compared rest

-- Each member is above the ones before it, and the first is at least `a`.
abbrev pub IsRising : ℕ → List ℕ → Type 0
IsRising a [] = Unit {0}
IsRising a (x ∷ xs) = (a ≤ x) × IsRising (suc x) xs

-- One round prints for no quantum before `i`, and at most once.
round_lem :
    (loop : Loop) (r : Readings) (l : Locals) (t : ℕ)
    → t ≤ r.tested
    → r.tested ≤ r.taken
    → r.taken ≤ r.compared
    → r.compared < int_max
    → l.i ≤ suc t
    → l.j < int_max
    → (l' : Locals) × (printed : List Print) × (round loop r l ≡ pass (l', printed))
      × (l'.i ≤ suc r.compared)
      × (l'.j ≤ suc l.j)
      × ((rest : List Print)
          → IsRising l'.i (quantums rest)
          → IsRising l.i (quantums (printed ++ rest)))
unfolding round print_round
round_lem loop r l t a b c d e f = elim (Bool-cases (catch_up r l.i == r.compared)) [
  | inl h ↦ (
    record { i = suc (catch_up r l.i); j = suc l.j },
    record { i = catch_up r l.i; j = printed_j loop l.j; shown = r.shown } ∷ [],
    ground (arith, h),
    ground (arith, h),
    omega arith,
    λ rest k. (ground (arith, h), k),
  )
  | inr h ↦ (
    record { i = catch_up r l.i; j = l.j },
    [],
    ground (arith, h),
    ground (arith, h),
    omega arith,
    λ rest k. weaken (quantums rest) (ground arith) k,
  )
]
  where
    weaken : {m n : ℕ} (rest : List ℕ) → m ≤ n → IsRising n rest → IsRising m rest
    weaken [] h k = tt
    weaken (x ∷ rest) h k = (omega (arith, h, k.0), k.1)

-- In main.cpp, where the readings of the total do not fall and stay below the largest int, `i` is
-- at most one above the last reading, and `j` plus the number of rounds is at most the largest
-- int, the rounds of a loop meet no overflow and print for each quantum at most once, in rising
-- order from `i`.
pub rounds-IsRising :
    (loop : Loop) (rs : List Readings) (l : Locals) (t : ℕ)
    → IsSteady t rs
    → l.i ≤ suc t
    → l.j + length rs ≤ int_max
    → (l' : Locals) × (printed : List Print) × (rounds loop rs l ≡ pass (l', printed))
      × IsRising l.i (quantums printed)
unfolding rounds
rounds-IsRising loop [] l t s h k = (l, [], refl, tt)
rounds-IsRising loop (r ∷ rs) l t (a, b, c, d, s) h k =
    let (l1, first, runs, i, j, rising) = round_lem loop r l t a b c d h (omega arith) in
    let (l2, more, runs', rising') = rounds-IsRising loop rs l1 r.compared s i (omega arith) in
    (l2, first ++ more, rw runs (rw runs'), rising more rising')

abbrev still : Shown → ℕ → Readings
still shown t = record { tested = t; taken = t; compared = t; shown = shown }

-- Rounds in which no quantum starts.
unfoldable still_rounds : Shown → ℕ → ℕ → List Readings
still_rounds shown zero t = []
still_rounds shown (suc k) t = still shown t ∷ still_rounds shown k t

idle_round :
    (loop : Loop) (shown : Shown) (t j : ℕ)
    → round loop (still shown t) (record { i = suc t; j = j })
      ≡ pass (record { i = suc t; j = j }, [])
unfolding round
idle_round loop shown t j = ground arith

idle_rounds :
    (loop : Loop) (shown : Shown) (k t j : ℕ)
    → rounds loop (still_rounds shown k t) (record { i = suc t; j = j })
      ≡ pass (record { i = suc t; j = j }, [])
unfolding rounds still_rounds
idle_rounds loop shown zero t j = refl
idle_rounds loop shown (suc k) t j =
    rw (idle_round loop shown t j) (rw (idle_rounds loop shown k t j))

first_round :
    (loop : Loop) (shown : Shown) (t : ℕ) (l : Locals)
    → l.i ≤ t
    → t < int_max
    → l.j < int_max
    → round loop (still shown t) l
      ≡ pass (
        record { i = suc t; j = suc l.j },
        record { i = t; j = printed_j loop l.j; shown = shown } ∷ [],
      )
unfolding round print_round
first_round loop shown t l h a b = ground arith

-- In main.cpp, while no quantum starts, with `i` at most the total and the total and `j` below
-- the largest int, one or more rounds of a loop print once, for the present quantum, and leave
-- `i` one above it and `j` one higher.
rounds-still_rounds :
    (loop : Loop) (shown : Shown) (k t : ℕ) (l : Locals)
    → l.i ≤ t
    → t < int_max
    → l.j < int_max
    → rounds loop (still_rounds shown (suc k) t) l
      ≡ pass (
        record { i = suc t; j = suc l.j },
        record { i = t; j = printed_j loop l.j; shown = shown } ∷ [],
      )
unfolding rounds still_rounds
rounds-still_rounds loop shown k t l h a b =
    rw (first_round loop shown t l h a b) (rw (idle_rounds loop shown k t (suc l.j)))

-- Whether a quantum is among those.
unfoldable pub has : ℕ → List ℕ → Bool
has q [] = false
has q (x ∷ xs) = (x == q) || has q xs

pub has_above : (q a : ℕ) (xs : List ℕ) → IsRising a xs → q < a → has q xs ≡ false
unfolding has
has_above q a [] r h = refl
has_above q a (x ∷ xs) r h = ground (arith, has_above q (suc x) xs)

-- The main thread of main.cpp, printing for quantums in rising order, spawns the first thread if
-- 3 is among them, the second if 11 is, and blocks thread 2 if 14 is, each once and in this
-- order.
pub calls_at-main_calls :
    (a : ℕ) (printed : List ℕ)
    → IsRising a printed
    → calls_at main_calls printed
      ≡ also (has 3 printed) (spawn thread1_entry)
        ++ (also (has 11 printed) (spawn thread2_entry) ++ also (has 14 printed) (block (pos 2)))
unfolding calls_at main_calls has
calls_at-main_calls a [] r = refl
calls_at-main_calls a (x ∷ xs) r = rw (calls_at-main_calls (suc x) xs r.1) (
    ground
      (arith, has_above 3 (suc x) xs r.1, has_above 11 (suc x) xs r.1, has_above 14 (suc x) xs r.1))

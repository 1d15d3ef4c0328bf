-- ===== src/Sample.antt =====
-- main.cpp: three threads that try the library, each an endless loop of one form. `i` is the next
-- quantum for which the thread prints, `j` the count of its prints.
pub mod Rounds
pub mod Effects
use os_ex.Prelude.{ℕ, suc, Bool, true, false, List, [], ◌∷◌, ◌++◌, ℤ, pos, ltb, ◌==◌, if◌then◌else◌}
use os_ex.Checked.{Checked, pass, ◌>>=◌, increment}
use os_ex.Uthreads.{Call, spawn, block, resume, sleep}

pub record Locals : Type 0 where
  pub i : ℕ
  pub j : ℕ

-- What a line shows of the library: the results of `uthread_get_tid`, `uthread_get_quantums` and
-- `uthread_get_total_quantums`.
pub record Shown : Type 0 where
  pub tid : ℤ
  pub quantums : ℤ
  pub total : ℤ

-- What the calls in one round return: the total of quantums at its three places, and what its line
-- shows, if it prints one.
pub record Readings : Type 0 where
  pub tested : ℕ
  pub taken : ℕ
  pub compared : ℕ
  pub shown : Shown

pub data Loop : Type 0 where
  main_loop thread1_loop thread2_loop : Loop

-- A line that is printed for the quantum `i`.
pub record Print : Type 0 where
  pub i : ℕ
  pub j : ℕ
  pub shown : Shown

abbrev pub quantums : List Print → List ℕ
quantums [] = []
quantums (p ∷ ps) = p.i ∷ quantums ps

-- The functions that the main thread spawns, as addresses.
abbrev pub thread1_entry : ℕ
thread1_entry = 1

abbrev pub thread2_entry : ℕ
thread2_entry = 2

abbrev pub also : Bool → Call → List Call
also true c = c ∷ []
also false c = []

-- The calls that a thread makes once it has printed for the quantum `i`.
unfoldable pub thread1_calls : ℕ → List Call
thread1_calls i = also (i == 25) (resume (pos 2)) ++ also (i == 17) (sleep (pos 1))

unfoldable pub thread2_calls : ℕ → List Call
thread2_calls i = []

unfoldable pub main_calls : ℕ → List Call
main_calls i =
    also (i == 3) (spawn thread1_entry)
    ++ (also (i == 11) (spawn thread2_entry) ++ also (i == 14) (block (pos 2)))

-- What a thread starts with.
abbrev pub thread1_start : ℕ → Locals
thread1_start total = record { i = total; j = 300 }

abbrev pub thread2_start : ℕ → Locals
thread2_start total = record { i = total; j = 200 }

abbrev pub main_start : Locals
main_start = record { i = 1; j = 100 }

-- The first test of a round.
abbrev pub catch_up : Readings → ℕ → ℕ
catch_up r i = if ltb i r.tested then r.taken else i

-- The `j` of the line: the second thread prints when it has counted.
abbrev pub printed_j : Loop → ℕ → ℕ
printed_j main_loop j = j
printed_j thread1_loop j = j
printed_j thread2_loop j = suc j

-- The rest of a round that prints.
unfoldable pub print_round : Loop → Shown → ℕ → ℕ → Checked (Locals × List Print)
print_round loop shown i j = do
  i' ← increment i
  j' ← increment j
  pass (record { i = i'; j = j' }, record { i = i; j = printed_j loop j; shown = shown } ∷ [])

unfoldable pub round : Loop → Readings → Locals → Checked (Locals × List Print)
unfolding print_round
round loop r l =
    let i = catch_up r l.i in
    if i == r.compared then print_round loop r.shown i l.j else pass (record { i = i; j = l.j }, [])

-- Rounds in a row, with all that they print.
unfoldable pub rounds : Loop → List Readings → Locals → Checked (Locals × List Print)
unfolding round
rounds loop [] l = pass (l, [])
rounds loop (r ∷ rest) l = do
  first ← round loop r l
  more ← rounds loop rest first.0
  pass (more.0, first.1 ++ more.1)

-- The calls that the thread makes for those quantums.
unfoldable pub calls_at : (ℕ → List Call) → List ℕ → List Call
calls_at calls [] = []
calls_at calls (i ∷ rest) = calls i ++ calls_at calls rest

pub data Message : Type 0 where
  resumed_by_1 goes_to_sleep blocked_by_0 : Message

-- What a program does, in order.
pub data Effect : Type 0 where
  initializes : ℤ → Effect
  prints : Loop → Print → Effect
  says : Message → Effect
  calls : Call → Effect
  flushes : Effect

abbrev pub when : Bool → List Effect → List Effect
when true es = es
when false es = []

-- A round that prints, from its `printf` on.
unfoldable pub body : Loop → Print → List Effect
body main_loop p =
    prints main_loop p ∷ when (p.i == 3) (calls (spawn thread1_entry) ∷ [])
    ++ (when (p.i == 11) (calls (spawn thread2_entry) ∷ [])
        ++ when (p.i == 14) (calls (block (pos 2)) ∷ says blocked_by_0 ∷ []))
body thread1_loop p =
    prints thread1_loop p ∷ when (p.i == 25) (calls (resume (pos 2)) ∷ says resumed_by_1 ∷ [])
    ++ (when (p.i == 17) (says goes_to_sleep ∷ calls (sleep (pos 1)) ∷ []) ++ flushes ∷ [])
body thread2_loop p = prints thread2_loop p ∷ flushes ∷ []

unfoldable pub bodies : Loop → List Print → List Effect
bodies loop [] = []
bodies loop (p ∷ ps) = body loop p ++ bodies loop ps

-- The three functions, for as many rounds as there are readings; `total` is what the first call of
-- `uthread_get_total_quantums` returns.
unfoldable pub thread1 : ℕ → List Readings → Checked (List Effect)
unfolding rounds bodies
thread1 total rs =
    rounds thread1_loop rs (thread1_start total) >>= λ r. pass (bodies thread1_loop r.1)

unfoldable pub thread2 : ℕ → List Readings → Checked (List Effect)
unfolding rounds bodies
thread2 total rs =
    rounds thread2_loop rs (thread2_start total) >>= λ r. pass (bodies thread2_loop r.1)

unfoldable pub main : List Readings → Checked (List Effect)
unfolding rounds bodies
main rs =
    rounds main_loop rs main_start >>= λ r. pass (initializes (pos 100000) ∷ bodies main_loop r.1)

-- ===== src/Examples/Programs.antt =====
-- The theorems on utils.h and main.cpp at concrete values.
use Prim.Native.Nat.{◌^◌}
use os_ex.Prelude.{ℕ, ◌+◌, ◌≤◌, ◌<◌, ◌≡◌, List, [], ◌∷◌, ◌++◌, pos, arith}
use os_ex.Checked.{pass}
use os_ex.Uthreads.{spawn, block}
use os_ex.Address.{translate_address, entry_words, stack_size, address_size}
use os_ex.Address.Words.{restore_address, restore-translate_address, entry_words_lem}
use os_ex.Sample.{
  Locals, Readings, Shown, Print, Effect, quantums, rounds, main_loop, main_start, main, also,
  thread1_entry, thread2_entry,
}
use os_ex.Sample.Rounds.{IsSteady, IsRising, has, rounds-IsRising}
use os_ex.Sample.Effects.{calls_of, printed_of, main-calls_of}

restore-translate_address_example :
    (translate_address 0x1234_5678_9abc_def0 0x40_1136 < 2 ^ 64)
    × (restore_address 17 47 0x1234_5678_9abc_def0
          (translate_address 0x1234_5678_9abc_def0 0x40_1136)
        ≡ 0x40_1136)
restore-translate_address_example =
    restore-translate_address 0x1234_5678_9abc_def0 0x40_1136 (omega arith) (omega arith)

entry_words_lem_example :
    (pc sp : ℕ) × (entry_words 0x1234_5678_9abc_def0 0x40_1136 0x55_0000 ≡ (pc, sp))
    × (restore_address 17 47 0x1234_5678_9abc_def0 pc ≡ 0x40_1136)
    × (0x55_0000 ≤ restore_address 17 47 0x1234_5678_9abc_def0 sp)
    × (restore_address 17 47 0x1234_5678_9abc_def0 sp + address_size ≡ 0x55_0000 + stack_size)
entry_words_lem_example =
    entry_words_lem 0x1234_5678_9abc_def0 0x40_1136 0x55_0000 (omega arith) (omega arith)
      (omega arith)

abbrev shown : Shown
shown = record { tid = pos 0; quantums = pos 2; total = pos 3 }

-- A quantum starts between the first and the second call of a round, and another after that round.
abbrev busy_rounds : List Readings
busy_rounds =
    record { tested = 2; taken = 3; compared = 3; shown = shown }
    ∷ record { tested = 3; taken = 3; compared = 3; shown = shown }
    ∷ record { tested = 4; taken = 4; compared = 5; shown = shown }
    ∷ []

busy_rounds-IsSteady : IsSteady 1 busy_rounds
busy_rounds-IsSteady = (
  omega arith,
  omega arith,
  omega arith,
  omega arith,
  (
    omega arith,
    omega arith,
    omega arith,
    omega arith,
    (omega arith, omega arith, omega arith, omega arith, tt),
  ),
)

rounds-IsRising_example :
    (l' : Locals) × (printed : List Print) × (rounds main_loop busy_rounds main_start
      ≡ pass (l', printed))
    × IsRising 1 (quantums printed)
rounds-IsRising_example =
    rounds-IsRising main_loop busy_rounds main_start 1 busy_rounds-IsSteady (omega arith)
      (omega arith)

main-calls_of_example :
    (es : List Effect) × (main busy_rounds ≡ pass es)
    × IsRising 1 (printed_of es)
    × (calls_of es
        ≡ also (has 3 (printed_of es)) (spawn thread1_entry)
          ++ (also (has 11 (printed_of es)) (spawn thread2_entry)
              ++ also (has 14 (printed_of es)) (block (pos 2))))
main-calls_of_example = main-calls_of busy_rounds busy_rounds-IsSteady (omega arith)

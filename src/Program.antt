-- ===== src/Program.antt =====
-- main.cpp on the library of uthreads.cpp: the three functions, statement by statement, on the stacks
-- of the threads that the scheduler runs, with the timer's signal between any two statements.
pub mod Places
pub mod Outcomes
pub mod Calls
pub mod Statements
pub mod Frames
pub mod Lines
pub mod Owned
pub mod Printed
pub mod Spawns
pub mod Rising
pub mod Good
pub mod Landed
pub mod Called
pub mod Safe
pub mod Runs
use os_ex.Prelude.{
  ℕ, zero, suc, List, [], ◌∷◌, ◌++◌, Option, none, some, Bool, true, false, ℤ, pos, negsuc, eq_ℤ,
  lt_ℤ, ltb, ◌==◌, if◌then◌else◌, update,
}
use os_ex.Checked.{
  Checked, pass, fail, Fault, bad_pointer, bad_context, int_max, overflow, ◌>>=◌, increment_ℤ,
}
use os_ex.Machine.{System, Os, Result, returns, jumps, exits, aborts, bind}
use os_ex.Uthreads.{
  Call, spawn, block, resume, sleep, get_tid, get_total_quantums, get_quantums, Seen, enters,
  returned, interrupted, step_call, step_tick, InitResult, initialized, uthread_init, absent,
}
use os_ex.Sample.{
  Loop, main_loop, thread1_loop, thread2_loop, Shown, Message, resumed_by_1, goes_to_sleep,
  blocked_by_0, thread1_entry, thread2_entry,
}

-- A statement, or the part of one up to the next call of the library. The arguments of `printf` are
-- computed from left to right; `own` is the inner call of `uthread_get_tid`.
pub data Op : Type 0 where
  read_start test take compare ask_tid ask_own ask_quantums ask_total print flush count : Op
  invoke : Call → Op
  say : Message → Op

-- The locals on a stack, and what is left of the round.
pub record Frame : Type 0 where
  pub loop : Loop
  pub i : ℤ
  pub j : ℤ
  pub shown : Shown
  pub own : ℤ
  pub todo : List Op

pub data Output : Type 0 where
  line : Loop → Shown → ℤ → Output
  said : Message → Output

-- A frame is kept under the object on whose stack it is.
pub record Process : Type 0 where
  pub system : System
  pub frames : ℕ → Option Frame
  pub printed : List Output

abbrev pub when : Bool → List Op → List Op
when true ops = ops
when false ops = []

-- The `printf` of a round.
abbrev pub report : List Op → List Op
report rest = ask_tid ∷ ask_own ∷ ask_quantums ∷ ask_total ∷ print ∷ rest

-- A round from the second test on, where `i` is the total.
unfoldable pub ops : Loop → ℤ → List Op
ops main_loop i = report (
    when (eq_ℤ i (pos 3)) (invoke (spawn thread1_entry) ∷ [])
    ++ (when (eq_ℤ i (pos 11)) (invoke (spawn thread2_entry) ∷ [])
        ++ (when (eq_ℤ i (pos 14)) (invoke (block (pos 2)) ∷ say blocked_by_0 ∷ []) ++ count ∷ [])))
ops thread1_loop i = report (
    when (eq_ℤ i (pos 25)) (invoke (resume (pos 2)) ∷ say resumed_by_1 ∷ [])
    ++ (when (eq_ℤ i (pos 17)) (say goes_to_sleep ∷ invoke (sleep (pos 1)) ∷ [])
        ++ flush ∷ count ∷ []))
ops thread2_loop i = count ∷ report (flush ∷ [])

-- The call of the library that a statement makes.
unfoldable pub call_of : Op → Frame → Option Call
call_of read_start f = some get_total_quantums
call_of test f = some get_total_quantums
call_of take f = some get_total_quantums
call_of compare f = some get_total_quantums
call_of ask_tid f = some get_tid
call_of ask_own f = some get_tid
call_of ask_quantums f = some (get_quantums f.own)
call_of ask_total f = some get_total_quantums
call_of (invoke c) f = some c
call_of print f = none
call_of flush f = none
call_of count f = none
call_of (say m) f = none

abbrev show_tid : ℤ → Shown → Shown
show_tid n s = record s { tid = n }

abbrev show_quantums : ℤ → Shown → Shown
show_quantums n s = record s { quantums = n }

abbrev show_total : ℤ → Shown → Shown
show_total n s = record s { total = n }

-- What a call's result does to the frame that called, with `rest` left of the round.
unfoldable pub answered : Op → ℤ → List Op → Frame → Frame
unfolding ops
answered read_start n rest f = record f { i = n; todo = rest }
answered test n rest f = record f {
  todo = if lt_ℤ f.i n then take ∷ compare ∷ rest else compare ∷ rest;
}
answered take n rest f = record f { i = n; todo = rest }
answered compare n rest f = record f { todo = if eq_ℤ f.i n then ops f.loop f.i else rest }
answered ask_tid n rest f = record f { shown = show_tid n f.shown; todo = rest }
answered ask_own n rest f = record f { own = n; todo = rest }
answered ask_quantums n rest f = record f { shown = show_quantums n f.shown; todo = rest }
answered ask_total n rest f = record f { shown = show_total n f.shown; todo = rest }
answered (invoke c) n rest f = record f { todo = rest }
answered print n rest f = f
answered flush n rest f = f
answered count n rest f = f
answered (say m) n rest f = f

abbrev nothing : Shown
nothing = record { tid = pos 0; quantums = pos 0; total = pos 0 }

-- A thread's frame at its entry; locals that have no value yet are 0 here.
abbrev begin : Loop → ℤ → Frame
begin loop j = record {
  loop = loop;
  i = pos 0;
  j = j;
  shown = nothing;
  own = pos 0;
  todo = read_start ∷ [];
}

unfoldable pub entered : ℕ → Checked Frame
entered e =
    if e == thread1_entry
    then pass (begin thread1_loop (pos 300))
    else if e == thread2_entry
    then pass (begin thread2_loop (pos 200))
    else fail bad_pointer

unfoldable pub main_frame : Frame
main_frame = record (begin main_loop (pos 100)) { i = pos 1; todo = [] }

abbrev pub done : Process → Result Process (Unit {0})
done p = returns tt p

abbrev pub put_frame : Frame → System → Process → Process
put_frame f s p = record p { system = s; frames = update p.frames s.stack (some f) }

-- A result, in the frame on the stack in use.
unfoldable pub receive : ℤ → System → Process → Option Frame → Result Process (Unit {0})
unfolding answered
receive n s p none = aborts bad_pointer
receive n s p (some f) = elim f.todo [
  | [] ↦ aborts bad_context
  | op ∷ rest ↦ elim (call_of op f) [
    | none ↦ aborts bad_context
    | some c ↦ done (put_frame (answered op n rest f) s p)
  ]
]

abbrev enter : Checked Frame → System → Process → Result Process (Unit {0})
enter (pass f) s p = done (put_frame f s p)
enter (fail e) s p = aborts e

-- How user code goes on after a call or a signal.
unfoldable pub go_on : Result System Seen → Process → Result Process (Unit {0})
unfolding receive entered
go_on (returns (enters e) s) p = enter (entered e) s p
go_on (returns (returned n) s) p = receive n s p (p.frames s.stack)
go_on (returns interrupted s) p = done (record p { system = s })
go_on (jumps c s) p = aborts bad_context
go_on (exits n s) p = exits n (record p { system = s })
go_on (aborts e) p = aborts e

abbrev counted : Checked ℤ → Checked ℤ → List Op → Frame → Process → Result Process (Unit {0})
counted (pass i) (pass j) rest f p =
    done (put_frame (record f { i = i; j = j; todo = rest }) p.system p)
counted (fail e) j rest f p = aborts e
counted (pass i) (fail e) rest f p = aborts e

abbrev write : Output → Process → Process
write o p = record p { printed = p.printed ++ o ∷ [] }

-- A statement that makes no call.
unfoldable pub local : Op → List Op → Frame → Process → Result Process (Unit {0})
local print rest f p =
    done (put_frame (record f { todo = rest }) p.system (write (line f.loop f.shown f.j) p))
local (say m) rest f p = done (put_frame (record f { todo = rest }) p.system (write (said m) p))
local count rest f p = counted (increment_ℤ f.i) (increment_ℤ f.j) rest f p
local op rest f p = done (put_frame (record f { todo = rest }) p.system p)

-- The next statement of the round; a new round starts with the first test.
unfoldable pub perform_op : Os → Frame → Process → Result Process (Unit {0})
unfolding go_on local call_of
perform_op os f p = elim f.todo [
  | [] ↦ done (put_frame (record f { todo = test ∷ [] }) p.system p)
  | op ∷ rest ↦ elim (call_of op f) [
    | some c ↦ go_on (step_call os c p.system) p
    | none ↦ local op rest f p
  ]
]

pub data Event : Type 0 where
  statement expiry : Os → Event

unfoldable pub step : Event → Process → Result Process (Unit {0})
unfolding perform_op go_on
step (statement os) p = elim (p.frames p.system.stack) [
  | none ↦ aborts bad_pointer
  | some f ↦ perform_op os f p
]
step (expiry os) p = go_on (step_tick os p.system) p

unfoldable pub run : List Event → Process → Result Process (Unit {0})
unfolding step
run [] p = done p
run (e ∷ es) p = bind (step e p) (λ _ p'. run es p')

abbrev first_frame : System → Process
first_frame s = record {
  system = s;
  frames = update (λ _. none) s.stack (some main_frame);
  printed = [];
}

-- `uthread_init(100000)`, whose result `main` does not look at.
abbrev launched : InitResult → Result Process (Unit {0})
launched (InitResult.refused code) = aborts bad_context
launched (initialized (returns code s)) = done (first_frame s)
launched (initialized (exits n s)) = exits n (first_frame s)
launched (initialized (jumps c s)) = aborts bad_context
launched (initialized (aborts e)) = aborts e

unfoldable pub start : Os → Result Process (Unit {0})
start os = launched (uthread_init os (pos 100000) (absent false))

-- ===== src/Lib.antt =====
-- OS_Ex2 is a library of user-level threads in C++. User code calls the functions of uthreads.h;
-- uthreads.cpp blocks SIGVTALRM around each of them and hands it to the one `Scheduler` object of
-- scheduler.h and scheduler.cpp, which keeps a table of `Thread` objects (thread.h, thread.cpp),
-- the unused ids, the ready queue and the set of sleeping threads. A quantum ends with the
-- timer's signal, or when the running thread blocks itself, sleeps or ends; the scheduler then
-- counts the quantum, lets the sleepers count down, and jumps with `siglongjmp` into the thread
-- at the front of the queue.
--
-- The files and the code:
--
--   Prelude: lists, maps, tests and integers over the native numbers.
--   Checked: `assert`, `++` on an int, and the faults that stop a process.
--   Thread: thread.h and thread.cpp, each method under its name; Thread/Laws says how the
--     methods go together, Thread/States what each does on each state.
--   Machine: the process: the objects on the heap, the signal mask, the timer, the fields of the
--     `Scheduler` object (with the source's names), and the ways in which code ends: it returns,
--     jumps to a context, exits, or faults.
--   Scheduler: scheduler.h and scheduler.cpp, each method under its name. Threads has ids, the
--     timer, the constructor's and destructor's parts and the table, Dispatch the start of a
--     quantum, Operations what the library's functions and the signal call, Lifetime the
--     constructor and the plain getters.
--   Uthreads: uthreads.h and uthreads.cpp, each function under its name; `land` and `go_to` are
--     the second return of `sigsetjmp`, from which a resumed thread runs on to user code;
--     `step_call` and `step_tick` are a call and a signal from one point of user code to the next.
--   Invariant: what holds of the scheduler between two steps (`Inv`), while a thread runs
--     (`IsBusy`), and where user code runs (`IsValid`), with the lemmas by which the operations
--     keep it.
--   Dispatch: what the functions that start a quantum do.
--   Safety: the operations one by one, with respect to the invariant and to faults.
--   Reachability: the states to which the library comes.
--   Quantums: what ticks in a row do.
--   Behaviour: what each call does on its branches.
--   Address: `translate_address` of utils.h, and the two words that `setup_env` of thread.cpp
--     writes with it; Address/Bits has exclusive or on words.
--   Sample: main.cpp, three loops over the library, by what the library's functions return to
--     them. Rounds has the rounds of a loop, Effects the calls that a program makes.
--   Program: main.cpp on the library, statement by statement, with the timer's signal between
--     any two statements, on the stacks of the threads that the scheduler runs. Places says where
--     threads go on across the start of a quantum, Outcomes and Calls what a call does to these
--     places, Statements which statements there are, Frames what they do to the locals, Lines,
--     Owned and Printed what the output has to do with the frames, Spawns and Rising how the main
--     thread's `i` bounds the number of threads. Good is the invariant, Landed, Called and Safe
--     what a step keeps of it, and Runs the runs from the start of `main`.
--   Messages: what uthreads.cpp writes to `cerr`, function by function; Reasons says when,
--     Failures what the call then does.
--   Contract: the comments of uthreads.h, each as a relation between two views of a state: which
--     threads there are, by their ids, in which status, the ready list, and the total of quantums.
--     Abstraction has the view of a state of the scheduler, Ids and Quantum what operations and a
--     new quantum are in it, Calls each function with its promise, Runs the runs that the promises
--     allow, and Simulation the runs of the library beside them.
--   Demos: the programs in demos. Jump is demo_jmp.c, with the jumps between its two threads
--     (Turns), the rounds of their loops (Rounds) and its runs (Simulation), Timer demo_itimer.c,
--     Interrupt demo_singInt_handler.c.
--   Examples: two states with four threads, and each theorem at a concrete state.
--
-- A Thread pointer is an address in the heap, 0 the null pointer, and `new` takes an address that
-- no object had before. The map and the priority queue are an association list and a sorted list.
-- The unordered set of sleepers is a list, whose order stands for the order of iteration, which
-- C++ leaves open; Quantums/Order says what depends on it. The char array `_stack` is not in the
-- object: `stack` says on whose object the processor runs, and the main thread's object stands
-- for the process's own stack.
--
-- The invariant (`Inv`) is that each live object is the entry of its id in the table, and is in
-- the ready queue once just if it is ready and in the set of sleepers once just if it sleeps;
-- that none is both blocked and sleeping; that the main thread runs or is ready; that a thread
-- which does not run has a context on its own stack that can be resumed; and that every id up to
-- the largest is in the table or unused, and not both. In a valid state (`IsValid`) moreover one
-- thread runs, under `_running_thread_id` and on its own stack, and the signal is let in.
--
-- A context is the place where it continues, the object whose stack it uses and the saved mask. A
-- method that calls `save_env` is in two parts, before and after its return, and the part after
-- it runs at both returns. How the two words that `setup_env` writes stand for that place and
-- that stack is in Address, with the pointer guard as a parameter; the other words of
-- `sigjmp_buf` are the C library's.
--
-- Ids and counters of the library start at 0 or 1 and only rise, so they are natural numbers; to
-- count past the largest 32-bit int is the fault `overflow`, and the theorems ask for fewer
-- quantums than that. Ints from callers are integers.
--
-- The answers of `sigaction`, `setitimer` and `new` are an argument (`Os`) of each operation,
-- which calls each at most once, so that the theorems hold for all answers unless they name one.
-- `Os` also says whether freed memory keeps its contents, which C++ does not promise: a thread
-- that ends itself deletes the object in which its stack is and runs on (scheduler.cpp,
-- terminate_thread), and where the contents are lost this is the fault `freed_stack`. So does the
-- destructor that `exit` runs, if the main thread is not the one that calls it; the main thread
-- runs on the process's own stack. A signal arrives at points of user code. What one does that is
-- pending when `run_topmost_thread_in_ready_queue` lets signals in, just before its jump, is in
-- Behaviour/Pending; the states that `Reach` counts are those that come about without it. The
-- library's functions but `uthread_init` are modelled with the instance there, as uthreads.h lets
-- them assume. All loops of the library are recursions on lists, so there is no fuel; the endless
-- loops of main.cpp and of the demos go on for as many rounds, readings or events as are given.
-- What the library writes to `cerr` is in Messages; its lines on stdout (a thread that wakes, an
-- error of the timer) are left out. Sample has the loops of main.cpp apart from the scheduler, by
-- any readings that do not fall, and Program runs them on it. There a frame has the locals and
-- what is left of the round, and is kept under the object on whose stack it is; the arguments of
-- `printf`, whose order C++ leaves open, are computed from left to right; a local that has no
-- value yet is 0.
--
-- The promises leave open what the comments leave open: which unused id a new thread gets, the
-- order in which sleepers wake, and `uthread_sleep` of a negative number. A sleeper is in the
-- BLOCKED state, as the comment of `uthread_sleep` has it, so that to block it has no effect and
-- to resume it makes it ready. That a call fails where its comment calls it an error is read as:
-- it returns -1 and the view is the same.
--
-- In demo_jmp.c the addresses of the code, of the stacks and the pointer guard are parameters
-- (`Symbols`); a stack is known by the stack pointer with which its loop starts, which the loop
-- has again at each of its calls; a jump goes on where the restored word says. In the other two
-- demos a signal comes between two statements, in any order with them; whether the uninitialised
-- `sa_flags` of demo_singInt_handler.c has SA_RESETHAND is a parameter, and its other flags and
-- `sa_mask` change nothing where no signal comes inside the handler. Not modelled are the build
-- files and the two files that CMake writes to find out the compiler, under cmake-build-debug.
pub mod Prelude
pub mod Checked
pub mod Thread
pub mod Machine
pub mod Scheduler
pub mod Uthreads
pub mod Invariant
pub mod Dispatch
pub mod Safety
pub mod Reachability
pub mod Quantums
pub mod Behaviour
pub mod Messages
pub mod Contract
pub mod Address
pub mod Sample
pub mod Program
pub mod Demos
pub mod Examples

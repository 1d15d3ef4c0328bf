-- ===== src/Machine.antt =====
-- The process in which the scheduler of scheduler.h runs: the objects on the heap, the signal mask,
-- the timer and the fields of the one `Scheduler` object, with the ways in which code can end.
pub mod Laws
use os_ex.Prelude.{
  ℕ, zero, suc, List, [], ◌∷◌, Bool, true, false, Option, none, some, update, ℤ, pos, negsuc, ◌==◌,
  if◌then◌else◌,
}
use os_ex.Checked
use os_ex.Checked.{Checked, pass, fail, Fault, bad_pointer, freed_stack}
use os_ex.Thread.{Thread, Context, Point, nullptr}

-- `struct itimerval`.
pub record Itimerval : Type 0 where
  pub value_sec : ℕ
  pub value_usec : ℕ
  pub interval_sec : ℕ
  pub interval_usec : ℕ

-- What the operating system answers to the calls of one operation, which makes each at most once, and
-- whether memory keeps its contents after `delete`, which C++ does not promise.
pub record Os : Type 0 where
  pub sigaction : ℤ
  pub setitimer : ℤ
  pub allocates : Bool
  pub keeps_freed : Bool

-- `heap` maps the address of each live Thread object to it; 0 is the null pointer. `stack` is the
-- object on whose `_stack` the processor runs, and `masked` whether SIGVTALRM is blocked.
pub record System : Type 0 where
  pub heap : ℕ → Option Thread
  pub next_address : ℕ
  pub stack : ℕ
  pub masked : Bool
  pub handled : Bool
  pub itimer : Option Itimerval
  pub quantum_usecs : ℕ
  pub largest_thread_id : ℕ
  pub running_thread_id : ℕ
  pub total_quantoms : ℕ
  pub unused_threads_id : List ℕ
  pub active_threads : List (ℕ × ℕ)
  pub sleeping_threads : List ℕ
  pub ready_queue : List ℕ

-- Code returns a value, or leaves by `siglongjmp` to a saved context or by `exit`, after which
-- nothing of its callers runs, or the process is stopped by a fault.
pub data Result (S : Type 0) (A : Type 0) : Type 0 where
  returns : A → S → Result S A
  jumps : Context → S → Result S A
  exits : ℕ → S → Result S A
  aborts : Fault → Result S A

abbrev pub M : Type 0 → Type 0
M A = System → Result System A

abbrev pub pure : {A : Type 0} → A → M A
pure a s = returns a s

abbrev pub bind : {S A B : Type 0} → Result S A → (A → S → Result S B) → Result S B
bind (returns a s) f = f a s
bind (jumps c s) f = jumps c s
bind (exits n s) f = exits n s
bind (aborts e) f = aborts e

infixl 5 ◌>>=◌ ◌>>◌
abbrev pub ◌>>=◌ : {A B : Type 0} → M A → (A → M B) → M B
◌>>=◌ m f s = bind (m s) f

abbrev pub ◌>>◌ : {B : Type 0} → M (Unit {0}) → M B → M B
◌>>◌ m k s = bind (m s) (λ _. k)

-- A computation that may fault, as a step of the process.
abbrev pub lift : {A : Type 0} → Checked A → M A
lift (pass a) s = returns a s
lift (fail e) s = aborts e

abbrev pub assert : Bool → M (Unit {0})
assert b = lift (Checked.assert b)

-- Reading through a pointer.
unfoldable pub deref : ℕ → M Thread
deref p s = elim (s.heap p) [ some t ↦ returns t s | none ↦ aborts bad_pointer ]

-- Calling a method that changes the object, `p->f()`.
unfoldable pub call : ℕ → (Thread → Checked Thread) → M (Unit {0})
unfolding deref
call p f = do
  t ← deref p
  t' ← lift (f t)
  λ s. returns tt (record s { heap = update s.heap p (some t') })

-- `delete p`.
unfoldable pub delete : ℕ → M (Unit {0})
unfolding deref
delete p =
    if p == nullptr
    then pure tt
    else (deref p >>= λ _ s. returns tt (record s { heap = update s.heap p none }))

-- Code that runs on after a `delete`. The stack in use is a part of the object `stack`: where that is
-- deleted, the frames on it are lost unless freed memory keeps its contents.
unfoldable pub use_stack : Os → M (Unit {0})
use_stack os s =
    if os.keeps_freed
    then returns tt s
    else elim (s.heap s.stack) [ some t ↦ returns tt s | none ↦ aborts freed_stack ]

-- `new Thread(…)` at an address that no live object has.
unfoldable pub allocate : (ℕ → Thread) → M ℕ
allocate make s = returns s.next_address (record s {
  heap = update s.heap s.next_address (some (make s.next_address));
  next_address = suc s.next_address;
})

-- The context that `sigsetjmp` saves at a place.
abbrev pub context_at : Point → System → Context
context_at place s = record { point = place; stack = s.stack; masked = s.masked }

-- `siglongjmp`.
abbrev pub jump : {A : Type 0} → Context → M A
jump c s = jumps c s

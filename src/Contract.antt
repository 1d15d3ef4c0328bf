-- ===== src/Contract.antt =====
-- uthreads.h: what the comments on the library's functions promise to user code, by thread ids alone.
-- What they leave open, such as the choice of an id or the order in which sleepers wake, is open here.
pub mod Abstraction
pub mod Ids
pub mod Quantum
pub mod Calls
pub mod Runs
pub mod Simulation
use os_ex.Prelude.{
  ℕ, zero, suc, ◌+◌, ◌-◌, ◌≤◌, ◌<◌, ◌≡◌, ◌≢◌, ◌⊎◌, Bool, true, false, List, [], ◌∷◌, ◌++◌, Option,
  none, some, ℤ, pos, negsuc, count, erase, of_bool, ◌==◌, if◌then◌else◌,
}
use os_ex.Uthreads.{Call, Seen}

pub data Status : Type 0 where
  running ready blocked : Status
  sleeping : ℕ → Status

-- A thread, and the number of quantums in which it has run.
pub record Info : Type 0 where
  pub status : Status
  pub quantums : ℕ

pub record View : Type 0 where
  pub current : ℕ
  pub ready : List ℕ
  pub info : ℕ → Option Info
  pub size : ℕ
  pub total : ℕ

abbrev pub limit : ℕ
limit = 100

-- What a caller sees of a call: it returns a number, or a scheduling decision is made first.
pub data Reply : Type 0 where
  code : ℤ → Reply
  switches : Reply

-- A call that fails, and a call with no effect.
pub record Leaves (answer : ℤ) (v : View) (r : Reply) (v' : View) : Type 0 where
  pub reply : r ≡ code answer
  pub same : v' ≡ v

abbrev pub Fails : View → Reply → View → Type 0
Fails = Leaves (negsuc 0)

abbrev pub IsMissing : ℤ → View → Type 0
IsMissing (pos id) v = v.info id ≡ none
IsMissing (negsuc n) v = Unit {0}

-- One thread is in another status, and the ready list is `ready'`.
pub record Moves (id : ℕ) (i : Info) (ready' : List ℕ) (v v' : View) : Type 0 where
  pub info : (k : ℕ) → v'.info k ≡ (if k == id then some i else v.info k)
  pub ready : v'.ready ≡ ready'
  pub current : v'.current ≡ v.current
  pub size : v'.size ≡ v.size
  pub total : v'.total ≡ v.total

-- A sleeper at the start of a quantum: one quantum less, or the time is over.
abbrev pub count_down : Status → Status
count_down running = running
count_down ready = ready
count_down blocked = blocked
count_down (sleeping zero) = ready
count_down (sleeping (suc n)) = sleeping n

abbrev pub elapse : Option Info → Option Info
elapse none = none
elapse (some i) = some (record i { status = count_down i.status })

abbrev pub is_due : Option Info → Bool
is_due none = false
is_due (some i) = elim i.status [ sleeping n ↦ n == 0 | _ ↦ false ]

-- A thread that gets a quantum.
abbrev pub starts : Option Info → Option Info
starts none = none
starts (some i) = some (record { status = running; quantums = suc i.quantums })

-- A new quantum: the sleepers count down, those that are due go to the end of the ready list in any
-- order, and the thread at its front runs.
pub record NextQuantum (v v' : View) : Type 0 where
  pub woken : List ℕ
  pub wakes : (id : ℕ) → count id woken ≡ of_bool (is_due (v.info id))
  pub queue : v.ready ++ woken ≡ v'.current ∷ v'.ready
  pub info :
      (id : ℕ)
      → v'.info id ≡ (if id == v'.current then starts (elapse (v.info id)) else elapse (v.info id))
  pub size : v'.size ≡ v.size
  pub total : v'.total ≡ suc v.total

-- A scheduling decision after a first step.
pub record Switches (First : View → Type 0) (r : Reply) (v' : View) : Type 0 where
  pub between : View
  pub first : First between
  pub next : NextQuantum between v'
  pub reply : r ≡ switches

-- `uthread_init`.
pub data InitPromise (quantum_usecs : ℤ) (r : ℤ) (v' : Option View) : Type 0 where
  refused : ((n : ℕ) → quantum_usecs ≢ pos (suc n)) → r ≡ negsuc 0 → InitPromise quantum_usecs r v'
  started :
      (v : View)
      → r ≡ pos 0
      → v' ≡ some v
      → v.current ≡ 0
      → v.ready ≡ []
      → ((id : ℕ)
          → v.info id
            ≡ (if id == 0 then some (record { status = running; quantums = 1 }) else none))
      → v.size ≡ 1
      → v.total ≡ 1
      → InitPromise quantum_usecs r v'

-- `uthread_spawn`.
pub record Adds (id : ℕ) (v v' : View) : Type 0 where
  pub unused : v.info id ≡ none
  pub info :
      (k : ℕ)
      → v'.info k ≡ (if k == id then some (record { status = ready; quantums = 0 }) else v.info k)
  pub ready : v'.ready ≡ v.ready ++ id ∷ []
  pub current : v'.current ≡ v.current
  pub size : v'.size ≡ suc v.size
  pub total : v'.total ≡ v.total

pub data SpawnPromise (entry_point : ℕ) (v : View) (r : Reply) (v' : View) : Type 0 where
  refused : (entry_point ≡ 0) ⊎ (limit ≤ v.size) → Fails v r v' → SpawnPromise entry_point v r v'
  added :
      (id : ℕ)
      → entry_point ≢ 0
      → v.size < limit
      → r ≡ code (pos id)
      → Adds id v v'
      → SpawnPromise entry_point v r v'

-- `uthread_terminate`; that of the main thread ends the process.
pub record Removes (id : ℕ) (v v' : View) : Type 0 where
  pub info : (k : ℕ) → v'.info k ≡ (if k == id then none else v.info k)
  pub ready : v'.ready ≡ erase id v.ready
  pub current : v'.current ≡ v.current
  pub size : suc v'.size ≡ v.size
  pub total : v'.total ≡ v.total

pub data TerminatePromise (tid : ℤ) (v : View) (r : Reply) (v' : View) : Type 0 where
  refused : tid ≢ pos 0 → IsMissing tid v → Fails v r v' → TerminatePromise tid v r v'
  ended :
      (id : ℕ) (i : Info)
      → tid ≡ pos (suc id)
      → v.info (suc id) ≡ some i
      → suc id ≢ v.current
      → r ≡ code (pos 0)
      → Removes (suc id) v v'
      → TerminatePromise tid v r v'
  ended_self :
      (id : ℕ)
      → tid ≡ pos (suc id)
      → suc id ≡ v.current
      → Switches (Removes (suc id) v) r v'
      → TerminatePromise tid v r v'

-- `uthread_block`.
-- A sleeper is in the BLOCKED state too.
abbrev pub IsBlocked : Status → Type 0
IsBlocked running = ⊥
IsBlocked ready = ⊥
IsBlocked blocked = Unit {0}
IsBlocked (sleeping n) = Unit {0}

pub data BlockPromise (tid : ℤ) (v : View) (r : Reply) (v' : View) : Type 0 where
  refused : (tid ≡ pos 0) ⊎ IsMissing tid v → Fails v r v' → BlockPromise tid v r v'
  no_effect :
      (id : ℕ) (i : Info)
      → tid ≡ pos id
      → v.info id ≡ some i
      → IsBlocked i.status
      → Leaves (pos 0) v r v'
      → BlockPromise tid v r v'
  held :
      (id : ℕ) (i : Info)
      → tid ≡ pos (suc id)
      → v.info (suc id) ≡ some i
      → i.status ≡ ready
      → r ≡ code (pos 0)
      → Moves (suc id) (record i { status = blocked }) (erase (suc id) v.ready) v v'
      → BlockPromise tid v r v'
  held_self :
      (id : ℕ) (i : Info)
      → tid ≡ pos (suc id)
      → v.info (suc id) ≡ some i
      → suc id ≡ v.current
      → Switches (Moves (suc id) (record i { status = blocked }) v.ready v) r v'
      → BlockPromise tid v r v'

-- `uthread_resume`.
pub data ResumePromise (tid : ℤ) (v : View) (r : Reply) (v' : View) : Type 0 where
  refused : IsMissing tid v → Fails v r v' → ResumePromise tid v r v'
  no_effect :
      (id : ℕ) (i : Info)
      → tid ≡ pos id
      → v.info id ≡ some i
      → (i.status ≡ running) ⊎ (i.status ≡ ready)
      → Leaves (pos 0) v r v'
      → ResumePromise tid v r v'
  resumed :
      (id : ℕ) (i : Info)
      → tid ≡ pos id
      → v.info id ≡ some i
      → IsBlocked i.status
      → r ≡ code (pos 0)
      → Moves id (record i { status = ready }) (v.ready ++ id ∷ []) v v'
      → ResumePromise tid v r v'

-- `uthread_sleep`; nothing is said for a negative number.
pub data SleepPromise (num_quantums : ℤ) (v : View) (r : Reply) (v' : View) : Type 0 where
  refused : v.current ≡ 0 → Fails v r v' → SleepPromise num_quantums v r v'
  slept :
      (n : ℕ) (i : Info)
      → num_quantums ≡ pos n
      → v.current ≢ 0
      → v.info v.current ≡ some i
      → Switches (Moves v.current (record i { status = sleeping n }) v.ready v) r v'
      → SleepPromise num_quantums v r v'

-- `uthread_get_tid`.
abbrev pub TidPromise : View → Reply → View → Type 0
TidPromise v = Leaves (pos v.current) v

-- `uthread_get_total_quantums`.
abbrev pub TotalPromise : View → Reply → View → Type 0
TotalPromise v = Leaves (pos v.total) v

-- `uthread_get_quantums`.
pub data QuantumsPromise (tid : ℤ) (v : View) (r : Reply) (v' : View) : Type 0 where
  refused : IsMissing tid v → Fails v r v' → QuantumsPromise tid v r v'
  counted :
      (id : ℕ) (i : Info)
      → tid ≡ pos id
      → v.info id ≡ some i
      → Leaves (pos i.quantums) v r v'
      → QuantumsPromise tid v r v'

-- The end of a quantum: the thread that runs goes to the end of the ready list.
abbrev pub TickPromise : View → Reply → View → Type 0
TickPromise v = Switches λ between.
    (i : Info) × (v.info v.current ≡ some i)
    × Moves v.current (record i { status = ready }) (v.ready ++ v.current ∷ []) v between

-- What a call promises, by the function that is called.
abbrev pub Promise : Call → View → Reply → View → Type 0
Promise (Call.spawn entry_point) = SpawnPromise entry_point
Promise (Call.terminate tid) = TerminatePromise tid
Promise (Call.block tid) = BlockPromise tid
Promise (Call.resume tid) = ResumePromise tid
Promise (Call.sleep num_quantums) = SleepPromise num_quantums
Promise (Call.get_quantums tid) = QuantumsPromise tid
Promise Call.get_tid = TidPromise
Promise Call.get_total_quantums = TotalPromise

-- Where a thread goes on after a scheduling decision: if it had left by a call, that was a
-- successful `uthread_block` or `uthread_sleep`, which returns 0.
abbrev pub Resumes : Seen → Type 0
Resumes (Seen.returned n) = n ≡ pos 0
Resumes (Seen.enters entry_point) = Unit {0}
Resumes Seen.interrupted = Unit {0}

-- How a reply shows in user code: after a scheduling decision another thread goes on.
abbrev pub Shows : Reply → Seen → Type 0
Shows (code n) seen = seen ≡ Seen.returned n
Shows switches seen = Resumes seen

abbrev pub IsAwake : Status → Type 0
IsAwake (sleeping n) = ⊥
IsAwake status = Unit {0}

abbrev pub NotAsleep : Option Info → Type 0
NotAsleep none = Unit {0}
NotAsleep (some i) = IsAwake i.status

-- The calls that are neither `uthread_sleep` of a negative number nor `uthread_resume` of a sleeper.
abbrev pub IsPlain : Call → View → Type 0
IsPlain (Call.sleep (negsuc n)) v = ⊥
IsPlain (Call.resume (pos id)) v = NotAsleep (v.info id)
IsPlain c v = Unit {0}

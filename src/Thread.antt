-- ===== src/Thread.antt =====
-- thread.h and thread.cpp: one user-level thread, its state and its saved context.
pub mod States
pub mod Laws
use os_ex.Prelude.{
  ℕ, suc, ◌-◌, ℤ, pos, negsuc, eq_ℤ, is_positive, Bool, true, false, ◌&&◌, ◌||◌, not, ◌==◌,
  if◌then◌else◌,
}
use os_ex.Checked.{Checked, pass, fail, assertion, ◌>>=◌, ◌>>◌, assert, increment}

pub data ThreadState : Type 0 where
  running ready blocked sleeping blocked_and_sleeping : ThreadState

-- `==` on the states.
abbrev pub same_state : ThreadState → ThreadState → Bool
same_state running running = true
same_state ready ready = true
same_state blocked blocked = true
same_state sleeping sleeping = true
same_state blocked_and_sleeping blocked_and_sleeping = true
same_state _ _ = false

-- Where a context continues: nowhere (a zeroed buffer), at the bookmark of `setup_env`, at an entry
-- point, or at the second return of `save_env` in `block_thread`, `sleep_thread` or
-- `internal_time_handler`.
pub data Point : Type 0 where
  nowhere in_setup in_block in_sleep in_handler : Point
  entry : ℕ → Point

-- What a `sigjmp_buf` holds: the place, the object on whose `_stack` it runs (the main thread's
-- object stands for the process's own stack), and whether SIGVTALRM is blocked in the saved mask.
pub record Context : Type 0 where
  pub point : Point
  pub stack : ℕ
  pub masked : Bool

abbrev pub zeroed : Context
zeroed = record { point = nowhere; stack = 0; masked = false }

abbrev pub main_thread_id : ℕ
main_thread_id = 0

abbrev pub nullptr : ℕ
nullptr = 0

abbrev pub not_sleeping : ℤ
not_sleeping = negsuc 0

-- `_running_quantoms_num` and `_id` start at 0 or above and never fall, so they are in ℕ.
pub record Thread : Type 0 where
  pub state : ThreadState
  pub env : Context
  pub id : ℕ
  pub quantoms_left_to_sleep : ℤ
  pub running_quantoms_num : ℕ

-- `here` is the context that `sigsetjmp` saves, and `this` the object's address.
unfoldable pub setup_env : Context → ℕ → ℕ → Thread → Thread
setup_env here this entry_point t = record t { env = record jump { masked = false } }
  where
    jump : Context
    jump =
        if entry_point == nullptr
        then here
        else record here { point = entry entry_point; stack = this }

unfoldable pub new_thread : Context → ℕ → ℕ → ℕ → Thread
unfolding setup_env
new_thread here this id entry_point =
    if id == main_thread_id then fresh else setup_env here this entry_point fresh
  where
    fresh : Thread
    fresh = record {
      state = ready;
      env = zeroed;
      id = id;
      quantoms_left_to_sleep = not_sleeping;
      running_quantoms_num = 0;
    }

-- The first return of `sigsetjmp`: the context is saved and the result is false. The second return,
-- after a jump to that context, gives true.
unfoldable pub save_env : Context → Thread → Thread × Bool
save_env here t = (record t { env = here }, false)

unfoldable pub is_running : Thread → Bool
is_running t = same_state t.state running

unfoldable pub is_ready : Thread → Bool
is_ready t = same_state t.state ready

unfoldable pub is_blocked : Bool → Thread → Bool
is_blocked check_if_block_only t =
    if same_state t.state blocked
    then true
    else not check_if_block_only && same_state t.state blocked_and_sleeping

unfoldable pub is_sleeping : Bool → Thread → Bool
is_sleeping check_if_sleeping_only t =
    if same_state t.state sleeping
    then true
    else not check_if_sleeping_only && same_state t.state blocked_and_sleeping

unfoldable pub get_age : Thread → ℕ
get_age t = t.running_quantoms_num

unfoldable pub set_block : Thread → Thread
set_block t = record t {
  state = if same_state t.state sleeping then blocked_and_sleeping else blocked;
}

unfoldable pub set_ready : Thread → Thread
set_ready t = record t { state = ready }

unfoldable pub set_running : Thread → Checked Thread
set_running t = do
  age ← increment t.running_quantoms_num
  pass (record t { state = running; running_quantoms_num = age })

unfoldable pub set_sleep : ℤ → Thread → Thread
set_sleep num_quantoms t = record t {
  state = if same_state t.state blocked then blocked_and_sleeping else sleeping;
  quantoms_left_to_sleep = num_quantoms;
}

unfoldable pub unblock : Thread → Thread
unfolding is_blocked
unblock t =
    if not (is_blocked false t)
    then t
    else record t { state = if same_state t.state blocked then ready else sleeping }

unfoldable pub wake_up : Thread → Checked Thread
unfolding is_sleeping
wake_up t = do
  assert (is_sleeping false t)
  pass (record t {
    state =
        if same_state t.state sleeping
        then ready
        else if same_state t.state blocked_and_sleeping
        then blocked
        else t.state;
  })

-- `--n` on a positive int.
abbrev pub decrement : ℤ → ℤ
decrement (pos n) = pos (n - 1)
decrement (negsuc n) = negsuc (suc n)

unfoldable pub update_sleep_value : Thread → Checked Thread
unfolding wake_up
update_sleep_value t = do
  assert (is_sleeping false t && not (eq_ℤ t.quantoms_left_to_sleep not_sleeping))
  if is_positive t.quantoms_left_to_sleep
      then pass (record t { quantoms_left_to_sleep = decrement t.quantoms_left_to_sleep })
      else wake_up (record t { quantoms_left_to_sleep = not_sleeping })

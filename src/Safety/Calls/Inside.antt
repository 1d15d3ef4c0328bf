-- ===== src/Safety/Calls/Inside.antt =====
-- What every call of uthreads.cpp starts from: the signal is blocked, and the arguments are tested.
use os_ex.Prelude.{ℕ, ◌≡◌, ◌≢◌, refl, ◌∙◌, ap, false, ℤ, pos, eq_ℤ, ◌==◌, arith}
use os_ex.Thread.{
  Thread, ThreadState, running, ready, blocked, sleeping, blocked_and_sleeping, main_thread_id,
}
use os_ex.Machine.{System}
use os_ex.Invariant.{IsValid}
use os_ex.Safety.Ways.{masked-IsBusy}

-- The states that a thread can be in.
pub data StateOf (t : Thread) : Type 0 where
  is_run : t.state ≡ running → StateOf t
  is_rdy : t.state ≡ ready → StateOf t
  is_blk : t.state ≡ blocked → StateOf t
  is_slp : t.state ≡ sleeping → StateOf t

pub state_of : (t : Thread) → t.state ≢ blocked_and_sleeping → StateOf t
state_of t n = go t.state refl
  where
    go : (k : ThreadState) → t.state ≡ k → StateOf t
    go running e = is_run e
    go ready e = is_rdy e
    go blocked e = is_blk e
    go sleeping e = is_slp e
    go blocked_and_sleeping e = absurd (n e)

pub nonzero : (n : ℕ) → n ≢ 0 → (n == 0) ≡ false
nonzero n h = ground arith

pub nonmain : (tid : ℤ) → tid ≢ pos main_thread_id → eq_ℤ tid (pos main_thread_id) ≡ false
nonmain tid h = ground arith

pub nonmain_id : {tid : ℤ} {id : ℕ} → tid ≢ pos main_thread_id → tid ≡ pos id → id ≢ main_thread_id
nonmain_id n i z = n (i ∙ ap pos z)

-- A call that is refused before it reaches the scheduler.
pub refused_IsValid :
    {cur : ℕ} {s : System} → IsValid cur s → IsValid cur (record s { masked = false })
refused_IsValid v = record { busy = masked-IsBusy false v.busy; let_in = refl }

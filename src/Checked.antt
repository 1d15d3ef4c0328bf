-- ===== src/Checked.antt =====
-- What stops a C++ process short: a failed `assert`, a bad pointer, a jump to a context that was
-- never saved for it, an int that overflows, code that runs on a stack whose memory is freed.
-- A method that can fail so returns `Checked`; its caller goes on only after `pass`.
use os_ex.Prelude.{ℕ, zero, suc, ℤ, pos, negsuc, ltb, if◌then◌else◌, Bool, true, false}

pub data Fault : Type 0 where
  assertion bad_pointer bad_context overflow freed_stack : Fault

pub data Checked {ℓ} (A : Type ℓ) : Type ℓ where
  pass : A → Checked A
  fail : Fault → Checked A

infixl 5 ◌>>=◌ ◌>>◌
abbrev pub ◌>>=◌ {ℓ κ} : {A : Type ℓ} {B : Type κ} → Checked A → (A → Checked B) → Checked B
pass a >>= f = f a
fail e >>= f = fail e

abbrev pub ◌>>◌ {ℓ} : {B : Type ℓ} → Checked (Unit {0}) → Checked B → Checked B
m >> k = m >>= λ _. k

-- `assert(b)`.
abbrev pub assert : Bool → Checked (Unit {0})
assert true = pass tt
assert false = fail assertion

-- The largest value of a 32-bit int.
abbrev pub int_max : ℕ
int_max = 2147483647

-- `++n` on an int that is never negative: past `int_max` it is undefined.
abbrev pub increment : ℕ → Checked ℕ
increment n = if ltb n int_max then pass (suc n) else fail overflow

-- `++z` on an int of any sign.
abbrev pub increment_ℤ : ℤ → Checked ℤ
increment_ℤ (pos n) = if ltb n int_max then pass (pos (suc n)) else fail overflow
increment_ℤ (negsuc zero) = pass (pos 0)
increment_ℤ (negsuc (suc n)) = pass (negsuc n)

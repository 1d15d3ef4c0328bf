-- ===== src/Address.antt =====
-- utils.h, and what setup_env of thread.cpp writes into a jump buffer with it: an address is stored
-- mangled with the pointer guard of the thread, which the C library puts at fs:0x30, or at gs:0x18.
mod Bits
pub mod Words
use os_ex.Prelude.{ℕ, ◌+◌, ◌-◌, ◌*◌, ◌/◌, ◌%◌}
use Prim.Native.Nat.{bit_xor, ◌^◌}

-- `rol` by `n` of a word of `n + m` bits.
abbrev pub rotate_left : ℕ → ℕ → ℕ → ℕ
rotate_left n m x = (x * 2 ^ n) % 2 ^ (n + m) + x / 2 ^ m

unfoldable pub translate_address : ℕ → ℕ → ℕ
translate_address guard addr = rotate_left 0x11 47 (bit_xor addr guard)

-- The same on 32 bits.
unfoldable pub translate_address_32 : ℕ → ℕ → ℕ
translate_address_32 guard addr = rotate_left 0x9 23 (bit_xor addr guard)

abbrev pub stack_size : ℕ
stack_size = 4096

abbrev pub address_size : ℕ
address_size = 8

-- The words JB_PC and JB_SP for an entry point and a stack at an address.
unfoldable pub entry_words : ℕ → ℕ → ℕ → ℕ × ℕ
unfolding translate_address
entry_words guard entry_point stack = (
  translate_address guard entry_point,
  translate_address guard (stack + stack_size - address_size),
)

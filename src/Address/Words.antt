-- ===== src/Address/Words.antt =====
-- The mangling of utils.h, as the C library undoes it, and setup_env of thread.cpp.
use Prim.Native.Nat.{bit_xor, ◌^◌}
use os_ex.Prelude.{ℕ, ◌+◌, ◌-◌, ◌≤◌, ◌<◌, ◌≡◌, refl, arith, ap, ◌∙◌}
use os_ex.Address.{
  translate_address, translate_address_32, rotate_left, entry_words, stack_size, address_size,
}
use os_ex.Address.Bits.{word, bit_xor_twice}

-- What the C library does to a stored word before it jumps: `ror`, then exclusive or.
abbrev pub restore_address : ℕ → ℕ → ℕ → ℕ → ℕ
restore_address n m guard x = bit_xor (rotate_left m n x) guard

rotate_64 :
    (x : ℕ)
    → x < 2 ^ 64
    → (rotate_left 17 47 x < 2 ^ 64) × (rotate_left 47 17 (rotate_left 17 47 x) ≡ x)
rotate_64 x h = (omega arith, omega arith)

rotate_32 :
    (x : ℕ)
    → x < 2 ^ 32
    → (rotate_left 9 23 x < 2 ^ 32) × (rotate_left 23 9 (rotate_left 9 23 x) ≡ x)
rotate_32 x h = (omega arith, omega arith)

-- For a pointer guard and an address of 64 bits, what `translate_address` gives has 64 bits, and
-- rotating it back and taking the exclusive or with the guard, as the C library does before a
-- jump, gives the address again.
pub restore-translate_address :
    (guard addr : ℕ)
    → guard < 2 ^ 64
    → addr < 2 ^ 64
    → (translate_address guard addr < 2 ^ 64)
      × (restore_address 17 47 guard (translate_address guard addr) ≡ addr)
unfolding translate_address word
restore-translate_address guard addr g a =
    let (lt, back) = bit_xor_twice 64 addr guard a g in
    let (lt', same) = rotate_64 (bit_xor addr guard) lt in
    (lt', ap (λ x. bit_xor x guard) same ∙ back)

-- The same on 32 bits.
restore-translate_address_32 :
    (guard addr : ℕ)
    → guard < 2 ^ 32
    → addr < 2 ^ 32
    → (translate_address_32 guard addr < 2 ^ 32)
      × (restore_address 9 23 guard (translate_address_32 guard addr) ≡ addr)
unfolding translate_address_32 word
restore-translate_address_32 guard addr g a =
    let (lt, back) = bit_xor_twice 32 addr guard a g in
    let (lt', same) = rotate_32 (bit_xor addr guard) lt in
    (lt', ap (λ x. bit_xor x guard) same ∙ back)

-- For a pointer guard and an entry point of 64 bits and a stack that ends within 64 bits, the
-- words that `setup_env` stores lead a jump to the entry point, with a stack pointer inside the
-- thread's stack, below its end by the size of one address.
pub entry_words_lem :
    (guard entry_point stack : ℕ)
    → guard < 2 ^ 64
    → entry_point < 2 ^ 64
    → stack + stack_size ≤ 2 ^ 64
    → (pc sp : ℕ) × (entry_words guard entry_point stack ≡ (pc, sp))
      × (restore_address 17 47 guard pc ≡ entry_point)
      × (stack ≤ restore_address 17 47 guard sp)
      × (restore_address 17 47 guard sp + address_size ≡ stack + stack_size)
unfolding entry_words
entry_words_lem guard entry_point stack g e h =
    let (lt, pc) = restore-translate_address guard entry_point g e in
    let (lt', sp) =
      restore-translate_address guard (stack + stack_size - address_size) g (omega arith) in
    (_, _, refl, pc, omega (arith, sp), omega (arith, sp))

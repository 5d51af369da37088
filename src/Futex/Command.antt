-- ===== src/Futex/Command.antt =====
-- src/linux_futex.c: the decoding of the system call.
use Prim.Native.Nat.{bit_and}
use alpine_on_qnx.Prelude.{
  ℕ, ◌+◌, ◌≤◌, Bool, true, false, not, ◌&&◌, ◌||◌, ltb, ◌==◌, if◌then◌else◌, arith,
}
use alpine_on_qnx.Words.{not32}
use alpine_on_qnx.Abi.Answer.{Answer, einval, enosys}
use alpine_on_qnx.Futex.{int_max}

-- What `linux_futex` does: it answers at once, or calls one of the functions above.
pub data FutexCall : Type 0 where
  refuse : Answer → FutexCall
  wait : ℕ → ℕ → FutexCall
  wake : ℕ → ℕ → FutexCall
  requeue : ℕ → ℕ → Bool → ℕ → FutexCall

-- The `switch` of `linux_futex`. `timeout_word` is the fourth argument as a number.
abbrev switch_command : ℕ → ℕ → ℕ → ℕ → ℕ → FutexCall
switch_command command operation val timeout_word bitset =
    if command == 0
    then wait 0xffffffff 0
    else if command == 1
    then (if ltb int_max val then refuse einval else wake val 0xffffffff)
    else if command == 3
    then (if ltb int_max val || ltb int_max timeout_word
        then refuse einval
        else requeue val timeout_word false 0)
    else if command == 4
    then (if ltb int_max val || ltb int_max timeout_word
        then refuse einval
        else requeue val timeout_word true bitset)
    else if command == 9
    then wait bitset (if bit_and operation 256 == 0 then 1 else 2)
    else if command == 10
    then (if ltb int_max val then refuse einval else wake val bitset)
    else refuse enosys

unfoldable pub linux_futex : ℕ → ℕ → ℕ → ℕ → FutexCall
linux_futex operation val timeout_word bitset =
    let command = bit_and operation 127 in
    let flags = bit_and operation (not32 127) in
    if not (bit_and flags (not32 (128 + 256)) == 0)
    then refuse einval
    else if not (bit_and operation 256 == 0) && not (command == 9)
    then refuse enosys
    else switch_command command operation val timeout_word bitset

-- The counts that reach the loops are never negative as an `int`.
abbrev pub CountsFit : FutexCall → Type 0
CountsFit (refuse a) = Unit {0}
CountsFit (wait bitset clock) = clock ≤ 2
CountsFit (wake count bitset) = count ≤ int_max
CountsFit (requeue wakes requeues compare expected) = (wakes ≤ int_max) × (requeues ≤ int_max)

counts_fit :
    (command operation val timeout_word bitset : ℕ)
    → CountsFit (switch_command command operation val timeout_word bitset)
counts_fit command operation val timeout_word bitset = ground arith

-- Whatever the guest passes, the call that is made has counts between 0 and INT_MAX.
pub linux_futex-CountsFit :
    (operation val timeout_word bitset : ℕ)
    → CountsFit (linux_futex operation val timeout_word bitset)
unfolding linux_futex
linux_futex-CountsFit operation val timeout_word bitset =
    ground (arith, counts_fit (bit_and operation 127) operation val timeout_word bitset)

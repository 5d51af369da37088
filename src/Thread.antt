-- ===== src/Thread.antt =====
-- src/guest_thread.c: the state of a guest thread. `current_thread()` is `none` for a host thread
-- that is not the guest's. The two words of a mask or of the pending signals are given by their
-- bits: signal n is bit (n - 1) % 32 of word (n - 1) / 32.
pub mod Pending
pub mod Tid
pub mod Clone
pub mod Exit
pub mod Retire
pub mod Fork
pub mod Stack
mod Tests
use alpine_on_qnx.Prelude.{
  ℕ, zero, suc, ◌+◌, ◌-◌, ◌%◌, ◌⊎◌, inl, inr, Bool, true, false, not, ◌&&◌, ◌||◌, Option, none,
  some, ltb, leb, ◌==◌, if◌then◌else◌,
}
use alpine_on_qnx.Abi.Errno.{Errno, enone, einval}

abbrev pub SignalSet : Type 0
SignalSet = ℕ → Bool

abbrev pub no_signals : SignalSet
no_signals n = false

abbrev pub add_signal : ℕ → SignalSet → SignalSet
add_signal signal set n = if n == signal then true else set n

abbrev pub delete_signal : ℕ → SignalSet → SignalSet
delete_signal signal set n = if n == signal then false else set n

-- What is read of a `siginfo_t`.
pub record SignalInfo : Type 0 where
  pub si_errno : Errno
  pub si_code : ℕ
  pub si_addr : ℕ
  pub si_pid : ℕ
  pub si_uid : ℕ

-- A `siginfo_t` after `memset`.
abbrev pub no_information : SignalInfo
no_information = record { si_errno = enone; si_code = 0; si_addr = 0; si_pid = 0; si_uid = 0 }

-- `struct guest_thread_state`, with the address that it stands at. A null pointer is 0; a file
-- descriptor that is -1 is `none`. Of the semaphore of a futex wait and of the pipe of a signal
-- wait the state has how often they have been posted and written to by signals.
pub record ThreadState : Type 0 where
  pub self : ℕ
  pub registers : ℕ → ℕ
  pub guest_tls : ℕ
  pub clear_child_tid : ℕ
  pub child_tid : ℕ
  pub tid : ℕ
  pub start : Bool
  pub pending_signals : SignalSet
  pub pending_information : ℕ → SignalInfo
  pub realtime_head : ℕ → ℕ
  pub realtime_tail : ℕ → ℕ
  pub realtime_information : ℕ → ℕ → SignalInfo
  pub signal_mask : SignalSet
  pub suspend_restore_mask : SignalSet
  pub suspend_restore_valid : Bool
  pub futex_semaphore : Option ℕ
  pub futex_interrupted : Bool
  pub signal_wait_read_fd : Option ℕ
  pub signal_wait_write_fd : Option ℕ
  pub signal_wait_bytes : ℕ
  pub syscall_active : Bool
  pub altstack_pointer : ℕ
  pub altstack_size : ℕ
  pub deferred_unmap_start : ℕ
  pub deferred_unmap_length : ℕ

abbrev pub Current : Type 0
Current = Option ThreadState

abbrev pub guest_thread_signal_mask_get : Current → SignalSet
guest_thread_signal_mask_get none = no_signals
guest_thread_signal_mask_get (some t) = t.signal_mask

abbrev pub guest_thread_signal_mask_set : SignalSet → Current → Current
guest_thread_signal_mask_set words none = none
guest_thread_signal_mask_set words (some t) = some (record t { signal_mask = words })

abbrev pub guest_thread_signal_suspend_restore : SignalSet → Current → Current
guest_thread_signal_suspend_restore words none = none
guest_thread_signal_suspend_restore words (some t) =
    some (record t { suspend_restore_mask = words; suspend_restore_valid = true })

-- The mask that the frame of a signal saves, and the thread after it was asked for.
abbrev pub guest_thread_signal_delivery_mask : Current → SignalSet × Current
guest_thread_signal_delivery_mask none = (no_signals, none)
guest_thread_signal_delivery_mask (some t) =
    if t.suspend_restore_valid
    then (t.suspend_restore_mask, some (record t { suspend_restore_valid = false }))
    else (t.signal_mask, some t)

-- The error of making the pipe, or its two ends.
abbrev pub guest_thread_signal_wait_begin : Errno ⊎ (ℕ × ℕ) → Current → (Errno ⊎ ℕ) × Current
guest_thread_signal_wait_begin pipe none = (inl einval, none)
guest_thread_signal_wait_begin (inl e) (some t) = (inl e, some t)
guest_thread_signal_wait_begin (inr (read_fd, write_fd)) (some t) = (
  inr read_fd,
  some (record t {
    signal_wait_read_fd = some read_fd;
    signal_wait_write_fd = some write_fd;
    signal_wait_bytes = 0;
  }),
)

abbrev pub guest_thread_signal_wait_interrupted : SignalSet → Current → Current
guest_thread_signal_wait_interrupted old_words current =
    guest_thread_signal_suspend_restore old_words current

abbrev pub guest_thread_signal_wait_complete : SignalSet → Current → Current
guest_thread_signal_wait_complete old_words none = none
guest_thread_signal_wait_complete old_words (some t) =
    guest_thread_signal_mask_set old_words (some (record t { suspend_restore_valid = false }))

abbrev pub guest_thread_syscall_enter : Current → Current
guest_thread_syscall_enter none = none
guest_thread_syscall_enter (some t) = some (record t { syscall_active = true })

abbrev pub guest_thread_syscall_leave : Current → Current
guest_thread_syscall_leave none = none
guest_thread_syscall_leave (some t) = some (record t { syscall_active = false })

abbrev pub guest_thread_syscall_active : Current → Bool
guest_thread_syscall_active none = false
guest_thread_syscall_active (some t) = t.syscall_active

-- `guest_thread_futex_wait_begin`: the new semaphore has not been posted.
abbrev pub guest_thread_futex_wait_begin : Current → Current
guest_thread_futex_wait_begin none = none
guest_thread_futex_wait_begin (some t) =
    some (record t { futex_interrupted = false; futex_semaphore = some 0 })

abbrev pub guest_thread_futex_wait_end : Current → Bool × Current
guest_thread_futex_wait_end none = (false, none)
guest_thread_futex_wait_end (some t) =
    (t.futex_interrupted, some (record t { futex_semaphore = none; futex_interrupted = false }))

-- The pointer and the size of the alternate stack.
abbrev pub guest_thread_altstack_get : Current → ℕ × ℕ
guest_thread_altstack_get none = (0, 0)
guest_thread_altstack_get (some t) = (t.altstack_pointer, t.altstack_size)

abbrev pub guest_thread_altstack_set : ℕ → ℕ → Current → Current
guest_thread_altstack_set pointer size none = none
guest_thread_altstack_set pointer size (some t) =
    some (record t { altstack_pointer = pointer; altstack_size = size })

abbrev pub runtime_guest_tls : Current → ℕ
runtime_guest_tls none = 0
runtime_guest_tls (some t) = t.guest_tls

abbrev pub runtime_set_guest_tls : ℕ → Current → Current
runtime_set_guest_tls value none = none
runtime_set_guest_tls value (some t) = some (record t { guest_tls = value })

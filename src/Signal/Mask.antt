-- ===== src/Signal/Mask.antt =====
-- src/guest_signal.c: the calls that change the guest's signal mask.
use alpine_on_qnx.Prelude.{
  ℕ, ◌≡◌, refl, Bool, false, not, ◌&&◌, ◌||◌, Option, none, some, ltb, ◌==◌, if◌then◌else◌,
  Bool-cases, inl, inr, arith,
}
use alpine_on_qnx.Abi.Errno.{Errno, eintr}
use alpine_on_qnx.Abi.Answer.{Answer, value, from_errno, einval}
use alpine_on_qnx.Thread.{
  SignalSet, delete_signal, Current, guest_thread_signal_mask_get, guest_thread_signal_mask_set,
  guest_thread_signal_suspend_restore,
}
use alpine_on_qnx.Signal.{Host}
use alpine_on_qnx.Signal.Sets.{linux_set_to_host}

-- `words[0] &= ~((1u << (9 - 1)) | (1u << (19 - 1)))`
abbrev pub without_kill_and_stop : SignalSet → SignalSet
without_kill_and_stop words = delete_signal 19 (delete_signal 9 words)

-- `none` is -EINVAL; a null pointer is `none`.
unfoldable pub guest_signal_host_mask : Host → Option SignalSet → ℕ → Option SignalSet
guest_signal_host_mask h none signal_set_size = none
guest_signal_host_mask h (some words) signal_set_size =
    if signal_set_size == 8 then some (linux_set_to_host h words) else none

-- `new_words` by `how`.
unfoldable pub new_mask : Host → ℕ → SignalSet → SignalSet → SignalSet
new_mask h how old words n =
    if how == h.sig_block
    then old n || words n
    else if how == h.sig_unblock
    then old n && not (words n)
    else words n

-- The host's set that is handed to `pthread_sigmask`, if any.
abbrev pub host_argument : Host → Option SignalSet → Option SignalSet
host_argument h none = none
host_argument h (some set) = some (linux_set_to_host h (without_kill_and_stop set))

abbrev pub set_mask : Host → ℕ → Option SignalSet → Current → Current
set_mask h how none current = current
set_mask h how (some set) current =
    guest_thread_signal_mask_set
      (new_mask h how (guest_thread_signal_mask_get current) (without_kill_and_stop set)) current

-- The call: the answer, what is written to `guest_old_set`, which is there if `wants_old` is set, and
-- the thread. A negative `how` is above 2 as a word. `sigmask_error` is the answer of `pthread_sigmask`
-- for the set of `host_argument`.
unfoldable pub guest_signal_mask :
    Host
    → Option Errno
    → ℕ
    → Option SignalSet
    → Bool
    → ℕ
    → Current
    → Answer × Option SignalSet × Current
guest_signal_mask h sigmask_error how guest_set wants_old signal_set_size current =
    let old = if wants_old then some (guest_thread_signal_mask_get current) else none in
    if not (signal_set_size == 8) || ltb 2 how
    then (einval, none, current)
    else elim sigmask_error [
      | some e ↦ (from_errno e, old, current)
      | none ↦ (value 0, old, set_mask h how guest_set current)
    ]

-- `guest_signal_suspend` up to the call of `sigsuspend`: `none` is -EINVAL; else the host's mask to wait
-- with, and the thread.
unfoldable pub guest_signal_suspend_begin :
    Host → Option SignalSet → ℕ → Current → Option (SignalSet × Current)
guest_signal_suspend_begin h none signal_set_size current = none
guest_signal_suspend_begin h (some set) signal_set_size current =
    let words = without_kill_and_stop set in
    if signal_set_size == 8
    then some (linux_set_to_host h words, guest_thread_signal_mask_set words current)
    else none

-- From there on, with the mask that was saved in `old_words` and the error of `sigsuspend`, if any.
unfoldable pub guest_signal_suspend_end : SignalSet → Option Errno → Current → Answer × Current
guest_signal_suspend_end old_words none current =
    (value 0, guest_thread_signal_mask_set old_words current)
guest_signal_suspend_end old_words (some eintr) current =
    (from_errno eintr, guest_thread_signal_suspend_restore old_words current)
guest_signal_suspend_end old_words (some e) current =
    (from_errno e, guest_thread_signal_mask_set old_words current)

-- SIGKILL and SIGSTOP are not blocked.
abbrev pub IsMask : SignalSet → Type 0
IsMask words = (words 9 ≡ false) × (words 19 ≡ false)

new_mask-IsMask :
    (h : Host) (how : ℕ) (old set : SignalSet)
    → IsMask old
    → IsMask (new_mask h how old (without_kill_and_stop set))
unfolding new_mask
new_mask-IsMask h how old set v = ground (arith, v)

mask_set_lem :
    (words : SignalSet) (current : Current)
    → IsMask words
    → IsMask (guest_thread_signal_mask_get (guest_thread_signal_mask_set words current))
mask_set_lem words none v = (refl, refl)
mask_set_lem words (some t) v = v

set_mask-IsMask :
    (h : Host) (how : ℕ) (guest_set : Option SignalSet) (current : Current)
    → IsMask (guest_thread_signal_mask_get current)
    → IsMask (guest_thread_signal_mask_get (set_mask h how guest_set current))
set_mask-IsMask h how none current v = v
set_mask-IsMask h how (some set) current v =
    mask_set_lem _ current (new_mask-IsMask h how (guest_thread_signal_mask_get current) set v)

-- No call of the guest to change its mask, however it ends, makes it block SIGKILL or SIGSTOP.
pub guest_signal_mask-IsMask :
    (h : Host) (e : Option Errno) (how : ℕ) (guest_set : Option SignalSet) (wants_old : Bool)
    (signal_set_size : ℕ) (current : Current)
    → IsMask (guest_thread_signal_mask_get current)
    → IsMask (
        guest_thread_signal_mask_get
          (guest_signal_mask h e how guest_set wants_old signal_set_size current).2)
unfolding guest_signal_mask
guest_signal_mask-IsMask h (some e) how guest_set wants_old size current v =
    elim (Bool-cases (not (size == 8) || ltb 2 how)) [ inl bad ↦ rw bad v | inr ok ↦ rw ok v ]
guest_signal_mask-IsMask h none how guest_set wants_old size current v =
    elim (Bool-cases (not (size == 8) || ltb 2 how)) [
      | inl bad ↦ rw bad v
      | inr ok ↦ rw ok (set_mask-IsMask h how guest_set current v)
    ]

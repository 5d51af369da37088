-- ===== src/Poll/Wait.antt =====
-- src/linux_poll.c: the mask of a ppoll or pselect, which is that of the guest while the call waits.
use alpine_on_qnx.Prelude.{ℕ, ◌⊎◌, inl, inr, Bool, Option, none, some, leb, if◌then◌else◌}
use alpine_on_qnx.Abi.Errno.{Errno, emfile}
use alpine_on_qnx.Abi.Answer.{Answer, from_errno, einval}
use alpine_on_qnx.Signal.{Host}
use alpine_on_qnx.Signal.Mask.{guest_signal_host_mask, without_kill_and_stop}
use alpine_on_qnx.Thread.{
  SignalSet, Current, ThreadState, guest_thread_signal_mask_get, guest_thread_signal_mask_set,
  guest_thread_signal_wait_begin, guest_thread_signal_wait_interrupted,
  guest_thread_signal_wait_complete,
}
use alpine_on_qnx.Thread.Pending.{guest_thread_signal_wait_arm}
use alpine_on_qnx.Thread.Fork.{guest_thread_signal_wait_end}

-- The host's answers: the error of making the pipe of a wait, or its ends; the error of
-- `sigprocmask`, if any; and what the handlers of signals that arrive during the wait do to the
-- thread, and to its mask in the host.
pub record WaitHost : Type 0 where
  pub pipe : Errno ⊎ (ℕ × ℕ)
  pub mask_error : Option Errno
  pub meanwhile : ThreadState → ThreadState
  pub meanwhile_host : SignalSet → SignalSet

-- The thread that calls, with the mask that the host has for it.
pub record Caller : Type 0 where
  pub current : Current
  pub host_mask : SignalSet

-- How the beginning of a wait ends: with an answer, or with a descriptor to wait for, and the masks
-- of the guest and of the host to bring back.
pub data Begun : Type 0 where
  refused : Answer → Begun
  waiting : ℕ → SignalSet → SignalSet → Begun

-- `guest_thread_signal_wait_end` of the caller.
abbrev pub close_wait : Caller → Caller
close_wait c = record c { current = guest_thread_signal_wait_end c.current }

-- `sigprocmask(SIG_SETMASK, &requested, &old)` and what comes after it.
abbrev pub change_mask : WaitHost → ℕ → SignalSet → SignalSet → Caller → Begun × Caller
change_mask w fd words requested c = elim w.mask_error [
  | some e ↦ (refused (from_errno e), close_wait c)
  | none ↦ (
    waiting fd (guest_thread_signal_mask_get c.current) c.host_mask,
    record {
      current =
          guest_thread_signal_wait_arm
            (guest_thread_signal_mask_set (without_kill_and_stop words) c.current);
      host_mask = requested;
    },
  )
]

-- From the pipe on. `limit` is FD_SETSIZE in `do_select`; EMFILE is 24 on both sides. Where the pipe
-- cannot be made, the thread is as it was.
unfoldable pub open_wait :
    WaitHost → Option ℕ → SignalSet → SignalSet → Caller → (Errno ⊎ ℕ) × Current → Begun × Caller
open_wait w limit words requested c (inl e, with_pipe) = (refused (from_errno e), c)
open_wait w limit words requested c (inr fd, with_pipe) =
    let piped : Caller = record c { current = with_pipe } in
    let changed = change_mask w fd words requested piped in
    elim limit [
      | none ↦ changed
      | some size ↦ if leb size fd then (refused (from_errno emfile), close_wait piped) else changed
    ]

unfoldable pub begin_wait :
    Host → WaitHost → Option ℕ → Option SignalSet → ℕ → Caller → Begun × Caller
unfolding open_wait
begin_wait h w limit guest_set signal_set_size c = elim guest_set [
  | none ↦ (refused einval, c)
  | some words ↦ elim (guest_signal_host_mask h (some words) signal_set_size) [
    | none ↦ (refused einval, c)
    | some requested ↦
        open_wait w limit words requested c (guest_thread_signal_wait_begin w.pipe c.current)
  ]
]

abbrev pub interrupt : WaitHost → Current → Current
interrupt w none = none
interrupt w (some t) = some (w.meanwhile t)

abbrev pub arrive : WaitHost → Caller → Caller
arrive w c = record { current = interrupt w c.current; host_mask = w.meanwhile_host c.host_mask }

-- After the wait: `sigprocmask(SIG_SETMASK, &old, 0)` with the mask of before succeeds.
unfoldable pub end_wait : Bool → SignalSet → SignalSet → Caller → Caller
end_wait interrupted old_words old c = close_wait (record {
  current =
      if interrupted
      then guest_thread_signal_wait_interrupted old_words c.current
      else guest_thread_signal_wait_complete old_words c.current;
  host_mask = old;
})

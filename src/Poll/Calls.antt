-- ===== src/Poll/Calls.antt =====
-- src/linux_poll.c: do_poll, and the call ppoll.
use alpine_on_qnx.Prelude.{
  ℕ, suc, ◌+◌, Bool, true, false, not, ◌&&◌, Option, none, some, List, [], ◌∷◌, ltb, ◌==◌,
  if◌then◌else◌, length,
}
use alpine_on_qnx.Abi.Errno.{Errno, eintr, enomem}
use alpine_on_qnx.Abi.Answer.{Answer, value, from_errno, einval}
use alpine_on_qnx.Futex.Deadline.{Timespec}
use alpine_on_qnx.Poll.Events.{HostEvents, poll_events_to_host, poll_events_to_linux, any_event}
use alpine_on_qnx.Poll.Timeout.{Milliseconds, timespec_timeout}
use alpine_on_qnx.Poll.Wait.{WaitHost, Caller, refused, waiting, begin_wait, end_wait, arrive}
use alpine_on_qnx.Signal.{Host}
use alpine_on_qnx.Thread.{SignalSet}

-- `struct linux_pollfd`
pub record PollFd : Type 0 where
  pub fd : ℕ
  pub events : ℕ
  pub revents : ℕ

-- What is handed to the host's `poll` for one descriptor.
pub record HostPollFd : Type 0 where
  pub fd : ℕ
  pub events : HostEvents

-- How `poll` ends: with an error, or with a count and the events of each descriptor.
pub data PollResult : Type 0 where
  poll_failed : Errno → PollResult
  polled : ℕ → (ℕ → HostEvents) → PollResult

-- The host's `poll`, and whether there is memory for the array.
pub record HostPoll : Type 0 where
  pub memory : Bool
  pub poll : List HostPollFd → Option ℕ → Milliseconds → PollResult

unfoldable pub host_fds : List PollFd → List HostPollFd
host_fds [] = []
host_fds (p ∷ rest) = record { fd = p.fd; events = poll_events_to_host p.events } ∷ host_fds rest

unfoldable pub store_revents : (ℕ → HostEvents) → ℕ → List PollFd → List PollFd
store_revents revents i [] = []
store_revents revents i (p ∷ rest) =
    record p { revents = poll_events_to_linux (revents i) } ∷ store_revents revents (suc i) rest

-- What a call of `do_poll` gives: the answer, `signal_interrupted`, and the guest's array.
pub record PollEnd : Type 0 where
  pub answer : Answer
  pub interrupted : Bool
  pub fds : List PollFd

abbrev pub is_eintr : Errno → Bool
is_eintr eintr = true
is_eintr _ = false

-- From the result of the host's `poll` on.
unfoldable pub finish_poll : List PollFd → Option ℕ → PollResult → PollEnd
finish_poll fds signal_wait_fd (poll_failed e) = record {
  answer = from_errno e;
  interrupted = is_eintr e;
  fds = fds;
}
finish_poll fds signal_wait_fd (polled n revents) =
    let woken : Bool = elim signal_wait_fd [
      | none ↦ false
      | some fd ↦ not (n == 0) && any_event (revents (length fds))
    ] in
    if woken
    then record { answer = from_errno eintr; interrupted = true; fds = fds }
    else record { answer = value n; interrupted = false; fds = store_revents revents 0 fds }

-- The length of the list is `count`. An array of no descriptors needs no memory.
unfoldable pub do_poll : HostPoll → List PollFd → Milliseconds → Option ℕ → PollEnd
do_poll host fds timeout signal_wait_fd =
    let waits : ℕ = elim signal_wait_fd [ none ↦ 0 | some fd ↦ 1 ] in
    if ltb 65536 (length fds)
    then record { answer = einval; interrupted = false; fds = fds }
    else if not (length fds + waits == 0) && not host.memory
    then record { answer = from_errno enomem; interrupted = false; fds = fds }
    else finish_poll fds signal_wait_fd (host.poll (host_fds fds) signal_wait_fd timeout)

-- LINUX_NR_PPOLL and LINUX_NR_PPOLL_TIME64; the mask, where one is given, with its size.
unfoldable pub ppoll :
    Host
    → WaitHost
    → HostPoll
    → Bool
    → List PollFd
    → Option Timespec
    → Option (SignalSet × ℕ)
    → Caller
    → Answer × List PollFd × Caller
ppoll h w host time64 fds guest_timeout mask caller = elim (timespec_timeout time64 guest_timeout) [
  | none ↦ (einval, fds, caller)
  | some timeout ↦ elim mask [
    | none ↦ let r = do_poll host fds timeout none in (r.answer, r.fds, arrive w caller)
    | some given ↦
        let (begun, ready) = begin_wait h w none (some given.0) given.1 caller in
        elim begun [
          | refused answer ↦ (answer, fds, ready)
          | waiting fd old_words old ↦
              let r = do_poll host fds timeout (some fd) in
              (r.answer, r.fds, end_wait r.interrupted old_words old (arrive w ready))
        ]
  ]
]

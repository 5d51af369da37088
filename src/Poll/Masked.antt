-- ===== src/Poll/Masked.antt =====
-- src/linux_poll.c: the mask of the guest after ppoll and pselect.
use alpine_on_qnx.Prelude.{
  ℕ, ◌≡◌, ◌⊎◌, refl, subst, inl, inr, Bool, true, false, not, ◌&&◌, Option, none, some, List, ltb,
  leb, ◌==◌, ◌+◌, length, Bool-cases, Option-cases,
}
use alpine_on_qnx.Abi.Errno.{Errno, eintr}
use alpine_on_qnx.Abi.Answer.{Answer, from_errno, einval}
use alpine_on_qnx.Futex.Deadline.{Timespec}
use alpine_on_qnx.Poll.Calls.{
  PollFd, HostPoll, PollResult, poll_failed, polled, is_eintr, finish_poll, do_poll, ppoll,
}
use alpine_on_qnx.Poll.Events.{any_event}
use alpine_on_qnx.Poll.Timeout.{Milliseconds, timespec_timeout}
use alpine_on_qnx.Poll.Wait.{
  WaitHost, Caller, Begun, refused, waiting, change_mask, open_wait, begin_wait, arrive, end_wait,
}
use alpine_on_qnx.Signal.{Host}
use alpine_on_qnx.Signal.Mask.{guest_signal_host_mask, without_kill_and_stop}
use alpine_on_qnx.Thread.{SignalSet, Current, ThreadState, guest_thread_signal_wait_begin}
use alpine_on_qnx.Thread.Pending.{
  guest_thread_signal_wait_arm, lowest, candidates, queued, first_realtime_signal,
}

-- No pipe of a signal wait is open.
pub record IsClosed (t : ThreadState) : Type 0 where
  pub reads : t.signal_wait_read_fd ≡ none
  pub writes : t.signal_wait_write_fd ≡ none

-- A thread that no call has left with a mask to bring back.
pub record IsAtRest (t : ThreadState) : Type 0 where
  pub valid : t.suspend_restore_valid ≡ false
  pub closed : IsClosed t

-- After a call with the given answer: the old mask is that of the thread, or it is kept to be brought
-- back by the handler of the signal that has interrupted the call, and the call says EINTR. No pipe
-- is left open.
abbrev pub SettledThread : SignalSet → Answer → Current → Type 0
SettledThread old answer none = ⊥
SettledThread old answer (some t) =
    (((t.suspend_restore_valid ≡ false) × (t.signal_mask ≡ old))
      ⊎ ((t.suspend_restore_valid ≡ true)
          × (t.suspend_restore_mask ≡ old)
          × (answer ≡ from_errno eintr)))
    × IsClosed t

-- And the host's mask is that of before.
abbrev pub Settled : SignalSet → SignalSet → Answer → Caller → Type 0
Settled old old_host answer c = SettledThread old answer c.current × (c.host_mask ≡ old_host)

abbrev pub calling : ThreadState → SignalSet → Caller
calling t host_mask = record { current = some t; host_mask = host_mask }

pub Settled-same :
    (answer : Answer) (t : ThreadState) (m : SignalSet)
    → IsAtRest t
    → Settled t.signal_mask m answer (calling t m)
Settled-same answer t m r = ((inl (r.valid, refl), r.closed), refl)

abbrev pub IsThere : Current → Type 0
IsThere none = ⊥
IsThere (some t) = Unit {0}

-- A beginning is refused with the masks unchanged, or the old masks are handed on.
abbrev pub Ready : ThreadState → SignalSet → Begun → Caller → Type 0
Ready t m (refused answer) c = Settled t.signal_mask m answer c
Ready t m (waiting fd old old_host) c = (old ≡ t.signal_mask) × (old_host ≡ m) × IsThere c.current

armed : (t : ThreadState) → IsThere (guest_thread_signal_wait_arm (some t))
unfolding guest_thread_signal_wait_arm
armed t = elim (Option-cases t.signal_wait_write_fd) [
  | inl e ↦ rw (e, guest_thread_signal_wait_arm) tt
  | inr (fd, e) ↦ elim (Option-cases (lowest 32 1 (candidates t))) [
    | inr (signal, f) ↦ rw (e, f, guest_thread_signal_wait_arm) tt
    | inl f ↦ elim (Option-cases (lowest 16 first_realtime_signal (queued t))) [
      | inr (signal, g) ↦ rw (e, f, g, guest_thread_signal_wait_arm) tt
      | inl g ↦ rw (e, f, g, guest_thread_signal_wait_arm) tt
    ]
  ]
]

module _ (h : Host) (w : WaitHost) where
  change_mask-Ready :
      (fd : ℕ) (words requested m : SignalSet) (t s : ThreadState)
      → s.signal_mask ≡ t.signal_mask
      → s.suspend_restore_valid ≡ false
      → let (begun, ready) = change_mask w fd words requested (calling s m) in Ready t m begun ready
  change_mask-Ready fd words requested m t s same valid = elim (Option-cases w.mask_error) [
    | inr (e, f) ↦ rw f ((inl (valid, same), record { reads = refl; writes = refl }), refl)
    | inl f ↦ rw f (same, refl, armed (record s { signal_mask = without_kill_and_stop words }))
  ]

  open_wait-Ready :
      (limit : Option ℕ) (words requested m : SignalSet) (t : ThreadState) (pipe : Errno ⊎ (ℕ × ℕ))
      → IsAtRest t
      → let (begun, ready) =
          open_wait w limit words requested
            (calling t m)
            (guest_thread_signal_wait_begin pipe (some t)) in
        Ready t m begun ready
  unfolding open_wait
  open_wait-Ready limit words requested m t (inl error) rest =
      Settled-same (from_errno error) t m rest
  open_wait-Ready limit words requested m t (inr (read_fd, write_fd)) rest =
      let piped : ThreadState = record t {
        signal_wait_read_fd = some read_fd;
        signal_wait_write_fd = some write_fd;
        signal_wait_bytes = 0;
      } in
      let changed = change_mask-Ready read_fd words requested m t piped refl rest.valid in
      elim (Option-cases limit) [
        | inl g ↦ rw (g, open_wait) changed
        | inr (most, g) ↦ elim (Bool-cases (leb most read_fd)) [
          | inl k ↦
              rw (g, k, open_wait)
                ((inl (rest.valid, refl), record { reads = refl; writes = refl }), refl)
          | inr k ↦ rw (g, k, open_wait) changed
        ]
      ]

  pub begin_wait-Ready :
      (limit : Option ℕ) (guest_set : Option SignalSet) (size : ℕ) (m : SignalSet) (t : ThreadState)
      → IsAtRest t
      → let (begun, ready) = begin_wait h w limit guest_set size (calling t m) in
        Ready t m begun ready
  unfolding begin_wait
  begin_wait-Ready limit guest_set size m t rest = elim (Option-cases guest_set) [
    | inl e ↦ rw e (Settled-same einval t m rest)
    | inr (words, e) ↦ elim (Option-cases (guest_signal_host_mask h (some words) size)) [
      | inl f ↦ rw (e, f, begin_wait) (Settled-same einval t m rest)
      | inr (requested, f) ↦
          rw (e, f, begin_wait) (open_wait-Ready limit words requested m t w.pipe rest)
    ]
  ]

  ended :
      (interrupted : Bool) (old old_host m : SignalSet) (answer : Answer) (current : Current)
      → IsThere current
      → (interrupted ≡ true → answer ≡ from_errno eintr)
      → let c : Caller = record { current = current; host_mask = m } in
        Settled old old_host answer (end_wait interrupted old old_host (arrive w c))
  unfolding end_wait
  ended interrupted old old_host m answer none there says = absurd there
  ended true old old_host m answer (some t) there says =
      ((inr (refl, refl, says refl), record { reads = refl; writes = refl }), refl)
  ended false old old_host m answer (some t) there says =
      ((inl (refl, refl), record { reads = refl; writes = refl }), refl)

  -- What follows a wait that has begun.
  pub end_wait-Settled :
      (interrupted : Bool) (t : ThreadState) (m : SignalSet) (fd : ℕ) (old old_host : SignalSet)
      (answer : Answer) (c : Caller)
      → Ready t m (waiting fd old old_host) c
      → (interrupted ≡ true → answer ≡ from_errno eintr)
      → Settled t.signal_mask m answer (end_wait interrupted old old_host (arrive w c))
  end_wait-Settled interrupted t m fd old old_host answer c ready says =
      let after = end_wait interrupted old old_host (arrive w c) in
      subst (λ x. Settled x m answer after) ready.0
        (subst (λ x. Settled old x answer after) ready.1
          (ended interrupted old old_host c.host_mask answer c.current ready.2 says))

pub eintr_only : (e : Errno) → is_eintr e ≡ true → from_errno e ≡ from_errno eintr
eintr_only eintr h = refl
eintr_only _ h = absurd cc

finish_poll_interrupted :
    (fds : List PollFd) (fd : Option ℕ) (r : PollResult)
    → (finish_poll fds fd r).interrupted ≡ true
    → (finish_poll fds fd r).answer ≡ from_errno eintr
unfolding finish_poll
finish_poll_interrupted fds fd (poll_failed e) h = eintr_only e h
finish_poll_interrupted fds none (polled n revents) h = absurd cc
finish_poll_interrupted fds (some fd) (polled n revents) h =
    elim (Bool-cases (not (n == 0) && any_event (revents (length fds)))) [
      | inl e ↦ rw e refl
      | inr e ↦ absurd (cc (rw e at h))
    ]

do_poll_interrupted :
    (host : HostPoll) (fds : List PollFd) (timeout : Milliseconds) (fd : Option ℕ)
    → (do_poll host fds timeout fd).interrupted ≡ true
    → (do_poll host fds timeout fd).answer ≡ from_errno eintr
unfolding do_poll
do_poll_interrupted host fds timeout fd h =
    let waits : ℕ = elim fd [ none ↦ 0 | some n ↦ 1 ] in
    elim (Bool-cases (ltb 65536 (length fds))) [
      | inl e ↦ absurd (cc (rw e at h))
      | inr e ↦ elim (Bool-cases (not (length fds + waits == 0) && not host.memory)) [
        | inl f ↦ absurd (cc (rw (e, f) at h))
        | inr f ↦ rw (e, f) (finish_poll_interrupted fds fd _ (rw (e, f) at h))
      ]
    ]

-- However ppoll ends that is given a mask, for a thread that no call has left with a mask to bring
-- back: the mask of the thread is the old one, or the call says EINTR and the old mask is kept for the
-- handler of the signal to bring back; the mask that the host has for the thread is the old one,
-- whatever the handlers of signals did to it; no pipe is left open.
pub ppoll-Settled :
    (h : Host) (w : WaitHost) (host : HostPoll) (time64 : Bool) (fds : List PollFd)
    (guest_timeout : Option Timespec) (mask : SignalSet × ℕ) (t : ThreadState) (m : SignalSet)
    → IsAtRest t
    → let (answer, new_fds, new) =
        ppoll h w host time64 fds guest_timeout (some mask) (calling t m) in
      Settled t.signal_mask m answer new
unfolding ppoll
ppoll-Settled h w host time64 fds guest_timeout mask t m rest =
    elim (Option-cases (timespec_timeout time64 guest_timeout)) [
      | inl e ↦ rw (e, ppoll) (Settled-same einval t m rest)
      | inr (timeout, e) ↦
          begun timeout e begin.0 refl (begin_wait-Ready h w none (some mask.0) mask.1 m t rest)
    ]
  where
    begin : Begun × Caller
    begin = begin_wait h w none (some mask.0) mask.1 (calling t m)

    begun :
        (timeout : Milliseconds)
        → timespec_timeout time64 guest_timeout ≡ some timeout
        → (b : Begun) → begin.0 ≡ b
        → Ready t m b begin.1
        → let (answer, new_fds, new) =
            ppoll h w host time64 fds guest_timeout (some mask) (calling t m) in
          Settled t.signal_mask m answer new
    begun timeout e (refused answer) f ready = rw (e, f, ppoll) ready
    begun timeout e (waiting fd old old_host) f ready =
        let r = do_poll host fds timeout (some fd) in
        rw (e, f, ppoll)
          (end_wait-Settled h w r.interrupted t m fd old old_host r.answer begin.1 ready
            (do_poll_interrupted host fds timeout (some fd)))

-- ===== src/Poll/Tests.antt =====
-- Tests of poll and select.
use alpine_on_qnx.Prelude.{
  ℕ, ◌*◌, ◌+◌, ◌<◌, ◌≤◌, ◌≡◌, ◌↔◌, ◌⊎◌, refl, inr, true, false, some, none, List, [], ◌∷◌, ◌==◌,
  arith,
}
use alpine_on_qnx.Abi.Answer.{Answer, from_errno}
use alpine_on_qnx.Abi.Errno.{eintr}
use alpine_on_qnx.Futex.Deadline.{Timespec, in_nanoseconds}
use alpine_on_qnx.Poll.Calls.{PollFd, HostPoll, polled, finish_poll, store_revents, do_poll, ppoll}
use alpine_on_qnx.Poll.Events.{HostEvents, poll_events_to_linux}
use alpine_on_qnx.Poll.FdSets.{fdset_to_host, fdset_to_guest, fdset_to_guest_lem}
use alpine_on_qnx.Poll.Masked.{IsAtRest, Settled, calling, ppoll-Settled}
use alpine_on_qnx.Poll.Select.{
  SelectCall, SelectEnd, Selected, selected, do_select, poll_number_of, pselect_number,
}
use alpine_on_qnx.Poll.Selecting.{with_mask, do_select-Settled}
use alpine_on_qnx.Poll.Timeout.{int_max, milliseconds, timespec_timeout, timespec_timeout_lem}
use alpine_on_qnx.Poll.Wait.{WaitHost, Caller}
use alpine_on_qnx.Signal.Tests.{qnx, runs}
use alpine_on_qnx.Thread.{ThreadState, no_signals}

-- Almost 2147484 seconds.
abbrev far : Timespec
far = record { seconds = 2147483; nanoseconds = 999999999 }

-- As an `int`, this is negative.
far_milliseconds : timespec_timeout true (some far) ≡ some (milliseconds 2147484000)
unfolding timespec_timeout
far_milliseconds = refl

timespec_timeout_lem_example :
    (((◌≡◌ {A = ℕ} 2147484000 int_max) × (2147483 < far.seconds))
      ⊎ ((in_nanoseconds far ≤ 2147484000 * 1000000)
          × (2147484000 * 1000000 < in_nanoseconds far + 1000000)))
    × ((int_max < 2147484000) ↔ ((far.seconds ≡ 2147483) × (647000000 < far.nanoseconds)))
timespec_timeout_lem_example = timespec_timeout_lem true far 2147484000 far_milliseconds

fdset_to_guest_lem_example :
    fdset_to_host (some (fdset_to_guest (λ w. 0) 40 (λ fd. fd == 35))) 40 35 ≡ true
fdset_to_guest_lem_example = fdset_to_guest_lem (λ w. 0) 40 (λ fd. fd == 35) 35 (omega arith)

-- A write that does not block, in the guest's bits POLLOUT and POLLWRNORM.
abbrev writable : HostEvents
writable = record {
  rdnorm = false;
  rdband = false;
  pri = false;
  out = true;
  wrband = false;
  err = false;
  hup = false;
  nval = false;
}

writable_bits : poll_events_to_linux writable ≡ 0x104
unfolding poll_events_to_linux
writable_bits = refl

-- Descriptor 5 becomes writable, and a signal arrives.
abbrev both_ready : HostPoll
both_ready = record { memory = true; poll = λ fds fd timeout. polled 2 (λ i. writable) }

abbrev one_fd : PollFd
one_fd = record { fd = 5; events = 4; revents = 0 }

signal_first :
    (do_poll both_ready (one_fd ∷ []) (milliseconds 10) (some 7)).answer ≡ from_errno eintr
unfolding do_poll finish_poll
signal_first = refl

stored :
    (do_poll both_ready (one_fd ∷ []) (milliseconds 10) none).fds
    ≡ record one_fd { revents = 0x104 } ∷ []
unfolding do_poll finish_poll store_revents poll_events_to_linux
stored = refl

abbrev wait_host : WaitHost
wait_host = record {
  pipe = inr (7, 8);
  mask_error = none;
  meanwhile = λ t. t;
  meanwhile_host = λ m n. true;
}

abbrev resting : ThreadState
resting = record runs {
  suspend_restore_valid = false;
  signal_wait_read_fd = none;
  signal_wait_write_fd = none;
}

resting-IsAtRest : IsAtRest resting
resting-IsAtRest = record { valid = refl; closed = record { reads = refl; writes = refl } }

abbrev polled_one : Answer × List PollFd × Caller
polled_one =
    ppoll qnx wait_host both_ready false (one_fd ∷ []) none (some (no_signals, 8))
      (calling resting no_signals)

ppoll-Settled_example : Settled resting.signal_mask no_signals polled_one.0 polled_one.2
ppoll-Settled_example =
    ppoll-Settled qnx wait_host both_ready false (one_fd ∷ []) none (no_signals, 8) resting
      no_signals resting-IsAtRest

-- Descriptor 3 of 5 is looked at.
abbrev reads_three : SelectCall
reads_three = record {
  count = 5;
  read_words = some (λ w. 8);
  write_words = none;
  except_words = none;
  timeout = none;
  mask = none;
  pselect_call = true;
  time64 = false;
}

abbrev three_ready : Selected
three_ready = record {
  count = 1;
  read_set = λ fd. fd == 3;
  write_set = λ fd. false;
  except_set = λ fd. false;
  left = record { tv_sec = 0; tv_usec = 0 };
}

abbrev selected_one : SelectEnd
selected_one =
    do_select qnx wait_host 256 (λ r. selected three_ready)
      (with_mask reads_three (some no_signals, 8)) (calling resting no_signals)

do_select-Settled_example :
    Settled resting.signal_mask no_signals selected_one.answer selected_one.caller
do_select-Settled_example =
    do_select-Settled qnx wait_host 256 (λ r. selected three_ready) reads_three (some no_signals, 8)
      resting no_signals resting-IsAtRest

pselect_time64 : poll_number_of 413 ≡ pselect_number true
unfolding poll_number_of
pselect_time64 = refl

-- ===== src/Futex/Tests.antt =====
-- Tests of the futex calls.
use alpine_on_qnx.Prelude.{◌≡◌, refl, ltb, leb, ◌&&◌, none, List, [], ◌∷◌, true, false, some}
use alpine_on_qnx.Abi.Answer.{value}
use alpine_on_qnx.Futex.{Waiter, wake_from, linux_futex_wake, was_woken}
use alpine_on_qnx.Futex.Deadline.{Timespec, relative_deadline}
use alpine_on_qnx.Futex.Reach.{System}

-- Three threads; the second waits elsewhere, the third has been woken.
abbrev three : List Waiter
three =
    record { thread = 1; address = 0x1000; bitset = 1; woken = false; semaphore = 0; signalled = 0 }
    ∷ record {
      thread = 2;
      address = 0x2000;
      bitset = 3;
      woken = false;
      semaphore = 0;
      signalled = 0;
    }
    ∷ record {
      thread = 3;
      address = 0x1000;
      bitset = 1;
      woken = true;
      semaphore = 1;
      signalled = 0;
    }
    ∷ []

wakes_one : (linux_futex_wake none 0x1000 5 1 three).0 ≡ value 1
unfolding linux_futex_wake wake_from
wakes_one = refl

woken_third : was_woken 3 three ≡ true
unfolding was_woken
woken_third = refl

abbrev clock_time : Timespec
clock_time = record { seconds = 100; nanoseconds = 900000000 }

abbrev timeout : Timespec
timeout = record { seconds = 2; nanoseconds = 200000000 }

carries :
    relative_deadline timeout (record { realtime = some clock_time; monotonic = none })
    ≡ some (record { seconds = 103; nanoseconds = 100000000 })
unfolding relative_deadline
carries = refl

-- The first two are in their calls, and so is the third.
abbrev three_waiting : System
three_waiting = record { waiters = three; waiting = λ t. ltb 0 t && leb t 3 }

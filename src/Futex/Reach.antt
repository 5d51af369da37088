-- ===== src/Futex/Reach.antt =====
-- src/linux_futex.c with src/guest_thread.c: the list of waiters under any sequence of calls by any
-- threads and of signals for them.
use alpine_on_qnx.Prelude.{ℕ, ◌≡◌, Bool, true, false, Option, List, []}
use alpine_on_qnx.Abi.Errno.{Errno}
use alpine_on_qnx.Futex.Deadline.{Timespec, Clocks}
use alpine_on_qnx.Thread.Pending.{update}
use alpine_on_qnx.Futex.{
  Waiter, linux_futex_wake, futex_requeue, asleep, futex_wait_begin, signal_waiter, futex_wait_end,
}
use alpine_on_qnx.Futex.Steps.{Absent, IsQueue}

-- The list, and which threads are in `futex_wait`, between its two halves.
pub record System : Type 0 where
  pub waiters : List Waiter
  pub waiting : ℕ → Bool

abbrev no_threads : ℕ → Bool
no_threads t = false

abbrev with_waiters : System → List Waiter → System
with_waiters s ws = record s { waiters = ws }

-- One thread's turn with the lock, or a signal for a thread. A thread calls `futex_wait` only when it is
-- not in it.
pub data Step (s : System) : System → Type 0 where
  sleep :
      (sem lock : Option Errno) (clocks : Clocks) (thread address word expected bitset clock : ℕ)
      (timeout deadline : Option Timespec) {new : List Waiter}
      → s.waiting thread ≡ false
      → futex_wait_begin sem lock clocks thread address word expected timeout bitset clock s.waiters
        ≡ (asleep deadline, new)
      → Step s (record { waiters = new; waiting = update s.waiting thread true })
  wake_up :
      (lock : Option Errno) (address count bitset : ℕ)
      → Step s (with_waiters s (linux_futex_wake lock address count bitset s.waiters).1)
  move :
      (lock : Option Errno) (address wakes requeues second : ℕ) (compare : Bool) (expected word : ℕ)
      → Step s (
          with_waiters s
            (futex_requeue lock address wakes requeues second compare expected word s.waiters).1)
  interrupt : (thread : ℕ) → Step s (with_waiters s (signal_waiter thread s.waiters))
  finish :
      (thread : ℕ) (sem : Option Errno) (interrupted : Bool)
      → Step s (record {
        waiters = (futex_wait_end thread sem interrupted s.waiters).1;
        waiting = update s.waiting thread false;
      })
  -- `linux_futex_after_fork`, in the child
  fork : Step s (record { waiters = []; waiting = no_threads })

pub data Reach (s : System) : System → Type 0 where
  here : Reach s s
  next : {mid new : System} → Reach s mid → Step mid new → Reach s new

-- The list is in order, and no thread stands in it that is not in `futex_wait`.
pub record IsSystem (s : System) : Type 0 where
  pub queue : IsQueue s.waiters
  pub absent : (thread : ℕ) → s.waiting thread ≡ false → Absent thread s.waiters

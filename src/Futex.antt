-- ===== src/Futex.antt =====
-- src/linux_futex.c: futexes on a list of waiting threads. Each part that runs under `futex_lock`
-- is one step on the list; the first waiter of the list is the latest.
pub mod Deadline
pub mod Wake
pub mod Requeue
pub mod Command
pub mod Steps
pub mod Reach
pub mod Leave
mod Tests
use Prim.Native.Nat.{bit_and}
use alpine_on_qnx.Prelude.{
  ℕ, zero, suc, ◌+◌, ◌-◌, ◌*◌, ◌^◌, ◌<◌, Bool, true, false, not, ◌&&◌, ◌||◌, Option, none, some,
  List, [], ◌∷◌, ltb, leb, ◌==◌, if◌then◌else◌,
}
use alpine_on_qnx.Words.{not32}
use alpine_on_qnx.Abi.Errno.{Errno, etimedout, eintr}
use alpine_on_qnx.Abi.Answer.{Answer, value, error, from_errno, einval, eagain, enosys}
use alpine_on_qnx.Futex.Deadline.{Timespec, Clocks, relative_deadline, absolute_deadline}

-- `struct futex_waiter`, with the thread that it belongs to, how often its semaphore has been posted,
-- and how often by signals.
pub record Waiter : Type 0 where
  pub thread : ℕ
  pub address : ℕ
  pub bitset : ℕ
  pub woken : Bool
  pub semaphore : ℕ
  pub signalled : ℕ

abbrev pub int_max : ℕ
int_max = 2147483647

-- `waiter->woken = 1; sem_post(&waiter->semaphore)`
abbrev pub post : Waiter → Waiter
post w = record w { woken = true; semaphore = w.semaphore + 1 }

-- The waiters that the loop of `linux_futex_wake` does not pass over.
abbrev pub matches : ℕ → ℕ → Waiter → Bool
matches address bitset w =
    w.address == address && (not (bit_and w.bitset bitset == 0) && not w.woken)

unfoldable pub wake_from : ℕ → ℕ → ℕ → ℕ → List Waiter → ℕ × List Waiter
wake_from address count bitset woken [] = (woken, [])
wake_from address count bitset woken (w ∷ rest) =
    let hit = matches address bitset w in
    let (n, rest') = wake_from address count bitset (if hit then woken + 1 else woken) rest in
    if ltb woken count then (n, (if hit then post w else w) ∷ rest') else (woken, w ∷ rest)

-- `linux_futex_wake`. A count that is negative as an `int` is above INT_MAX; the error of the
-- mutex, if any, is given.
unfoldable pub linux_futex_wake : Option Errno → ℕ → ℕ → ℕ → List Waiter → Answer × List Waiter
linux_futex_wake lock_error address count bitset waiters =
    let (n, woken) = wake_from address count bitset 0 waiters in
    if ltb int_max count || bitset == 0
    then (einval, waiters)
    else elim lock_error [ some e ↦ (from_errno e, waiters) | none ↦ (value n, woken) ]

-- The loop of `futex_requeue`, with its counters: woken, requeued, waiters.
unfoldable pub requeue_from : ℕ → ℕ → ℕ → ℕ → ℕ → ℕ → List Waiter → ℕ × ℕ × List Waiter
requeue_from address wakes requeues second woken requeued [] = (woken, requeued, [])
requeue_from address wakes requeues second woken requeued (w ∷ rest) =
    let passed = not (w.address == address) || w.woken in
    let wake = not passed && ltb woken wakes in
    let move = not passed && (not (ltb woken wakes) && ltb requeued requeues) in
    let woken' = if wake then woken + 1 else woken in
    let requeued' = if move then requeued + 1 else requeued in
    let w' = if wake then post w else if move then record w { address = second } else w in
    let (n, m, rest') = requeue_from address wakes requeues second woken' requeued' rest in
    if not passed && (woken' == wakes && requeued' == requeues)
    then (woken', requeued', w' ∷ rest)
    else (n, m, w' ∷ rest')

-- `futex_requeue`; `word` is the value at `address`, looked at where `compare` is set.
unfoldable pub futex_requeue :
    Option Errno → ℕ → ℕ → ℕ → ℕ → Bool → ℕ → ℕ → List Waiter → Answer × List Waiter
futex_requeue lock_error address wakes requeues second compare expected word waiters =
    let (n, m, moved) = requeue_from address wakes requeues second 0 0 waiters in
    if ltb int_max wakes || ltb int_max requeues || second == 0
    then (einval, waiters)
    else elim lock_error [
      | some e ↦ (from_errno e, waiters)
      | none ↦
          if compare && not (word == expected) then (eagain, waiters) else (value (n + m), moved)
    ]

-- The first half of `futex_wait`, up to where the lock is given up: an answer, or a place in the
-- list with the deadline to sleep until. `timeout` is the guest's timespec, if it gives one.
pub data Waiting : Type 0 where
  answered : Answer → Waiting
  asleep : Option Timespec → Waiting

abbrev pub deadline_of : ℕ → Clocks → Timespec → Option Timespec
deadline_of absolute_clock clocks t =
    if absolute_clock == 0
    then relative_deadline t clocks
    else absolute_deadline t (absolute_clock == 2) clocks

-- From here on the semaphore is known to the thread, `guest_thread_futex_wait_begin`, and
-- `signal_waiter` posts it.
abbrev pub enqueue : ℕ → ℕ → ℕ → List Waiter → List Waiter
enqueue thread address bitset waiters =
    record {
      thread = thread;
      address = address;
      bitset = bitset;
      woken = false;
      semaphore = 0;
      signalled = 0;
    }
    ∷ waiters

abbrev pub wait_locked :
    Option Errno
    → Option Errno
    → ℕ
    → ℕ
    → ℕ
    → ℕ
    → ℕ
    → Option Timespec
    → List Waiter
    → Waiting × List Waiter
wait_locked (some e) lock_error thread address word expected bitset deadline waiters =
    (answered (from_errno e), waiters)
wait_locked none (some e) thread address word expected bitset deadline waiters =
    (answered (from_errno e), waiters)
wait_locked none none thread address word expected bitset deadline waiters =
    if word == expected
    then (asleep deadline, enqueue thread address bitset waiters)
    else (answered eagain, waiters)

unfoldable pub futex_wait_begin :
    Option Errno
    → Option Errno
    → Clocks
    → ℕ
    → ℕ
    → ℕ
    → ℕ
    → Option Timespec
    → ℕ
    → ℕ
    → List Waiter
    → Waiting × List Waiter
futex_wait_begin sem_error lock_error clocks thread address word expected timeout bitset
      absolute_clock waiters =
    let go = wait_locked sem_error lock_error thread address word expected bitset in
    if bitset == 0 then (answered einval, waiters) else elim timeout [
      | none ↦ go none waiters
      | some t ↦ elim (deadline_of absolute_clock clocks t) [
        | none ↦ (answered einval, waiters)
        | some deadline ↦ go (some deadline) waiters
      ]
    ]

-- `guest_thread_signal_pending` for a thread that has handed its semaphore to
-- `guest_thread_futex_wait_begin`: it is posted, by the handler of a signal, without the lock.
unfoldable pub signal_waiter : ℕ → List Waiter → List Waiter
signal_waiter thread [] = []
signal_waiter thread (w ∷ rest) =
    if w.thread == thread
    then record w { semaphore = w.semaphore + 1; signalled = w.signalled + 1 } ∷ rest
    else w ∷ signal_waiter thread rest

-- `remove_waiter`
unfoldable pub remove_waiter : ℕ → List Waiter → List Waiter
remove_waiter thread [] = []
remove_waiter thread (w ∷ rest) = if w.thread == thread then rest else w ∷ remove_waiter thread rest

unfoldable pub was_woken : ℕ → List Waiter → Bool
was_woken thread [] = false
was_woken thread (w ∷ rest) = if w.thread == thread then w.woken else was_woken thread rest

-- The second half of `futex_wait`, from the return of `sem_wait` or `sem_timedwait` on: with its
-- error, if any, and whether a signal has interrupted the wait.
unfoldable pub futex_wait_end : ℕ → Option Errno → Bool → List Waiter → Answer × List Waiter
futex_wait_end thread sem_error interrupted waiters =
    let result : Answer = elim sem_error [
      | none ↦ if interrupted then from_errno eintr else value 0
      | some etimedout ↦ error 110
      | some e ↦ from_errno e
    ] in
    (if was_woken thread waiters then value 0 else result, remove_waiter thread waiters)

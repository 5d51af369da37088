-- ===== src/Thread/Pending.antt =====
-- src/guest_thread.c: the signals that wait for a thread. Signals 32 to 47 have a queue of 64 places
-- each, the others a bit; head and tail of a queue count all that was put in and taken out. A count is
-- an `int`, which is given by its 32 bits, and wraps around.
pub mod Queue
pub mod Lowest
pub mod Refine
pub mod Taken
use alpine_on_qnx.Prelude.{
  ℕ, zero, suc, ◌+◌, ◌-◌, ◌%◌, ◌^◌, Bool, true, false, not, ◌&&◌, ◌||◌, Option, none, some, ltb,
  leb, ◌==◌, if◌then◌else◌,
}
use alpine_on_qnx.Thread.{
  SignalSet, add_signal, delete_signal, SignalInfo, no_information, ThreadState, Current,
}

abbrev pub first_realtime_signal : ℕ
first_realtime_signal = 32

abbrev pub last_realtime_signal : ℕ
last_realtime_signal = 47

abbrev pub realtime_queue_length : ℕ
realtime_queue_length = 64

abbrev pub given : Option SignalInfo → SignalInfo
given none = no_information
given (some information) = information

abbrev pub update {ℓ} : {A : Type ℓ} → (ℕ → A) → ℕ → A → ℕ → A
update f i v k = if k == i then v else f k

-- The place of a count in its array, `count % REALTIME_QUEUE_LENGTH`, as 32 bits: the remainder of a
-- negative count is negative, and what stands for it in the array is memory outside of it.
abbrev pub slot : ℕ → ℕ
slot count =
    if ltb count (2 ^ 31)
    then count % realtime_queue_length
    else (2 ^ 32 - (2 ^ 32 - count) % realtime_queue_length) % 2 ^ 32

abbrev pub next_count : ℕ → ℕ
next_count count = (count + 1) % 2 ^ 32

-- `tail - head < REALTIME_QUEUE_LENGTH`, where the difference is an `int`
abbrev pub has_room : ℕ → ℕ → Bool
has_room head tail =
    let difference = (tail + 2 ^ 32 - head) % 2 ^ 32 in
    ltb difference realtime_queue_length || leb (2 ^ 31) difference

unfoldable pub queue_realtime : ℕ → Option SignalInfo → ThreadState → ThreadState
queue_realtime index information t =
    let tail = t.realtime_tail index in
    if has_room (t.realtime_head index) tail
    then record t {
      realtime_information =
          update t.realtime_information index
            (update (t.realtime_information index) (slot tail) (given information));
      realtime_tail = update t.realtime_tail index (next_count tail);
    }
    else t

unfoldable pub mark_pending : ℕ → Option SignalInfo → ThreadState → ThreadState
mark_pending signal information t = record t {
  pending_information =
      if not (t.pending_signals signal) && leb signal 31
      then update t.pending_information signal (given information)
      else t.pending_information;
  pending_signals = add_signal signal t.pending_signals;
}

-- `sem_post`, if there is a semaphore.
abbrev pub posted : Option ℕ → Option ℕ
posted none = none
posted (some posts) = some (suc posts)

abbrev pub is_set : Option ℕ → Bool
is_set none = false
is_set (some v) = true

-- The waits of the thread that a signal ends.
unfoldable pub wake_waits : ThreadState → ThreadState
wake_waits t = record t {
  futex_interrupted = is_set t.futex_semaphore || t.futex_interrupted;
  futex_semaphore = posted t.futex_semaphore;
  signal_wait_bytes =
      if is_set t.signal_wait_write_fd then suc t.signal_wait_bytes else t.signal_wait_bytes;
}

abbrev pub is_realtime : ℕ → Bool
is_realtime signal = leb first_realtime_signal signal && leb signal last_realtime_signal

unfoldable pub guest_thread_signal_pending : ℕ → Option SignalInfo → Current → Current
guest_thread_signal_pending signal information none = none
guest_thread_signal_pending signal information (some t) =
    if ltb 0 signal && leb signal 64
    then some (
        wake_waits (
          if is_realtime signal
          then queue_realtime (signal - first_realtime_signal) information t
          else mark_pending signal information t))
    else some t

-- `__builtin_ctz` of the word of signals 1 to 32: the first signal from `n` on that is in the set,
-- with `count` signals to look at.
unfoldable pub lowest : ℕ → ℕ → SignalSet → Option ℕ
lowest zero n set = none
lowest (suc count) n set = if set n then some n else lowest count (n + 1) set

abbrev pub candidates : ThreadState → SignalSet
candidates t n = t.pending_signals n && not (t.signal_mask n)

abbrev pub queued : ThreadState → SignalSet
queued t n =
    not (t.signal_mask n)
    && not
        (t.realtime_head (n - first_realtime_signal) == t.realtime_tail (n - first_realtime_signal))

abbrev pub take_standard : ℕ → ThreadState → SignalInfo × ThreadState
take_standard signal t = (
  t.pending_information signal,
  record t { pending_signals = delete_signal signal t.pending_signals },
)

abbrev pub take_realtime : ℕ → ThreadState → SignalInfo × ThreadState
take_realtime signal t =
    let index = signal - first_realtime_signal in
    let head = t.realtime_head index in
    (
      t.realtime_information index (slot head),
      record t { realtime_head = update t.realtime_head index (next_count head) },
    )

-- The signal, if any, with its information, and the thread without it. The loop around the
-- compare-and-swap is passed with the turn that succeeds.
unfoldable pub take_from : ThreadState → Option (ℕ × SignalInfo) × ThreadState
unfolding lowest
take_from t = elim (lowest 32 1 (candidates t)) [
  | some signal ↦ (some (signal, (take_standard signal t).0), (take_standard signal t).1)
  | none ↦ elim (lowest 16 first_realtime_signal (queued t)) [
    | some signal ↦ (some (signal, (take_realtime signal t).0), (take_realtime signal t).1)
    | none ↦ (none, t)
  ]
]

unfoldable pub guest_thread_take_pending : Current → Option (ℕ × SignalInfo) × Current
unfolding take_from
guest_thread_take_pending none = (none, none)
guest_thread_take_pending (some t) = let (taken, left) = take_from t in (taken, some left)

-- `guest_thread_signal_wait_arm`: a byte is written if a signal waits already.
unfoldable pub guest_thread_signal_wait_arm : Current → Current
guest_thread_signal_wait_arm none = none
guest_thread_signal_wait_arm (some t) =
    let armed : Current = some (record t { signal_wait_bytes = suc t.signal_wait_bytes }) in
    elim t.signal_wait_write_fd [
      | none ↦ some t
      | some fd ↦ elim (lowest 32 1 (candidates t)) [
        | some signal ↦ armed
        | none ↦ elim (lowest 16 first_realtime_signal (queued t)) [
          | some signal ↦ armed
          | none ↦ some t
        ]
      ]
    ]

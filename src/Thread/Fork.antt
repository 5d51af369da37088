-- ===== src/Thread/Fork.antt =====
-- src/guest_thread.c: the threads of a process at its start, and of the child of a fork.
use alpine_on_qnx.Prelude.{ℕ, ◌+◌, ◌≡◌, false, none, some, [], ◌∷◌, arith}
use alpine_on_qnx.Words.{u32}
use alpine_on_qnx.Thread.{
  ThreadState, Current, no_signals, no_information, runtime_guest_tls, guest_thread_signal_mask_get,
  guest_thread_altstack_get,
}
use alpine_on_qnx.Thread.Tid.{initial_guest_tid, IsTid, initial_guest_tid-IsTid}
use alpine_on_qnx.Thread.Clone.{Registry, IsRegistry}

-- `main_thread` after `memset` and the setting of its number, at the address `self`.
abbrev pub main_thread : ℕ → ℕ → ThreadState
main_thread self pid = record {
  self = self;
  registers = λ i. 0;
  guest_tls = 0;
  clear_child_tid = 0;
  child_tid = 0;
  tid = initial_guest_tid pid;
  start = false;
  pending_signals = no_signals;
  pending_information = λ n. no_information;
  realtime_head = λ i. 0;
  realtime_tail = λ i. 0;
  realtime_information = λ i k. no_information;
  signal_mask = no_signals;
  suspend_restore_mask = no_signals;
  suspend_restore_valid = false;
  futex_semaphore = none;
  futex_interrupted = false;
  signal_wait_read_fd = none;
  signal_wait_write_fd = none;
  signal_wait_bytes = 0;
  syscall_active = false;
  altstack_pointer = 0;
  altstack_size = 0;
  deferred_unmap_start = 0;
  deferred_unmap_length = 0;
}

-- `thread_registry`, `next_tid` and the current thread; the keys of the host's threads are there.
unfoldable pub guest_thread_initialize : ℕ → ℕ → (ℕ → ℕ) → Registry × Current
guest_thread_initialize self pid memory = (
  record {
    threads = main_thread self pid ∷ [];
    next_tid = u32 (initial_guest_tid pid + 1);
    memory = memory;
  },
  some (main_thread self pid),
)

-- The child is the thread that has forked, as the only one: it keeps its thread pointer, its mask and
-- its alternate stack.
unfoldable pub guest_thread_after_fork : ℕ → ℕ → Current → Registry → Registry × Current
guest_thread_after_fork self pid state r =
    let (pointer, size) = guest_thread_altstack_get state in
    let child : ThreadState = record (main_thread self pid) {
      guest_tls = runtime_guest_tls state;
      signal_mask = guest_thread_signal_mask_get state;
      altstack_pointer = pointer;
      altstack_size = size;
    } in
    (record r { threads = child ∷ []; next_tid = u32 (initial_guest_tid pid + 1) }, some child)

abbrev pub guest_thread_tid : ℕ → Current → ℕ
guest_thread_tid pid none = initial_guest_tid pid
guest_thread_tid pid (some t) = t.tid

unfoldable pub guest_thread_set_tid_address : ℕ → ℕ → Current → ℕ × Current
guest_thread_set_tid_address pid address none = (guest_thread_tid pid none, none)
guest_thread_set_tid_address pid address (some t) =
    (t.tid, some (record t { clear_child_tid = address }))

-- The two ends of the pipe are closed.
abbrev pub guest_thread_signal_wait_end : Current → Current
guest_thread_signal_wait_end none = none
guest_thread_signal_wait_end (some t) =
    some (record t { signal_wait_read_fd = none; signal_wait_write_fd = none })

-- One thread whose number fits, and the number behind it.
alone-IsRegistry :
    (t : ThreadState) (memory : ℕ → ℕ)
    → IsTid t.tid
    → IsRegistry (record { threads = t ∷ []; next_tid = u32 (t.tid + 1); memory = memory })
unfolding IsTid
alone-IsRegistry t memory (positive, small) =
    let next : u32 (t.tid + 1) ≡ t.tid + 1 = omega (arith, small) in
    record {
      positive = omega (arith, next);
      below = (omega (arith, next), tt);
      distinct = (tt, tt);
    }

-- In the child of a fork the one thread has a number of its own, below those to come.
pub guest_thread_after_fork-IsRegistry :
    (self pid : ℕ) (state : Current) (r : Registry)
    → IsRegistry (guest_thread_after_fork self pid state r).0
unfolding guest_thread_after_fork
guest_thread_after_fork-IsRegistry self pid state r =
    alone-IsRegistry _ r.memory (initial_guest_tid-IsTid pid)

-- So has the first thread of the emulator.
pub guest_thread_initialize-IsRegistry :
    (self pid : ℕ) (memory : ℕ → ℕ) → IsRegistry (guest_thread_initialize self pid memory).0
unfolding guest_thread_initialize
guest_thread_initialize-IsRegistry self pid memory =
    alone-IsRegistry _ memory (initial_guest_tid-IsTid pid)

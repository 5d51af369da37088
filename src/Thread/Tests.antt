-- ===== src/Thread/Tests.antt =====
-- Tests of the guest's threads.
use alpine_on_qnx.Prelude.{
  ℕ, ◌+◌, ◌-◌, ◌^◌, ◌<◌, ◌≡◌, refl, inl, inr, Bool-cases, true, false, if◌then◌else◌, none, some,
  [], ◌∷◌, ◌==◌, arith,
}
use alpine_on_qnx.Thread.{no_information, ThreadState, no_signals}
use alpine_on_qnx.Thread.Pending.{take_from, given, guest_thread_signal_pending}
use alpine_on_qnx.Thread.Pending.Taken.{Takes, take_from-Takes}
use alpine_on_qnx.Thread.Pending.Queue.{IsRing}
use alpine_on_qnx.Thread.Pending.Refine.{Queued, guest_thread_signal_pending-Queued}
use alpine_on_qnx.Thread.Tid.{allocate_guest_tid, IsTid, allocate_guest_tid_total}
use alpine_on_qnx.Thread.Clone.{
  Registry, guest_thread_clone, IsRegistry, thread_required, guest_thread_clone-IsRegistry,
}
use alpine_on_qnx.Thread.Exit.{Process, all_bits}

-- Signals 10 and 34 wait for it, and its stack is to be unmapped.
abbrev busy : ThreadState
busy = record {
  self = 0x100;
  registers = λ i. 0;
  guest_tls = 0x5000;
  clear_child_tid = 0x6000;
  child_tid = 0;
  tid = 77;
  start = true;
  pending_signals = λ n. n == 10;
  pending_information = λ n. no_information;
  realtime_head = λ i. 3;
  realtime_tail = λ i. if i == 2 then 4 else 3;
  realtime_information = λ i k. no_information;
  signal_mask = no_signals;
  suspend_restore_mask = no_signals;
  suspend_restore_valid = false;
  futex_semaphore = none;
  futex_interrupted = false;
  signal_wait_read_fd = none;
  signal_wait_write_fd = none;
  signal_wait_bytes = 0;
  syscall_active = false;
  altstack_pointer = 0;
  altstack_size = 0;
  deferred_unmap_start = 0x40000000;
  deferred_unmap_length = 0x2000;
}

busy-IsRing : IsRing busy 2
busy-IsRing = record { ordered = omega arith; bounded = omega arith; small = omega arith }

busy-IsRing_all : (index : ℕ) → IsRing busy index
busy-IsRing_all index = elim (Bool-cases (index == 2)) [
  | inl e ↦ record {
    ordered = rw e (omega arith);
    bounded = rw e (omega arith);
    small = rw e (omega arith);
  }
  | inr e ↦ record {
    ordered = rw e (omega arith);
    bounded = rw e (omega arith);
    small = rw e (omega arith);
  }
]

take_from-Takes_example : Takes busy (take_from busy)
take_from-Takes_example = take_from-Takes busy refl busy-IsRing_all

guest_thread_signal_pending-Queued_example :
    (new : ThreadState) × (guest_thread_signal_pending 34 none (some busy) ≡ some new)
    × Queued busy new (34 - 32) (given none)
guest_thread_signal_pending-Queued_example =
    guest_thread_signal_pending-Queued busy 34 none refl busy-IsRing (omega arith)

allocate_guest_tid_total_example :
    (tid : ℕ) × (next : ℕ) × (allocate_guest_tid 2 0xffffffff ≡ some (tid, next))
    × IsTid tid
    × (next < 2 ^ 32)
allocate_guest_tid_total_example = allocate_guest_tid_total 0xffffffff (omega arith)

abbrev one_thread : Registry
one_thread = record { threads = busy ∷ []; next_tid = 78; memory = λ a. a }

one_thread-IsRegistry : IsRegistry one_thread
one_thread-IsRegistry = record {
  positive = omega arith;
  below = (omega arith, tt);
  distinct = (tt, tt);
}

abbrev clone_registers : ℕ → ℕ
clone_registers i = if i == 0 then thread_required else 0x30000000 + i

guest_thread_clone-IsRegistry_example :
    IsRegistry (guest_thread_clone clone_registers busy (some 0x200) none one_thread).1
guest_thread_clone-IsRegistry_example =
    guest_thread_clone-IsRegistry clone_registers busy (some 0x200) none one_thread
      one_thread-IsRegistry (omega arith)

-- Another thread waits for the end of `busy`.
abbrev joining : Process
joining = record {
  registry = one_thread;
  table = [];
  code = record { words = λ a. 0; patches = [] };
  waiters =
      record {
        thread = 2;
        address = 0x6000;
        bitset = all_bits;
        woken = false;
        semaphore = 0;
        signalled = 0;
      }
      ∷ [];
  calls = [];
}

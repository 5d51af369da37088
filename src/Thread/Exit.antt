-- ===== src/Thread/Exit.antt =====
-- src/guest_thread.c: the end of a guest thread, and signals to one.
use alpine_on_qnx.Prelude.{ℕ, not, Option, none, some, List, [], ◌∷◌, ◌==◌, if◌then◌else◌}
use alpine_on_qnx.Abi.Errno.{Errno}
use alpine_on_qnx.Abi.Answer.{Answer, value, from_errno, esrch}
use alpine_on_qnx.Memory.Table.{Mapping}
use alpine_on_qnx.Memory.Table.Runtime.{guest_memory_runtime_unmap}
use alpine_on_qnx.Memory.Segments.{HostCall, munmap}
use alpine_on_qnx.Patch.{Code, arm_patch_forget_range}
use alpine_on_qnx.Futex.{Waiter, int_max, linux_futex_wake}
use alpine_on_qnx.Thread.{ThreadState}
use alpine_on_qnx.Thread.Pending.{update}
use alpine_on_qnx.Thread.Clone.{Registry}

-- What the end of a thread reaches: the threads and the words of memory, the mappings, the patches,
-- the waiters of futexes, and the calls of the host, last one first.
pub record Process : Type 0 where
  pub registry : Registry
  pub table : List Mapping
  pub code : Code
  pub waiters : List Waiter
  pub calls : List HostCall

-- The loop over `thread_registry`.
unfoldable pub unregister : ℕ → List ThreadState → List ThreadState
unregister self [] = []
unregister self (t ∷ ts) = if t.self == self then ts else t ∷ unregister self ts

abbrev pub all_bits : ℕ
all_bits = 0xffffffff

-- The unmapping that was put off.
unfoldable pub deferred_unmap : ThreadState → Process → Process
deferred_unmap t p =
    let start = t.deferred_unmap_start in
    let len = t.deferred_unmap_length in
    let is_due = not (len == 0) in
    record p {
      calls = if is_due then munmap start len ∷ p.calls else p.calls;
      code = if is_due then arm_patch_forget_range start len p.code else p.code;
      table = if is_due then guest_memory_runtime_unmap p.table start len else p.table;
    }

-- `clear_child_tid` is set to 0 and those that wait for it are woken.
unfoldable pub retire : Option Errno → ℕ → Process → Process
retire lock_error address p =
    let woken = (linux_futex_wake lock_error address int_max all_bits p.waiters).1 in
    record p {
      registry = record p.registry {
        memory = if address == 0 then p.registry.memory else update p.registry.memory address 0;
      };
      waiters = if address == 0 then p.waiters else woken;
    }

-- `lock_error` is the error of the futexes' mutex, if any. That the two descriptors of a signal wait
-- are closed and the state is freed shows in the thread being gone.
unfoldable pub finish_guest_thread : Option Errno → ThreadState → Process → Process
finish_guest_thread lock_error t p =
    let unmapped = deferred_unmap t p in
    let registry = unmapped.registry in
    retire lock_error t.clear_child_tid (record unmapped {
      registry = record registry { threads = unregister t.self registry.threads };
    })

-- `guest_thread_start` up to where the guest runs: the word at `child_tid`.
unfoldable pub guest_thread_start : ThreadState → Registry → Registry
guest_thread_start t r = record r {
  memory = if t.child_tid == 0 then r.memory else update r.memory t.child_tid t.tid;
}

-- The answer of the loop, where `pthread_kill` is the host's for a thread and a signal of the host.
unfoldable pub guest_thread_kill :
    (ThreadState → ℕ → Option Errno) → ℕ → ℕ → List ThreadState → Answer
guest_thread_kill pthread_kill tid host_signal [] = esrch
guest_thread_kill pthread_kill tid host_signal (t ∷ ts) =
    let rest = guest_thread_kill pthread_kill tid host_signal ts in
    let sent : Answer = elim (pthread_kill t host_signal) [
      | none ↦ value 0
      | some e ↦ from_errno e
    ] in
    if t.tid == tid then if host_signal == 0 then value 0 else sent else rest

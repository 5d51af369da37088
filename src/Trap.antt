-- ===== src/Trap.antt =====
-- src/trap.c, trap_handler: what happens when the guest's code traps. The system call itself,
-- linux_syscall_dispatch, is a parameter.
pub mod Calls
mod Tests
use Prim.Native.Nat.{bit_and}
use alpine_on_qnx.Prelude.{
  ℕ, zero, suc, ◌+◌, ◌/◌, ◌%◌, Bool, true, false, not, ◌&&◌, ◌||◌, Option, none, some, List, ltb,
  leb, ◌==◌, if◌then◌else◌,
}
use alpine_on_qnx.Words.{u32}
use alpine_on_qnx.Patch.{
  PatchRecord, arm_patch_original, arm_linux_svc_0, arm_tpidruro_mask, arm_tpidruro_read,
}
use alpine_on_qnx.Thread.{
  SignalInfo, Current, runtime_guest_tls, guest_thread_syscall_enter, guest_thread_syscall_leave,
}
use alpine_on_qnx.Thread.Pending.{update}
use alpine_on_qnx.Signal.{Host, Context, Signals}
use alpine_on_qnx.Signal.Sets.{sigill, sigsegv}
use alpine_on_qnx.Signal.Deliver.{Delivery, delivered, pended, refused, guest_signal_deliver}
use alpine_on_qnx.Signal.Return.{guest_signal_return}
use alpine_on_qnx.Signal.Pend.{guest_signal_deliver_pending}

abbrev pub linux_kuser_memory_barrier : ℕ
linux_kuser_memory_barrier = 0xffff0fa0

abbrev pub linux_kuser_cmpxchg : ℕ
linux_kuser_cmpxchg = 0xffff0fc0

abbrev pub linux_kuser_get_tls : ℕ
linux_kuser_get_tls = 0xffff0fe0

abbrev pub linux_kuser_version_address : ℕ
linux_kuser_version_address = 0xffff0ffc

abbrev pub linux_kuser_version : ℕ
linux_kuser_version = 5

abbrev pub arm_kuser_version_load : ℕ
arm_kuser_version_load = 0xe51cc003

-- The signals, the table of patches, and the words of memory.
pub record Machine : Type 0 where
  pub signals : Signals
  pub patches : List PatchRecord
  pub memory : ℕ → ℕ

-- The handler returns, and the guest goes on in the context; or `fatal_signal` ends the process.
pub data Outcome : Type 0 where
  resumed : Context → Machine → Outcome
  fatal_signal : Outcome

abbrev pub set_gpr : ℕ → ℕ → Context → Context
set_gpr i value context = record context { gpr = update context.gpr i value }

abbrev pub with_signals : Signals → Machine → Machine
with_signals s m = record m { signals = s }

-- `guest_signal_return` and what is done where it fails.
unfoldable pub signal_return : Host → Bool → Context → Machine → Outcome
signal_return h realtime context m = elim (guest_signal_return h context realtime m.signals) [
  | none ↦ fatal_signal
  | some (back, s) ↦ resumed back (with_signals s m)
]

-- The guest's own handler, if it has one. `executable` is what `guest_memory_is_executable` says.
unfoldable pub deliver_fault : Host → Bool → ℕ → SignalInfo → Context → Machine → Outcome
deliver_fault h executable signal information context m =
    let (result, entry, s) = guest_signal_deliver h context signal (some information) m.signals in
    if executable
    then elim result [
      | delivered ↦ resumed entry (with_signals s m)
      | pended ↦ fatal_signal
      | refused ↦ fatal_signal
    ]
    else fatal_signal

-- The branch of SIGSEGV: the helpers that Linux has at the top of the address space.
unfoldable pub segv_trap : Host → Bool → SignalInfo → Context → Machine → Outcome
segv_trap h executable information context m =
    let pc = context.gpr 15 in
    let back : Context → Context = λ c. set_gpr 15 (context.gpr 14) c in
    let address = context.gpr 2 in
    let is_equal = m.memory address == context.gpr 0 in
    if pc == linux_kuser_get_tls
    then resumed (back (set_gpr 0 (runtime_guest_tls m.signals.current) context)) m
    else if pc == linux_kuser_memory_barrier
    then resumed (back context) m
    else if pc == linux_kuser_cmpxchg
    then resumed (back (set_gpr 0 (if is_equal then 0 else 0xffffffff) context)) (record m {
      memory = if is_equal then update m.memory address (context.gpr 1) else m.memory;
    })
    else if information.si_addr == linux_kuser_version_address
        && (executable && m.memory pc == arm_kuser_version_load)
    then resumed (set_gpr 15 (u32 (pc + 4)) (set_gpr 12 linux_kuser_version context)) m
    else deliver_fault h executable sigsegv information context m

-- The branch of `svc 0`: `dispatch` is `linux_syscall_dispatch`.
unfoldable pub system_call :
    Host → (Context → Machine → Context × Machine) → Context → Machine → Outcome
system_call h dispatch context m =
    let number = context.gpr 7 in
    let entered : Signals = record m.signals {
      current = guest_thread_syscall_enter m.signals.current;
    } in
    let (answered, after) = dispatch context (with_signals entered m) in
    let left : Signals = record after.signals {
      current = guest_thread_syscall_leave after.signals.current;
    } in
    let next = set_gpr 15 (u32 (context.gpr 15 + 4)) answered in
    let (result, final, s) = guest_signal_deliver_pending h next number (context.gpr 0) left in
    if number == 119
    then signal_return h false context m
    else if number == 173
    then signal_return h true context m
    else resumed final (with_signals s after)

-- The trap of a word that was replaced; the destination of a TLS read is in bits 12 to 15.
unfoldable pub patched_trap :
    Host → (Context → Machine → Context × Machine) → ℕ → Context → Machine → Outcome
patched_trap h dispatch original context m =
    let tls = runtime_guest_tls m.signals.current in
    let destination = original / 4096 % 16 in
    if bit_and original arm_tpidruro_mask == arm_tpidruro_read
    then resumed (set_gpr 15 (u32 (context.gpr 15 + 4)) (set_gpr destination tls context)) m
    else if original == arm_linux_svc_0
    then system_call h dispatch context m
    else fatal_signal

unfoldable pub trap_handler :
    Host
    → (Context → Machine → Context × Machine)
    → Bool
    → ℕ
    → SignalInfo
    → Context
    → Machine
    → Outcome
trap_handler h dispatch executable sig information context m =
    let pc = context.gpr 15 in
    if sig == sigill && pc == h.signal_return_trampoline
    then signal_return h false context m
    else if sig == sigill && pc == h.rt_signal_return_trampoline
    then signal_return h true context m
    else if sig == sigsegv
    then segv_trap h executable information context m
    else if not (sig == sigill)
    then fatal_signal
    else elim (arm_patch_original pc m.patches) [
      | none ↦ deliver_fault h executable sigill information context m
      | some original ↦ patched_trap h dispatch original context m
    ]

-- ===== src/Signal/Tests.antt =====
-- Tests of the guest's signals.
use alpine_on_qnx.Prelude.{
  ◌+◌, ◌≤◌, ◌≡◌, ◌%◌, refl, true, false, none, some, ◌==◌, if◌then◌else◌, inr, arith,
}
use alpine_on_qnx.Thread.{
  ThreadState, SignalSet, no_signals, no_information, guest_thread_signal_mask_get,
}
use alpine_on_qnx.Signal.{Host, SigAction, Context, Signals, LinuxContext}
use alpine_on_qnx.Signal.Number.{IsHost}
use alpine_on_qnx.Signal.Deliver.{is_realtime_action, frame_address, handler_mask, start_handler}
use alpine_on_qnx.Signal.Start.{frame_size, frame_address_onstack}
use alpine_on_qnx.Signal.Return.{guest_signal_return, IsRestored, guest_signal_return-start_handler}
use alpine_on_qnx.Signal.Mirror.{Mirrors, start_handler-Mirrors}
use alpine_on_qnx.Signal.Mask.{IsMask, guest_signal_mask, guest_signal_mask-IsMask}
use alpine_on_qnx.Signal.Action.{
  guest_signal_action, KeepsTraps, KeepsKill, guest_signal_action_keeps,
}

abbrev pub qnx : Host
qnx = record {
  sigrtmin = 41;
  sigrtmax = 56;
  sig_block = 0;
  sig_unblock = 1;
  signal_return_trampoline = 0x1000;
  rt_signal_return_trampoline = 0x1004;
}

qnx-IsHost : IsHost qnx
qnx-IsHost = record { above = omega arith; enough = omega arith }

-- SA_SIGINFO, SA_ONSTACK and SA_RESTART; signal 12 is blocked in the handler.
abbrev pub action : SigAction
action = record { handler = 0x20000400; flags = 0x18000004; restorer = 0; mask = λ n. n == 12 }

-- A thread with an alternate stack, for which signal 10 waits.
abbrev pub runs : ThreadState
runs = record {
  self = 0x100;
  registers = λ i. 0;
  guest_tls = 0x5000;
  clear_child_tid = 0;
  child_tid = 0;
  tid = 77;
  start = true;
  pending_signals = λ n. n == 10;
  pending_information = λ n. no_information;
  realtime_head = λ i. 0;
  realtime_tail = λ i. 0;
  realtime_information = λ i k. no_information;
  signal_mask = no_signals;
  suspend_restore_mask = no_signals;
  suspend_restore_valid = false;
  futex_semaphore = none;
  futex_interrupted = false;
  signal_wait_read_fd = none;
  signal_wait_write_fd = none;
  signal_wait_bytes = 0;
  syscall_active = false;
  altstack_pointer = 0x40000000;
  altstack_size = 0x4000;
  deferred_unmap_start = 0;
  deferred_unmap_length = 0;
}

abbrev pub no_frame : LinuxContext
no_frame = record {
  stack = record { pointer = 0; flags = 0; size = 0 };
  oldmask = no_signals;
  registers = λ i. 0;
  cpsr = 0;
  fault_address = 0;
  signal_mask = no_signals;
  register_space = λ i. 0;
}

abbrev pub signals : Signals
signals = record {
  actions = λ n. action;
  current = some runs;
  contexts = λ a. no_frame;
  information = λ a i. 0;
}

abbrev pub context : Context
context = record {
  gpr = λ i. if i == 15 then 0x8000 else if i == 7 then 3 else 0x70000000 + i;
  spsr = 0x60000010;
  vfp = record { x = λ i. i; fpscr = 1; fpexc = 2; fpinst = 3; fpinst2 = 4 };
  uc_sigmask = no_signals;
}

abbrev entered : Context × Signals
entered = start_handler qnx context 10 none signals

abbrev in_handler : ThreadState
in_handler = record runs { signal_mask = handler_mask action 10 no_signals }

entered_current : entered.1.current ≡ some in_handler
unfolding start_handler
entered_current = refl

-- The handler has changed every register but the stack pointer.
abbrev clobbered : Context
clobbered = record entered.0 { gpr = λ i. if i == 13 then entered.0.gpr 13 else 0 }

guest_signal_return-start_handler_example :
    (back : Context) × (after : Signals) × (guest_signal_return qnx clobbered
        (is_realtime_action action)
        entered.1
      ≡ some (back, after))
    × IsRestored qnx context (is_realtime_action action) signals in_handler back after
guest_signal_return-start_handler_example =
    guest_signal_return-start_handler qnx context 10 none signals clobbered in_handler entered.1
      refl refl entered_current (inr (omega arith))

none_blocked : Mirrors qnx no_signals no_signals
none_blocked = record { same = λ n m. refl }

start_handler-Mirrors_example :
    Mirrors qnx entered.0.uc_sigmask (guest_thread_signal_mask_get entered.1.current)
start_handler-Mirrors_example =
    start_handler-Mirrors qnx context 10 none signals runs qnx-IsHost refl none_blocked

abbrev all_signals : SignalSet
all_signals n = true

guest_signal_mask-IsMask_example : IsMask (
    guest_thread_signal_mask_get
      (guest_signal_mask qnx none 2 (some all_signals) true 8 (some runs)).2)
guest_signal_mask-IsMask_example =
    guest_signal_mask-IsMask qnx none 2 (some all_signals) true 8 (some runs) (refl, refl)

guest_signal_action_keeps_example :
    KeepsTraps (guest_signal_action qnx none 10 (some action) true 8 signals.actions)
    × KeepsKill signals.actions
        (guest_signal_action qnx none 10 (some action) true 8 signals.actions)
guest_signal_action_keeps_example =
    guest_signal_action_keeps qnx none 10 (some action) true 8 signals.actions qnx-IsHost

frame_address_onstack_example :
    (0x40000000 ≤ frame_address action 0x7000000d 0x40000000 0x4000)
    × (frame_address action 0x7000000d 0x40000000 0x4000 + frame_size action ≤ 0x40000000 + 0x4000)
    × (frame_address action 0x7000000d 0x40000000 0x4000 % 8 ≡ 0)
frame_address_onstack_example =
    frame_address_onstack action 0x7000000d 0x40000000 0x4000 refl refl (omega arith) (omega arith)

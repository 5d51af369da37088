-- ===== src/Trap/Tests.antt =====
-- Tests of the traps.
use alpine_on_qnx.Prelude.{ℕ, ◌≡◌, ◌≢◌, refl, false, Option, some, [], ◌==◌, if◌then◌else◌, arith}
use alpine_on_qnx.Abi.Errno.{Errno}
use alpine_on_qnx.Patch.{Code, arm_patch_range, arm_linux_svc_0}
use alpine_on_qnx.Thread.{no_information}
use alpine_on_qnx.Thread.Pending.{lowest, take_from, guest_thread_take_pending}
use alpine_on_qnx.Signal.{Context, Signals}
use alpine_on_qnx.Signal.Deliver.{is_realtime_action, guest_signal_deliver}
use alpine_on_qnx.Signal.Pend.{
  PendingResult, handled, minus_eintr, deliver_taken, guest_signal_deliver_pending,
}
use alpine_on_qnx.Signal.Tests.{qnx, action, signals, context}
use alpine_on_qnx.Trap.{Machine, resumed, set_gpr, with_signals, signal_return, system_call}
use alpine_on_qnx.Trap.Calls.{before_call, after_call, system_call_restarts}

-- A program with one system call, before and after patching.
abbrev program : Code
program = record { words = λ a. if a == 0x8000 then arm_linux_svc_0 else 0; patches = [] }

abbrev patched : Option Errno × Code
patched = arm_patch_range 0x8000 8 program

abbrev machine : Machine
machine = record { signals = signals; patches = patched.1.patches; memory = patched.1.words }

-- A read that a signal interrupts.
abbrev interrupted : Context → Machine → Context × Machine
interrupted c m = (set_gpr 0 minus_eintr c, m)

taken :
    (guest_thread_take_pending (after_call (before_call machine)).current).0
    ≡ some (10, no_information)
unfolding guest_thread_take_pending take_from lowest
taken = refl

done :
    (guest_signal_deliver_pending qnx
      (set_gpr 15 0x8004 (set_gpr 0 minus_eintr context))
      3
      (context.gpr 0)
      (after_call (before_call machine))).0
    ≡ handled
unfolding guest_signal_deliver_pending deliver_taken guest_signal_deliver guest_thread_take_pending
    take_from lowest
done = refl

abbrev started : PendingResult × Context × Signals
started =
    guest_signal_deliver_pending qnx (set_gpr 15 0x8004 (set_gpr 0 minus_eintr context)) 3
      (context.gpr 0) (after_call (before_call machine))

-- The end of the handler, which has changed every register but the stack pointer.
abbrev ending : Context
ending = record started.1 { gpr = λ i. if i == 13 then started.1.gpr 13 else 0 }

abbrev at_the_end : Machine
at_the_end = with_signals started.2 machine

other_registers : (k : ℕ) → k ≢ 0 → (set_gpr 0 minus_eintr context).gpr k ≡ context.gpr k
other_registers k other = let e : (k == 0) ≡ false = ground (arith, other) in rw e refl

system_call_restarts_example :
    (system_call qnx interrupted context machine
      ≡ resumed started.1 (with_signals started.2 (before_call machine)))
    × ((back : Context) × (left : Machine) × (signal_return qnx
            (is_realtime_action action)
            ending
            at_the_end
          ≡ resumed back left)
        × ((k : ℕ) → back.gpr k ≡ context.gpr k))
system_call_restarts_example =
    system_call_restarts qnx interrupted context machine 10 no_information ending at_the_end refl
      (omega arith) other_registers taken done refl refl refl refl refl

-- ===== src/Signal.antt =====
-- src/guest_signal.c: signals of the guest. A signal set, the guest's or the host's, is given by its
-- members; a word of a frame by its index.
pub mod Number
pub mod Sets
pub mod Frame
pub mod Deliver
pub mod Start
pub mod Restart
pub mod Mirror
pub mod Pend
pub mod Return
pub mod Altstack
pub mod Mask
pub mod Action
pub mod Tests
use alpine_on_qnx.Prelude.{ℕ, Option}
use alpine_on_qnx.Thread.{SignalSet, Current}

-- What the host brings: SIGRTMIN and SIGRTMAX, SIG_BLOCK and SIG_UNBLOCK, and the addresses of the
-- two trampolines.
pub record Host : Type 0 where
  pub sigrtmin : ℕ
  pub sigrtmax : ℕ
  pub sig_block : ℕ
  pub sig_unblock : ℕ
  pub signal_return_trampoline : ℕ
  pub rt_signal_return_trampoline : ℕ

-- `struct linux_sigaction`
pub record SigAction : Type 0 where
  pub handler : ℕ
  pub flags : ℕ
  pub restorer : ℕ
  pub mask : SignalSet

-- The registers of the floating point unit; `x` are the words of the 32 double ones.
pub record Vfp : Type 0 where
  pub x : ℕ → ℕ
  pub fpscr : ℕ
  pub fpexc : ℕ
  pub fpinst : ℕ
  pub fpinst2 : ℕ

-- The host's `ucontext_t`.
pub record Context : Type 0 where
  pub gpr : ℕ → ℕ
  pub spsr : ℕ
  pub vfp : Vfp
  pub uc_sigmask : SignalSet

-- `struct linux_signal_stack`
pub record SignalStack : Type 0 where
  pub pointer : ℕ
  pub flags : ℕ
  pub size : ℕ

-- `struct linux_ucontext` with its `struct linux_sigcontext`; `oldmask` is the first word of a mask.
pub record LinuxContext : Type 0 where
  pub stack : SignalStack
  pub oldmask : SignalSet
  pub registers : ℕ → ℕ
  pub cpsr : ℕ
  pub fault_address : ℕ
  pub signal_mask : SignalSet
  pub register_space : ℕ → ℕ

-- `guest_actions`, the current thread, and the frames on the guest's stacks: each
-- `struct linux_ucontext` and each `information` by its address.
pub record Signals : Type 0 where
  pub actions : ℕ → SigAction
  pub current : Current
  pub contexts : ℕ → LinuxContext
  pub information : ℕ → ℕ → ℕ

abbrev pub linux_signal_count : ℕ
linux_signal_count = 64

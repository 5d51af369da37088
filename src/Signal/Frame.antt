-- ===== src/Signal/Frame.antt =====
-- src/guest_signal.c: what a frame on the guest's stack saves of the interrupted context.
use alpine_on_qnx.Prelude.{
  ℕ, ◌+◌, ◌-◌, ◌<◌, ◌≡◌, refl, ap, not, ◌&&◌, ◌||◌, Option, none, some, ltb, leb, ◌==◌,
  if◌then◌else◌, arith,
}
use alpine_on_qnx.Abi.Errno.{linux_errno_number}
use alpine_on_qnx.Thread.{SignalSet, SignalInfo}
use alpine_on_qnx.Signal.{Vfp, Context, LinuxContext}

abbrev pub linux_vfp_magic : ℕ
linux_vfp_magic = 0x56465001

abbrev pub linux_vfp_frame_size : ℕ
linux_vfp_frame_size = 288

-- The words of `register_space`; byte 4 * i of the frame is in word i.
unfoldable pub save_vfp : Vfp → ℕ → ℕ
save_vfp v i =
    if i == 0
    then linux_vfp_magic
    else if i == 1
    then linux_vfp_frame_size
    else if ltb i 66
    then v.x (i - 2)
    else if i == 66
    then v.fpscr
    else if i == 68
    then v.fpexc
    else if i == 69
    then v.fpinst
    else if i == 70
    then v.fpinst2
    else 0

-- `none` is -1.
unfoldable pub restore_vfp : Vfp → (ℕ → ℕ) → Option Vfp
restore_vfp v frame =
    if frame 0 == 0
    then some v
    else if not (frame 0 == linux_vfp_magic) || not (frame 1 == linux_vfp_frame_size)
    then none
    else some (record {
      x = λ i. if ltb i 64 then frame (i + 2) else v.x i;
      fpscr = frame 66;
      fpexc = frame 68;
      fpinst = frame 69;
      fpinst2 = frame 70;
    })

-- The words of the `information`; the signals 4, 7, 8 and 11 come with an address.
unfoldable pub fill_siginfo : ℕ → Option SignalInfo → ℕ → ℕ
fill_siginfo linux_signal none i = if i == 0 then linux_signal else 0
fill_siginfo linux_signal (some source) i =
    let is_fault =
      linux_signal == 4 || linux_signal == 7 || linux_signal == 8 || linux_signal == 11 in
    if i == 0
    then linux_signal
    else if i == 1
    then linux_errno_number source.si_errno
    else if i == 2
    then source.si_code
    else if i == 3
    then if is_fault then source.si_addr else source.si_pid
    else if i == 4 && not is_fault
    then source.si_uid
    else 0

unfoldable pub prepare_context : Context → SignalSet → ℕ → LinuxContext
prepare_context host old_mask fault_address = record {
  stack = record { pointer = 0; flags = 2; size = 0 };
  oldmask = λ n. leb n 32 && old_mask n;
  registers = host.gpr;
  cpsr = host.spsr;
  fault_address = fault_address;
  signal_mask = old_mask;
  register_space = save_vfp host.vfp;
}

-- Two states of the floating point unit that the guest cannot tell apart.
pub record SameVfp (a b : Vfp) : Type 0 where
  pub x : (i : ℕ) → i < 64 → a.x i ≡ b.x i
  pub fpscr : a.fpscr ≡ b.fpscr
  pub fpexc : a.fpexc ≡ b.fpexc
  pub fpinst : a.fpinst ≡ b.fpinst
  pub fpinst2 : a.fpinst2 ≡ b.fpinst2

word_of_x :
    (v meanwhile : Vfp) (i : ℕ)
    → i < 64
    → (if ltb i 64 then save_vfp v (i + 2) else meanwhile.x i) ≡ v.x i
unfolding save_vfp
word_of_x v meanwhile i lt =
    let back : i + 2 - 2 ≡ i = omega arith in ground (arith, ap v.x back, lt)

-- Whatever the floating point unit holds meanwhile, the frame of `save_vfp` is accepted and gives
-- back the saved state.
pub restore_vfp-save_vfp :
    (v meanwhile : Vfp)
    → (restored : Vfp) × (restore_vfp meanwhile (save_vfp v) ≡ some restored) × SameVfp restored v
unfolding restore_vfp save_vfp
restore_vfp-save_vfp v meanwhile = (
  _,
  refl,
  record {
    x = λ i lt. word_of_x v meanwhile i lt;
    fpscr = refl;
    fpexc = refl;
    fpinst = refl;
    fpinst2 = refl;
  },
)

-- ===== src/Trap/Calls.antt =====
-- src/trap.c with src/arm_patch.c and src/guest_signal.c: a replaced instruction that traps.
use Prim.Native.Nat.{bit_and}
use alpine_on_qnx.Prelude.{
  ℕ, ◌+◌, ◌*◌, ◌/◌, ◌%◌, ◌^◌, ◌<◌, ◌≡◌, ◌≢◌, refl, ap, sym, ◌∙◌, Bool, Bool-cases, inl, inr, true,
  false, ◌||◌, none, some, ◌==◌, arith,
}
use alpine_on_qnx.Words.{u32, sub32, has_flag}
use alpine_on_qnx.Patch.{
  Code, is_trapped, arm_patch_range, arm_patch_original, arm_tpidruro_mask, arm_tpidruro_read,
}
use alpine_on_qnx.Patch.Guest.{IsCoherent}
use alpine_on_qnx.Patch.Range.{arm_patch_original-range}
use alpine_on_qnx.Thread.{
  SignalInfo, runtime_guest_tls, guest_thread_syscall_enter, guest_thread_syscall_leave,
}
use alpine_on_qnx.Thread.Pending.{update, guest_thread_take_pending}
use alpine_on_qnx.Signal.{Host, Context, Signals}
use alpine_on_qnx.Signal.Sets.{sigill}
use alpine_on_qnx.Signal.Deliver.{is_realtime_action, context_address, linux_sa_restart}
use alpine_on_qnx.Signal.Pend.{
  handled, minus_eintr, restartable_syscall, guest_signal_deliver_pending,
}
use alpine_on_qnx.Signal.Restart.{guest_signal_deliver_pending_restarts}
use alpine_on_qnx.Trap.{
  Machine, resumed, set_gpr, with_signals, system_call, signal_return, patched_trap, trap_handler,
}

-- The trapping instruction stands in the guest's code, not in a trampoline.
abbrev pub is_trampoline : Host → ℕ → Bool
is_trampoline h pc = pc == h.signal_return_trampoline || pc == h.rt_signal_return_trampoline

trap_handler_recorded :
    (h : Host) (dispatch : Context → Machine → Context × Machine) (executable : Bool)
    (information : SignalInfo) (context : Context) (m : Machine) (original : ℕ)
    → is_trampoline h (context.gpr 15) ≡ false
    → arm_patch_original (context.gpr 15) m.patches ≡ some original
    → trap_handler h dispatch executable sigill information context m
      ≡ patched_trap h dispatch original context m
unfolding trap_handler
trap_handler_recorded h dispatch executable information context m original plain found =
    let one : (context.gpr 15 == h.signal_return_trampoline) ≡ false = ground (arith, plain) in
    let two : (context.gpr 15 == h.rt_signal_return_trampoline) ≡ false = ground (arith, plain) in
    rw (one, two, found) refl

module _ (h : Host) (dispatch : Context → Machine → Context × Machine) (executable : Bool)
    (information : SignalInfo) (start len i : ℕ) (c : Code) (context : Context) (m : Machine)
    (coherent : IsCoherent c.words c.patches) (patched : (arm_patch_range start len c).0 ≡ none)
    (inside : 4 * i < len) (recorded : m.patches ≡ (arm_patch_range start len c).1.patches)
    (at : context.gpr 15 ≡ start + 4 * i) (plain : is_trampoline h (context.gpr 15) ≡ false) where
  answered_with :
      is_trapped (c.words (start + 4 * i)) ≡ true
      → trap_handler h dispatch executable sigill information context m
        ≡ patched_trap h dispatch (c.words (start + 4 * i)) context m
  answered_with trapped =
      let found : arm_patch_original (context.gpr 15) m.patches ≡ some (c.words (start + 4 * i)) =
        rw (recorded, at)
          (arm_patch_original-range start len i c coherent patched inside trapped) in
      trap_handler_recorded h dispatch executable information context m _ plain found

  -- Where it read the thread pointer, the register of the instruction gets that of the guest's thread
  -- and the program goes on behind.
  pub trap_handler_tls :
      (bit_and (c.words (start + 4 * i)) arm_tpidruro_mask == arm_tpidruro_read) ≡ true
      → let destination = c.words (start + 4 * i) / 4096 % 16 in
        let tls = runtime_guest_tls m.signals.current in
        trap_handler h dispatch executable sigill information context m
        ≡ resumed (set_gpr 15 (u32 (context.gpr 15 + 4)) (set_gpr destination tls context)) m
  unfolding patched_trap is_trapped
  trap_handler_tls read =
      let trapped : is_trapped (c.words (start + 4 * i)) ≡ true = ground (arith, read) in
      answered_with trapped ∙ rw read refl

-- What a system call leaves before its signals are looked at.
abbrev pub before_call : Machine → Machine
before_call m =
    with_signals (record m.signals { current = guest_thread_syscall_enter m.signals.current }) m

abbrev pub after_call : Machine → Signals
after_call m = record m.signals { current = guest_thread_syscall_leave m.signals.current }

-- The registers of a call that is to be made again are those of before.
same_registers :
    (before answered : ℕ → ℕ) (pc k : ℕ)
    → ((j : ℕ) → j ≢ 0 → answered j ≡ before j)
    → pc ≡ before 15
    → update (update (update answered 15 (u32 (before 15 + 4))) 0 (before 0)) 15 pc k ≡ before k
same_registers before answered pc k keeps at = elim (Bool-cases (k == 15)) [
  | inl e ↦ let here : k ≡ 15 = ground arith in rw e (at ∙ ap before (sym here))
  | inr e ↦ elim (Bool-cases (k == 0)) [
    | inl f ↦ let here : k ≡ 0 = ground arith in rw (e, f) (ap before (sym here))
    | inr f ↦ rw (e, f) (keeps k (ground (arith, f)))
  ]
]

-- A restartable system call (a call of `dispatch` that writes no register but r0) that answers EINTR
-- while signal n waits, whose action has SA_RESTART and a handler that can be started, goes on as this
-- handler; and when the handler returns, with its stack pointer and its frame as they were, the
-- guest goes on with all registers as before the call: at the instruction of the call, with its
-- number and its arguments.
pub system_call_restarts :
    (h : Host) (dispatch : Context → Machine → Context × Machine) (context : Context) (m : Machine)
    (n : ℕ) (information : SignalInfo) (later : Context) (m' : Machine)
    → let (answered, after) = dispatch context (before_call m) in
      let next = set_gpr 15 (u32 (context.gpr 15 + 4)) answered in
      let number = context.gpr 7 in
      let action = after.signals.actions n in
      let (result, entry, s) =
        guest_signal_deliver_pending h next number (context.gpr 0) (after_call after) in
      let frame = context_address (is_realtime_action action) (entry.gpr 13) in
      (number == 119 || number == 173) ≡ false
      → context.gpr 15 < 2 ^ 32
      → ((k : ℕ) → k ≢ 0 → answered.gpr k ≡ context.gpr k)
      → (guest_thread_take_pending (after_call after).current).0 ≡ some (n, information)
      → result ≡ handled
      → answered.gpr 0 ≡ minus_eintr
      → has_flag action.flags linux_sa_restart ≡ true
      → restartable_syscall number ≡ true
      → later.gpr 13 ≡ entry.gpr 13
      → m'.signals.contexts frame ≡ s.contexts frame
      → (system_call h dispatch context m ≡ resumed entry (with_signals s after))
        × ((back : Context) × (left : Machine) × (signal_return h
                (is_realtime_action action)
                later
                m'
              ≡ resumed back left)
            × ((k : ℕ) → back.gpr k ≡ context.gpr k))
unfolding system_call signal_return
system_call_restarts h dispatch context m n information later m' other word keeps taken done eintr
      restart again esp ectx =
    let (answered, after) = dispatch context (before_call m) in
    let next = set_gpr 15 (u32 (context.gpr 15 + 4)) answered in
    let number = context.gpr 7 in
    let (back, end, returned, registers) =
      guest_signal_deliver_pending_restarts h next number (context.gpr 0) (after_call after) n
        information later m'.signals taken done eintr restart again esp ectx in
    let one : (context.gpr 7 == 119) ≡ false = ground (arith, other) in
    let two : (context.gpr 7 == 173) ≡ false = ground (arith, other) in
    let pc : sub32 (u32 (context.gpr 15 + 4)) 4 ≡ context.gpr 15 = omega (arith, word) in
    (
      rw (one, two) refl,
      (
        back,
        with_signals end m',
        rw (signal_return, returned) refl,
        λ k.
            ap (λ (f : ℕ → ℕ). f k) registers
            ∙ same_registers context.gpr answered.gpr (sub32 (next.gpr 15) 4) k keeps pc,
      ),
    )

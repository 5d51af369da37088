-- ===== src/Signal/Return.antt =====
-- src/guest_signal.c, guest_signal_return: the end of a handler.
use alpine_on_qnx.Prelude.{
  ℕ, ◌%◌, ◌≡◌, refl, sym, ap, subst, ◌∙◌, ◌≤◌, ◌⊎◌, Bool, true, false, not, ◌&&◌, Option, none,
  some, ◌==◌, if◌then◌else◌, Bool-cases, inl, inr, arith,
}
use alpine_on_qnx.Thread.{
  SignalInfo, ThreadState, Current, guest_thread_signal_mask_get, guest_thread_signal_mask_set,
  guest_thread_signal_delivery_mask, guest_thread_altstack_get, guest_thread_altstack_set,
}
use alpine_on_qnx.Thread.Pending.{update}
use alpine_on_qnx.Signal.{Host, Vfp, SigAction, Context, SignalStack, LinuxContext, Signals}
use alpine_on_qnx.Signal.Sets.{linux_set_to_host}
use alpine_on_qnx.Signal.Altstack.{is_on_altstack, stack_flags, IsAltstack}
use alpine_on_qnx.Signal.Frame.{restore_vfp, prepare_context, SameVfp, restore_vfp-save_vfp}
use alpine_on_qnx.Signal.Deliver.{
  is_realtime_action, context_address, frame_address, handler_context, frame_context, start_handler,
}

unfoldable pub restore_altstack : Bool → SignalStack → Current → Current
restore_altstack realtime stack current =
    if realtime && stack.flags == 2
    then guest_thread_altstack_set 0 0 current
    else if realtime && stack.flags == 0
    then guest_thread_altstack_set stack.pointer stack.size current
    else current

-- What is done with the frame's context `guest`; `none` is -1.
unfoldable pub restore_from :
    Host → Context → Bool → LinuxContext → Signals → Option (Context × Signals)
restore_from h context realtime guest s =
    let current = guest_thread_signal_mask_set guest.signal_mask s.current in
    elim (restore_vfp context.vfp guest.register_space) [
      | none ↦ none
      | some vfp ↦ some (
        record {
          gpr = guest.registers;
          spsr = guest.cpsr;
          vfp = vfp;
          uc_sigmask = linux_set_to_host h guest.signal_mask;
        },
        record s { current = restore_altstack realtime guest.stack current },
      )
    ]

unfoldable pub guest_signal_return : Host → Context → Bool → Signals → Option (Context × Signals)
guest_signal_return h context realtime s =
    let sp = context.gpr 13 in
    if sp % 8 == 0
    then restore_from h context realtime (s.contexts (context_address realtime sp)) s
    else none

-- The alternate stack that a return leaves, where the interrupted thread had `before` and its stack
-- pointer, and the handler has left `own`: the frame of a realtime handler brings it back, unless the
-- thread was on it.
abbrev pub left_altstack : Bool → ℕ → ℕ × ℕ → ℕ × ℕ → ℕ × ℕ
left_altstack realtime sp before own =
    if realtime && not (is_on_altstack sp before.0 before.1) then before else own

-- The context `back` and the signals `after` are those from before the handler, to the guest's eye;
-- `t` is the thread as the handler has left it.
pub record IsRestored (h : Host) (context : Context) (realtime : Bool) (before : Signals)
    (t : ThreadState) (back : Context) (after : Signals) : Type 0 where
  pub gpr : back.gpr ≡ context.gpr
  pub spsr : back.spsr ≡ context.spsr
  pub vfp : SameVfp back.vfp context.vfp
  pub host_mask :
      back.uc_sigmask ≡ linux_set_to_host h (guest_thread_signal_delivery_mask before.current).0
  pub mask :
      guest_thread_signal_mask_get after.current
      ≡ (guest_thread_signal_delivery_mask before.current).0
  pub altstack :
      guest_thread_altstack_get after.current
      ≡ left_altstack realtime
          (context.gpr 13)
          (guest_thread_altstack_get before.current)
          (t.altstack_pointer, t.altstack_size)

frame_aligned : (action : SigAction) (sp p n : ℕ) → frame_address action sp p n % 8 ≡ 0
unfolding frame_address
frame_aligned action sp p n = ground arith

return_lem :
    (h : Host) (later : Context) (realtime : Bool) (s : Signals) (guest : LinuxContext) (vfp : Vfp)
    → later.gpr 13 % 8 ≡ 0
    → s.contexts (context_address realtime (later.gpr 13)) ≡ guest
    → restore_vfp later.vfp guest.register_space ≡ some vfp
    → let current = guest_thread_signal_mask_set guest.signal_mask s.current in
      guest_signal_return h later realtime s
      ≡ some (
        record {
          gpr = guest.registers;
          spsr = guest.cpsr;
          vfp = vfp;
          uc_sigmask = linux_set_to_host h guest.signal_mask;
        },
        record s { current = restore_altstack realtime guest.stack current },
      )
unfolding guest_signal_return restore_from
return_lem h later realtime s guest vfp aligned frame floats =
    rw aligned (ap (λ g. restore_from h later realtime g s) frame ∙ rw (floats, restore_from) refl)

update-same {ℓ} : {A : Type ℓ} (f : ℕ → A) (i : ℕ) (v : A) → update f i v i ≡ v
update-same f i v = let e : (i == i) ≡ true = ground arith in rw e refl

restore_altstack_lem :
    (realtime : Bool) (sp pointer size : ℕ) (t : ThreadState)
    → (◌≡◌ {A = ℕ × ℕ} (pointer, size) (0, 0)) ⊎ (2048 ≤ size)
    → let stack : SignalStack = record {
      pointer = pointer;
      flags = stack_flags sp pointer size;
      size = size;
    } in
      (guest_thread_altstack_get (restore_altstack realtime stack (some t))
        ≡ left_altstack realtime sp (pointer, size) (t.altstack_pointer, t.altstack_size))
      × (guest_thread_signal_mask_get (restore_altstack realtime stack (some t)) ≡ t.signal_mask)
unfolding restore_altstack
restore_altstack_lem false sp pointer size t v = (refl, refl)
restore_altstack_lem true sp pointer size t v = elim (Bool-cases (is_on_altstack sp pointer size)) [
  | inl on ↦ rw on (refl, refl)
  | inr off ↦ elim (Bool-cases (size == 0)) [
    | inr s ↦ rw (off, s) (refl, refl)
    | inl s ↦
        let nothing : ◌≡◌ {A = ℕ × ℕ} (0, 0) (pointer, size) = elim v [
          | inl z ↦ sym z
          | inr large ↦ absurd (ground (arith, large, s))
        ] in
        rw (off, s) (nothing, refl)
  ]
]

delivery_mask_altstack :
    (current : Current)
    → guest_thread_altstack_get (guest_thread_signal_delivery_mask current).1
      ≡ guest_thread_altstack_get current
delivery_mask_altstack none = refl
delivery_mask_altstack (some t) = elim (Bool-cases t.suspend_restore_valid) [
  | inl e ↦ rw e refl
  | inr e ↦ rw e refl
]

-- A handler that was started returns to where it was started from: with the registers, the flags,
-- the floating point unit and the mask of then, whatever it has done to the registers, as long as its
-- stack pointer is where it was and its frame is as it was. For a thread that had no alternate stack
-- or one of 2048 bytes at least, a handler with SA_SIGINFO that was started off the alternate stack
-- brings back the alternate stack of then too; else it stays as the handler has left it.
pub guest_signal_return-start_handler :
    (h : Host) (context : Context) (linux_signal : ℕ) (info : Option SignalInfo) (s : Signals)
    (later : Context) (t : ThreadState) (s' : Signals)
    → let (entry, started) = start_handler h context linux_signal info s in
      let realtime = is_realtime_action (s.actions linux_signal) in
      later.gpr 13 ≡ entry.gpr 13
      → s'.contexts (context_address realtime (entry.gpr 13))
        ≡ started.contexts (context_address realtime (entry.gpr 13))
      → s'.current ≡ some t
      → IsAltstack s.current
      → (back : Context) × (after : Signals) × (guest_signal_return h later realtime s'
          ≡ some (back, after))
        × IsRestored h context realtime s t back after
unfolding guest_signal_return start_handler handler_context frame_context prepare_context
guest_signal_return-start_handler h context linux_signal info s later t s' esp ectx ecur v =
    let action = s.actions linux_signal in
    let old = guest_thread_signal_delivery_mask s.current in
    let alt = guest_thread_altstack_get old.1 in
    let same_alt = delivery_mask_altstack s.current in
    let realtime = is_realtime_action action in
    let (vfp, accepted, same_vfp) = restore_vfp-save_vfp context.vfp later.vfp in
    let guest = frame_context context old.0 info alt.0 alt.1 in
    let sp = frame_address action (context.gpr 13) alt.0 alt.1 in
    let aligned : later.gpr 13 % 8 ≡ 0 =
      rw esp (frame_aligned action (context.gpr 13) alt.0 alt.1) in
    let frame : s'.contexts (context_address realtime (later.gpr 13)) ≡ guest =
      ap (λ a. s'.contexts (context_address realtime a)) esp
      ∙ (ectx ∙ update-same s.contexts (context_address realtime sp) guest) in
    let returned = return_lem h later realtime s' guest vfp aligned frame accepted in
    let with_mask : ThreadState = record t { signal_mask = old.0 } in
    let valid : (◌≡◌ {A = ℕ × ℕ} alt (0, 0)) ⊎ (2048 ≤ alt.1) =
      subst (λ (a : ℕ × ℕ). (◌≡◌ {A = ℕ × ℕ} a (0, 0)) ⊎ (2048 ≤ a.1)) (sym same_alt) v in
    let stack = restore_altstack_lem realtime (context.gpr 13) alt.0 alt.1 with_mask valid in
    (
      _,
      _,
      returned,
      record {
        gpr = refl;
        spsr = refl;
        vfp = same_vfp;
        host_mask = refl;
        mask = rw ecur stack.1;
        altstack =
            rw ecur stack.0
            ∙ ap
                (λ (a : ℕ × ℕ).
                  left_altstack realtime (context.gpr 13) a (t.altstack_pointer, t.altstack_size))
                same_alt;
      },
    )

-- The registers alone, whatever the thread and its alternate stack are then.
pub guest_signal_return_registers :
    (h : Host) (context : Context) (linux_signal : ℕ) (info : Option SignalInfo) (s : Signals)
    (later : Context) (s' : Signals)
    → let (entry, started) = start_handler h context linux_signal info s in
      let realtime = is_realtime_action (s.actions linux_signal) in
      later.gpr 13 ≡ entry.gpr 13
      → s'.contexts (context_address realtime (entry.gpr 13))
        ≡ started.contexts (context_address realtime (entry.gpr 13))
      → (back : Context) × (after : Signals) × (guest_signal_return h later realtime s'
          ≡ some (back, after))
        × (back.gpr ≡ context.gpr)
unfolding guest_signal_return start_handler handler_context frame_context prepare_context
guest_signal_return_registers h context linux_signal info s later s' esp ectx =
    let action = s.actions linux_signal in
    let old = guest_thread_signal_delivery_mask s.current in
    let alt = guest_thread_altstack_get old.1 in
    let realtime = is_realtime_action action in
    let (vfp, accepted, same_vfp) = restore_vfp-save_vfp context.vfp later.vfp in
    let guest = frame_context context old.0 info alt.0 alt.1 in
    let sp = frame_address action (context.gpr 13) alt.0 alt.1 in
    let aligned : later.gpr 13 % 8 ≡ 0 =
      rw esp (frame_aligned action (context.gpr 13) alt.0 alt.1) in
    let frame : s'.contexts (context_address realtime (later.gpr 13)) ≡ guest =
      ap (λ a. s'.contexts (context_address realtime a)) esp
      ∙ (ectx ∙ update-same s.contexts (context_address realtime sp) guest) in
    (_, _, return_lem h later realtime s' guest vfp aligned frame accepted, refl)

-- ===== src/Signal/Deliver.antt =====
-- src/guest_signal.c, guest_signal_deliver: a signal starts the guest's handler on a frame of its own.
use alpine_on_qnx.Prelude.{
  ℕ, ◌+◌, ◌-◌, ◌%◌, Bool, true, not, ◌&&◌, ◌||◌, Option, none, some, ltb, leb, ◌==◌, if◌then◌else◌,
}
use alpine_on_qnx.Words.{u32, has_flag, sub32}
use alpine_on_qnx.Thread.{
  SignalSet, add_signal, SignalInfo, guest_thread_signal_mask_get, guest_thread_signal_mask_set,
  guest_thread_signal_delivery_mask, guest_thread_altstack_get,
}
use alpine_on_qnx.Thread.Pending.{update, guest_thread_signal_pending}
use alpine_on_qnx.Signal.{Host, SigAction, Context, LinuxContext, Signals, linux_signal_count}
use alpine_on_qnx.Signal.Number.{linux_signal_to_host}
use alpine_on_qnx.Signal.Sets.{linux_set_to_host, merge_host_sets}
use alpine_on_qnx.Signal.Altstack.{is_on_altstack, stack_flags}
use alpine_on_qnx.Signal.Frame.{fill_siginfo, prepare_context}

abbrev pub linux_sa_siginfo : ℕ
linux_sa_siginfo = 0x00000004

abbrev pub linux_sa_restorer : ℕ
linux_sa_restorer = 0x04000000

abbrev pub linux_sa_onstack : ℕ
linux_sa_onstack = 0x08000000

abbrev pub linux_sa_restart : ℕ
linux_sa_restart = 0x10000000

abbrev pub linux_sa_nodefer : ℕ
linux_sa_nodefer = 0x40000000

abbrev pub linux_sa_resethand : ℕ
linux_sa_resethand = 0x80000000

abbrev pub host_signal_stack_reserve : ℕ
host_signal_stack_reserve = 8192

-- `sizeof` the two frames, and where in the larger one its context stands.
abbrev pub sigframe_size : ℕ
sigframe_size = 760

abbrev pub rt_sigframe_size : ℕ
rt_sigframe_size = 888

abbrev pub rt_context_offset : ℕ
rt_context_offset = 128

-- 0, 1 and -1.
pub data Delivery : Type 0 where
  delivered pended refused : Delivery

abbrev pub is_realtime_action : SigAction → Bool
is_realtime_action action = has_flag action.flags linux_sa_siginfo

abbrev pub context_address : Bool → ℕ → ℕ
context_address realtime sp = if realtime then u32 (sp + rt_context_offset) else sp

-- Where the frame begins: `& ~7u` is taking off the remainder by 8.
unfoldable pub frame_address : SigAction → ℕ → ℕ → ℕ → ℕ
frame_address action sp pointer size =
    let top =
      if has_flag action.flags linux_sa_onstack
        && (not (size == 0) && not (is_on_altstack sp pointer size))
      then u32 (pointer + size)
      else sub32 sp host_signal_stack_reserve in
    let low = sub32 top (if is_realtime_action action then rt_sigframe_size else sigframe_size) in
    low - low % 8

-- The guest's mask in the handler.
unfoldable pub handler_mask : SigAction → ℕ → SignalSet → SignalSet
handler_mask action linux_signal old_mask n =
    (old_mask n || action.mask n)
    || (not (has_flag action.flags linux_sa_nodefer) && n == linux_signal)

unfoldable pub handler_host_mask : Host → SigAction → ℕ → SignalSet → SignalSet
handler_host_mask h action linux_signal host_mask n =
    let desired = merge_host_sets h host_mask (linux_set_to_host h action.mask) in
    let host_signal = linux_signal_to_host h linux_signal in
    if not (has_flag action.flags linux_sa_nodefer) && not (host_signal == 0)
    then add_signal host_signal desired n
    else desired n

-- The host's context as the handler finds it.
unfoldable pub handler_context : Host → SigAction → ℕ → ℕ → Context → Context
handler_context h action linux_signal sp context =
    let realtime = is_realtime_action action in
    let restorer =
      if has_flag action.flags linux_sa_restorer && not (action.restorer == 0)
      then action.restorer
      else if realtime
      then h.rt_signal_return_trampoline
      else h.signal_return_trampoline in
    let gpr = update context.gpr 0 linux_signal in
    let gpr : ℕ → ℕ =
      if realtime then update (update gpr 1 sp) 2 (context_address true sp) else gpr in
    record context {
      uc_sigmask = handler_host_mask h action linux_signal context.uc_sigmask;
      gpr = update (update (update gpr 13 sp) 14 restorer) 15 action.handler;
    }

-- `guest_context` in the frame.
unfoldable pub frame_context : Context → SignalSet → Option SignalInfo → ℕ → ℕ → LinuxContext
frame_context context old_mask host_info pointer size =
    record (prepare_context context old_mask (elim host_info [ none ↦ 0 | some i ↦ i.si_addr ])) {
      stack = record {
        pointer = pointer;
        flags = stack_flags (context.gpr 13) pointer size;
        size = size;
      };
    }

-- From `action = guest_actions[linux_signal]` on, where there is a handler.
unfoldable pub start_handler : Host → Context → ℕ → Option SignalInfo → Signals → Context × Signals
start_handler h context linux_signal host_info s =
    let action = s.actions linux_signal in
    let (old_mask, current) = guest_thread_signal_delivery_mask s.current in
    let (pointer, size) = guest_thread_altstack_get current in
    let sp = frame_address action (context.gpr 13) pointer size in
    let realtime = is_realtime_action action in
    (
      handler_context h action linux_signal sp context,
      record {
        actions =
            if has_flag action.flags linux_sa_resethand
            then update s.actions linux_signal (record action { handler = 0 })
            else s.actions;
        current = guest_thread_signal_mask_set (handler_mask action linux_signal old_mask) current;
        contexts =
            update s.contexts (context_address realtime sp)
              (frame_context context old_mask host_info pointer size);
        information =
            if realtime
            then update s.information sp (fill_siginfo linux_signal host_info)
            else s.information;
      },
    )

unfoldable pub guest_signal_deliver :
    Host → Context → ℕ → Option SignalInfo → Signals → Delivery × Context × Signals
guest_signal_deliver h context linux_signal host_info s =
    let (new_context, started) = start_handler h context linux_signal host_info s in
    if linux_signal == 0 || ltb linux_signal_count linux_signal
    then (refused, context, s)
    else if not (linux_signal == 4)
        && (not (linux_signal == 11) && guest_thread_signal_mask_get s.current linux_signal)
    then (
      pended,
      context,
      record s { current = guest_thread_signal_pending linux_signal host_info s.current },
    )
    else if leb (s.actions linux_signal).handler 1
    then (refused, context, s)
    else (delivered, new_context, started)

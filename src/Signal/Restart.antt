-- ===== src/Signal/Restart.antt =====
-- src/guest_signal.c, guest_signal_deliver_pending: a system call that a signal has interrupted.
use alpine_on_qnx.Prelude.{ℕ, ◌≡◌, refl, ap, true, Option, some}
use alpine_on_qnx.Words.{sub32, has_flag}
use alpine_on_qnx.Thread.{SignalInfo}
use alpine_on_qnx.Thread.Pending.{update, guest_thread_take_pending}
use alpine_on_qnx.Signal.{Host, Context, Signals}
use alpine_on_qnx.Signal.Deliver.{
  Delivery, delivered, pended, refused, is_realtime_action, context_address, linux_sa_restart,
}
use alpine_on_qnx.Signal.Start.{guest_signal_deliver_delivered}
use alpine_on_qnx.Signal.Return.{guest_signal_return, guest_signal_return_registers}
use alpine_on_qnx.Signal.Pend.{
  PendingResult, handled, to_result, minus_eintr, restartable_syscall, ready_to_restart,
  deliver_taken, guest_signal_deliver_pending,
}

to_result_handled : (d : Delivery) → to_result d ≡ handled → d ≡ delivered
to_result_handled delivered e = refl
to_result_handled pended e = absurd cc
to_result_handled refused e = absurd cc

-- A handler that is started at the end of a system call returns to the context that was made ready.
deliver_taken_returns :
    (h : Host) (context : Context) (number original_r0 : ℕ) (s : Signals) (n : ℕ)
    (information : SignalInfo) (later : Context) (s' : Signals)
    → let (result, entry, after) =
        deliver_taken h context number original_r0 s (some (n, information)) in
      let frame = context_address (is_realtime_action (s.actions n)) (entry.gpr 13) in
      result ≡ handled
      → later.gpr 13 ≡ entry.gpr 13
      → s'.contexts frame ≡ after.contexts frame
      → (back : Context) × (end : Signals) × (guest_signal_return h later
            (is_realtime_action (s.actions n))
            s'
          ≡ some (back, end))
        × (back.gpr ≡ (ready_to_restart (s.actions n) number original_r0 context).gpr)
unfolding deliver_taken
deliver_taken_returns h context number original_r0 s n information later s' done esp ectx =
    let ready = ready_to_restart (s.actions n) number original_r0 context in
    let info = some information in
    let started = guest_signal_deliver_delivered h ready n info s (to_result_handled _ done) in
    guest_signal_return_registers h ready n info s later s' (rw started at esp) (rw started at ectx)

-- A restartable call that a signal with SA_RESTART has interrupted: the handler returns to the
-- instruction in front, with the first argument in r0 and the other registers as they were.
pub guest_signal_deliver_pending_restarts :
    (h : Host) (context : Context) (number original_r0 : ℕ) (s : Signals) (n : ℕ)
    (information : SignalInfo) (later : Context) (s' : Signals)
    → let (result, entry, after) = guest_signal_deliver_pending h context number original_r0 s in
      let frame = context_address (is_realtime_action (s.actions n)) (entry.gpr 13) in
      (guest_thread_take_pending s.current).0 ≡ some (n, information)
      → result ≡ handled
      → context.gpr 0 ≡ minus_eintr
      → has_flag (s.actions n).flags linux_sa_restart ≡ true
      → restartable_syscall number ≡ true
      → later.gpr 13 ≡ entry.gpr 13
      → s'.contexts frame ≡ after.contexts frame
      → (back : Context) × (end : Signals) × (guest_signal_return h later
            (is_realtime_action (s.actions n))
            s'
          ≡ some (back, end))
        × (back.gpr ≡ update (update context.gpr 0 original_r0) 15 (sub32 (context.gpr 15) 4))
unfolding guest_signal_deliver_pending ready_to_restart
guest_signal_deliver_pending_restarts h context number original_r0 s n information later s' taken
      done eintr restart restartable esp ectx =
    let left : Signals = record s { current = (guest_thread_take_pending s.current).1 } in
    let run : Option (ℕ × SignalInfo) → PendingResult × Context × Signals =
      λ o. deliver_taken h context number original_r0 left o in
    let e = ap run taken in
    let (back, end, returned, registers) =
      deliver_taken_returns h context number original_r0 left n information later s' (rw e at done)
        (rw e at esp) (rw e at ectx) in
    (back, end, returned, rw (eintr, restart, restartable) at registers)

-- ===== src/Signal/Pend.antt =====
-- src/guest_signal.c: signals that arrive from the host or at the end of a system call, and those
-- that the guest sends.
use alpine_on_qnx.Prelude.{
  ℕ, Bool, false, not, ◌&&◌, ◌||◌, Option, none, some, List, [], ◌∷◌, ◌==◌, if◌then◌else◌,
}
use alpine_on_qnx.Words.{has_flag, sub32}
use alpine_on_qnx.Abi.Errno.{Errno}
use alpine_on_qnx.Abi.Answer.{Answer, value, from_errno, einval, esrch}
use alpine_on_qnx.Thread.{SignalInfo, ThreadState, guest_thread_syscall_active}
use alpine_on_qnx.Thread.Pending.{update, guest_thread_signal_pending, guest_thread_take_pending}
use alpine_on_qnx.Thread.Exit.{guest_thread_kill}
use alpine_on_qnx.Signal.{Host, SigAction, Context, Signals}
use alpine_on_qnx.Signal.Number.{linux_signal_to_host, guest_signal_from_host}
use alpine_on_qnx.Signal.Deliver.{
  Delivery, delivered, pended, refused, linux_sa_restart, guest_signal_deliver,
}

-- (uint32_t)-EINTR
abbrev pub minus_eintr : ℕ
minus_eintr = 0xfffffffc

abbrev pub restartable_numbers : List ℕ
restartable_numbers = 3 ∷ 4 ∷ 54 ∷ 114 ∷ 145 ∷ 146 ∷ 240 ∷ 283 ∷ 285 ∷ 291 ∷ 292 ∷ 297 ∷ 366 ∷ []

abbrev pub is_one_of : List ℕ → ℕ → Bool
is_one_of [] n = false
is_one_of (x ∷ xs) n = x == n || is_one_of xs n

abbrev pub restartable_syscall : ℕ → Bool
restartable_syscall number = is_one_of restartable_numbers number

-- The context of a system call that a signal has interrupted, made ready to be called again.
unfoldable pub ready_to_restart : SigAction → ℕ → ℕ → Context → Context
ready_to_restart action syscall_number original_r0 context = record context {
  gpr =
      if context.gpr 0 == minus_eintr
        && (has_flag action.flags linux_sa_restart && restartable_syscall syscall_number)
      then update (update context.gpr 0 original_r0) 15 (sub32 (context.gpr 15) 4)
      else context.gpr;
}

-- 0, 1 and -1.
pub data PendingResult : Type 0 where
  none_pending handled unhandled : PendingResult

abbrev pub to_result : Delivery → PendingResult
to_result delivered = handled
to_result pended = unhandled
to_result refused = unhandled

-- From `if (linux_signal == 0)` on.
unfoldable pub deliver_taken :
    Host → Context → ℕ → ℕ → Signals → Option (ℕ × SignalInfo) → PendingResult × Context × Signals
deliver_taken h context syscall_number original_r0 s none = (none_pending, context, s)
deliver_taken h context syscall_number original_r0 s (some (linux_signal, information)) =
    let ready = ready_to_restart (s.actions linux_signal) syscall_number original_r0 context in
    let (result, context', after) =
      guest_signal_deliver h ready linux_signal (some information) s in
    (to_result result, context', after)

unfoldable pub guest_signal_deliver_pending :
    Host → Context → ℕ → ℕ → Signals → PendingResult × Context × Signals
guest_signal_deliver_pending h context syscall_number original_r0 s =
    let (taken, current) = guest_thread_take_pending s.current in
    deliver_taken h context syscall_number original_r0 (record s { current = current }) taken

-- `host_signal_handler`; `executable` is what `guest_memory_is_executable` says of the program counter.
unfoldable pub host_signal_handler :
    Host → Bool → ℕ → SignalInfo → Context → Signals → Context × Signals
host_signal_handler h executable host_signal information context s =
    let linux_signal = guest_signal_from_host h host_signal in
    let (result, context', s') = guest_signal_deliver h context linux_signal (some information) s in
    let pend : Signals → Signals = λ x. record x {
      current = guest_thread_signal_pending linux_signal (some information) x.current;
    } in
    if linux_signal == 0
    then (context, s)
    else if not (guest_thread_syscall_active s.current) && executable
    then elim result [
      | delivered ↦ (context', s')
      | pended ↦ (context', pend s')
      | refused ↦ (context', pend s')
    ]
    else (context, pend s)

-- `guest_signal_send`: the answer, and the host's signal that `kill` sends, if it is called.
-- `kill_error` is the answer of `kill`.
unfoldable pub guest_signal_send : Host → Option Errno → ℕ → Answer × Option ℕ
guest_signal_send h kill_error linux_signal =
    let host_signal = if linux_signal == 0 then 0 else linux_signal_to_host h linux_signal in
    if not (linux_signal == 0) && host_signal == 0
    then (einval, none)
    else (elim kill_error [ none ↦ value 0 | some e ↦ from_errno e ], some host_signal)

unfoldable pub guest_signal_send_thread :
    Host → (ThreadState → ℕ → Option Errno) → ℕ → ℕ → ℕ → ℕ → List ThreadState → Answer
guest_signal_send_thread h pthread_kill pid process thread linux_signal threads =
    let host_signal = if linux_signal == 0 then 0 else linux_signal_to_host h linux_signal in
    if not (process == 0) && not (process == pid)
    then esrch
    else if not (linux_signal == 0) && host_signal == 0
    then einval
    else guest_thread_kill pthread_kill thread host_signal threads

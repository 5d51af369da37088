-- ===== src/Signal/Start.antt =====
-- src/guest_signal.c, guest_signal_deliver: when a handler is started, and where its frame lies.
use alpine_on_qnx.Prelude.{
  ℕ, ◌+◌, ◌%◌, ◌^◌, ◌≤◌, ◌<◌, ◌≡◌, refl, Bool, true, false, not, ◌&&◌, ◌||◌, Option, ltb, leb, ◌==◌,
  if◌then◌else◌, arith,
}
use alpine_on_qnx.Words.{has_flag}
use alpine_on_qnx.Thread.{SignalInfo, guest_thread_signal_mask_get}
use alpine_on_qnx.Thread.Pending.{update, guest_thread_signal_pending}
use alpine_on_qnx.Signal.{Host, SigAction, Context, Signals, linux_signal_count}
use alpine_on_qnx.Signal.Altstack.{is_on_altstack}
use alpine_on_qnx.Signal.Deliver.{
  Delivery, delivered, pended, refused, linux_sa_onstack, host_signal_stack_reserve, sigframe_size,
  rt_sigframe_size, is_realtime_action, frame_address, start_handler, guest_signal_deliver,
}

pub frame_size : SigAction → ℕ
frame_size action = if is_realtime_action action then rt_sigframe_size else sigframe_size

pub update-same {ℓ} : {A : Type ℓ} (f : ℕ → A) (i : ℕ) (v : A) → update f i v i ≡ v
update-same f i v = let e : (i == i) ≡ true = ground arith in rw e refl

started_only {ℓ} :
    {A B : Type ℓ} (a b c : Bool) (x y z w : A × B)
    → let r : Delivery × A × B =
        if a
        then (refused, x.0, x.1)
        else if b
        then (pended, y.0, y.1)
        else if c
        then (refused, z.0, z.1)
        else (delivered, w.0, w.1) in
      r.0 ≡ delivered → r ≡ (delivered, w.0, w.1)
started_only true b c x y z w e = absurd cc
started_only false true c x y z w e = absurd cc
started_only false false true x y z w e = absurd cc
started_only false false false x y z w e = refl

-- A delivery that succeeds is the start of the handler of a signal that may be delivered.
pub guest_signal_deliver_delivered :
    (h : Host) (context : Context) (n : ℕ) (info : Option SignalInfo) (s : Signals)
    → (guest_signal_deliver h context n info s).0 ≡ delivered
    → guest_signal_deliver h context n info s
      ≡ (delivered, (start_handler h context n info s).0, (start_handler h context n info s).1)
unfolding guest_signal_deliver
guest_signal_deliver_delivered h context n info s e =
    started_only (n == 0 || ltb linux_signal_count n)
      (not (n == 4) && (not (n == 11) && guest_thread_signal_mask_get s.current n))
      (leb (s.actions n).handler 1) (context, s)
      (context, record s { current = guest_thread_signal_pending n info s.current }) (context, s)
      (start_handler h context n info s) e

-- A handler for the alternate stack that is started off it has its whole frame on it.
pub frame_address_onstack :
    (action : SigAction) (sp pointer size : ℕ)
    → has_flag action.flags linux_sa_onstack ≡ true
    → is_on_altstack sp pointer size ≡ false
    → 2048 ≤ size
    → pointer + size < 2 ^ 32
    → (pointer ≤ frame_address action sp pointer size)
      × (frame_address action sp pointer size + frame_size action ≤ pointer + size)
      × (frame_address action sp pointer size % 8 ≡ 0)
unfolding frame_address frame_size
frame_address_onstack action sp pointer size onstack off large fits =
    ground (arith, onstack, off, large, fits)

-- Every other frame lies below the part of the interrupted stack that the host's handler is using.
pub frame_address_reserve :
    (action : SigAction) (sp pointer size : ℕ)
    → has_flag action.flags linux_sa_onstack ≡ false
    → 9088 ≤ sp
    → sp < 2 ^ 32
    → (frame_address action sp pointer size + frame_size action + host_signal_stack_reserve ≤ sp)
      × (frame_address action sp pointer size % 8 ≡ 0)
unfolding frame_address frame_size
frame_address_reserve action sp pointer size plain high word = ground (arith, plain, high, word)

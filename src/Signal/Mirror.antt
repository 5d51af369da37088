-- ===== src/Signal/Mirror.antt =====
-- src/guest_signal.c: the host's signal mask and the guest's, which the code keeps side by side.
use alpine_on_qnx.Prelude.{
  ℕ, ◌%◌, ◌<◌, ◌≡◌, refl, sym, ap, ◌∙◌, Bool, true, false, not, ◌&&◌, ◌||◌, Option, none, some, ltb,
  leb, ◌==◌, if◌then◌else◌, Bool-cases, Option-cases, inl, inr, arith, eq_of_some, subst,
}
use alpine_on_qnx.Thread.{
  SignalSet, SignalInfo, ThreadState, Current, guest_thread_signal_mask_get,
  guest_thread_signal_mask_set, guest_thread_signal_delivery_mask,
}
use alpine_on_qnx.Signal.{Host, SigAction, Context, Signals, SignalStack, LinuxContext}
use alpine_on_qnx.Signal.Number.{
  IsHost, is_hosted, linux_signal_to_host, linux_signal_to_host_positive,
  linux_signal_to_host_injective, linux_signal_to_host_bounded,
}
use alpine_on_qnx.Signal.Sets.{
  linux_set_to_host, merge_host_sets, merge_from_lem, linux_set_to_host_blocks,
}
use alpine_on_qnx.Signal.Deliver.{handler_mask, handler_host_mask, handler_context, start_handler}
use alpine_on_qnx.Signal.Return.{restore_altstack, restore_from, guest_signal_return}
use alpine_on_qnx.Signal.Frame.{restore_vfp}

-- The signals that both masks can block.
abbrev pub is_mirrored : ℕ → Bool
is_mirrored n = is_hosted n && not (n == 4 || (n == 11 || (n == 9 || n == 19)))

-- The host blocks its number of a signal just where the guest blocks the signal.
pub record Mirrors (h : Host) (host guest : SignalSet) : Type 0 where
  pub same : (n : ℕ) → is_mirrored n ≡ true → host (linux_signal_to_host h n) ≡ guest n

and_true : (b : Bool) → (b && true) ≡ b
and_true true = refl
and_true false = refl

-- The two masks of a handler, one signal at a time: `defers` says that the signal itself is blocked,
-- `numbered` that the host has it, and `own` that the signal in question is that one.
one_signal :
    (defers numbered own both own_guest guest : Bool)
    → (numbered && own) ≡ own_guest
    → both ≡ guest
    → (if defers && numbered then if own then true else both else both)
      ≡ (guest || (defers && own_guest))
one_signal false numbered own both own_guest true e f = f
one_signal false numbered own both own_guest false e f = f
one_signal true false own both own_guest true e f = f
one_signal true false own both own_guest false e f = f ∙ e
one_signal true true true both own_guest true e f = refl
one_signal true true true both own_guest false e f = e
one_signal true true false both own_guest true e f = f
one_signal true true false both own_guest false e f = f ∙ e

merged :
    (h : Host) (host source : SignalSet) (n : ℕ)
    → IsHost h
    → is_mirrored n ≡ true
    → merge_host_sets h host (linux_set_to_host h source) (linux_signal_to_host h n)
      ≡ host (linux_signal_to_host h n) || source n
unfolding merge_host_sets
merged h host source n v m =
    let hosted : is_hosted n ≡ true = ground (arith, m) in
    let k = linux_signal_to_host h n in
    let positive : ltb 0 k ≡ true = ground (arith, linux_signal_to_host_positive h n v hosted) in
    let bounded : leb k h.sigrtmax ≡ true =
      ground (arith, linux_signal_to_host_bounded h n v hosted) in
    let blocks : linux_set_to_host h source k ≡ source n =
      ground (arith, linux_set_to_host_blocks h source n v hosted, m) in
    let all = merge_from_lem host (linux_set_to_host h source) h.sigrtmax k in
    all ∙ rw (blocks, positive, bounded) (ap (λ b. host k || b) (and_true (source n)))

-- The host's number of a signal that is blocked, and of the signal that is handled.
own_number :
    (h : Host) (k n : ℕ)
    → IsHost h
    → is_hosted k ≡ true
    → (not (linux_signal_to_host h n == 0) && linux_signal_to_host h k == linux_signal_to_host h n)
      ≡ (k == n)
own_number h k n v hosted =
    let positive = linux_signal_to_host_positive h k v hosted in
    let one = linux_signal_to_host_injective h n k v hosted in
    elim (Bool-cases (k == n)) [
      | inl e ↦
          let same : k ≡ n = ground arith in
          let n_positive : 0 < linux_signal_to_host h n = rw (sym same) positive in
          rw same (ground (arith, n_positive))
      | inr e ↦ elim (Bool-cases (linux_signal_to_host h k == linux_signal_to_host h n)) [
        | inl f ↦ absurd (ground (arith, e, one (ground arith)))
        | inr f ↦ rw (e, f) (ground arith)
      ]
    ]

-- In a handler both masks still agree: the signals that its action names, and its own signal unless it
-- asked otherwise, are blocked on both sides, next to those that were.
handler_mask-Mirrors :
    (h : Host) (action : SigAction) (n : ℕ) (host guest : SignalSet)
    → IsHost h
    → Mirrors h host guest
    → Mirrors h (handler_host_mask h action n host) (handler_mask action n guest)
unfolding handler_mask handler_host_mask
handler_mask-Mirrors h action n host guest v w = record {
  same = λ k m.
      let both = merged h host action.mask k v m in
      let hosted : is_hosted k ≡ true = ground (arith, m) in
      let own = own_number h k n v hosted in
      let same = w.same k m in
      one_signal _ _ _ _ _ _ own (both ∙ ap (λ b. b || action.mask k) same);
}

delivery_mask_some :
    (current : Current) (t : ThreadState)
    → current ≡ some t
    → (u : ThreadState) × ((guest_thread_signal_delivery_mask current).1 ≡ some u)
delivery_mask_some none t e = absurd cc
delivery_mask_some (some u) t e = elim (Bool-cases u.suspend_restore_valid) [
  | inl e ↦ rw e (_, refl)
  | inr e ↦ rw e (_, refl)
]

mask_get_set :
    (words : SignalSet) (current : Current) (t : ThreadState)
    → current ≡ some t
    → guest_thread_signal_mask_get (guest_thread_signal_mask_set words current) ≡ words
mask_get_set words current t e = rw e refl

-- With a host that numbers the signals it has apart: where a handler starts, the host's mask and the
-- guest's agree if they did before, on all signals that the host has but SIGILL, SIGSEGV, SIGKILL and
-- SIGSTOP, of which nothing is said.
pub start_handler-Mirrors :
    (h : Host) (context : Context) (n : ℕ) (info : Option SignalInfo) (s : Signals)
    (t : ThreadState)
    → IsHost h
    → s.current ≡ some t
    → Mirrors h context.uc_sigmask (guest_thread_signal_delivery_mask s.current).0
    → let (entry, after) = start_handler h context n info s in
      Mirrors h entry.uc_sigmask (guest_thread_signal_mask_get after.current)
unfolding start_handler handler_context
start_handler-Mirrors h context n info s t v present w =
    let kept = handler_mask-Mirrors h (s.actions n) n _ _ v w in
    let (u, some_thread) = delivery_mask_some s.current t present in
    subst (Mirrors h _) (sym (mask_get_set _ _ u some_thread)) kept

set-Mirrors :
    (h : Host) (words : SignalSet) → IsHost h → Mirrors h (linux_set_to_host h words) words
set-Mirrors h words v = record {
  same = λ n m.
      let hosted : is_hosted n ≡ true = ground (arith, m) in
      ground (arith, linux_set_to_host_blocks h words n v hosted, m);
}

restore_altstack_mask :
    (realtime : Bool) (stack : SignalStack) (t : ThreadState)
    → guest_thread_signal_mask_get (restore_altstack realtime stack (some t)) ≡ t.signal_mask
unfolding restore_altstack
restore_altstack_mask realtime stack t = elim (Bool-cases (realtime && stack.flags == 2)) [
  | inl e ↦ rw e refl
  | inr e ↦ elim (Bool-cases (realtime && stack.flags == 0)) [
    | inl f ↦ rw (e, f) refl
    | inr f ↦ rw (e, f) refl
  ]
]

restore_from-Mirrors :
    (h : Host) (context : Context) (realtime : Bool) (guest : LinuxContext) (s : Signals)
    (t : ThreadState) (back : Context) (after : Signals)
    → IsHost h
    → s.current ≡ some t
    → restore_from h context realtime guest s ≡ some (back, after)
    → Mirrors h back.uc_sigmask (guest_thread_signal_mask_get after.current)
unfolding restore_from
restore_from-Mirrors h context realtime guest s t back after v present done =
    elim (Option-cases (restore_vfp context.vfp guest.register_space)) [
      | inl e ↦ absurd (cc (rw (e, restore_from) at done))
      | inr (vfp, e) ↦
          let restored = eq_of_some (rw (e, restore_from) at done) in
          let mask : guest_thread_signal_mask_get (
                restore_altstack realtime guest.stack
                  (guest_thread_signal_mask_set guest.signal_mask s.current))
              ≡ guest.signal_mask =
            rw present (
              restore_altstack_mask realtime guest.stack
                (record t { signal_mask = guest.signal_mask })) in
          subst
            (λ (r : Context × Signals).
              Mirrors h r.0.uc_sigmask (guest_thread_signal_mask_get r.1.current))
            restored (subst (Mirrors h _) (sym mask) (set-Mirrors h guest.signal_mask v))
    ]

-- Where a handler returns, the host's mask and the guest's agree, whatever they were.
pub guest_signal_return-Mirrors :
    (h : Host) (context : Context) (realtime : Bool) (s : Signals) (t : ThreadState)
    (back : Context) (after : Signals)
    → IsHost h
    → s.current ≡ some t
    → guest_signal_return h context realtime s ≡ some (back, after)
    → Mirrors h back.uc_sigmask (guest_thread_signal_mask_get after.current)
unfolding guest_signal_return
guest_signal_return-Mirrors h context realtime s t back after v present done =
    elim (Bool-cases (context.gpr 13 % 8 == 0)) [
      | inl e ↦ restore_from-Mirrors h context realtime _ s t back after v present (rw e at done)
      | inr e ↦ absurd (cc (rw e at done))
    ]

-- ===== src/Signal/Action.antt =====
-- src/guest_signal.c, guest_signal_action: what is to be done on a signal.
use alpine_on_qnx.Prelude.{
  ℕ, ◌≡◌, ◌≢◌, refl, sym, ◌∙◌, Bool, false, not, ◌||◌, Option, none, some, ltb, ◌==◌, if◌then◌else◌,
  Bool-cases, inl, inr, arith,
}
use alpine_on_qnx.Words.{has_flag}
use alpine_on_qnx.Abi.Errno.{Errno}
use alpine_on_qnx.Abi.Answer.{Answer, value, from_errno, einval}
use alpine_on_qnx.Thread.{SignalSet}
use alpine_on_qnx.Thread.Pending.{update}
use alpine_on_qnx.Signal.{Host, SigAction, linux_signal_count}
use alpine_on_qnx.Signal.Number.{IsHost, linux_signal_to_host, linux_signal_to_host_injective}
use alpine_on_qnx.Signal.Sets.{linux_set_to_host, fatal_numbers}
use alpine_on_qnx.Signal.Deliver.{linux_sa_nodefer, linux_sa_resethand}

abbrev pub linux_sa_nocldstop : ℕ
linux_sa_nocldstop = 0x00000001

abbrev pub linux_sa_nocldwait : ℕ
linux_sa_nocldwait = 0x00000002

-- SIG_DFL, SIG_IGN and `host_signal_handler`.
pub data Disposition : Type 0 where
  by_default ignored guest_handled : Disposition

-- The `struct sigaction` for the host, its `sa_flags` one by one.
pub record HostAction : Type 0 where
  pub handler : Disposition
  pub sa_siginfo : Bool
  pub sa_nocldstop : Bool
  pub sa_nocldwait : Bool
  pub sa_nodefer : Bool
  pub sa_resethand : Bool
  pub sa_mask : SignalSet

unfoldable pub host_action_of : Host → SigAction → HostAction
host_action_of h action = record {
  handler =
      if action.handler == 1
      then ignored
      else if action.handler == 0
      then by_default
      else guest_handled;
  sa_siginfo = ltb 1 action.handler;
  sa_nocldstop = has_flag action.flags linux_sa_nocldstop;
  sa_nocldwait = has_flag action.flags linux_sa_nocldwait;
  sa_nodefer = has_flag action.flags linux_sa_nodefer;
  sa_resethand = has_flag action.flags linux_sa_resethand;
  sa_mask = linux_set_to_host h action.mask;
}

-- What the call leaves: the answer, what is written to `guest_old_action`, `guest_actions`, and the
-- call of the host's `sigaction`, if there is one, with its signal.
pub record Acted : Type 0 where
  pub answer : Answer
  pub old : Option SigAction
  pub actions : ℕ → SigAction
  pub host_call : Option (ℕ × HostAction)

abbrev pub acted : Answer → Option SigAction → (ℕ → SigAction) → Option (ℕ × HostAction) → Acted
acted answer old actions host_call = record {
  answer = answer;
  old = old;
  actions = actions;
  host_call = host_call;
}

-- With an action to install.
unfoldable pub install_action :
    Host → Option Errno → ℕ → SigAction → Option SigAction → (ℕ → SigAction) → Acted
install_action h sigaction_error linux_signal action old actions =
    let installed = update actions linux_signal action in
    let call = some (linux_signal_to_host h linux_signal, host_action_of h action) in
    if linux_signal == 9 || linux_signal == 19
    then acted einval old actions none
    else if linux_signal == 4 || linux_signal == 11
    then acted (value 0) old installed none
    else acted (elim sigaction_error [ none ↦ value 0 | some e ↦ from_errno e ]) old installed call

-- The first test of `guest_signal_action`.
abbrev pub is_refused : Host → ℕ → ℕ → Bool
is_refused h linux_signal signal_set_size =
    not (signal_set_size == 8)
    || (linux_signal == 0
        || (ltb linux_signal_count linux_signal || linux_signal_to_host h linux_signal == 0))

-- `sigaction_error` is the answer of the host's `sigaction`; `wants_old` says that there is a
-- `guest_old_action`.
unfoldable pub guest_signal_action :
    Host → Option Errno → ℕ → Option SigAction → Bool → ℕ → (ℕ → SigAction) → Acted
guest_signal_action h sigaction_error linux_signal guest_action wants_old signal_set_size actions =
    let old = if wants_old then some (actions linux_signal) else none in
    if is_refused h linux_signal signal_set_size
    then acted einval none actions none
    else elim guest_action [
      | none ↦ acted (value 0) old actions none
      | some action ↦ install_action h sigaction_error linux_signal action old actions
    ]

-- The call leaves the host's handling of the traps alone.
abbrev pub KeepsTraps : Acted → Type 0
KeepsTraps a = elim a.host_call as (λ c. Type 0) [
  | none ↦ Unit {0}
  | some (number, action) ↦ (number ≢ 4) × (number ≢ 11)
]

-- The actions for SIGKILL and SIGSTOP are what they were.
abbrev pub KeepsKill : (ℕ → SigAction) → Acted → Type 0
KeepsKill actions a = (a.actions 9 ≡ actions 9) × (a.actions 19 ≡ actions 19)

keeps_kill :
    (n : ℕ) (action : SigAction) (actions : ℕ → SigAction)
    → (n == 9 || n == 19) ≡ false
    → (update actions n action 9 ≡ actions 9) × (update actions n action 19 ≡ actions 19)
keeps_kill n action actions e =
    let a : (9 == n) ≡ false = ground (arith, e) in
    let b : (19 == n) ≡ false = ground (arith, e) in (rw a refl, rw b refl)

not_fatal :
    (h : Host) (n : ℕ)
    → IsHost h
    → (n == 4 || n == 11) ≡ false
    → (linux_signal_to_host h n ≢ 4) × (linux_signal_to_host h n ≢ 11)
not_fatal h n v e =
    let same = fatal_numbers h in
    let four = linux_signal_to_host_injective h n 4 v refl in
    let eleven = linux_signal_to_host_injective h n 11 v refl in
    (
      (λ q. absurd (ground (arith, four (q ∙ sym same.0), e))),
      (λ q. absurd (ground (arith, eleven (q ∙ sym same.1), e))),
    )

install_action_lem :
    (h : Host) (e : Option Errno) (n : ℕ) (action : SigAction) (old : Option SigAction)
    (actions : ℕ → SigAction)
    → IsHost h
    → KeepsTraps (install_action h e n action old actions)
      × KeepsKill actions (install_action h e n action old actions)
unfolding install_action
install_action_lem h e n action old actions v =
    let kill = Bool-cases (n == 9 || n == 19) in
    let fatal = Bool-cases (n == 4 || n == 11) in
    elim kill [
      | inl k ↦ rw k (tt, (refl, refl))
      | inr k ↦ elim fatal [
        | inl f ↦ rw (k, f) (tt, keeps_kill n action actions k)
        | inr f ↦ rw (k, f) (not_fatal h n v f, keeps_kill n action actions k)
      ]
    ]

-- However the guest changes the action of a signal, the host's handlers for SIGILL and SIGSEGV, by which
-- system calls arrive, are not replaced, and SIGKILL and SIGSTOP keep their actions.
pub guest_signal_action_keeps :
    (h : Host) (e : Option Errno) (n : ℕ) (guest_action : Option SigAction) (wants_old : Bool)
    (size : ℕ) (actions : ℕ → SigAction)
    → IsHost h
    → let a = guest_signal_action h e n guest_action wants_old size actions in
      KeepsTraps a × KeepsKill actions a
unfolding guest_signal_action
guest_signal_action_keeps h e n none wants_old size actions v =
    elim (Bool-cases (is_refused h n size)) [
      | inl bad ↦ rw bad (tt, (refl, refl))
      | inr ok ↦ rw ok (tt, (refl, refl))
    ]
guest_signal_action_keeps h e n (some action) wants_old size actions v =
    elim (Bool-cases (is_refused h n size)) [
      | inl bad ↦ rw bad (tt, (refl, refl))
      | inr ok ↦ rw ok (install_action_lem h e n action _ actions v)
    ]

-- ===== src/Thread/Retire.antt =====
-- src/guest_thread.c with src/linux_futex.c: what the other threads see of one that has ended.
use alpine_on_qnx.Prelude.{
  ℕ, ◌≡◌, ◌≢◌, refl, sym, ap, true, false, Option, List, [], ◌∷◌, ◌++◌, ◌==◌, arith,
}
use alpine_on_qnx.Abi.Errno.{Errno}
use alpine_on_qnx.Abi.Answer.{Answer, esrch}
use alpine_on_qnx.Thread.{ThreadState}
use alpine_on_qnx.Thread.Clone.{NoTid, Distinct}
use alpine_on_qnx.Thread.Exit.{
  Process, unregister, deferred_unmap, retire, finish_guest_thread, guest_thread_kill,
}

-- No thread of the list stands at the address.
abbrev pub NoSelf : ℕ → List ThreadState → Type 0
NoSelf self [] = Unit {0}
NoSelf self (t ∷ ts) = ((t.self == self) ≡ false) × NoSelf self ts

unregister_lem :
    (t : ThreadState) (before after : List ThreadState)
    → NoSelf t.self before
    → unregister t.self (before ++ t ∷ after) ≡ before ++ after
unfolding unregister
unregister_lem t [] after h = let e : (t.self == t.self) ≡ true = ground arith in rw e refl
unregister_lem t (u ∷ before) after h =
    let rest = unregister_lem t before after h.1 in rw h.0 (ap (λ r. u ∷ r) rest)

NoTid-kill :
    (pthread_kill : ThreadState → ℕ → Option Errno) (tid host_signal : ℕ) (ts : List ThreadState)
    → NoTid tid ts
    → guest_thread_kill pthread_kill tid host_signal ts ≡ esrch
unfolding guest_thread_kill
NoTid-kill pthread_kill tid host_signal [] h = refl
NoTid-kill pthread_kill tid host_signal (t ∷ ts) h =
    let other : (t.tid == tid) ≡ false = ground (arith, h.0) in
    rw (other, guest_thread_kill) (NoTid-kill pthread_kill tid host_signal ts h.1)

NoTid-middle :
    (tid : ℕ) (t : ThreadState) (before after : List ThreadState)
    → NoTid tid (before ++ t ∷ after)
    → (tid ≢ t.tid) × NoTid tid (before ++ after)
NoTid-middle tid t [] after h = ((λ e. h.0 (sym e)), h.1)
NoTid-middle tid t (u ∷ before) after h =
    let rest = NoTid-middle tid t before after h.1 in (rest.0, (h.0, rest.1))

Distinct-middle :
    (t : ThreadState) (before after : List ThreadState)
    → Distinct (before ++ t ∷ after)
    → NoTid t.tid (before ++ after)
Distinct-middle t [] after h = h.0
Distinct-middle t (u ∷ before) after h =
    ((NoTid-middle u.tid t before after h.0).0, Distinct-middle t before after h.1)

-- A thread that has ended cannot be signalled any more, whichever of the threads it was.
pub finish_guest_thread_gone :
    (lock_error : Option Errno) (t : ThreadState) (p : Process) (before after : List ThreadState)
    (pthread_kill : ThreadState → ℕ → Option Errno) (host_signal : ℕ)
    → p.registry.threads ≡ before ++ t ∷ after
    → NoSelf t.self before
    → Distinct p.registry.threads
    → let left = finish_guest_thread lock_error t p in
      (left.registry.threads ≡ before ++ after)
      × (guest_thread_kill pthread_kill t.tid host_signal left.registry.threads ≡ esrch)
unfolding finish_guest_thread deferred_unmap retire
finish_guest_thread_gone lock_error t p before after pthread_kill host_signal e free distinct =
    let gone = unregister_lem t before after free in
    let others = Distinct-middle t before after (rw e at distinct) in
    let kill = NoTid-kill pthread_kill t.tid host_signal (before ++ after) others in
    (rw e gone, rw (e, gone) kill)

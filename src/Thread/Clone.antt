-- ===== src/Thread/Clone.antt =====
-- src/guest_thread.c, guest_thread_clone: a new thread of the guest. The memory for its state and
-- the answer of pthread_create are parameters.
use Prim.Native.Nat.{bit_and}
use alpine_on_qnx.Prelude.{
  ℕ, ◌+◌, ◌^◌, ◌<◌, ◌≡◌, ◌≢◌, refl, Bool, true, false, not, ◌&&◌, Option, none, some, List, [], ◌∷◌,
  ◌==◌, if◌then◌else◌, Bool-cases, inl, inr, arith,
}
use alpine_on_qnx.Words.{u32, not32, has_flag}
use alpine_on_qnx.Abi.Errno.{Errno}
use alpine_on_qnx.Abi.Answer.{Answer, value, from_errno, einval, enomem}
use alpine_on_qnx.Thread.{ThreadState, no_signals, no_information}
use alpine_on_qnx.Thread.Pending.{update}
use alpine_on_qnx.Thread.Tid.{allocate_guest_tid, allocate_guest_tid_small}

-- LINUX_CLONE_SETTLS, PARENT_SETTID, CHILD_CLEARTID and CHILD_SETTID; LINUX_THREAD_REQUIRED and
-- LINUX_THREAD_ALLOWED.
abbrev pub clone_settls : ℕ
clone_settls = 0x00080000

abbrev pub clone_parent_settid : ℕ
clone_parent_settid = 0x00100000

abbrev pub clone_child_cleartid : ℕ
clone_child_cleartid = 0x00200000

abbrev pub clone_child_settid : ℕ
clone_child_settid = 0x01000000

abbrev pub thread_required : ℕ
thread_required = 0x00010f00

abbrev pub thread_allowed : ℕ
thread_allowed = 0x017d0f00

-- What the threads share: the list of them, the last one first, the counter of their numbers, and the
-- words of memory.
pub record Registry : Type 0 where
  pub threads : List ThreadState
  pub next_tid : ℕ
  pub memory : ℕ → ℕ

unfoldable pub clone_allowed : ℕ → ℕ → Bool
clone_allowed flags child_stack =
    bit_and flags thread_required == thread_required
    && (bit_and flags (not32 thread_allowed) == 0
        && (bit_and flags 0xff == 0 && not (child_stack == 0)))

-- The state from `calloc` on. `gpr` are the registers of the parent's context.
unfoldable pub child_state : (ℕ → ℕ) → ThreadState → ℕ → ℕ → ThreadState
child_state gpr parent self tid =
    let flags = gpr 0 in
    record {
      self = self;
      registers = update (update (update gpr 0 0) 13 (gpr 1)) 15 (u32 (gpr 15 + 4));
      guest_tls = if has_flag flags clone_settls then gpr 3 else parent.guest_tls;
      clear_child_tid = if has_flag flags clone_child_cleartid then gpr 4 else 0;
      child_tid = if has_flag flags clone_child_settid then gpr 4 else 0;
      tid = tid;
      start = false;
      pending_signals = no_signals;
      pending_information = λ n. no_information;
      realtime_head = λ i. 0;
      realtime_tail = λ i. 0;
      realtime_information = λ i k. no_information;
      signal_mask = parent.signal_mask;
      suspend_restore_mask = no_signals;
      suspend_restore_valid = false;
      futex_semaphore = none;
      futex_interrupted = false;
      signal_wait_read_fd = none;
      signal_wait_write_fd = none;
      signal_wait_bytes = 0;
      syscall_active = false;
      altstack_pointer = 0;
      altstack_size = 0;
      deferred_unmap_start = 0;
      deferred_unmap_length = 0;
    }

-- `calloc` gives the address of the new state, or null, and `create` the error of making the
-- host's thread. The last branch is not reached: see `allocate_guest_tid_total`.
unfoldable pub guest_thread_clone :
    (ℕ → ℕ) → ThreadState → Option ℕ → Option Errno → Registry → Answer × Registry
unfolding child_state
guest_thread_clone gpr parent none create r =
    (if clone_allowed (gpr 0) (gpr 1) then enomem else einval, r)
guest_thread_clone gpr parent (some self) create r =
    let made = elim (allocate_guest_tid 2 r.next_tid) as (λ x. Answer × Registry) [
      | some (tid, next) ↦ elim create [
        | some e ↦ (from_errno e, record r { next_tid = next })
        | none ↦ (
          value tid,
          record {
            threads = record (child_state gpr parent self tid) { start = true } ∷ r.threads;
            next_tid = next;
            memory =
                if has_flag (gpr 0) clone_parent_settid
                then update r.memory (gpr 2) tid
                else r.memory;
          },
        )
      ]
      | none ↦ (einval, r)
    ] in
    if clone_allowed (gpr 0) (gpr 1) then made else (einval, r)

-- No thread of the list has the number or stands at the address.
abbrev pub NoTid : ℕ → List ThreadState → Type 0
NoTid tid [] = Unit {0}
NoTid tid (t ∷ ts) = (t.tid ≢ tid) × NoTid tid ts

abbrev pub Below : ℕ → List ThreadState → Type 0
Below bound [] = Unit {0}
Below bound (t ∷ ts) = (t.tid < bound) × Below bound ts

abbrev pub Distinct : List ThreadState → Type 0
Distinct [] = Unit {0}
Distinct (t ∷ ts) = NoTid t.tid ts × Distinct ts

-- Until the numbers wrap around, the threads have different ones, all below the next.
pub record IsRegistry (r : Registry) : Type 0 where
  pub positive : 0 < r.next_tid
  pub below : Below r.next_tid r.threads
  pub distinct : Distinct r.threads

Below-NoTid : (n : ℕ) (ts : List ThreadState) → Below n ts → NoTid n ts
Below-NoTid n [] h = tt
Below-NoTid n (t ∷ ts) h = ((λ e. absurd (omega (arith, h.0))), Below-NoTid n ts h.1)

Below-suc : (n : ℕ) (ts : List ThreadState) → Below n ts → Below (n + 1) ts
Below-suc n [] h = tt
Below-suc n (t ∷ ts) h = (omega (arith, h.0), Below-suc n ts h.1)

-- However a call of `guest_thread_clone` ends, if the number of the next thread is below 2 ^ 30 and the
-- threads had different numbers below it: they have different numbers again, all below the number of
-- the next thread.
pub guest_thread_clone-IsRegistry :
    (gpr : ℕ → ℕ) (parent : ThreadState) (calloc : Option ℕ) (create : Option Errno) (r : Registry)
    → IsRegistry r
    → r.next_tid < 2 ^ 30
    → IsRegistry (guest_thread_clone gpr parent calloc create r).1
unfolding guest_thread_clone
guest_thread_clone-IsRegistry gpr parent none create r v h = v
guest_thread_clone-IsRegistry gpr parent (some self) (some e) r v h =
    let made = allocate_guest_tid_small r.next_tid v.positive h in
    let below = Below-suc r.next_tid r.threads v.below in
    elim (Bool-cases (clone_allowed (gpr 0) (gpr 1))) [
      | inr bad ↦ rw bad v
      | inl ok ↦
          rw (ok, made) (record { positive = omega arith; below = below; distinct = v.distinct })
    ]
guest_thread_clone-IsRegistry gpr parent (some self) none r v h =
    let made = allocate_guest_tid_small r.next_tid v.positive h in
    let below = Below-suc r.next_tid r.threads v.below in
    elim (Bool-cases (clone_allowed (gpr 0) (gpr 1))) [
      | inr bad ↦ rw bad v
      | inl ok ↦
          rw (ok, made)
            (record {
              positive = omega arith;
              below = (omega arith, below);
              distinct = (Below-NoTid r.next_tid r.threads v.below, v.distinct);
            })
    ]

-- What the new thread starts with, where the call succeeds: it returns 0 on its own stack behind the
-- system call, with the parent's other registers and its mask; it is registered, and its number is
-- what the parent gets.
pub guest_thread_clone_child :
    (gpr : ℕ → ℕ) (parent : ThreadState) (self : ℕ) (r : Registry)
    → clone_allowed (gpr 0) (gpr 1) ≡ true
    → 0 < r.next_tid
    → r.next_tid < 2 ^ 30
    → let (answer, new) = guest_thread_clone gpr parent (some self) none r in
      (child : ThreadState) × (new.threads ≡ child ∷ r.threads)
      × (answer ≡ value child.tid)
      × (child.tid ≡ r.next_tid)
      × (child.registers 0 ≡ 0)
      × (child.registers 13 ≡ gpr 1)
      × (child.registers 15 ≡ u32 (gpr 15 + 4))
      × (child.signal_mask ≡ parent.signal_mask)
      × (child.start ≡ true)
unfolding guest_thread_clone
guest_thread_clone_child gpr parent self r ok pos h =
    let tid = allocate_guest_tid_small r.next_tid pos h in
    rw (ok, tid)
      (
        record (child_state gpr parent self r.next_tid) { start = true },
        refl,
        refl,
        refl,
        refl,
        refl,
        refl,
        refl,
        refl,
      )

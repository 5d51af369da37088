-- ===== src/Futex/Steps.antt =====
-- src/linux_futex.c: what the calls do to the list of waiters.
use alpine_on_qnx.Prelude.{
  ℕ, zero, suc, Option-cases, ◌+◌, ◌≡◌, ◌≢◌, Bool, Option, none, some, List, [], ◌∷◌, ◌==◌,
  if◌then◌else◌, Bool-cases, inl, inr, arith, subst,
}
use alpine_on_qnx.Abi.Errno.{Errno}
use alpine_on_qnx.Futex.Deadline.{Timespec, Clocks}
use alpine_on_qnx.Futex.Requeue.{requeue_first}
use alpine_on_qnx.Futex.{
  Waiter, matches, wake_from, wait_locked, enqueue, deadline_of, asleep, futex_wait_begin,
  signal_waiter, remove_waiter,
}

-- No waiter of the list belongs to the thread.
abbrev pub Absent : ℕ → List Waiter → Type 0
Absent thread [] = Unit {0}
Absent thread (w ∷ rest) = (w.thread ≢ thread) × Absent thread rest

abbrev pub posts : Bool → ℕ
posts woken = if woken then 1 else 0

-- A thread waits at most once, and its semaphore has been posted by each signal, and once more if it is
-- woken.
abbrev pub IsQueue : List Waiter → Type 0
IsQueue [] = Unit {0}
IsQueue (w ∷ rest) =
    (w.semaphore ≡ posts w.woken + w.signalled) × Absent w.thread rest × IsQueue rest

pub wake_from-Absent :
    (thread address count bitset woken : ℕ) (ws : List Waiter)
    → Absent thread ws
    → Absent thread (wake_from address count bitset woken ws).1
unfolding wake_from
wake_from-Absent thread address count bitset woken [] h = tt
wake_from-Absent thread address count bitset woken (w ∷ ws) h = ground (
  arith,
  wake_from-Absent thread address count bitset
      (if matches address bitset w then woken + 1 else woken) ws,
)

pub wake_from-IsQueue :
    (address count bitset woken : ℕ) (ws : List Waiter)
    → IsQueue ws
    → IsQueue (wake_from address count bitset woken ws).1
unfolding wake_from
wake_from-IsQueue address count bitset woken [] h = tt
wake_from-IsQueue address count bitset woken (w ∷ ws) h =
    let woken' = if matches address bitset w then woken + 1 else woken in
    ground (
      arith,
      wake_from-IsQueue address count bitset woken' ws,
      wake_from-Absent w.thread address count bitset woken' ws,
    )

pub requeue_first-Absent :
    (thread address second n m : ℕ) (ws : List Waiter)
    → Absent thread ws
    → Absent thread (requeue_first address second n m ws)
requeue_first-Absent thread address second n m [] h = tt
requeue_first-Absent thread address second zero zero (w ∷ ws) h = h
requeue_first-Absent thread address second zero (suc m) (w ∷ ws) h = ground (
  arith,
  requeue_first-Absent thread address second zero m ws,
  requeue_first-Absent thread address second zero (suc m) ws,
)
requeue_first-Absent thread address second (suc n) m (w ∷ ws) h = ground (
  arith,
  requeue_first-Absent thread address second n m ws,
  requeue_first-Absent thread address second (suc n) m ws,
)

pub requeue_first-IsQueue :
    (address second n m : ℕ) (ws : List Waiter)
    → IsQueue ws
    → IsQueue (requeue_first address second n m ws)
requeue_first-IsQueue address second n m [] h = tt
requeue_first-IsQueue address second zero zero (w ∷ ws) h = h
requeue_first-IsQueue address second zero (suc m) (w ∷ ws) h = ground (
  arith,
  requeue_first-IsQueue address second zero m ws,
  requeue_first-IsQueue address second zero (suc m) ws,
  requeue_first-Absent w.thread address second zero m ws,
  requeue_first-Absent w.thread address second zero (suc m) ws,
)
requeue_first-IsQueue address second (suc n) m (w ∷ ws) h = ground (
  arith,
  requeue_first-IsQueue address second n m ws,
  requeue_first-IsQueue address second (suc n) m ws,
  requeue_first-Absent w.thread address second n m ws,
  requeue_first-Absent w.thread address second (suc n) m ws,
)

pub remove_waiter-Absent :
    (thread other : ℕ) (ws : List Waiter) → Absent other ws → Absent other (remove_waiter thread ws)
unfolding remove_waiter
remove_waiter-Absent thread other [] h = tt
remove_waiter-Absent thread other (w ∷ ws) h = ground (arith, remove_waiter-Absent thread other ws)

pub remove_waiter-IsQueue :
    (thread : ℕ) (ws : List Waiter) → IsQueue ws → IsQueue (remove_waiter thread ws)
unfolding remove_waiter
remove_waiter-IsQueue thread [] h = tt
remove_waiter-IsQueue thread (w ∷ ws) h =
    ground (arith, remove_waiter-IsQueue thread ws, remove_waiter-Absent thread w.thread ws)

pub remove_waiter-gone :
    (thread : ℕ) (ws : List Waiter) → IsQueue ws → Absent thread (remove_waiter thread ws)
unfolding remove_waiter
remove_waiter-gone thread [] h = tt
remove_waiter-gone thread (w ∷ ws) h = elim (Bool-cases (w.thread == thread)) [
  | inl found ↦
      let e : w.thread ≡ thread = ground arith in rw found (subst (λ t. Absent t ws) e h.1)
  | inr there ↦ rw there (ground arith, remove_waiter-gone thread ws h.2)
]

pub signal_waiter-Absent :
    (thread other : ℕ) (ws : List Waiter) → Absent other ws → Absent other (signal_waiter thread ws)
unfolding signal_waiter
signal_waiter-Absent thread other [] h = tt
signal_waiter-Absent thread other (w ∷ ws) h = ground (arith, signal_waiter-Absent thread other ws)

pub signal_waiter-IsQueue :
    (thread : ℕ) (ws : List Waiter) → IsQueue ws → IsQueue (signal_waiter thread ws)
unfolding signal_waiter
signal_waiter-IsQueue thread [] h = tt
signal_waiter-IsQueue thread (w ∷ ws) h =
    ground (arith, signal_waiter-IsQueue thread ws, signal_waiter-Absent thread w.thread ws)

wait_locked-asleep :
    (sem lock : Option Errno) (thread address word expected bitset : ℕ)
    (timeout deadline : Option Timespec) (ws : List Waiter) {new : List Waiter}
    → wait_locked sem lock thread address word expected bitset timeout ws ≡ (asleep deadline, new)
    → new ≡ enqueue thread address bitset ws
wait_locked-asleep (some e) lock thread address word expected bitset timeout deadline ws h = cc
wait_locked-asleep none (some e) thread address word expected bitset timeout deadline ws h = cc
wait_locked-asleep none none thread address word expected bitset timeout deadline ws h =
    ground arith

-- A thread goes to sleep only behind its own new place at the head of the list.
pub futex_wait_begin-asleep :
    (sem lock : Option Errno) (clocks : Clocks) (thread address word expected bitset clock : ℕ)
    (timeout deadline : Option Timespec) (ws : List Waiter) {new : List Waiter}
    → futex_wait_begin sem lock clocks thread address word expected timeout bitset clock ws
      ≡ (asleep deadline, new)
    → new ≡ enqueue thread address bitset ws
unfolding futex_wait_begin
futex_wait_begin-asleep sem lock clocks thread address word expected bitset clock none deadline ws
      h =
    elim (Bool-cases (bitset == 0)) [
      | inl empty ↦ cc (rw empty at h)
      | inr some_set ↦
          wait_locked-asleep sem lock thread address word expected bitset none deadline ws
            (rw some_set at h)
    ]
futex_wait_begin-asleep sem lock clocks thread address word expected bitset clock (some t) deadline
      ws h =
    elim (Bool-cases (bitset == 0)) [
      | inl empty ↦ cc (rw empty at h)
      | inr some_set ↦ elim (Option-cases (deadline_of clock clocks t)) [
        | inl bad ↦ cc (rw (some_set, bad) at h)
        | inr (d, good) ↦
            wait_locked-asleep sem lock thread address word expected bitset (some d) deadline ws
              (rw (some_set, good) at h)
      ]
    ]

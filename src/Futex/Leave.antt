-- ===== src/Futex/Leave.antt =====
-- src/linux_futex.c: the end of a wait.
use alpine_on_qnx.Prelude.{
  ℕ, ◌≡◌, ◌≢◌, refl, Bool, true, Option, none, some, List, [], ◌∷◌, ◌==◌, if◌then◌else◌, arith,
}
use alpine_on_qnx.Abi.Errno.{Errno}
use alpine_on_qnx.Abi.Answer.{value}
use alpine_on_qnx.Futex.{Waiter, remove_waiter, was_woken, futex_wait_end}
use alpine_on_qnx.Futex.Steps.{Absent, IsQueue, remove_waiter-gone}

-- The place of a thread in the list.
abbrev pub find_waiter : ℕ → List Waiter → Option Waiter
find_waiter thread [] = none
find_waiter thread (w ∷ rest) = if w.thread == thread then some w else find_waiter thread rest

find_waiter-remove :
    (thread other : ℕ) (ws : List Waiter)
    → other ≢ thread
    → find_waiter other (remove_waiter thread ws) ≡ find_waiter other ws
unfolding remove_waiter
find_waiter-remove thread other [] h = refl
find_waiter-remove thread other (w ∷ ws) h = ground (arith, find_waiter-remove thread other ws)

-- A thread that has been woken returns 0 from its wait, even if the host reports a timeout or an
-- interruption as well, and it is off the list of a queue in order.
pub futex_wait_end_woken :
    (thread : ℕ) (sem : Option Errno) (interrupted : Bool) (ws : List Waiter)
    → IsQueue ws
    → was_woken thread ws ≡ true
    → ((futex_wait_end thread sem interrupted ws).0 ≡ value 0)
      × Absent thread (futex_wait_end thread sem interrupted ws).1
unfolding futex_wait_end
futex_wait_end_woken thread sem interrupted ws h woken =
    (rw woken refl, remove_waiter-gone thread ws h)

-- The end of a wait leaves the place of every other thread in the list as it is.
pub futex_wait_end_others :
    (thread other : ℕ) (sem : Option Errno) (interrupted : Bool) (ws : List Waiter)
    → other ≢ thread
    → find_waiter other (futex_wait_end thread sem interrupted ws).1 ≡ find_waiter other ws
unfolding futex_wait_end
futex_wait_end_others thread other sem interrupted ws distinct =
    find_waiter-remove thread other ws distinct

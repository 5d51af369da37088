-- ===== src/Futex/Requeue.antt =====
-- Whom a requeue wakes, and whom it moves to the second address.
use alpine_on_qnx.Prelude.{
  ℕ, zero, suc, ◌+◌, ◌-◌, ◌≤◌, ◌<◌, ◌≡◌, ◌≢◌, ◌⊎◌, min, refl, Bool, true, false, not, ◌&&◌, Option,
  none, List, [], ◌∷◌, ◌==◌, if◌then◌else◌, Bool-cases, inl, inr, arith,
}
use alpine_on_qnx.Abi.Errno.{Errno}
use alpine_on_qnx.Abi.Answer.{value}
use alpine_on_qnx.Futex.{Waiter, int_max, post, requeue_from, futex_requeue}

abbrev pub is_waiting : ℕ → Waiter → Bool
is_waiting address w = w.address == address && not w.woken

-- The number of waiters on an address that are not woken yet.
abbrev pub waiting : ℕ → List Waiter → ℕ
waiting address [] = 0
waiting address (w ∷ rest) =
    if is_waiting address w then suc (waiting address rest) else waiting address rest

module _ (address second : ℕ) where
  -- The first waiters on the address are woken, the next ones moved, all others left.
  abbrev pub requeue_first : ℕ → ℕ → List Waiter → List Waiter
  requeue_first n m [] = []
  requeue_first zero zero (w ∷ rest) = w ∷ rest
  requeue_first zero (suc m) (w ∷ rest) =
      let moved = record w { address = second } ∷ requeue_first zero m rest in
      let passed = w ∷ requeue_first zero (suc m) rest in
      if is_waiting address w then moved else passed
  requeue_first (suc n) m (w ∷ rest) =
      let woken = post w ∷ requeue_first n m rest in
      let passed = w ∷ requeue_first (suc n) m rest in
      if is_waiting address w then woken else passed

  waiting-none :
      (wakes requeues woken requeued : ℕ) (ws : List Waiter)
      → wakes ≤ woken
      → requeues ≤ requeued
      → requeue_from address wakes requeues second woken requeued ws ≡ (woken, requeued, ws)
  unfolding requeue_from
  waiting-none wakes requeues woken requeued [] p q = refl
  waiting-none wakes requeues woken requeued (w ∷ ws) p q =
      elim (Bool-cases (is_waiting address w)) [
        | inl hit ↦ ground (arith, waiting-none wakes requeues woken requeued ws)
        | inr miss ↦ ground (arith, waiting-none wakes requeues woken requeued ws)
      ]

  module _ (wakes requeues woken requeued : ℕ) (w : Waiter) (ws : List Waiter) where
    -- The result of the rest of the loop, with one waiter in front.
    abbrev then_rest : Waiter → ℕ → ℕ → ℕ × ℕ × List Waiter
    then_rest first n m =
        let (n', m', rest) = requeue_from address wakes requeues second n m ws in
        (n', m', first ∷ rest)

    abbrev run_loop : ℕ × ℕ × List Waiter
    run_loop = requeue_from address wakes requeues second woken requeued (w ∷ ws)

    passes : is_waiting address w ≡ false → run_loop ≡ then_rest w woken requeued
    unfolding requeue_from
    passes miss = ground arith

    wakes_one :
        is_waiting address w ≡ true
        → woken < wakes
        → run_loop ≡ then_rest (post w) (woken + 1) requeued
    unfolding requeue_from
    wakes_one hit lt = ground (arith, waiting-none wakes requeues (woken + 1) requeued ws)

    moves_one :
        is_waiting address w ≡ true
        → wakes ≤ woken
        → requeued < requeues
        → run_loop ≡ then_rest (record w { address = second }) woken (requeued + 1)
    unfolding requeue_from
    moves_one hit le lt = ground (arith, waiting-none wakes requeues woken (requeued + 1) ws)

  requeue_from_lem :
      (wakes requeues left left' woken requeued : ℕ) (ws : List Waiter)
      → wakes ≡ woken + left
      → requeues ≡ requeued + left'
      → requeue_from address wakes requeues second woken requeued ws ≡ (
        woken + min left (waiting address ws),
        requeued + min left' (waiting address ws - left),
        requeue_first left left' ws,
      )
  requeue_from_lem wakes requeues left left' woken requeued [] p q =
      unfold requeue_from in ground arith
  requeue_from_lem wakes requeues zero zero woken requeued (w ∷ ws) p q =
      ground (arith, waiting-none wakes requeues woken requeued (w ∷ ws))
  requeue_from_lem wakes requeues zero (suc left') woken requeued (w ∷ ws) p q =
      elim (Bool-cases (is_waiting address w)) [
        | inl hit ↦
            rw (moves_one wakes requeues woken requeued w ws hit (omega arith) (omega arith), hit)
              (ground (arith, requeue_from_lem wakes requeues zero left' woken (requeued + 1) ws))
        | inr miss ↦
            rw (passes wakes requeues woken requeued w ws miss, miss)
              (ground (arith, requeue_from_lem wakes requeues zero (suc left') woken requeued ws))
      ]
  requeue_from_lem wakes requeues (suc left) left' woken requeued (w ∷ ws) p q =
      elim (Bool-cases (is_waiting address w)) [
        | inl hit ↦
            rw (wakes_one wakes requeues woken requeued w ws hit (omega arith), hit)
              (ground (arith, requeue_from_lem wakes requeues left left' (woken + 1) requeued ws))
        | inr miss ↦
            rw (passes wakes requeues woken requeued w ws miss, miss)
              (ground (arith, requeue_from_lem wakes requeues (suc left) left' woken requeued ws))
      ]

-- The list after a requeue, refused or not.
pub futex_requeue_list :
    (lock : Option Errno) (address wakes requeues second expected word : ℕ) (compare : Bool)
    (ws : List Waiter)
    → let new = (futex_requeue lock address wakes requeues second compare expected word ws).1 in
      (new ≡ ws) ⊎ (new ≡ requeue_first address second wakes requeues ws)
unfolding futex_requeue
futex_requeue_list lock address wakes requeues second expected word compare ws =
    let loop =
      requeue_from_lem address second wakes requeues wakes requeues 0 0 ws (omega arith)
        (omega arith) in
    ground (arith, loop)

-- A requeue that is not refused wakes the first waiters on the address, up to the one count, moves
-- the next ones to the second address, up to the other, and leaves all other waiters as they are;
-- it returns how many it has woken and moved.
pub futex_requeue_lem :
    (address wakes requeues second expected word : ℕ) (compare : Bool) (ws : List Waiter)
    → wakes ≤ int_max
    → requeues ≤ int_max
    → second ≢ 0
    → (compare ≡ true → word ≡ expected)
    → futex_requeue none address wakes requeues second compare expected word ws ≡ (
      value (min wakes (waiting address ws) + min requeues (waiting address ws - wakes)),
      requeue_first address second wakes requeues ws,
    )
unfolding futex_requeue
futex_requeue_lem address wakes requeues second expected word compare ws p q r h =
    let loop =
      requeue_from_lem address second wakes requeues wakes requeues 0 0 ws (omega arith)
        (omega arith) in
    elim (Bool-cases compare) [
      | inl on ↦ ground (arith, h on, loop)
      | inr off ↦ ground (arith, loop)
    ]

-- No waiter is lost: a requeue between two addresses takes as many waiters off the first as it
-- reports, and the second has those more that were not woken.
pub waiting-requeue_first :
    (address second n m : ℕ) (ws : List Waiter)
    → address ≢ second
    → let new = requeue_first address second n m ws in
      (waiting address new + (min n (waiting address ws) + min m (waiting address ws - n))
        ≡ waiting address ws)
      × (waiting second new ≡ waiting second ws + min m (waiting address ws - n))
waiting-requeue_first address second n m [] h = omega arith
waiting-requeue_first address second zero zero (w ∷ ws) h = omega arith
waiting-requeue_first address second zero (suc m) (w ∷ ws) h =
    elim (Bool-cases (is_waiting address w)) [
      | inl hit ↦ rw hit (ground (arith, waiting-requeue_first address second zero m ws h))
      | inr miss ↦
          rw miss (ground (arith, miss, waiting-requeue_first address second zero (suc m) ws h))
    ]
waiting-requeue_first address second (suc n) m (w ∷ ws) h =
    elim (Bool-cases (is_waiting address w)) [
      | inl hit ↦ rw hit (ground (arith, waiting-requeue_first address second n m ws h))
      | inr miss ↦
          rw miss (ground (arith, miss, waiting-requeue_first address second (suc n) m ws h))
    ]

-- A requeue between two addresses that is not refused loses no waiter: it returns the number of
-- waiters that the first address has no more, and the second has those of them that were moved
-- and not woken.
pub futex_requeue_keeps :
    (address wakes requeues second expected word : ℕ) (compare : Bool) (ws : List Waiter)
    → wakes ≤ int_max
    → requeues ≤ int_max
    → second ≢ 0
    → (compare ≡ true → word ≡ expected)
    → address ≢ second
    → let (answer, new) =
        futex_requeue none address wakes requeues second compare expected word ws in
      (woken : ℕ) × (moved : ℕ) × (answer ≡ value (woken + moved))
      × (woken ≤ wakes)
      × (moved ≤ requeues)
      × (waiting address new + (woken + moved) ≡ waiting address ws)
      × (waiting second new ≡ waiting second ws + moved)
futex_requeue_keeps address wakes requeues second expected word compare ws small few some_second
      same distinct =
    let done =
      futex_requeue_lem address wakes requeues second expected word compare ws small few some_second
        same in
    let counts = waiting-requeue_first address second wakes requeues ws distinct in
    rw done (
      min wakes (waiting address ws),
      min requeues (waiting address ws - wakes),
      refl,
      omega arith,
      omega arith,
      counts.0,
      counts.1,
    )

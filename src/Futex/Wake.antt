-- ===== src/Futex/Wake.antt =====
-- Whom a wake wakes.
use alpine_on_qnx.Prelude.{
  ap, ℕ, zero, suc, ◌+◌, ◌≤◌, ◌≡◌, ◌≢◌, min, refl, none, List, [], ◌∷◌, if◌then◌else◌, Bool-cases,
  inl, inr, arith,
}
use native.Mathlib.Nat.{zero-add}
use alpine_on_qnx.Abi.Answer.{value}
use alpine_on_qnx.Futex.{Waiter, int_max, post, matches, wake_from, linux_futex_wake}

module _ (address bitset : ℕ) where
  -- How many waiters a wake could wake.
  abbrev pub matching : List Waiter → ℕ
  matching [] = 0
  matching (w ∷ rest) = if matches address bitset w then suc (matching rest) else matching rest

  -- The first `n` of them are woken, all other waiters stay as they are.
  abbrev pub post_first : ℕ → List Waiter → List Waiter
  post_first n [] = []
  post_first zero (w ∷ rest) = w ∷ rest
  post_first (suc n) (w ∷ rest) =
      let after_hit = post w ∷ post_first n rest in
      let after_miss = w ∷ post_first (suc n) rest in
      if matches address bitset w then after_hit else after_miss

  wake_from_full :
      (count woken : ℕ) (ws : List Waiter)
      → count ≤ woken
      → wake_from address count bitset woken ws ≡ (woken, ws)
  unfolding wake_from
  wake_from_full count woken [] h = refl
  wake_from_full count woken (w ∷ ws) h = ground arith

  wake_from_lem :
      (count left woken : ℕ) (ws : List Waiter)
      → count ≡ woken + left
      → wake_from address count bitset woken ws
        ≡ (woken + min left (matching ws), post_first left ws)
  unfolding wake_from
  wake_from_lem count left woken [] e = ground arith
  wake_from_lem count zero woken (w ∷ ws) e = ground arith
  wake_from_lem count (suc left) woken (w ∷ ws) e = elim (Bool-cases (matches address bitset w)) [
    | inl hit ↦ rw hit (ground (arith, wake_from_lem count left (woken + 1) ws))
    | inr miss ↦ rw miss (ground (arith, wake_from_lem count (suc left) woken ws))
  ]

-- A wake with a count that is an `int` and some bits wakes the first waiters of the list that wait
-- on the address with one of the bits and are not woken yet: as many as there are, up to the
-- count. It returns their number, and changes no other waiter.
pub linux_futex_wake_lem :
    (address count bitset : ℕ) (ws : List Waiter)
    → count ≤ int_max
    → bitset ≢ 0
    → linux_futex_wake none address count bitset ws
      ≡ (value (min count (matching address bitset ws)), post_first address bitset count ws)
unfolding linux_futex_wake
linux_futex_wake_lem address count bitset ws small some_bit = ground (
  arith,
  wake_from_lem address bitset count count 0 ws,
  zero-add (min count (matching address bitset ws)),
)

-- After a wake the waiters that match are fewer by the number that it returned.
matching-post_first :
    (address bitset n : ℕ) (ws : List Waiter)
    → matching address bitset (post_first address bitset n ws) + min n (matching address bitset ws)
      ≡ matching address bitset ws
matching-post_first address bitset n [] = omega arith
matching-post_first address bitset zero (w ∷ ws) = omega arith
matching-post_first address bitset (suc n) (w ∷ ws) = elim (Bool-cases (matches address bitset w)) [
  | inl hit ↦ rw hit (ground (arith, matching-post_first address bitset n ws))
  | inr miss ↦ rw miss (ground (arith, miss, matching-post_first address bitset (suc n) ws))
]

-- A wake with a count that is an `int` and some bits returns a number, and the waiters that wait on
-- the address with one of the bits and are not woken are then fewer by it.
pub linux_futex_wake_takes :
    (address count bitset : ℕ) (ws : List Waiter)
    → count ≤ int_max
    → bitset ≢ 0
    → (n : ℕ) × ((linux_futex_wake none address count bitset ws).0 ≡ value n)
      × (n ≤ count)
      × (matching address bitset (linux_futex_wake none address count bitset ws).1 + n
          ≡ matching address bitset ws)
linux_futex_wake_takes address count bitset ws small some_bits =
    let wake = linux_futex_wake_lem address count bitset ws small some_bits in
    (
      min count (matching address bitset ws),
      ap (λ r. r.0) wake,
      omega arith,
      rw wake (matching-post_first address bitset count ws),
    )

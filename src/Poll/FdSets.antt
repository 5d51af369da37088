-- ===== src/Poll/FdSets.antt =====
-- src/linux_poll.c: fdset_to_host and fdset_to_guest.
use Prim.Native.Nat.{bit_and}
use native.Mathlib.Nat.{pow-suc, one-le-pow}
use alpine_on_qnx.Prelude.{
  ℕ, zero, suc, ◌+◌, ◌*◌, ◌/◌, ◌%◌, ◌^◌, ◌<◌, ◌≡◌, refl, ap, ap₂, ◌∙◌, Bool, true, false, ◌&&◌,
  Option, none, some, ltb, if◌then◌else◌, Bool-cases, inl, inr, min, arith,
}
use alpine_on_qnx.Words.{has_flag}
use alpine_on_qnx.Bits.{bit_and_digit, bit_and_low}

-- `fd_set` of the host, and the words of the guest's.
abbrev pub FdSet : Type 0
FdSet = ℕ → Bool

abbrev pub FdWords : Type 0
FdWords = ℕ → ℕ

-- A null pointer is `none`.
unfoldable pub fdset_to_host : Option FdWords → ℕ → FdSet
fdset_to_host none count fd = false
fdset_to_host (some guest) count fd = ltb fd count && has_flag (guest (fd / 32)) (2 ^ (fd % 32))

-- The number whose lowest bits are `f i`, `f (i + 1)`, …
unfoldable pub bits_from : (ℕ → Bool) → ℕ → ℕ → ℕ
bits_from f i zero = 0
bits_from f i (suc n) = (if f i then 1 else 0) + 2 * bits_from f (suc i) n

-- Of the words that are written, those behind the last descriptor stay as they are.
unfoldable pub fdset_to_guest : FdWords → ℕ → FdSet → FdWords
unfolding bits_from
fdset_to_guest guest count host word =
    if ltb word ((count + 31) / 32)
    then bits_from (λ fd. ltb fd count && host fd) (32 * word) 32
    else guest word

halves : (b x : ℕ) → b < 2 → ((b + 2 * x) / 2 ≡ x) × ((b + 2 * x) % 2 ≡ b)
halves b x lt = (omega arith, omega arith)

digit_bound : (b : Bool) → (if b then 1 else 0) < 2
digit_bound b = ground arith

power_half : (k : ℕ) → (2 ^ suc k / 2 ≡ 2 ^ k) × (2 ^ suc k % 2 ≡ 0)
power_half k = (omega (arith, pow-suc 2 k), omega (arith, pow-suc 2 k))

abbrev bit_value : Bool → ℕ
bit_value b = if b then 1 else 0

-- The k-th bit of such a number.
bit_of_bits :
    (f : ℕ → Bool) (i n k : ℕ)
    → k < n
    → bit_and (bits_from f i n) (2 ^ k) ≡ bit_value (f (i + k)) * 2 ^ k
unfolding bits_from
bit_of_bits f i zero k lt = absurd (omega arith)
bit_of_bits f i (suc n) zero lt =
    let here : i + 0 ≡ i = omega arith in
    let digit = ap (λ j. bit_value (f j)) here in
    let b = bit_value (f i) in
    let x = bits_from f (suc i) n in
    let (half, low) = halves b x (digit_bound (f i)) in
    omega (arith, digit, bit_and_low 1 (b + 2 * x) x b (omega arith) (digit_bound (f i)))
bit_of_bits f i (suc n) (suc k) lt =
    let there : i + suc k ≡ suc i + k = omega arith in
    let digit = ap (λ j. bit_value (f j) * 2 ^ suc k) there in
    let b = bit_value (f i) in
    let x = bits_from f (suc i) n in
    let c = bit_value (f (suc i + k)) in
    let (half, low) = halves b x (digit_bound (f i)) in
    let (half', low') = power_half k in
    let ih = bit_of_bits f (suc i) n k (omega arith) in
    let step : bit_and (b + 2 * x) (2 ^ suc k) ≡ bit_and x (2 ^ k) * 2 + min b 0 =
      bit_and_digit (b + 2 * x) (2 ^ suc k)
      ∙ ap₂ (λ p q. p * 2 + q) (ap₂ bit_and half half') (ap₂ min low low') in
    omega (arith, step, ih, digit, ap (λ (t : ℕ). c * t) (pow-suc 2 k))

flag_of_bits : (f : ℕ → Bool) (i n k : ℕ) → k < n → has_flag (bits_from f i n) (2 ^ k) ≡ f (i + k)
flag_of_bits f i n k lt =
    let e = bit_of_bits f i n k lt in
    let positive = one-le-pow k 2 in
    elim (Bool-cases (f (i + k))) [
      | inl yes_bit ↦ ground (arith, e, yes_bit, positive)
      | inr no_bit ↦ ground (arith, e, no_bit)
    ]

-- What the guest reads of the words that are written for it, at each descriptor that it asked about,
-- is what the host's set says.
pub fdset_to_guest_lem :
    (guest : FdWords) (count : ℕ) (host : FdSet) (fd : ℕ)
    → fd < count
    → fdset_to_host (some (fdset_to_guest guest count host)) count fd ≡ host fd
unfolding fdset_to_host fdset_to_guest
fdset_to_guest_lem guest count host fd lt =
    let inside : ltb (fd / 32) ((count + 31) / 32) ≡ true = ground arith in
    let asked : ltb fd count ≡ true = ground arith in
    let place : 32 * (fd / 32) + fd % 32 ≡ fd = omega arith in
    let flag =
      flag_of_bits (λ j. ltb j count && host j) (32 * (fd / 32)) 32 (fd % 32) (omega arith) in
    rw (asked, inside) (flag ∙ ap (λ j. ltb j count && host j) place ∙ rw asked refl)

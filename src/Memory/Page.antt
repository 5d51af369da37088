-- ===== src/Memory/Page.antt =====
-- src/guest_memory.c, guest_memory_initialize: the page sizes that are accepted.
use Prim.Native.Nat.{bit_and}
use native.Mathlib.Nat.{pow-suc, zero-add, suc-add}
use alpine_on_qnx.Prelude.{
  ℕ, zero, suc, ◌+◌, ◌-◌, ◌/◌, ◌%◌, ◌^◌, ◌≤◌, ◌<◌, ◌≡◌, inl, inr, ap, Option, none, some, ◌==◌,
  ◌||◌, not, ltb, if◌then◌else◌, Bool-cases, arith,
}
use alpine_on_qnx.Bits.{bit_and_digit}
use alpine_on_qnx.Words.{IsPage, pred32}

-- `none` is the error EINVAL; `some` is the new `page_size`. A negative `long` is given as 0.
unfoldable pub guest_memory_initialize : ℕ → Option ℕ
guest_memory_initialize host_page_size =
    if (host_page_size == 0) || not (bit_and host_page_size (pred32 host_page_size) == 0)
    then none
    else some host_page_size

bit_and_self : (n a : ℕ) → a ≤ n → bit_and a a ≡ a
bit_and_self n zero h = omega (arith, bit_and_digit 0 0)
bit_and_self zero (suc a) h = absurd (omega arith)
bit_and_self (suc n) (suc a) h =
    omega (arith, bit_and_digit (suc a) (suc a), bit_and_self n (suc a / 2) (omega arith))

-- A positive number that has no bit in common with its predecessor is a power of two.
power_of_two : (n p : ℕ) → p ≤ n → 0 < p → bit_and p (p - 1) ≡ 0 → (k : ℕ) × (p ≡ 2 ^ k)
power_of_two zero p h pos e = absurd (omega arith)
power_of_two (suc n) p h pos e = elim (Bool-cases (p % 2 == 0)) [
  | inl even ↦
      let half : (p - 1) / 2 ≡ p / 2 - 1 = ground arith in
      let (k, q) =
        power_of_two n (p / 2) (ground arith) (ground arith)
          (ground (arith, bit_and_digit p (p - 1), ap (λ (t : ℕ). bit_and (p / 2) t) half)) in
      (suc k, ground (arith, pow-suc 2 k))
  | inr odd ↦
      let half : (p - 1) / 2 ≡ p / 2 = ground arith in
      (
        0,
        ground (
          arith,
          bit_and_digit p (p - 1),
          ap (λ (t : ℕ). bit_and (p / 2) t) half,
          bit_and_self p (p / 2),
        ),
      )
]

pow_mono : (k d : ℕ) → 2 ^ k ≤ 2 ^ (d + k)
pow_mono k zero = omega (arith, ap (λ (t : ℕ). 2 ^ t) (zero-add k))
pow_mono k (suc d) =
    omega (arith, ap (λ (t : ℕ). 2 ^ t) (suc-add d k), pow-suc 2 (d + k), pow_mono k d)

small_power : (k : ℕ) → 2 ^ k < 2 ^ 31 → (j : ℕ) × (j + k ≡ 32) × (0 < j)
small_power k h = elim (Bool-cases (ltb k 32)) [
  | inl lt ↦ (32 - k, ground arith, ground arith)
  | inr ge ↦
      let split : k - 31 + 31 ≡ k = ground arith in
      absurd (omega (arith, pow_mono 31 (k - 31), ap (λ (t : ℕ). 2 ^ t) split))
]

-- A page size below 2 ^ 31 that is accepted is the one given, and a power of two that leaves a bit
-- of the word.
pub guest_memory_initialize-IsPage :
    (p : ℕ) {q : ℕ} → p < 2 ^ 31 → guest_memory_initialize p ≡ some q → (q ≡ p) × IsPage q
unfolding guest_memory_initialize
guest_memory_initialize-IsPage p {q} h e =
    let (k, power) = power_of_two p p (omega arith) (ground arith) (ground arith) in
    let (j, whole, above) = small_power k (omega arith) in
    let same : q ≡ p = ground arith in
    (
      same,
      record {
        low_bits = k;
        high_bits = j;
        is_power = omega arith;
        in_word = whole;
        above_one = above;
      },
    )

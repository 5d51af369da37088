-- ===== src/Bits.antt =====
-- Masks on machine words as arithmetic: what `&` with `~(2^k - 1)` and with `2^k - 1` computes.
use Prim.Native.Nat.{bit_and, bit_and-bitwise, digits}
use native.Mathlib.Nat.{pow-suc, one-le-pow}
use alpine_on_qnx.Prelude.{
  ℕ, zero, suc, ◌+◌, ◌-◌, ◌*◌, ◌/◌, ◌%◌, ◌^◌, ◌≤◌, ◌<◌, min, ◌≡◌, refl, ap, arith,
}

-- The digit recursion that `bit_and` stands for, at a given fuel.
abbrev and_with : ℕ → ℕ → ℕ → ℕ
and_with fuel a b = digits (λ b. zero) min fuel a b

-- Fuel beyond the number changes nothing.
and_with_enough : (f g a b : ℕ) → a ≤ f → a ≤ g → and_with f a b ≡ and_with g a b
and_with_enough zero zero a b hf hg = refl
and_with_enough zero (suc g) zero b hf hg = refl
and_with_enough zero (suc g) (suc a) b hf hg = absurd (omega arith)
and_with_enough (suc f) zero zero b hf hg = refl
and_with_enough (suc f) zero (suc a) b hf hg = absurd (omega arith)
and_with_enough (suc f) (suc g) zero b hf hg = refl
and_with_enough (suc f) (suc g) (suc a) b hf hg =
    omega (arith, and_with_enough f g (suc a / 2) (b / 2) (omega arith) (omega arith))

pub zero-bit_and : (b : ℕ) → bit_and 0 b ≡ 0
zero-bit_and b = bit_and-bitwise 0 b

-- One binary digit of `a & b`.
pub bit_and_digit : (a b : ℕ) → bit_and a b ≡ bit_and (a / 2) (b / 2) * 2 + min (a % 2) (b % 2)
bit_and_digit zero b = omega (arith, zero-bit_and b, zero-bit_and (b / 2))
bit_and_digit (suc a) b = omega (
  arith,
  bit_and-bitwise (suc a) b,
  bit_and-bitwise (suc a / 2) (b / 2),
  and_with_enough a (suc a / 2) (suc a / 2) (b / 2) (omega arith) (omega arith),
)

bit_and-zero_below : (n a : ℕ) → a ≤ n → bit_and a 0 ≡ 0
bit_and-zero_below n zero h = refl
bit_and-zero_below zero (suc a) h = absurd (omega arith)
bit_and-zero_below (suc n) (suc a) h =
    omega (arith, bit_and_digit (suc a) 0, bit_and-zero_below n (suc a / 2) (omega arith))

low_mask_half : (k : ℕ) → (2 ^ suc k - 1) / 2 ≡ 2 ^ k - 1
low_mask_half k = omega (arith, pow-suc 2 k, one-le-pow k 2)

-- A low mask leaves the remainder: `a & (2^k - 1)` is `a % 2^k`.
pub bit_and_low : (k a q r : ℕ) → a ≡ q * 2 ^ k + r → r < 2 ^ k → bit_and a (2 ^ k - 1) ≡ r
bit_and_low zero a q r e h = omega (arith, bit_and-zero_below a a (omega arith))
bit_and_low (suc k) a q r e h = omega (
  arith,
  bit_and_digit a (2 ^ suc k - 1),
  pow-suc 2 k,
  one-le-pow k 2,
  ap (λ (t : ℕ). q * t) (pow-suc 2 k),
  ap (λ (t : ℕ). bit_and (a / 2) t) (low_mask_half k),
  bit_and_low k (a / 2) q (r / 2) (omega (arith, ap (λ (t : ℕ). q * t) (pow-suc 2 k)))
      (omega (arith, pow-suc 2 k)),
)

high_mask_half : (c k : ℕ) → c * 2 ^ suc k / 2 ≡ c * 2 ^ k
high_mask_half c k = omega (arith, ap (λ (t : ℕ). c * t) (pow-suc 2 k))

-- A high mask clears the low digits: `(q * 2^k + r) & (c * 2^k)` is `(q & c) * 2^k`.
pub bit_and_high :
    (k a q r c : ℕ) → a ≡ q * 2 ^ k + r → r < 2 ^ k → bit_and a (c * 2 ^ k) ≡ bit_and q c * 2 ^ k
bit_and_high zero a q r c e h =
    let e' : a ≡ q = omega arith in
    let c' : c * 2 ^ 0 ≡ c = omega arith in
    omega (arith, ap (λ (t : ℕ). bit_and t (c * 2 ^ 0)) e', ap (λ (t : ℕ). bit_and q t) c')
bit_and_high (suc k) a q r c e h = omega (
  arith,
  bit_and_digit a (c * 2 ^ suc k),
  pow-suc 2 k,
  ap (λ (t : ℕ). q * t) (pow-suc 2 k),
  ap (λ (t : ℕ). c * t) (pow-suc 2 k),
  ap (λ (t : ℕ). bit_and q c * t) (pow-suc 2 k),
  ap (λ (t : ℕ). bit_and (a / 2) t) (high_mask_half c k),
  bit_and_high k (a / 2) q (r / 2) c (omega (arith, ap (λ (t : ℕ). q * t) (pow-suc 2 k)))
      (omega (arith, pow-suc 2 k)),
)

-- ===== src/Words.antt =====
-- src/util.c and the widths of src/linuxemu.h: the 32-bit words and pages of the ARM guest.
-- `uintptr_t`, `size_t` and `uint32_t` are numbers below 2 ^ 32; an operation that can wrap is
-- written with `u32`.
use Prim.Native.Nat.{bit_and}
use native.Mathlib.Nat.{one-le-pow, pow-suc, div-add-mod, mod-lt}
use native.Mathlib.Decide.{dec_le}
use alpine_on_qnx.Prelude.{
  ℕ, zero, suc, ◌+◌, ◌-◌, ◌*◌, ◌/◌, ◌%◌, ◌^◌, ◌≤◌, ◌<◌, ◌≡◌, sym, arith, ap, ◌∙◌, Bool, not, ◌==◌,
}
use alpine_on_qnx.Bits.{bit_and_low, bit_and_high}

abbrev pub u32 : ℕ → ℕ
u32 n = n % 2 ^ 32

-- UINTPTR_MAX
abbrev pub uintptr_max : ℕ
uintptr_max = 4294967295

-- `~n` at 32 bits
abbrev pub not32 : ℕ → ℕ
not32 n = uintptr_max - n

-- `n - 1u`, which wraps at 0
abbrev pub pred32 : ℕ → ℕ
pred32 n = u32 (n + uintptr_max)

-- `a - b`, which wraps at 0, for a word `b`
abbrev pub sub32 : ℕ → ℕ → ℕ
sub32 a b = u32 (a + 2 ^ 32 - b)

-- `(flags & flag) != 0`
abbrev pub has_flag : ℕ → ℕ → Bool
has_flag flags flag = not (bit_and flags flag == 0)

unfoldable pub align_down : ℕ → ℕ → ℕ
align_down value alignment = bit_and value (not32 (pred32 alignment))

unfoldable pub align_up : ℕ → ℕ → ℕ
align_up value alignment = bit_and (pred32 (u32 (value + alignment))) (not32 (pred32 alignment))

-- A page size that `guest_memory_initialize` can accept: 2 ^ k, with the other j bits of a word.
pub record IsPage (p : ℕ) : Type 0 where
  pub low_bits : ℕ
  pub high_bits : ℕ
  pub is_power : p ≡ 2 ^ low_bits
  pub in_word : high_bits + low_bits ≡ 32
  pub above_one : 0 < high_bits

pow-add : (j k : ℕ) → 2 ^ (j + k) ≡ 2 ^ j * 2 ^ k
pow-add zero k = let e : zero + k ≡ k = omega arith in omega (arith, ap (λ (t : ℕ). 2 ^ t) e)
pow-add (suc j) k =
    let e : suc j + k ≡ suc (j + k) = omega arith in
    omega (
      arith,
      ap (λ (t : ℕ). 2 ^ t) e,
      pow-suc 2 (j + k),
      pow-suc 2 j,
      pow-add j k,
      ap (λ (t : ℕ). t * 2 ^ k) (pow-suc 2 j),
    )

mul_mono : (p a b : ℕ) → a ≤ b → p * a ≤ p * b
mul_mono p a b h = grind arith

pred_mul : (a b p : ℕ) → a ≡ b + 1 → (a - 1) * p + p ≡ a * p
pred_mul a b p e =
    let less : a - 1 ≡ b = omega arith in
    omega (arith, ap (λ (t : ℕ). t * p) e, ap (λ (t : ℕ). t * p) less)

module _ {p : ℕ} (page : IsPage p) where
  open page use {low_bits as k, high_bits as j}

  word_size : 2 ^ 32 ≡ 2 ^ j * p
  word_size =
      ap (λ (t : ℕ). 2 ^ t) (sym page.in_word)
      ∙ pow-add j k
      ∙ ap (λ (t : ℕ). 2 ^ j * t) (sym page.is_power)

  two_le : 2 ≤ 2 ^ j
  two_le = half_pos j page.above_one
    where
      half_pos : (n : ℕ) → 0 < n → 2 ≤ 2 ^ n
      half_pos zero h = absurd (omega arith)
      half_pos (suc n) h = omega (arith, pow-suc 2 n, one-le-pow n 2)

  pub page_bounds : (0 < p) × (p * 2 ≤ 2 ^ 32)
  page_bounds = (
    omega (arith, one-le-pow k 2, page.is_power),
    omega (arith, word_size, mul_mono p 2 (2 ^ j) two_le),
  )

  -- `~(p - 1)` is a run of ones above the page's bits.
  high_mask : not32 (pred32 p) ≡ (2 ^ j - 1) * p
  high_mask = omega (
    arith,
    word_size,
    page_bounds,
    two_le,
    pred_mul (2 ^ j) (2 ^ j - 1) p (omega (arith, two_le)),
  )

  mask_lem : (v : ℕ) → v < 2 ^ 32 → bit_and v (not32 (pred32 p)) ≡ v - v % p
  mask_lem v h =
      ap (bit_and v) (high_mask ∙ ap (λ (t : ℕ). (2 ^ j - 1) * t) page.is_power)
      ∙ bit_and_high k v (v / p) (v % p) (2 ^ j - 1)
          (omega (arith, div-add-mod v p, ap (λ (t : ℕ). v / p * t) page.is_power))
          (omega (arith, mod-lt v page_bounds.0, page.is_power))
      ∙ ap (λ (t : ℕ). t * 2 ^ k) (bit_and_low j (v / p) 0 (v / p) (omega arith) quotient)
      ∙ omega (arith, div-add-mod v p, ap (λ (t : ℕ). v / p * t) page.is_power)
    where
      quotient : v / p < 2 ^ j
      quotient = elim (dec_le (2 ^ j) (v / p)) [
        | yes q ↦ absurd (omega (arith, div-add-mod v p, word_size, mul_mono p (2 ^ j) (v / p) q))
        | no q ↦ omega arith
      ]

  pub align_down_lem : (v : ℕ) → v < 2 ^ 32 → align_down v p ≡ v - v % p
  unfolding align_down
  align_down_lem v h = mask_lem v h

  pub align_up_lem : (v : ℕ) → v + p ≤ 2 ^ 32 → align_up v p ≡ (v + p - 1) - (v + p - 1) % p
  unfolding align_up
  align_up_lem v h =
      let e : pred32 (u32 (v + p)) ≡ v + p - 1 = omega (arith, page_bounds) in
      ap (λ (t : ℕ). bit_and t (not32 (pred32 p))) e
      ∙ mask_lem (v + p - 1) (omega (arith, page_bounds))

  pub floor_mono : (x y : ℕ) → x ≤ y → x - x % p ≤ y - y % p
  floor_mono x y h = elim (dec_le (x / p) (y / p)) [
    | yes q ↦ omega (arith, div-add-mod x p, div-add-mod y p, mul_mono p (x / p) (y / p) q)
    | no q ↦ absurd (
        omega (
          arith,
          div-add-mod x p,
          div-add-mod y p,
          mul_mono p (y / p + 1) (x / p) (omega arith),
          mod-lt y page_bounds.0,
        ))
  ]

-- ===== src/Poll/Timeout.antt =====
-- src/linux_poll.c: timespec_timeout.
use alpine_on_qnx.Prelude.{
  ℕ, ◌+◌, ◌-◌, ◌*◌, ◌/◌, ◌^◌, ◌≤◌, ◌<◌, ◌≡◌, ◌↔◌, ◌⊎◌, subst, refl, inl, inr, Bool, ◌||◌, Option,
  none, some, ltb, leb, if◌then◌else◌, Bool-cases, arith,
}
use alpine_on_qnx.Futex.Deadline.{Timespec, in_nanoseconds, nanoseconds_per_second}

-- A timeout of `poll`: -1, or milliseconds, the bits of an `int`.
pub data Milliseconds : Type 0 where
  forever : Milliseconds
  milliseconds : ℕ → Milliseconds

-- A signed field of 64 or of 32 bits that is negative, given by its bits.
abbrev pub is_negative : Bool → ℕ → Bool
is_negative time64 field = if time64 then leb (2 ^ 63) field else leb (2 ^ 31) field

-- INT_MAX and LONG_MAX of the host
abbrev pub int_max : ℕ
int_max = 2147483647

abbrev pub to_milliseconds : Timespec → ℕ
to_milliseconds t =
    if ltb ((int_max - 1) / 1000) t.seconds
    then int_max
    else t.seconds * 1000 + (t.nanoseconds + 999999) / 1000000

-- The outer `none` is -EINVAL; a null pointer is `none`.
unfoldable pub timespec_timeout : Bool → Option Timespec → Option Milliseconds
timespec_timeout time64 none = some forever
timespec_timeout time64 (some t) =
    if is_negative time64 t.seconds
      || is_negative time64 t.nanoseconds
      || leb nanoseconds_per_second t.nanoseconds
    then none
    else some (milliseconds (to_milliseconds t))

milliseconds-injective : {a b : ℕ} → some (milliseconds a) ≡ some (milliseconds b) → a ≡ b
milliseconds-injective e = cc

rounded_up :
    (t : Timespec)
    → t.nanoseconds < nanoseconds_per_second
    → let n = to_milliseconds t in
      (((n ≡ int_max) × (2147483 < t.seconds))
        ⊎ ((in_nanoseconds t ≤ n * 1000000) × (n * 1000000 < in_nanoseconds t + 1000000)))
      × ((int_max < n) ↔ ((t.seconds ≡ 2147483) × (647000000 < t.nanoseconds)))
rounded_up t proper = elim (Bool-cases (ltb ((int_max - 1) / 1000) t.seconds)) [
  | inl far ↦
      let beyond : 2147483 < t.seconds = ground arith in
      rw far (inl (refl, beyond), ((λ lt. absurd (omega (arith, lt))), (λ p. absurd (omega arith))))
  | inr near ↦
      let within : t.seconds ≤ 2147483 = ground arith in
      rw near (
        inr (omega arith, omega arith),
        ((λ lt. (omega (arith, lt), omega (arith, lt))), (λ p. omega arith)),
      )
]

-- A timeout that is accepted is the time that was asked for, rounded up to a millisecond, or, beyond
-- 2147483 seconds, the greatest `int`. It is negative as an `int` exactly in the last 353
-- milliseconds of the second 2147483.
pub timespec_timeout_lem :
    (time64 : Bool) (t : Timespec) (n : ℕ)
    → timespec_timeout time64 (some t) ≡ some (milliseconds n)
    → (((n ≡ int_max) × (2147483 < t.seconds))
        ⊎ ((in_nanoseconds t ≤ n * 1000000) × (n * 1000000 < in_nanoseconds t + 1000000)))
      × ((int_max < n) ↔ ((t.seconds ≡ 2147483) × (647000000 < t.nanoseconds)))
unfolding timespec_timeout
timespec_timeout_lem time64 t n h =
    elim (Bool-cases (
      is_negative time64 t.seconds
      || is_negative time64 t.nanoseconds
      || leb nanoseconds_per_second t.nanoseconds)) [
        | inl bad ↦ absurd (cc (rw bad at h))
        | inr good ↦
            let proper : t.nanoseconds < nanoseconds_per_second = ground arith in
            subst
              (λ (k : ℕ).
                (((k ≡ int_max) × (2147483 < t.seconds))
                  ⊎ ((in_nanoseconds t ≤ k * 1000000) × (k * 1000000 < in_nanoseconds t + 1000000)))
                × ((int_max < k) ↔ ((t.seconds ≡ 2147483) × (647000000 < t.nanoseconds))))
              (milliseconds-injective (rw good at h)) (rounded_up t proper)
      ]

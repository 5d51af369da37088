-- ===== src/Thread/Tid.antt =====
-- src/guest_thread.c: the numbers of guest threads, which leave the top two bits of a word free.
use Prim.Native.Nat.{bit_and}
use alpine_on_qnx.Prelude.{
  ℕ, zero, suc, ◌+◌, ◌/◌, ◌%◌, ◌^◌, ◌<◌, ◌≡◌, refl, false, Option, none, some, ◌==◌, if◌then◌else◌,
  Bool-cases, inl, inr, arith,
}
use alpine_on_qnx.Bits.{bit_and_low}
use alpine_on_qnx.Words.{u32}

abbrev pub tid_mask : ℕ
tid_mask = 0x3fffffff

pub initial_guest_tid : ℕ → ℕ
initial_guest_tid pid = let tid = bit_and pid tid_mask in if tid == 0 then 1 else tid

-- The loop of `allocate_guest_tid`, on the rounds left: the number, and the new `next_tid`.
unfoldable pub allocate_guest_tid : ℕ → ℕ → Option (ℕ × ℕ)
allocate_guest_tid zero next_tid = none
allocate_guest_tid (suc rounds) next_tid =
    let tid = bit_and next_tid tid_mask in
    let again = allocate_guest_tid rounds (u32 (next_tid + 1)) in
    if tid == 0 then again else some (tid, u32 (next_tid + 1))

pub low_bits : (n : ℕ) → bit_and n tid_mask ≡ n % 1073741824
low_bits n = bit_and_low 30 n (n / 1073741824) (n % 1073741824) (omega arith) (omega arith)

unfoldable pub IsTid : ℕ → Type 0
IsTid tid = (0 < tid) × (tid < 2 ^ 30)

-- The number of the first thread of a process fits, whatever its process number is.
pub initial_guest_tid-IsTid : (pid : ℕ) → IsTid (initial_guest_tid pid)
unfolding initial_guest_tid IsTid
initial_guest_tid-IsTid pid = ground (arith, low_bits pid)

-- Whatever `next_tid` has come to, the second round of the loop ends it at the latest, with a number
-- that is not 0 and has 30 bits.
pub allocate_guest_tid_total :
    (next_tid : ℕ)
    → next_tid < 2 ^ 32
    → (tid : ℕ) × (next : ℕ) × (allocate_guest_tid 2 next_tid ≡ some (tid, next))
      × IsTid tid
      × (next < 2 ^ 32)
unfolding allocate_guest_tid IsTid
allocate_guest_tid_total next_tid h = elim (Bool-cases (bit_and next_tid tid_mask == 0)) [
  | inr e ↦ (
    bit_and next_tid tid_mask,
    u32 (next_tid + 1),
    rw e refl,
    ground (arith, low_bits next_tid),
    omega arith,
  )
  | inl e ↦
      let n = u32 (next_tid + 1) in
      let zero_low : next_tid % 1073741824 ≡ 0 = ground (arith, low_bits next_tid) in
      let one_low : n % 1073741824 ≡ 1 = omega arith in
      let f : (bit_and n tid_mask == 0) ≡ false = ground (arith, low_bits n) in
      (bit_and n tid_mask, u32 (n + 1), rw (e, f) refl, omega (arith, low_bits n), omega arith)
]

-- Before the numbers wrap around, the next one is `next_tid` itself.
pub allocate_guest_tid_small :
    (next_tid : ℕ)
    → 0 < next_tid
    → next_tid < 2 ^ 30
    → allocate_guest_tid 2 next_tid ≡ some (next_tid, next_tid + 1)
unfolding allocate_guest_tid
allocate_guest_tid_small next_tid pos h =
    let same : bit_and next_tid tid_mask ≡ next_tid = omega (arith, low_bits next_tid) in
    let next : u32 (next_tid + 1) ≡ next_tid + 1 = omega arith in
    let e : (next_tid == 0) ≡ false = ground arith in rw (same, next, e) refl

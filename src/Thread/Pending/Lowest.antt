-- ===== src/Thread/Pending/Lowest.antt =====
-- src/guest_thread.c: the signal that is taken is the first one that waits and is not masked.
use alpine_on_qnx.Prelude.{
  ℕ, zero, suc, ◌+◌, ◌≤◌, ◌<◌, ◌≡◌, ◌≢◌, ◌⊎◌, inl, inr, refl, Bool, true, false, Option, none, some,
  leb, ◌==◌, if◌then◌else◌, Bool-cases, arith,
}
use alpine_on_qnx.Thread.{SignalSet, SignalInfo, ThreadState}
use alpine_on_qnx.Thread.Pending.{
  first_realtime_signal, last_realtime_signal, lowest, candidates, queued, take_standard,
  take_realtime, take_from,
}

-- No signal from `n` on and before `m` is in the set.
abbrev pub Skipped : ℕ → ℕ → SignalSet → Type 0
Skipped n m set = (k : ℕ) → n ≤ k → k < m → set k ≡ false

pub record IsLowest (n count m : ℕ) (set : SignalSet) : Type 0 where
  pub from : n ≤ m
  pub below : m < n + count
  pub member : set m ≡ true
  pub first : Skipped n m set

skip_one : (n m : ℕ) (set : SignalSet) → set n ≡ false → Skipped (n + 1) m set → Skipped n m set
skip_one n m set e h k le lt = elim (Bool-cases (k == n)) [
  | inl same ↦ let at : k ≡ n = ground arith in rw at e
  | inr other ↦ h k (ground arith) lt
]

pub lowest_lem :
    (count n : ℕ) (set : SignalSet)
    → ((lowest count n set ≡ none) × Skipped n (n + count) set)
      ⊎ ((m : ℕ) × (lowest count n set ≡ some m) × IsLowest n count m set)
unfolding lowest
lowest_lem zero n set = inl (refl, λ k le lt. absurd (omega arith))
lowest_lem (suc count) n set = elim (Bool-cases (set n)) [
  | inl e ↦ inr (
    n,
    rw e refl,
    record {
      from = omega arith;
      below = omega arith;
      member = e;
      first = λ k le lt. absurd (omega arith);
    },
  )
  | inr e ↦ elim (lowest_lem count (n + 1) set) [
    | inl (no_more, skipped) ↦
        inl (rw e no_more, skip_one n (n + suc count) set e (λ k le lt. skipped k le (omega arith)))
    | inr (m, found, low) ↦ inr (
      m,
      rw e found,
      record {
        from = omega (arith, low.from);
        below = omega (arith, low.below);
        member = low.member;
        first = skip_one n m set e low.first;
      },
    )
  ]
]

-- A signal that can be delivered: it waits, in its bit or in its queue, and is not masked.
abbrev pub deliverable : ThreadState → ℕ → Bool
deliverable t n = if leb first_realtime_signal n then queued t n else candidates t n

-- How a call of `guest_thread_take_pending` can end, for a thread whose signals are numbered up to 47.
pub record Took (t : ThreadState) (signal : ℕ) (information : SignalInfo) (left : ThreadState)
    : Type 0 where
  pub positive : 1 ≤ signal
  pub numbered : signal ≤ last_realtime_signal
  pub waits : deliverable t signal ≡ true
  pub lower : Skipped 1 signal (deliverable t)
  pub taken :
      ((signal < first_realtime_signal)
        × (information ≡ (take_standard signal t).0)
        × (left ≡ (take_standard signal t).1))
      ⊎ ((first_realtime_signal ≤ signal)
          × (information ≡ (take_realtime signal t).0)
          × (left ≡ (take_realtime signal t).1))

abbrev pub Taking : ThreadState → Option (ℕ × SignalInfo) × ThreadState → Type 0
Taking t r =
    ((r ≡ (none, t)) × Skipped 1 48 (deliverable t))
    ⊎ ((signal : ℕ) × (information : SignalInfo) × (left : ThreadState) × (r
          ≡ (some (signal, information), left))
        × Took t signal information left)

candidates-Skipped :
    (t : ThreadState) (m : ℕ) → m ≤ 32 → Skipped 1 m (candidates t) → Skipped 1 m (deliverable t)
candidates-Skipped t m top h k le lt =
    let small : leb first_realtime_signal k ≡ false = ground arith in rw small (h k le lt)

deliverable-Skipped :
    (t : ThreadState) (m : ℕ)
    → Skipped 1 32 (candidates t)
    → Skipped 32 m (queued t)
    → Skipped 1 m (deliverable t)
deliverable-Skipped t m h h' k le lt = elim (Bool-cases (leb first_realtime_signal k)) [
  | inl large ↦ rw large (h' k (ground arith) lt)
  | inr small ↦ rw small (h k le (ground arith))
]

standard_Took :
    (t : ThreadState) (m : ℕ)
    → t.pending_signals first_realtime_signal ≡ false
    → IsLowest 1 32 m (candidates t)
    → Took t m (take_standard m t).0 (take_standard m t).1
standard_Took t m h low =
    let last : candidates t 32 ≡ false = rw h refl in
    let other : m ≢ 32 = λ e. absurd (cc (rw e at (low.member), last)) in
    let top : m < 32 = omega (arith, low.below) in
    let small : leb first_realtime_signal m ≡ false = ground arith in
    record {
      positive = low.from;
      numbered = omega arith;
      waits = rw small low.member;
      lower = candidates-Skipped t m (omega arith) low.first;
      taken = inl (top, refl, refl);
    }

realtime_Took :
    (t : ThreadState) (m : ℕ)
    → Skipped 1 32 (candidates t)
    → IsLowest 32 16 m (queued t)
    → Took t m (take_realtime m t).0 (take_realtime m t).1
realtime_Took t m h low =
    let large : leb first_realtime_signal m ≡ true = ground (arith, low.from) in
    record {
      positive = omega (arith, low.from);
      numbered = omega (arith, low.below);
      waits = rw large low.member;
      lower = deliverable-Skipped t m h low.first;
      taken = inr (low.from, refl, refl);
    }

-- `guest_thread_take_pending`, for a thread that has not marked signal 32 as pending: either no signal
-- can be delivered, and the thread stays as it is, or the one with the lowest number is taken,
-- with its information, from its bit or from the front of its queue.
pub take_from_lem :
    (t : ThreadState) → t.pending_signals first_realtime_signal ≡ false → Taking t (take_from t)
unfolding take_from
take_from_lem t h = elim (lowest_lem 32 1 (candidates t)) [
  | inr (m, found, low) ↦
      rw (found, take_from)
        (inr (m, (take_standard m t).0, (take_standard m t).1, refl, standard_Took t m h low))
  | inl (none_low, skipped) ↦
      let low_skipped : Skipped 1 32 (candidates t) = λ k le lt. skipped k le (omega arith) in
      elim (lowest_lem 16 32 (queued t)) [
        | inr (m, found, low) ↦
            rw (none_low, found, take_from)
              (inr (
                m,
                (take_realtime m t).0,
                (take_realtime m t).1,
                refl,
                realtime_Took t m low_skipped low,
              ))
        | inl (none_high, skipped') ↦
            rw (none_low, none_high, take_from)
              (inl (refl, deliverable-Skipped t 48 low_skipped skipped'))
      ]
]

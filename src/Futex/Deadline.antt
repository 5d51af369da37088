-- ===== src/Futex/Deadline.antt =====
-- src/linux_futex.c: the guest's timeouts as deadlines of the host's real-time clock.
use alpine_on_qnx.Prelude.{
  ℕ, ◌+◌, ◌-◌, ◌*◌, ◌^◌, ◌≤◌, ◌<◌, ◌≡◌, ◌⊎◌, refl, inl, inr, Bool, false, ◌&&◌, ◌||◌, Option, none,
  some, ltb, leb, ◌==◌, if◌then◌else◌, Bool-cases, arith,
}

abbrev pub nanoseconds_per_second : ℕ
nanoseconds_per_second = 1000000000

-- Two words of the guest, or `struct timespec`. The words of the guest are `int32_t`s, given by
-- their bits: one that is negative is at least 2 ^ 31.
pub record Timespec : Type 0 where
  pub seconds : ℕ
  pub nanoseconds : ℕ

-- The host's clocks: what `clock_gettime` gives, or none where it fails. Host times are not
-- negative, and far enough below the end of `time_t`.
pub record Clocks : Type 0 where
  pub realtime : Option Timespec
  pub monotonic : Option Timespec

unfoldable pub load_linux_timespec : Timespec → Option Timespec
load_linux_timespec t =
    if leb (2 ^ 31) t.seconds
      || leb (2 ^ 31) t.nanoseconds
      || leb nanoseconds_per_second t.nanoseconds
    then none
    else some t

abbrev pub carry : ℕ → ℕ → Timespec
carry seconds nanoseconds =
    if leb nanoseconds_per_second nanoseconds
    then record { seconds = seconds + 1; nanoseconds = nanoseconds - nanoseconds_per_second }
    else record { seconds = seconds; nanoseconds = nanoseconds }

abbrev after : Timespec → Timespec → Timespec
after relative now = carry (now.seconds + relative.seconds) (now.nanoseconds + relative.nanoseconds)

unfoldable pub relative_deadline : Timespec → Clocks → Option Timespec
unfolding load_linux_timespec
relative_deadline guest clocks = elim (load_linux_timespec guest) [
  | none ↦ none
  | some relative ↦ elim clocks.realtime [ none ↦ none | some now ↦ some (after relative now) ]
]

-- The time from `monotonic_now` to `guest`, put after `realtime_now`; a past one ends at once.
abbrev shifted : Timespec → Timespec → Timespec → Timespec
shifted guest monotonic_now realtime_now =
    let borrow = ltb guest.nanoseconds monotonic_now.nanoseconds in
    let seconds = guest.seconds - monotonic_now.seconds - (if borrow then 1 else 0) in
    let nanoseconds =
      if borrow
      then guest.nanoseconds + nanoseconds_per_second - monotonic_now.nanoseconds
      else guest.nanoseconds - monotonic_now.nanoseconds in
    if ltb guest.seconds monotonic_now.seconds
      || guest.seconds == monotonic_now.seconds && leb guest.nanoseconds monotonic_now.nanoseconds
    then realtime_now
    else carry (realtime_now.seconds + seconds) (realtime_now.nanoseconds + nanoseconds)

unfoldable pub absolute_deadline : Timespec → Bool → Clocks → Option Timespec
unfolding load_linux_timespec
absolute_deadline guest realtime clocks = elim (load_linux_timespec guest) [
  | none ↦ none
  | some t ↦ if realtime then some t else elim clocks.monotonic [
    | none ↦ none
    | some monotonic_now ↦ elim clocks.realtime [
      | none ↦ none
      | some realtime_now ↦ some (shifted t monotonic_now realtime_now)
    ]
  ]
]

abbrev pub in_nanoseconds : Timespec → ℕ
in_nanoseconds t = t.seconds * nanoseconds_per_second + t.nanoseconds

abbrev pub IsNormal : Timespec → Type 0
IsNormal t = t.nanoseconds < nanoseconds_per_second

-- With a proper time on the real clock, a relative timeout is refused only if its words are no
-- time; else the deadline is a proper timespec, exactly the timeout after the clock's time.
pub relative_deadline_lem :
    (guest now : Timespec) (monotonic : Option Timespec)
    → IsNormal now
    → let clocks : Clocks = record { realtime = some now; monotonic = monotonic } in
      ((relative_deadline guest clocks ≡ none)
        × ((2 ^ 31 ≤ guest.seconds) ⊎ (nanoseconds_per_second ≤ guest.nanoseconds)))
      ⊎ ((deadline : Timespec) × (relative_deadline guest clocks ≡ some deadline)
          × IsNormal deadline
          × (in_nanoseconds deadline ≡ in_nanoseconds now + in_nanoseconds guest))
unfolding relative_deadline
relative_deadline_lem guest now monotonic h =
    elim (Bool-cases (
      leb (2 ^ 31) guest.seconds
      || leb (2 ^ 31) guest.nanoseconds
      || leb nanoseconds_per_second guest.nanoseconds)) [
        | inl bad ↦ rw (bad, relative_deadline) (inl (refl, ground arith))
        | inr good ↦
            rw (good, relative_deadline) (inr (after guest now, refl, ground arith, ground arith))
      ]

-- With proper times on both clocks, a proper absolute time of the monotonic clock is accepted: one
-- that has not passed becomes the real time that is as far ahead, one that has passed the present.
pub absolute_deadline_lem :
    (guest monotonic_now realtime_now : Timespec)
    → guest.seconds < 2 ^ 31
    → IsNormal guest
    → IsNormal monotonic_now
    → IsNormal realtime_now
    → (deadline : Timespec) × (absolute_deadline guest false
          (record { realtime = some realtime_now; monotonic = some monotonic_now })
        ≡ some deadline)
      × IsNormal deadline
      × (in_nanoseconds deadline
          ≡ in_nanoseconds realtime_now + (in_nanoseconds guest - in_nanoseconds monotonic_now))
unfolding absolute_deadline
absolute_deadline_lem guest monotonic_now realtime_now small g m r =
    (shifted guest monotonic_now realtime_now, ground arith, ground arith, ground arith)

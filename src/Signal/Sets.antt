-- ===== src/Signal/Sets.antt =====
-- src/guest_signal.c: a signal set of Linux as one of the host.
use alpine_on_qnx.Prelude.{
  ℕ, zero, suc, ◌≡◌, refl, true, false, not, ◌&&◌, ◌||◌, ltb, leb, ◌==◌, if◌then◌else◌, Bool-cases,
  inl, inr, arith,
}
use alpine_on_qnx.Thread.{SignalSet, no_signals, add_signal, delete_signal}
use alpine_on_qnx.Signal.{Host, linux_signal_count}
use alpine_on_qnx.Signal.Number.{
  IsHost, is_hosted, linux_signal_to_host, linux_signal_to_host_positive,
  linux_signal_to_host_injective,
}

-- SIGILL and SIGSEGV, which are the same on both.
abbrev pub sigill : ℕ
sigill = 4

abbrev pub sigsegv : ℕ
sigsegv = 11

-- `host_set` after the rounds for the signals 1 to `count`.
unfoldable pub host_set_of : Host → SignalSet → ℕ → SignalSet
host_set_of h words zero n = no_signals n
host_set_of h words (suc count) n =
    let host_set = host_set_of h words count in
    let host_signal = linux_signal_to_host h (suc count) in
    if words (suc count) && not (host_signal == 0)
    then add_signal host_signal host_set n
    else host_set n

unfoldable pub linux_set_to_host : Host → SignalSet → SignalSet
linux_set_to_host h words =
    delete_signal sigsegv (delete_signal sigill (host_set_of h words linux_signal_count))

-- The loop of `merge_host_sets` after the signals 1 to `count`.
unfoldable pub merge_from : SignalSet → SignalSet → ℕ → SignalSet
merge_from target source zero n = target n
merge_from target source (suc count) n =
    let merged = merge_from target source count in
    if source (suc count) then add_signal (suc count) merged n else merged n

unfoldable pub merge_host_sets : Host → SignalSet → SignalSet → SignalSet
merge_host_sets h target source = merge_from target source h.sigrtmax

pub merge_from_lem :
    (target source : SignalSet) (count n : ℕ)
    → merge_from target source count n ≡ target n || (source n && (ltb 0 n && leb n count))
unfolding merge_from
merge_from_lem target source zero n = ground arith
merge_from_lem target source (suc count) n = elim (Bool-cases (n == suc count)) [
  | inl e ↦
      let same : n ≡ suc count = ground arith in
      rw same (ground (arith, merge_from_lem target source count (suc count)))
  | inr e ↦ ground (arith, e, merge_from_lem target source count n)
]

host_set_of_lem :
    (h : Host) (words : SignalSet) (count n : ℕ)
    → IsHost h
    → is_hosted n ≡ true
    → host_set_of h words count (linux_signal_to_host h n) ≡ words n && leb n count
unfolding host_set_of
host_set_of_lem h words zero n v hosted = ground (arith, hosted)
host_set_of_lem h words (suc count) n v hosted =
    let before = host_set_of_lem h words count n v hosted in
    let positive = linux_signal_to_host_positive h n v hosted in
    elim (Bool-cases (linux_signal_to_host h n == linux_signal_to_host h (suc count))) [
      | inl e ↦
          let same : suc count ≡ n =
            linux_signal_to_host_injective h (suc count) n v hosted (ground arith) in
          rw same (ground (arith, positive, before))
      | inr e ↦ ground (arith, positive, before, e)
    ]

pub fatal_numbers :
    (h : Host)
    → (linux_signal_to_host h sigill ≡ sigill) × (linux_signal_to_host h sigsegv ≡ sigsegv)
unfolding linux_signal_to_host
fatal_numbers h = (refl, refl)

-- The host blocks its number of a signal just where the guest's set has the signal; SIGILL and SIGSEGV,
-- by which the guest's system calls arrive, it never blocks.
pub linux_set_to_host_blocks :
    (h : Host) (words : SignalSet) (n : ℕ)
    → IsHost h
    → is_hosted n ≡ true
    → linux_set_to_host h words (linux_signal_to_host h n)
      ≡ words n && not (n == sigill || n == sigsegv)
unfolding linux_set_to_host
linux_set_to_host_blocks h words n v hosted =
    let four = linux_signal_to_host_injective h sigill n v hosted in
    let eleven = linux_signal_to_host_injective h sigsegv n v hosted in
    let set = host_set_of_lem h words linux_signal_count n v hosted in
    let same = fatal_numbers h in
    elim (Bool-cases (n == sigill)) [
      | inl e ↦ let is : n ≡ sigill = ground arith in rw (is, same.0) (ground arith)
      | inr a ↦ elim (Bool-cases (n == sigsegv)) [
        | inl e ↦ let is : n ≡ sigsegv = ground arith in rw (is, same.1) (ground arith)
        | inr b ↦
            let no4 : (linux_signal_to_host h n == sigill) ≡ false =
              ground (arith, a, four, same) in
            let no11 : (linux_signal_to_host h n == sigsegv) ≡ false =
              ground (arith, b, eleven, same) in
            let small : leb n linux_signal_count ≡ true = ground (arith, hosted) in
            rw (no4, no11, a, b, set, small) refl
      ]
    ]

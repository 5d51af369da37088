-- ===== src/Signal/Number.antt =====
-- src/guest_signal.c: signal numbers of Linux and of QNX.
use alpine_on_qnx.Prelude.{
  ℕ, zero, suc, ◌+◌, ◌-◌, ◌≤◌, ◌<◌, ◌≡◌, refl, sym, ap, ◌∙◌, Bool, true, false, not, ◌&&◌, ◌||◌,
  List, [], ◌∷◌, ltb, leb, ◌==◌, if◌then◌else◌, Bool-cases, inl, inr, arith,
}
use alpine_on_qnx.Signal.{Host}

-- The `switch` of `linux_signal_to_host`: what it returns for 0, 1, 2 and so on.
abbrev pub host_numbers : List ℕ
host_numbers =
    0 ∷ 1 ∷ 2 ∷ 3 ∷ 4 ∷ 5 ∷ 6 ∷ 10 ∷ 8 ∷ 9 ∷ 16 ∷ 11 ∷ 17 ∷ 13 ∷ 14 ∷ 15 ∷ 0 ∷ 18 ∷ 25 ∷ 23 ∷ 24
    ∷ 26 ∷ 27 ∷ 21 ∷ 30 ∷ 31 ∷ 28 ∷ 29 ∷ 20 ∷ 22 ∷ 19 ∷ 12 ∷ []

-- With the `default` of the switch.
abbrev pub entry : List ℕ → ℕ → ℕ
entry [] n = 0
entry (x ∷ xs) zero = x
entry (x ∷ xs) (suc n) = entry xs n

unfoldable pub linux_signal_to_host : Host → ℕ → ℕ
linux_signal_to_host h number =
    if leb 32 number && leb number 47 then h.sigrtmin + number - 32 else entry host_numbers number

-- The loop of `guest_signal_from_host`, from `n` on, with `count` rounds left.
unfoldable pub find_signal : Host → ℕ → ℕ → ℕ → ℕ
find_signal h zero n number = 0
find_signal h (suc count) n number =
    let rest = find_signal h count (n + 1) number in
    if linux_signal_to_host h n == number then n else rest

unfoldable pub guest_signal_from_host : Host → ℕ → ℕ
guest_signal_from_host h number =
    if leb h.sigrtmin number && leb number h.sigrtmax
    then number - h.sigrtmin + 32
    else find_signal h 31 1 number

-- The signals that the host has for the guest: 1 to 31 but 16, and 16 realtime signals.
abbrev pub is_hosted : ℕ → Bool
is_hosted n = ltb 0 n && (leb n 47 && not (n == 16))

-- The host's realtime signals lie above the others, and there are at least 16 of them.
pub record IsHost (h : Host) : Type 0 where
  pub above : 31 < h.sigrtmin
  pub enough : h.sigrtmin + 15 ≤ h.sigrtmax

-- A test that every signal below `bound` passes.
passes : (ℕ → Bool) → ℕ → Bool
passes test zero = true
passes test (suc last) = if test last then passes test last else false

passes_each :
    (test : ℕ → Bool) (bound number : ℕ)
    → number < bound
    → passes test bound ≡ true
    → test number ≡ true
unfolding passes
passes_each test zero number small all = absurd (omega arith)
passes_each test (suc last) number small all = elim (Bool-cases (number == last)) [
  | inl e ↦ let same : number ≡ last = ground arith in rw same (ground (arith, all))
  | inr e ↦ passes_each test last number (ground (arith, e)) (ground (arith, all))
]

abbrev found : Host → ℕ → Bool
found h n =
    not (is_hosted n)
    || (find_signal h 31 1 (linux_signal_to_host h n) == n
        && (ltb 0 (linux_signal_to_host h n) && leb (linux_signal_to_host h n) 31))

found_table : (h : Host) → passes (found h) 32 ≡ true
unfolding passes find_signal linux_signal_to_host
found_table h = refl

standard_found :
    (h : Host) (n : ℕ)
    → is_hosted n ≡ true
    → n < 32
    → (find_signal h 31 1 (linux_signal_to_host h n) ≡ n)
      × (0 < linux_signal_to_host h n)
      × (linux_signal_to_host h n ≤ 31)
standard_found h n hosted lt =
    let e = passes_each (found h) 32 n lt (found_table h) in ground (arith, e, hosted)

realtime_lem :
    (h : Host) (n : ℕ)
    → is_hosted n ≡ true
    → ltb n 32 ≡ false
    → linux_signal_to_host h n ≡ h.sigrtmin + n - 32
unfolding linux_signal_to_host
realtime_lem h n hosted large = ground (arith, hosted)

-- Each signal of the guest that the host has comes back as the same from the host.
pub guest_signal_from_host-linux_signal_to_host :
    (h : Host) (n : ℕ)
    → IsHost h
    → is_hosted n ≡ true
    → guest_signal_from_host h (linux_signal_to_host h n) ≡ n
unfolding guest_signal_from_host
guest_signal_from_host-linux_signal_to_host h n v hosted = elim (Bool-cases (ltb n 32)) [
  | inl small ↦ ground (arith, standard_found h n hosted, v.above)
  | inr large ↦ rw (realtime_lem h n hosted large) (ground (arith, hosted, v.enough))
]

-- All others have no signal of the host.
pub linux_signal_to_host_none :
    (h : Host) (n : ℕ) → is_hosted n ≡ false → linux_signal_to_host h n ≡ 0
unfolding linux_signal_to_host
linux_signal_to_host_none h n e = ground (arith, e)

pub linux_signal_to_host_positive :
    (h : Host) (n : ℕ) → IsHost h → is_hosted n ≡ true → 0 < linux_signal_to_host h n
linux_signal_to_host_positive h n v hosted = elim (Bool-cases (ltb n 32)) [
  | inl small ↦ ground (arith, standard_found h n hosted)
  | inr large ↦
      let e : linux_signal_to_host h n ≡ h.sigrtmin + n - 32 = realtime_lem h n hosted large in
      ground (arith, e, v.above, large)
]

pub linux_signal_to_host_injective :
    (h : Host) (i n : ℕ)
    → IsHost h
    → is_hosted n ≡ true
    → linux_signal_to_host h i ≡ linux_signal_to_host h n
    → i ≡ n
linux_signal_to_host_injective h i n v hosted e = elim (Bool-cases (is_hosted i)) [
  | inl ok ↦
      sym (guest_signal_from_host-linux_signal_to_host h i v ok)
      ∙ (ap (guest_signal_from_host h) e ∙ guest_signal_from_host-linux_signal_to_host h n v hosted)
  | inr bad ↦ absurd (
      omega
        (arith, e, linux_signal_to_host_none h i bad, linux_signal_to_host_positive h n v hosted))
]

pub linux_signal_to_host_bounded :
    (h : Host) (n : ℕ) → IsHost h → is_hosted n ≡ true → linux_signal_to_host h n ≤ h.sigrtmax
linux_signal_to_host_bounded h n v hosted = elim (Bool-cases (ltb n 32)) [
  | inl small ↦ ground (arith, standard_found h n hosted, v.above, v.enough)
  | inr large ↦
      let e : linux_signal_to_host h n ≡ h.sigrtmin + n - 32 = realtime_lem h n hosted large in
      ground (arith, e, v.enough, large, hosted)
]

-- ===== src/Thread/Pending/Taken.antt =====
-- src/guest_thread.c: guest_thread_take_pending against a view of the thread as a set of standard
-- signals and a queue for each realtime signal.
use alpine_on_qnx.Prelude.{
  ℕ, ◌-◌, ◌≤◌, ◌<◌, ◌≡◌, ◌≢◌, ◌⊎◌, inl, inr, refl, Bool, true, false, not, ◌&&◌, Option, none, some,
  leb, ◌==◌, [], ◌∷◌, Bool-cases, arith,
}
use alpine_on_qnx.Thread.{SignalInfo, ThreadState}
use alpine_on_qnx.Thread.Pending.{
  first_realtime_signal, last_realtime_signal, take_standard, take_realtime, take_from,
}
use alpine_on_qnx.Thread.Pending.Lowest.{Skipped, deliverable, Took, take_from_lem}
use alpine_on_qnx.Thread.Pending.Queue.{queue, IsRing}
use alpine_on_qnx.Thread.Pending.Refine.{Took-queue}

-- A signal waits for the thread, masked or not.
abbrev pub Waits : ThreadState → ℕ → Type 0
Waits t n =
    ((n < first_realtime_signal) × (t.pending_signals n ≡ true))
    ⊎ ((first_realtime_signal ≤ n) × (queue t (n - first_realtime_signal) ≢ []))

-- What is left when a signal below 32 has been taken: the others, and all queues.
pub record LeftStandard (t left : ThreadState) (signal : ℕ) (information : SignalInfo)
    : Type 0 where
  pub given : information ≡ t.pending_information signal
  pub gone : left.pending_signals signal ≡ false
  pub others : (k : ℕ) → k ≢ signal → left.pending_signals k ≡ t.pending_signals k
  pub queues : (index : ℕ) → queue left index ≡ queue t index

-- What is left when the first entry of the queue of a realtime signal has been taken.
pub record LeftRealtime (t left : ThreadState) (signal : ℕ) (information : SignalInfo)
    : Type 0 where
  pub front :
      queue t (signal - first_realtime_signal)
      ≡ information ∷ queue left (signal - first_realtime_signal)
  pub others :
      (index : ℕ) → index ≢ signal - first_realtime_signal → queue left index ≡ queue t index
  pub standard : (k : ℕ) → left.pending_signals k ≡ t.pending_signals k

-- The signal waits and is not masked, every lower one that waits is masked, and it alone is taken.
pub record TakesLowest (t : ThreadState) (signal : ℕ) (information : SignalInfo)
    (left : ThreadState) : Type 0 where
  pub positive : 1 ≤ signal
  pub numbered : signal ≤ last_realtime_signal
  pub waits : Waits t signal
  pub unmasked : t.signal_mask signal ≡ false
  pub lower : (k : ℕ) → 1 ≤ k → k < signal → Waits t k → t.signal_mask k ≡ true
  pub mask : left.signal_mask ≡ t.signal_mask
  pub taken :
      ((signal < first_realtime_signal) × LeftStandard t left signal information)
      ⊎ ((first_realtime_signal ≤ signal) × LeftRealtime t left signal information)

abbrev pub Takes : ThreadState → Option (ℕ × SignalInfo) × ThreadState → Type 0
Takes t r =
    ((r ≡ (none, t))
      × ((k : ℕ) → 1 ≤ k → k ≤ last_realtime_signal → Waits t k → t.signal_mask k ≡ true))
    ⊎ ((signal : ℕ) × (information : SignalInfo) × (left : ThreadState) × (r
          ≡ (some (signal, information), left))
        × TakesLowest t signal information left)

empty_queue :
    (t : ThreadState) (index : ℕ)
    → (t.realtime_head index == t.realtime_tail index) ≡ true
    → queue t index ≡ []
empty_queue t index same =
    let e : t.realtime_tail index - t.realtime_head index ≡ 0 = ground (arith, same) in rw e refl

-- What waits and is not masked can be delivered.
Waits-deliverable :
    (t : ThreadState) (n : ℕ) → Waits t n → t.signal_mask n ≡ false → deliverable t n ≡ true
Waits-deliverable t n (inl (low, pending)) free =
    let small : leb first_realtime_signal n ≡ false = ground arith in rw (small, pending, free) refl
Waits-deliverable t n (inr (high, some_entry)) free =
    let large : leb first_realtime_signal n ≡ true = ground arith in
    let index = n - first_realtime_signal in
    elim (Bool-cases (t.realtime_head index == t.realtime_tail index)) [
      | inl same ↦ absurd (some_entry (empty_queue t index same))
      | inr other ↦ rw (large, other, free) refl
    ]

masked_below :
    (t : ThreadState) (m k : ℕ)
    → Skipped 1 m (deliverable t)
    → 1 ≤ k
    → k < m
    → Waits t k
    → t.signal_mask k ≡ true
masked_below t m k skipped le lt waits = elim (Bool-cases (t.signal_mask k)) [
  | inl e ↦ e
  | inr free ↦ absurd (cc (skipped k le lt, Waits-deliverable t k waits free))
]

both : (p q : Bool) → p && not q ≡ true → (p ≡ true) × (q ≡ false)
both true true h = absurd cc
both true false h = (refl, refl)
both false q h = absurd cc

first_of_both : (p q : Bool) → not p && q ≡ true → p ≡ false
first_of_both true q h = absurd cc
first_of_both false q h = refl

left_standard :
    (t : ThreadState) (signal : ℕ)
    → LeftStandard t (take_standard signal t).1 signal (take_standard signal t).0
left_standard t signal =
    let self : (signal == signal) ≡ true = ground arith in
    record {
      given = refl;
      gone = rw self refl;
      others = λ k other. let e : (k == signal) ≡ false = ground (arith, other) in rw e refl;
      queues = λ index. refl;
    }

other_queues :
    (t : ThreadState) (signal index : ℕ)
    → index ≢ signal - first_realtime_signal
    → queue (take_realtime signal t).1 index ≡ queue t index
other_queues t signal index other =
    let e : (index == signal - first_realtime_signal) ≡ false = ground (arith, other) in rw e refl

Took-TakesLowest :
    (t left : ThreadState) (signal : ℕ) (information : SignalInfo)
    → ((index : ℕ) → IsRing t index)
    → Took t signal information left
    → TakesLowest t signal information left
Took-TakesLowest t left signal information rings took = elim took.taken [
  | inl (low, e, f) ↦
      let small : leb first_realtime_signal signal ≡ false = ground arith in
      let (pending, free) =
        both (t.pending_signals signal) (t.signal_mask signal) (rw small at took.waits) in
      record {
        positive = took.positive;
        numbered = took.numbered;
        waits = inl (low, pending);
        unmasked = free;
        lower = λ k. masked_below t signal k took.lower;
        mask = rw f refl;
        taken = inl (low, rw (e, f) (left_standard t signal));
      }
  | inr (high, e, f) ↦
      let large : leb first_realtime_signal signal ≡ true = ground arith in
      let index = signal - first_realtime_signal in
      let (front, ring) = Took-queue t left signal information took high (rings index) in
      let free = first_of_both (t.signal_mask signal) _ (rw large at took.waits) in
      record {
        positive = took.positive;
        numbered = took.numbered;
        waits = inr (high, λ none_left. absurd (cc (front, none_left)));
        unmasked = free;
        lower = λ k. masked_below t signal k took.lower;
        mask = rw f refl;
        taken = inr (
          high,
          record {
            front = front;
            others = λ other apart. rw f (other_queues t signal other apart);
            standard = λ k. rw f refl;
          },
        );
      }
]

-- guest_thread_take_pending, for a thread that has not marked signal 32 as pending and whose queues
-- are in order: either every signal from 1 to 47 that waits is masked, and the thread stays as it is;
-- or the lowest signal that waits and is not masked is taken. A signal below 32 is then no longer
-- pending, and its information is what was kept with it; of a realtime signal the first entry of its
-- queue is taken. The other signals, the other queues and the mask stay as they are.
pub take_from-Takes :
    (t : ThreadState)
    → t.pending_signals first_realtime_signal ≡ false
    → ((index : ℕ) → IsRing t index)
    → Takes t (take_from t)
take_from-Takes t h rings = elim (take_from_lem t h) [
  | inl (nothing, skipped) ↦
      inl (nothing, λ k le le' waits. masked_below t 48 k skipped le (omega (arith, le')) waits)
  | inr (signal, information, left, e, took) ↦
      inr (signal, information, left, e, Took-TakesLowest t left signal information rings took)
]

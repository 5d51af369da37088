-- ===== src/Thread/Pending/Refine.antt =====
-- src/guest_thread.c: what the calls do to the queues of the realtime signals.
use alpine_on_qnx.Prelude.{
  ℕ, suc, ◌+◌, ◌-◌, ◌%◌, ◌^◌, ◌≤◌, ◌<◌, ◌≡◌, ◌≢◌, inl, inr, refl, ◌∙◌, Bool, true, not, ◌&&◌,
  Option, some, ltb, leb, ◌==◌, [], ◌∷◌, ◌++◌, length, if◌then◌else◌, Bool-cases, arith,
}
use alpine_on_qnx.Thread.{SignalInfo, ThreadState}
use alpine_on_qnx.Thread.Pending.{
  first_realtime_signal, realtime_queue_length, given, queue_realtime, take_realtime, wake_waits,
  is_realtime, guest_thread_signal_pending, queued,
}
use alpine_on_qnx.Thread.Pending.Queue.{
  entries, queue, IsRing, has_room_small, slot_small, next_small, queue_realtime-same,
  queue_realtime-other,
}
use alpine_on_qnx.Thread.Pending.Lowest.{Took}

-- Where a wait is ended, the queues stay.
wake_waits-IsRing :
    (t : ThreadState) (index : ℕ)
    → (queue (wake_waits t) index ≡ queue t index) × (IsRing t index → IsRing (wake_waits t) index)
unfolding wake_waits
wake_waits-IsRing t index =
    (refl, λ r. record { ordered = r.ordered; bounded = r.bounded; small = r.small })

queue_realtime-IsRing :
    (t : ThreadState) (index : ℕ) (information : Option SignalInfo)
    → IsRing t index
    → t.realtime_tail index + 1 < 2 ^ 31
    → IsRing (queue_realtime index information t) index
unfolding queue_realtime
queue_realtime-IsRing t index information ring free =
    let self : (index == index) ≡ true = ground arith in
    let asked =
      has_room_small (t.realtime_head index) (t.realtime_tail index) ring.ordered ring.small in
    let next = next_small (t.realtime_tail index) ring.small in
    elim (Bool-cases (ltb (t.realtime_tail index - t.realtime_head index) realtime_queue_length)) [
      | inl room ↦
          let more : t.realtime_tail index - t.realtime_head index < realtime_queue_length =
            ground arith in
          rw (asked, room, queue_realtime, next)
            (record {
              ordered = rw self (omega (arith, ring.ordered));
              bounded = rw self (omega (arith, ring.ordered));
              small = rw self free;
            })
      | inr full ↦ rw (asked, full, queue_realtime) ring
    ]

-- What a call does to a queue: it goes to the end of it if a place is free, else nowhere; and what
-- it leaves to the others.
pub record Queued (t new : ThreadState) (index : ℕ) (information : SignalInfo) : Type 0 where
  pub ring : IsRing new index
  pub same : queue new index ≡ (
      if ltb (length (queue t index)) realtime_queue_length
      then queue t index ++ information ∷ []
      else queue t index)
  pub others : (other : ℕ) → other ≢ index → queue new other ≡ queue t other

-- A realtime signal that a thread receives, with fewer than 2 ^ 31 - 1 of its number put into the queue
-- before, is put behind those that wait in its queue, or dropped if 64 wait there; the queues of the
-- other signals stay as they are.
pub guest_thread_signal_pending-Queued :
    (t : ThreadState) (signal : ℕ) (information : Option SignalInfo)
    → is_realtime signal ≡ true
    → IsRing t (signal - first_realtime_signal)
    → t.realtime_tail (signal - first_realtime_signal) + 1 < 2 ^ 31
    → (new : ThreadState) × (guest_thread_signal_pending signal information (some t) ≡ some new)
      × Queued t new (signal - first_realtime_signal) (given information)
unfolding guest_thread_signal_pending
guest_thread_signal_pending-Queued t signal information realtime ring free =
    let index = signal - first_realtime_signal in
    let added = queue_realtime index information t in
    let numbered : ltb 0 signal && leb signal 64 ≡ true = ground arith in
    let woken = wake_waits-IsRing added index in
    (
      wake_waits added,
      rw (numbered, realtime) refl,
      record {
        ring = woken.1 (queue_realtime-IsRing t index information ring free);
        same = woken.0 ∙ queue_realtime-same t index information ring free;
        others = λ other h.
            (wake_waits-IsRing added other).0 ∙ queue_realtime-other t index other information h;
      },
    )

front :
    (t : ThreadState) (index : ℕ)
    → IsRing t index
    → t.realtime_head index < t.realtime_tail index
    → queue t index
      ≡ t.realtime_information index (t.realtime_head index % realtime_queue_length)
        ∷ entries
            (t.realtime_information index)
            (t.realtime_head index + 1)
            (t.realtime_tail index - (t.realtime_head index + 1))
front t index ring some_entry =
    let e : t.realtime_tail index - t.realtime_head index
        ≡ suc (t.realtime_tail index - (t.realtime_head index + 1)) =
      omega arith in
    rw e refl

nonempty :
    (masked : Bool) (head tail : ℕ)
    → not masked && not (head == tail) ≡ true
    → head ≤ tail
    → head < tail
nonempty masked head tail h le = ground arith

taken_queue :
    (t : ThreadState) (signal : ℕ)
    → queued t signal ≡ true
    → IsRing t (signal - first_realtime_signal)
    → (queue t (signal - first_realtime_signal)
        ≡ (take_realtime signal t).0
          ∷ queue (take_realtime signal t).1 (signal - first_realtime_signal))
      × IsRing (take_realtime signal t).1 (signal - first_realtime_signal)
taken_queue t signal waits ring =
    let index = signal - first_realtime_signal in
    let self : (index == index) ≡ true = ground arith in
    let some_entry : t.realtime_head index < t.realtime_tail index =
      nonempty (t.signal_mask signal) (t.realtime_head index) (t.realtime_tail index) waits
        ring.ordered in
    let low : t.realtime_head index < 2 ^ 31 = omega (arith, ring.ordered, ring.small) in
    let place = slot_small (t.realtime_head index) low in
    let next = next_small (t.realtime_head index) low in
    (
      rw (next, place, self) (front t index ring some_entry),
      record {
        ordered = rw (next, self) (omega arith);
        bounded = rw (next, self) (omega (arith, ring.bounded));
        small = ring.small;
      },
    )

-- The realtime signal that is taken comes from the front of its queue, and the other queues stay as
-- they are.
pub Took-queue :
    (t left : ThreadState) (signal : ℕ) (information : SignalInfo)
    → Took t signal information left
    → first_realtime_signal ≤ signal
    → IsRing t (signal - first_realtime_signal)
    → (queue t (signal - first_realtime_signal)
        ≡ information ∷ queue left (signal - first_realtime_signal))
      × IsRing left (signal - first_realtime_signal)
Took-queue t left signal information took realtime ring = elim took.taken [
  | inl (low, _, _) ↦ absurd (omega arith)
  | inr (_, e, f) ↦
      let large : leb first_realtime_signal signal ≡ true = ground arith in
      rw (e, f) (taken_queue t signal (rw large at took.waits) ring)
]

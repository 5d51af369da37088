-- ===== src/Thread/Pending/Queue.antt =====
-- src/guest_thread.c: the ring buffer of a realtime signal is a queue of at most 64 entries.
use alpine_on_qnx.Prelude.{
  ℕ, zero, suc, ◌+◌, ◌-◌, ◌%◌, ◌^◌, ◌≤◌, ◌<◌, ◌≡◌, ◌≢◌, inl, inr, refl, ap, true, false, Option,
  ltb, ◌==◌, List, [], ◌∷◌, ◌++◌, length, if◌then◌else◌, Bool-cases, arith,
}
use alpine_on_qnx.Thread.{SignalInfo, ThreadState}
use alpine_on_qnx.Thread.Pending.{
  realtime_queue_length, slot, next_count, has_room, update, given, queue_realtime,
}

-- The entries of a ring buffer from `head` on.
abbrev pub entries {ℓ} : {A : Type ℓ} → (ℕ → A) → ℕ → ℕ → List A
entries ring head zero = []
entries ring head (suc count) = ring (head % realtime_queue_length) ∷ entries ring (head + 1) count

-- What waits in the queue of a realtime signal, the oldest first.
abbrev pub queue : ThreadState → ℕ → List SignalInfo
queue t index =
    entries (t.realtime_information index) (t.realtime_head index)
      (t.realtime_tail index - t.realtime_head index)

-- The counts of a queue are in order and not negative, and no more than 64 entries lie between them.
pub record IsRing (t : ThreadState) (index : ℕ) : Type 0 where
  pub ordered : t.realtime_head index ≤ t.realtime_tail index
  pub bounded : t.realtime_tail index - t.realtime_head index ≤ realtime_queue_length
  pub small : t.realtime_tail index < 2 ^ 31

-- Counts that are not negative.
pub slot_small : (count : ℕ) → count < 2 ^ 31 → slot count ≡ count % realtime_queue_length
slot_small count lt = ground (arith, lt)

pub has_room_small :
    (head tail : ℕ)
    → head ≤ tail
    → tail < 2 ^ 31
    → has_room head tail ≡ ltb (tail - head) realtime_queue_length
has_room_small head tail le lt =
    let e : (tail + 2 ^ 32 - head) % 2 ^ 32 ≡ tail - head = omega (arith, le, lt) in
    rw e (ground (arith, lt))

pub next_small : (count : ℕ) → count < 2 ^ 31 → next_count count ≡ count + 1
next_small count lt = omega (arith, lt)

pub length-entries {ℓ} :
    {A : Type ℓ} (ring : ℕ → A) (head count : ℕ) → length (entries ring head count) ≡ count
length-entries ring head zero = refl
length-entries ring head (suc count) = ap suc (length-entries ring (head + 1) count)

entries-add {ℓ} :
    {A : Type ℓ} (ring : ℕ → A) (head count : ℕ)
    → entries ring head (suc count)
      ≡ entries ring head count ++ ring ((head + count) % realtime_queue_length) ∷ []
entries-add ring head zero = let e : (head + 0) ≡ head = omega arith in rw e refl
entries-add ring head (suc count) =
    let e : (head + 1 + count) ≡ head + suc count = omega arith in
    ap (λ xs. ring (head % realtime_queue_length) ∷ xs)
      (rw e at (entries-add ring (head + 1) count))

-- Fewer than 64 places on from the head, the slot of a later count holds no entry.
entries-update {ℓ} :
    {A : Type ℓ} (ring : ℕ → A) (head count tail : ℕ) (v : A)
    → head + count ≤ tail
    → tail < head + realtime_queue_length
    → entries (update ring (tail % realtime_queue_length) v) head count ≡ entries ring head count
entries-update ring head zero tail v h h' = refl
entries-update ring head (suc count) tail v h h' =
    let other : (head % realtime_queue_length == tail % realtime_queue_length) ≡ false =
      ground arith in
    rw other (
      ap (λ xs. ring (head % realtime_queue_length) ∷ xs)
        (entries-update ring (head + 1) count tail v (omega arith) (omega arith)))

updated_same {ℓ} : {A : Type ℓ} (ring : ℕ → A) (i : ℕ) (v : A) → update ring i v i ≡ v
updated_same ring i v = let e : (i == i) ≡ true = ground arith in rw e refl

-- A new entry goes to the end, if a place is free; else it is lost.
pub queue_realtime-same :
    (t : ThreadState) (index : ℕ) (information : Option SignalInfo)
    → IsRing t index
    → t.realtime_tail index + 1 < 2 ^ 31
    → queue (queue_realtime index information t) index ≡ (
        if ltb (length (queue t index)) realtime_queue_length
        then queue t index ++ given information ∷ []
        else queue t index)
unfolding queue_realtime
queue_realtime-same t index information ring free =
    let head = t.realtime_head index in
    let tail = t.realtime_tail index in
    let count = length-entries (t.realtime_information index) head (tail - head) in
    let asked = has_room_small head tail ring.ordered ring.small in
    let place = slot_small tail ring.small in
    let next = next_small tail ring.small in
    elim (Bool-cases (ltb (tail - head) realtime_queue_length)) [
      | inr full ↦ rw (queue_realtime, asked, count, full) refl
      | inl room ↦
          let self : (index == index) ≡ true = ground arith in
          let more : (tail + 1) - head ≡ suc (tail - head) = omega (arith, ring.ordered) in
          let end : head + (tail - head) ≡ tail = omega (arith, ring.ordered) in
          let ringbuf =
            update (t.realtime_information index) (tail % realtime_queue_length)
              (given information) in
          let added = entries-add ringbuf head (tail - head) in
          let kept =
            entries-update (t.realtime_information index) head (tail - head) tail
              (given information) (omega arith) (ground (arith, ring.ordered)) in
          let last =
            updated_same (t.realtime_information index) (tail % realtime_queue_length)
              (given information) in
          rw (queue_realtime, asked, place, next, count, room, self, more)
            (rw (end, kept, last) at added)
    ]

pub queue_realtime-other :
    (t : ThreadState) (index other : ℕ) (information : Option SignalInfo)
    → other ≢ index
    → queue (queue_realtime index information t) other ≡ queue t other
unfolding queue_realtime
queue_realtime-other t index other information h =
    let apart : (other == index) ≡ false = ground arith in
    elim (Bool-cases (has_room (t.realtime_head index) (t.realtime_tail index))) [
      | inl room ↦ rw (room, queue_realtime, apart) refl
      | inr full ↦ rw (full, queue_realtime) refl
    ]

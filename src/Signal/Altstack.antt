-- ===== src/Signal/Altstack.antt =====
-- src/guest_signal.c, guest_signal_altstack: the alternate stack for handlers.
use Prim.Native.Nat.{bit_and}
use alpine_on_qnx.Prelude.{
  ℕ, ◌+◌, ◌≤◌, ◌≡◌, refl, Bool, true, false, not, ◌&&◌, ◌⊎◌, inl, inr, Option, none, some, ltb, leb,
  ◌==◌, if◌then◌else◌, Bool-cases, arith,
}
use alpine_on_qnx.Words.{u32, not32, has_flag}
use alpine_on_qnx.Abi.Answer.{Answer, value, eperm, einval, enomem}
use alpine_on_qnx.Thread.{
  Current, ThreadState, guest_thread_altstack_get, guest_thread_altstack_set,
}
use alpine_on_qnx.Signal.{SignalStack}

-- `sp` lies on the alternate stack.
abbrev pub is_on_altstack : ℕ → ℕ → ℕ → Bool
is_on_altstack sp pointer size =
    not (size == 0) && (leb pointer sp && ltb sp (u32 (pointer + size)))

-- The flags that tell of the alternate stack whether it is in use or is none.
abbrev pub stack_flags : ℕ → ℕ → ℕ → ℕ
stack_flags sp pointer size =
    if is_on_altstack sp pointer size then 1 else if size == 0 then 2 else 0

-- What `guest_stack` asks for.
unfoldable pub request_altstack : Bool → SignalStack → Current → Answer × Current
request_altstack on_stack requested current =
    if on_stack
    then (eperm, current)
    else if not (bit_and requested.flags (not32 2) == 0)
    then (einval, current)
    else if has_flag requested.flags 2
    then (value 0, guest_thread_altstack_set 0 0 current)
    else if ltb requested.size 2048
    then (enomem, current)
    else (value 0, guest_thread_altstack_set requested.pointer requested.size current)

-- The answer, and what is written to `guest_old_stack`, which is there if `wants_old` is set.
unfoldable pub guest_signal_altstack :
    ℕ → Option SignalStack → Bool → Current → Answer × Option SignalStack × Current
guest_signal_altstack current_sp guest_stack wants_old current =
    let (pointer, size) = guest_thread_altstack_get current in
    let old : SignalStack = record {
      pointer = pointer;
      flags = stack_flags current_sp pointer size;
      size = size;
    } in
    let (answer, new) : Answer × Current = elim guest_stack [
      | none ↦ (value 0, current)
      | some requested ↦ request_altstack (is_on_altstack current_sp pointer size) requested current
    ] in
    (answer, if wants_old then some old else none, new)

-- There is no alternate stack, or one of the least size at least.
abbrev pub IsAltstack : Current → Type 0
IsAltstack current =
    (guest_thread_altstack_get current ≡ (0, 0)) ⊎ (2048 ≤ (guest_thread_altstack_get current).1)

guest_thread_altstack_set-IsAltstack :
    (pointer size : ℕ) (current : Current)
    → (◌≡◌ {A = ℕ × ℕ} (pointer, size) (0, 0)) ⊎ (2048 ≤ size)
    → IsAltstack (guest_thread_altstack_set pointer size current)
guest_thread_altstack_set-IsAltstack pointer size none h = inl refl
guest_thread_altstack_set-IsAltstack pointer size (some t) h = h

request_altstack-IsAltstack :
    (on_stack : Bool) (requested : SignalStack) (current : Current)
    → IsAltstack current
    → IsAltstack (request_altstack on_stack requested current).1
unfolding request_altstack
request_altstack-IsAltstack true requested current v = v
request_altstack-IsAltstack false requested current v =
    elim (Bool-cases (bit_and requested.flags (not32 2) == 0)) [
      | inr e ↦ rw e v
      | inl e ↦ elim (Bool-cases (has_flag requested.flags 2)) [
        | inl d ↦ rw (e, d) (guest_thread_altstack_set-IsAltstack 0 0 current (inl refl))
        | inr d ↦ elim (Bool-cases (ltb requested.size 2048)) [
          | inl f ↦ rw (e, d, f) v
          | inr f ↦
              rw (e, d, f)
                (guest_thread_altstack_set-IsAltstack requested.pointer requested.size current
                  (inr (ground arith)))
        ]
      ]
    ]

-- Whatever is asked for, the thread has no alternate stack afterwards, or one of 2048 bytes at least.
pub guest_signal_altstack-IsAltstack :
    (current_sp : ℕ) (guest_stack : Option SignalStack) (wants_old : Bool) (current : Current)
    → IsAltstack current
    → IsAltstack (guest_signal_altstack current_sp guest_stack wants_old current).2
unfolding guest_signal_altstack
guest_signal_altstack-IsAltstack current_sp none wants_old current v = v
guest_signal_altstack-IsAltstack current_sp (some requested) wants_old current v =
    let (pointer, size) = guest_thread_altstack_get current in
    request_altstack-IsAltstack (is_on_altstack current_sp pointer size) requested current v

-- Where the alternate stack is set, a second call made off it is told what was set.
pub guest_signal_altstack_reads_back :
    (sp sp' : ℕ) (requested : SignalStack) (wants_old : Bool) (t : ThreadState)
    → is_on_altstack sp t.altstack_pointer t.altstack_size ≡ false
    → requested.flags ≡ 0
    → 2048 ≤ requested.size
    → is_on_altstack sp' requested.pointer requested.size ≡ false
    → let (answer, old, set) = guest_signal_altstack sp (some requested) wants_old (some t) in
      (answer ≡ value 0) × ((guest_signal_altstack sp' none true set).1 ≡ some requested)
unfolding guest_signal_altstack request_altstack
guest_signal_altstack_reads_back sp sp' requested wants_old t off flags large off' =
    let enough : ltb requested.size 2048 ≡ false = ground arith in
    let some_size : (requested.size == 0) ≡ false = ground arith in
    rw (off, flags, enough, off', some_size) (refl, refl)

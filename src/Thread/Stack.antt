-- ===== src/Thread/Stack.antt =====
-- src/guest_thread.c, guest_thread_defer_active_stack_unmap: a thread that unmaps the stack it runs
-- on. `active_stack` is an address in the frame of the call.
use alpine_on_qnx.Prelude.{
  ℕ, ◌+◌, ◌-◌, ◌≤◌, ◌<◌, ◌≡◌, ◌⊎◌, inl, inr, refl, Bool, true, false, not, ◌&&◌, ◌||◌, none, some,
  ltb, leb, ◌==◌, if◌then◌else◌, arith,
}
use alpine_on_qnx.Thread.{ThreadState, Current}

abbrev pub deferred_start : ThreadState → ℕ → ℕ
deferred_start t address =
    if not (t.deferred_unmap_length == 0)
    then (if ltb t.deferred_unmap_start address then t.deferred_unmap_start else address)
    else address

abbrev pub deferred_end : ThreadState → ℕ → ℕ
deferred_end t end =
    let old_end = t.deferred_unmap_start + t.deferred_unmap_length in
    if not (t.deferred_unmap_length == 0) then (if ltb end old_end then old_end else end) else end

unfoldable pub guest_thread_defer_active_stack_unmap : ℕ → ℕ → ℕ → Current → Bool × Current
guest_thread_defer_active_stack_unmap active_stack address len none = (false, none)
guest_thread_defer_active_stack_unmap active_stack address len (some t) =
    if ltb active_stack address || leb len (active_stack - address) then (false, some t) else (
      true,
      some (record t {
        deferred_unmap_start = deferred_start t address;
        deferred_unmap_length = deferred_end t (address + len) - deferred_start t address;
      }),
    )

-- The bytes that are to be unmapped when the thread ends.
abbrev pub Deferred : ThreadState → ℕ → Type 0
Deferred t a = (t.deferred_unmap_start ≤ a) × (a < t.deferred_unmap_start + t.deferred_unmap_length)

-- Where the running stack is not in the range, nothing is put off.
pub guest_thread_defer_active_stack_unmap_refused :
    (active_stack address len : ℕ) (t : ThreadState)
    → leb address active_stack && ltb active_stack (address + len) ≡ false
    → guest_thread_defer_active_stack_unmap active_stack address len (some t) ≡ (false, some t)
unfolding guest_thread_defer_active_stack_unmap
guest_thread_defer_active_stack_unmap_refused active_stack address len t h =
    let e : ltb active_stack address || leb len (active_stack - address) ≡ true = ground arith in
    rw e refl

covered :
    (t : ThreadState) (address end a : ℕ)
    → address ≤ end
    → ((address ≤ a) × (a < end)) ⊎ Deferred t a
    → (deferred_start t address ≤ a)
      × (a < deferred_start t address + (deferred_end t end - deferred_start t address))
covered t address end a le (inl h) = ground arith
covered t address end a le (inr h) = ground arith

-- Where the running stack is in the range of an unmapping, it is put off: every byte of the range, and
-- every byte that was to be unmapped before, is unmapped when the thread ends.
pub guest_thread_defer_active_stack_unmap_covers :
    (active_stack address len a : ℕ) (t : ThreadState)
    → leb address active_stack && ltb active_stack (address + len) ≡ true
    → ((address ≤ a) × (a < address + len)) ⊎ Deferred t a
    → (new : ThreadState) × (guest_thread_defer_active_stack_unmap active_stack address len (some t)
        ≡ (true, some new))
      × Deferred new a
unfolding guest_thread_defer_active_stack_unmap
guest_thread_defer_active_stack_unmap_covers active_stack address len a t h h' =
    let e : ltb active_stack address || leb len (active_stack - address) ≡ false = ground arith in
    (
      record t {
        deferred_unmap_start = deferred_start t address;
        deferred_unmap_length = deferred_end t (address + len) - deferred_start t address;
      },
      rw e refl,
      covered t address (address + len) a (omega arith) h',
    )

-- ===== src/MapCalls.antt =====
-- src/linux_syscall.c: the system calls that map memory, over the tables of mappings and of patches.
pub mod Protect
pub mod Map
pub mod Mapped
pub mod MapOutcome
pub mod Mmap
mod Tests
use Prim.Native.Nat.{bit_and}
use alpine_on_qnx.Prelude.{
  ℕ, ◌+◌, ◌-◌, Bool, true, false, not, ◌&&◌, ◌||◌, Option, none, some, List, ◌∷◌, ltb, ◌==◌, length,
  if◌then◌else◌,
}
use alpine_on_qnx.Words.{not32, has_flag, align_up, uintptr_max}
use alpine_on_qnx.Abi.Errno.{Errno, enone, einval, enomem, eacces}
use alpine_on_qnx.Abi.Answer.{Answer, value, from_errno}
use alpine_on_qnx.Memory.Table.{Mapping}
use alpine_on_qnx.Memory.Table.Runtime.{
  Status, done, not_owned, invalid, no_memory, guest_memory_runtime_owned,
  guest_memory_runtime_protect, guest_memory_runtime_unmap,
}
use alpine_on_qnx.Memory.Segments.{LoadSegment, Protection, HostCall, mprotect, msync, munmap}
use alpine_on_qnx.Memory.Query.{guest_memory_range_owned, guest_memory_is_executable}
use alpine_on_qnx.Patch.{Code, arm_patch_range, arm_patch_rollback, arm_patch_forget_range}
use alpine_on_qnx.Thread.{Current}
use alpine_on_qnx.Thread.Stack.{guest_thread_defer_active_stack_unmap}

-- What the calls reach: the segments of the loaded files, the table of runtime mappings, the code with
-- its patches, the current thread, and the calls of the host, last one
-- first, without those that have failed as far as the code looks.
pub record AddressSpace : Type 0 where
  pub segments : List LoadSegment
  pub table : List Mapping
  pub code : Code
  pub current : Current
  pub calls : List HostCall

-- `none` is -1; what the guest's bits ask for.
unfoldable pub translate_protection : ℕ → Option Protection
translate_protection linux_protection =
    if not (bit_and linux_protection (not32 7) == 0)
    then none
    else some (record {
      read = has_flag linux_protection 1;
      write = has_flag linux_protection 2;
      exec = has_flag linux_protection 4;
    })

abbrev pub writable : Protection → Protection
writable p = record p { read = true; write = true }

-- The errors of the host's calls, in the order in which they are made: the first `mprotect`, `msync`, the
-- last `mprotect`; and what `errno` is where nothing sets it.
pub record ProtectErrors : Type 0 where
  pub opening : Option Errno
  pub sync : Option Errno
  pub closing : Option Errno
  pub stale : Errno

abbrev pub logged : HostCall → AddressSpace → AddressSpace
logged call s = record s { calls = call ∷ s.calls }

abbrev pub to_answer : Option Errno → Answer
to_answer none = value 0
to_answer (some e) = from_errno e

-- `errno` after a call on the table that did not return 0.
abbrev pub status_error : Errno → Status → Option Errno
status_error stale done = none
status_error stale not_owned = some stale
status_error stale invalid = some einval
status_error stale no_memory = some enomem

-- The last `mprotect` alone.
unfoldable pub protect_host :
    ProtectErrors → ℕ → ℕ → Protection → AddressSpace → Option Errno × AddressSpace
protect_host errors address len p s = elim errors.closing [
  | some e ↦ (some e, s)
  | none ↦ (none, logged (mprotect address len p) s)
]

-- A range that a loaded file owns.
unfoldable pub protect_segment :
    ProtectErrors → ℕ → ℕ → Protection → AddressSpace → Option Errno × AddressSpace
protect_segment errors address len p s =
    if not (guest_memory_range_owned s.segments s.table address len)
    then (some enomem, s)
    else if p.exec && not (guest_memory_is_executable s.segments s.table address len)
    then (some eacces, s)
    else protect_host errors address len p s

-- Before a range becomes executable, its code is patched; on an error, the patches are rolled back.
unfoldable pub patch_code :
    ProtectErrors → ℕ → ℕ → Protection → AddressSpace → Option Errno × AddressSpace
patch_code errors address len p s = elim errors.opening [
  | some e ↦ (some e, s)
  | none ↦
      let opened = logged (mprotect address len (writable p)) s in
      let (failed, code) = arm_patch_range address len s.code in
      let undone =
        logged (mprotect address len p)
          (record opened { code = arm_patch_rollback (length s.code.patches) code }) in
      elim failed [
        | some e ↦ (some e, undone)
        | none ↦ elim errors.sync [
          | some e ↦ (some e, undone)
          | none ↦ (none, logged (msync address len) (record opened { code = code }))
        ]
      ]
]

-- From the last `mprotect` on; `patches_before` is the count at the start of the call.
unfoldable pub change_protection :
    ProtectErrors → ℕ → ℕ → Protection → ℕ → AddressSpace → Option Errno × AddressSpace
change_protection errors address len p patches_before s = elim errors.closing [
  | some e ↦ (
    some e,
    record s { code = if p.exec then arm_patch_rollback patches_before s.code else s.code },
  )
  | none ↦
      let (status, table) =
        guest_memory_runtime_protect s.table address len (if p.exec then 1 else 0) in
      (
        status_error errors.stale status,
        record (logged (mprotect address len p) s) { table = table },
      )
]

-- A range that is mapped at run time.
unfoldable pub protect_runtime :
    ProtectErrors → ℕ → ℕ → Protection → AddressSpace → Option Errno × AddressSpace
protect_runtime errors address len p s =
    let count = length s.code.patches in
    let (failed, patched) = patch_code errors address len p s in
    let with_code : Option Errno × AddressSpace = elim failed [
      | some e ↦ (some e, patched)
      | none ↦ change_protection errors address len p count patched
    ] in
    if p.exec then with_code else change_protection errors address len p count s

-- `length == 0`, an address that is no page's, or a length that cannot be rounded up. SIZE_MAX is the
-- greatest `uintptr_t`.
abbrev pub bad_pages : ℕ → ℕ → ℕ → Bool
bad_pages page_size address len =
    len == 0
    || (not (bit_and address (page_size - 1) == 0) || ltb (uintptr_max - (page_size - 1)) len)

unfoldable pub linux_mprotect_runtime :
    ℕ → ProtectErrors → ℕ → ℕ → ℕ → AddressSpace → Option Errno × AddressSpace
linux_mprotect_runtime page_size errors address len linux_protection s =
    elim (translate_protection linux_protection) [
      | none ↦ (some einval, s)
      | some p ↦
          let mapped_length = align_up len page_size in
          if bad_pages page_size address len
          then (some einval, s)
          else if guest_memory_runtime_owned s.table address mapped_length
          then protect_runtime errors address mapped_length p s
          else protect_segment errors address mapped_length p s
    ]

-- `active_stack` is the address of a variable of the call, and `munmap_error` the host's answer.
unfoldable pub linux_munmap_runtime :
    ℕ → ℕ → Option Errno → ℕ → ℕ → AddressSpace → Option Errno × AddressSpace
linux_munmap_runtime page_size active_stack munmap_error address len s =
    let mapped_length = align_up len page_size in
    let (deferred, current) =
      guest_thread_defer_active_stack_unmap active_stack address mapped_length s.current in
    let unmapped : Option Errno × AddressSpace = elim munmap_error [
      | some e ↦ (some e, s)
      | none ↦ (
        none,
        record (logged (munmap address mapped_length) s) {
          code = arm_patch_forget_range address mapped_length s.code;
          table = guest_memory_runtime_unmap s.table address mapped_length;
        },
      )
    ] in
    if bad_pages page_size address len
    then (some einval, s)
    else if not (guest_memory_runtime_owned s.table address mapped_length)
    then (some einval, s)
    else if deferred
    then (none, record s { current = current })
    else unmapped

-- ===== src/Elf/Imaged.antt =====
-- src/elf_loader.c: load_guest_image loads all or nothing.
use alpine_on_qnx.Prelude.{◌-◌, ◌≤◌, ◌<◌, ◌≡◌, ◌≢◌, true, false, List, length}
use alpine_on_qnx.Abi.Errno.{Errno}
use alpine_on_qnx.Elf.Load.{LoadState}
use alpine_on_qnx.Elf.Restore.{Progress, Restored}
use alpine_on_qnx.Elf.Image.{
  GuestImage, World, Finish, refused, unprotected, finished, LoadEnd, started, failed, faulted,
  rollback_faults,
}
use alpine_on_qnx.Memory.Break.{Break}
use alpine_on_qnx.Memory.Segments.{HostCall, guest_min_address, guest_max_address}
use alpine_on_qnx.Memory.Query.{guest_memory_is_executable, guest_memory_finalize}

-- An image that can be started: some of its code is patched, both entries are executable, and its
-- break lies in the guest's addresses, with nothing above it yet.
pub record CanStart (w : World) (st : LoadState) (image : GuestImage) (b : Break) : Type 0 where
  pub patched : length st.code.patches ≢ 0
  pub entry : guest_memory_is_executable st.space.segments w.mappings image.entry 4 ≡ true
  pub start_entry :
      guest_memory_is_executable st.space.segments w.mappings image.start_entry 4 ≡ true
  pub break_low : guest_min_address ≤ b.minimum
  pub break_high : b.minimum < guest_max_address
  pub break_fresh : (b.current ≡ b.minimum) × (b.minimum ≡ image.initial_brk)

-- A segment could not be protected, and a place that the rollback has to store to is not writable.
pub record IsFaulted (w : World) (before st : LoadState) : Type 0 where
  pub calls : List HostCall
  pub unprotected :
      guest_memory_finalize w.succeeds st.space.segments calls ≡ (false, st.space.calls)
  pub faults :
      rollback_faults w.succeeds st.space.calls
        (length st.code.patches - length before.code.patches)
        st.code.patches
      ≡ true

-- All, or nothing; or a fault.
abbrev pub AllOrNothing : World → LoadState → LoadEnd → LoadState → Type 0
AllOrNothing w st (failed b) new = Restored st new
AllOrNothing w st (faulted b) new = IsFaulted w st new
AllOrNothing w st (started image b) new = Progress st new × CanStart w new image b

abbrev Finished : World → LoadState → Finish → LoadState → Type 0
Finished w st refused new = Progress st new
Finished w st (unprotected b) new =
    Progress st new
    × ((calls : List HostCall) × (guest_memory_finalize w.succeeds new.space.segments calls
          ≡ (false, new.space.calls)))
Finished w st (finished image b) new = Progress st new × CanStart w new image b

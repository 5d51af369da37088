-- ===== src/MapCalls/Tests.antt =====
-- Tests of the calls that map memory.
use alpine_on_qnx.Prelude.{true, false}
use alpine_on_qnx.MapCalls.Mapped.{is_address}
use alpine_on_qnx.MapCalls.Map.{
  MapRequest, linux_mmap2, map_request, map_flags, place_mapping, fill_mapping, copy_error,
  patch_mapping, register_mapping,
}
use alpine_on_qnx.MapCalls.{translate_protection}
use alpine_on_qnx.Memory.Table.Runtime.{guest_memory_runtime_owned, guest_memory_runtime_map}
use alpine_on_qnx.Words.{align_up}
use alpine_on_qnx.Memory.Table.{
  runtime_range_owned_locked, runtime_replace_locked, compacted_table, compact_items, sort_items,
  compact_item, covered_end, cut, cut_all, insert_item, owned_from, scratch,
}
use alpine_on_qnx.Patch.Sections.{arm_patch_elf_mapping}
use alpine_on_qnx.Patch.{arm_patch_forget_range, forget}
use alpine_on_qnx.Prelude.{◌≡◌, ◌↔◌, refl, none, some, [], ◌∷◌, ◌==◌, if◌then◌else◌, arith}
use alpine_on_qnx.Abi.Errno.{enone, eio, enomem}
use alpine_on_qnx.Words.{align_up}
use alpine_on_qnx.Memory.Table.{mapping_at}
use alpine_on_qnx.Memory.Segments.{mapped_at}
use alpine_on_qnx.MapCalls.Map.{MapAnswers, file_size, linux_mmap2}
use alpine_on_qnx.MapCalls.MapOutcome.{MapOutcome}
use alpine_on_qnx.MapCalls.Mmap.{linux_mmap2_fixed}
use alpine_on_qnx.Memory.Table.Replace.{IsTable}
use alpine_on_qnx.Patch.{arm_linux_svc_0}
use alpine_on_qnx.MapCalls.{AddressSpace, ProtectErrors, linux_mprotect_runtime}
use alpine_on_qnx.MapCalls.Protect.{Kept, linux_mprotect_runtime-Kept}

-- One page that was mapped at run time, with a system call on it.
abbrev one_page : AddressSpace
one_page = record {
  segments = [];
  table = record { start = 0x20000000; end = 0x20001000; executable = 0 } ∷ [];
  code = record { words = λ a. if a == 0x20000010 then arm_linux_svc_0 else 0; patches = [] };
  current = none;
  calls = [];
}

one_page-IsTable : IsTable one_page.table
one_page-IsTable = record {
  in_order = (omega arith, omega arith, omega arith);
  compact = tt;
  fits = omega arith;
}

-- The caches cannot be brought in step.
abbrev no_sync : ProtectErrors
no_sync = record { opening = none; sync = some eio; closing = none; stale = enone }

linux_mprotect_runtime-Kept_example :
    Kept one_page (linux_mprotect_runtime 4096 no_sync 0x20000000 0x800 5 one_page).1
linux_mprotect_runtime-Kept_example =
    linux_mprotect_runtime-Kept 4096 no_sync 0x20000000 0x800 5 one_page one_page-IsTable tt

-- A code page of a file, with one system call on it, is mapped over the page; the table of sections
-- of the file cannot be read.
abbrev page_of_file : MapAnswers
page_of_file = record {
  mapping = mapped_at 0x20000000;
  status = file_size 0x1000;
  read_error = none;
  content = λ i. if i == 0x23 then 0xef else 0;
  shown = λ a. if a == 0x20000020 then arm_linux_svc_0 else 0;
  file = none;
  patch_error = enomem;
  sync = none;
  protect = none;
  stale = enone;
}

-- The first bytes of the file, private and executable.
abbrev page_request : MapRequest
page_request = record {
  requested_length = 0x800;
  mapped_length = 0x1000;
  shared = false;
  anonymous = false;
  protection = record { read = true; write = false; exec = true };
  offset = 0;
}

mapped_again :
    is_address (linux_mmap2 4096 page_of_file 0x20000000 0x800 5 0x12 0 one_page).0 ≡ true
unfolding linux_mmap2 map_request map_flags place_mapping fill_mapping copy_error patch_mapping
    register_mapping translate_protection guest_memory_runtime_owned guest_memory_runtime_map
    align_up runtime_range_owned_locked runtime_replace_locked compacted_table compact_items
    sort_items compact_item covered_end cut cut_all insert_item owned_from scratch
    arm_patch_elf_mapping arm_patch_forget_range forget
mapped_again = refl

linux_mmap2_fixed_example :
    (mapping_at
        (linux_mmap2 4096 page_of_file 0x20000000 0x800 5 0x12 0 one_page).1.table
        0x20000400
      ≡ none)
    ↔ (mapping_at one_page.table 0x20000400 ≡ none)
linux_mmap2_fixed_example =
    linux_mmap2_fixed 4096 page_of_file 0x20000000 0x800 5 0x12 0 one_page 0x20000400
      one_page-IsTable tt refl refl mapped_again

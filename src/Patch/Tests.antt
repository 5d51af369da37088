-- ===== src/Patch/Tests.antt =====
-- Tests of the patching of code.
use alpine_on_qnx.Prelude.{
  ◌+◌, ◌<◌, ◌≡◌, refl, true, false, Option, none, ◌==◌, length, arith, [], if◌then◌else◌,
}
use alpine_on_qnx.Patch.{
  Code, is_trapped, patch_word, patch_words, arm_patch_range, arm_patch_rollback, arm_linux_svc_0,
  arm_tpidruro_read,
}
use alpine_on_qnx.Patch.Guest.{IsCoherent, guest_word}
use alpine_on_qnx.Patch.Range.{arm_patch_range_unseen}
use alpine_on_qnx.Patch.Undo.{arm_patch_rollback-range}
use alpine_on_qnx.Elf.Types.{SectionHeader}
use alpine_on_qnx.Patch.Sections.{skipped, patch_bounds}
use alpine_on_qnx.Abi.Errno.{Errno}

-- At 0x8000 stand `svc #0`, a word that is none of the trapped ones, and a read of TPIDRURO.
abbrev before : Code
before = record {
  words = λ a.
      if a == 0x8000
      then arm_linux_svc_0
      else if a == 0x8008
      then arm_tpidruro_read
      else 0xe1a00000;
  patches = [];
}

abbrev patched : Option Errno × Code
patched = arm_patch_range 0x8000 12 before

succeeds : patched.0 ≡ none
unfolding arm_patch_range patch_words patch_word is_trapped
succeeds = refl

two_records : length patched.1.patches ≡ 2
unfolding arm_patch_range patch_words patch_word is_trapped
two_records = refl

trapped : is_trapped (before.words 0x8008) ≡ true
unfolding is_trapped
trapped = refl

abbrev code_section : SectionHeader
code_section = record {
  sh_type = 1;
  sh_flags = 6;
  sh_addr = 0x8000;
  sh_offset = 0x1002;
  sh_size = 0x20;
  sh_addralign = 4;
}

used : skipped 0x1000 (0x1000 + 0x1000) code_section ≡ false
unfolding skipped
used = refl

some_words :
    (patch_bounds 0x20000000 0x1000 (0x1000 + 0x1000) code_section).0
    < (patch_bounds 0x20000000 0x1000 (0x1000 + 0x1000) code_section).1
unfolding patch_bounds
some_words = omega arith

arm_patch_range_unseen_example :
    let new = (arm_patch_range 0x8000 12 before).1 in
    (guest_word new 0x8008 ≡ guest_word before 0x8008) × IsCoherent new.words new.patches
arm_patch_range_unseen_example = arm_patch_range_unseen 0x8000 12 before 0x8008 tt

arm_patch_rollback-range_example :
    arm_patch_rollback
      (length before.patches)
      (arm_patch_range 0x9000 8 (arm_patch_range 0x8000 12 before).1).1
    ≡ before
arm_patch_rollback-range_example = arm_patch_rollback-range 0x8000 12 0x9000 8 before

-- ===== src/Patch.antt =====
-- src/arm_patch.c: Linux system calls and TLS reads in guest code are replaced by a trapping
-- instruction, and the words that were there are kept in a table.
pub mod Guest
pub mod Undo
pub mod Range
pub mod Sections
pub mod Forget
mod Tests
use Prim.Native.Nat.{bit_and}
use alpine_on_qnx.Prelude.{
  ℕ, zero, suc, ◌+◌, ◌-◌, ◌*◌, ◌/◌, ◌%◌, ◌<◌, Bool, true, false, not, ◌&&◌, ◌||◌, Option, none,
  some, List, [], ◌∷◌, ltb, leb, ◌==◌, if◌then◌else◌, length,
}
use alpine_on_qnx.Words.{uintptr_max}
use alpine_on_qnx.Abi.Errno.{Errno, enoexec, e2big}

abbrev pub arm_linux_svc_0 : ℕ
arm_linux_svc_0 = 0xef000000

abbrev pub arm_tpidruro_mask : ℕ
arm_tpidruro_mask = 0xffff0fff

abbrev pub arm_tpidruro_read : ℕ
arm_tpidruro_read = 0xee1d0f70

abbrev pub arm_udf_trap : ℕ
arm_udf_trap = 0xe7f000f0

abbrev pub max_patches : ℕ
max_patches = 4096

-- `struct patch_record`
pub record PatchRecord : Type 0 where
  pub address : ℕ
  pub original : ℕ

-- The 32-bit words of memory, and `patches` with `patch_count`, the last record first.
pub record Code : Type 0 where
  pub words : ℕ → ℕ
  pub patches : List PatchRecord

-- The test of `arm_patch_range` that lets a word be replaced.
unfoldable pub is_trapped : ℕ → Bool
is_trapped word = word == arm_linux_svc_0 || bit_and word arm_tpidruro_mask == arm_tpidruro_read

abbrev pub store : (ℕ → ℕ) → ℕ → ℕ → ℕ → ℕ
store words address value a = if a == address then value else words a

-- One round of the loop; `none` is the error E2BIG.
unfoldable pub patch_word : ℕ → Code → Option Code
patch_word address c =
    let word = c.words address in
    if not (is_trapped word)
    then some c
    else if length c.patches == max_patches
    then none
    else some (record {
      words = store c.words address arm_udf_trap;
      patches = record { address = address; original = word } ∷ c.patches;
    })

-- The loop, on the number of words to go.
unfoldable pub patch_words : ℕ → ℕ → Code → Option Errno × Code
patch_words zero address c = (none, c)
patch_words (suc n) address c = elim (patch_word address c) [
  | none ↦ (some e2big, c)
  | some next ↦ patch_words n (address + 4) next
]

-- `x & 3u` is `x % 4`. An aligned range that does not pass UINTPTR_MAX has `length / 4` words.
unfoldable pub arm_patch_range : ℕ → ℕ → Code → Option Errno × Code
arm_patch_range start len c =
    if not (start % 4 == 0) || not (len % 4 == 0) || ltb (uintptr_max - start) len
    then (some enoexec, c)
    else patch_words (len / 4) start c

-- The first record of the array for an address, which is the last one of the list.
unfoldable pub arm_patch_original : ℕ → List PatchRecord → Option ℕ
arm_patch_original a [] = none
arm_patch_original a (p ∷ older) = elim (arm_patch_original a older) [
  | some word ↦ some word
  | none ↦ if p.address == a then some p.original else none
]

unfoldable pub forget : ℕ → ℕ → List PatchRecord → List PatchRecord
forget start end [] = []
forget start end (p ∷ rest) =
    if ltb p.address start || leb end p.address
    then p ∷ forget start end rest
    else forget start end rest

unfoldable pub arm_patch_forget_range : ℕ → ℕ → Code → Code
unfolding forget
arm_patch_forget_range address len c =
    let end = if ltb (uintptr_max - address) len then uintptr_max else address + len in
    record c { patches = forget address end c.patches }

-- The loop of `arm_patch_rollback`, on the number of records to take back.
unfoldable pub rollback_by : ℕ → (ℕ → ℕ) → List PatchRecord → Code
rollback_by zero words patches = record { words = words; patches = patches }
rollback_by (suc n) words [] = record { words = words; patches = [] }
rollback_by (suc n) words (p ∷ rest) = rollback_by n (store words p.address p.original) rest

unfoldable pub arm_patch_rollback : ℕ → Code → Code
unfolding rollback_by
arm_patch_rollback retained_count c =
    rollback_by (length c.patches - retained_count) c.words c.patches

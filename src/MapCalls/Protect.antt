-- ===== src/MapCalls/Protect.antt =====
-- src/linux_syscall.c with src/arm_patch.c and src/guest_memory.c: mprotect.
use alpine_on_qnx.Prelude.{
  ℕ, ◌≡◌, ◌⊎◌, inl, inr, refl, sym, ap, subst, ◌∙◌, Bool, true, false, not, ◌&&◌, Option, none,
  some, length, if◌then◌else◌, Bool-cases, Option-cases,
}
use alpine_on_qnx.Words.{align_up}
use alpine_on_qnx.Abi.Errno.{Errno}
use alpine_on_qnx.Memory.Table.Replace.{IsTable}
use alpine_on_qnx.Memory.Table.Runtime.{
  guest_memory_runtime_owned, guest_memory_runtime_protect-IsTable,
}
use alpine_on_qnx.Memory.Segments.{Protection}
use alpine_on_qnx.Memory.Query.{guest_memory_range_owned, guest_memory_is_executable}
use alpine_on_qnx.Patch.{Code, arm_patch_range, arm_patch_rollback}
use alpine_on_qnx.Patch.Guest.{IsCoherent, guest_word}
use alpine_on_qnx.Patch.Undo.{rollback-Undone, arm_patch_range-Undone}
use alpine_on_qnx.Patch.Range.{arm_patch_range_unseen}
use alpine_on_qnx.MapCalls.{
  AddressSpace, ProtectErrors, translate_protection, bad_pages, protect_host, protect_segment,
  patch_code, change_protection, protect_runtime, linux_mprotect_runtime,
}

-- The program that the guest sees is the same at every address, and both tables are in order.
pub record Kept (s new : AddressSpace) : Type 0 where
  pub table : IsTable new.table
  pub words : (a : ℕ) → guest_word new.code a ≡ guest_word s.code a
  pub coherent : IsCoherent new.code.words new.code.patches

-- What `patch_code` leaves: the patched code, or the code as it was.
pub data Patching (s : AddressSpace) (address len : ℕ) : Option Errno × AddressSpace → Type 0 where
  patched :
      (new : AddressSpace)
      → new.table ≡ s.table
      → new.code ≡ (arm_patch_range address len s.code).1
      → (arm_patch_range address len s.code).0 ≡ none
      → Patching s address len (none, new)
  rolled_back :
      (e : Errno) (new : AddressSpace)
      → new.table ≡ s.table
      → new.code ≡ s.code
      → Patching s address len (some e, new)

undone :
    (address len : ℕ) (c : Code)
    → arm_patch_rollback (length c.patches) (arm_patch_range address len c).1 ≡ c
undone address len c = rollback-Undone (arm_patch_range-Undone address len c)

patch_code-Patching :
    (errors : ProtectErrors) (address len : ℕ) (p : Protection) (s : AddressSpace)
    → Patching s address len (patch_code errors address len p s)
unfolding patch_code
patch_code-Patching errors address len p s = elim (Option-cases errors.opening) [
  | inr (e, opening) ↦ rw (opening, patch_code) (rolled_back e s refl refl)
  | inl opening ↦ elim (Option-cases (arm_patch_range address len s.code).0) [
    | inr (e, full) ↦
        rw (opening, full, patch_code) (rolled_back e _ refl (undone address len s.code))
    | inl all ↦ elim (Option-cases errors.sync) [
      | inr (e, sync) ↦
          rw (opening, all, sync, patch_code) (rolled_back e _ refl (undone address len s.code))
      | inl sync ↦ rw (opening, all, sync, patch_code) (patched _ refl refl all)
    ]
  ]
]

Kept-code :
    (s mid new : AddressSpace)
    → Kept s mid
    → new.table ≡ mid.table
    → (new.code ≡ mid.code) ⊎ (new.code ≡ s.code)
    → IsCoherent s.code.words s.code.patches
    → Kept s new
Kept-code s mid new k t (inl e) c = record {
  table = subst IsTable (sym t) k.table;
  words = λ a. ap (λ x. guest_word x a) e ∙ k.words a;
  coherent = subst (λ (x : Code). IsCoherent x.words x.patches) (sym e) k.coherent;
}
Kept-code s mid new k t (inr e) c = record {
  table = subst IsTable (sym t) k.table;
  words = λ a. ap (λ x. guest_word x a) e;
  coherent = subst (λ (x : Code). IsCoherent x.words x.patches) (sym e) c;
}

change_protection-Kept :
    (errors : ProtectErrors) (address len : ℕ) (p : Protection) (count : ℕ) (s mid : AddressSpace)
    → IsCoherent s.code.words s.code.patches
    → Kept s mid
    → (arm_patch_rollback count mid.code ≡ s.code) ⊎ (p.exec ≡ false)
    → Kept s (change_protection errors address len p count mid).1
unfolding change_protection
change_protection-Kept errors address len p count s mid c k back =
    elim (Option-cases errors.closing) [
      | inr (e, closing) ↦ elim (Bool-cases p.exec) [
        | inl x ↦ elim back [
          | inl b ↦ rw (closing, change_protection, x) (Kept-code s mid _ k refl (inr b) c)
          | inr y ↦ absurd (cc (x, y))
        ]
        | inr x ↦ rw (closing, change_protection, x) (Kept-code s mid _ k refl (inl refl) c)
      ]
      | inl closing ↦
          let flag = if p.exec then 1 else 0 in
          rw (closing, change_protection)
            (record {
              table = guest_memory_runtime_protect-IsTable mid.table address len flag k.table;
              words = k.words;
              coherent = k.coherent;
            })
    ]

patched-Kept :
    (s : AddressSpace) (address len : ℕ) (r : Option Errno × AddressSpace)
    → IsTable s.table
    → IsCoherent s.code.words s.code.patches
    → Patching s address len r
    → Kept s r.1 × ((r.0 ≡ none) → arm_patch_rollback (length s.code.patches) r.1.code ≡ s.code)
patched-Kept s address len r t c (patched new et ec all) = (
  record {
    table = subst IsTable (sym et) t;
    words = λ a. ap (λ x. guest_word x a) ec ∙ (arm_patch_range_unseen address len s.code a c).0;
    coherent =
        subst (λ (x : Code). IsCoherent x.words x.patches) (sym ec)
          (arm_patch_range_unseen address len s.code 0 c).1;
  },
  λ e. ap (λ x. arm_patch_rollback (length s.code.patches) x) ec ∙ undone address len s.code,
)
patched-Kept s address len r t c (rolled_back e new et ec) = (
  record {
    table = subst IsTable (sym et) t;
    words = λ a. ap (λ x. guest_word x a) ec;
    coherent = subst (λ (x : Code). IsCoherent x.words x.patches) (sym ec) c;
  },
  λ no. absurd (cc no),
)

-- A branch is taken where its test says so.
branch-Kept :
    (s : AddressSpace) (b : Bool) (x y : Option Errno × AddressSpace)
    → (b ≡ true → Kept s x.1)
    → (b ≡ false → Kept s y.1)
    → Kept s (if b then x else y).1
branch-Kept s true x y f g = f refl
branch-Kept s false x y f g = g refl

protect_runtime-Kept :
    (errors : ProtectErrors) (address len : ℕ) (p : Protection) (s : AddressSpace)
    → IsTable s.table
    → IsCoherent s.code.words s.code.patches
    → Kept s (protect_runtime errors address len p s).1
unfolding protect_runtime
protect_runtime-Kept errors address len p s t c =
    let same : Kept s s = record { table = t; words = λ a. refl; coherent = c } in
    let count = length s.code.patches in
    let (kept, back) =
      patched-Kept s address len (patch_code errors address len p s) t c
        (patch_code-Patching errors address len p s) in
    branch-Kept s p.exec _ _
      (λ x. elim (Option-cases (patch_code errors address len p s).0) [
        | inr (e, failed) ↦ rw failed kept
        | inl all ↦
            rw all (change_protection-Kept errors address len p count s _ c kept (inl (back all)))
      ])
      (λ x. change_protection-Kept errors address len p count s s c same (inr x))

protect_host-Kept :
    (errors : ProtectErrors) (address len : ℕ) (p : Protection) (s : AddressSpace)
    → Kept s s
    → Kept s (protect_host errors address len p s).1
unfolding protect_host
protect_host-Kept errors address len p s k = elim (Option-cases errors.closing) [
  | inr (e, closing) ↦ rw (closing, protect_host) k
  | inl closing ↦
      rw (closing, protect_host)
        (record { table = k.table; words = k.words; coherent = k.coherent })
]

protect_segment-Kept :
    (errors : ProtectErrors) (address len : ℕ) (p : Protection) (s : AddressSpace)
    → Kept s s
    → Kept s (protect_segment errors address len p s).1
unfolding protect_segment
protect_segment-Kept errors address len p s k =
    let owned = guest_memory_range_owned s.segments s.table address len in
    let code = guest_memory_is_executable s.segments s.table address len in
    elim (Bool-cases owned) [
      | inr a ↦ rw a k
      | inl a ↦ elim (Bool-cases (p.exec && not code)) [
        | inl b ↦ rw (a, b) k
        | inr b ↦ rw (a, b) (protect_host-Kept errors address len p s k)
      ]
    ]

-- However mprotect ends, on whichever kind of range, and wherever the host or the table of patches
-- fails it, the guest's program is the same at every address and both tables stay in order.
pub linux_mprotect_runtime-Kept :
    (page_size : ℕ) (errors : ProtectErrors) (address len linux_protection : ℕ) (s : AddressSpace)
    → IsTable s.table
    → IsCoherent s.code.words s.code.patches
    → Kept s (linux_mprotect_runtime page_size errors address len linux_protection s).1
unfolding linux_mprotect_runtime
linux_mprotect_runtime-Kept page_size errors address len linux_protection s t c =
    let same : Kept s s = record { table = t; words = λ a. refl; coherent = c } in
    let mapped_length = align_up len page_size in
    elim (Option-cases (translate_protection linux_protection)) [
      | inl bits ↦ rw (bits, linux_mprotect_runtime) same
      | inr (p, bits) ↦ elim (Bool-cases (bad_pages page_size address len)) [
        | inl bad ↦ rw (bits, linux_mprotect_runtime, bad) same
        | inr good ↦ elim (Bool-cases (guest_memory_runtime_owned s.table address mapped_length)) [
          | inl owned ↦
              rw (bits, linux_mprotect_runtime, good, owned)
                (protect_runtime-Kept errors address mapped_length p s t c)
          | inr other ↦
              rw (bits, linux_mprotect_runtime, good, other)
                (protect_segment-Kept errors address mapped_length p s same)
        ]
      ]
    ]

-- ===== src/MapCalls/MapOutcome.antt =====
-- src/linux_syscall.c: how linux_mmap2 can end once its arguments are checked.
use alpine_on_qnx.Memory.Table.{mapping_at}
use alpine_on_qnx.MapCalls.Mapped.{
  is_address, host_maps, HostRange, mmap-HostRange, munmap-HostRange, Undone, Made, Filled,
  shown_code, shown_code-Aside, Filled-give_up, patch_mapping-Filled,
}
use alpine_on_qnx.Prelude.{
  ℕ, ◌+◌, ◌≤◌, ◌≡◌, ◌⊎◌, refl, sym, subst, ◌∙◌, inl, inr, Bool, true, false, none, some,
  if◌then◌else◌, Bool-cases, Option-cases, arith,
}
use alpine_on_qnx.Words.{uintptr_max}
use alpine_on_qnx.Abi.Errno.{Errno}
use alpine_on_qnx.Memory.Table.{mapping_at}
use alpine_on_qnx.Memory.Table.Replace.{IsTable}
use alpine_on_qnx.Memory.Table.Runtime.{
  Status, guest_memory_runtime_map, guest_memory_runtime_map-IsTable,
}
use alpine_on_qnx.Memory.Table.Refine.{update_range, is_done, runtime_map_view}
use alpine_on_qnx.Memory.Segments.{
  mmap, munmap, mprotect, msync, guest_min_address, guest_max_address, MmapResult, map_failed,
  mapped_at,
}
use alpine_on_qnx.Patch.{arm_patch_forget_range}
use alpine_on_qnx.Patch.Guest.{IsCoherent}
use alpine_on_qnx.MapCalls.{AddressSpace, status_error, logged}
use alpine_on_qnx.MapCalls.Map.{
  MapEnd, address, constant, number, MapAnswers, MapRequest, shown_words, reprotects, copy_error,
  give_up, exec_flag, register_mapping, patch_mapping, fill_mapping, misplaced, place_mapping,
}

-- A call is refused with nothing done, or its mapping is given back, or it is made.
pub data MapOutcome (len executable : ℕ) (placed : MmapResult) (shown : ℕ → ℕ → ℕ)
    (s : AddressSpace) : MapEnd × AddressSpace → Type 0 where
  refused :
      (end : MapEnd) → is_address end ≡ false → MapOutcome len executable placed shown s (end, s)
  undone :
      (end : MapEnd) (at : ℕ) (new : AddressSpace)
      → is_address end ≡ false
      → placed ≡ mapped_at at
      → Undone at len s new
      → MapOutcome len executable placed shown s (end, new)
  made :
      (at : ℕ) (new : AddressSpace)
      → placed ≡ mapped_at at
      → Made at len executable (shown at) s new
      → MapOutcome len executable placed shown s (address at, new)

status-cases :
    (stale : Errno) (status : Status)
    → ((e : Errno) × (status_error stale status ≡ some e) × (is_done status ≡ false))
      ⊎ ((status_error stale status ≡ none) × (is_done status ≡ true))
status-cases stale Status.done = inr (refl, refl)
status-cases stale Status.not_owned = inl (stale, refl, refl)
status-cases stale Status.invalid = inl (Errno.einval, refl, refl)
status-cases stale Status.no_memory = inl (Errno.enomem, refl, refl)

-- The same table, code and mappings of the host.
record Carried (s new : AddressSpace) : Type 0 where
  table : new.table ≡ s.table
  code : new.code ≡ s.code
  host : (a : ℕ) → host_maps new.calls a ≡ host_maps s.calls a

Carried-if :
    (s x y : AddressSpace) (b : Bool) → Carried s x → Carried s y → Carried s (if b then x else y)
Carried-if s x y true p q = p
Carried-if s x y false p q = q

-- What is known of the state in which a filled mapping is to be registered.
record Ready (at len : ℕ) (shown : ℕ → ℕ) (s mid : AddressSpace) : Type 0 where
  table : mid.table ≡ s.table
  filled : Filled at len shown s.code mid.code
  host : HostRange at len true s.calls mid.calls

Ready-Carried :
    {at len : ℕ} {shown : ℕ → ℕ} {s mid new : AddressSpace}
    → Ready at len shown s mid
    → Carried mid new
    → Ready at len shown s new
Ready-Carried {at} {len} {shown} {s} {mid} {new} r c = record {
  table = c.table ∙ r.table;
  filled = subst (Filled at len shown s.code) (sym c.code) r.filled;
  host = record {
    in_range = λ a le lt. c.host a ∙ r.host.in_range a le lt;
    elsewhere = λ a out. c.host a ∙ r.host.elsewhere a out;
  };
}

given_up :
    {at len : ℕ} {shown : ℕ → ℕ} {s mid : AddressSpace}
    → at + len ≤ uintptr_max
    → Ready at len shown s mid
    → Undone at len s (give_up at len mid)
unfolding arm_patch_forget_range
given_up {at} {len} {shown} {s} {mid} le r = record {
  table = r.table;
  host = munmap-HostRange at len s.calls mid.calls r.host;
  aside = Filled-give_up at len shown s.code mid.code le r.filled;
}

module _ (answers : MapAnswers) (r : MapRequest) (at : ℕ) (s mid : AddressSpace)
    (low : guest_min_address ≤ at) (high : at + r.mapped_length ≤ guest_max_address)
    (ready : Ready at r.mapped_length (shown_words answers r at) s mid) (placement : MmapResult)
    (placed : placement ≡ mapped_at at) where
  abbrev len : ℕ
  len = r.mapped_length

  abbrev synced : AddressSpace
  synced = if r.protection.exec then logged (msync at len) mid else mid

  abbrev reprotected : AddressSpace
  reprotected = if reprotects r then logged (mprotect at len r.protection) synced else synced

  same : Carried mid mid
  same = record { table = refl; code = refl; host = λ a. refl }

  synced-Carried : Carried mid synced
  synced-Carried =
      Carried-if mid (logged (msync at len) mid) mid r.protection.exec
        (record { table = refl; code = refl; host = λ a. refl }) same

  reprotected-Carried : Carried mid reprotected
  reprotected-Carried =
      let c = synced-Carried in
      Carried-if mid (logged (mprotect at len r.protection) synced) synced (reprotects r)
        (record { table = c.table; code = c.code; host = c.host }) c

  give_up-MapOutcome :
      (end : MapEnd) (new : AddressSpace)
      → is_address end ≡ false
      → Carried mid new
      → MapOutcome len (exec_flag r) placement (shown_words answers r) s (end, give_up at len new)
  give_up-MapOutcome end new failed c =
      undone end at _ failed placed (given_up (omega arith) (Ready-Carried ready c))

  register_mapping-MapOutcome :
      MapOutcome len
        (exec_flag r)
        placement
        (shown_words answers r)
        s
        (register_mapping answers r at mid)
  unfolding register_mapping
  register_mapping-MapOutcome =
      let result = guest_memory_runtime_map mid.table at len (exec_flag r) in
      let now = Ready-Carried ready reprotected-Carried in
      elim (Option-cases (if r.protection.exec then answers.sync else none)) [
        | inr (e, f) ↦ rw (f, register_mapping) (give_up-MapOutcome (number e) mid refl same)
        | inl f ↦ elim (Option-cases (if reprotects r then answers.protect else none)) [
          | inr (e, g) ↦
              rw (f, g, register_mapping) (give_up-MapOutcome (number e) synced refl synced-Carried)
          | inl g ↦ elim (status-cases answers.stale result.0) [
            | inl (e, h, full) ↦
                rw (f, g, h, register_mapping)
                  (give_up-MapOutcome (number e) reprotected refl reprotected-Carried)
            | inr (h, done) ↦
                rw (f, g, h, register_mapping)
                  (made at _ placed (record {
                    low = low;
                    high = high;
                    table = λ t.
                        guest_memory_runtime_map-IsTable mid.table at len (exec_flag r)
                          (subst IsTable (sym ready.table) t);
                    view = λ t a.
                        subst
                          (λ old.
                            mapping_at result.1 a
                            ≡ update_range (mapping_at old) at len (some (exec_flag r)) a)
                          ready.table
                          (runtime_map_view mid.table at len (exec_flag r)
                            (subst IsTable (sym ready.table) t) done a);
                    host = now.host;
                    beside = now.filled.beside;
                    within = now.filled.within;
                    coherent = now.filled.coherent;
                  }))
          ]
        ]
      ]

failed_copy :
    (answers : MapAnswers) (r : MapRequest) (end : MapEnd)
    → copy_error answers r ≡ some end
    → is_address end ≡ false
unfolding copy_error
failed_copy answers r end h = ground arith

-- Whatever the host answers and wherever its mapping lies, the rest of the call either does nothing,
-- or gives the mapping back, or makes it.
pub place_mapping-MapOutcome :
    (answers : MapAnswers) (r : MapRequest) (s : AddressSpace)
    → IsCoherent s.code.words s.code.patches
    → MapOutcome r.mapped_length
        (exec_flag r)
        answers.mapping
        (shown_words answers r)
        s
        (place_mapping answers r s)
unfolding place_mapping fill_mapping
place_mapping-MapOutcome answers r s c = place answers.mapping refl
  where
    place :
        (result : MmapResult)
        → answers.mapping ≡ result
        → MapOutcome r.mapped_length
            (exec_flag r)
            result
            (shown_words answers r)
            s
            (place_mapping answers r s)
    place (map_failed e) f = rw (f, place_mapping) (refused (number e) refl)
    place (mapped_at at) f =
        let len = r.mapped_length in
        let shown = shown_words answers r at in
        let bare = shown_code at len shown s.code c in
        let mapped : AddressSpace = record (logged (mmap at len) s) { code = bare } in
        let back : Undone at len s (logged (munmap at len) mapped) = record {
          table = refl;
          host = munmap-HostRange at len s.calls _ (mmap-HostRange at len s.calls);
          aside = shown_code-Aside at len shown s.code c;
        } in
        let patch = patch_mapping answers r at bare in
        elim (Bool-cases (misplaced at len)) [
          | inl out ↦
              rw (f, place_mapping, out) (undone (constant Errno.enomem) at _ refl refl back)
          | inr inside ↦
              let low : guest_min_address ≤ at = ground arith in
              let high : at + len ≤ guest_max_address = ground arith in
              let filled =
                patch_mapping-Filled at len shown answers r s.code c refl (omega arith) in
              let ready : Ready at len shown s (record mapped { code = patch.1 }) = record {
                table = refl;
                filled = filled;
                host = mmap-HostRange at len s.calls;
              } in
              elim (Option-cases (copy_error answers r)) [
                | inr (end, failed) ↦
                    rw (f, place_mapping, inside, failed, fill_mapping)
                      (undone end at _ (failed_copy answers r end failed) refl back)
                | inl copied ↦ elim (Bool-cases patch.0) [
                  | inl ok ↦
                      rw (f, place_mapping, inside, copied, fill_mapping, ok)
                        (register_mapping-MapOutcome answers r at s _ low high ready _ refl)
                  | inr full ↦
                      rw (f, place_mapping, inside, copied, fill_mapping, full)
                        (undone (number answers.patch_error) at _ refl refl
                          (given_up (omega arith) ready))
                ]
              ]
        ]

-- ===== src/MapCalls/Mmap.antt =====
-- src/linux_syscall.c: linux_mmap2 as a whole.
use alpine_on_qnx.Prelude.{◌≢◌, ◌↔◌}
use alpine_on_qnx.Memory.Table.{mapping_at}
use alpine_on_qnx.Memory.Table.Owned.{runtime_range_owned_locked_iff}
use alpine_on_qnx.MapCalls.Mapped.{is_address, Made}
use alpine_on_qnx.Prelude.{
  ℕ, ◌+◌, ◌≡◌, ◌⊎◌, refl, sym, subst, ◌∙◌, inl, inr, true, false, ◌&&◌, none, List, ltb, leb,
  if◌then◌else◌, Bool-cases, arith,
}
use alpine_on_qnx.Abi.Errno.{Errno}
use alpine_on_qnx.Memory.Table.{Mapping, mapping_at}
use alpine_on_qnx.Memory.Table.Replace.{IsTable}
use alpine_on_qnx.Memory.Segments.{MmapResult, mapped_at}
use alpine_on_qnx.Patch.Guest.{IsCoherent}
use alpine_on_qnx.MapCalls.{AddressSpace}
use alpine_on_qnx.MapCalls.Map.{
  MapEnd, constant, MapAnswers, MapRequest, shown_words, exec_flag, place_mapping,
}
use alpine_on_qnx.Words.{align_up, has_flag}
use alpine_on_qnx.Memory.Table.Runtime.{guest_memory_runtime_owned}
use alpine_on_qnx.MapCalls.{translate_protection}
use alpine_on_qnx.MapCalls.Map.{map_request, linux_map_fixed, linux_mmap2}
use alpine_on_qnx.MapCalls.MapOutcome.{MapOutcome, refused, undone, made, place_mapping-MapOutcome}

-- What is known of arguments that pass the checks.
record Asked (page_size : ℕ) (table : List Mapping)
    (requested_address length linux_protection flags : ℕ) (r : MapRequest) : Type 0 where
  mapped_length : r.mapped_length ≡ align_up length page_size
  executable : exec_flag r ≡ (if has_flag linux_protection 4 then 1 else 0)
  one_kind : r.shared && r.protection.exec ≡ false
  owned :
      has_flag flags linux_map_fixed ≡ true
      → guest_memory_runtime_owned table requested_address (align_up length page_size) ≡ true

module _ (page_size : ℕ) (table : List Mapping)
    (requested_address length linux_protection flags page_offset : ℕ) where
  map_request-Asked :
      (r : MapRequest)
      → map_request page_size table requested_address length linux_protection flags page_offset
        ≡ inr r
      → Asked page_size table requested_address length linux_protection flags r
  unfolding map_request translate_protection
  map_request-Asked r h = record {
    mapped_length = ground arith;
    executable = ground arith;
    one_kind = ground arith;
    owned = λ fixed. ground arith;
  }

mapped_at-injective : {a b : ℕ} → mapped_at a ≡ mapped_at b → a ≡ b
mapped_at-injective e = ground (arith, e)

outcome_of :
    {len executable : ℕ} {placed : MmapResult} {shown : ℕ → ℕ → ℕ} {s : AddressSpace}
    {r : MapEnd × AddressSpace}
    → MapOutcome len executable placed shown s r
    → is_address r.0 ≡ true
    → (at : ℕ) × (placed ≡ mapped_at at) × Made at len executable (shown at) s r.1
outcome_of (refused end e) h = absurd (cc (e, h))
outcome_of (undone end at new e placed u) h = absurd (cc (e, h))
outcome_of (made at new placed m) h = (at, placed, m)

owned_mapped :
    (ms : List Mapping) (at len a : ℕ)
    → guest_memory_runtime_owned ms at len ≡ true
    → leb at a && ltb a (at + len) ≡ true
    → mapping_at ms a ≢ none
unfolding guest_memory_runtime_owned
owned_mapped ms at len a h within =
    (runtime_range_owned_locked_iff at (at + len) ms).0 (ground arith) a (ground arith)
      (ground arith)

-- The words of a mapping that a checked call asks for.
abbrev pub words_asked : MapAnswers → Errno ⊎ MapRequest → ℕ → ℕ → ℕ
words_asked answers (inl e) at a = 0
words_asked answers (inr r) at a = shown_words answers r at a

module _ (page_size : ℕ) (answers : MapAnswers)
    (requested_address length linux_protection flags page_offset : ℕ) (s : AddressSpace) where
  abbrev requested : Errno ⊎ MapRequest
  requested =
      map_request page_size s.table requested_address length linux_protection flags page_offset

  abbrev result : MapEnd × AddressSpace
  result =
      linux_mmap2 page_size answers requested_address length linux_protection flags page_offset s

  -- The words that the mapping shows at its address.
  abbrev asked_words : ℕ → ℕ → ℕ
  asked_words = words_asked answers requested

  abbrev whole_pages : ℕ
  whole_pages = align_up length page_size

  abbrev executable_bit : ℕ
  executable_bit = if has_flag linux_protection 4 then 1 else 0

  asked :
      (r : MapRequest)
      → requested ≡ inr r
      → Asked page_size s.table requested_address length linux_protection flags r
  asked r h =
      map_request-Asked page_size s.table requested_address length linux_protection flags
        page_offset r h

  pub linux_mmap2-MapOutcome :
      IsCoherent s.code.words s.code.patches
      → MapOutcome whole_pages executable_bit answers.mapping asked_words s result
  unfolding linux_mmap2
  linux_mmap2-MapOutcome c = ending requested refl
    where
      ending :
          (a : Errno ⊎ MapRequest)
          → requested ≡ a
          → MapOutcome whole_pages executable_bit answers.mapping (words_asked answers a) s result
      ending (inl e) h = rw (h, linux_mmap2) (refused (constant e) refl)
      ending (inr r) h =
          let known = asked r h in
          rw (h, linux_mmap2)
            (subst
              (λ (t : ℕ).
                MapOutcome t executable_bit answers.mapping (shown_words answers r) s
                  (place_mapping answers r s))
              known.mapped_length
              (subst
                (λ (x : ℕ).
                  MapOutcome r.mapped_length x answers.mapping (shown_words answers r) s
                    (place_mapping answers r s))
                known.executable (place_mapping-MapOutcome answers r s c)))

  owned_if_placed :
      has_flag flags linux_map_fixed ≡ true
      → is_address result.0 ≡ true
      → guest_memory_runtime_owned s.table requested_address whole_pages ≡ true
  unfolding linux_mmap2
  owned_if_placed fixed done = ending requested refl
    where
      ending :
          (a : Errno ⊎ MapRequest)
          → requested ≡ a
          → guest_memory_runtime_owned s.table requested_address whole_pages ≡ true
      ending (inl e) h = absurd (cc (rw (h, linux_mmap2) at done))
      ending (inr r) h = (asked r h).owned fixed

  -- With a table in order and coherent patches, a mapping at a fixed address, which the host puts at
  -- that address, is made only over bytes that are mapped already: at every address the table has a
  -- mapping after a call that succeeds exactly if it had one before.
  pub linux_mmap2_fixed :
      (a : ℕ)
      → IsTable s.table
      → IsCoherent s.code.words s.code.patches
      → has_flag flags linux_map_fixed ≡ true
      → answers.mapping ≡ mapped_at requested_address
      → is_address result.0 ≡ true
      → (mapping_at result.1.table a ≡ none) ↔ (mapping_at s.table a ≡ none)
  linux_mmap2_fixed a t c fixed placed done =
      let (at, there, m) = outcome_of (linux_mmap2-MapOutcome c) done in
      let same : at ≡ requested_address = mapped_at-injective (sym there ∙ placed) in
      let e = m.view t a in
      elim (Bool-cases (leb requested_address a && ltb a (requested_address + whole_pages))) [
        | inr out ↦ ground (arith, same, e)
        | inl within ↦
            let before =
              owned_mapped s.table requested_address whole_pages a (owned_if_placed fixed done)
                within in
            ((λ gone. absurd (ground (arith, same, e))), (λ gone. absurd (before gone)))
      ]

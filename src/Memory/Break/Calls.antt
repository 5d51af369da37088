-- ===== src/Memory/Break/Calls.antt =====
-- src/guest_memory.c: what `guest_brk_set` returns, and what it leaves.
use alpine_on_qnx.Prelude.{ℕ, ◌≡◌, ◌⊎◌}
use alpine_on_qnx.Words.{IsPage}
use alpine_on_qnx.Memory.Break.{Break}

module _ {page_size : ℕ} (page : IsPage page_size) where
  -- The new break is the one asked for, or nothing but the record of host calls has changed.
  abbrev pub Moved : ℕ → Break → Break → Type 0
  Moved requested b new =
      (new.current ≡ requested)
      ⊎ ((new.current ≡ b.current) × (new.mapping_end ≡ b.mapping_end) × (new.table ≡ b.table))

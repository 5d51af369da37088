-- ===== src/Memory/Table/Cut.antt =====
-- The first loop of `runtime_replace_locked`: what remains of a table outside a range.
use alpine_on_qnx.Prelude.{
  min, ℕ, suc, ◌≤◌, ◌<◌, ◌≡◌, refl, none, List, [], ◌∷◌, ◌⊎◌, leb, ltb, ◌&&◌, if◌then◌else◌, length,
  arith,
}
use alpine_on_qnx.Memory.Table.{Mapping, cut, cut_all, mapping_at}
use alpine_on_qnx.Memory.Table.Chain.{Chain, Chain-mono, mapping_at-append}

module _ (s e : ℕ) (range : s < e) where
  mapping_at-cut :
      (m : Mapping) (a : ℕ)
      → mapping_at (cut s e m) a ≡ (if leb s a && ltb a e then none else mapping_at (m ∷ []) a)
  unfolding cut mapping_at
  mapping_at-cut m a = ground arith

  -- The bytes in the range are gone, and every other byte is as before.
  pub mapping_at-cut_all :
      (ms : List Mapping) (a : ℕ)
      → mapping_at (cut_all s e ms) a ≡ (if leb s a && ltb a e then none else mapping_at ms a)
  unfolding cut_all mapping_at
  mapping_at-cut_all [] a = ground arith
  mapping_at-cut_all (m ∷ ms) a = ground (
    arith,
    mapping_at-append (cut s e m) (cut_all s e ms) a,
    mapping_at-cut m a,
    mapping_at-cut_all ms a,
  )

  -- What is kept of an ordered table is ordered, and keeps clear of the range.
  abbrev pub Avoids : List Mapping → Type 0
  Avoids [] = Unit {0}
  Avoids (m ∷ ms) = ((m.end ≤ s) ⊎ (e ≤ m.start)) × Avoids ms

  pub cut_all-Avoids : (ms : List Mapping) → Avoids (cut_all s e ms)
  unfolding cut_all cut
  cut_all-Avoids [] = tt
  cut_all-Avoids (m ∷ ms) = ground (arith, cut_all-Avoids ms)

  pub cut_all-Chain :
      (lo hi : ℕ) (ms : List Mapping) → Chain lo hi ms → Chain lo hi (cut_all s e ms)
  unfolding cut_all cut
  cut_all-Chain lo hi [] h = h
  cut_all-Chain lo hi (m ∷ ms) h = ground (
    arith,
    cut_all-Chain m.end hi ms h.2,
    Chain-mono m.end (min m.end s) hi (cut_all s e ms),
    Chain-mono m.end lo hi (cut_all s e ms),
  )

  cut_all_above : (lo hi : ℕ) (ms : List Mapping) → Chain lo hi ms → e ≤ lo → cut_all s e ms ≡ ms
  unfolding cut_all cut
  cut_all_above lo hi [] h le = refl
  cut_all_above lo hi (m ∷ ms) h le = ground (arith, cut_all_above m.end hi ms h.2)

  -- One mapping more at most: only the mapping that contains the range is split in two.
  pub length-cut_all :
      (lo hi : ℕ) (ms : List Mapping) → Chain lo hi ms → length (cut_all s e ms) ≤ suc (length ms)
  unfolding cut_all cut
  length-cut_all lo hi [] h = omega arith
  length-cut_all lo hi (m ∷ ms) h =
      ground (arith, length-cut_all m.end hi ms h.2, cut_all_above m.end hi ms h.2)

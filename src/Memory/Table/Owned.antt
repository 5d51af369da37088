-- ===== src/Memory/Table/Owned.antt =====
-- `runtime_range_owned_locked` against the view of the table: its fuel is enough, and it answers
-- whether every byte of the range is mapped.
use alpine_on_qnx.Prelude.{
  ℕ, zero, suc, ◌-◌, ◌≤◌, ◌<◌, ◌≡◌, ◌≢◌, ◌↔◌, refl, ap, sym, ◌∙◌, Bool, true, false, none, some,
  ◌==◌, List, [], ◌∷◌, leb, ltb, ◌&&◌, if◌then◌else◌, Bool-cases, inl, inr, arith,
}
use alpine_on_qnx.Memory.Table.{
  Mapping, covered_end, owned_from, runtime_range_owned_locked, mapping_at,
}

-- Every byte of the range is mapped.
abbrev pub AllMapped : List Mapping → ℕ → ℕ → Type 0
AllMapped ms start end = (a : ℕ) → start ≤ a → a < end → mapping_at ms a ≢ none

covered_end-ge : (cursor covered : ℕ) (ms : List Mapping) → covered ≤ covered_end cursor covered ms
unfolding covered_end
covered_end-ge cursor covered [] = omega arith
covered_end-ge cursor covered (m ∷ ms) = ground (
  arith,
  covered_end-ge cursor (if leb m.start cursor && ltb covered m.end then m.end else covered) ms,
)

covered_end_sound :
    (cursor covered a : ℕ) (ms : List Mapping)
    → cursor ≤ a
    → covered ≤ a
    → a < covered_end cursor covered ms
    → mapping_at ms a ≢ none
unfolding covered_end mapping_at
covered_end_sound cursor covered a [] le le' lt = absurd (omega arith)
covered_end_sound cursor covered a (m ∷ ms) le le' lt = ground (
  arith,
  covered_end_sound cursor (if leb m.start cursor && ltb covered m.end then m.end else covered) a
      ms,
)

covered_end-moves :
    (cursor covered : ℕ) (ms : List Mapping)
    → mapping_at ms cursor ≢ none
    → cursor < covered_end cursor covered ms
unfolding covered_end mapping_at
covered_end-moves cursor covered [] h = absurd (h refl)
covered_end-moves cursor covered (m ∷ ms) h = ground (
  arith,
  covered_end-moves cursor (if leb m.start cursor && ltb covered m.end then m.end else covered) ms,
  covered_end-ge cursor (if leb m.start cursor && ltb covered m.end then m.end else covered) ms,
)

module _ (ms : List Mapping) where
  owned_from_sound :
      (fuel cursor end : ℕ) → owned_from fuel cursor end ms ≡ some true → AllMapped ms cursor end
  unfolding owned_from
  owned_from_sound zero cursor end h a le lt = absurd cc
  owned_from_sound (suc fuel) cursor end h a le lt =
      elim (Bool-cases (ltb a (covered_end cursor cursor ms))) [
        | inl inside ↦ ground (arith, covered_end_sound cursor cursor a ms)
        | inr beyond ↦
            let rest : owned_from fuel (covered_end cursor cursor ms) end ms ≡ some true =
              ground arith in
            owned_from_sound fuel (covered_end cursor cursor ms) end rest a (ground arith) lt
      ]

  -- With a round for each byte and one more the loop ends, and an answer is true where all is mapped.
  owned_from_ends :
      (fuel cursor end : ℕ)
      → end - cursor < fuel
      → (b : Bool) × (owned_from fuel cursor end ms ≡ some b) × (AllMapped ms cursor end → b ≡ true)
  unfolding owned_from
  owned_from_ends zero cursor end enough = absurd (omega arith)
  owned_from_ends (suc fuel) cursor end enough =
      let covered = covered_end cursor cursor ms in
      elim (Bool-cases (ltb cursor end)) [
        | inr done ↦ (true, rw done refl, λ all. refl)
        | inl more ↦ elim (Bool-cases (covered == cursor)) [
          | inl stuck ↦ (
            false,
            rw (more, stuck) refl,
            λ all.
                let moves =
                  covered_end-moves cursor cursor ms
                    (all cursor (omega arith) (ground (arith, more))) in
                absurd (ground (arith, stuck, moves)),
          )
          | inr moved ↦
              let ge = covered_end-ge cursor cursor ms in
              let (b, e, good) =
                owned_from_ends fuel covered end (ground (arith, ge, moved, more)) in
              (b, rw (more, moved) e, λ all. good (λ a le lt. all a (omega (arith, le, ge)) lt))
        ]
      ]

-- The loop ends, within a round for each byte of the range and one more, and the answer is true exactly
-- if every byte of the range is mapped.
pub runtime_range_owned_locked_lem :
    (start end : ℕ) (ms : List Mapping)
    → (b : Bool) × (owned_from (suc (end - start)) start end ms ≡ some b)
      × (runtime_range_owned_locked start end ms ≡ b)
      × ((b ≡ true) ↔ AllMapped ms start end)
unfolding runtime_range_owned_locked
runtime_range_owned_locked_lem start end ms =
    let (b, e, good) = owned_from_ends ms (suc (end - start)) start end (omega arith) in
    (
      b,
      e,
      rw (runtime_range_owned_locked, e) refl,
      ((λ yes. owned_from_sound ms (suc (end - start)) start end (e ∙ ap some yes)), good),
    )

pub runtime_range_owned_locked_iff :
    (start end : ℕ) (ms : List Mapping)
    → (runtime_range_owned_locked start end ms ≡ true) ↔ AllMapped ms start end
runtime_range_owned_locked_iff start end ms =
    let (b, e, same, iff) = runtime_range_owned_locked_lem start end ms in
    ((λ h. iff.0 (sym same ∙ h)), (λ all. same ∙ iff.1 all))

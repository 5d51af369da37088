-- ===== src/Patch/Guest.antt =====
-- src/arm_patch.c: the words as the guest sees them, one step at a time.
use alpine_on_qnx.Prelude.{
  ℕ, ◌≡◌, refl, sym, ap, subst, eq_of_some, ◌∙◌, inl, inr, true, false, none, some, List, [], ◌∷◌,
  ◌==◌, length, Bool-cases, arith,
}
use alpine_on_qnx.Patch.{
  PatchRecord, Code, is_trapped, store, patch_word, arm_patch_original, arm_udf_trap, max_patches,
}

-- Every recorded address holds the trapping instruction.
abbrev pub IsCoherent : (ℕ → ℕ) → List PatchRecord → Type 0
IsCoherent words [] = Unit {0}
IsCoherent words (p ∷ rest) = (words p.address ≡ arm_udf_trap) × IsCoherent words rest

-- The trapping instruction is not itself replaced.
pub udf_stays : is_trapped arm_udf_trap ≡ false
unfolding is_trapped
udf_stays = refl

-- A word that is to be replaced has no record yet.
pub unrecorded :
    (words : ℕ → ℕ) (patches : List PatchRecord) (a : ℕ)
    → IsCoherent words patches
    → is_trapped (words a) ≡ true
    → arm_patch_original a patches ≡ none
unfolding arm_patch_original
unrecorded words [] a h t = refl
unrecorded words (p ∷ rest) a h t =
    rw (unrecorded words rest a h.1 t) (elim (Bool-cases (p.address == a)) [
      | inr other ↦ rw other
      | inl same ↦
          let e : p.address ≡ a = ground arith in absurd (cc (udf_stays, h.0, ap words e, t))
    ])

pub IsCoherent-store :
    (words : ℕ → ℕ) (a : ℕ) (patches : List PatchRecord)
    → IsCoherent words patches
    → IsCoherent (store words a arm_udf_trap) patches
IsCoherent-store words a [] h = tt
IsCoherent-store words a (p ∷ rest) h = (ground arith, IsCoherent-store words a rest h.1)

-- The word that the guest's program has at an address.
abbrev pub guest_word : Code → ℕ → ℕ
guest_word c a = elim (arm_patch_original a c.patches) [ some word ↦ word | none ↦ c.words a ]

-- One round of the loop keeps the table coherent, and the guest sees no difference.
pub patch_word-IsCoherent :
    (address : ℕ) (c : Code) {new : Code}
    → IsCoherent c.words c.patches
    → patch_word address c ≡ some new
    → IsCoherent new.words new.patches
unfolding patch_word
patch_word-IsCoherent address c {new} h e = elim (Bool-cases (is_trapped (c.words address))) [
  | inr plain ↦ subst (λ (t : Code). IsCoherent t.words t.patches) (eq_of_some (rw plain at e)) h
  | inl trapped ↦ elim (Bool-cases (length c.patches == max_patches)) [
    | inl full ↦ absurd (cc (rw (trapped, full) at e))
    | inr room ↦
        subst (λ (t : Code). IsCoherent t.words t.patches) (eq_of_some (rw (trapped, room) at e))
          (ground arith, IsCoherent-store c.words address c.patches h)
  ]
]

pub recorded_word :
    (address : ℕ) (c : Code) (a : ℕ)
    → guest_word
        (record {
          words = store c.words address arm_udf_trap;
          patches = record { address = address; original = c.words address } ∷ c.patches;
        })
        a
      ≡ guest_word c a
unfolding arm_patch_original
recorded_word address c a = elim (Bool-cases (address == a)) [
  | inr other ↦ ground arith
  | inl same ↦ let e : address ≡ a = ground arith in ground (arith, ap c.words e)
]

pub restored :
    (words : ℕ → ℕ) (address a : ℕ)
    → store (store words address arm_udf_trap) address (words address) a ≡ words a
restored words address a = elim (Bool-cases (a == address)) [
  | inr other ↦ rw other
  | inl same ↦ let e : a ≡ address = ground arith in ground (arith, ap words e)
]

pub patch_word_unseen :
    (address : ℕ) (c : Code) {new : Code} (a : ℕ)
    → patch_word address c ≡ some new
    → guest_word new a ≡ guest_word c a
unfolding patch_word arm_patch_original
patch_word_unseen address c {new} a e = elim (Bool-cases (is_trapped (c.words address))) [
  | inr plain ↦ ap (λ (t : Code). guest_word t a) (sym (eq_of_some (rw plain at e)))
  | inl trapped ↦ elim (Bool-cases (length c.patches == max_patches)) [
    | inl full ↦ absurd (cc (rw (trapped, full) at e))
    | inr room ↦
        ap (λ (t : Code). guest_word t a) (sym (eq_of_some (rw (trapped, room) at e)))
        ∙ recorded_word address c a
  ]
]

-- ===== src/Patch/Range.antt =====
-- src/arm_patch.c: the whole range that `arm_patch_range` works on.
use alpine_on_qnx.Prelude.{
  ℕ, zero, suc, ◌+◌, ◌-◌, ◌*◌, ◌/◌, ◌%◌, ◌<◌, ◌≡◌, refl, ap, subst, eq_of_some, ◌∙◌, inl, inr, true,
  false, not, ◌||◌, Option, none, some, ltb, ◌==◌, length, Bool-cases, Option-cases, arith,
}
use alpine_on_qnx.Words.{uintptr_max}
use alpine_on_qnx.Patch.{
  Code, is_trapped, patch_word, patch_words, arm_patch_range, arm_patch_original, max_patches,
}
use alpine_on_qnx.Patch.Guest.{
  IsCoherent, guest_word, udf_stays, unrecorded, patch_word-IsCoherent, patch_word_unseen,
}

module _ (P : Code → Type 0)
    (keep : (address : ℕ) (c new : Code) → P c → patch_word address c ≡ some new → P new) where
  -- What every round keeps, the loop keeps.
  patch_words_keep : (n address : ℕ) (c : Code) → P c → P (patch_words n address c).1
  unfolding patch_words
  patch_words_keep zero address c h = h
  patch_words_keep (suc n) address c h = elim (Option-cases (patch_word address c)) [
    | inl full ↦ rw (full, patch_words) h
    | inr (next, e) ↦
        rw (e, patch_words) (patch_words_keep n (address + 4) next (keep address c next h e))
  ]

  pub arm_patch_range_keep : (start len : ℕ) (c : Code) → P c → P (arm_patch_range start len c).1
  unfolding arm_patch_range
  arm_patch_range_keep start len c h =
      elim (Bool-cases
        (not (start % 4 == 0) || not (len % 4 == 0) || ltb (uintptr_max - start) len)) [
          | inl bad ↦ rw bad h
          | inr good ↦ rw good (patch_words_keep (len / 4) start c h)
        ]

-- Where every recorded address holds the trapping instruction, patching is invisible: at every
-- address, whether the call succeeds or not, the word that the guest's program has (the recorded
-- one, or else the one in memory) is the same as before, and every recorded address still holds
-- the trapping instruction.
pub arm_patch_range_unseen :
    (start len : ℕ) (c : Code) (a : ℕ)
    → IsCoherent c.words c.patches
    → let new = (arm_patch_range start len c).1 in
      (guest_word new a ≡ guest_word c a) × IsCoherent new.words new.patches
arm_patch_range_unseen start len c a h = (
  arm_patch_range_keep (λ (t : Code). guest_word t a ≡ guest_word c a)
      (λ address mid next p e. patch_word_unseen address mid a e ∙ p) start len c refl,
  arm_patch_range_keep (λ (t : Code). IsCoherent t.words t.patches)
      (λ address mid next p e. patch_word-IsCoherent address mid p e) start len c h,
)

patch_word_settles :
    (address : ℕ) (c : Code) {new : Code}
    → patch_word address c ≡ some new
    → is_trapped (new.words address) ≡ false
unfolding patch_word
patch_word_settles address c {new} e = elim (Bool-cases (is_trapped (c.words address))) [
  | inr plain ↦
      subst (λ (t : Code). is_trapped (t.words address) ≡ false) (eq_of_some (rw plain at e)) plain
  | inl trapped ↦ elim (Bool-cases (length c.patches == max_patches)) [
    | inl full ↦ absurd (cc (rw (trapped, full) at e))
    | inr room ↦
        subst (λ (t : Code). is_trapped (t.words address) ≡ false)
          (eq_of_some (rw (trapped, room) at e)) (ground (arith, udf_stays))
  ]
]

patch_word_stays :
    (address : ℕ) (c : Code) {new : Code} (a : ℕ)
    → is_trapped (c.words a) ≡ false
    → patch_word address c ≡ some new
    → is_trapped (new.words a) ≡ false
unfolding patch_word
patch_word_stays address c {new} a h e = elim (Bool-cases (is_trapped (c.words address))) [
  | inr plain ↦ subst (λ (t : Code). is_trapped (t.words a) ≡ false) (eq_of_some (rw plain at e)) h
  | inl trapped ↦ elim (Bool-cases (length c.patches == max_patches)) [
    | inl full ↦ absurd (cc (rw (trapped, full) at e))
    | inr room ↦
        subst (λ (t : Code). is_trapped (t.words a) ≡ false) (eq_of_some (rw (trapped, room) at e))
          (ground (arith, udf_stays))
  ]
]

patch_words_settle :
    (n address i : ℕ) (c : Code)
    → (patch_words n address c).0 ≡ none
    → i < n
    → is_trapped ((patch_words n address c).1.words (address + 4 * i)) ≡ false
unfolding patch_words
patch_words_settle zero address i c h lt = absurd (omega arith)
patch_words_settle (suc n) address zero c h lt = elim (Option-cases (patch_word address c)) [
  | inl full ↦ absurd (cc (rw (full, patch_words) at h))
  | inr (next, e) ↦
      let here : address + 4 * 0 ≡ address = omega arith in
      rw (e, patch_words, here)
        (patch_words_keep (λ (t : Code). is_trapped (t.words address) ≡ false)
          (λ a mid new p q. patch_word_stays a mid address p q) n (address + 4) next
          (patch_word_settles address c e))
]
patch_words_settle (suc n) address (suc i) c h lt = elim (Option-cases (patch_word address c)) [
  | inl full ↦ absurd (cc (rw (full, patch_words) at h))
  | inr (next, e) ↦
      let there : address + 4 * suc i ≡ address + 4 + 4 * i = omega arith in
      rw (e, patch_words, there)
        (patch_words_settle n (address + 4) i next (rw (e, patch_words) at h) (omega arith))
]

-- After a call that succeeds no word of the range is one that should trap and does not.
pub arm_patch_range_settles :
    (start len i : ℕ) (c : Code)
    → (arm_patch_range start len c).0 ≡ none
    → 4 * i < len
    → is_trapped ((arm_patch_range start len c).1.words (start + 4 * i)) ≡ false
unfolding arm_patch_range
arm_patch_range_settles start len i c h lt =
    elim (Bool-cases
      (not (start % 4 == 0) || not (len % 4 == 0) || ltb (uintptr_max - start) len)) [
        | inl bad ↦ absurd (cc (rw bad at h))
        | inr good ↦ rw good (patch_words_settle (len / 4) start i c (rw good at h) (ground arith))
      ]

recorded_of_view :
    (new old : Option ℕ) (w v : ℕ)
    → old ≡ none
    → elim new [ some word ↦ word | none ↦ w ] ≡ elim old [ some word ↦ word | none ↦ v ]
    → is_trapped w ≡ false
    → is_trapped v ≡ true
    → new ≡ some v
recorded_of_view none old w v e same p q =
    absurd (let at : w ≡ v = ground arith in cc (ap is_trapped at))
recorded_of_view (some word) old w v e same p q = ground arith

-- Where every recorded address holds the trapping instruction and the call succeeds, a trap at an
-- address of the range is answered with the word that stood there before the call, if that was one
-- to be trapped: no older record stands in the way.
pub arm_patch_original-range :
    (start len i : ℕ) (c : Code)
    → IsCoherent c.words c.patches
    → (arm_patch_range start len c).0 ≡ none
    → 4 * i < len
    → is_trapped (c.words (start + 4 * i)) ≡ true
    → arm_patch_original (start + 4 * i) (arm_patch_range start len c).1.patches
      ≡ some (c.words (start + 4 * i))
arm_patch_original-range start len i c h done lt trapped =
    let a = start + 4 * i in
    recorded_of_view (arm_patch_original a (arm_patch_range start len c).1.patches)
      (arm_patch_original a c.patches) ((arm_patch_range start len c).1.words a) (c.words a)
      (unrecorded c.words c.patches a h trapped) (arm_patch_range_unseen start len c a h).0
      (arm_patch_range_settles start len i c done lt) trapped

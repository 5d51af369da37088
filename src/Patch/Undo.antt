-- ===== src/Patch/Undo.antt =====
-- src/arm_patch.c: rolling back what was patched.
use native.Mathlib.Nat.{zero-add, suc-add}
use alpine_on_qnx.Prelude.{
  ℕ, zero, suc, ◌+◌, ◌-◌, ◌/◌, ◌%◌, ◌≡◌, refl, sym, ap, subst, eq_of_some, fun_ext, ◌∙◌, inl, inr,
  not, ◌||◌, some, List, [], ◌∷◌, ltb, ◌==◌, length, Bool-cases, Option-cases, arith,
}
use alpine_on_qnx.Words.{uintptr_max}
use alpine_on_qnx.Patch.{
  PatchRecord, Code, is_trapped, store, patch_word, patch_words, arm_patch_range, max_patches,
  rollback_by, arm_patch_rollback,
}
use alpine_on_qnx.Patch.Guest.{restored}

-- The new words agree with what a rollback of one record brings back.
pub record Undone (c new : Code) : Type 0 where
  pub extra : ℕ
  pub count : length new.patches ≡ extra + length c.patches
  pub back : rollback_by extra new.words new.patches ≡ c

patch_word-Undone :
    (address : ℕ) (c : Code) {new : Code} → patch_word address c ≡ some new → Undone c new
unfolding patch_word rollback_by
patch_word-Undone address c {new} e = elim (Bool-cases (is_trapped (c.words address))) [
  | inr plain ↦
      subst (Undone c) (eq_of_some (rw plain at e))
        (record { extra = 0; count = omega arith; back = refl })
  | inl trapped ↦ elim (Bool-cases (length c.patches == max_patches)) [
    | inl full ↦ absurd (cc (rw (trapped, full) at e))
    | inr room ↦ subst (Undone c) (eq_of_some (rw (trapped, room) at e)) (record {
      extra = 1;
      count = omega arith;
      back = λ i. record { words = fun_ext (restored c.words address) i; patches = c.patches };
    })
  ]
]

rollback_by-nil :
    (n : ℕ) (words : ℕ → ℕ) → rollback_by n words [] ≡ record { words = words; patches = [] }
unfolding rollback_by
rollback_by-nil zero words = refl
rollback_by-nil (suc n) words = refl

pub rollback_by-add :
    (m k : ℕ) (words : ℕ → ℕ) (patches : List PatchRecord)
    → rollback_by (m + k) words patches
      ≡ rollback_by k (rollback_by m words patches).words (rollback_by m words patches).patches
unfolding rollback_by
rollback_by-add zero k words patches = ap (λ n. rollback_by n words patches) (zero-add k)
rollback_by-add (suc m) k words [] =
    rollback_by-nil (suc m + k) words ∙ sym (rollback_by-nil k words)
rollback_by-add (suc m) k words (p ∷ rest) =
    ap (λ n. rollback_by n words (p ∷ rest)) (suc-add m k)
    ∙ rollback_by-add m k (store words p.address p.original) rest

pub Undone-trans : {c mid new : Code} → Undone c mid → Undone mid new → Undone c new
Undone-trans {c} {mid} {new} g h = record {
  extra = h.extra + g.extra;
  count = omega (arith, g.count, h.count);
  back =
      rollback_by-add h.extra g.extra new.words new.patches
      ∙ ap (λ (t : Code). rollback_by g.extra t.words t.patches) h.back
      ∙ g.back;
}

pub Undone-refl : (c : Code) → Undone c c
Undone-refl c = record { extra = 0; count = omega arith; back = unfold rollback_by in refl }

pub patch_words-Undone : (n address : ℕ) (c : Code) → Undone c (patch_words n address c).1
unfolding patch_words
patch_words-Undone zero address c = Undone-refl c
patch_words-Undone (suc n) address c = elim (Option-cases (patch_word address c)) [
  | inl full ↦ rw (full, patch_words) (Undone-refl c)
  | inr (next, e) ↦
      rw (e, patch_words)
        (Undone-trans (patch_word-Undone address c e) (patch_words-Undone n (address + 4) next))
]

pub rollback-Undone : {c new : Code} → Undone c new → arm_patch_rollback (length c.patches) new ≡ c
unfolding arm_patch_rollback
rollback-Undone {c} {new} u =
    let count : length new.patches - length c.patches ≡ u.extra = omega (arith, u.count) in
    ap (λ n. rollback_by n new.words new.patches) count ∙ u.back

pub arm_patch_range-Undone : (start len : ℕ) (c : Code) → Undone c (arm_patch_range start len c).1
unfolding arm_patch_range
arm_patch_range-Undone start len c =
    elim (Bool-cases
      (not (start % 4 == 0) || not (len % 4 == 0) || ltb (uintptr_max - start) len)) [
        | inl bad ↦ rw bad (Undone-refl c)
        | inr good ↦ rw good (patch_words-Undone (len / 4) start c)
      ]

-- Two ranges that are patched one after the other, whether or not the table of patches runs full
-- on the way, are brought back by one rollback to the count of before: every word, every record.
pub arm_patch_rollback-range :
    (start len start' len' : ℕ) (c : Code)
    → arm_patch_rollback
        (length c.patches)
        (arm_patch_range start' len' (arm_patch_range start len c).1).1
      ≡ c
arm_patch_rollback-range start len start' len' c =
    rollback-Undone
      (Undone-trans (arm_patch_range-Undone start len c) (arm_patch_range-Undone start' len' _))

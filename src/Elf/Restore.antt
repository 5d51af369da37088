-- ===== src/Elf/Restore.antt =====
-- src/elf_loader.c: what loading has taken can be given back.
use alpine_on_qnx.Prelude.{
  ℕ, zero, suc, ◌+◌, ◌-◌, ◌≤◌, ◌≡◌, ◌≢◌, refl, ap, sym, subst, ◌∙◌, none, List, [], ◌∷◌, ◌++◌, ltb,
  leb, ◌&&◌, length, Bool-cases, inl, inr, arith,
}
use alpine_on_qnx.Memory.Segments.{LoadSegment, max_load_segments, segment_end}
use alpine_on_qnx.Memory.Segments.Loading.{IsLayout}
use alpine_on_qnx.Memory.Segments.Mapped.{live, Grown, Grown-trans, rollback-Grown}
use alpine_on_qnx.Memory.Query.{segment_at}
use alpine_on_qnx.Patch.{PatchRecord, Code, store, rollback_by, arm_patch_rollback}
use alpine_on_qnx.Patch.Undo.{Undone, rollback_by-add}
use alpine_on_qnx.Elf.Load.{LoadState, roll_back}

-- A byte of a loaded segment.
abbrev pub Held : LoadState → ℕ → Type 0
Held st a = segment_at st.space.segments a ≢ none

-- A rollback looks at the words of memory one by one.
rollback_by-words :
    (n : ℕ) (words words' : ℕ → ℕ) (patches : List PatchRecord) (a : ℕ)
    → words' a ≡ words a
    → (rollback_by n words' patches).words a ≡ (rollback_by n words patches).words a
unfolding rollback_by
rollback_by-words zero words words' patches a e = e
rollback_by-words (suc n) words words' [] a e = e
rollback_by-words (suc n) words words' (p ∷ rest) a e =
    rollback_by-words n (store words p.address p.original) (store words' p.address p.original) rest
      a (ground arith)

rollback_by-patches :
    (n : ℕ) (words words' : ℕ → ℕ) (patches : List PatchRecord)
    → (rollback_by n words' patches).patches ≡ (rollback_by n words patches).patches
unfolding rollback_by
rollback_by-patches zero words words' patches = refl
rollback_by-patches (suc n) words words' [] = refl
rollback_by-patches (suc n) words words' (p ∷ rest) =
    rollback_by-patches n (store words p.address p.original) (store words' p.address p.original)
      rest

-- The records of patches of before are there again after a rollback, and the words of before
-- wherever `K` says.
pub record Traced (K : ℕ → Type 0) (c new : Code) : Type 0 where
  pub extra : ℕ
  pub count : length new.patches ≡ extra + length c.patches
  pub patches : (rollback_by extra new.words new.patches).patches ≡ c.patches
  pub words : (a : ℕ) → K a → (rollback_by extra new.words new.patches).words a ≡ c.words a

pub Traced-same :
    {K : ℕ → Type 0} {c new : Code}
    → new.patches ≡ c.patches
    → ((a : ℕ) → K a → new.words a ≡ c.words a)
    → Traced K c new
unfolding rollback_by
Traced-same p w = record { extra = 0; count = omega (arith, ap length p); patches = p; words = w }

pub Traced-trans :
    {K L : ℕ → Type 0} {c mid new : Code}
    → ((a : ℕ) → K a → L a)
    → Traced K c mid
    → Traced L mid new
    → Traced K c new
Traced-trans {K} {L} {c} {mid} {new} sub g h =
    let back = rollback_by h.extra new.words new.patches in
    let split = rollback_by-add h.extra g.extra new.words new.patches in
    let old = ap (λ ps. rollback_by g.extra back.words ps) h.patches in
    record {
      extra = h.extra + g.extra;
      count = omega (arith, g.count, h.count);
      patches =
          ap (λ (t : Code). t.patches) (split ∙ old)
          ∙ rollback_by-patches g.extra mid.words back.words mid.patches
          ∙ g.patches;
      words = λ a k.
          ap (λ (t : Code). t.words a) (split ∙ old)
          ∙ rollback_by-words g.extra mid.words back.words mid.patches a (h.words a (sub a k))
          ∙ g.words a k;
    }

pub Traced-Undone : {K : ℕ → Type 0} {c new : Code} → Undone c new → Traced K c new
Traced-Undone u = record {
  extra = u.extra;
  count = u.count;
  patches = ap (λ (t : Code). t.patches) u.back;
  words = λ a k. ap (λ (t : Code). t.words a) u.back;
}

-- Segments that are apart, in the guest's addresses and no more than there is room for.
abbrev pub Good : LoadState → Type 0
Good st = IsLayout st.space.segments × (length st.space.segments ≤ max_load_segments)

-- What has come since can be taken back.
pub record Progress (st new : LoadState) : Type 0 where
  pub grown : Grown st.space new.space
  pub traced : Traced (Held st) st.code new.code
  pub good : Good st → Good new

-- The segments, the mappings of the host and the records of patches are those of before, and so are
-- the words of memory in these segments.
pub record Restored (st new : LoadState) : Type 0 where
  pub segments : new.space.segments ≡ st.space.segments
  pub live_eq : live new.space.calls ≡ live st.space.calls
  pub patches : new.code.patches ≡ st.code.patches
  pub words : (a : ℕ) → Held st a → new.code.words a ≡ st.code.words a

pub Restored-refl : (st : LoadState) → Restored st st
Restored-refl st = record { segments = refl; live_eq = refl; patches = refl; words = λ a h. refl }

pub Restored-trans : {st mid new : LoadState} → Restored st mid → Restored mid new → Restored st new
Restored-trans {st} {mid} {new} g h = record {
  segments = h.segments ∙ g.segments;
  live_eq = h.live_eq ∙ g.live_eq;
  patches = h.patches ∙ g.patches;
  words =
      λ a k. h.words a (subst (λ segs. segment_at segs a ≢ none) (sym g.segments) k) ∙ g.words a k;
}

pub Restored-Progress : {st new : LoadState} → Restored st new → Progress st new
Restored-Progress {st} {new} r = record {
  grown = record { added = []; segments_eq = r.segments; live_eq = r.live_eq };
  traced = Traced-same r.patches r.words;
  good = λ g. subst (λ segs. IsLayout segs × (length segs ≤ max_load_segments)) (sym r.segments) g;
}

segment_at-append :
    (added segments : List LoadSegment) (a : ℕ)
    → segment_at segments a ≢ none
    → segment_at (added ++ segments) a ≢ none
unfolding segment_at
segment_at-append [] segments a h = h
segment_at-append (s ∷ added) segments a h =
    elim (Bool-cases (leb s.map_start a && ltb a (segment_end s))) [
      | inl here ↦ rw here (λ e. cc)
      | inr there ↦ rw there (segment_at-append added segments a h)
    ]

pub Held-Progress :
    (st new : LoadState) → Grown st.space new.space → (a : ℕ) → Held st a → Held new a
Held-Progress st new g a h =
    subst (λ segs. segment_at segs a ≢ none) (sym g.segments_eq)
      (segment_at-append g.added st.space.segments a h)

pub Progress-refl : (st : LoadState) → Progress st st
Progress-refl st = Restored-Progress (Restored-refl st)

pub Progress-trans : {st mid new : LoadState} → Progress st mid → Progress mid new → Progress st new
Progress-trans {st} {mid} {new} g h = record {
  grown = Grown-trans g.grown h.grown;
  traced = Traced-trans (Held-Progress st mid g.grown) g.traced h.traced;
  good = λ t. h.good (g.good t);
}

-- The rollback of the loader takes back what has come since.
pub roll_back-Progress : {st new : LoadState} → Progress st new → Restored st (roll_back st new)
unfolding arm_patch_rollback
roll_back-Progress {st} {new} p =
    let (segments, live_eq) = rollback-Grown p.grown in
    let t = p.traced in
    let count : length new.code.patches - length st.code.patches ≡ t.extra =
      omega (arith, t.count) in
    record {
      segments = segments;
      live_eq = live_eq;
      patches = rw count t.patches;
      words = λ a k. rw count (t.words a k);
    }

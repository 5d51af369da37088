-- ===== src/Startup/Placed.antt =====
-- src/runtime.c: the strings that are pushed on the stack of the guest.
use alpine_on_qnx.Prelude.{
  ℕ, suc, ◌+◌, ◌-◌, ◌≤◌, ◌<◌, ◌≡◌, ◌⊎◌, refl, ap, sym, subst, ◌∙◌, inl, inr, true, ◌&&◌, some, List,
  [], ◌∷◌, ltb, leb, length, Bool-cases, Option-cases, eq_of_some, arith,
}
use alpine_on_qnx.GuestPath.{Bytes}
use alpine_on_qnx.Memory.Segments.{fill}
use alpine_on_qnx.Startup.Stack.{
  Filling, byte_at, push_bytes, with_nul, push_environment, push_arguments,
}

-- The bytes stand at an address.
abbrev pub StandsAt : (ℕ → ℕ) → ℕ → Bytes → Type 0
StandsAt bytes a text = (i : ℕ) → i < length text → bytes (a + i) ≡ byte_at text i

-- Each text stands with its NUL at its address, between `lo` and `hi`.
abbrev pub AllStand : ℕ → ℕ → (ℕ → ℕ) → List ℕ → List Bytes → Type 0
AllStand lo hi bytes [] [] = Unit {0}
AllStand lo hi bytes (a ∷ addresses) (t ∷ texts) =
    (lo ≤ a)
    × (a + length (with_nul t) ≤ hi)
    × StandsAt bytes a (with_nul t)
    × AllStand lo hi bytes addresses texts
AllStand lo hi bytes [] (t ∷ texts) = ⊥
AllStand lo hi bytes (a ∷ addresses) [] = ⊥

-- Memory is as it was but for a range.
abbrev pub SameBeside : ℕ → ℕ → (ℕ → ℕ) → (ℕ → ℕ) → Type 0
SameBeside lo hi old new = (x : ℕ) → (x < lo) ⊎ (hi ≤ x) → new x ≡ old x

pub beside_trans :
    (lo mid hi : ℕ) (old middle new : ℕ → ℕ)
    → lo ≤ mid
    → mid ≤ hi
    → SameBeside mid hi old middle
    → SameBeside lo mid middle new
    → SameBeside lo hi old new
beside_trans lo mid hi old middle new le le' g h x (inl lt) =
    h x (inl lt) ∙ g x (inl (omega (arith, lt, le)))
beside_trans lo mid hi old middle new le le' g h x (inr ge) =
    h x (inr (omega (arith, ge, le'))) ∙ g x (inr ge)

pub AllStand-keep :
    (lo hi lo' hi' : ℕ) (old new : ℕ → ℕ) (addresses : List ℕ) (texts : List Bytes)
    → lo' ≤ lo
    → hi ≤ hi'
    → ((x : ℕ) → lo ≤ x → x < hi → new x ≡ old x)
    → AllStand lo hi old addresses texts
    → AllStand lo' hi' new addresses texts
AllStand-keep lo hi lo' hi' old new [] [] down up same h = tt
AllStand-keep lo hi lo' hi' old new [] (t ∷ texts) down up same h = h
AllStand-keep lo hi lo' hi' old new (a ∷ addresses) [] down up same h = h
AllStand-keep lo hi lo' hi' old new (a ∷ addresses) (t ∷ texts) down up same h = (
  omega (arith, h.0),
  omega (arith, h.1),
  λ i lt. same (a + i) (omega (arith, h.0)) (omega (arith, h.1)) ∙ h.2 i lt,
  AllStand-keep lo hi lo' hi' old new addresses texts down up same h.3,
)

pub AllStand-length :
    (lo hi : ℕ) (bytes : ℕ → ℕ) (addresses : List ℕ) (texts : List Bytes)
    → AllStand lo hi bytes addresses texts
    → length addresses ≡ length texts
AllStand-length lo hi bytes [] [] h = refl
AllStand-length lo hi bytes [] (t ∷ texts) h = absurd h
AllStand-length lo hi bytes (a ∷ addresses) [] h = absurd h
AllStand-length lo hi bytes (a ∷ addresses) (t ∷ texts) h =
    ap suc (AllStand-length lo hi bytes addresses texts h.3)

-- What has been written since: texts, between the new cursor and the old one.
pub record Pushed (lower : ℕ) (f g : Filling) (addresses : List ℕ) (texts : List Bytes)
    : Type 0 where
  pub low : lower ≤ g.cursor
  pub down : g.cursor ≤ f.cursor
  pub stand : AllStand g.cursor f.cursor g.bytes addresses texts
  pub beside : SameBeside g.cursor f.cursor f.bytes g.bytes

pub record PushedOne (lower : ℕ) (f g : Filling) (text : Bytes) : Type 0 where
  pub low : lower ≤ g.cursor
  pub size : g.cursor + length text ≡ f.cursor
  pub stands : StandsAt g.bytes g.cursor text
  pub beside : SameBeside g.cursor f.cursor f.bytes g.bytes

pub push_bytes-PushedOne :
    (lower : ℕ) (text : Bytes) (f g : Filling)
    → lower ≤ f.cursor
    → push_bytes lower text f ≡ some g
    → PushedOne lower f g text
unfolding push_bytes
push_bytes-PushedOne lower text f g le h =
    elim (Bool-cases (ltb (f.cursor - lower) (length text))) [
      | inl full ↦ absurd (cc (rw full at h))
      | inr room ↦
          let cursor = f.cursor - length text in
          let size : cursor + length text ≡ f.cursor = ground arith in
          subst (λ (t : Filling). PushedOne lower f t text) (eq_of_some (rw room at h))
            (record {
              low = ground arith;
              size = size;
              stands = λ i lt. written cursor (length text) i (byte_at text) f.bytes lt;
              beside = λ x out. ground (arith, out, size);
            })
    ]
  where
    written :
        (start len i : ℕ) (byte bytes : ℕ → ℕ)
        → i < len
        → fill start len byte bytes (start + i) ≡ byte i
    written start len i byte bytes lt =
        let inside : leb start (start + i) && ltb (start + i) (start + len) ≡ true = ground arith in
        let place : start + i - start ≡ i = omega arith in rw inside (ap byte place)

some_pair-injective : {A B : Type 0} {p q : A × B} → some p ≡ some q → (p.0 ≡ q.0) × (p.1 ≡ q.1)
some_pair-injective e = let same = eq_of_some e in (ap (λ p. p.0) same, ap (λ p. p.1) same)

pub push_environment-Pushed :
    (lower : ℕ) (texts : List Bytes) (f g : Filling) (addresses : List ℕ)
    → lower ≤ f.cursor
    → push_environment lower texts f ≡ some (addresses, g)
    → Pushed lower f g addresses texts
unfolding push_environment
push_environment-Pushed lower [] f g addresses le h =
    let (as_eq, g_eq) = some_pair-injective h in
    rw (sym as_eq, sym g_eq)
      (record { low = le; down = omega arith; stand = tt; beside = λ x out. refl })
push_environment-Pushed lower (t ∷ texts) f g addresses le h =
    elim (Option-cases (push_bytes lower (with_nul t) f)) [
      | inl full ↦ absurd (cc (rw (full, push_environment) at h))
      | inr (p, e) ↦
          let one = push_bytes-PushedOne lower (with_nul t) f p le e in
          elim (Option-cases (push_environment lower texts p)) [
            | inl full ↦ absurd (cc (rw (e, full, push_environment) at h))
            | inr (r, rest) ↦
                let more = push_environment-Pushed lower texts p r.1 r.0 one.low rest in
                let (as_eq, g_eq) = some_pair-injective (rw (e, rest, push_environment) at h) in
                rw (sym as_eq, sym g_eq)
                  (record {
                    low = more.low;
                    down = omega (arith, more.down, one.size);
                    stand = (
                      more.down,
                      omega (arith, one.size),
                      λ i lt. more.beside (p.cursor + i) (inr (omega arith)) ∙ one.stands i lt,
                      AllStand-keep r.1.cursor p.cursor r.1.cursor f.cursor r.1.bytes r.1.bytes r.0
                          texts (omega arith) (omega (arith, one.size)) (λ x a b. refl) more.stand,
                    );
                    beside =
                        beside_trans r.1.cursor p.cursor f.cursor f.bytes p.bytes r.1.bytes
                          more.down (omega (arith, one.size)) one.beside more.beside;
                  })
          ]
    ]

pub push_arguments-Pushed :
    (lower : ℕ) (texts : List Bytes) (f g : Filling) (addresses : List ℕ)
    → lower ≤ f.cursor
    → push_arguments lower texts f ≡ some (addresses, g)
    → Pushed lower f g addresses texts
unfolding push_arguments
push_arguments-Pushed lower [] f g addresses le h =
    let (as_eq, g_eq) = some_pair-injective h in
    rw (sym as_eq, sym g_eq)
      (record { low = le; down = omega arith; stand = tt; beside = λ x out. refl })
push_arguments-Pushed lower (t ∷ texts) f g addresses le h =
    elim (Option-cases (push_arguments lower texts f)) [
      | inl full ↦ absurd (cc (rw (full, push_arguments) at h))
      | inr (r, rest) ↦
          let more = push_arguments-Pushed lower texts f r.1 r.0 le rest in
          elim (Option-cases (push_bytes lower (with_nul t) r.1)) [
            | inl full ↦ absurd (cc (rw (rest, full, push_arguments) at h))
            | inr (p, e) ↦
                let one = push_bytes-PushedOne lower (with_nul t) r.1 p more.low e in
                let (as_eq, g_eq) = some_pair-injective (rw (rest, e, push_arguments) at h) in
                rw (sym as_eq, sym g_eq)
                  (record {
                    low = one.low;
                    down = omega (arith, more.down, one.size);
                    stand = (
                      omega arith,
                      omega (arith, one.size, more.down),
                      one.stands,
                      AllStand-keep r.1.cursor f.cursor p.cursor f.cursor r.1.bytes p.bytes r.0
                          texts (omega (arith, one.size)) (omega arith)
                          (λ x a b. one.beside x (inr a)) more.stand,
                    );
                    beside =
                        beside_trans p.cursor r.1.cursor f.cursor f.bytes r.1.bytes p.bytes
                          (omega (arith, one.size)) more.down more.beside one.beside;
                  })
          ]
    ]

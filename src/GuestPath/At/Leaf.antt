-- ===== src/GuestPath/At/Leaf.antt =====
-- src/guest_path.c: a path in normal form is split at its last slash.
use mathlib.Core.List.{append-nil}
use alpine_on_qnx.Prelude.{
  ℕ, ◌≤◌, ◌≡◌, refl, ap, sym, subst, ◌∙◌, true, false, List, [], ◌∷◌, ◌++◌, length, arith,
}
use alpine_on_qnx.GuestPath.{Bytes, same_bytes}
use alpine_on_qnx.GuestPath.Components.{NoSlash, IsName, AllNames, join}
use alpine_on_qnx.GuestPath.Normal.{IsNormal}
use alpine_on_qnx.GuestPath.At.{slash, has_slash, before_last, after_last, parent_of}

NoSlash-has_slash : (c : Bytes) → NoSlash c → has_slash c ≡ false
NoSlash-has_slash [] h = refl
NoSlash-has_slash (x ∷ c) h = ground (arith, NoSlash-has_slash c h.1)

has_slash-append : (c rest : Bytes) → has_slash (c ++ (b'/' ∷ rest)) ≡ true
has_slash-append [] rest = refl
has_slash-append (x ∷ c) rest = ground (arith, has_slash-append c rest)

after_last-append : (c rest : Bytes) → after_last (c ++ (b'/' ∷ rest)) ≡ after_last (b'/' ∷ rest)
unfolding after_last
after_last-append [] rest = refl
after_last-append (x ∷ c) rest = rw (has_slash-append c rest) (after_last-append c rest)

before_last-append :
    (c rest : Bytes) → before_last (c ++ (b'/' ∷ rest)) ≡ c ++ before_last (b'/' ∷ rest)
unfolding before_last
before_last-append [] rest = refl
before_last-append (x ∷ c) rest =
    rw (has_slash-append c rest) (ap (λ t. x ∷ t) (before_last-append c rest))

-- The last of the names, and the others.
abbrev pub last_of : Bytes → List Bytes → Bytes
last_of c [] = c
last_of c (d ∷ rest) = last_of d rest

abbrev pub but_last : Bytes → List Bytes → List Bytes
but_last c [] = []
but_last c (d ∷ rest) = c ∷ but_last d rest

-- Each name with a slash before it.
abbrev pub absolute : List Bytes → Bytes
absolute [] = []
absolute (c ∷ rest) = b'/' ∷ (c ++ absolute rest)

absolute-join : (c : Bytes) (names : List Bytes) → absolute (c ∷ names) ≡ b'/' ∷ join (c ∷ names)
absolute-join c [] = ap (λ t. b'/' ∷ t) (append-nil c)
absolute-join c (d ∷ rest) = ap (λ t. b'/' ∷ (c ++ t)) (absolute-join d rest)

pub after_last-join :
    (c : Bytes) (names : List Bytes)
    → AllNames (c ∷ names)
    → after_last (b'/' ∷ join (c ∷ names)) ≡ last_of c names
unfolding after_last
after_last-join c [] h = rw (NoSlash-has_slash c h.0.no_slash) refl
after_last-join c (d ∷ rest) h =
    after_last-append (b'/' ∷ c) (join (d ∷ rest)) ∙ after_last-join d rest h.1

pub before_last-join :
    (c : Bytes) (names : List Bytes)
    → AllNames (c ∷ names)
    → before_last (b'/' ∷ join (c ∷ names)) ≡ absolute (but_last c names)
unfolding before_last
before_last-join c [] h = rw (NoSlash-has_slash c h.0.no_slash) refl
before_last-join c (d ∷ rest) h =
    before_last-append (b'/' ∷ c) (join (d ∷ rest))
    ∙ ap (λ t. b'/' ∷ (c ++ t)) (before_last-join d rest h.1)

last_of-IsName : (c : Bytes) (names : List Bytes) → AllNames (c ∷ names) → IsName (last_of c names)
last_of-IsName c [] h = h.0
last_of-IsName c (d ∷ rest) h = last_of-IsName d rest h.1

but_last-AllNames :
    (c : Bytes) (names : List Bytes) → AllNames (c ∷ names) → AllNames (but_last c names)
but_last-AllNames c [] h = tt
but_last-AllNames c (d ∷ rest) h = (h.0, but_last-AllNames d rest h.1)

length-before_last : (path : Bytes) → length (before_last path) ≤ length path
unfolding before_last
length-before_last [] = omega arith
length-before_last (c ∷ rest) = ground (arith, length-before_last rest)

-- The parent of a path in normal form that is not the root is in normal form, and the leaf is a name.
pub split_leaf :
    (size : ℕ) (path : Bytes)
    → IsNormal size path
    → same_bytes path slash ≡ false
    → IsNormal size (parent_of path) × IsName (after_last path)
split_leaf size path n other = split n.names n.all_names n.joined
  where
    parent :
        (names : List Bytes)
        → AllNames names
        → before_last path ≡ absolute names
        → IsNormal size (parent_of path)
    parent [] h e = rw e (record {
      names = [];
      all_names = tt;
      joined = refl;
      fits = omega (arith, n.fits, ap length n.joined);
    })
    parent (c ∷ names) h e = rw e (record {
      names = c ∷ names;
      all_names = h;
      joined = absolute-join c names;
      fits = omega (arith, length-before_last path, n.fits, ap length e);
    })

    split :
        (names : List Bytes)
        → AllNames names
        → path ≡ b'/' ∷ join names
        → IsNormal size (parent_of path) × IsName (after_last path)
    split [] h e = absurd (cc (ap (λ p. same_bytes p slash) e, other))
    split (c ∷ names) h e =
        let before = ap before_last e ∙ before_last-join c names h in
        let leaf = ap after_last e ∙ after_last-join c names h in
        (
          parent (but_last c names) (but_last-AllNames c names h) before,
          subst IsName (sym leaf) (last_of-IsName c names h),
        )

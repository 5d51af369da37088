-- ===== src/GuestPath/At/Kept.antt =====
-- src/guest_path.c: the other ways to a host path do not leave the root directory either, and the
-- working directory stays a resolved path.
use alpine_on_qnx.Prelude.{
  ℕ, ◌*◌, ◌<◌, ◌≡◌, ◌⊎◌, refl, sym, ap, subst, ◌∙◌, inl, inr, Bool, true, false, Option, ◌∷◌, ◌++◌,
  leb, ◌==◌, if◌then◌else◌, length, Bool-cases, Option-cases, arith,
}
use alpine_on_qnx.Abi.Errno.{enametoolong, enotdir}
use alpine_on_qnx.GuestPath.{
  Outcome, ok, err, err_unset, overrun, Bytes, and_then, same_bytes, normalize_guest_path,
}
use alpine_on_qnx.GuestPath.Components.{IsName}
use alpine_on_qnx.GuestPath.Normal.{IsNormal, normalize_guest_path-IsNormal}
use alpine_on_qnx.GuestPath.Links.{Paths, copied, resolve_guest_symlinks}
use alpine_on_qnx.GuestPath.Links.Resolved.{
  IsResolved, and_then_cases, eq_of_ok, copied_lem, resolve_guest_symlinks-IsResolved,
}
use alpine_on_qnx.GuestPath.Resolve.{dev_null}
use alpine_on_qnx.GuestPath.Resolve.Inside.{IsInside, guest_path_resolve-IsInside}
use alpine_on_qnx.GuestPath.At.{
  slash, after_last, parent_of, below, resolve_leaf, guest_path_resolve_nofollow, after_root,
  or_slash, resolve_either, resolve_from_directory, is_absolute, guest_path_resolve_at, Place,
  unreachable, directory, elsewhere, chdir_target, moved, guest_path_chdir, guest_path_fchdir,
}
use alpine_on_qnx.GuestPath.At.Leaf.{split_leaf}

-- The device, the root directory, or a name in a directory below it that is reached with no
-- symbolic link.
pub IsBeside : Paths → Bytes → Type 0
IsBeside paths host_path =
    (host_path ≡ dev_null)
    ⊎ ((host_path ≡ paths.root_path)
        ⊎ ((parent : Bytes) × (leaf : Bytes) × (host_path ≡ below paths parent leaf)
            × IsResolved paths false parent
            × IsName leaf))

resolve_leaf-IsBeside :
    (paths : Paths) (path : Bytes) (size : ℕ) (host_path : Bytes)
    → IsNormal paths.path_max path
    → resolve_leaf paths path size ≡ ok host_path
    → IsBeside paths host_path × (length host_path < size)
unfolding resolve_leaf IsBeside
resolve_leaf-IsBeside paths path size host_path normal h =
    elim (Bool-cases (same_bytes path slash)) [
      | inl root ↦
          let copy = copied_lem paths.root_path size host_path (rw root at h) in
          (inr (inl (sym copy.0)), copy.1)
      | inr other ↦
          let (parent_normal, leaf_name) = split_leaf paths.path_max path normal other in
          let leaf = after_last path in
          let found =
            and_then_cases (resolve_guest_symlinks paths (parent_of path) false paths.path_max)
              (λ parent.
                if leb size (length (below paths parent leaf))
                then err enametoolong
                else ok (below paths parent leaf))
              host_path (rw other at h) in
          let resolved =
            resolve_guest_symlinks-IsResolved paths (parent_of path) false paths.path_max found.0
              parent_normal found.1 in
          elim (Bool-cases (leb size (length (below paths found.0 leaf)))) [
            | inl e ↦ absurd (cc (rw e at found.2))
            | inr e ↦
                let same : below paths found.0 leaf ≡ host_path = eq_of_ok (rw e at found.2) in
                (
                  inr (inr (found.0, leaf, sym same, resolved.0, leaf_name)),
                  subst (λ p. length p < size) same (ground arith),
                )
          ]
    ]

-- Where `guest_path_resolve_nofollow` succeeds, the host path is the device, the root directory, or
-- one name in a directory below it that is reached with no symbolic link; it fits into the buffer.
pub guest_path_resolve_nofollow-IsBeside :
    (paths : Paths) (path : Bytes) (size : ℕ) (host_path : Bytes)
    → guest_path_resolve_nofollow paths path size ≡ ok host_path
    → IsBeside paths host_path × (length host_path < size)
unfolding guest_path_resolve_nofollow IsBeside
guest_path_resolve_nofollow-IsBeside paths path size host_path h =
    elim (Bool-cases (length paths.root_path == 0)) [
      | inl e ↦ absurd (cc (rw e at h))
      | inr e ↦
          let found =
            and_then_cases (normalize_guest_path paths.path_max paths.guest_cwd path paths.path_max)
              (λ guest_path.
                if same_bytes guest_path dev_null
                then copied dev_null size
                else resolve_leaf paths guest_path size)
              host_path (rw e at h) in
          elim (Bool-cases (same_bytes found.0 dev_null)) [
            | inl f ↦
                let copy = copied_lem dev_null size host_path (rw f at found.2) in
                (inl (sym copy.0), copy.1)
            | inr f ↦
                resolve_leaf-IsBeside paths found.0 size host_path
                  (normalize_guest_path-IsNormal paths.path_max paths.guest_cwd path paths.path_max
                    found.0 found.1)
                  (rw f at found.2)
          ]
    ]

module _ (paths : Paths) (allow nofollow : Bool) (size : ℕ) (host_path : Bytes) where
  -- What is promised of a path that is resolved with or without following its last component.
  abbrev pub Confined : Type 0
  Confined =
      ((nofollow ≡ true) × IsBeside paths host_path × (length host_path < size))
      ⊎ ((nofollow ≡ false) × IsInside paths allow host_path × (length host_path < size))

  resolve_either-Confined :
      (path : Bytes) → resolve_either paths path allow nofollow size ≡ ok host_path → Confined
  resolve_either-Confined path h = elim (Bool-cases nofollow) [
    | inl e ↦
        let r = guest_path_resolve_nofollow-IsBeside paths path size host_path (rw e at h) in
        inl (e, r.0, r.1)
    | inr e ↦
        let r = guest_path_resolve-IsInside paths path allow size host_path (rw e at h) in
        inr (e, r.0, r.1)
  ]

  -- A call on a path below an open directory that succeeds, whatever directory is given and whether
  -- the path is absolute or not, ends at the device or inside the root directory: with no symbolic
  -- link on the way, but for the last component where it is not to be followed.
  pub guest_path_resolve_at-Confined :
      (host_directory : Option Bytes) (path : Bytes)
      → guest_path_resolve_at paths host_directory path allow nofollow size ≡ ok host_path
      → Confined
  unfolding guest_path_resolve_at resolve_from_directory
  guest_path_resolve_at-Confined host_directory path h = elim (Bool-cases (length path == 0)) [
    | inl e ↦ absurd (cc (rw e at h))
    | inr e ↦ elim (Bool-cases (is_absolute path)) [
      | inl f ↦ resolve_either-Confined path (rw (e, f) at h)
      | inr f ↦ elim (Option-cases host_directory) [
        | inl g ↦ absurd (cc (rw (e, f, g) at h))
        | inr (place, g) ↦ elim (Bool-cases (length paths.root_path == 0)) [
          | inl k ↦ absurd (cc (rw (e, f, g, k) at h))
          | inr k ↦ elim (Option-cases (after_root paths.root_path place)) [
            | inl m ↦ absurd (cc (rw (e, f, g, k, m) at h))
            | inr (rest, m) ↦
                let combined = or_slash rest ++ (b'/' ∷ path) in
                elim (Bool-cases (leb (paths.path_max * 2) (length combined))) [
                  | inl q ↦ absurd (cc (rw (e, f, g, k, m, q, resolve_from_directory) at h))
                  | inr q ↦
                      resolve_either-Confined combined
                        (rw (e, f, g, k, m, q, resolve_from_directory) at h)
                ]
          ]
        ]
      ]
    ]
  ]

-- Where a call went: to a directory below the root with no symbolic link on the way, or nowhere.
abbrev pub Moved : Paths → (Bytes → Place) → Outcome Bytes × Paths → Type 0
Moved paths stat (ok resolved, new) =
    (new ≡ record paths { guest_cwd = resolved })
    × IsResolved paths false resolved
    × (stat (paths.root_path ++ resolved) ≡ directory)
Moved paths stat (err e, new) = new ≡ paths
Moved paths stat (err_unset, new) = new ≡ paths
Moved paths stat (overrun, new) = new ≡ paths

at_directory :
    (at : Place) (place resolved : Bytes)
    → elim at as (λ p. Outcome Bytes) [
      | unreachable e ↦ err e
      | directory ↦ ok place
      | elsewhere ↦ err enotdir
    ]
      ≡ ok resolved
    → (at ≡ directory) × (place ≡ resolved)
at_directory (unreachable e) place resolved h = absurd cc
at_directory directory place resolved h = (refl, eq_of_ok h)
at_directory elsewhere place resolved h = absurd cc

module _ (paths : Paths) (stat : Bytes → Place) where
  chdir_target_lem :
      (path resolved : Bytes)
      → chdir_target paths stat path ≡ ok resolved
      → IsResolved paths false resolved × (stat (paths.root_path ++ resolved) ≡ directory)
  unfolding chdir_target
  chdir_target_lem path resolved h =
      let placed = λ (place : Bytes).
        if leb paths.path_max (length (paths.root_path ++ place))
        then err enametoolong
        else elim (stat (paths.root_path ++ place)) as (λ p. Outcome Bytes) [
          | unreachable e ↦ err e
          | directory ↦ ok place
          | elsewhere ↦ err enotdir
        ] in
      let found =
        and_then_cases (normalize_guest_path paths.path_max paths.guest_cwd path paths.path_max)
          (λ normalized.
            and_then (resolve_guest_symlinks paths normalized false paths.path_max) placed)
          resolved h in
      let normal =
        normalize_guest_path-IsNormal paths.path_max paths.guest_cwd path paths.path_max found.0
          found.1 in
      let followed =
        and_then_cases (resolve_guest_symlinks paths found.0 false paths.path_max) placed resolved
          found.2 in
      let kept =
        resolve_guest_symlinks-IsResolved paths found.0 false paths.path_max followed.0 normal
          followed.1 in
      elim (Bool-cases (leb paths.path_max (length (paths.root_path ++ followed.0)))) [
        | inl long ↦ absurd (cc (rw long at followed.2))
        | inr fits ↦
            let (there, same) =
              at_directory (stat (paths.root_path ++ followed.0)) followed.0 resolved
                (rw fits at followed.2) in
            (
              subst (IsResolved paths false) same kept.0,
              ap (λ p. stat (paths.root_path ++ p)) (sym same) ∙ there,
            )
      ]

  guest_path_chdir-Moved : (path : Bytes) → Moved paths stat (guest_path_chdir paths stat path)
  unfolding guest_path_chdir
  guest_path_chdir-Moved path = go (chdir_target paths stat path) (chdir_target_lem path)
    where
      go :
          (target : Outcome Bytes)
          → ((resolved : Bytes)
              → target ≡ ok resolved
              → IsResolved paths false resolved × (stat (paths.root_path ++ resolved) ≡ directory))
          → Moved paths stat (moved paths target)
      go (ok resolved) lem = (refl, (lem resolved refl).0, (lem resolved refl).1)
      go (err e) lem = refl
      go err_unset lem = refl
      go overrun lem = refl

  -- A change to an open directory, which for its place in the guest's tree is a change to a path, goes
  -- to what `stat` takes for a directory below the root, by a path in normal form with no symbolic
  -- link, and changes only the working directory; or it fails and changes nothing.
  pub guest_path_fchdir-Moved :
      (host_path : Option Bytes) → Moved paths stat (guest_path_fchdir paths stat host_path)
  unfolding guest_path_fchdir
  guest_path_fchdir-Moved host_path = elim (Bool-cases (length paths.root_path == 0)) [
    | inl e ↦ rw e refl
    | inr e ↦ elim (Option-cases host_path) [
      | inl f ↦ rw (e, f) refl
      | inr (place, f) ↦ elim (Option-cases (after_root paths.root_path place)) [
        | inl g ↦ rw (e, f, g) refl
        | inr (rest, g) ↦ rw (e, f, g) (guest_path_chdir-Moved (or_slash rest))
      ]
    ]
  ]

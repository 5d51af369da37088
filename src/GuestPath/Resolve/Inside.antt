-- ===== src/GuestPath/Resolve/Inside.antt =====
-- src/guest_path.c: `guest_path_resolve` does not leave the root directory.
use alpine_on_qnx.Prelude.{
  ℕ, ◌<◌, ◌≡◌, sym, ◌⊎◌, inl, inr, Bool, ◌++◌, leb, ◌==◌, if◌then◌else◌, length, Bool-cases,
}
use alpine_on_qnx.Abi.Errno.{enametoolong}
use alpine_on_qnx.GuestPath.{ok, err, Bytes, same_bytes, normalize_guest_path}
use alpine_on_qnx.GuestPath.Normal.{IsNormal, normalize_guest_path-IsNormal}
use alpine_on_qnx.GuestPath.Links.{Paths, copied, resolve_guest_symlinks}
use alpine_on_qnx.GuestPath.Links.Resolved.{
  IsResolved, and_then_cases, copied_lem, resolve_guest_symlinks-IsResolved,
}
use alpine_on_qnx.GuestPath.Resolve.{dev_null, resolve_in_root, guest_path_resolve}

-- A host path for a guest path: the device, or a path below the root directory which is in normal
-- form and has no symbolic link in it.
pub IsInside : Paths → Bool → Bytes → Type 0
IsInside paths allow_missing_leaf host_path =
    (host_path ≡ dev_null)
    ⊎ ((resolved : Bytes) × (host_path ≡ paths.root_path ++ resolved)
        × IsResolved paths allow_missing_leaf resolved)

in_root-IsInside :
    (paths : Paths) (path : Bytes) (allow : Bool) (size : ℕ) (host_path : Bytes)
    → IsNormal paths.path_max path
    → resolve_in_root paths path allow size ≡ ok host_path
    → IsInside paths allow host_path × (length host_path < size)
unfolding resolve_in_root IsInside
in_root-IsInside paths path allow size host_path normal h =
    let found =
      and_then_cases (resolve_guest_symlinks paths path allow paths.path_max)
        (λ resolved.
          if leb paths.path_max (length (paths.root_path ++ resolved))
          then err enametoolong
          else copied (paths.root_path ++ resolved) size)
        host_path h in
    let resolved =
      resolve_guest_symlinks-IsResolved paths path allow paths.path_max found.0 normal found.1 in
    elim (Bool-cases (leb paths.path_max (length (paths.root_path ++ found.0)))) [
      | inl e ↦ absurd (cc (rw e at found.2))
      | inr e ↦
          let copy = copied_lem (paths.root_path ++ found.0) size host_path (rw e at found.2) in
          (inr (found.0, sym copy.0, resolved.0), copy.1)
    ]

-- Where `guest_path_resolve` succeeds, the host path that it returns is the device or inside the
-- root directory, with no symbolic link on the way, and it fits into the caller's buffer.
pub guest_path_resolve-IsInside :
    (paths : Paths) (path : Bytes) (allow_missing_leaf : Bool) (size : ℕ) (host_path : Bytes)
    → guest_path_resolve paths path allow_missing_leaf size ≡ ok host_path
    → IsInside paths allow_missing_leaf host_path × (length host_path < size)
unfolding guest_path_resolve IsInside
guest_path_resolve-IsInside paths path allow size host_path h =
    elim (Bool-cases (length paths.root_path == 0)) [
      | inl e ↦ absurd (cc (rw e at h))
      | inr e ↦
          let found =
            and_then_cases (normalize_guest_path paths.path_max paths.guest_cwd path paths.path_max)
              (λ guest_path.
                if same_bytes guest_path dev_null
                then copied dev_null size
                else resolve_in_root paths guest_path allow size)
              host_path (rw e at h) in
          elim (Bool-cases (same_bytes found.0 dev_null)) [
            | inl f ↦
                let copy = copied_lem dev_null size host_path (rw f at found.2) in
                (inl (sym copy.0), copy.1)
            | inr f ↦
                in_root-IsInside paths found.0 allow size host_path
                  (normalize_guest_path-IsNormal paths.path_max paths.guest_cwd path paths.path_max
                    found.0 found.1)
                  (rw f at found.2)
          ]
    ]

-- ===== src/GuestPath/Tests.antt =====
-- Tests of the guest's paths.
use alpine_on_qnx.Prelude.{
  ℕ, ◌<◌, ◌≡◌, refl, [], ◌∷◌, ◌++◌, length, arith, ◌≢◌, false, if◌then◌else◌,
}
use alpine_on_qnx.GuestPath.{ok, err, overrun, Bytes, same_bytes, normalize_guest_path}
use alpine_on_qnx.GuestPath.Components.{IsName}
use alpine_on_qnx.GuestPath.Normal.{IsNormal, normalize_guest_path-IsNormal}
use alpine_on_qnx.GuestPath.Stable.{normalize_guest_path_room}
use alpine_on_qnx.GuestPath.Links.{
  Paths, walk, resolve_from, resolve_guest_symlinks, Node, link, other, visit,
}
use alpine_on_qnx.Prelude.{true, some}
use alpine_on_qnx.Abi.Errno.{eloop, eacces}
use alpine_on_qnx.GuestPath.At.{
  before_last, after_last, resolve_leaf, guest_path_resolve_nofollow, after_root,
  resolve_from_directory, guest_path_resolve_at, directory, guest_path_fchdir,
}
use alpine_on_qnx.GuestPath.At.Kept.{
  Confined, guest_path_resolve_at-Confined, Moved, guest_path_fchdir-Moved,
}
use alpine_on_qnx.GuestPath.Resolve.{resolve_in_root, guest_path_resolve}
use alpine_on_qnx.GuestPath.Resolve.Inside.{IsInside, guest_path_resolve-IsInside}

-- `/a`, `/l/x` and `/d/x`; the root directory is `/r`.
abbrev working : Bytes
working = b'/' ∷ b'a' ∷ []

abbrev through_link : Bytes
through_link = b'/' ∷ b'l' ∷ b'/' ∷ b'x' ∷ []

abbrev resolved : Bytes
resolved = b'/' ∷ b'd' ∷ b'/' ∷ b'x' ∷ []

abbrev root : Bytes
root = b'/' ∷ b'r' ∷ []

-- `/r/l` is a link to `d`, and nothing else is one.
abbrev nodes : Bytes → Node
nodes p = if same_bytes p (root ++ (b'/' ∷ b'l' ∷ [])) then link (b'd' ∷ []) else other

abbrev paths : Paths
paths = record { path_max = 64; root_path = root; guest_cwd = working; lstat = nodes }

-- `./b//../c` in `/a` is `/a/c`.
dots :
    normalize_guest_path 64 working
      (b'.' ∷ b'/' ∷ b'b' ∷ b'/' ∷ b'/' ∷ b'.' ∷ b'.' ∷ b'/' ∷ b'c' ∷ [])
      64
    ≡ ok (b'/' ∷ b'a' ∷ b'/' ∷ b'c' ∷ [])
unfolding normalize_guest_path
dots = refl

-- With PATH_MAX 4 the array has two places: a third component is written beyond its end, where the
-- check of the length lets through up to seven bytes.
too_many : normalize_guest_path 4 working (b'/' ∷ b'a' ∷ b'/' ∷ b'b' ∷ b'/' ∷ b'c' ∷ []) 4 ≡ overrun
unfolding normalize_guest_path
too_many = refl

normalized : normalize_guest_path 64 working through_link 64 ≡ ok through_link
unfolding normalize_guest_path
normalized = refl

x-IsName : (c : ℕ) → c ≢ b'/' → c ≢ b'.' → IsName (c ∷ [])
x-IsName c slash dot_byte = record {
  not_empty = omega arith;
  no_slash = (slash, tt);
  not_dot = ground (arith, dot_byte);
  not_dot_dot = ground (arith, dot_byte);
}

through_link-IsNormal : IsNormal 64 through_link
through_link-IsNormal = record {
  names = (b'l' ∷ []) ∷ (b'x' ∷ []) ∷ [];
  all_names = (
    x-IsName b'l' (λ e. absurd (omega (arith, e))) (λ e. absurd (omega (arith, e))),
    (x-IsName b'x' (λ e. absurd (omega (arith, e))) (λ e. absurd (omega (arith, e))), tt),
  );
  joined = refl;
  fits = omega arith;
}

link_followed : resolve_guest_symlinks paths through_link false 64 ≡ ok resolved
unfolding resolve_guest_symlinks resolve_from walk visit normalize_guest_path
link_followed = refl

resolves : guest_path_resolve paths through_link false 64 ≡ ok (root ++ resolved)
unfolding guest_path_resolve resolve_in_root resolve_guest_symlinks resolve_from walk visit
    normalize_guest_path
resolves = refl

-- A link to itself is given up.
loops :
    resolve_guest_symlinks
      (record paths { lstat = λ p. link (b'l' ∷ []) })
      (b'/' ∷ b'l' ∷ [])
      false
      64
    ≡ err eloop
unfolding resolve_guest_symlinks resolve_from walk visit normalize_guest_path
loops = refl

normalize_guest_path-IsNormal_example : IsNormal 64 through_link
normalize_guest_path-IsNormal_example =
    normalize_guest_path-IsNormal 64 working through_link 64 through_link normalized

normalize_guest_path_room_example : normalize_guest_path 64 working through_link 64 ≢ overrun
normalize_guest_path_room_example =
    normalize_guest_path_room 64 working through_link 64 (omega arith)

guest_path_resolve-IsInside_example :
    IsInside paths false (root ++ resolved) × (length (root ++ resolved) < 64)
guest_path_resolve-IsInside_example =
    guest_path_resolve-IsInside paths through_link false 64 (root ++ resolved) resolves

-- In `/r/a`, `x` is `/r/a/x`.
abbrev in_working : Bytes
in_working = root ++ (working ++ (b'/' ∷ b'x' ∷ []))

resolves_at :
    guest_path_resolve_at paths (some (root ++ working)) (b'x' ∷ []) false true 64 ≡ ok in_working
unfolding guest_path_resolve_at after_root resolve_from_directory guest_path_resolve_nofollow
    resolve_leaf before_last after_last resolve_guest_symlinks resolve_from walk visit
    normalize_guest_path
resolves_at = refl

-- A directory whose name begins like the root's is not below it.
strays :
    guest_path_resolve_at paths (some (b'/' ∷ b'r' ∷ b's' ∷ [])) (b'x' ∷ []) false true 64
    ≡ err eacces
unfolding guest_path_resolve_at after_root
strays = refl

guest_path_resolve_at-Confined_example : Confined paths false true 64 in_working
guest_path_resolve_at-Confined_example =
    guest_path_resolve_at-Confined paths false true 64 in_working (some (root ++ working))
      (b'x' ∷ []) resolves_at

guest_path_fchdir-Moved_example :
    Moved paths (λ p. directory) (guest_path_fchdir paths (λ p. directory) (some (root ++ working)))
guest_path_fchdir-Moved_example =
    guest_path_fchdir-Moved paths (λ p. directory) (some (root ++ working))

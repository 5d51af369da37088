-- ===== src/GuestPath/Links/Resolved.antt =====
-- src/guest_path.c: what `resolve_guest_symlinks` returns is in normal form and free of links.
use alpine_on_qnx.Prelude.{
  ℕ, zero, suc, ◌+◌, ◌*◌, ◌<◌, ◌≡◌, refl, sym, ap, subst, ◌∙◌, inl, inr, Bool, [], ltb, leb, length,
  Bool-cases, arith,
}
use alpine_on_qnx.GuestPath.{
  Outcome, ok, err, err_unset, overrun, Bytes, and_then, normalize_guest_path,
}
use alpine_on_qnx.GuestPath.Normal.{IsNormal, normalize_guest_path-IsNormal}
use alpine_on_qnx.GuestPath.Links.{
  Paths, Walk, finished, failed, restarted, walk, after_slash, resolve_from, max_links, copied,
  resolve_guest_symlinks,
}
use alpine_on_qnx.GuestPath.Links.Plain.{Plain, walk-Plain}

-- A path that is resolved: in normal form, with no symbolic link in it.
pub record IsResolved (paths : Paths) (allow_missing_leaf : Bool) (path : Bytes) : Type 0 where
  pub normal : IsNormal paths.path_max path
  pub plain : Plain paths allow_missing_leaf [] normal.names

finished-IsResolved :
    (paths : Paths) (allow : Bool) (current : Bytes)
    → IsNormal paths.path_max current
    → walk paths allow [] [] (after_slash current) ≡ finished
    → IsResolved paths allow current
finished-IsResolved paths allow current normal h = record {
  normal = normal;
  plain =
      walk-Plain paths allow [] normal.names normal.all_names
        (ap (λ p. walk paths allow [] [] (after_slash p)) (sym normal.joined) ∙ h);
}

pub and_then_cases :
    (o : Outcome Bytes) (next : Bytes → Outcome Bytes) (result : Bytes)
    → and_then o next ≡ ok result
    → (bytes : Bytes) × (o ≡ ok bytes) × (next bytes ≡ ok result)
and_then_cases (ok bytes) next result h = (bytes, refl, h)
and_then_cases (err e) next result h = absurd cc
and_then_cases err_unset next result h = absurd cc
and_then_cases overrun next result h = absurd cc

pub eq_of_ok : {a b : Bytes} → ok a ≡ ok b → a ≡ b
eq_of_ok e = cc

resolve_from-IsResolved :
    (paths : Paths) (allow : Bool) (left : ℕ) (current resolved : Bytes) (w : Walk)
    → IsNormal paths.path_max current
    → walk paths allow [] [] (after_slash current) ≡ w
    → resolve_from paths allow left current ≡ ok resolved
    → IsResolved paths allow resolved
unfolding resolve_from
resolve_from-IsResolved paths allow zero current resolved finished normal e h =
    subst (IsResolved paths allow) (eq_of_ok (rw (e, resolve_from) at h))
      (finished-IsResolved paths allow current normal e)
resolve_from-IsResolved paths allow zero current resolved (failed r) normal e h =
    absurd (cc (rw (e, resolve_from) at h))
resolve_from-IsResolved paths allow zero current resolved (restarted c) normal e h =
    absurd (cc (rw (e, resolve_from) at h))
resolve_from-IsResolved paths allow (suc left) current resolved finished normal e h =
    subst (IsResolved paths allow) (eq_of_ok (rw (e, resolve_from) at h))
      (finished-IsResolved paths allow current normal e)
resolve_from-IsResolved paths allow (suc left) current resolved (failed r) normal e h =
    absurd (cc (rw (e, resolve_from) at h))
resolve_from-IsResolved paths allow (suc left) current resolved (restarted combined) normal e h =
    elim (Bool-cases (leb (paths.path_max * 2) (length combined))) [
      | inl f ↦ absurd (cc (rw (e, f, resolve_from) at h))
      | inr f ↦
          let again = normalize_guest_path paths.path_max paths.guest_cwd combined paths.path_max in
          let next =
            and_then_cases again (λ next. resolve_from paths allow left next) resolved
              (rw (e, f, resolve_from) at h) in
          resolve_from-IsResolved paths allow left next.0 resolved
            (walk paths allow [] [] (after_slash next.0))
            (normalize_guest_path-IsNormal paths.path_max paths.guest_cwd combined paths.path_max
              next.0 next.1)
            refl next.2
    ]

pub copied_lem :
    (path : Bytes) (size : ℕ) (result : Bytes)
    → copied path size ≡ ok result
    → (path ≡ result) × (length result < size)
copied_lem path size result h = elim (Bool-cases (ltb size (length path + 1))) [
  | inl e ↦ absurd (cc (rw e at h))
  | inr e ↦ let same : path ≡ result = eq_of_ok (rw e at h) in (same, rw (sym same) (ground arith))
]

-- Where `resolve_guest_symlinks` succeeds on a path in normal form, what it returns is again in
-- normal form, fits into the buffer, and no component of it is a symbolic link on the host; the
-- last one may be missing if the caller allows it.
pub resolve_guest_symlinks-IsResolved :
    (paths : Paths) (normalized : Bytes) (allow_missing_leaf : Bool) (size : ℕ) (resolved : Bytes)
    → IsNormal paths.path_max normalized
    → resolve_guest_symlinks paths normalized allow_missing_leaf size ≡ ok resolved
    → IsResolved paths allow_missing_leaf resolved × (length resolved < size)
unfolding resolve_guest_symlinks
resolve_guest_symlinks-IsResolved paths normalized allow size resolved normal h =
    elim (Bool-cases (ltb paths.path_max (length normalized + 1))) [
      | inl e ↦ absurd (cc (rw e at h))
      | inr e ↦
          let found =
            and_then_cases (resolve_from paths allow max_links normalized)
              (λ current. copied current size) resolved (rw e at h) in
          let copy = copied_lem found.0 size resolved found.2 in
          (
            subst (IsResolved paths allow) copy.0 (
                resolve_from-IsResolved paths allow max_links normalized found.0
                  (walk paths allow [] [] (after_slash normalized)) normal refl found.1),
            copy.1,
          )
    ]

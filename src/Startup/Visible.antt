-- ===== src/Startup/Visible.antt =====
-- src/runtime.c: which entries of its environment the guest gets.
use alpine_on_qnx.Prelude.{
  ◌≡◌, ◌⊎◌, refl, ap₂, ap, ◌∙◌, inl, inr, true, false, List, [], ◌∷◌, ◌++◌, ◌==◌, Bool-cases, arith,
}
use alpine_on_qnx.GuestPath.{Bytes}
use alpine_on_qnx.Startup.Stack.{
  starts_with, linuxemu_prefix, library_path_prefix, guest_environment_entry, guest_environment,
}

abbrev pub HasPrefix : Bytes → Bytes → Type 0
HasPrefix prefix text = (rest : Bytes) × (text ≡ prefix ++ rest)

-- An entry that is the emulator's, or the host's path of libraries.
abbrev pub IsHidden : Bytes → Type 0
IsHidden entry = HasPrefix linuxemu_prefix entry ⊎ HasPrefix library_path_prefix entry

-- The texts are the entries that are not hidden, in their order.
pub data Shows : List Bytes → List Bytes → Type 0 where
  no_entry : Shows [] []
  shown :
      {e : Bytes} {es texts : List Bytes}
      → ¬ IsHidden e
      → Shows es texts
      → Shows (e ∷ es) (e ∷ texts)
  hidden : {e : Bytes} {es texts : List Bytes} → IsHidden e → Shows es texts → Shows (e ∷ es) texts

starts_with_sound : (prefix text : Bytes) → starts_with prefix text ≡ true → HasPrefix prefix text
unfolding starts_with
starts_with_sound [] text h = (text, refl)
starts_with_sound (c ∷ prefix) [] h = absurd cc
starts_with_sound (c ∷ prefix) (d ∷ text) h = elim (Bool-cases (c == d)) [
  | inl e ↦
      let same : d ≡ c = ground arith in
      let (rest, more) = starts_with_sound prefix text (rw e at h) in (rest, ap₂ ◌∷◌ same more)
  | inr e ↦ absurd (cc (rw e at h))
]

starts_with_complete : (prefix rest : Bytes) → starts_with prefix (prefix ++ rest) ≡ true
unfolding starts_with
starts_with_complete [] rest = refl
starts_with_complete (c ∷ prefix) rest =
    let self : (c == c) ≡ true = ground arith in rw self (starts_with_complete prefix rest)

not_prefix : (prefix text : Bytes) → starts_with prefix text ≡ false → ¬ HasPrefix prefix text
not_prefix prefix text h (rest, e) =
    absurd (cc (ap (starts_with prefix) e ∙ starts_with_complete prefix rest, h))

pub guest_environment-Shows : (environ : List Bytes) → Shows environ (guest_environment environ)
unfolding guest_environment guest_environment_entry
guest_environment-Shows [] = no_entry
guest_environment-Shows (e ∷ rest) =
    let more = guest_environment-Shows rest in
    elim (Bool-cases (starts_with linuxemu_prefix e)) [
      | inl own ↦ rw own (hidden (inl (starts_with_sound linuxemu_prefix e own)) more)
      | inr other ↦ elim (Bool-cases (starts_with library_path_prefix e)) [
        | inl libraries ↦
            rw (other, libraries)
              (hidden (inr (starts_with_sound library_path_prefix e libraries)) more)
        | inr free ↦
            let not_hidden : ¬ IsHidden e = λ s. elim s [
              | inl p ↦ not_prefix linuxemu_prefix e other p
              | inr p ↦ not_prefix library_path_prefix e free p
            ] in
            rw (other, free) (shown not_hidden more)
      ]
    ]

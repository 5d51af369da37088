-- ===== src/Startup/Started.antt =====
-- src/runtime.c: the finished stack of the guest.
use alpine_on_qnx.Prelude.{
  ℕ, ◌+◌, ◌-◌, ◌*◌, ◌/◌, ◌%◌, ◌^◌, ◌≤◌, ◌<◌, ◌≡◌, ◌⊎◌, refl, ap, subst, ◌∙◌, inl, inr, Bool, true,
  false, ◌&&◌, Option, some, List, ltb, leb, length, Bool-cases, Option-cases, eq_of_some, arith,
}
use alpine_on_qnx.Words.{align_down, align_down_lem, IsPage}
use alpine_on_qnx.Elf.Image.{GuestImage}
use alpine_on_qnx.GuestPath.{Bytes}
use alpine_on_qnx.Memory.Segments.{fill}
use alpine_on_qnx.Startup.Placed.{
  StandsAt, AllStand, SameBeside, AllStand-keep, AllStand-length, push_bytes-PushedOne,
  push_environment-Pushed, push_arguments-Pushed, beside_trans,
}
use alpine_on_qnx.Startup.Vector.{IsVector, vector_of-IsVector}
use alpine_on_qnx.Startup.Visible.{Shows, guest_environment-Shows}
use alpine_on_qnx.Startup.Stack.{
  Filling, Identity, Built, guest_stack_size, guest_environment, push_bytes, push_environment,
  push_arguments, auxiliary, first_of, vector_of, vector_byte, finish_stack, build_stack,
}

sixteen : IsPage 16
sixteen = record {
  low_bits = 4;
  high_bits = 28;
  is_power = refl;
  in_word = refl;
  above_one = omega arith;
}

aligned :
    (v : ℕ)
    → v < 2 ^ 32
    → (align_down v 16 ≤ v) × (align_down v 16 % 16 ≡ 0) × (v < align_down v 16 + 16)
aligned v lt =
    let e = align_down_lem sixteen v lt in (omega (arith, e), omega (arith, e), omega (arith, e))

-- A finished stack in `guest_stack_size` bytes from `lower`: it begins at a multiple of 16, the
-- arguments and the texts of the environment stand above its words with their NULs, its bytes are
-- those of its words, and nothing beside the range has changed.
pub record IsBuilt (lower : ℕ) (arguments environment : List Bytes) (old : ℕ → ℕ) (b : Built)
    : Type 0 where
  pub low : lower ≤ b.start
  pub aligned_start : b.start % 16 ≡ 0
  pub high : b.start + 4 * length b.vector ≤ lower + guest_stack_size
  pub arguments_stand :
      AllStand
        (b.start + 4 * length b.vector)
        (lower + guest_stack_size)
        b.bytes
        b.arguments
        arguments
  pub environment_stand :
      AllStand
        (b.start + 4 * length b.vector)
        (lower + guest_stack_size)
        b.bytes
        b.environment
        environment
  pub words : (i : ℕ) → i < 4 * length b.vector → b.bytes (b.start + i) ≡ vector_byte b.vector i
  pub beside : SameBeside lower (lower + guest_stack_size) old b.bytes

-- The same, and that the environment is what is to be shown of `environ`, that a program finds in the
-- words the count and the addresses of its arguments, the addresses of its environment and the values
-- of the auxiliary vector, and that the random bytes stand at their address.
pub record IsStack (lower : ℕ) (who : Identity) (image : GuestImage) (random : Bytes)
    (arguments environ : List Bytes) (old : ℕ → ℕ) (b : Built) : Type 0 where
  pub texts : List Bytes
  pub shows : Shows environ texts
  pub built : IsBuilt lower arguments texts old b
  pub argument_count : length b.arguments ≡ length arguments
  pub environment_count : length b.environment ≡ length texts
  pub vector : IsVector who image b.random_address b.arguments b.environment b.vector
  pub random_stands : StandsAt b.bytes b.random_address random

filled :
    (start len i : ℕ) (byte bytes : ℕ → ℕ)
    → i < len
    → fill start len byte bytes (start + i) ≡ byte i
filled start len i byte bytes lt =
    let inside : leb start (start + i) && ltb (start + i) (start + len) ≡ true = ground arith in
    let place : start + i - start ≡ i = omega arith in rw inside (ap byte place)

fill_beside :
    (start len x : ℕ) (byte bytes : ℕ → ℕ)
    → (x < start) ⊎ (start + len ≤ x)
    → fill start len byte bytes x ≡ bytes x
fill_beside start len x byte bytes out = ground (arith, out)

spread : (x lo hi lo' hi' : ℕ) → lo ≤ lo' → hi' ≤ hi → (x < lo) ⊎ (hi ≤ x) → (x < lo') ⊎ (hi' ≤ x)
spread x lo hi lo' hi' le le' (inl lt) = inl (omega arith)
spread x lo hi lo' hi' le le' (inr ge) = inr (omega arith)

fits_below :
    (cursor lower len start : ℕ)
    → ltb ((cursor - lower) / 4) len ≡ false
    → start ≤ cursor - len * 4
    → start + 4 * len ≤ cursor
fits_below cursor lower len start room le = ground arith

-- From the random bytes on, where the strings stand above the cursor.
finish_stack-IsStack :
    (lower : ℕ) (who : Identity) (image : GuestImage) (random : Bytes)
    (arguments environ : List Bytes) (as' es : List ℕ) (old : ℕ → ℕ) (f : Filling) (b : Built)
    → lower + guest_stack_size < 2 ^ 32
    → lower % 16 ≡ 0
    → lower ≤ f.cursor
    → f.cursor ≤ lower + guest_stack_size
    → AllStand f.cursor (lower + guest_stack_size) f.bytes as' arguments
    → AllStand f.cursor (lower + guest_stack_size) f.bytes es (guest_environment environ)
    → SameBeside f.cursor (lower + guest_stack_size) old f.bytes
    → finish_stack lower who image random as' es f ≡ some b
    → IsStack lower who image random arguments environ old b
unfolding finish_stack
finish_stack-IsStack lower who image random arguments environ as' es old f b small page low high sa
      se beside h =
    let (down, sixteenth, near) = aligned f.cursor (omega arith) in
    let start_f : Filling = record f { cursor = align_down f.cursor 16 } in
    elim (Option-cases (push_bytes lower random start_f)) [
      | inl full ↦ absurd (cc (rw (full, finish_stack) at h))
      | inr (g, e) ↦
          let one = push_bytes-PushedOne lower random start_f g (omega arith) e in
          let vector = vector_of as' es (auxiliary who image g.cursor (first_of as')) in
          let (down', sixteenth', near') =
            aligned (g.cursor - length vector * 4) (omega (arith, one.size)) in
          elim (Bool-cases (ltb ((g.cursor - lower) / 4) (length vector))) [
            | inl full ↦ absurd (cc (rw (e, full, finish_stack) at h))
            | inr room ↦
                elim (Bool-cases (ltb (align_down (g.cursor - length vector * 4) 16) lower)) [
                  | inl out ↦ absurd (cc (rw (e, room, out, finish_stack) at h))
                  | inr fits ↦
                      let len = length vector in
                      let start = align_down (g.cursor - len * 4) 16 in
                      let top : start + 4 * len ≤ g.cursor =
                        fits_below g.cursor lower len start room down' in
                      let low_start : lower ≤ start = ground arith in
                      let end = lower + guest_stack_size in
                      let word = vector_byte vector in
                      let rise : g.cursor ≤ f.cursor = omega (arith, one.size) in
                      let kept = λ (x : ℕ) (a : f.cursor ≤ x) (b : x < end).
                        fill_beside start (4 * len) x word g.bytes (inr (omega (arith, a)))
                        ∙ one.beside x (inr (omega (arith, a))) in
                      subst (IsStack lower who image random arguments environ old)
                        (eq_of_some (rw (e, room, fits, finish_stack) at h))
                        (record {
                          texts = guest_environment environ;
                          shows = guest_environment-Shows environ;
                          argument_count =
                              AllStand-length f.cursor (lower + guest_stack_size) f.bytes as'
                                arguments sa;
                          environment_count =
                              AllStand-length f.cursor (lower + guest_stack_size) f.bytes es
                                (guest_environment environ) se;
                          built = record {
                            low = low_start;
                            aligned_start = sixteenth';
                            high = omega (arith, top);
                            arguments_stand =
                                AllStand-keep f.cursor end (start + 4 * len) end f.bytes _ as'
                                  arguments (omega (arith, top)) (omega arith) kept sa;
                            environment_stand =
                                AllStand-keep f.cursor end (start + 4 * len) end f.bytes _ es
                                  (guest_environment environ) (omega (arith, top)) (omega arith)
                                  kept se;
                            words = λ i lt. filled start (4 * len) i word g.bytes lt;
                            beside = λ x out.
                                fill_beside start (4 * len) x word g.bytes (
                                  spread x lower end start (start + 4 * len) low_start
                                    (omega (arith, top)) out)
                                ∙ one.beside x (
                                    spread x lower end g.cursor (align_down f.cursor 16) one.low
                                      (omega arith) out)
                                ∙ beside x (spread x lower end f.cursor end low (omega arith) out);
                          };
                          vector = vector_of-IsVector who image g.cursor as' es;
                          random_stands = λ i lt.
                              fill_beside start (4 * len) (g.cursor + i) word g.bytes
                                (inr (omega (arith, top)))
                              ∙ one.stands i lt;
                        })
                ]
          ]
    ]

module _ (lower : ℕ) (who : Identity) (image : GuestImage) (random : Option Bytes)
    (arguments environ : List Bytes) (bytes : ℕ → ℕ) where
  -- Wherever a page of memory is that the stack is put on, a stack that can be built in it is one as
  -- the guest expects it. It begins at a multiple of 16 in the mapping with the count of the
  -- arguments, their addresses, 0, the addresses of the entries of the environment that begin neither
  -- with LINUXEMU_ nor with LD_LIBRARY_PATH=, in their order, and 0. Behind that a program finds in the
  -- auxiliary vector the values of the image, the identity and the page size under their types, with
  -- the addresses of the random bytes and of the first argument. Above the words, in the mapping, stand
  -- all these strings with their NULs; the random bytes stand at their address; nothing beside the
  -- mapping has changed.
  pub build_stack-IsStack :
      (memory : Bool) (b : Built)
      → lower + guest_stack_size < 2 ^ 32
      → lower % 16 ≡ 0
      → build_stack lower who image memory random arguments environ bytes ≡ some b
      → (r : Bytes) × (random ≡ some r) × IsStack lower who image r arguments environ bytes b
  unfolding build_stack
  build_stack-IsStack memory b small page h =
      let top = lower + guest_stack_size in
      let empty : Filling = record { cursor = top; bytes = bytes } in
      elim (Bool-cases memory) [
        | inr none_left ↦ absurd (cc (rw none_left at h))
        | inl enough ↦
            elim (Option-cases (push_environment lower (guest_environment environ) empty)) [
              | inl full ↦ absurd (cc (rw (enough, full, build_stack) at h))
              | inr (e, pushed) ↦
                  let one =
                    push_environment-Pushed lower (guest_environment environ) empty e.1 e.0
                      (omega arith) pushed in
                  elim (Option-cases (push_arguments lower arguments e.1)) [
                    | inl full ↦ absurd (cc (rw (enough, pushed, full, build_stack) at h))
                    | inr (a, all) ↦
                        let two = push_arguments-Pushed lower arguments e.1 a.1 a.0 one.low all in
                        elim (Option-cases random) [
                          | inl no_random ↦
                              absurd (cc (rw (enough, pushed, all, no_random, build_stack) at h))
                          | inr (r, given) ↦ (
                            r,
                            given,
                            finish_stack-IsStack lower who image r arguments environ a.0 e.0 bytes
                                a.1 b small page two.low (omega (arith, two.down, one.down))
                                (AllStand-keep a.1.cursor e.1.cursor a.1.cursor top a.1.bytes
                                  a.1.bytes a.0 arguments (omega arith) one.down (λ x p q. refl)
                                  two.stand)
                                (AllStand-keep e.1.cursor top a.1.cursor top e.1.bytes a.1.bytes e.0
                                  (guest_environment environ) two.down (omega arith)
                                  (λ x p q. two.beside x (inr p)) one.stand)
                                (beside_trans a.1.cursor e.1.cursor top bytes e.1.bytes a.1.bytes
                                  two.down one.down one.beside two.beside)
                                (rw (enough, pushed, all, given, build_stack) at h),
                          )
                        ]
                  ]
            ]
      ]

-- ===== src/Startup/Vector.antt =====
-- src/runtime.c: what a program finds in the words of its first stack.
use alpine_on_qnx.Prelude.{
  ℕ, zero, suc, ◌+◌, ◌<◌, ◌≡◌, refl, sym, subst, ◌∙◌, inl, inr, Option, none, some, List, [], ◌∷◌,
  ◌++◌, ◌==◌, if◌then◌else◌, length, Bool-cases, arith,
}
use alpine_on_qnx.Elf.Image.{GuestImage}
use alpine_on_qnx.Startup.Stack.{Identity, auxiliary, first_of, vector_of, word_of}

-- The words from an index on.
abbrev pub words_from : ℕ → List ℕ → List ℕ
words_from zero words = words
words_from (suc n) [] = []
words_from (suc n) (w ∷ rest) = words_from n rest

-- What a program finds under a type in the auxiliary vector, whose end is the type 0.
abbrev pub auxiliary_value : ℕ → List ℕ → Option ℕ
auxiliary_value type [] = none
auxiliary_value type (t ∷ []) = none
auxiliary_value type (t ∷ (value ∷ rest)) =
    if t == 0 then none else if t == type then some value else auxiliary_value type rest

-- The values that a program finds, by the names of the types in the headers of Linux.
pub record IsAuxiliary (who : Identity) (image : GuestImage) (random_address name : ℕ)
    (words : List ℕ) : Type 0 where
  pub phdr :
      auxiliary_value 3 words
      ≡ (if image.program_headers == 0 then none else some image.program_headers)
  pub phent : auxiliary_value 4 words ≡ some image.program_header_size
  pub phnum : auxiliary_value 5 words ≡ some image.program_header_count
  pub pagesz : auxiliary_value 6 words ≡ some who.page_size
  pub base : auxiliary_value 7 words ≡ some image.interpreter_base
  pub entry : auxiliary_value 9 words ≡ some image.entry
  pub uid : auxiliary_value 11 words ≡ some who.uid
  pub euid : auxiliary_value 12 words ≡ some who.euid
  pub gid : auxiliary_value 13 words ≡ some who.gid
  pub egid : auxiliary_value 14 words ≡ some who.egid
  pub secure : auxiliary_value 23 words ≡ some 0
  pub random : auxiliary_value 25 words ≡ some random_address
  pub execfn : auxiliary_value 31 words ≡ some name

-- The words of a stack for these addresses of arguments and environment.
pub record IsVector (who : Identity) (image : GuestImage) (random_address : ℕ)
    (arguments environment words : List ℕ) : Type 0 where
  pub count : word_of words 0 ≡ length arguments
  pub argument_words : (i : ℕ) → i < length arguments → word_of words (suc i) ≡ word_of arguments i
  pub argument_end : word_of words (suc (length arguments)) ≡ 0
  pub environment_words :
      (i : ℕ)
      → i < length environment
      → word_of words (suc (length arguments + suc i)) ≡ word_of environment i
  pub environment_end : word_of words (suc (length arguments + suc (length environment))) ≡ 0
  pub auxiliary_words :
      IsAuxiliary who image random_address
        (word_of arguments 0)
        (words_from (suc (length arguments + suc (length environment + 1))) words)

word_of-first : (xs ys : List ℕ) (i : ℕ) → i < length xs → word_of (xs ++ ys) i ≡ word_of xs i
word_of-first [] ys i lt = absurd (omega (arith, lt))
word_of-first (x ∷ xs) ys zero lt = refl
word_of-first (x ∷ xs) ys (suc i) lt = word_of-first xs ys i (omega (arith, lt))

word_of-second : (xs ys : List ℕ) (i : ℕ) → word_of (xs ++ ys) (length xs + i) ≡ word_of ys i
word_of-second [] ys i = let e : 0 + i ≡ i = omega arith in rw e refl
word_of-second (x ∷ xs) ys i =
    let e : length (x ∷ xs) + i ≡ suc (length xs + i) = omega arith in rw e (word_of-second xs ys i)

words_from-second :
    (xs ys : List ℕ) (i : ℕ) → words_from (length xs + i) (xs ++ ys) ≡ words_from i ys
words_from-second [] ys i = let e : 0 + i ≡ i = omega arith in rw e refl
words_from-second (x ∷ xs) ys i =
    let e : length (x ∷ xs) + i ≡ suc (length xs + i) = omega arith in
    rw e (words_from-second xs ys i)

auxiliary-IsAuxiliary :
    (who : Identity) (image : GuestImage) (random_address name : ℕ)
    → IsAuxiliary who image random_address name (auxiliary who image random_address name)
unfolding auxiliary
auxiliary-IsAuxiliary who image random_address name =
    elim (Bool-cases (image.program_headers == 0)) [
      | inl e ↦
          rw (e, auxiliary)
            (record {
              phdr = rw e refl;
              phent = refl;
              phnum = refl;
              pagesz = refl;
              base = refl;
              entry = refl;
              uid = refl;
              euid = refl;
              gid = refl;
              egid = refl;
              secure = refl;
              random = refl;
              execfn = refl;
            })
      | inr e ↦
          rw (e, auxiliary)
            (record {
              phdr = rw e refl;
              phent = refl;
              phnum = refl;
              pagesz = refl;
              base = refl;
              entry = refl;
              uid = refl;
              euid = refl;
              gid = refl;
              egid = refl;
              secure = refl;
              random = refl;
              execfn = refl;
            })
    ]

first_word : (xs : List ℕ) → first_of xs ≡ word_of xs 0
first_word [] = refl
first_word (x ∷ xs) = refl

pub vector_of-IsVector :
    (who : Identity) (image : GuestImage) (random_address : ℕ) (arguments environment : List ℕ)
    → IsVector who image random_address arguments environment
        (vector_of arguments environment (auxiliary who image random_address (first_of arguments)))
vector_of-IsVector who image random_address arguments environment =
    let aux = auxiliary who image random_address (first_of arguments) in
    let rest = 0 ∷ (environment ++ (0 ∷ aux)) in
    let len = length environment in
    let second = word_of-second arguments rest in
    let same : words_from (suc (length arguments + suc (len + 1)))
          (vector_of arguments environment aux)
        ≡ aux =
      words_from-second arguments rest (suc (len + 1))
      ∙ words_from-second environment (0 ∷ aux) 1 in
    record {
      count = refl;
      argument_words = λ i lt. word_of-first arguments rest i lt;
      argument_end =
          let e : length arguments + 0 ≡ length arguments = omega arith in rw e at (second 0);
      environment_words = λ i lt. second (suc i) ∙ word_of-first environment (0 ∷ aux) i lt;
      environment_end =
          let e : len + 0 ≡ len = omega arith in
          second (suc len) ∙ rw e at (word_of-second environment (0 ∷ aux) 0);
      auxiliary_words =
          subst (λ (ws : List ℕ). IsAuxiliary who image random_address (word_of arguments 0) ws)
            (sym same)
            (subst (λ (name : ℕ). IsAuxiliary who image random_address name aux)
              (first_word arguments) (auxiliary-IsAuxiliary who image random_address _));
    }

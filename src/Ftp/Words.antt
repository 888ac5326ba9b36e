-- ===== src/Ftp/Words.antt =====
-- The words of a text, and what the scanning of one word does to them.
use cn.Base.{
  ℕ, ◌≤◌, ◌≡◌, refl, sym, ap, ◌∙◌, Bool, true, false, not, List, [], ◌∷◌, if◌then◌else◌, length,
  arith, Bool-cases, inl, inr,
}
use cn.Nfs.Text.{is_space, skip}
use cn.Ftp.{take_word, drop_word}

-- A word begins at the first character.
abbrev pub begins_word : List ℕ → Bool
begins_word [] = false
begins_word (c ∷ s) = not (is_space c)

-- The character goes on with the first word, or is a word by itself.
abbrev pub put_before : ℕ → Bool → List (List ℕ) → List (List ℕ)
put_before c true (w ∷ ws) = (c ∷ w) ∷ ws
put_before c true [] = (c ∷ []) ∷ []
put_before c false ws = (c ∷ []) ∷ ws

-- The words of a text, which white space separates, by one pass from the right.
unfoldable pub words : List ℕ → List (List ℕ)
words [] = []
words (c ∷ s) =
    let later = words s in if is_space c then later else put_before c (begins_word s) later

-- The last character is one of a word.
unfoldable pub ends_word : List ℕ → Bool
ends_word [] = false
ends_word (c ∷ []) = not (is_space c)
ends_word (c ∷ d ∷ s) = ends_word (d ∷ s)

words-space : (c : ℕ) (s : List ℕ) → is_space c ≡ true → words (c ∷ s) ≡ words s
unfolding words
words-space c s space = rw space refl

words-other :
    (c : ℕ) (s : List ℕ)
    → is_space c ≡ false
    → words (c ∷ s) ≡ put_before c (begins_word s) (words s)
unfolding words
words-other c s other = rw other refl

pub words-skip : (s : List ℕ) → words (skip is_space s) ≡ words s
words-skip [] = refl
words-skip (c ∷ s) = elim (Bool-cases (is_space c)) [
  | inl space ↦ rw space (words-skip s ∙ sym (words-space c s space))
  | inr other ↦ rw other refl
]

pub words-take_word :
    (c : ℕ) (s : List ℕ)
    → is_space c ≡ false
    → words (c ∷ s) ≡ take_word (c ∷ s) ∷ words (drop_word (c ∷ s))
words-take_word c [] other = words-other c [] other ∙ rw other (no_words c)
  where
    no_words : (x : ℕ) → put_before x false (words []) ≡ (x ∷ []) ∷ words []
    no_words x = refl
words-take_word c (d ∷ s) other = elim (Bool-cases (is_space d)) [
  | inl space ↦ words-other c (d ∷ s) other ∙ rw (space, other) refl
  | inr more ↦
      words-other c (d ∷ s) other
      ∙ ap (λ b. put_before c (not b) (words (d ∷ s))) more
      ∙ ap (put_before c true) (words-take_word d s more)
      ∙ rw other refl
]

ends_word-one : (c : ℕ) → ends_word (c ∷ []) ≡ not (is_space c)
unfolding ends_word
ends_word-one c = refl

ends_word-cons : (c d : ℕ) (s : List ℕ) → ends_word (c ∷ d ∷ s) ≡ ends_word (d ∷ s)
unfolding ends_word
ends_word-cons c d s = refl

ends_word-nil : ends_word [] ≡ false
unfolding ends_word
ends_word-nil = refl

pub ends_word-skip : (s : List ℕ) → ends_word (skip is_space s) ≡ ends_word s
ends_word-skip [] = refl
ends_word-skip (c ∷ []) = elim (Bool-cases (is_space c)) [
  | inl space ↦ rw (ends_word-one c, space) ends_word-nil
  | inr other ↦ rw other refl
]
ends_word-skip (c ∷ d ∷ s) = elim (Bool-cases (is_space c)) [
  | inl space ↦ rw space (ends_word-skip (d ∷ s) ∙ sym (ends_word-cons c d s))
  | inr other ↦ rw other refl
]

-- What is left behind a word that begins a text: if nothing is, the text ends with that word.
abbrev pub ends_or_true : List ℕ → Bool
ends_or_true [] = true
ends_or_true (c ∷ s) = ends_word (c ∷ s)

pub ends_word-drop_word :
    (c : ℕ) (s : List ℕ) → is_space c ≡ false → ends_word (c ∷ s) ≡ ends_or_true (drop_word (c ∷ s))
ends_word-drop_word c [] other = ends_word-one c ∙ rw other refl
ends_word-drop_word c (d ∷ s) other = elim (Bool-cases (is_space d)) [
  | inl space ↦ ends_word-cons c d s ∙ rw (space, other) refl
  | inr more ↦ ends_word-cons c d s ∙ ends_word-drop_word d s more ∙ rw other refl
]

pub length-drop_word : (s : List ℕ) → length (drop_word s) ≤ length s
length-drop_word [] = omega arith
length-drop_word (c ∷ s) = elim (Bool-cases (is_space c)) [
  | inl space ↦ rw space (omega arith)
  | inr other ↦ rw other (omega (arith, length-drop_word s))
]

pub length-skip : (s : List ℕ) → length (skip is_space s) ≤ length s
length-skip [] = omega arith
length-skip (c ∷ s) = elim (Bool-cases (is_space c)) [
  | inl space ↦ rw space (omega (arith, length-skip s))
  | inr other ↦ rw other (omega arith)
]

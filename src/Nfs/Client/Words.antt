-- ===== src/Nfs/Client/Words.antt =====
-- How a line of words is taken apart.
use cn.Base.{
  ℕ, zero, suc, ◌≤◌, ◌≡◌, refl, ap, subst, Bool, true, false, ◌||◌, ◌&&◌, not, Bool-cases, inl, inr,
  some, List, [], ◌∷◌, ◌++◌, ◌==◌, length, arith,
}
use cn.Nfs.Text.{is_blank, is_blank_or_newline, span, strtok, strip, before_newline}
use cn.Nfs.Client.{read_args}

-- Characters that no call of `strtok` takes for a delimiter.
abbrev pub Plain : List ℕ → Type 0
Plain [] = Unit
Plain (c ∷ s) = ((c == 32) ≡ false) × ((c == 10) ≡ false) × Plain s

abbrev pub IsWord : List ℕ → Type 0
IsWord [] = ⊥
IsWord (c ∷ s) = Plain (c ∷ s)

abbrev pub is_plain : List ℕ → Bool
is_plain [] = true
is_plain (c ∷ s) = not (is_blank_or_newline c) && is_plain s

pub Plain-is_plain : (s : List ℕ) → is_plain s ≡ true → Plain s
Plain-is_plain [] h = tt
Plain-is_plain (c ∷ s) h = elim (Bool-cases (c == 32)) [
  | inl b ↦ absurd (no (subst (λ v. (not (v || (c == 10)) && is_plain s) ≡ true) b h))
  | inr b ↦ elim (Bool-cases (c == 10)) [
    | inl n ↦ absurd (
        no (
          subst (λ v. (not v && is_plain s) ≡ true) n
            (subst (λ v. (not (v || (c == 10)) && is_plain s) ≡ true) b h)))
    | inr n ↦ (
      b,
      n,
      Plain-is_plain s (
          subst (λ v. (not v && is_plain s) ≡ true) n
            (subst (λ v. (not (v || (c == 10)) && is_plain s) ≡ true) b h)),
    )
  ]
]
  where
    no : ¬ (false ≡ true)
    no e = ground arith

abbrev pub AllWords : List (List ℕ) → Type 0
AllWords [] = Unit
AllWords (w ∷ ws) = IsWord w × AllWords ws

-- Words with single blanks between them and a newline at the end.
abbrev pub join : List (List ℕ) → List ℕ
join [] = []
join (w ∷ []) = w ++ 10 ∷ []
join (w ∷ v ∷ ws) = w ++ 32 ∷ join (v ∷ ws)

-- The words, with the newline at the last one.
abbrev pub ended : List (List ℕ) → List (List ℕ)
ended [] = []
ended (w ∷ []) = (w ++ 10 ∷ []) ∷ []
ended (w ∷ v ∷ ws) = w ∷ ended (v ∷ ws)

span-blank : (w rest : List ℕ) → Plain w → span is_blank (w ++ 32 ∷ rest) ≡ (w, rest)
span-blank [] rest h = refl
span-blank (c ∷ w) rest (b, n, h) = rw (b, span-blank w rest h)

span-newline : (w : List ℕ) → Plain w → span is_blank (w ++ 10 ∷ []) ≡ (w ++ 10 ∷ [], [])
span-newline [] h = refl
span-newline (c ∷ w) (b, n, h) = rw (b, span-newline w h)

span-command : (w rest : List ℕ) → Plain w → span is_blank_or_newline (w ++ 32 ∷ rest) ≡ (w, rest)
span-command [] rest h = refl
span-command (c ∷ w) rest (b, n, h) = rw (b, n, span-command w rest h)

pub strtok-command :
    (w rest : List ℕ) → IsWord w → strtok is_blank_or_newline (w ++ 32 ∷ rest) ≡ some (w, rest)
unfolding strtok
strtok-command [] rest h = absurd h
strtok-command (c ∷ w) rest (b, n, h) = rw (b, n) (ap some (span-command (c ∷ w) rest (b, n, h)))

strtok-word : (w rest : List ℕ) → IsWord w → strtok is_blank (w ++ 32 ∷ rest) ≡ some (w, rest)
unfolding strtok
strtok-word [] rest h = absurd h
strtok-word (c ∷ w) rest (b, n, h) = rw b (ap some (span-blank (c ∷ w) rest (b, n, h)))

strtok-last : (w : List ℕ) → IsWord w → strtok is_blank (w ++ 10 ∷ []) ≡ some (w ++ 10 ∷ [], [])
unfolding strtok
strtok-last [] h = absurd h
strtok-last (c ∷ w) (b, n, h) = rw b (ap some (span-newline (c ∷ w) (b, n, h)))

read_args-nil : (n : ℕ) → read_args n [] ≡ []
unfolding read_args strtok
read_args-nil zero = refl
read_args-nil (suc n) = refl

-- The words of a line that has not more of them than there is room for.
pub read_args-join :
    (n : ℕ) (ws : List (List ℕ)) → AllWords ws → length ws ≤ n → read_args n (join ws) ≡ ended ws
unfolding read_args
read_args-join n [] h k = read_args-nil n
read_args-join zero (w ∷ ws) h k = absurd (omega arith)
read_args-join (suc n) (w ∷ []) (h, hs) k = rw (strtok-last w h, read_args-nil n)
read_args-join (suc n) (w ∷ v ∷ ws) (h, hs) k =
    rw (strtok-word w (join (v ∷ ws)) h, read_args-join n (v ∷ ws) hs (omega arith))

before_newline-Plain : (w : List ℕ) → Plain w → before_newline w ≡ w
before_newline-Plain [] h = refl
before_newline-Plain (c ∷ w) (b, n, h) = rw (n, before_newline-Plain w h)

before_newline-ended : (w : List ℕ) → Plain w → before_newline (w ++ 10 ∷ []) ≡ w
before_newline-ended [] h = refl
before_newline-ended (c ∷ w) (b, n, h) = rw (n, before_newline-ended w h)

pub strip-Plain : (w : List ℕ) → IsWord w → strip w ≡ w
unfolding strip
strip-Plain [] h = absurd h
strip-Plain (c ∷ w) (b, n, h) = rw (n, before_newline-Plain w h)

pub strip-ended : (w : List ℕ) → IsWord w → strip (w ++ 10 ∷ []) ≡ w
unfolding strip
strip-ended [] h = absurd h
strip-ended (c ∷ w) (b, n, h) = rw (n, before_newline-ended w h)

-- ===== src/Readers/Lines.antt =====
-- What is printed.
use cn.Base.{
  ℕ, zero, suc, ◌+◌, ◌≡◌, refl, ap, Bool, true, ◌&&◌, ◌||◌, Option, none, some, List, [], ◌∷◌, ◌++◌,
  ◌==◌, if◌then◌else◌, ltb, length, take, arith, Bool-cases, inl, inr,
}
use cn.Readers.{overwrite, has_zero, before_zero, print_text, cleared, read_ready, read_rounds}

-- The bytes that are read leave a zero in the buffer.
abbrev pub is_terminated : ℕ → List ℕ → Bool
is_terminated size bytes = ltb (length bytes) size || has_zero (take size bytes)

-- The text of the bytes that are read.
abbrev pub text_of : ℕ → List ℕ → List ℕ
text_of size bytes = before_zero (take size bytes)

pub has_zero-overwrite :
    (size : ℕ) (bytes : List ℕ)
    → has_zero (overwrite bytes (cleared size)) ≡ is_terminated size bytes
has_zero-overwrite zero [] = refl
has_zero-overwrite zero (b ∷ bytes) = ground arith
has_zero-overwrite (suc size) [] = ground arith
has_zero-overwrite (suc size) (b ∷ bytes) = ground (arith, has_zero-overwrite size bytes)

pub before_zero-overwrite :
    (size : ℕ) (bytes : List ℕ) → before_zero (overwrite bytes (cleared size)) ≡ text_of size bytes
before_zero-overwrite zero [] = refl
before_zero-overwrite zero (b ∷ bytes) = refl
before_zero-overwrite (suc size) [] = refl
before_zero-overwrite (suc size) (b ∷ bytes) = elim (Bool-cases (b == 0)) [
  | inl end ↦ rw end refl
  | inr more ↦ rw more (ap (◌∷◌ b) (before_zero-overwrite size bytes))
]

print_text-overwrite :
    (size : ℕ) (bytes : List ℕ)
    → print_text (overwrite bytes (cleared size))
      ≡ (if is_terminated size bytes then some (text_of size bytes) else none)
print_text-overwrite size bytes =
    rw (has_zero-overwrite size bytes, before_zero-overwrite size bytes) refl

-- The texts that come in a round over the descriptors that are waited for, from i on.
unfoldable pub texts : ℕ → (ℕ → Bool) → ℕ → List (Option (List ℕ)) → List (List ℕ)
texts size watched i [] = []
texts size watched i (none ∷ fdp) = texts size watched (i + 1) fdp
texts size watched i (some bytes ∷ fdp) =
    let rest = texts size watched (i + 1) fdp in
    if watched i then text_of size bytes ∷ rest else rest

-- Each of them leaves a zero in the buffer.
unfoldable pub all_terminated : ℕ → (ℕ → Bool) → ℕ → List (Option (List ℕ)) → Bool
all_terminated size watched i [] = true
all_terminated size watched i (none ∷ fdp) = all_terminated size watched (i + 1) fdp
all_terminated size watched i (some bytes ∷ fdp) =
    let rest = all_terminated size watched (i + 1) fdp in
    if watched i then is_terminated size bytes && rest else rest

pub read_ready-texts :
    (size : ℕ) (watched : ℕ → Bool) (i : ℕ) (fdp : List (Option (List ℕ)))
    → read_ready size watched i fdp (cleared size) ≡ (
        if all_terminated size watched i fdp
        then some (texts size watched i fdp, cleared size)
        else none)
unfolding read_ready texts all_terminated
read_ready-texts size watched i [] = refl
read_ready-texts size watched i (none ∷ fdp) = read_ready-texts size watched (i + 1) fdp
read_ready-texts size watched i (some bytes ∷ fdp) = elim (Bool-cases (watched i)) [
  | inl waits ↦ elim (Bool-cases (is_terminated size bytes)) [
    | inl ends ↦ elim (Bool-cases (all_terminated size watched (i + 1) fdp)) [
      | inl all_end ↦
          rw
            (
              waits,
              print_text-overwrite size bytes,
              ends,
              read_ready-texts size watched (i + 1) fdp,
              all_end,
            )
            refl
      | inr not_all ↦
          rw
            (
              waits,
              print_text-overwrite size bytes,
              ends,
              read_ready-texts size watched (i + 1) fdp,
              not_all,
            )
            refl
    ]
    | inr runs_on ↦ rw (waits, print_text-overwrite size bytes, runs_on) refl
  ]
  | inr ignored ↦ rw ignored (read_ready-texts size watched (i + 1) fdp)
]

unfoldable pub all_texts : ℕ → (ℕ → Bool) → List (List (Option (List ℕ))) → List (List ℕ)
unfolding texts
all_texts size watched [] = []
all_texts size watched (fdp ∷ rounds) = texts size watched 0 fdp ++ all_texts size watched rounds

unfoldable pub rounds_terminated : ℕ → (ℕ → Bool) → List (List (Option (List ℕ))) → Bool
unfolding all_terminated
rounds_terminated size watched [] = true
rounds_terminated size watched (fdp ∷ rounds) =
    all_terminated size watched 0 fdp && rounds_terminated size watched rounds

-- Over any number of rounds, and for a buffer of any size, every message is printed as it came up to its first zero,
-- with nothing of an earlier one behind it; and the program reads behind its buffer if and only if some
-- message fills it and has no zero.
pub read_rounds-all_texts :
    (size : ℕ) (watched : ℕ → Bool) (rounds : List (List (Option (List ℕ))))
    → read_rounds size watched rounds (cleared size) ≡ (
        if rounds_terminated size watched rounds
        then some (all_texts size watched rounds)
        else none)
unfolding read_rounds all_texts rounds_terminated
read_rounds-all_texts size watched [] = refl
read_rounds-all_texts size watched (fdp ∷ rounds) =
    elim (Bool-cases (all_terminated size watched 0 fdp)) [
      | inl ends ↦ elim (Bool-cases (rounds_terminated size watched rounds)) [
        | inl all_end ↦
            rw
              (
                read_ready-texts size watched 0 fdp,
                ends,
                read_rounds-all_texts size watched rounds,
                all_end,
              )
              refl
        | inr not_all ↦
            rw
              (
                read_ready-texts size watched 0 fdp,
                ends,
                read_rounds-all_texts size watched rounds,
                not_all,
              )
              refl
      ]
      | inr runs_on ↦ rw (read_ready-texts size watched 0 fdp, runs_on) refl
    ]

-- ===== src/Concurrent/Lines.antt =====
-- What a client leaves in the buffer, and how it is read.
use cn.Base.{
  drop-nil, ℕ, zero, suc, ◌+◌, ◌<◌, ◌≤◌, ◌≡◌, ◌⊎◌, refl, sym, ap, ◌∙◌, subst, false, Option, none,
  some, List, [], ◌∷◌, ◌++◌, ◌==◌, if◌then◌else◌, length, length-append, length-drop, take-all,
  take, drop, replicate, arith, Bool-cases, inl, inr,
}
use cn.Nfs.Text.{text, equal, equal-path}
use cn.Readers.{overwrite, before_zero, has_zero}
use cn.Concurrent.{one_line, two_line, choose}

-- The service that a client is given, where `previous` is the one before it was given: its own choice, and where
-- it leaves out the end of the line, or sends nothing, what that client's line has there.
abbrev pub chosen : Option ℕ → List ℕ → Option ℕ
chosen previous [] = previous
chosen none (b ∷ []) = none
chosen (some k) (b ∷ []) = if b == 49 then some 1 else if b == 50 then some 2 else none
chosen previous (b ∷ c ∷ []) =
    if c == 10 then if b == 49 then some 1 else if b == 50 then some 2 else none else none
chosen previous (b ∷ c ∷ d ∷ bytes) = none

-- What stands in the buffer before its zeros.
abbrev pub line : Option ℕ → List ℕ
line none = []
line (some service) = if service == 1 then one_line else two_line

pub overwrite-line :
    (bytes before : List ℕ) (k : ℕ)
    → length bytes ≤ length before + k
    → (left : ℕ) × (overwrite bytes (before ++ replicate k 0)
        ≡ (bytes ++ drop (length bytes) before) ++ replicate left 0)
      × (left + length (bytes ++ drop (length bytes) before) ≡ length before + k)
overwrite-line [] before k h = (k, refl, omega arith)
overwrite-line (b ∷ bytes) [] zero h = absurd (omega arith)
overwrite-line (b ∷ bytes) [] (suc k) h =
    let (left, e, l) = overwrite-line bytes [] k (omega arith) in
    (
      left,
      ap (◌∷◌ b) (e ∙ ap (λ s. (bytes ++ s) ++ replicate left 0) (drop-nil (length bytes))),
      omega (arith, l, ap (λ s. length (bytes ++ s)) (drop-nil (length bytes))),
    )
overwrite-line (b ∷ bytes) (c ∷ before) k h =
    let (left, e, l) = overwrite-line bytes before k (omega arith) in
    (left, ap (◌∷◌ b) e, omega (arith, l))

pub before_zero-line :
    (s : List ℕ) (left : ℕ) → has_zero s ≡ false → before_zero (s ++ replicate (suc left) 0) ≡ s
before_zero-line [] left h = refl
before_zero-line (c ∷ s) left h =
    let more : (c == 0) ≡ false = ground (arith, h) in
    let rest : has_zero s ≡ false = ground (arith, h) in
    rw more (ap (◌∷◌ c) (before_zero-line s left rest))

pub has_zero-append :
    (s s' : List ℕ) → has_zero s ≡ false → has_zero s' ≡ false → has_zero (s ++ s') ≡ false
has_zero-append [] s' h h' = h'
has_zero-append (c ∷ s) s' h h' =
    let more : (c == 0) ≡ false = ground (arith, h) in
    let rest : has_zero s ≡ false = ground (arith, h) in rw more (has_zero-append s s' rest h')

pub has_zero-line : (n : ℕ) (previous : Option ℕ) → has_zero (drop n (line previous)) ≡ false
has_zero-line n none = rw (drop-nil n) refl
has_zero-line n (some service) = elim (Bool-cases (service == 1)) [
  | inl e ↦ rw e (dropped n 49 refl)
  | inr e ↦ rw e (dropped n 50 refl)
]
  where
    dropped : (n b : ℕ) → (b == 0) ≡ false → has_zero (drop n (b ∷ 10 ∷ [])) ≡ false
    dropped zero b h = rw h refl
    dropped (suc zero) b h = refl
    dropped (suc (suc n)) b h = rw (drop-nil n) refl

-- What `choose` makes of a line.
abbrev pub matched : List ℕ → Option ℕ
matched s = if equal s one_line then some 1 else if equal s two_line then some 2 else none

pub matched-line : (s : List ℕ) (service : ℕ) → matched s ≡ some service → s ≡ line (some service)
matched-line s service h = elim (Bool-cases (equal s one_line)) [
  | inl e ↦ let m : matched s ≡ some 1 = rw e refl in equal-path s one_line e ∙ ap line (sym m ∙ h)
  | inr n ↦ elim (Bool-cases (equal s two_line)) [
    | inl e ↦
        let m : matched s ≡ some 2 = rw (n, e) refl in equal-path s two_line e ∙ ap line (sym m ∙ h)
    | inr n' ↦ let m : matched s ≡ none = rw (n, n') refl in absurd (cc (m, h))
  ]
]

abbrev pub IsService : Option ℕ → Type 0
IsService none = Unit
IsService (some service) = (service ≡ 1) ⊎ (service ≡ 2)

pub matched-IsService : (s : List ℕ) → IsService (matched s)
matched-IsService s = elim (Bool-cases (equal s one_line)) [
  | inl e ↦ rw e (inl refl)
  | inr n ↦ elim (Bool-cases (equal s two_line)) [
    | inl e ↦ rw (n, e) (inr refl)
    | inr n' ↦ rw (n, n') tt
  ]
]

pub matched-chosen :
    (previous : Option ℕ) (bytes : List ℕ)
    → IsService previous
    → matched (bytes ++ drop (length bytes) (line previous)) ≡ chosen previous bytes
matched-chosen none [] h = refl
matched-chosen (some service) [] (inl e) = rw e refl
matched-chosen (some service) [] (inr e) = rw e refl
matched-chosen none (b ∷ []) h = ground arith
matched-chosen (some service) (b ∷ []) (inl e) = rw e (ground arith)
matched-chosen (some service) (b ∷ []) (inr e) = rw e (ground arith)
matched-chosen none (b ∷ c ∷ []) h = ground arith
matched-chosen (some service) (b ∷ c ∷ []) (inl e) = rw e (ground arith)
matched-chosen (some service) (b ∷ c ∷ []) (inr e) = rw e (ground arith)
matched-chosen previous (b ∷ c ∷ d ∷ bytes) h = ground arith

pub length-line : (previous : Option ℕ) → length (line previous) ≤ 2
length-line none = omega arith
length-line (some service) = elim (Bool-cases (service == 1)) [
  | inl e ↦ rw e (omega arith)
  | inr e ↦ rw e (omega arith)
]

-- The buffer, as the loop finds it.
abbrev pub buffer_of : Option ℕ → ℕ → List ℕ
buffer_of previous k = line previous ++ replicate k 0

pub choose-chosen :
    (previous : Option ℕ) (k : ℕ) (bytes : List ℕ)
    → IsService previous
    → has_zero bytes ≡ false
    → length bytes < 101
    → length (line previous) + k ≡ 250
    → (choose (overwrite (take 100 bytes) (buffer_of previous k)) ≡ chosen previous bytes)
      × ((service : ℕ)
          → chosen previous bytes ≡ some service
          → (left : ℕ) × (overwrite (take 100 bytes) (buffer_of previous k)
              ≡ buffer_of (some service) left)
            × (length (line (some service)) + left ≡ 250)
            × IsService (some service))
unfolding choose
choose-chosen previous k bytes valid text short full =
    let (left, e, l) = overwrite-line bytes (line previous) k (omega arith) in
    let s = bytes ++ drop (length bytes) (line previous) in
    let m : matched s ≡ chosen previous bytes = matched-chosen previous bytes valid in
    let zeros : has_zero s ≡ false =
      has_zero-append bytes (drop (length bytes) (line previous)) text
        (has_zero-line (length bytes) previous) in
    let written : overwrite (take 100 bytes) (buffer_of previous k) ≡ s ++ replicate left 0 =
      ap (λ b. overwrite b (buffer_of previous k)) (take-all 100 bytes (omega arith)) ∙ e in
    (
      ap (λ b. matched (before_zero b)) written
          ∙ ap matched (
              first_line s left zeros (
                omega (
                  arith,
                  l,
                  length-append bytes (drop (length bytes) (line previous)),
                  length-drop (length bytes) (line previous),
                  length-line previous,
                )))
          ∙ m,
      λ service given_one.
          let same = matched-line s service (m ∙ given_one) in
          (
            left,
            written ∙ ap (λ s. s ++ replicate left 0) same,
            omega (arith, l, ap length same),
            subst IsService (m ∙ given_one) (matched-IsService s),
          ),
    )
  where
    first_line :
        (s : List ℕ) (left : ℕ)
        → has_zero s ≡ false
        → 0 < left
        → before_zero (s ++ replicate left 0) ≡ s
    first_line s zero h more = absurd (omega arith)
    first_line s (suc left) h more = before_zero-line s left h

-- ===== src/Nfs/Text.antt =====
-- The functions of C's string library that rpc/nfs uses, on lists of character codes.
use Prim.Native.Char.{code}
use Prim.Native.String.{String}
use cn.Base.{
  ℕ, zero, suc, ◌+◌, ◌-◌, ◌*◌, ◌%◌, ◌^◌, Bool, true, false, ◌||◌, ◌&&◌, Option, none, some, List,
  [], ◌∷◌, leb, ◌==◌, if◌then◌else◌, ◌≡◌, refl, ap₂, subst, arith, Bool-cases, inl, inr,
}
use cn.Base.Int.{ℤ, pos, negsuc}

abbrev pub text : String → List ℕ
text String.[] = []
text (String.◌∷◌ c s) = code c ∷ text s

-- `strcmp(s, t) == 0`
abbrev pub equal : List ℕ → List ℕ → Bool
equal [] [] = true
equal [] (d ∷ t) = false
equal (c ∷ s) [] = false
equal (c ∷ s) (d ∷ t) = (c == d) && equal s t

pub equal_self : (s : List ℕ) → equal s s ≡ true
equal_self [] = refl
equal_self (c ∷ s) = let here : (c == c) ≡ true = ground arith in rw here (equal_self s)

pub equal-path : (s t : List ℕ) → equal s t ≡ true → s ≡ t
equal-path [] [] h = refl
equal-path [] (d ∷ t) h = ground (arith, h)
equal-path (c ∷ s) [] h = ground (arith, h)
equal-path (c ∷ s) (d ∷ t) h = elim (Bool-cases (c == d)) [
  | inl e ↦ ap₂ ◌∷◌ (ground (arith, e)) (equal-path s t (subst (λ b. (b && equal s t) ≡ true) e h))
  | inr n ↦ absurd (different (subst (λ b. (b && equal s t) ≡ true) n h))
]
  where
    different : ¬ (false ≡ true)
    different e = ground (arith, e)

abbrev pub blank : ℕ
blank = 32

abbrev pub newline : ℕ
newline = 10

-- The delimiters " " and " \n".
abbrev pub is_blank : ℕ → Bool
is_blank c = c == 32

abbrev pub is_blank_or_newline : ℕ → Bool
is_blank_or_newline c = (c == 32) || (c == 10)

abbrev pub skip : (ℕ → Bool) → List ℕ → List ℕ
skip d [] = []
skip d (c ∷ s) = if d c then skip d s else c ∷ s

-- The text up to the next delimiter, and what stands behind it.
abbrev pub span : (ℕ → Bool) → List ℕ → List ℕ × List ℕ
span d [] = ([], [])
span d (c ∷ s) = let (t, rest) = span d s in if d c then ([], s) else (c ∷ t, rest)

-- `strtok`: the next token, and where the following call continues.
unfoldable pub strtok : (ℕ → Bool) → List ℕ → Option (List ℕ × List ℕ)
strtok d s = first_token (skip d s)
  where
    first_token : List ℕ → Option (List ℕ × List ℕ)
    first_token [] = none
    first_token (c ∷ rest) = some (span d (c ∷ rest))

abbrev pub before_newline : List ℕ → List ℕ
before_newline [] = []
before_newline (c ∷ s) = if c == 10 then [] else c ∷ before_newline s

-- What `strtok(s, "\n")` leaves of `s` itself.
unfoldable pub strip : List ℕ → List ℕ
strip [] = []
strip (c ∷ s) = if c == 10 then c ∷ strip s else c ∷ before_newline s

abbrev pub is_digit : ℕ → Bool
is_digit c = leb 48 c && leb c 57

abbrev pub digits : ℕ → List ℕ → ℕ
digits n [] = n
digits n (c ∷ s) = let more = digits (n * 10 + (c - 48)) s in if is_digit c then more else n

abbrev pub is_space : ℕ → Bool
is_space c = (c == 32) || (leb 9 c && leb c 13)

abbrev pub signed : List ℕ → ℤ
signed [] = pos 0
signed (c ∷ s) =
    if c == 45
    then negated (digits 0 s)
    else if c == 43
    then pos (digits 0 s)
    else pos (digits 0 (c ∷ s))
  where
    negated : ℕ → ℤ
    negated zero = pos 0
    negated (suc n) = negsuc n

-- `atoi`, for a number that an `int` can hold.
unfoldable pub atoi : List ℕ → ℤ
atoi s = signed (skip is_space s)

-- An `int` that is assigned to an `unsigned int`.
abbrev pub to_unsigned : ℤ → ℕ
to_unsigned (pos n) = n % 2 ^ 32
to_unsigned (negsuc n) = (2 ^ 32 - suc (n % 2 ^ 32)) % 2 ^ 32

-- ===== src/Decimal.antt =====
-- `sprintf` with "%d", as mid/tss and multiserver use it, and that `atoi` reads it back.
use cn.Base.{
  ℕ, zero, suc, ◌+◌, ◌-◌, ◌*◌, ◌/◌, ◌%◌, ◌≤◌, ◌≡◌, refl, sym, ap, ◌∙◌, true, false, List, [], ◌∷◌,
  ◌++◌, ◌==◌, if◌then◌else◌, ltb, arith, Bool-cases, inl, inr, length, length-append,
}
use cn.Base.Int.{ℤ, pos, negsuc, pos_part}
use cn.Nfs.Text.{atoi, digits, is_digit, is_space, equal, equal_self, equal-path}

-- The digits of a number; there are not more of them than `fuel` where that is the number itself.
unfoldable pub print_digits : ℕ → ℕ → List ℕ
print_digits zero n = (48 + n % 10) ∷ []
print_digits (suc fuel) n =
    let higher = print_digits fuel (n / 10) in
    if ltb n 10 then (48 + n) ∷ [] else higher ++ (48 + n % 10) ∷ []

-- "%d"
unfoldable pub print_int : ℤ → List ℕ
unfolding print_digits
print_int (pos n) = print_digits n n
print_int (negsuc n) = 45 ∷ print_digits (suc n) (suc n)

unfoldable pub AllDigits : List ℕ → Type 0
AllDigits [] = Unit
AllDigits (c ∷ s) = (48 ≤ c) × (c ≤ 57) × AllDigits s

append-AllDigits : (s : List ℕ) (c : ℕ) → AllDigits s → 48 ≤ c → c ≤ 57 → AllDigits (s ++ c ∷ [])
unfolding AllDigits
append-AllDigits [] c h lo hi = (lo, hi, tt)
append-AllDigits (d ∷ s) c h lo hi = (h.0, h.1, append-AllDigits s c h.2 lo hi)

pub print_digits-AllDigits : (fuel n : ℕ) → AllDigits (print_digits fuel n)
unfolding print_digits AllDigits
print_digits-AllDigits zero n = (omega arith, omega arith, tt)
print_digits-AllDigits (suc fuel) n = elim (Bool-cases (ltb n 10)) [
  | inl small ↦ rw small (omega arith, ground (arith, small), tt)
  | inr large ↦ rw large (
      append-AllDigits (print_digits fuel (n / 10)) (48 + n % 10)
        (print_digits-AllDigits fuel (n / 10)) (omega arith) (omega arith))
]

digits-append :
    (m : ℕ) (s : List ℕ) (c : ℕ)
    → AllDigits s
    → 48 ≤ c
    → c ≤ 57
    → digits m (s ++ c ∷ []) ≡ digits m s * 10 + (c - 48)
unfolding AllDigits
digits-append m [] c h lo hi = let digit : is_digit c ≡ true = ground arith in rw digit refl
digits-append m (d ∷ s) c (dlo, dhi, h) lo hi =
    let digit : is_digit d ≡ true = ground arith in
    rw digit (digits-append (m * 10 + (d - 48)) s c h lo hi)

digits-print_digits : (fuel n : ℕ) → n ≤ fuel → digits 0 (print_digits fuel n) ≡ n
unfolding print_digits
digits-print_digits zero n h = let none_left : n ≡ 0 = omega arith in rw none_left refl
digits-print_digits (suc fuel) n h = elim (Bool-cases (ltb n 10)) [
  | inl small ↦
      let digit : is_digit (48 + n) ≡ true = ground (arith, small) in
      rw (small, digit) (omega arith)
  | inr large ↦ rw large (
      digits-append 0 (print_digits fuel (n / 10)) (48 + n % 10)
        (print_digits-AllDigits fuel (n / 10)) (omega arith) (omega arith)
      ∙ omega (arith, digits-print_digits fuel (n / 10) (ground (arith, large, h))))
]

-- A number that begins with a digit is read as its digits say.
signed-digits : (s : List ℕ) → AllDigits s → 1 ≤ length s → atoi s ≡ pos (digits 0 s)
unfolding atoi AllDigits
signed-digits [] h k = absurd (omega arith)
signed-digits (c ∷ s) (lo, hi, h) k =
    let space : is_space c ≡ false = ground arith in
    let minus : (c == 45) ≡ false = ground arith in
    let plus : (c == 43) ≡ false = ground arith in rw (space, minus, plus) refl

pub length-print_digits : (fuel n : ℕ) → 1 ≤ length (print_digits fuel n)
unfolding print_digits
length-print_digits zero n = omega arith
length-print_digits (suc fuel) n = elim (Bool-cases (ltb n 10)) [
  | inl small ↦ rw small (omega arith)
  | inr large ↦
      rw large (omega (arith, length-append (print_digits fuel (n / 10)) ((48 + n % 10) ∷ [])))
]

-- A minus sign negates the number.
negative-digits : (s : List ℕ) (n : ℕ) → digits 0 s ≡ suc n → atoi (45 ∷ s) ≡ negsuc n
unfolding atoi
negative-digits s n e = rw e refl

-- What "%d" prints of a number, `atoi` reads.
pub atoi-print_int : (z : ℤ) → atoi (print_int z) ≡ z
unfolding print_int
atoi-print_int (pos n) =
    signed-digits (print_digits n n) (print_digits-AllDigits n n) (length-print_digits n n)
    ∙ ap pos (digits-print_digits n n (omega arith))
atoi-print_int (negsuc n) =
    negative-digits (print_digits (suc n) (suc n)) n
      (digits-print_digits (suc n) (suc n) (omega arith))

-- Two numbers have the same text if and only if they are the same.
pub equal-print_int : (k j : ℕ) → equal (print_int (pos k)) (print_int (pos j)) ≡ (j == k)
equal-print_int k j = elim (Bool-cases (j == k)) [
  | inl same ↦
      let here : j ≡ k = ground (arith, same) in rw (same, here) (equal_self (print_int (pos k)))
  | inr other ↦ rw other (different other)
]
  where
    different : (j == k) ≡ false → equal (print_int (pos k)) (print_int (pos j)) ≡ false
    different other = elim (Bool-cases (equal (print_int (pos k)) (print_int (pos j)))) [
      | inl match ↦
          let texts = equal-path (print_int (pos k)) (print_int (pos j)) match in
          let numbers : k ≡ j =
            ap pos_part (sym (atoi-print_int (pos k)) ∙ ap atoi texts ∙ atoi-print_int (pos j)) in
          ground (arith, numbers, other)
      | inr no_match ↦ no_match
    ]

-- ===== src/Dispatch/Sum.antt =====
-- A request for the sum of two numbers, from the text that the client writes to the text that it gets.
use cn.Base.{
  ℕ, suc, ◌≤◌, ◌<◌, ◌≡◌, refl, ap, true, false, none, some, List, [], ◌∷◌, ◌++◌, ◌==◌, leb, length,
  arith, Returns,
}
use cn.Base.Int.{ℤ, pos, negsuc, ◌+ℤ◌, in_int, add_int-fits}
use cn.Nfs.Text.{text, span, strtok, atoi}
use cn.Decimal.{AllDigits, print_digits, print_digits-AllDigits, print_int, atoi-print_int}
use cn.Dispatch.{is_bar, read_argv, dispatch, exec_s1, int_atoi, s1, respond}

-- Characters that are no bars.
abbrev NoBar : List ℕ → Type 0
NoBar [] = Unit
NoBar (c ∷ s) = ((c == 124) ≡ false) × NoBar s

digits-NoBar : (s : List ℕ) → AllDigits s → NoBar s
unfolding AllDigits
digits-NoBar [] h = tt
digits-NoBar (c ∷ s) (lo, hi, h) = (ground arith, digits-NoBar s h)

print_int-NoBar : (z : ℤ) → NoBar (print_int z)
unfolding print_int
print_int-NoBar (pos n) = digits-NoBar (print_digits n n) (print_digits-AllDigits n n)
print_int-NoBar (negsuc n) =
    (refl, digits-NoBar (print_digits (suc n) (suc n)) (print_digits-AllDigits (suc n) (suc n)))

span-bar : (w rest : List ℕ) → NoBar w → span is_bar (w ++ 124 ∷ rest) ≡ (w, rest)
span-bar [] rest h = refl
span-bar (c ∷ w) rest (b, h) = rw (b, span-bar w rest h)

span-end : (w : List ℕ) → NoBar w → span is_bar w ≡ (w, [])
span-end [] h = refl
span-end (c ∷ w) (b, h) = rw (b, span-end w h)

strtok-bar :
    (w rest : List ℕ) → NoBar w → 1 ≤ length w → strtok is_bar (w ++ 124 ∷ rest) ≡ some (w, rest)
unfolding strtok
strtok-bar [] rest h k = absurd (omega arith)
strtok-bar (c ∷ w) rest (b, h) k = rw b (ap some (span-bar (c ∷ w) rest (b, h)))

strtok-end : (w : List ℕ) → NoBar w → 1 ≤ length w → strtok is_bar w ≡ some (w, [])
unfolding strtok
strtok-end [] h k = absurd (omega arith)
strtok-end (c ∷ w) (b, h) k = rw b (ap some (span-end (c ∷ w) (b, h)))

strtok-nil : strtok is_bar [] ≡ none
unfolding strtok
strtok-nil = refl

-- The request: s2 and the two numbers.
abbrev pub sum_request : ℤ → ℤ → List ℕ
sum_request a b = text "s2|" ++ (print_int a ++ 124 ∷ print_int b)

-- Both numbers fit the 20 bytes of their copies.
abbrev pub IsShort : ℤ → Type 0
IsShort z = (1 ≤ length (print_int z)) × (length (print_int z) < 20)

read_argv-sum :
    (a b : ℤ)
    → IsShort a
    → IsShort b
    → read_argv 10 (some (text "s2", print_int a ++ 124 ∷ print_int b))
      ≡ some (text "s2" ∷ print_int a ∷ print_int b ∷ [])
unfolding read_argv
read_argv-sum a b (a1, a20) (b1, b20) =
    let u = print_int a in
    let v = print_int b in
    let fits_u : leb 20 (length u) ≡ false = ground arith in
    let fits_v : leb 20 (length v) ≡ false = ground arith in
    rw
      (
        strtok-bar u v (print_int-NoBar a) a1,
        fits_u,
        strtok-end v (print_int-NoBar b) b1,
        fits_v,
        strtok-nil,
      )
      refl

dispatch-sum :
    (a b : ℤ)
    → IsShort a
    → IsShort b
    → dispatch (sum_request a b) ≡ some (exec_s1 (text "s2" ∷ print_int a ∷ print_int b ∷ []))
unfolding dispatch
dispatch-sum a b ha hb =
    let later = print_int a ++ 124 ∷ print_int b in
    let first : strtok is_bar (sum_request a b) ≡ some (text "s2", later) =
      strtok-bar (text "s2") later (refl, (refl, tt)) (omega arith) in
    rw (first, read_argv-sum a b ha hb) refl

int_atoi-print_int : (a : ℤ) → in_int a ≡ true → int_atoi (print_int a) ≡ some a
unfolding int_atoi
int_atoi-print_int a h = rw (atoi-print_int a, h) refl

s1-sum :
    (a b : ℤ)
    → in_int a ≡ true
    → in_int b ≡ true
    → in_int (a +ℤ b) ≡ true
    → s1 (text "s2" ∷ print_int a ∷ print_int b ∷ []) ≡ some (print_int (a +ℤ b))
unfolding s1
s1-sum a b int_a int_b int_sum =
    rw (int_atoi-print_int a int_a, int_atoi-print_int b int_b, add_int-fits a b int_sum) refl

-- For a request of the sum of two numbers that an `int` holds, as it does their sum, multiserver starts s1, which
-- answers with the decimal text of their sum, and the client reads the sum from it.
pub respond-sum_request :
    (a b : ℤ)
    → IsShort a
    → IsShort b
    → in_int a ≡ true
    → in_int b ≡ true
    → in_int (a +ℤ b) ≡ true
    → Returns
        (λ answer. (answer ≡ print_int (a +ℤ b)) × (atoi answer ≡ a +ℤ b))
        (respond (sum_request a b))
unfolding respond
respond-sum_request a b ha hb int_a int_b int_sum = (
  print_int (a +ℤ b),
  rw (dispatch-sum a b ha hb) (s1-sum a b int_a int_b int_sum),
  (refl, atoi-print_int (a +ℤ b)),
)

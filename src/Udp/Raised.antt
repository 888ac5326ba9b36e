-- ===== src/Udp/Raised.antt =====
-- The loop of the server, and texts in a buffer.
use cn.Base.{
  ℕ, suc, ◌+◌, ◌≡◌, refl, sym, ap, ap₂, ◌∙◌, true, false, List, [], ◌∷◌, ◌++◌, ◌==◌, map, take, set,
  get_or, length, length-append, append_assoc, arith,
}
use cn.Readers.{before_zero, has_zero}
use cn.Readers.Buffer.{either}
use cn.Udp.{toupper, upper_loop}

abbrev pub upper : List ℕ → List ℕ
upper s = map toupper s

pub take-append : (xs ys : List ℕ) → take (length xs) (xs ++ ys) ≡ xs
take-append [] ys = refl
take-append (x ∷ xs) ys = ap (◌∷◌ x) (take-append xs ys)

pub before_zero-append :
    (s rest : List ℕ) → has_zero s ≡ false → before_zero ((s ++ 0 ∷ []) ++ rest) ≡ s
before_zero-append [] rest h = refl
before_zero-append (c ∷ s) rest h =
    let more : (c == 0) ≡ false = ground (arith, h) in
    rw more (ap (◌∷◌ c) (before_zero-append s rest (ground (arith, h))))

pub has_zero-ended : (s rest : List ℕ) → has_zero ((s ++ 0 ∷ []) ++ rest) ≡ true
has_zero-ended [] rest = refl
has_zero-ended (c ∷ s) rest = rw (has_zero-ended s rest) (either (c == 0))

pub has_zero-upper : (s : List ℕ) → has_zero s ≡ false → has_zero (upper s) ≡ false
has_zero-upper [] h = refl
has_zero-upper (c ∷ s) h =
    let more : (c == 0) ≡ false = ground (arith, h) in
    let more' : (toupper c == 0) ≡ false = ground (arith, more) in
    rw more' (has_zero-upper s (ground (arith, h)))

pub length-upper : (s : List ℕ) → length (upper s) ≡ length s
length-upper [] = refl
length-upper (c ∷ s) = ap suc (length-upper s)

pub set-next : (xs ys : List ℕ) (y z : ℕ) → set (xs ++ y ∷ ys) (length xs) z ≡ xs ++ z ∷ ys
set-next [] ys y z = refl
set-next (x ∷ xs) ys y z = ap (◌∷◌ x) (set-next xs ys y z)

pub get_or-next : (xs ys : List ℕ) (y d : ℕ) → get_or (xs ++ y ∷ ys) (length xs) d ≡ y
get_or-next [] ys y d = refl
get_or-next (x ∷ xs) ys y d = get_or-next xs ys y d

pub upper_loop-upper :
    (xs ys zs : List ℕ)
    → upper_loop (length ys) (length xs) (xs ++ (ys ++ zs)) ≡ xs ++ (upper ys ++ zs)
unfolding upper_loop
upper_loop-upper xs [] zs = refl
upper_loop-upper xs (y ∷ ys) zs =
    let index : length (xs ++ toupper y ∷ []) ≡ length xs + 1 = length-append xs (toupper y ∷ []) in
    let step =
      ap (λ v. set (xs ++ y ∷ (ys ++ zs)) (length xs) (toupper v)) (get_or-next xs (ys ++ zs) y 0)
      ∙ set-next xs (ys ++ zs) y (toupper y) in
    ap (upper_loop (length ys) (length xs + 1)) step
    ∙ (ap₂ (upper_loop (length ys)) (sym index) (sym (append_assoc xs (toupper y ∷ []) (ys ++ zs)))
        ∙ upper_loop-upper (xs ++ toupper y ∷ []) ys zs
        ∙ append_assoc xs (toupper y ∷ []) (upper ys ++ zs))

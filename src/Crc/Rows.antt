-- ===== src/Crc/Rows.antt =====
-- The algebra of rows of digits, as polynomials over the field of two elements.
use Prim.Native.Nat.{bit_xor}
use cn.Base.{
  ℕ, zero, suc, ◌+◌, ◌-◌, ◌*◌, ◌%◌, ◌≤◌, ◌≡◌, refl, ap, ap₂, ◌∙◌, List, [], ◌∷◌, ◌++◌, arith,
  length, take, drop, replicate,
}
use cn.Base.Xor.{bit_xor-zero, zero-bit_xor, bit_xor_assoc, bit_xor_comm, bit_xor_self}
use cn.Crc.{xor_row}

abbrev pub IsBinary : List ℕ → Type 0
IsBinary [] = Unit
IsBinary (x ∷ xs) = (x ≤ 1) × IsBinary xs

-- A coefficient times a polynomial.
abbrev pub scale : ℕ → List ℕ → List ℕ
scale c [] = []
scale c (x ∷ g) = c * x ∷ scale c g

-- The product by rows: each digit of the first factor adds the second one, shifted.
abbrev pub multiply : List ℕ → List ℕ → List ℕ
multiply [] g = replicate (length g - 1) 0
multiply (q ∷ qs) g = xor_row (scale q g ++ replicate (length qs) 0) (0 ∷ multiply qs g)

pub xor_row_assoc :
    (a b c : List ℕ) → length a ≡ length b → xor_row (xor_row a b) c ≡ xor_row a (xor_row b c)
unfolding xor_row
xor_row_assoc [] b c h = refl
xor_row_assoc (x ∷ a) [] c h = absurd (omega arith)
xor_row_assoc (x ∷ a) (y ∷ b) [] h = refl
xor_row_assoc (x ∷ a) (y ∷ b) (z ∷ c) h =
    ap₂ ◌∷◌ (bit_xor_assoc x y z) (xor_row_assoc a b c (omega arith))

pub xor_row_comm : (a b : List ℕ) → length a ≡ length b → xor_row a b ≡ xor_row b a
unfolding xor_row
xor_row_comm [] [] h = refl
xor_row_comm [] (y ∷ b) h = absurd (omega arith)
xor_row_comm (x ∷ a) [] h = absurd (omega arith)
xor_row_comm (x ∷ a) (y ∷ b) h = ap₂ ◌∷◌ (bit_xor_comm x y) (xor_row_comm a b (omega arith))

pub xor_row-append :
    (a b c : List ℕ)
    → length a ≡ length b
    → xor_row (a ++ replicate (length c) 0) (b ++ c) ≡ xor_row a b ++ c
unfolding xor_row
xor_row-append [] [] [] h = refl
xor_row-append [] [] (z ∷ c) h = ap₂ ◌∷◌ (zero-bit_xor z) (xor_row-append [] [] c refl)
xor_row-append [] (y ∷ b) c h = absurd (omega arith)
xor_row-append (x ∷ a) [] c h = absurd (omega arith)
xor_row-append (x ∷ a) (y ∷ b) c h = ap (◌∷◌ (bit_xor x y)) (xor_row-append a b c (omega arith))

pub scale-zero : (w g : List ℕ) → length g ≡ length w → xor_row (scale 0 g) w ≡ w
unfolding xor_row
scale-zero [] [] h = refl
scale-zero [] (y ∷ g) h = absurd (omega arith)
scale-zero (x ∷ w) [] h = absurd (omega arith)
scale-zero (x ∷ w) (y ∷ g) h =
    ap₂ ◌∷◌ (rw (zero-mul y) (zero-bit_xor x)) (scale-zero w g (omega arith))
  where
    zero-mul : (y : ℕ) → 0 * y ≡ 0
    zero-mul y = omega arith

pub scale_one : (g : List ℕ) → scale 1 g ≡ g
scale_one [] = refl
scale_one (y ∷ g) = ap₂ ◌∷◌ (omega arith) (scale_one g)

pub length-scale : (c : ℕ) (g : List ℕ) → length (scale c g) ≡ length g
length-scale c [] = refl
length-scale c (y ∷ g) = ap suc (length-scale c g)

pub xor_row-add_back : (w g : List ℕ) → length g ≡ length w → xor_row g (xor_row w g) ≡ w
unfolding xor_row
xor_row-add_back [] [] h = refl
xor_row-add_back [] (y ∷ g) h = absurd (omega arith)
xor_row-add_back (x ∷ w) [] h = absurd (omega arith)
xor_row-add_back (x ∷ w) (y ∷ g) h =
    ap₂ ◌∷◌
      (bit_xor_comm y (bit_xor x y)
        ∙ bit_xor_assoc x y y
        ∙ ap (bit_xor x) (bit_xor_self y)
        ∙ bit_xor-zero x)
      (xor_row-add_back w g (omega arith))

pub bit_xor-binary : (x y : ℕ) → x ≤ 1 → y ≤ 1 → bit_xor x y ≡ (x + y) % 2
bit_xor-binary zero y hx hy = omega (arith, zero-bit_xor y)
bit_xor-binary (suc zero) zero hx hy = refl
bit_xor-binary (suc zero) (suc zero) hx hy = refl
bit_xor-binary x y hx hy = absurd (omega arith)

pub xor_row-IsBinary : (r g : List ℕ) → IsBinary r → IsBinary g → IsBinary (xor_row r g)
unfolding xor_row
xor_row-IsBinary [] g hr hg = tt
xor_row-IsBinary (x ∷ r) [] hr hg = hr
xor_row-IsBinary (x ∷ r) (y ∷ g) hr hg =
    (omega (arith, bit_xor-binary x y hr.0 hg.0), xor_row-IsBinary r g hr.1 hg.1)

pub append-IsBinary : (a b : List ℕ) → IsBinary a → IsBinary b → IsBinary (a ++ b)
append-IsBinary [] b ha hb = hb
append-IsBinary (x ∷ a) b ha hb = (ha.0, append-IsBinary a b ha.1 hb)

pub zeros-IsBinary : (n : ℕ) → IsBinary (replicate n 0)
zeros-IsBinary zero = tt
zeros-IsBinary (suc n) = (omega arith, zeros-IsBinary n)

pub take-IsBinary : (k : ℕ) (a : List ℕ) → IsBinary a → IsBinary (take k a)
take-IsBinary zero a h = tt
take-IsBinary (suc k) [] h = tt
take-IsBinary (suc k) (x ∷ a) h = (h.0, take-IsBinary k a h.1)

pub drop-IsBinary : (k : ℕ) (a : List ℕ) → IsBinary a → IsBinary (drop k a)
drop-IsBinary zero a h = h
drop-IsBinary (suc k) [] h = tt
drop-IsBinary (suc k) (x ∷ a) h = drop-IsBinary k a h.1

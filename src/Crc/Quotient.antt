-- ===== src/Crc/Quotient.antt =====
-- The quotient and the remainder that are printed, against multiplication of polynomials over the
-- field of two elements. A list of digits is a polynomial, its highest coefficient first.
use Prim.Native.Nat.{bit_xor}
use cn.Base.{
  ℕ, suc, ◌+◌, ◌-◌, ◌<◌, ◌≤◌, ◌≡◌, refl, sym, ap, ap₂, ◌∙◌, List, [], ◌∷◌, ◌++◌, append-nil,
  append_assoc, arith, length, take, drop, replicate, get_or, ◌==◌, length-append, length-replicate,
  Bool-cases, inl, inr, take-append-drop, length-take, length-drop,
}
use cn.Crc.{Input, sent, xor_row, shift_in, reduce, divide, send}
use cn.Crc.Linear.{length-reduce, length-shift_in, length-xor_row}
use cn.Crc.Rows.{
  IsBinary, scale, multiply, xor_row_assoc, xor_row-append, scale-zero, scale_one, length-scale,
  xor_row-add_back, bit_xor-binary, xor_row-IsBinary, append-IsBinary, zeros-IsBinary,
  take-IsBinary, drop-IsBinary,
}
use cn.Crc.Roundtrip.{IsRead, padded, sender, sent_inv, xor_row-zeros, remainder-length}

-- One round takes a multiple of the generator away from the window.
reduce-scale :
    (g w : List ℕ) → length g ≡ length w → xor_row (scale (reduce g w).0 g) (reduce g w).1 ≡ w
unfolding reduce
reduce-scale g w h = elim (Bool-cases (get_or w 0 0 == 0)) [
  | inl e ↦ rw e (scale-zero w g h)
  | inr e ↦ rw (e, scale_one g) (xor_row-add_back w g h)
]

pub reduce-IsBinary : (g w : List ℕ) → IsBinary g → IsBinary w → IsBinary (reduce g w).1
unfolding reduce
reduce-IsBinary g w hg hw = ground (arith, xor_row-IsBinary w g hw hg)

concat-IsBinary : (w : List ℕ) (b : ℕ) → IsBinary w → b ≤ 1 → IsBinary (w ++ b ∷ [])
concat-IsBinary [] b hw hb = (hb, tt)
concat-IsBinary (x ∷ w) b hw hb = (hw.0, concat-IsBinary w b hw.1 hb)

pub shift_in-IsBinary : (w : List ℕ) (b : ℕ) → IsBinary w → b ≤ 1 → IsBinary (shift_in w b)
unfolding shift_in
shift_in-IsBinary [] b hw hb = (hb, tt)
shift_in-IsBinary (x ∷ w) b hw hb = concat-IsBinary w b hw.1 hb

-- A round with a generator that starts with 1 leaves a window that starts with 0.
reduce-head :
    (g w : List ℕ)
    → IsBinary w
    → get_or g 0 0 ≡ 1
    → 0 < length w
    → (reduce g w).1 ≡ 0 ∷ drop 1 (reduce g w).1
unfolding reduce xor_row
reduce-head g [] hw hg h = absurd (omega arith)
reduce-head [] (x ∷ w) hw hg h = absurd (omega arith)
reduce-head (y ∷ g) (x ∷ w) hw hg h = elim (Bool-cases (x == 0)) [
  | inl e ↦ let z : x ≡ 0 = ground arith in rw e (ap (λ t. t ∷ w) z)
  | inr e ↦
      let z : bit_xor x y ≡ 0 = ground (arith, bit_xor-binary x y hw.0, hw.0) in
      rw e (ap (λ t. t ∷ xor_row w g) z)
]

-- What comes into the window does not change the digits that are left to divide.
window_next :
    (g w : List ℕ) (b : ℕ) (bs : List ℕ)
    → IsBinary w
    → get_or g 0 0 ≡ 1
    → 0 < length w
    → 0 ∷ (shift_in (reduce g w).1 b ++ bs) ≡ (reduce g w).1 ++ b ∷ bs
unfolding shift_in
window_next g w b bs hw one pos =
    ap (◌∷◌ 0) (append_assoc (drop 1 (reduce g w).1) (b ∷ []) bs)
    ∙ ap (λ t. t ++ b ∷ bs) (sym (reduce-head g w hw one pos))

length-quotient : (g w bs : List ℕ) → length (divide g w bs).0 ≡ suc (length bs)
unfolding divide
length-quotient g w [] = refl
length-quotient g w (b ∷ bs) = ap suc (length-quotient g (shift_in (reduce g w).1 b) bs)

length-multiply : (qs g : List ℕ) → 0 < length g → length (multiply qs g) ≡ length qs + length g - 1
length-multiply [] g h = omega (arith, length-replicate {A = ℕ} (length g - 1) 0)
length-multiply (q ∷ qs) g h = omega (
  arith,
  length-xor_row (scale q g ++ replicate (length qs) 0) (0 ∷ multiply qs g),
  length-append (scale q g) (replicate (length qs) 0),
  length-scale q g,
  length-replicate {A = ℕ} (length qs) 0,
)

-- The window and the digits to come are the quotient times the generator, plus the remainder.
divide-multiply :
    (g w bs : List ℕ)
    → length g ≡ length w
    → 0 < length w
    → get_or g 0 0 ≡ 1
    → IsBinary g
    → IsBinary w
    → IsBinary bs
    → xor_row
        (multiply (divide g w bs).0 g)
        (replicate (suc (length bs)) 0 ++ drop 1 (divide g w bs).1)
      ≡ w ++ bs
unfolding divide xor_row
divide-multiply g w [] same pos one hg hw hb =
    let q = (reduce g w).0 in
    let s = (reduce g w).1 in
    rw (append-nil (scale q g), append-nil w, ← reduce-head g w hw one pos)
      (ap (λ t. xor_row t s) (xor_row-zeros (scale q g) (suc (length g - 1)))
        ∙ reduce-scale g w same)
divide-multiply g w (b ∷ bs) same pos one hg hw hb =
    let q = (reduce g w).0 in
    let s = (reduce g w).1 in
    let next = shift_in s b in
    let qs = (divide g next bs).0 in
    let m = multiply qs g in
    let z = replicate (suc (length bs)) 0 ++ drop 1 (divide g next bs).1 in
    let size : length next ≡ length w = omega (arith, length-shift_in s b, length-reduce g w) in
    let ih =
      divide-multiply g next bs (omega (arith, size)) (omega (arith, size)) one hg
        (shift_in-IsBinary s b (reduce-IsBinary g w hg hw) hb.0) hb.1 in
    let sizes : length (scale q g ++ replicate (length qs) 0) ≡ length (0 ∷ m) = omega (
      arith,
      length-append (scale q g) (replicate (length qs) 0),
      length-scale q g,
      length-replicate {A = ℕ} (length qs) 0,
      length-multiply qs g,
    ) in
    let rows : xor_row (0 ∷ m) (0 ∷ z) ≡ s ++ b ∷ bs =
      ap (◌∷◌ 0) ih ∙ window_next g w b bs hw one pos in
    xor_row_assoc (scale q g ++ replicate (length qs) 0) (0 ∷ m) (0 ∷ z) sizes
    ∙ ap (xor_row (scale q g ++ replicate (length qs) 0)) rows
    ∙ ap (λ k. xor_row (scale q g ++ replicate k 0) (s ++ b ∷ bs)) (length-quotient g next bs)
    ∙ xor_row-append (scale q g) s (b ∷ bs) (omega (arith, length-scale q g, length-reduce g w))
    ∙ ap (λ t. t ++ b ∷ bs) (reduce-scale g w same)

-- For binary digits and a generator whose first digit is 1, the frame with n zeros behind it is the
-- product of the printed quotient and the generator, plus the printed remainder, which has n digits:
-- the division with remainder of polynomials over the field of two elements.
pub send-multiply :
    (p : Input) {q r f : List ℕ}
    → IsRead p
    → get_or p.g 0 0 ≡ 1
    → IsBinary p.g
    → IsBinary p.a
    → send p ≡ sent q r f
    → (padded p ≡ xor_row (multiply q p.g) (replicate (p.m + 1) 0 ++ r)) × (length r ≡ p.n)
send-multiply p h one hg ha sending =
    let (proper, same_q, same_r, same_f, room) = sent_inv p sending in
    let all = padded p in
    let size : length all ≡ p.m + 1 + p.n =
      omega (arith, length-append p.a (replicate p.n 0), length-replicate {A = ℕ} p.n 0, h.frame) in
    let w = take (p.n + 1) all in
    let fits : length w ≡ p.n + 1 =
      omega (arith, length-take {A = ℕ} (p.n + 1) all (ground (arith, size))) in
    let left : length (drop (p.n + 1) all) ≡ p.m =
      omega (arith, length-drop {A = ℕ} (p.n + 1) all, size) in
    let parts = append-IsBinary p.a (replicate p.n 0) ha (zeros-IsBinary p.n) in
    let product =
      divide-multiply p.g w (drop (p.n + 1) all) (omega (arith, fits, h.generator))
        (omega (arith, fits)) one hg (take-IsBinary (p.n + 1) all parts)
        (drop-IsBinary (p.n + 1) all parts) in
    let degree : suc (length (drop (p.n + 1) all)) ≡ p.m + 1 = omega (arith, left) in
    (
      sym (take-append-drop (p.n + 1) all)
          ∙ sym product
          ∙ ap (λ k. xor_row (multiply (sender p).0 p.g) (replicate k 0 ++ drop 1 (sender p).1))
              degree
          ∙ ap₂ (λ u v. xor_row (multiply u p.g) (replicate (p.m + 1) 0 ++ v)) (sym same_q)
              (sym same_r),
      rw same_r (remainder-length p h proper),
    )

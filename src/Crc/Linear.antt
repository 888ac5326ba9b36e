-- ===== src/Crc/Linear.antt =====
-- Division with the generator is linear in the digits that reach the window last: the loop takes
-- the same branches, and what was added to the input is added to the remainder.
use Prim.Native.Nat.{bit_xor}
use cn.Base.{
  ℕ, zero, suc, ◌+◌, ◌<◌, ◌≡◌, refl, sym, ap, ap₂, ◌∙◌, List, [], ◌∷◌, ◌++◌, append-nil,
  append_assoc, arith, ◌==◌, length, get_or, replicate, length-append, length-replicate, Bool-cases,
  inl, inr,
}
use cn.Base.Xor.{bit_xor_comm, bit_xor_assoc, bit_xor-zero}
use cn.Crc.{xor_row, shift_in, reduce, divide}

pub length-xor_row : (r g : List ℕ) → length (xor_row r g) ≡ length r
unfolding xor_row
length-xor_row [] g = refl
length-xor_row (x ∷ r) [] = refl
length-xor_row (x ∷ r) (y ∷ g) = ap suc (length-xor_row r g)

xor_row-nil : (r : List ℕ) → xor_row r [] ≡ r
unfolding xor_row
xor_row-nil [] = refl
xor_row-nil (x ∷ r) = refl

-- Two rows are added in either order.
xor_row_swap : (r p g : List ℕ) → xor_row (xor_row r p) g ≡ xor_row (xor_row r g) p
unfolding xor_row
xor_row_swap [] p g = refl
xor_row_swap (x ∷ r) [] g = sym (xor_row-nil (xor_row (x ∷ r) g))
xor_row_swap (x ∷ r) (y ∷ p) [] = refl
xor_row_swap (x ∷ r) (y ∷ p) (z ∷ g) =
    ap₂ ◌∷◌ (bit_xor_assoc x y z ∙ ap (bit_xor x) (bit_xor_comm y z) ∙ sym (bit_xor_assoc x z y))
      (xor_row_swap r p g)

pub xor_row_concat :
    (r p : List ℕ) (b c : ℕ)
    → length r ≡ length p
    → xor_row (r ++ b ∷ []) (p ++ c ∷ []) ≡ xor_row r p ++ bit_xor b c ∷ []
unfolding xor_row
xor_row_concat [] [] b c h = refl
xor_row_concat [] (y ∷ p) b c h = absurd (omega arith)
xor_row_concat (x ∷ r) [] b c h = absurd (omega arith)
xor_row_concat (x ∷ r) (y ∷ p) b c h = ap (◌∷◌ (bit_xor x y)) (xor_row_concat r p b c (omega arith))

pub length-reduce : (g w : List ℕ) → length (reduce g w).1 ≡ length w
unfolding reduce
length-reduce g w = ground (arith, length-xor_row w g)

head-xor_row : (w p : List ℕ) → get_or (xor_row w (0 ∷ p)) 0 0 ≡ get_or w 0 0
unfolding xor_row
head-xor_row [] p = refl
head-xor_row (x ∷ w) p = bit_xor-zero x

-- A row whose first digit is 0 does not change the branch.
reduce-xor_row :
    (g w p : List ℕ)
    → reduce g (xor_row w (0 ∷ p)) ≡ ((reduce g w).0, xor_row (reduce g w).1 (0 ∷ p))
unfolding reduce
reduce-xor_row g w p = elim (Bool-cases (get_or w 0 0 == 0)) [
  | inl e ↦ rw (head-xor_row w p, e)
  | inr e ↦ rw (head-xor_row w p, e) (ap (λ t. (1, t)) (xor_row_swap w (0 ∷ p) g))
]

shift_in-xor_row :
    (s p : List ℕ) (b c : ℕ)
    → length s ≡ suc (length p)
    → shift_in (xor_row s (0 ∷ p)) (bit_xor b c) ≡ xor_row (shift_in s b) (p ++ c ∷ [])
unfolding shift_in xor_row
shift_in-xor_row [] p b c h = absurd (omega arith)
shift_in-xor_row (x ∷ s) p b c h = sym (xor_row_concat s p b c (omega arith))

pub length-shift_in : (s : List ℕ) (b : ℕ) → 0 < length s → length (shift_in s b) ≡ length s
unfolding shift_in
length-shift_in [] b h = absurd (omega arith)
length-shift_in (x ∷ s) b h = omega (arith, length-append s (b ∷ []))

length-pad : (k : ℕ) (q : List ℕ) → length (replicate k 0 ++ q) ≡ k + length q
length-pad k q = omega (arith, length-append (replicate k 0) q, length-replicate {A = ℕ} k 0)

-- The digits `cs` are added to the last ones of the input, while they cannot have reached `r[0]`.
pub divide-xor_row :
    (j k : ℕ) (g w q bs cs : List ℕ)
    → length bs ≡ length cs
    → length w ≡ suc (k + length q)
    → k ≡ length cs + j
    → divide g (xor_row w (0 ∷ (replicate k 0 ++ q))) (xor_row bs cs)
      ≡ ((divide g w bs).0, xor_row (divide g w bs).1 (0 ∷ (replicate j 0 ++ (q ++ cs))))
unfolding divide xor_row
divide-xor_row j k g w q [] [] e h f =
    let same : k ≡ j = omega arith in rw (reduce-xor_row g w, append-nil, same)
divide-xor_row j k g w q [] (c ∷ cs) e h f = absurd (omega arith)
divide-xor_row j k g w q (b ∷ bs) [] e h f = absurd (omega arith)
divide-xor_row j zero g w q (b ∷ bs) (c ∷ cs) e h f = absurd (omega arith)
divide-xor_row j (suc k) g w q (b ∷ bs) (c ∷ cs) e h f =
    let s = (reduce g w).1 in
    let size : length s ≡ suc (suc k + length q) = length-reduce g w ∙ h in
    let pad = replicate k 0 ++ q in
    let shifted : shift_in (xor_row s (0 ∷ 0 ∷ pad)) (bit_xor b c)
        ≡ xor_row (shift_in s b) (0 ∷ (replicate k 0 ++ (q ++ c ∷ []))) =
      shift_in-xor_row s (0 ∷ pad) b c (omega (arith, length-pad k q))
      ∙ ap (λ t. xor_row (shift_in s b) (0 ∷ t)) (append_assoc (replicate k 0) q (c ∷ [])) in
    let ih =
      divide-xor_row j k g (shift_in s b) (q ++ c ∷ []) bs cs (omega arith)
        (omega (arith, length-shift_in s b, length-append q (c ∷ []))) (omega arith) in
    rw (reduce-xor_row g w (0 ∷ pad), shifted, ih, append_assoc q (c ∷ []) cs)

-- ===== src/Hamming/Digits.antt =====
-- The binary digits of a position, and how many ones a check counts.
use cn.Base.{
  ℕ, zero, suc, ◌+◌, ◌/◌, ◌%◌, ◌^◌, ◌<◌, ◌≤◌, ◌≡◌, refl, sym, ap, Bool, false, ◌&&◌, List, [], ◌∷◌,
  ◌==◌, some, length, get_elem?, replicate, arith, set, get_or, leb,
}
use cn.Base.Int.{ℤ, pos, eqb_ℤ, bit}
use cn.Hamming.{mark, convert, binary, count_ones, position_of_1}

-- The bit `p` of a position.
unfoldable pub has_digit : ℕ → ℕ → Bool
has_digit zero i = i % 2 == 1
has_digit (suc p) i = has_digit p (i / 2)

unfoldable pub is_one : ℤ → Bool
is_one x = eqb_ℤ x (pos 1)

-- The number of ones at the positions that have the bit `p`; the first cell has the position `i`.
unfoldable pub ones_at : ℕ → ℕ → List ℤ → ℕ
unfolding has_digit is_one
ones_at p i [] = 0
ones_at p i (x ∷ df) = bit (has_digit p i && is_one x) + ones_at p (i + 1) df

pub has_digit-zero : (p : ℕ) → has_digit p 0 ≡ false
unfolding has_digit
has_digit-zero zero = refl
has_digit-zero (suc p) = has_digit-zero p

get_elem-replicate : (n p : ℕ) → p < n → get_elem? (replicate n mark) p ≡ some mark
get_elem-replicate zero p h = absurd (omega arith)
get_elem-replicate (suc n) zero h = refl
get_elem-replicate (suc n) (suc p) h = get_elem-replicate n p (omega arith)

-- Every cell of an array tells its bit of a position.
abbrev Tells : ℕ → ℕ → List ℤ → Type 0
Tells n i r = (p : ℕ) → p < n → (a : ℤ) × (get_elem? r p ≡ some a) × (is_one a ≡ has_digit p i)

marks-Tells : (n : ℕ) → Tells n 0 (replicate n mark)
unfolding is_one
marks-Tells n p h = (mark, get_elem-replicate n p h, sym (has_digit-zero p))

cons-Tells :
    (n i : ℕ) (a : ℤ) (r : List ℤ)
    → is_one a ≡ has_digit 0 i
    → Tells n (i / 2) r
    → Tells (suc n) i (a ∷ r)
unfolding has_digit
cons-Tells n i a r e t zero h = (a, refl, e)
cons-Tells n i a r e t (suc p) h = t p (omega arith)

digit-is_one : (i : ℕ) → is_one (pos (i % 2)) ≡ has_digit 0 i
unfolding is_one has_digit
digit-is_one i = ground arith

convert-Tells :
    (n i : ℕ) → i < 2 ^ n → (r : List ℤ) × (convert (replicate n mark) i ≡ some r) × Tells n i r
unfolding convert
convert-Tells n zero h = (replicate n mark, refl, marks-Tells n)
convert-Tells zero (suc i) h = absurd (omega arith)
convert-Tells (suc n) (suc zero) h = (
  pos 1 ∷ replicate n mark,
  refl,
  cons-Tells n 1 (pos 1) (replicate n mark) (digit-is_one 1) (marks-Tells n),
)
convert-Tells (suc n) (suc (suc i)) h =
    let two = suc (suc i) in
    let (r, e, t) = convert-Tells n (two / 2) (omega arith) in
    let digit = pos (two % 2) in
    (digit ∷ r, ground (arith, e), cons-Tells n two digit r (digit-is_one two) t)

-- Up to position 15, the loop counts the ones at the positions that have the bit.
pub count_ones-ones_at :
    (p i : ℕ) (df : List ℤ) → p < 4 → i + length df ≤ 16 → count_ones p i df ≡ some (ones_at p i df)
unfolding count_ones binary ones_at is_one
count_ones-ones_at p i [] h hi = refl
count_ones-ones_at p i (x ∷ df) h hi =
    let (r, e, t) = convert-Tells 4 i (omega arith) in
    let (a, ea, told) = t p h in
    rw (e, ea, count_ones-ones_at p (i + 1) df h (omega (arith, hi)))
      (ap (λ b. some (bit (b && is_one x) + ones_at p (i + 1) df)) told)

pub pow-positive : (p : ℕ) → 1 ≤ 2 ^ p
pow-positive zero = omega arith
pow-positive (suc p) = omega (arith, pow-positive p)

-- The position of the only digit of a power of two.
pub position_of_1-pow : (fuel p : ℕ) → 2 ^ p ≤ fuel → position_of_1 fuel (2 ^ p) ≡ p
unfolding position_of_1
position_of_1-pow zero p h = absurd (omega (arith, pow-positive p))
position_of_1-pow (suc fuel) zero h = refl
position_of_1-pow (suc fuel) (suc p) h =
    let half : 2 ^ suc p / 2 ≡ 2 ^ p = omega arith in
    let more : leb (2 ^ suc p) 1 ≡ false = ground (arith, pow-positive p) in
    rw (more, half) (ap suc (position_of_1-pow fuel p (omega (arith, pow-positive p))))

pub has_digit-pow : (p q : ℕ) → has_digit p (2 ^ q) ≡ (p == q)
unfolding has_digit
has_digit-pow zero zero = refl
has_digit-pow zero (suc q) = ground arith
has_digit-pow (suc p) zero = ground (arith, has_digit-zero p)
has_digit-pow (suc p) (suc q) =
    let half : 2 ^ suc q / 2 ≡ 2 ^ q = omega arith in rw (half, has_digit-pow p q) (ground arith)

-- How a written cell changes what a check counts.
pub ones_at-set :
    (p i j : ℕ) (df : List ℤ) (r : ℤ)
    → j < length df
    → ones_at p i (set df j r) + bit (has_digit p (i + j) && is_one (get_or df j (pos 0)))
      ≡ ones_at p i df + bit (has_digit p (i + j) && is_one r)
unfolding ones_at
ones_at-set p i j [] r h = absurd (omega arith)
ones_at-set p i zero (x ∷ df) r h = let e : i + 0 ≡ i = omega arith in rw e (omega arith)
ones_at-set p i (suc j) (x ∷ df) r h =
    let e : i + suc j ≡ i + 1 + j = omega arith in
    rw e (omega (arith, ones_at-set p (i + 1) j df r (omega (arith, h))))

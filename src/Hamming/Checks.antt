-- ===== src/Hamming/Checks.antt =====
-- What the scans over the redundancy bits compute.
use cn.Base.{
  ℕ, zero, suc, ◌+◌, ◌%◌, ◌^◌, ◌<◌, ◌≤◌, ◌≡◌, refl, sym, ap, ap₂, subst, ◌∙◌, true, false, ◌&&◌,
  List, [], ◌∷◌, ◌==◌, some, length, get_or, set, drop, arith, if◌then◌else◌, length-drop,
  get_or-set, Bool-cases, inl, inr,
}
use cn.Base.Int.{ℤ, pos, bit}
use cn.Hamming.{compute_bit}
use cn.Hamming.Digits.{
  has_digit, is_one, ones_at, count_ones-ones_at, position_of_1-pow, has_digit-pow, ones_at-set,
  pow-positive,
}

-- The ones at the positions of a frame that have the bit `p`.
abbrev pub ones : ℕ → List ℤ → ℕ
ones p df = ones_at p 1 (drop 1 df)

abbrev pub parity : ℕ → ℤ
parity n = pos (if n % 2 == 0 then 0 else 1)

pub parity-even : (n : ℕ) → (n + bit (is_one (parity n))) % 2 ≡ 0
unfolding is_one
parity-even n = ground arith

pub ones-set :
    (q i : ℕ) (df : List ℤ) (r : ℤ)
    → 1 ≤ i
    → i < length df
    → ones q (set df i r) + bit (has_digit q i && is_one (get_or df i (pos 0)))
      ≡ ones q df + bit (has_digit q i && is_one r)
ones-set q i [] r h hi = absurd (omega arith)
ones-set q zero (x ∷ df) r h hi = absurd (omega arith)
ones-set q (suc j) (x ∷ df) r h hi =
    let e : suc j ≡ 1 + j = omega arith in rw e (ones_at-set q 1 j df r (omega (arith, hi)))

small_pow : (p : ℕ) → 2 ^ p < 16 → p < 4
small_pow zero h = omega arith
small_pow (suc zero) h = omega arith
small_pow (suc (suc zero)) h = omega arith
small_pow (suc (suc (suc zero))) h = omega arith
small_pow (suc (suc (suc (suc p)))) h = absurd (omega (arith, pow-positive p))

pub compute_bit-parity :
    (p : ℕ) (df : List ℤ)
    → 2 ^ p < length df
    → length df ≤ 16
    → compute_bit (2 ^ p) df ≡ some (set df (2 ^ p) (parity (ones p df)), parity (ones p df) ∷ [])
unfolding compute_bit
compute_bit-parity p df h hl =
    let counted =
      count_ones-ones_at p 1 (drop 1 df) (small_pow p (omega (arith, h, hl)))
        (omega (arith, length-drop 1 df, hl)) in
    rw (position_of_1-pow (2 ^ p) p (omega arith), counted) refl

-- The parities of `c` checks from the check `p` on.
unfoldable pub syndromes : ℕ → ℕ → List ℤ → List ℤ
syndromes zero p df = []
syndromes (suc c) p df = parity (ones p df) ∷ syndromes c (suc p) df

pub syndromes-ext :
    (c p : ℕ) (a b : List ℤ)
    → ((q : ℕ) → p ≤ q → ones q a ≡ ones q b)
    → syndromes c p a ≡ syndromes c p b
unfolding syndromes
syndromes-ext zero p a b h = refl
syndromes-ext (suc c) p a b h =
    ap₂ (λ n t. parity n ∷ t) (h p (omega arith))
      (syndromes-ext c (suc p) a b (λ q hq. h q (omega (arith, hq))))

-- How many powers of two, from 2 ^ p on, are among the `n` positions from `i`.
unfoldable pub powers : ℕ → ℕ → ℕ → ℕ
powers zero p i = 0
powers (suc n) p i = bit (i == 2 ^ p) + powers n (bit (i == 2 ^ p) + p) (i + 1)

pub pow-differ : (p q : ℕ) → p < q → 2 ^ p < 2 ^ q
pow-differ p zero h = absurd (omega arith)
pow-differ zero (suc q) h = omega (arith, pow-positive q)
pow-differ (suc p) (suc q) h = omega (arith, pow-differ p q (omega (arith, h)))

-- The checks below `p` are even.
unfoldable pub Even : ℕ → List ℤ → Type 0
Even p df = (q : ℕ) → q < p → ones q df % 2 ≡ 0

-- No redundancy bit from the check `p` on is set.
unfoldable pub Clear : ℕ → List ℤ → Type 0
Clear p df = (q : ℕ) → p ≤ q → is_one (get_or df (2 ^ q) (pos 0)) ≡ false

-- After the bit at 2 ^ p is computed, its check is even too, and no other has changed.
pub other_check :
    (p q : ℕ) (df : List ℤ) (r : ℤ)
    → 2 ^ p < length df
    → (q == p) ≡ false
    → ones q (set df (2 ^ p) r) ≡ ones q df
other_check p q df r h ne =
    let changed = ones-set q (2 ^ p) df r (pow-positive p) h in
    let apart : has_digit q (2 ^ p) ≡ false = has_digit-pow q p ∙ ne in
    ground (arith, changed, apart)

own_check :
    (p : ℕ) (df : List ℤ)
    → 2 ^ p < length df
    → is_one (get_or df (2 ^ p) (pos 0)) ≡ false
    → ones p (set df (2 ^ p) (parity (ones p df))) % 2 ≡ 0
own_check p df h clear =
    let changed = ones-set p (2 ^ p) df (parity (ones p df)) (pow-positive p) h in
    let own : has_digit p (2 ^ p) ≡ true = has_digit-pow p p ∙ ground arith in
    ground (arith, changed, own, clear, parity-even (ones p df))

pub set-Clear :
    (p : ℕ) (df : List ℤ) (r : ℤ)
    → 2 ^ p < length df
    → Clear p df
    → Clear (suc p) (set df (2 ^ p) r)
unfolding Clear
set-Clear p df r h clear q hq =
    let apart : (2 ^ p == 2 ^ q) ≡ false = ground (arith, pow-differ p q (omega (arith, hq))) in
    rw (get_or-set df (2 ^ p) (2 ^ q) r (pos 0) h, apart) (clear q (omega (arith, hq)))

pub set-Even :
    (p : ℕ) (df : List ℤ)
    → 2 ^ p < length df
    → Clear p df
    → Even p df
    → Even (suc p) (set df (2 ^ p) (parity (ones p df)))
unfolding Clear Even
set-Even p df h clear even q hq = elim (Bool-cases (q == p)) [
  | inl e ↦
      let same : q ≡ p = ground (arith, e) in
      subst (λ n. ones n (set df (2 ^ p) (parity (ones p df))) % 2 ≡ 0) (sym same)
        (own_check p df h (clear p (omega arith)))
  | inr e ↦
      ap (λ n. n % 2) (other_check p q df (parity (ones p df)) h e) ∙ even q (ground (arith, e, hq))
]

-- ===== src/Nfs/Client/Octal.antt =====
-- perm_bit reads a number that is written with octal digits.
use native.Mathlib.Nat.{mul_comm, mul_assoc, add-mul, mul-add}
use mathlib.Core.List.{reverse, reverse-reverse}
use cn.Base.{ℕ, ◌+◌, ◌-◌, ◌*◌, ◌≡◌, ap, ◌∙◌, true, List, [], ◌∷◌, map, leb, arith}
use cn.Base.Int.{pos}
use cn.Nfs.Client.{perm_loop, perm_bit, difference}

-- The characters of digits.
abbrev pub characters : List ℕ → List ℕ
characters = map (λ d. 48 + d)

-- The number with these digits, the lowest first.
abbrev pub value : List ℕ → ℕ
value [] = 0
value (d ∷ ds) = d + 8 * value ds

perm_loop-value :
    (coff : ℕ) (ds : List ℕ)
    → let (plus, minus) = perm_loop coff (characters ds) in plus ≡ coff * value ds + minus
unfolding perm_loop
perm_loop-value coff [] = omega arith
perm_loop-value coff (d ∷ ds) =
    let (plus, minus) = perm_loop (coff * 8) (characters ds) in
    let coff8 = mul_assoc coff 8 (value ds) in
    let plus_step = add-mul 48 d coff in
    let value_step = mul-add coff d (8 * value ds) in
    omega (arith, perm_loop-value (coff * 8) ds, coff8, plus_step, value_step, mul_comm d coff)

difference_add : (v m : ℕ) → difference (v + m) m ≡ pos v
difference_add v m =
    let above : leb m (v + m) ≡ true = ground arith in
    let less : v + m - m ≡ v = omega arith in rw (above, less)

-- perm_bit of octal digits, written from the highest to the lowest one, is the number that they stand for.
pub perm_bit-reverse : (ds : List ℕ) → perm_bit (reverse (characters ds)) ≡ pos (value ds)
unfolding perm_bit
perm_bit-reverse ds =
    let (plus, minus) = perm_loop 1 (characters ds) in
    let one : 1 * value ds ≡ value ds = omega arith in
    let total : plus ≡ value ds + minus = perm_loop-value 1 ds ∙ ap (λ v. v + minus) one in
    rw (reverse-reverse (characters ds), total) (difference_add (value ds) minus)

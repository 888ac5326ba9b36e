-- ===== src/Hamming/Frame.antt =====
-- The frame with marked redundancy bits.
use cn.Base.{
  ℕ, zero, suc, ◌+◌, ◌-◌, ◌*◌, ◌^◌, ◌<◌, ◌≤◌, ◌≡◌, ◌≢◌, refl, sym, ap, ap₂, subst, ◌∙◌, Bool, true,
  false, List, [], ◌∷◌, ◌==◌, Option, some, ◌>>=◌, length, get_or, arith, if◌then◌else◌, Bool-cases,
  ltb, inl, inr,
}
use cn.Base.Int.{ℤ, pos, bit, eqb_ℤ}
use cn.Hamming.{mark, new_frame}
use cn.Hamming.Digits.{is_one, pow-positive}
use cn.Hamming.Checks.{powers, pow-differ}
use cn.Hamming.Scan.{Marked}

-- The cells that are no redundancy bits.
unfoldable pub data_cells : ℕ → ℕ → List ℤ → List ℤ
data_cells p i [] = []
data_cells p i (x ∷ df) =
    let rest = data_cells (bit (i == 2 ^ p) + p) (i + 1) df in if i == 2 ^ p then rest else x ∷ rest

pub record Framed (p i : ℕ) (db : List ℤ) (m : Option (List ℤ × ℕ)) : Type 0 where
  pub df : List ℤ
  pub nrb : ℕ
  pub result : m ≡ some (df, nrb)
  pub marks : Marked p i df
  pub count : nrb ≡ powers (length df) p i
  pub stripped : data_cells p i df ≡ db
  pub size : i + length df ≤ 16

-- No datum is taken for a mark.
unfoldable pub Unmarked : List ℤ → Type 0
Unmarked [] = Unit
Unmarked (x ∷ db) = (eqb_ℤ x mark ≡ false) × Unmarked db

-- The frame grows by a cell in front: a mark at a power of two, a datum elsewhere.
mark-Framed :
    (p i : ℕ) (db : List ℤ) (m : Option (List ℤ × ℕ))
    → (i == 2 ^ p) ≡ true
    → Framed (suc p) (i + 1) db m
    → Framed p i db (m >>= λ (df, nrb). some (mark ∷ df, 1 + nrb))
unfolding Marked powers data_cells
mark-Framed p i db m e s =
    let index : bit (i == 2 ^ p) + p ≡ suc p = rw e (omega arith) in
    record {
      df = mark ∷ s.df;
      nrb = 1 + s.nrb;
      result = rw s.result refl;
      marks = (sym e, subst (λ q. Marked q (i + 1) s.df) (sym index) s.marks);
      count = rw (index, e) (ap (λ n. 1 + n) s.count);
      stripped = rw (index, e) s.stripped;
      size = omega (arith, s.size);
    }

datum-Framed :
    (p i : ℕ) (x : ℤ) (db : List ℤ) (m : Option (List ℤ × ℕ))
    → (i == 2 ^ p) ≡ false
    → eqb_ℤ x mark ≡ false
    → Framed p (i + 1) db m
    → Framed p i (x ∷ db) (m >>= λ (df, nrb). some (x ∷ df, 0 + nrb))
unfolding Marked powers data_cells
datum-Framed p i x db m e plain s =
    let index : bit (i == 2 ^ p) + p ≡ p = rw e (omega arith) in
    record {
      df = x ∷ s.df;
      nrb = 0 + s.nrb;
      result = rw s.result refl;
      marks = (plain ∙ sym e, subst (λ q. Marked q (i + 1) s.df) (sym index) s.marks);
      count = rw (index, e) (ap (λ n. 0 + n) s.count);
      stripped = rw (index, e) (ap (◌∷◌ x) s.stripped);
      size = omega (arith, s.size);
    }

-- The rounds that are left after a round.
after_mark :
    (n p i fuel : ℕ)
    → 2 * n + bit (i == 2 ^ p) + bit (p == 0) ≤ suc fuel
    → i ≡ 2 ^ p
    → 2 * n + bit (i + 1 == 2 ^ suc p) + bit (suc p == 0) ≤ fuel
after_mark n zero i fuel h here = ground (arith, h, here)
after_mark n (suc p) i fuel h here =
    let apart : (i + 1 == 2 ^ suc (suc p)) ≡ false = ground (arith, here, pow-positive p) in
    let same : (i == 2 ^ suc p) ≡ true = ground (arith, here) in rw apart (ground (arith, h, same))

after_datum :
    (n p i fuel : ℕ)
    → 2 * suc n + bit (i == 2 ^ p) + bit (p == 0) ≤ suc fuel
    → (i == 2 ^ p) ≡ false
    → 2 * n + bit (i + 1 == 2 ^ p) + bit (p == 0) ≤ fuel
after_datum n p i fuel h e = ground (arith, h)

pub new_frame-Framed :
    (fuel p i : ℕ) (db : List ℤ)
    → 2 * length db + bit (i == 2 ^ p) + bit (p == 0) ≤ fuel
    → i ≤ 2 ^ p
    → p ≤ 4
    → i + length db + 4 ≤ p + 16
    → Unmarked db
    → Framed p i db (new_frame fuel (2 ^ p) i db)
unfolding new_frame Marked powers data_cells Unmarked
new_frame-Framed fuel p i [] hf hi hp room h = record {
  df = [];
  nrb = 0;
  result = refl;
  marks = tt;
  count = refl;
  stripped = refl;
  size = omega (arith, hp, room);
}
new_frame-Framed zero p i (x ∷ db) hf hi hp room h = absurd (omega (arith, hf))
new_frame-Framed (suc fuel) p i (x ∷ db) hf hi hp room h = elim (Bool-cases (i == 2 ^ p)) [
  | inl e ↦
      let here : i ≡ 2 ^ p = ground (arith, e) in
      let double : 2 ^ p * 2 ≡ 2 ^ suc p = omega arith in
      let small : p ≢ 4 = λ four.
        let sixteen : 2 ^ p ≡ 16 = ap (λ n. 2 ^ n) four in
        absurd (omega (arith, here, sixteen, four, room)) in
      let s =
        new_frame-Framed fuel (suc p) (i + 1) (x ∷ db)
          (after_mark (length (x ∷ db)) p i fuel hf here) (omega (arith, here, pow-positive p))
          (omega (arith, hp, small)) (omega (arith, room)) h in
      rw (e, double) (mark-Framed p i (x ∷ db) (new_frame fuel (2 ^ suc p) (i + 1) (x ∷ db)) e s)
  | inr e ↦
      let s =
        new_frame-Framed fuel p (i + 1) db (after_datum (length db) p i fuel hf e)
          (ground (arith, e, hi)) hp (omega (arith, room)) h.1 in
      rw e (datum-Framed p i x db (new_frame fuel (2 ^ p) (i + 1) db) e h.0 s)
]

-- How a position and the next power of two go on.
pow-le : (p q : ℕ) → p ≤ q → 2 ^ p ≤ 2 ^ q
pow-le p q h = elim (Bool-cases (p == q)) [
  | inl e ↦ let same : p ≡ q = ground (arith, e) in omega (arith, ap (λ n. 2 ^ n) same)
  | inr e ↦ omega (arith, pow-differ p q (ground (arith, e, h)))
]

pub next_power : (p i : ℕ) → i ≤ 2 ^ p → i + 1 ≤ 2 ^ (bit (i == 2 ^ p) + p)
next_power p i h = elim (Bool-cases (i == 2 ^ p)) [
  | inl e ↦
      let index : bit (i == 2 ^ p) + p ≡ suc p = rw e (omega arith) in
      rw index (omega (arith, h, pow-positive p))
  | inr e ↦
      let index : bit (i == 2 ^ p) + p ≡ p = rw e (omega arith) in rw index (ground (arith, e, h))
]

-- Marks are no ones.
pub Marked-Clear :
    (df : List ℤ) (p i q : ℕ)
    → Marked p i df
    → i ≤ 2 ^ p
    → p ≤ q
    → is_one (get_or df (2 ^ q - i) (pos 0)) ≡ false
unfolding Marked is_one
Marked-Clear [] p i q h hi hq = refl
Marked-Clear (x ∷ df) p i q h hi hq = elim (Bool-cases (i == 2 ^ q)) [
  | inl e ↦
      let here : i ≡ 2 ^ q = ground (arith, e) in
      let marked : (i == 2 ^ p) ≡ true = ground (arith, here, hi, pow-le p q hq) in
      let first : 2 ^ q - i ≡ 0 = omega (arith, here) in
      let is_mark : eqb_ℤ x mark ≡ true = h.0 ∙ marked in rw first (ground (arith, is_mark))
  | inr e ↦
      let next : 2 ^ q - i ≡ suc (2 ^ q - (i + 1)) = ground (arith, e, hi, pow-le p q hq) in
      let above : bit (i == 2 ^ p) + p ≤ q = elim (Bool-cases (p == q)) [
        | inl s ↦
            let same : p ≡ q = ground (arith, s) in
            let off : (i == 2 ^ p) ≡ false = subst (λ n. (i == 2 ^ n) ≡ false) (sym same) e in
            rw off (omega (arith, hq))
        | inr s ↦ ground (arith, s, hq)
      ] in
      rw next (Marked-Clear df (bit (i == 2 ^ p) + p) (i + 1) q h.1 (next_power p i hi) above)
]

-- Every power of two below 2 ^ p is below `i`.
unfoldable pub Passed : ℕ → ℕ → Type 0
Passed p i = (q : ℕ) → q < p → 2 ^ q < i

next-Passed : (p i : ℕ) → Passed p i → Passed (bit (i == 2 ^ p) + p) (i + 1)
unfolding Passed
next-Passed p i h q hq = elim (Bool-cases (i == 2 ^ p)) [
  | inl e ↦
      let here : i ≡ 2 ^ p = ground (arith, e) in
      let index : bit (i == 2 ^ p) + p ≡ suc p = rw e (omega arith) in
      omega (arith, here, pow-le q p (omega (arith, hq, index)))
  | inr e ↦
      let index : bit (i == 2 ^ p) + p ≡ p = rw e (omega arith) in
      omega (arith, h q (omega (arith, hq, index)))
]

cons_if :
    (c : Bool) (x y : ℤ) {a b : List ℤ}
    → b ≡ a
    → (c ≡ false → y ≡ x)
    → (if c then b else y ∷ b) ≡ (if c then a else x ∷ a)
cons_if true x y e h = e
cons_if false x y e h = ap₂ ◌∷◌ (h refl) e

between :
    (p i : ℕ) → i ≤ 2 ^ p → Passed p i → (i == 2 ^ p) ≡ false → (q : ℕ) → (2 ^ q == i + 0) ≡ false
unfolding Passed
between p i hi hp e q = elim (Bool-cases (ltb q p)) [
  | inl l ↦ ground (arith, hp q (ground (arith, l)))
  | inr l ↦ ground (arith, e, hi, pow-le p q (ground (arith, l)))
]

-- The data survive a change of the cells at the powers of two.
pub data_cells-Keeps :
    (a b : List ℤ) (p i : ℕ)
    → length a ≡ length b
    → i ≤ 2 ^ p
    → Passed p i
    → ((j : ℕ) → ((q : ℕ) → (2 ^ q == i + j) ≡ false) → get_or b j (pos 0) ≡ get_or a j (pos 0))
    → data_cells p i b ≡ data_cells p i a
unfolding data_cells Passed
data_cells-Keeps [] [] p i hl hi hp h = refl
data_cells-Keeps [] (y ∷ b) p i hl hi hp h = absurd (omega (arith, hl))
data_cells-Keeps (x ∷ a) [] p i hl hi hp h = absurd (omega (arith, hl))
data_cells-Keeps (x ∷ a) (y ∷ b) p i hl hi hp h =
    let rest : (j : ℕ)
        → ((q : ℕ) → (2 ^ q == i + 1 + j) ≡ false)
        → get_or b j (pos 0) ≡ get_or a j (pos 0) =
      λ j apart.
        let shift : i + 1 + j ≡ i + suc j = omega arith in
        h (suc j) (λ q. subst (λ n. (2 ^ q == n) ≡ false) shift (apart q)) in
    let later =
      data_cells-Keeps a b (bit (i == 2 ^ p) + p) (i + 1) (omega (arith, hl)) (next_power p i hi)
        (next-Passed p i hp) rest in
    cons_if (i == 2 ^ p) x y later (λ e. h 0 (between p i hi hp e))

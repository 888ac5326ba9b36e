-- ===== src/Hamming/Scan.antt =====
-- The scan over the powers of two, and that the scan over the marks is the same on a new frame.
use cn.Base.{
  ℕ, zero, suc, ◌+◌, ◌*◌, ◌^◌, ◌<◌, ◌≤◌, ◌≡◌, refl, sym, ap, subst, ◌∙◌, true, false, List, [], ◌∷◌,
  ◌==◌, Option, none, some, ◌>>=◌, length, get_or, set, drop, arith, length-set, get_or-set,
  Bool-cases, inl, inr,
}
use cn.Base.Int.{ℤ, pos, bit, eqb_ℤ}
use cn.Hamming.{mark, compute_bit, scan_powers, scan_marks}
use cn.Hamming.Checks.{
  ones, parity, syndromes, syndromes-ext, powers, Even, Clear, other_check, set-Clear, set-Even,
  compute_bit-parity, pow-differ,
}

-- No cell but those at powers of two is written.
unfoldable pub Keeps : List ℤ → List ℤ → Type 0
Keeps a b = (j : ℕ) → ((q : ℕ) → (2 ^ q == j) ≡ false) → get_or b j (pos 0) ≡ get_or a j (pos 0)

-- A scan from the check `p` over `c` redundancy bits.
pub record Scanned (c p : ℕ) (df : List ℤ) (m : Option (List ℤ × List ℤ)) : Type 0 where
  pub last : List ℤ
  pub rb : List ℤ
  pub result : m ≡ some (last, rb)
  pub bits : rb ≡ syndromes c p df
  pub size : length last ≡ length df
  pub even : Clear p df → Even p df → Even (p + c) last
  pub keeps : Keeps df last

nothing-Scanned : (p : ℕ) (df : List ℤ) → Scanned 0 p df (some (df, []))
unfolding syndromes Keeps
nothing-Scanned p df = record {
  last = df;
  rb = [];
  result = refl;
  bits = refl;
  size = refl;
  even = λ clear even. let e : p ≡ p + 0 = omega arith in subst (λ n. Even n df) e even;
  keeps = λ j h. refl;
}

-- A scan that begins with the bit at 2 ^ p.
then-Scanned :
    (c p : ℕ) (df : List ℤ) (m : Option (List ℤ × List ℤ))
    → 2 ^ p < length df
    → Scanned c (suc p) (set df (2 ^ p) (parity (ones p df))) m
    → Scanned (suc c) p df (m >>= λ (last, rb). some (last, parity (ones p df) ∷ rb))
unfolding syndromes Keeps
then-Scanned c p df m h s =
    let r = parity (ones p df) in
    record {
      last = s.last;
      rb = r ∷ s.rb;
      result = rw s.result refl;
      bits =
          ap (λ t. r ∷ t)
            (s.bits
              ∙ syndromes-ext c (suc p) (set df (2 ^ p) r) df
                  (λ q hq. other_check p q df r h (ground (arith, hq))));
      size = s.size ∙ length-set df (2 ^ p) r;
      even = λ clear even.
          let e : suc p + c ≡ p + suc c = omega arith in
          subst (λ n. Even n s.last) e
            (s.even (set-Clear p df r h clear) (set-Even p df h clear even));
      keeps = λ j apart. s.keeps j apart ∙ get_or-set df (2 ^ p) j r (pos 0) h ∙ rw (apart p) refl;
    }

same_scan : (m : Option (List ℤ × List ℤ)) → (m >>= λ (last, rb). some (last, rb)) ≡ m
same_scan none = refl
same_scan (some r) = refl

pub scan_powers-Scanned :
    (n p i : ℕ) (df : List ℤ)
    → i ≤ 2 ^ p
    → i + n ≡ length df
    → length df ≤ 16
    → Scanned (powers n p i) p df (scan_powers n (2 ^ p) i df)
unfolding scan_powers powers syndromes Keeps
scan_powers-Scanned zero p i df hi hn hl = nothing-Scanned p df
scan_powers-Scanned (suc n) p i df hi hn hl = elim (Bool-cases (i == 2 ^ p)) [
  | inl e ↦
      let here : i ≡ 2 ^ p = ground (arith, e) in
      let inside : 2 ^ p < length df = omega (arith, here, hn) in
      let b = parity (ones p df) in
      let df1 = set df (2 ^ p) b in
      let double : 2 ^ p * 2 ≡ 2 ^ suc p = omega arith in
      let s =
        scan_powers-Scanned n (suc p) (i + 1) df1 (ground (arith, here, pow-differ p (suc p)))
          (omega (arith, hn, length-set df (2 ^ p) b))
          (omega (arith, hl, length-set df (2 ^ p) b)) in
      let counted : compute_bit i df ≡ some (df1, b ∷ []) =
        rw here (compute_bit-parity p df inside hl) in
      let next : bit true + p ≡ suc p = omega arith in
      let c = powers n (suc p) (i + 1) in
      let more : bit true + c ≡ suc c = omega arith in
      rw (e, counted, double, next, more)
        (then-Scanned c p df (scan_powers n (2 ^ suc p) (i + 1) df1) inside s)
  | inr e ↦
      let s = scan_powers-Scanned n p (i + 1) df (ground (arith, e, hi)) (omega (arith, hn)) hl in
      let next : bit false + p ≡ p = omega arith in
      let c = powers n p (i + 1) in
      let more : bit false + c ≡ c = omega arith in
      rw (e, next, more)
        (subst (Scanned c p df) (sym (same_scan (scan_powers n (2 ^ p) (i + 1) df))) s)
]

-- The cells from position `i` on carry marks at the powers of two from 2 ^ p on, and nowhere else.
unfoldable pub Marked : ℕ → ℕ → List ℤ → Type 0
Marked p i [] = Unit
Marked p i (x ∷ df) = (eqb_ℤ x mark ≡ (i == 2 ^ p)) × Marked (bit (i == 2 ^ p) + p) (i + 1) df

head-drop : (i : ℕ) (df : List ℤ) (d : ℤ) → get_or df i d ≡ get_or (drop i df) 0 d
head-drop zero df d = refl
head-drop (suc i) [] d = refl
head-drop (suc i) (x ∷ df) d = head-drop i df d

drop-next : (i : ℕ) (df : List ℤ) → drop (suc i) df ≡ drop 1 (drop i df)
drop-next zero df = refl
drop-next (suc i) [] = refl
drop-next (suc i) (x ∷ df) = drop-next i df

drop-set : (i : ℕ) (df : List ℤ) (v : ℤ) → drop (suc i) (set df i v) ≡ drop (suc i) df
drop-set i [] v = refl
drop-set zero (x ∷ df) v = refl
drop-set (suc i) (x ∷ df) v = drop-set i df v

-- On marked cells the two scans do the same.
pub scan_marks-scan_powers :
    (cells : List ℤ) (p i : ℕ) (df : List ℤ)
    → drop i df ≡ cells
    → i + length cells ≡ length df
    → length df ≤ 16
    → Marked p i cells
    → scan_marks (length cells) i df ≡ scan_powers (length cells) (2 ^ p) i df
unfolding scan_marks scan_powers Marked
scan_marks-scan_powers [] p i df at hn hl h = refl
scan_marks-scan_powers (x ∷ cells) p i df at hn hl h =
    let cell : get_or df i (pos 0) ≡ x = head-drop i df (pos 0) ∙ ap (λ t. get_or t 0 (pos 0)) at in
    let after : drop (i + 1) df ≡ cells =
      let next : i + 1 ≡ suc i = omega arith in rw next (drop-next i df ∙ ap (drop 1) at) in
    elim (Bool-cases (i == 2 ^ p)) [
      | inl e ↦
          let here : i ≡ 2 ^ p = ground (arith, e) in
          let b = parity (ones p df) in
          let counted : compute_bit i df ≡ some (set df i b, b ∷ []) =
            rw here (compute_bit-parity p df (omega (arith, here, hn)) hl) in
          let double : 2 ^ p * 2 ≡ 2 ^ suc p = omega arith in
          let index : bit (i == 2 ^ p) + p ≡ suc p = rw e (omega arith) in
          let next : suc i ≡ i + 1 = omega arith in
          let size = length-set df i b in
          let later =
            scan_marks-scan_powers cells (suc p) (i + 1) (set df i b)
              (subst (λ n. drop n (set df i b) ≡ drop n df) next (drop-set i df b) ∙ after)
              (omega (arith, hn, size)) (omega (arith, size, hl))
              (subst (λ q. Marked q (i + 1) cells) index h.1) in
          rw (cell, h.0, e, counted, double, later) refl
      | inr e ↦
          let index : bit (i == 2 ^ p) + p ≡ p = rw e (omega arith) in
          let later =
            scan_marks-scan_powers cells p (i + 1) df after (omega (arith, hn)) hl
              (subst (λ q. Marked q (i + 1) cells) index h.1) in
          rw (cell, h.0, e, later) refl
    ]

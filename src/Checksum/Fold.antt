-- ===== src/Checksum/Fold.antt =====
-- Folding keeps the sum of the words modulo 65535, and the loops neither overflow nor run on.
use cn.Base.{
  ℕ, suc, ◌+◌, ◌-◌, ◌*◌, ◌/◌, ◌%◌, ◌^◌, ◌≤◌, ◌<◌, ◌≡◌, refl, ◌∙◌, subst, true, some, List, [], ◌∷◌,
  ◌==◌, arith, Returns, Bool-cases, inl, inr,
}
use cn.Checksum.{fold, add_word, sum_words, fold_all, compute_checksum}

-- The sum of the words of a block, without any folding.
abbrev pub total : List ℕ → ℕ
total [] = 0
total (b ∷ []) = b
total (b ∷ c ∷ bs) = b + 256 * c + total bs

abbrev pub IsBytes : List ℕ → Type 0
IsBytes [] = Unit
IsBytes (b ∷ bs) = (b < 256) × IsBytes bs

-- `s` stands for the number `t` modulo 65535, and is 0 only if `t` is.
abbrev pub Stands : ℕ → ℕ → Type 0
Stands s t = (s % 65535 ≡ t % 65535) × (t ≤ 0 → s ≤ 0) × (s ≤ 0 → t ≤ 0)

Stands-trans : {r s t : ℕ} → Stands r s → Stands s t → Stands r t
Stands-trans a b = (a.0 ∙ b.0, (λ h. a.1 (b.1 h)), λ h. b.2 (a.2 h))

-- The same number is added on both sides.
Stands-add : {s t : ℕ} (k : ℕ) → Stands s t → Stands (s + k) (t + k)
Stands-add k a = grind arith

fold-Stands : (s : ℕ) → Stands (fold s) s
unfolding fold
fold-Stands s = omega arith

add_word-Stands :
    (s w : ℕ) → s < 2 ^ 31 → w < 65536 → (add_word s w < 2 ^ 31) × Stands (add_word s w) (s + w)
unfolding add_word
add_word-Stands s w p q = elim (Bool-cases ((s + w) / 2 ^ 31 % 2 == 0)) [
  | inl e ↦ rw e (ground arith, (refl, (λ h. h), λ h. h))
  | inr e ↦ rw e (omega arith, fold-Stands (s + w))
]

-- The first loop: the sum stays below 2^31 between the rounds, so it needs no more than 32 bits.
sum_words-Stands :
    (s : ℕ) (bs : List ℕ)
    → s < 2 ^ 31
    → IsBytes bs
    → (sum_words s bs < 2 ^ 31 + 256) × Stands (sum_words s bs) (s + total bs)
unfolding sum_words
sum_words-Stands s [] p h = omega arith
sum_words-Stands s (b ∷ []) p h = omega arith
sum_words-Stands s (b ∷ c ∷ bs) p h =
    let (small, stands) = add_word-Stands s (b + 256 * c) p (omega arith) in
    let (small', stands') = sum_words-Stands (add_word s (b + 256 * c)) bs small h.1.1 in
    let regroup : s + (b + 256 * c) + total bs ≡ s + (b + 256 * c + total bs) = omega arith in
    (
      small',
      subst (Stands (sum_words (add_word s (b + 256 * c)) bs)) regroup
          (Stands-trans stands' (Stands-add (total bs) stands)),
    )

fold_all_next :
    (fuel s : ℕ)
    → Returns (λ r. (r < 65536) × Stands r (fold s)) (fold_all fuel (fold s))
    → Returns (λ r. (r < 65536) × Stands r s) (fold_all (suc fuel) s)
unfolding fold_all
fold_all_next fuel s (r, e, (small, stands)) = elim (Bool-cases (s / 65536 == 0)) [
  | inl done ↦ rw done (s, refl, (ground arith, (refl, (λ h. h), λ h. h)))
  | inr more ↦ rw (more, e) (r, refl, (small, Stands-trans stands (fold-Stands s)))
]

fold_all_done : (fuel s : ℕ) → s < 65536 → fold_all (suc fuel) s ≡ some s
unfolding fold_all
fold_all_done fuel s p = let done : (s / 65536 == 0) ≡ true = ground arith in rw done

fold_bounds : (s : ℕ) → s < 2 ^ 32 → fold (fold (fold s)) < 65536
unfolding fold
fold_bounds s p = omega arith

-- The second loop takes at most three rounds.
fold_all-Stands : (s : ℕ) → s < 2 ^ 32 → Returns (λ r. (r < 65536) × Stands r s) (fold_all 4 s)
fold_all-Stands s p =
    let t = fold (fold (fold s)) in
    fold_all_next 3 s (
      fold_all_next 2 (fold s) (
        fold_all_next 1 (fold (fold s))
          (t, fold_all_done 0 t (fold_bounds s p), (fold_bounds s p, (refl, (λ h. h), λ h. h)))))

-- For any block of bytes `ComputeChecksum` ends, and returns a 16-bit number whose complement stands for
-- the sum of the 16-bit words of the block in arithmetic modulo 65535.
pub compute_checksum-Stands :
    (block : List ℕ)
    → IsBytes block
    → Returns (λ c. (c < 65536) × Stands (65535 - c) (total block)) (compute_checksum block)
unfolding compute_checksum
compute_checksum-Stands block h =
    let (small, stands) = sum_words-Stands 0 block (omega arith) h in
    let (r, e, (short, stands')) = fold_all-Stands (sum_words 0 block) (omega arith) in
    let all = Stands-trans stands' stands in
    let back : 65535 - (65535 - r % 65536) ≡ r = omega arith in
    let start : 0 + total block ≡ total block = omega arith in
    rw e (65535 - r % 65536, refl, (omega arith, rw back (subst (Stands r) start all)))

-- ===== src/Raw/Sum.antt =====
-- The checksum of rawsockets/basic, against that of tcp_injection and on longer memory.
use cn.Base.{
  ℕ, zero, suc, ◌+◌, ◌*◌, ◌/◌, ◌%◌, ◌^◌, ◌≤◌, ◌<◌, ◌≡◌, refl, sym, ap, ap₂, ◌∙◌, true, some, List,
  [], ◌∷◌, ◌++◌, ◌==◌, arith, length, replicate, Bool-cases, inl, inr, append-nil,
}
use cn.Checksum.{fold, add_word, sum_words, fold_all, compute_checksum}
use cn.Checksum.Fold.{total, IsBytes}
use cn.Raw.{sum_memory, csum}

-- A block of `n` words is summed up to its end, and what stands behind it is not read.
sum_memory-block :
    (n : ℕ) (block later : List ℕ) (s : ℕ)
    → length block ≡ 2 * n
    → sum_memory n (block ++ later) s ≡ some (s + total block)
unfolding sum_memory
sum_memory-block zero [] later s h = ap some (omega arith)
sum_memory-block zero (b ∷ block) later s h = absurd (omega (arith, h))
sum_memory-block (suc n) [] later s h = absurd (omega (arith, h))
sum_memory-block (suc n) (b ∷ []) later s h = absurd (omega (arith, h))
sum_memory-block (suc n) (b ∷ c ∷ block) later s h =
    sum_memory-block n block later (s + (b + 256 * c)) (omega (arith, h)) ∙ ap some (omega arith)

sum_words-total :
    (block : List ℕ) (s : ℕ) → s + total block < 2 ^ 31 → sum_words s block ≡ s + total block
unfolding sum_words add_word
sum_words-total [] s h = omega arith
sum_words-total (b ∷ []) s h = omega arith
sum_words-total (b ∷ c ∷ block) s h =
    let small : ((s + (b + 256 * c)) / 2 ^ 31 % 2 == 0) ≡ true = ground (arith, h) in
    rw small (sum_words-total block (s + (b + 256 * c)) (omega (arith, h)) ∙ omega arith)

total-bound :
    (n : ℕ) (block : List ℕ) → length block ≡ 2 * n → IsBytes block → total block ≤ 65535 * n
total-bound zero [] h hb = omega arith
total-bound zero (b ∷ block) h hb = absurd (omega (arith, h))
total-bound (suc n) [] h hb = absurd (omega (arith, h))
total-bound (suc n) (b ∷ []) h hb = absurd (omega (arith, h))
total-bound (suc n) (b ∷ c ∷ block) h hb =
    omega (arith, total-bound n block (omega (arith, h)) hb.1.1, hb.0, hb.1.0)

-- Folding once and adding the carry is as good as the loop.
fold_all-carry :
    (s : ℕ)
    → s < 2 ^ 31
    → fold_all 4 s ≡ some ((s / 65536 + s % 65536 + (s / 65536 + s % 65536) / 65536) % 65536)
unfolding fold_all fold
fold_all-carry s h = elim (Bool-cases (s / 65536 == 0)) [
  | inl one ↦ rw one (ap some (ground (arith, one)))
  | inr more ↦ elim (Bool-cases (fold s / 65536 == 0)) [
    | inl two ↦ rw (more, two) (ap some (ground (arith, two)))
    | inr again ↦
        let three : (fold (fold s) / 65536 == 0) ≡ true = ground (arith, again, h) in
        rw (more, again, three) (ap some (ground (arith, again, h)))
  ]
]

-- On up to 32768 words, `csum` of rawsockets/basic and ComputeChecksum of tcp_injection return the same.
pub csum-compute_checksum :
    (n : ℕ) (block : List ℕ)
    → length block ≡ 2 * n
    → n ≤ 32768
    → IsBytes block
    → csum n block ≡ compute_checksum block
unfolding csum compute_checksum
csum-compute_checksum n block h hn hb =
    let small : total block < 2 ^ 31 = omega (arith, total-bound n block h hb, hn) in
    let start : 0 + total block ≡ total block = omega arith in
    let read : sum_memory n block 0 ≡ some (total block) =
      ap (λ b. sum_memory n b 0) (sym (append-nil block))
      ∙ sum_memory-block n block [] 0 h
      ∙ ap some start in
    let summed : sum_words 0 block ≡ total block =
      sum_words-total block 0 (omega (arith, small)) ∙ start in
    rw (read, summed, fold_all-carry (total block) small) (ap some (omega arith))

-- The sum goes on behind a block.
sum_memory-append :
    (n m : ℕ) (block later : List ℕ) (s : ℕ)
    → length block ≡ 2 * n
    → sum_memory (n + m) (block ++ later) s ≡ sum_memory m later (s + total block)
unfolding sum_memory
sum_memory-append zero m [] later s h =
    ap₂ (λ k t. sum_memory k later t) (omega arith) (omega arith)
sum_memory-append zero m (b ∷ block) later s h = absurd (omega (arith, h))
sum_memory-append (suc n) m [] later s h = absurd (omega (arith, h))
sum_memory-append (suc n) m (b ∷ []) later s h = absurd (omega (arith, h))
sum_memory-append (suc n) m (b ∷ c ∷ block) later s h =
    let count : suc n + m ≡ suc (n + m) = omega arith in
    let regroup : s + (b + 256 * c) + total block ≡ s + (b + 256 * c + total block) = omega arith in
    rw count (
      sum_memory-append n m block later (s + (b + 256 * c)) (omega (arith, h))
      ∙ ap (sum_memory m later) regroup)

sum_memory-zeros : (m k s : ℕ) → 2 * m ≤ k → sum_memory m (replicate k 0) s ≡ some s
unfolding sum_memory
sum_memory-zeros zero k s h = refl
sum_memory-zeros (suc m) zero s h = absurd (omega arith)
sum_memory-zeros (suc m) (suc zero) s h = absurd (omega arith)
sum_memory-zeros (suc m) (suc (suc k)) s h =
    sum_memory-zeros m k (s + (0 + 256 * 0)) (omega (arith, h)) ∙ ap some (omega arith)

-- For a block with enough zeros behind it, it makes no difference that `csum` is told the number of bytes
-- in place of the number of words.
pub csum-zeros :
    (n k : ℕ) (block : List ℕ)
    → length block ≡ 2 * n
    → 2 * n ≤ k
    → csum (2 * n) (block ++ replicate k 0) ≡ csum n block
unfolding csum
csum-zeros n k block h hk =
    let twice : 2 * n ≡ n + n = omega arith in
    let all : sum_memory (2 * n) (block ++ replicate k 0) 0 ≡ some (0 + total block) = rw twice (
      sum_memory-append n n block (replicate k 0) 0 h
      ∙ sum_memory-zeros n k (0 + total block) hk) in
    let alone : sum_memory n block 0 ≡ some (0 + total block) =
      ap (λ b. sum_memory n b 0) (sym (append-nil block)) ∙ sum_memory-block n block [] 0 h in
    rw (all, alone) refl

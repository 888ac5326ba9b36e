-- ===== src/Checksum/Tests.antt =====
-- Runs of ComputeChecksum, and its theorems at concrete inputs.
use cn.Base.{ℕ, ◌-◌, ◌<◌, ◌≡◌, refl, arith, List, [], ◌∷◌, some, Returns}
use cn.Checksum.{compute_checksum}
use cn.Checksum.Fold.{total, Stands, compute_checksum-Stands}
use cn.Checksum.Verify.{set_word, compute_checksum-set_word}

-- Three words, of which the second is the check field, and a byte that is left over.
abbrev block : List ℕ
block = 0x45 ∷ 0x10 ∷ 0 ∷ 0 ∷ 0xff ∷ 0xff ∷ 0x0a ∷ []

block_checksum : compute_checksum block ≡ some 0xefb0
unfolding compute_checksum
block_checksum = refl

compute_checksum-Stands_example :
    Returns (λ c. (c < 65536) × Stands (65535 - c) (total block)) (compute_checksum block)
compute_checksum-Stands_example = compute_checksum-Stands block (omega arith)

compute_checksum-set_word_example : compute_checksum (set_word block 1 0xefb0) ≡ some 0
compute_checksum-set_word_example =
    compute_checksum-set_word block 1 0xefb0 (omega arith) tt refl block_checksum

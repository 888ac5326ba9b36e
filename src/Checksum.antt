-- ===== src/Checksum.antt =====
-- tcp_injection/TCP-Packet-Injection.c, ComputeChecksum: the Internet checksum of a block of bytes.
-- The host is little-endian and `long` has 64 bits, so that the sum is never negative.
pub mod Fold
pub mod Verify
mod Tests
use cn.Base.{
  ℕ, zero, suc, ◌+◌, ◌-◌, ◌*◌, ◌/◌, ◌%◌, ◌^◌, Option, none, some, List, [], ◌∷◌, ◌==◌,
  if◌then◌else◌, ◌>>=◌,
}

-- `(sum & 0xFFFF) + (sum >> 16)`
unfoldable pub fold : ℕ → ℕ
fold s = s % 65536 + s / 65536

-- The body of the first loop: a word is added, and the sum is folded if bit 31 is set.
unfoldable pub add_word : ℕ → ℕ → ℕ
unfolding fold
add_word s w = if (s + w) / 2 ^ 31 % 2 == 0 then s + w else fold (s + w)

-- `while(len > 1)`, and the byte that may be left over.
unfoldable pub sum_words : ℕ → List ℕ → ℕ
sum_words s [] = s
sum_words s (b ∷ []) = s + b
sum_words s (b ∷ c ∷ bs) = sum_words (add_word s (b + 256 * c)) bs

-- `while(sum>>16) sum = (sum & 0xFFFF) + (sum >> 16);`
unfoldable pub fold_all : ℕ → ℕ → Option ℕ
unfolding fold
fold_all zero s = none
fold_all (suc fuel) s = let rest = fold_all fuel (fold s) in if s / 65536 == 0 then some s else rest

-- `return ~sum;`, cut to an `unsigned short`. Three rounds of fuel are enough for the second loop.
unfoldable pub compute_checksum : List ℕ → Option ℕ
unfolding sum_words add_word fold_all
compute_checksum block = do s ← fold_all 4 (sum_words 0 block); some (65535 - s % 65536)

-- ===== src/Checksum/Verify.antt =====
-- A block that carries its own checksum has the checksum 0, which is how a receiver checks it.
use cn.Base.{
  ℕ, zero, suc, ◌+◌, ◌-◌, ◌*◌, ◌/◌, ◌%◌, ◌≤◌, ◌<◌, ◌≡◌, refl, ap, ◌⊎◌, inl, inr, some, List, [],
  ◌∷◌, arith,
}
use cn.Checksum.{compute_checksum}
use cn.Checksum.Fold.{total, IsBytes, Stands, compute_checksum-Stands}

-- The 16-bit word at the byte offset `2 * i` is overwritten, its low byte first.
abbrev pub set_word : List ℕ → ℕ → ℕ → List ℕ
set_word [] i w = []
set_word (b ∷ []) i w = b ∷ []
set_word (b ∷ c ∷ bs) zero w = w % 256 ∷ w / 256 ∷ bs
set_word (b ∷ c ∷ bs) (suc i) w = b ∷ c ∷ set_word bs i w

abbrev pub get_word : List ℕ → ℕ → ℕ
get_word [] i = 0
get_word (b ∷ []) i = 0
get_word (b ∷ c ∷ bs) zero = b + 256 * c
get_word (b ∷ c ∷ bs) (suc i) = get_word bs i

-- The block has a whole word there.
abbrev pub HasWord : List ℕ → ℕ → Type 0
HasWord [] i = ⊥
HasWord (b ∷ []) i = ⊥
HasWord (b ∷ c ∷ bs) zero = Unit
HasWord (b ∷ c ∷ bs) (suc i) = HasWord bs i

pub lt_or_zero : (n : ℕ) → (0 < n) ⊎ (n ≡ 0)
lt_or_zero zero = inr refl
lt_or_zero (suc n) = inl (omega arith)

pub total-set_word :
    (bs : List ℕ) (i w : ℕ) → HasWord bs i → total (set_word bs i w) + get_word bs i ≡ total bs + w
total-set_word [] i w h = absurd h
total-set_word (b ∷ []) i w h = absurd h
total-set_word (b ∷ c ∷ bs) zero w h = omega arith
total-set_word (b ∷ c ∷ bs) (suc i) w h = omega (arith, total-set_word bs i w h)

pub set_word-IsBytes : (bs : List ℕ) (i w : ℕ) → w < 65536 → IsBytes bs → IsBytes (set_word bs i w)
set_word-IsBytes [] i w p h = tt
set_word-IsBytes (b ∷ []) i w p h = h
set_word-IsBytes (b ∷ c ∷ bs) zero w p h = (omega arith, (omega arith, h.1.1))
set_word-IsBytes (b ∷ c ∷ bs) (suc i) w p h = (h.0, (h.1.0, set_word-IsBytes bs i w p h.1.1))

-- The sum of a block and of the complement of its sum is a multiple of 65535, but not 0.
complement_sum :
    (t t' c d : ℕ)
    → c < 65536
    → d < 65536
    → Stands (65535 - c) t
    → Stands (65535 - d) t'
    → t' ≡ t + c
    → d ≡ 0
complement_sum t t' c d hc hd a b e =
    let present : 0 < 65535 - d = elim (lt_or_zero (65535 - d)) [
      | inl p ↦ p
      | inr z ↦
          let none_left : t' ≤ 0 = b.2 (omega arith) in absurd (omega (arith, a.1 (omega arith)))
    ] in
    omega (arith, a.0, b.0)

-- If the checksum is computed while its field is 0, and then written into the field, the checksum of
-- the block is 0.
pub compute_checksum-set_word :
    (block : List ℕ) (i c : ℕ)
    → IsBytes block
    → HasWord block i
    → get_word block i ≡ 0
    → compute_checksum block ≡ some c
    → compute_checksum (set_word block i c) ≡ some 0
compute_checksum-set_word block i c h field empty e =
    let (c', e', (short, stands)) = compute_checksum-Stands block h in
    let same : c' ≡ c = ground (arith, e, e') in
    let filled = set_word block i c in
    let (d, e'', (short', stands')) =
      compute_checksum-Stands filled (set_word-IsBytes block i c (omega arith) h) in
    let zero_sum =
      complement_sum (total block) (total filled) c d (rw (← same) short) short'
        (rw (← same) stands) stands' (omega (arith, total-set_word block i c field)) in
    rw e'' (ap some zero_sum)

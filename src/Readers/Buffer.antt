-- ===== src/Readers/Buffer.antt =====
-- What `read` leaves in a buffer.
use cn.Base.{
  ℕ, zero, suc, ◌≤◌, ◌≡◌, refl, ap, Bool, true, false, ◌||◌, Option, none, some, List, [], ◌∷◌,
  ◌++◌, ◌==◌, take, drop, length, get_elem?, arith,
}
use cn.Readers.{overwrite, has_zero}

pub length-overwrite : (bytes buffer : List ℕ) → length (overwrite bytes buffer) ≡ length buffer
length-overwrite [] buffer = refl
length-overwrite (b ∷ bytes) [] = refl
length-overwrite (b ∷ bytes) (c ∷ buffer) = ap suc (length-overwrite bytes buffer)

pub overwrite-append :
    (bytes buffer : List ℕ)
    → length bytes ≤ length buffer
    → overwrite bytes buffer ≡ bytes ++ drop (length bytes) buffer
overwrite-append [] buffer h = refl
overwrite-append (b ∷ bytes) [] h = absurd (omega arith)
overwrite-append (b ∷ bytes) (c ∷ buffer) h =
    ap (◌∷◌ b) (overwrite-append bytes buffer (omega arith))

pub get_elem?-overwrite :
    (bytes buffer : List ℕ) (k : ℕ)
    → length bytes ≤ k
    → get_elem? (overwrite bytes buffer) k ≡ get_elem? buffer k
get_elem?-overwrite [] buffer k h = refl
get_elem?-overwrite (b ∷ bytes) [] k h = refl
get_elem?-overwrite (b ∷ bytes) (c ∷ buffer) zero h = absurd (omega arith)
get_elem?-overwrite (b ∷ bytes) (c ∷ buffer) (suc k) h =
    get_elem?-overwrite bytes buffer k (omega arith)

abbrev pub get_or_one : Option ℕ → ℕ
get_or_one none = 1
get_or_one (some c) = c

pub either : (b : Bool) → (b || true) ≡ true
either true = refl
either false = refl

pub has_zero-get_elem? : (s : List ℕ) (k : ℕ) → get_elem? s k ≡ some 0 → has_zero s ≡ true
has_zero-get_elem? [] k h = absurd (cc h)
has_zero-get_elem? (c ∷ s) zero h = let same : c ≡ 0 = ap (get_or_one) h in rw same refl
has_zero-get_elem? (c ∷ s) (suc k) h = rw (has_zero-get_elem? s k h) (either (c == 0))

pub take_short : (n : ℕ) (xs : List ℕ) → length (take n xs) ≤ n
take_short zero xs = omega arith
take_short (suc n) [] = omega arith
take_short (suc n) (x ∷ xs) = omega (arith, take_short n xs)

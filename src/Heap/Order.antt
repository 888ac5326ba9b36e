-- ===== src/Heap/Order.antt =====
-- The heap order, and the elements of an array counted.
use cn.Base.{ℕ, zero, suc, ◌+◌, ◌/◌, ◌≤◌, ◌<◌, ◌≡◌, refl, arith}
pub use cn.Base.Int.{bit}
use cn.Base.Int.{ℤ, ◌≤ℤ◌, eqb_ℤ}
use cn.Heap.{capacity, Array, update, Heap, sentinel}

-- No element of the cells 1..n is below that of its parent cell.
abbrev pub IsHeap : Array → ℕ → Type 0
IsHeap h n = (i : ℕ) → 2 ≤ i → i ≤ n → h (i / 2) ≤ℤ h i

-- The sentinel is in place, and below every element.
abbrev pub IsGuarded : Array → ℕ → Type 0
IsGuarded h n = (h 0 ≡ sentinel) × ((i : ℕ) → 1 ≤ i → i ≤ n → sentinel ≤ℤ h i)

pub record IsValid (q : Heap) : Type 0 where
  pub ordered : IsHeap q.cells q.size
  pub guarded : IsGuarded q.cells q.size
  pub room : q.size < capacity

-- How often `x` stands in the cells 1..n.
unfoldable pub count : ℤ → Array → ℕ → ℕ
count x h zero = 0
count x h (suc n) = count x h n + bit (eqb_ℤ x (h (suc n)))

pub count-update_above :
    (x v : ℤ) (h : Array) (i n : ℕ) → n < i → count x (update h i v) n ≡ count x h n
unfolding count
count-update_above x v h i zero p = refl
count-update_above x v h i (suc n) p = ground (arith, count-update_above x v h i n)

-- A write trades the old element for the new one.
pub count-update :
    (x v : ℤ) (h : Array) (i n : ℕ)
    → 1 ≤ i
    → i ≤ n
    → count x (update h i v) n + bit (eqb_ℤ x (h i)) ≡ count x h n + bit (eqb_ℤ x v)
unfolding count
count-update x v h i zero p r = absurd (omega arith)
count-update x v h i (suc n) p r =
    ground (arith, count-update x v h i n, count-update_above x v h i n)

-- The root is a least element.
root_least_fuel : (k : ℕ) (h : Array) (n i : ℕ) → IsHeap h n → i ≤ k → 1 ≤ i → i ≤ n → h 1 ≤ℤ h i
root_least_fuel zero h n i o f p r = absurd (omega arith)
root_least_fuel (suc k) h n zero o f p r = absurd (omega arith)
root_least_fuel (suc k) h n (suc zero) o f p r = omega arith
root_least_fuel (suc k) h n (suc (suc i)) o f p r = omega (
  arith,
  o (suc (suc i)) (omega arith) r,
  root_least_fuel k h n (suc (suc i) / 2) o (omega arith) (omega arith) (omega arith),
)

pub root_least : (h : Array) (n i : ℕ) → IsHeap h n → 1 ≤ i → i ≤ n → h 1 ≤ℤ h i
root_least h n i o p r = root_least_fuel i h n i o (omega arith) p r

-- A write behind the last element adds it.
pub count_push :
    (x v : ℤ) (h : Array) (n : ℕ)
    → count x (update h (n + 1) v) (n + 1) ≡ count x h n + bit (eqb_ℤ x v)
unfolding count
count_push x v h n =
    let next : n + 1 ≡ suc n = omega arith in
    rw next (ground (arith, count-update_above x v h (suc n) n))

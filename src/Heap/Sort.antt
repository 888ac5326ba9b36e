-- ===== src/Heap/Sort.antt =====
-- `main` sorts the numbers that it reads.
use cn.Base.{
  ℕ, zero, suc, ◌+◌, ◌<◌, ◌≤◌, ◌≡◌, refl, ap, ◌∙◌, sym, arith, Returns, List, [], ◌∷◌, length,
}
use cn.Base.Int.{occurrences, ℤ, ◌≤ℤ◌}
use cn.Heap.{capacity, Array, Heap, sentinel, init, insert_all, delete_all, main}
use cn.Heap.Order.{IsValid, count}
use cn.Heap.Insert.{insert_correct}
use cn.Heap.DeleteMin.{delete_min_correct}

abbrev pub AllAbove : List ℤ → Type 0
AllAbove [] = Unit
AllAbove (x ∷ xs) = (sentinel ≤ℤ x) × AllAbove xs

-- `x` is at most every number of the list.
abbrev pub Below : ℤ → List ℤ → Type 0
Below x [] = Unit
Below x (y ∷ ys) = (x ≤ℤ y) × Below x ys

abbrev pub IsSorted : List ℤ → Type 0
IsSorted [] = Unit
IsSorted (x ∷ xs) = Below x xs × IsSorted xs

pub init-IsValid : IsValid init
unfolding init
init-IsValid = record {
  room = omega arith;
  ordered = λ i p q. absurd (omega arith);
  guarded = (refl, λ i p q. absurd (omega arith));
}

-- What the first loop leaves.
abbrev Filled : Heap → List ℤ → Heap → Type 0
Filled q xs r =
    IsValid r
    × (r.size ≡ q.size + length xs)
    × ((x : ℤ) → count x r.cells r.size ≡ count x q.cells q.size + occurrences x xs)

insert_all_fills :
    (q : Heap) (xs : List ℤ)
    → q.size + length xs < capacity
    → IsValid q
    → AllAbove xs
    → Returns (Filled q xs) (insert_all q xs)
unfolding insert_all
insert_all_fills q [] room v a = (q, refl, (v, omega arith, λ x. omega arith))
insert_all_fills q (x ∷ xs) room v a =
    let (r, e, (valid, size, counts)) =
      insert_correct (q.size + 2) q x (omega arith) (omega arith) v a.0 in
    let (s, e', (valid', size', counts')) = insert_all_fills r xs (omega (arith, size)) valid a.1 in
    rw (e, e') (s, refl, (valid', omega arith, λ y. omega (arith, counts y, counts' y)))

-- Every element that is left in the heap is in the list that comes out, and nothing else is.
abbrev Drained : Heap → List ℤ → Type 0
Drained q out = IsSorted out × ((x : ℤ) → occurrences x out ≡ count x q.cells q.size)

-- An element that is counted is not below a bound of all cells.
count_bound :
    (m x : ℤ) (h : Array) (n : ℕ) → ((i : ℕ) → 1 ≤ i → i ≤ n → m ≤ℤ h i) → 1 ≤ count x h n → m ≤ℤ x
unfolding count
count_bound m x h zero low some_x = absurd (omega arith)
count_bound m x h (suc n) low some_x =
    ground (arith, low (suc n), count_bound m x h n (λ i p q. low i p (omega arith)))

occurrences_head : (x : ℤ) (xs : List ℤ) → 1 ≤ occurrences x (x ∷ xs)
occurrences_head x xs = ground arith

least-Below :
    (m : ℤ) (h : Array) (n : ℕ) (out : List ℤ)
    → ((i : ℕ) → 1 ≤ i → i ≤ n → m ≤ℤ h i)
    → ((x : ℤ) → occurrences x out ≤ count x h n)
    → Below m out
least-Below m h n [] low same = tt
least-Below m h n (y ∷ out) low same = (
  count_bound m y h n low (omega (arith, same y, occurrences_head y out)),
  least-Below m h n out low (λ x. omega (arith, same x)),
)

count-zero : (x : ℤ) (h : Array) → count x h 0 ≡ 0
unfolding count
count-zero x h = refl

pub init_size : init.size ≡ 0
unfolding init
init_size = refl

delete_all_drains :
    (n : ℕ) (q : Heap) → q.size ≡ n → IsValid q → Returns (Drained q) (delete_all n q)
unfolding delete_all
delete_all_drains zero q size v =
    ([], refl, (tt, λ x. sym (ap (count x q.cells) size ∙ count-zero x q.cells)))
delete_all_drains (suc n) q size v =
    let ((m, r), e, (valid, less, least, counts)) =
      delete_min_correct (q.size + 1) q (omega arith) v (omega arith) in
    let (out, e', (sorted, same)) = delete_all_drains n r (omega arith) valid in
    rw (e, e')
      (
        m ∷ out,
        refl,
        (
          (least-Below m q.cells q.size out least (λ x. omega (arith, same x, counts x)), sorted),
          λ x. omega (arith, same x, counts x),
        ),
      )

-- For fewer than 1,000,000 numbers, of which none is below `-INT_MAX`, `main` ends, and prints them in ascending order, each
-- as often as it was read.
pub main_sorts :
    (xs : List ℤ)
    → length xs < capacity
    → AllAbove xs
    → Returns (λ out. IsSorted out × ((x : ℤ) → occurrences x out ≡ occurrences x xs)) (main xs)
unfolding main
main_sorts xs room above =
    let (q, e, (valid, size, counts)) =
      insert_all_fills init xs (omega (arith, init_size)) init-IsValid above in
    let (out, e', (sorted, same)) =
      delete_all_drains (length xs) q (omega (arith, size, init_size)) valid in
    rw (e, e')
      (
        out,
        refl,
        (
          sorted,
          λ x.
              omega (
                arith,
                same x,
                counts x,
                ap (count x init.cells) init_size,
                count-zero x init.cells,
              ),
        ),
      )

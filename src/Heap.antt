-- ===== src/Heap.antt =====
-- mid/heap.c: a binary min-heap of `int` in a global array, numbered from 1, with a sentinel in cell 0.
-- The array is a function from indices to values. A call returns `none` while its loop has not ended
-- within the fuel.
pub mod Order
pub mod Insert
pub mod DeleteMin
pub mod Sort
mod Tests
use cn.Base.{
  ℕ, zero, suc, ◌+◌, ◌-◌, ◌*◌, ◌/◌, ◌^◌, Bool, ◌&&◌, ◌||◌, not, Option, none, some, List, [], ◌∷◌,
  ltb, leb, ◌==◌, if◌then◌else◌, ◌>>=◌, length,
}
use cn.Base.Int.{ℤ, pos, negsuc, ltb_ℤ}

-- The cells of `heap`, from 0 on. `insert` and `delete_min` have no result where the source would leave them, so that
-- the values of the function behind them are never read.
abbrev pub capacity : ℕ
capacity = 1000000

abbrev pub Array : Type 0
Array = ℕ → ℤ

-- `heap[i] = v`
abbrev pub update : Array → ℕ → ℤ → Array
update h i v j = if i == j then v else h j

pub record Heap : Type 0 where
  pub cells : Array
  pub size : ℕ

-- `-INT_MAX`, for an `int` of 32 bits.
abbrev pub sentinel : ℤ
sentinel = negsuc (2 ^ 31 - 2)

-- `Init`. The other cells of the global array start at 0.
unfoldable pub init : Heap
init = record { cells = update (λ i. pos 0) 0 sentinel; size = 0 }

-- The loop of `Insert`, with the write behind it.
unfoldable pub sift_up : ℕ → Array → ℕ → ℤ → Option Array
sift_up zero h now element = none
sift_up (suc fuel) h now element =
    let rest = sift_up fuel (update h now (h (now / 2))) (now / 2) element in
    if ltb_ℤ element (h (now / 2)) then rest else some (update h now element)

-- `Insert`. There is no result if the new element has no cell.
unfoldable pub insert : ℕ → Heap → ℤ → Option Heap
insert fuel q element = if leb capacity (q.size + 1) then none else do
  h ← sift_up fuel (update q.cells (q.size + 1) element) (q.size + 1) element
  some (record { cells = h; size = q.size + 1 })

-- The index of the smaller child of `now`; the right one is read only if it exists.
unfoldable pub smaller_child : Array → ℕ → ℕ → ℕ
smaller_child h size now =
    let child = now * 2 in
    if not (child == size) && ltb_ℤ (h (child + 1)) (h child) then child + 1 else child

-- The loop of `DeleteMin`, with the write behind it. `size` is the size without the last element.
unfoldable pub sift_down : ℕ → Array → ℕ → ℕ → ℤ → Option Array
unfolding smaller_child
sift_down zero h size now last = none
sift_down (suc fuel) h size now last =
    let child = smaller_child h size now in
    let rest = sift_down fuel (update h now (h child)) size child last in
    if leb (now * 2) size
    then (if ltb_ℤ (h child) last then rest else some (update h now last))
    else some (update h now last)

-- `DeleteMin`. On an empty heap the source reads cells 1 and 0 and makes the size -1; `main` never
-- does that, and here the call has no result, and neither has it for a size that the array has no cells for.
unfoldable pub delete_min : ℕ → Heap → Option (ℤ × Heap)
delete_min fuel q = if q.size == 0 || leb capacity q.size then none else do
  h ← sift_down fuel q.cells (q.size - 1) 1 (q.cells q.size)
  some (q.cells 1, record { cells = h; size = q.size - 1 })

-- The two loops of `main`.
unfoldable pub insert_all : Heap → List ℤ → Option Heap
insert_all q [] = some q
insert_all q (x ∷ xs) = insert (q.size + 2) q x >>= λ r. insert_all r xs

unfoldable pub delete_all : ℕ → Heap → Option (List ℤ)
delete_all zero q = some []
delete_all (suc n) q = do (x, r) ← delete_min (q.size + 1) q; xs ← delete_all n r; some (x ∷ xs)

-- `main`: what it prints for the numbers that it reads.
unfoldable pub main : List ℤ → Option (List ℤ)
unfolding init insert_all delete_all
main xs = insert_all init xs >>= delete_all (length xs)

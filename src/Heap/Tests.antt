-- ===== src/Heap/Tests.antt =====
-- Runs of mid/heap.c, and its theorems at concrete inputs.
use cn.Base.{
  ℕ, ◌-◌, ◌/◌, ◌≤◌, ◌==◌, if◌then◌else◌, ◌≡◌, refl, arith, List, [], ◌∷◌, some, Returns, ◌^◌,
}
use cn.Base.Int.{occurrences, ℤ, pos, negsuc, ◌≤ℤ◌}
use cn.Heap.{Heap, init, insert, delete_min, main, sentinel, sift_up, sift_down}
use cn.Heap.Order.{IsValid}
use cn.Heap.Insert.{Inserted, insert_correct}
use cn.Heap.DeleteMin.{Removed, delete_min_correct}
use cn.Heap.Sort.{IsSorted, main_sorts, init-IsValid, init_size}

abbrev input : List ℤ
input = pos 7 ∷ negsuc 2 ∷ pos 7 ∷ pos 0 ∷ pos 4 ∷ []

example_output : main input ≡ some (negsuc 2 ∷ pos 0 ∷ pos 4 ∷ pos 7 ∷ pos 7 ∷ [])
unfolding main insert delete_min sift_up sift_down
example_output = refl

main_sorts_example :
    Returns (λ out. IsSorted out × ((x : ℤ) → occurrences x out ≡ occurrences x input)) (main input)
main_sorts_example = main_sorts input (omega arith) (omega arith)

insert_correct_example : Returns (Inserted init (pos 5)) (insert 2 init (pos 5))
insert_correct_example =
    insert_correct 2 init (pos 5) (omega (arith, init_size)) (omega (arith, init_size)) init-IsValid
      (omega arith)

int_min-below : ¬ (sentinel ≤ℤ negsuc (2 ^ 31 - 1))
int_min-below = omega arith

abbrev pair : Heap
pair = record {
  cells = λ i. if i == 0 then sentinel else if i == 1 then pos 2 else pos 5;
  size = 2;
}

pair_guarded : (i : ℕ) → 1 ≤ i → i ≤ 2 → sentinel ≤ℤ pair.cells i
pair_guarded i p q = ground arith

pair_ordered : (i : ℕ) → 2 ≤ i → i ≤ 2 → pair.cells (i / 2) ≤ℤ pair.cells i
pair_ordered i p q = let e : i ≡ 2 = omega arith in rw e (omega arith)

pair-IsValid : IsValid pair
pair-IsValid = record { ordered = pair_ordered; guarded = (refl, pair_guarded); room = omega arith }

delete_min_correct_example : Returns (Removed pair) (delete_min 3 pair)
delete_min_correct_example = delete_min_correct 3 pair (omega arith) pair-IsValid (omega arith)

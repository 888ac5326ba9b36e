-- ===== src/Linked/Tests.antt =====
-- The numbers of list_client.c, and a list that comes to the server with its first node last.
use cn.Base.{ℕ, ◌≡◌, refl, some, List, [], ◌∷◌, map}
use cn.Base.Int.{ℤ, pos}
use cn.Linked.{Memory, list_1}
use cn.Linked.Chain.{list_1-sum, sum, first}

abbrev four_numbers : List (ℤ × ℤ)
four_numbers = (pos 1, pos 0) ∷ (pos 2, pos 9) ∷ (pos 102, pos 0) ∷ (pos 40, pos 7) ∷ []

abbrev same_place : Memory → Memory
same_place m = m

list_1-sum_example :
    list_1 same_place four_numbers ≡ some (sum (map first four_numbers), map first four_numbers)
unfolding cn.Base.Int.◌+ℤ◌
list_1-sum_example =
    list_1-sum same_place (pos 1, pos 0) ((pos 2, pos 9) ∷ (pos 102, pos 0) ∷ (pos 40, pos 7) ∷ [])
      (λ m ys holds. holds) (refl, (refl, (refl, (refl, tt))))

sum_is_145 : list_1 same_place four_numbers ≡ some (pos 145, pos 1 ∷ pos 2 ∷ pos 102 ∷ pos 40 ∷ [])
unfolding list_1 cn.Base.Int.add_int cn.Base.Int.◌+ℤ◌
sum_is_145 = refl

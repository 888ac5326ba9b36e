-- ===== src/Railway/Tests.antt =====
-- Four trains, and an array with its second platform available.
use cn.Base.{[], List, ◌∷◌, Bool, true, false}
use cn.Base.Int.{ℤ, pos}

abbrev trains : List ℤ
trains = pos 4 ∷ pos 5 ∷ pos 6 ∷ pos 7 ∷ []

abbrev second_only : List Bool
second_only = false ∷ true ∷ false ∷ []

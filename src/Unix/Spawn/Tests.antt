-- ===== src/Unix/Spawn/Tests.antt =====
-- Two clients in turn, and at once.
use cn.Base.{◌∷◌, [], List}
use cn.Base.Int.{ℤ, pos}

abbrev two : List ℤ
two = pos 4 ∷ pos 5 ∷ []

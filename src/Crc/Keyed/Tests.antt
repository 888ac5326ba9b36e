-- ===== src/Crc/Keyed/Tests.antt =====
-- The run of Crc/Tests with the other program; the cell behind the zeros holds 7.
use cn.Base.{[], ◌∷◌}
use cn.Crc.{Input}

abbrev sample : Input
sample = record { n = 2; g = 1 ∷ 0 ∷ 1 ∷ []; m = 3; a = 1 ∷ 1 ∷ 0 ∷ 1 ∷ [] }

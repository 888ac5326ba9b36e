-- ===== src/Sniffer/Tests.antt =====
-- Twenty bytes, and packets of the other programs.
use cn.Base.{ℕ, List, [], ◌∷◌, ◌≡◌}
use cn.Sniffer.{print_data}
use cn.Sniffer.Dump.{dump, print_data-dump}

abbrev counting : ℕ → ℕ
counting k = k

print_data-dump_example : print_data counting 20 ≡ dump counting 1 0 4
print_data-dump_example = print_data-dump counting 20

abbrev source : List ℕ
source = 10 ∷ 0 ∷ 0 ∷ 1 ∷ []

abbrev dest : List ℕ
dest = 10 ∷ 0 ∷ 0 ∷ 2 ∷ []

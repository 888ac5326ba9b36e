-- ===== src/Printing/Tests.antt =====
-- The parent and the child read a file of eight bytes by turns.
use cn.Base.{◌≡◌, refl, some, List, [], ◌∷◌, map, take, drop, replicate}
use cn.Nfs.Text.{text}
use cn.Printing.{parent, child, Turn, State, PrintedLine, print_turns}
use cn.Printing.Divided.{total, concat, print_turns-divided}

abbrev at_start : State
at_start = record {
  content = text "sample.t";
  offset = 0;
  parent_buffer = replicate 30 0;
  child_buffer = replicate 30 0;
}

abbrev three_turns : List Turn
three_turns =
    record { process = parent; nbytes = 3 }
    ∷ record { process = child; nbytes = 2 }
    ∷ record { process = parent; nbytes = 1 }
    ∷ []

print_turns-divided_example :
    (printed : List PrintedLine) × (print_turns at_start three_turns ≡ some printed)
    × (map (λ p. p.process) printed ≡ map (λ turn. turn.process) three_turns)
    × (concat (map (λ p. p.bytes) printed) ≡ take (total three_turns) (drop 0 (text "sample.t")))
print_turns-divided_example =
    print_turns-divided at_start three_turns ((refl, refl), (refl, refl)) refl

-- The third line ends with what the first one has left in the buffer.
three_lines :
    print_turns at_start three_turns
    ≡ some (
        record { process = parent; bytes = text "sam"; line = text "sam" }
        ∷ record { process = child; bytes = text "pl"; line = text "pl" }
        ∷ record { process = parent; bytes = text "e"; line = text "eam" }
        ∷ [])
unfolding print_turns
three_lines = refl

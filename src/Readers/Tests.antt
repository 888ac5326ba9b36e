-- ===== src/Readers/Tests.antt =====
-- Two rounds over three descriptors, and two messages of three clients.
use cn.Base.{ℕ, ◌≡◌, refl, List, [], ◌∷◌, ◌++◌, Option, some, none, if◌then◌else◌}
use cn.Nfs.Text.{text}
use cn.Readers.{every, cleared, read_rounds}
use cn.Readers.Lines.{all_texts, rounds_terminated, read_rounds-all_texts}

abbrev incoming : List (List (Option (List ℕ)))
incoming =
    (some (text "hello" ++ 0 ∷ 7 ∷ []) ∷ none ∷ some (text "x") ∷ [])
    ∷ (none ∷ some [] ∷ none ∷ [])
    ∷ []

read_rounds-all_texts_example :
    read_rounds 30 every incoming (cleared 30)
    ≡ (if rounds_terminated 30 every incoming then some (all_texts 30 every incoming) else none)
read_rounds-all_texts_example = read_rounds-all_texts 30 every incoming

three_lines : all_texts 30 every incoming ≡ text "hello" ∷ text "x" ∷ [] ∷ []
unfolding all_texts
three_lines = refl

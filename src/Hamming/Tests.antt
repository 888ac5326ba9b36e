-- ===== src/Hamming/Tests.antt =====
-- Runs on seven and eleven bits.
use cn.Base.{ℕ, List, [], ◌∷◌, ◌≡◌, refl, none, some, if◌then◌else◌, get_or, drop, arith, Returns}
use cn.Base.Int.{ℤ, pos, eqb_ℤ}
use cn.Hamming.{main, encode}
use cn.Hamming.Checks.{Even}
use cn.Hamming.Frame.{data_cells, Unmarked}
use cn.Hamming.Error.{encode-Even, main-ep}

abbrev seven : List ℤ
seven = pos 1 ∷ pos 0 ∷ pos 1 ∷ pos 1 ∷ pos 0 ∷ pos 1 ∷ pos 1 ∷ []

abbrev eleven : List ℤ
eleven = pos 1 ∷ pos 1 ∷ pos 0 ∷ pos 1 ∷ seven

seven-Unmarked : Unmarked seven
unfolding Unmarked
seven-Unmarked = (refl, (refl, (refl, (refl, (refl, (refl, (refl, tt)))))))

eleven-Unmarked : Unmarked eleven
unfolding Unmarked
eleven-Unmarked = (refl, (refl, (refl, (refl, seven-Unmarked))))

encode-Even_example :
    Returns (λ r. Even r.2 r.0 × (data_cells 0 1 (drop 1 r.0) ≡ eleven)) (encode (pos 9) eleven)
encode-Even_example = encode-Even (pos 9) eleven (omega arith) eleven-Unmarked

main-ep_example :
    Returns
      (λ o. o.ep ≡ (if eqb_ℤ (get_or o.sent 7 (pos 0)) (pos 1) then 7 else 0))
      (main (pos 9) seven 7)
main-ep_example = main-ep (pos 9) seven 7 (omega arith) seven-Unmarked (omega arith)

-- The bit 3 is a one, which the program finds; the bit 4 is none.
unfoldable found : ℤ → ℕ → ℕ
unfolding main
found first eb = elim (main first seven eb) [ none ↦ 99 | some o ↦ o.ep ]

finds_3 : found (pos 0) 3 ≡ 3
unfolding found
finds_3 = refl

misses_4 : found (pos 0) 4 ≡ 0
unfolding found
misses_4 = refl

outside : main (pos 9) seven 30 ≡ none
unfolding main
outside = refl

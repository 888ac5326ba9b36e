-- ===== src/Studio/Tests.antt =====
-- A film with one set and two actors, and a second one.
use cn.Base.{ℕ, ◌∷◌, [], List, Returns, arith}
use cn.Studio.{script, Director}
use cn.Studio.Grants.{count_bounded, ports}
use cn.Studio.Film.{film, Paid, film_pays}

-- Actors 1 and 3, and set 2; the user has entered 1 actor and 2 sets.
abbrev typed : List ℕ
typed = 1 ∷ 3 ∷ 2 ∷ []

abbrev after_one : Director
after_one = record { sets_accp = 9001 ∷ []; actors_accp = 7000 ∷ 7002 ∷ []; company = λ port. 1 }

film_pays_example :
    Returns (Paid after_one (2 ∷ []) (1 ∷ 3 ∷ [])) (film after_one (script 1 2 typed))
film_pays_example =
    film_pays after_one 1 2 typed (omega arith)
      (omega arith, omega arith, (omega arith, omega arith, tt)) (omega arith, omega arith, tt)
      (omega arith) (omega arith)
      (λ p.
        omega
          (arith, count_bounded p (ports 9000 (2 ∷ [])), count_bounded p (ports 7000 (1 ∷ 3 ∷ []))))

-- ===== src/Conserver/Tests.antt =====
-- The socket is 3; two clients get the descriptors 4 and 5, and both send something.
use cn.Base.{◌≡◌, refl, true, List, [], ◌∷◌, none, some, if◌then◌else◌}
use cn.Conserver.{Round, conserver}
use cn.Conserver.Parity.{is_odd, odd_part, meant_server, meant_answers, conserver-meant_server}

abbrev rounds : List Round
rounds =
    record { waiting = some 4; readable = [] }
    ∷ record { waiting = some 5; readable = true ∷ [] }
    ∷ record { waiting = none; readable = true ∷ true ∷ [] }
    ∷ []

conserver-meant_server_example :
    conserver 3 [] rounds ≡ (if is_odd 3 then odd_part (meant_server [] rounds) else some [])
conserver-meant_server_example = conserver-meant_server 3 rounds

only_5 : odd_part (meant_server [] rounds) ≡ some (5 ∷ [])
unfolding meant_server meant_answers cn.Conserver.Parity.meant_round
only_5 = refl

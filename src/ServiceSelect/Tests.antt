-- ===== src/ServiceSelect/Tests.antt =====
-- Three services, of which the first has two clients and the third one gets one later.
use cn.Base.{ℕ, ◌≡◌, refl, some, List, [], ◌∷◌, map}
use cn.ServiceSelect.{Service, serve_rounds}
use cn.ServiceSelect.Alone.{alone, serve_rounds-alone}

abbrev new_service : ℕ → List ℕ → List (List ℕ) → Service
new_service sfd waiting coming = record {
  sfd = sfd;
  waiting = waiting;
  coming = coming;
  accepted = [];
}

abbrev three_services : List Service
three_services =
    new_service 3 (10 ∷ 11 ∷ []) []
    ∷ new_service 4 [] []
    ∷ new_service 5 [] ([] ∷ (12 ∷ []) ∷ [])
    ∷ []

serve_rounds-alone_example : serve_rounds 2 three_services ≡ some (map (alone 2) three_services)
serve_rounds-alone_example = serve_rounds-alone 2 three_services refl

taken : map (λ s. s.accepted) (map (alone 2) three_services) ≡ (10 ∷ 11 ∷ []) ∷ [] ∷ (12 ∷ []) ∷ []
taken = refl

-- ===== src/Railway/Places.antt =====
-- Where the trains go.
use cn.Base.{
  ℕ, suc, ◌+◌, ◌≡◌, refl, ap, ◌∙◌, Bool, true, false, none, some, List, [], ◌∷◌, ◌++◌, length,
  arith, ◌⊎◌, inl, inr,
}
use cn.Base.Int.{ℤ}
use cn.Railway.{find_available, Master, broadcast, arrive, arrive_all, opening, tell}

-- The first, second and third train with the platforms 0, 1 and 1.
abbrev pub placed : List ℤ → List (ℕ × ℤ)
placed [] = []
placed (a ∷ []) = (0, a) ∷ []
placed (a ∷ b ∷ []) = (0, a) ∷ (1, b) ∷ []
placed (a ∷ b ∷ c ∷ trains) = (0, a) ∷ (1, b) ∷ (1, c) ∷ []

abbrev full : ℕ → List (ℕ × ℤ) → Master
full newfd sent = record { plat_available = false ∷ false ∷ false ∷ []; newfd = newfd; sent = sent }

arrive_all-full :
    (newfd : ℕ) (sent : List (ℕ × ℤ)) (trains : List ℤ)
    → arrive_all (full newfd sent) trains ≡ full newfd sent
unfolding arrive find_available
arrive_all-full newfd sent [] = refl
arrive_all-full newfd sent (nfd ∷ trains) = arrive_all-full newfd sent trains

-- However many trains come, at most three are placed, since no platform is given back; the first two are
-- sent to the platforms 0 and 1. The third one is given the last platform, which `broadcast` does not
-- call, and is sent over the connection that `newfd` has kept, the one to platform 1.
pub arrive_all_places : (trains : List ℤ) → (arrive_all opening trains).sent ≡ placed trains
unfolding arrive find_available broadcast
arrive_all_places [] = refl
arrive_all_places (a ∷ []) = refl
arrive_all_places (a ∷ b ∷ []) = refl
arrive_all_places (a ∷ b ∷ c ∷ trains) =
    ap (λ (m : Master). m.sent) (arrive_all-full 1 ((0, a) ∷ (1, b) ∷ (1, c) ∷ []) trains)

-- No cell says that a platform is available.
abbrev pub NoneAvailable : List Bool → Type 0
NoneAvailable [] = Unit
NoneAvailable (available ∷ rest) = (available ≡ false) × NoneAvailable rest

-- The array up to a first available platform, and the rest.
pub record First (plat_available : List Bool) (k : ℕ) : Type 0 where
  pub before : List Bool
  pub after : List Bool
  pub cells : plat_available ≡ before ++ true ∷ after
  pub none_before : NoneAvailable before
  pub index : k ≡ length before

find_available_from :
    (start : ℕ) (plat_available : List Bool)
    → (NoneAvailable plat_available × (find_available start plat_available ≡ none))
      ⊎ ((k : ℕ) × (find_available start plat_available ≡ some (start + k))
          × First plat_available k)
unfolding find_available
find_available_from start [] = inl (tt, refl)
find_available_from start (true ∷ rest) =
    let here : start ≡ start + 0 = omega arith in
    inr (
      0,
      ap some here,
      record { before = []; after = rest; cells = refl; none_before = tt; index = refl },
    )
find_available_from start (false ∷ rest) = elim (find_available_from (start + 1) rest) [
  | inl (nothing, e) ↦ inl ((refl, nothing), e)
  | inr (k, e, f) ↦
      let later : start + 1 + k ≡ start + suc k = omega arith in
      inr (
        suc k,
        e ∙ ap some later,
        record {
          before = false ∷ f.before;
          after = f.after;
          cells = ap (◌∷◌ false) f.cells;
          none_before = (refl, f.none_before);
          index = ap suc f.index;
        },
      )
]

-- The station master of exam/4 tells a train the first platform that the array calls available, and no
-- platform only if none is available.
pub tell-First :
    (plat_available : List Bool)
    → (NoneAvailable plat_available × (tell plat_available ≡ none))
      ⊎ ((k : ℕ) × (tell plat_available ≡ some k) × First plat_available k)
unfolding tell
tell-First plat_available = elim (find_available_from 0 plat_available) [
  | inl found ↦ inl found
  | inr (k, e, f) ↦ let same : 0 + k ≡ k = omega arith in inr (k, e ∙ ap some same, f)
]

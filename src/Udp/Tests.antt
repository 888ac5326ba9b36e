-- ===== src/Udp/Tests.antt =====
-- Two lines, the second one shorter than the first.
use cn.Base.{ℕ, ◌≡◌, refl, some, List, [], ◌∷◌, ◌++◌, map, replicate, length-replicate}
use cn.Nfs.Text.{text}
use cn.Udp.{udp_session}
use cn.Udp.Raised.{upper}
use cn.Udp.Upper.{udp_session-upper}

abbrev two_lines : List (List ℕ)
two_lines = (text "good day" ++ 10 ∷ []) ∷ (text "Bye" ++ 10 ∷ []) ∷ []

abbrev full : List ℕ
full = replicate 1024 120

udp_session-upper_example : udp_session full full two_lines ≡ some (map upper two_lines)
udp_session-upper_example =
    udp_session-upper full full two_lines (length-replicate {A = ℕ} 1024 120)
      (length-replicate {A = ℕ} 1024 120) refl

answers : map upper two_lines ≡ (text "GOOD DAY" ++ 10 ∷ []) ∷ (text "BYE" ++ 10 ∷ []) ∷ []
answers = refl

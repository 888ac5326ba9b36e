-- ===== src/OnDemand/Tests.antt =====
-- Five clients.
use cn.Base.{Bool, leb, ◌&&◌, ℕ, ◌+◌, ◌<◌, ◌≡◌, List, [], ◌∷◌, some, map, arith, Returns}
use cn.Base.Int.{bit}
use cn.Nfs.Text.{atoi}
use cn.OnDemand.{server_init, serve_all, listens}
use cn.OnDemand.Started.{serve_all-started, times, asked, as_int, request_text}

abbrev indices : List ℕ
indices = 2 ∷ 0 ∷ 2 ∷ 2 ∷ 0 ∷ []

-- `fork` fails for the first service.
abbrev all_but_first : ℕ → Bool
all_but_first i = leb 1 i

serve_all-started_example :
    Returns
      (λ r.
        ((j : ℕ) → j < 3 → times (j + 1) r.0.launched ≡ bit (asked j indices && all_but_first j))
        × (map (λ text. some (atoi text)) r.1 ≡ map (λ i. as_int (listens (i + 1))) indices))
      (serve_all all_but_first server_init (map request_text indices))
serve_all-started_example = serve_all-started all_but_first indices (omega arith)

-- ===== src/Unix/Failover/Tests.antt =====
-- Two clients that move to the backup, and five that do not.
use cn.Base.{ℕ, ◌≡◌, ◌∷◌, [], List, Returns, arith}
use cn.Base.Int.{ℤ}
use cn.Unix.Failover.{Server, idle, next, accept_all, Backup, begin_backup, hand_over}
use cn.Unix.Failover.Handover.{descriptors, handover_complete}

abbrev two : List ℕ
two = 6 ∷ 7 ∷ []

abbrev five : List ℕ
five = 6 ∷ 7 ∷ 8 ∷ 9 ∷ 10 ∷ []

handover_complete_example :
    (v : Server) × (accept_all (next idle) (descriptors two) ≡ next v)
    × Returns
        (λ (r : Backup × List ℤ). r.1 ≡ descriptors two)
        (begin_backup (record { csfd = [] }) (hand_over v.cfd))
handover_complete_example = handover_complete two (omega arith)

-- ===== src/Pool/Tests.antt =====
-- Two clients ask a pool of three servers; the second one asks while thread_write looks for a server.
use cn.Base.{ℕ, true, false, List, [], ◌∷◌, ◌++◌, some, ◌≡◌, ◌==◌, if◌then◌else◌, refl, arith}
use cn.Base.Int.{pos}
use cn.Nfs.Text.{text}
use cn.Decimal.{print_int}
use cn.Pool.{Threads, waiting, Reach, Step, begin_threads, find_free}
use cn.Pool.Client.{server_message, client, service}
use cn.Pool.Client.Returned.{writes_of, client-service}
use cn.Pool.Interleaved.{Safe, Reach-Safe}

abbrev two_asked : Threads
two_asked = record {
  pool = record { status = true ∷ false ∷ false ∷ []; start = 0 };
  gotserver = true;
  place = waiting;
  asked = 2;
  told = 0 ∷ [];
}

two_asked_reached : Reach 3 two_asked
unfolding begin_threads find_free
two_asked_reached =
    Reach.later
      (Reach.later
        (Reach.later
          (Reach.later (Reach.later (Reach.start refl) Step.read_server) (Step.notice refl refl))
          Step.read_server)
        (Step.look refl))
      (Step.tell refl)

Reach-Safe_example : Safe 3 two_asked
Reach-Safe_example = Reach-Safe (omega arith) two_asked_reached

abbrev typed : List (List ℕ)
typed = text "hello\n" ∷ text "bye\n" ∷ []

client-service_example :
    (client (server_message 2) (typed ++ text "quit\n" ∷ []) ≡ some (writes_of 2 typed))
    × (service (print_int (pos 2)) (writes_of 2 typed) ≡ (if 2 == 2 then typed else []))
client-service_example = client-service 2 2 typed [] (omega arith) refl

-- ===== src/Railway.antt =====
-- The station masters of rawsockets/trainmain/sm.c and exam/4/sm.c, which give platforms to trains.
-- A descriptor is a number; the connection to a platform is named by the platform's index.
pub mod Places
pub mod Trains
mod Tests
use cn.Base.{
  ℕ, zero, suc, ◌+◌, ◌≡◌, refl, Bool, true, false, Option, none, some, List, [], ◌∷◌, ◌++◌, ◌==◌,
  ltb, length, set, if◌then◌else◌,
}
use cn.Base.Int.{ℤ}

-- `plat_available`
abbrev pub all_available : List Bool
all_available = true ∷ true ∷ true ∷ []

-- The loop that looks for a platform, with the index of the first cell; `none` is `flag == 0`.
unfoldable pub find_available : ℕ → List Bool → Option ℕ
find_available k [] = none
find_available k (available ∷ rest) =
    let later = find_available (k + 1) rest in if available then some k else later

-- What trainmain/sm.c has done: the array, `newfd`, and the descriptors of trains with the platforms
-- whose connections they were sent over.
pub record Master : Type 0 where
  pub plat_available : List Bool
  pub newfd : ℕ
  pub sent : List (ℕ × ℤ)

-- The loop of `broadcast` over the platforms that are left: the last connection that is kept in `newfd`.
unfoldable pub broadcast : List ℕ → ℕ → ℕ → ℕ
broadcast [] k newfd = newfd
broadcast (i ∷ is) k newfd = broadcast is k (if i == k then i else newfd)

-- The platforms that `broadcast` calls: `for(i=0;i<2;i++)`.
abbrev pub called : List ℕ
called = 0 ∷ 1 ∷ []

-- One round of trainmain/sm.c, for the descriptor of a train.
unfoldable pub arrive : Master → ℤ → Master
arrive m nfd = place (find_available 0 m.plat_available)
  where
    place : Option ℕ → Master
    place none = m
    place (some k) =
        let connection = broadcast called k m.newfd in
        record {
          plat_available = set m.plat_available k false;
          newfd = connection;
          sent = m.sent ++ (connection, nfd) ∷ [];
        }

abbrev pub arrive_all : Master → List ℤ → Master
arrive_all m [] = m
arrive_all m (nfd ∷ trains) = arrive_all (arrive m nfd) trains

-- `newfd` is a global variable, and 0 at first.
abbrev pub opening : Master
opening = record { plat_available = all_available; newfd = 0; sent = [] }

-- One train of exam/4/sm.c: the platform that it is told, `none` if no one is available. The array is
-- not written.
unfoldable pub tell : List Bool → Option ℕ
tell plat_available = find_available 0 plat_available

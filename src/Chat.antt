-- ===== src/Chat.antt =====
-- chatserver/server.c and select_servers/chatserver/server.c: what one client says is written to the
-- pipes of the others. selectservers/chatserver/server.c has the loops of the first one.
pub mod Heard
pub mod Delivered
mod Tests
use cn.Base.{
  ℕ, zero, suc, ◌+◌, ◌≡◌, refl, Bool, true, false, List, [], ◌∷◌, ◌++◌, ◌==◌, replicate, Option,
  none, some, take, if◌then◌else◌, not,
}
use cn.Base.Int.{pos}
use cn.Nfs.Text.{text}
use cn.Decimal.{print_int}

-- The size of `readbuf`.
abbrev pub size : ℕ
size = 100

-- `memset(readbuf,0,sizeof(readbuf))`
abbrev pub cleared : List ℕ
cleared = replicate size 0

-- The loop over j of chatserver/server.c, for the clients j, j+1, ..., of which there are `left`: who is
-- written what. The buffer is cleared after every write.
unfoldable pub broadcast : ℕ → ℕ → ℕ → List ℕ → List (ℕ × List ℕ)
broadcast zero j i readbuf = []
broadcast (suc left) j i readbuf =
    let same = broadcast left (j + 1) i readbuf in
    let others = broadcast left (j + 1) i cleared in if j == i then same else (j, readbuf) ∷ others

-- The loop over k of select_servers/chatserver/server.c.
unfoldable pub write_others : ℕ → ℕ → ℕ → List ℕ → List (ℕ × List ℕ)
write_others zero k j message = []
write_others (suc left) k j message =
    let rest = write_others left (k + 1) j message in if k == j then rest else (k, message) ∷ rest

-- The loop over the descriptors behind `poll` or `select`: what every client from i on has written, if
-- anything, is passed on by the program's inner loop. A pipe that is ready has a message.
unfoldable pub pass_on :
    (ℕ → List ℕ → List (ℕ × List ℕ)) → ℕ → List (Option (List ℕ)) → List (ℕ × List ℕ)
pass_on inner i [] = []
pass_on inner i (none ∷ clients) = pass_on inner (i + 1) clients
pass_on inner i (some readbuf ∷ clients) = inner i readbuf ++ pass_on inner (i + 1) clients

-- The endless loop, with the descriptors of each round.
unfoldable pub rounds_of :
    (ℕ → List ℕ → List (ℕ × List ℕ)) → List (List (Option (List ℕ))) → List (ℕ × List ℕ)
unfolding pass_on
rounds_of inner [] = []
rounds_of inner (clients ∷ rounds) = pass_on inner 0 clients ++ rounds_of inner rounds

-- chatserver/server.c with `n` clients: all the writes.
unfoldable pub chat : ℕ → List (List (Option (List ℕ))) → List (ℕ × List ℕ)
unfolding rounds_of broadcast
chat n rounds = rounds_of (λ i readbuf. broadcast n 0 i readbuf) rounds

-- `snprintf(message,sizeof(message),"User %d: %s",j,buf)`
unfoldable pub user_message : ℕ → List ℕ → List ℕ
user_message j buf = take 199 (text "User " ++ (print_int (pos j) ++ (58 ∷ 32 ∷ buf)))

-- select_servers/chatserver/server.c.
unfoldable pub select_chat : ℕ → List (List (Option (List ℕ))) → List (ℕ × List ℕ)
unfolding rounds_of write_others user_message
select_chat n rounds = rounds_of (λ j buf. write_others n 0 j (user_message j buf)) rounds

-- ===== src/Chat/Delivered.antt =====
-- What the clients of select_servers/chatserver are written over all rounds.
use cn.Base.{
  ℕ, ◌+◌, ◌<◌, ◌≡◌, refl, ap, ap₂, ◌∙◌, true, List, [], ◌∷◌, ◌++◌, ltb, ◌==◌, Option, none, some,
  if◌then◌else◌, arith, Bool-cases, inl, inr,
}
use cn.Chat.{write_others, pass_on, rounds_of, user_message, select_chat}
use cn.Chat.Heard.{heard, write_others_all}

heard-append : (x : ℕ) (xs ys : List (ℕ × List ℕ)) → heard x (xs ++ ys) ≡ heard x xs ++ heard x ys
heard-append x [] ys = refl
heard-append x ((k, message) ∷ xs) ys = elim (Bool-cases (x == k)) [
  | inl here ↦ rw here (ap (◌∷◌ message) (heard-append x xs ys))
  | inr other ↦ rw other (heard-append x xs ys)
]

-- What the clients j, j+1, ... say in a round to another client x, in the order of the clients.
unfoldable pub said_to : ℕ → ℕ → List (Option (List ℕ)) → List (List ℕ)
said_to x j [] = []
said_to x j (none ∷ clients) = said_to x (j + 1) clients
said_to x j (some buf ∷ clients) =
    let later = said_to x (j + 1) clients in if x == j then later else user_message j buf ∷ later

-- The same over all rounds.
unfoldable pub all_said_to : ℕ → List (List (Option (List ℕ))) → List (List ℕ)
all_said_to x [] = []
all_said_to x (clients ∷ rounds) = said_to x 0 clients ++ all_said_to x rounds

abbrev inner : ℕ → ℕ → List ℕ → List (ℕ × List ℕ)
inner n j buf = write_others n 0 j (user_message j buf)

heard-pass_on :
    (n x j : ℕ) (clients : List (Option (List ℕ)))
    → x < n
    → heard x (pass_on (inner n) j clients) ≡ said_to x j clients
unfolding pass_on said_to
heard-pass_on n x j [] h = refl
heard-pass_on n x j (none ∷ clients) h = heard-pass_on n x (j + 1) clients h
heard-pass_on n x j (some buf ∷ clients) h =
    let is_client : ltb x n ≡ true = ground (arith, h) in
    let later = heard-pass_on n x (j + 1) clients h in
    elim (Bool-cases (x == j)) [
      | inl self ↦
          rw
            (
              heard-append x (inner n j buf) (pass_on (inner n) (j + 1) clients),
              write_others_all n j x (user_message j buf),
              is_client,
              self,
            )
            later
      | inr other ↦
          rw
            (
              heard-append x (inner n j buf) (pass_on (inner n) (j + 1) clients),
              write_others_all n j x (user_message j buf),
              is_client,
              other,
            )
            (ap (◌∷◌ (user_message j buf)) later)
    ]

heard-rounds_of :
    (n x : ℕ) (rounds : List (List (Option (List ℕ))))
    → x < n
    → heard x (rounds_of (inner n) rounds) ≡ all_said_to x rounds
unfolding rounds_of all_said_to
heard-rounds_of n x [] h = refl
heard-rounds_of n x (clients ∷ rounds) h =
    heard-append x (pass_on (inner n) 0 clients) (rounds_of (inner n) rounds)
    ∙ ap₂ ◌++◌ (heard-pass_on n x 0 clients h) (heard-rounds_of n x rounds h)

-- Over any number of rounds, in which any of the clients have said something, each client is written
-- exactly what the other ones have said, with the number of the one who said it, in the order of the rounds
-- and, in a round, of the clients.
pub select_chat-said :
    (n x : ℕ) (rounds : List (List (Option (List ℕ))))
    → x < n
    → heard x (select_chat n rounds) ≡ all_said_to x rounds
unfolding select_chat
select_chat-said n x rounds h = heard-rounds_of n x rounds h

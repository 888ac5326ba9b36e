-- ===== src/Chat/Tests.antt =====
-- Two rounds of three clients.
use cn.Base.{ℕ, ◌≡◌, refl, arith, [], List, ◌∷◌, Option, none, some}
use cn.Nfs.Text.{text}
use cn.Decimal
use cn.Chat.{user_message, select_chat}
use cn.Chat.Heard.{heard}
use cn.Chat.Delivered.{said_to, all_said_to, select_chat-said}

abbrev chatter : List (List (Option (List ℕ)))
chatter =
    (none ∷ some (text "hi") ∷ some (text "hello") ∷ [])
    ∷ (some (text "bye") ∷ none ∷ none ∷ [])
    ∷ []

select_chat-said_example : heard 1 (select_chat 3 chatter) ≡ all_said_to 1 chatter
select_chat-said_example = select_chat-said 3 1 chatter (omega arith)

user_messages : all_said_to 1 chatter ≡ text "User 2: hello" ∷ text "User 0: bye" ∷ []
unfolding all_said_to said_to user_message cn.Decimal.print_int
user_messages = refl

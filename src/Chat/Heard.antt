-- ===== src/Chat/Heard.antt =====
-- Who hears what.
use cn.Base.{
  ℕ, zero, suc, ◌+◌, ◌<◌, ◌≡◌, Bool, true, false, ◌&&◌, not, List, [], ◌∷◌, ltb, leb, ◌==◌,
  if◌then◌else◌, arith, Bool-cases, inl, inr,
}
use cn.Chat.{cleared, broadcast, write_others}

-- What is written to client x, in order.
abbrev pub heard : ℕ → List (ℕ × List ℕ) → List (List ℕ)
heard x [] = []
heard x ((k, message) ∷ writes) = if x == k then message ∷ heard x writes else heard x writes

-- Client x is one of the `left` clients from k on, and not client j.
abbrev pub is_listener : ℕ → ℕ → ℕ → ℕ → Bool
is_listener left k j x = leb k x && ltb x (k + left) && not (x == j)

heard-write_others :
    (left k j x : ℕ) (message : List ℕ)
    → heard x (write_others left k j message)
      ≡ (if is_listener left k j x then message ∷ [] else [])
unfolding write_others
heard-write_others zero k j x message =
    let nobody : is_listener 0 k j x ≡ false = ground arith in rw nobody
heard-write_others (suc left) k j x message =
    let later = heard-write_others left (k + 1) j x message in
    elim (Bool-cases (k == j)) [
      | inl self ↦
          let same : is_listener (suc left) k j x ≡ is_listener left (k + 1) j x = ground arith in
          rw (self, same) later
      | inr other ↦ elim (Bool-cases (x == k)) [
        | inl here ↦
            let yes_here : is_listener (suc left) k j x ≡ true = ground arith in
            let not_later : is_listener left (k + 1) j x ≡ false = ground arith in
            rw (other, here, later, yes_here, not_later)
        | inr elsewhere ↦
            let same : is_listener (suc left) k j x ≡ is_listener left (k + 1) j x = ground arith in
            rw (other, elsewhere, later, same)
      ]
    ]

heard-cleared :
    (left j i x : ℕ)
    → heard x (broadcast left j i cleared) ≡ (if is_listener left j i x then cleared ∷ [] else [])
unfolding broadcast
heard-cleared zero j i x = let nobody : is_listener 0 j i x ≡ false = ground arith in rw nobody
heard-cleared (suc left) j i x =
    let later = heard-cleared left (j + 1) i x in
    elim (Bool-cases (j == i)) [
      | inl self ↦
          let same : is_listener (suc left) j i x ≡ is_listener left (j + 1) i x = ground arith in
          rw (self, same) later
      | inr other ↦ elim (Bool-cases (x == j)) [
        | inl here ↦
            let yes_here : is_listener (suc left) j i x ≡ true = ground arith in
            let not_later : is_listener left (j + 1) i x ≡ false = ground arith in
            rw (other, here, later, yes_here, not_later)
        | inr elsewhere ↦
            let same : is_listener (suc left) j i x ≡ is_listener left (j + 1) i x = ground arith in
            rw (other, elsewhere, later, same)
      ]
    ]

-- In chatserver, for a speaker other than client 0, the message is written to client 0, and to every
-- other client, except the speaker, zeros are written: the buffer is cleared within the loop over them.
pub broadcast_first :
    (left i x : ℕ) (message : List ℕ)
    → 0 < i
    → heard x (broadcast (suc left) 0 i message)
      ≡ (if is_listener (suc left) 0 i x then (if x == 0 then message else cleared) ∷ [] else [])
unfolding broadcast
broadcast_first left i x message h =
    let other : (0 == i) ≡ false = ground arith in
    let later = heard-cleared left 1 i x in
    elim (Bool-cases (x == 0)) [
      | inl here ↦
          let yes_here : is_listener (suc left) 0 i x ≡ true = ground arith in
          let not_later : is_listener left 1 i x ≡ false = ground arith in
          rw (other, here, later, yes_here, not_later)
      | inr elsewhere ↦
          let same : is_listener (suc left) 0 i x ≡ is_listener left 1 i x = ground arith in
          rw (other, elsewhere, later, same)
    ]

-- In select_servers/chatserver, every client other than the speaker is written the message, once, and
-- the speaker nothing.
pub write_others_all :
    (clients j x : ℕ) (message : List ℕ)
    → heard x (write_others clients 0 j message)
      ≡ (if ltb x clients && not (x == j) then message ∷ [] else [])
write_others_all clients j x message =
    let all : is_listener clients 0 j x ≡ ltb x clients && not (x == j) = ground arith in
    rw (heard-write_others clients 0 j x message, all)

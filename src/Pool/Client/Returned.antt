-- ===== src/Pool/Client/Returned.antt =====
-- A client from the request of a server to its return.
use cn.Base.{
  ℕ, zero, suc, ◌+◌, ◌<◌, ◌≡◌, refl, ap, ◌∙◌, Bool, true, false, not, ◌&&◌, Option, some, List, [],
  ◌∷◌, ◌++◌, ◌==◌, if◌then◌else◌, leb, length, take, arith, Bool-cases, inl, inr,
}
use cn.Base.Int.{ℤ, pos, ◌+ℤ◌}
use cn.Nfs.Text.{text, equal, span, strtok}
use cn.Decimal.{
  print_int, print_digits, AllDigits, print_digits-AllDigits, length-print_digits, atoi-print_int,
  equal-print_int,
}
use cn.Pool.Client.{
  server_message, is_bar, is_comma, thread_read, thread_write, client, server_name, service,
}

span-bar : (s rest : List ℕ) → AllDigits s → span is_bar (s ++ 124 ∷ rest) ≡ (s, rest)
unfolding AllDigits
span-bar [] rest h = refl
span-bar (c ∷ s) rest h =
    let other : (c == 124) ≡ false = ground (arith, h.1) in rw (other, span-bar s rest h.2) refl

span-comma : (s : List ℕ) → AllDigits s → span is_comma s ≡ (s, [])
unfolding AllDigits
span-comma [] h = refl
span-comma (c ∷ s) h =
    let other : (c == 44) ≡ false = ground (arith, h.0) in rw (other, span-comma s h.2) refl

-- The number behind the bar is the whole second token.
strtok-digits : (s : List ℕ) → AllDigits s → 0 < length s → strtok is_comma s ≡ some (s, [])
unfolding strtok AllDigits
strtok-digits [] h nonempty = absurd (omega arith)
strtok-digits (c ∷ s) h nonempty =
    let other : (c == 44) ≡ false = ground (arith, h.0) in
    rw other (rw other (ap some (rw (span-comma s h.2) refl)))

strtok-name :
    (s rest : List ℕ)
    → AllDigits s
    → strtok is_bar (text "serverfifo" ++ (s ++ 124 ∷ rest)) ≡ some (text "serverfifo" ++ s, rest)
unfolding strtok
strtok-name s rest h = rw (span-bar s rest h) refl

thread_read-server_message :
    (k : ℕ)
    → thread_read (server_message k) ≡ record {
      fd = some (text "serverfifo" ++ print_int (pos k));
      writefd = take 19 (print_int (pos k) ++ text "write");
      server_no = pos k +ℤ pos 1;
    }
unfolding thread_read server_message print_int
thread_read-server_message k =
    let name = strtok-name (print_digits k k) (print_digits k k) (print_digits-AllDigits k k) in
    let number =
      strtok-digits (print_digits k k) (print_digits-AllDigits k k) (length-print_digits k k) in
    rw (name, number, atoi-print_int (pos k)) refl

-- Lines that `message` has room for, none of which is "quit".
abbrev pub all_sent : List (List ℕ) → Bool
all_sent [] = true
all_sent (line ∷ lines) =
    not (leb 7 (length line)) && not (equal line (text "quit\n")) && all_sent lines

abbrev sent_to : List ℕ → List (List ℕ) → List (Option (List ℕ) × List ℕ)
sent_to name [] = []
sent_to name (line ∷ lines) = (some name, line) ∷ sent_to name lines

-- The request, the lines to the fifo of server k, and the decimal text of k + 1 to the pool.
abbrev pub writes_of : ℕ → List (List ℕ) → List (Option (List ℕ) × List ℕ)
writes_of k lines =
    (some (text "clientfifo"), text "server")
    ∷ (sent_to (text "serverfifo" ++ print_int (pos k)) lines
        ++ (some (text "clientfifo"), print_int (pos (k + 1))) ∷ [])

thread_write-lines :
    (name writefd : List ℕ) (number : ℤ) (lines rest : List (List ℕ))
    → all_sent lines ≡ true
    → thread_write
        (record { fd = some name; writefd = writefd; server_no = number })
        (lines ++ text "quit\n" ∷ rest)
      ≡ some (sent_to name lines ++ (some (text "clientfifo"), take 6 (print_int number)) ∷ [])
unfolding thread_write
thread_write-lines name writefd number [] rest h = refl
thread_write-lines name writefd number (line ∷ lines) rest h =
    let fits : leb 7 (length line) ≡ false = ground (arith, h) in
    let more : equal line (text "quit\n") ≡ false = ground (arith, h) in
    let later : all_sent lines ≡ true = ground (arith, h) in
    rw (fits, more, thread_write-lines name writefd number lines rest later) refl

-- A number below 11 has room in `message`.
take-print_int : (k : ℕ) → k < 10 → take 6 (print_int (pos (k + 1))) ≡ print_int (pos (k + 1))
unfolding print_int
take-print_int zero h = refl
take-print_int (suc zero) h = refl
take-print_int (suc (suc zero)) h = refl
take-print_int (suc (suc (suc zero))) h = refl
take-print_int (suc (suc (suc (suc zero)))) h = refl
take-print_int (suc (suc (suc (suc (suc zero))))) h = refl
take-print_int (suc (suc (suc (suc (suc (suc zero)))))) h = refl
take-print_int (suc (suc (suc (suc (suc (suc (suc zero))))))) h = refl
take-print_int (suc (suc (suc (suc (suc (suc (suc (suc zero)))))))) h = refl
take-print_int (suc (suc (suc (suc (suc (suc (suc (suc (suc zero))))))))) h = refl
take-print_int (suc (suc (suc (suc (suc (suc (suc (suc (suc (suc k)))))))))) h =
    absurd (omega arith)

next_number : (k : ℕ) → pos k +ℤ pos 1 ≡ pos (k + 1)
unfolding ◌+ℤ◌
next_number k = ground arith

nothing_anyway {ℓ} : {A : Type ℓ} (b : Bool) → ◌≡◌ {A = List A} [] (if b then [] else [])
nothing_anyway true = refl
nothing_anyway false = refl

service-sent_to :
    (argument name : List ℕ) (lines : List (List ℕ)) (last : List ℕ)
    → service argument (sent_to name lines ++ (some (text "clientfifo"), last) ∷ [])
      ≡ (if equal name (server_name argument) then lines else [])
unfolding service
service-sent_to argument name [] last = nothing_anyway (equal name (server_name argument))
service-sent_to argument name (line ∷ lines) last =
    let later = service-sent_to argument name lines last in
    elim (Bool-cases (equal name (server_name argument))) [
      | inl mine ↦ rw mine (ap (◌∷◌ line) (later ∙ rw mine refl))
      | inr other ↦ rw other (later ∙ rw other refl)
    ]

service-request :
    (argument message : List ℕ) (writes : List (Option (List ℕ) × List ℕ))
    → service argument ((some (text "clientfifo"), message) ∷ writes) ≡ service argument writes
unfolding service
service-request argument message writes = refl

same_server :
    (j k : ℕ)
    → equal (text "serverfifo" ++ print_int (pos k)) (server_name (print_int (pos j))) ≡ (j == k)
unfolding server_name
same_server j k = rw (atoi-print_int (pos j)) (equal-print_int k j)

-- A client is told server k of at most ten, types lines of fewer than seven characters, and then "quit": it has
-- asked for a server, written exactly the lines to the fifo of server k, and given the pool the decimal text of
-- k + 1 back; the service with the number j prints exactly the lines if it is server k, and nothing otherwise.
pub client-service :
    (k j : ℕ) (lines rest : List (List ℕ))
    → k < 10
    → all_sent lines ≡ true
    → (client (server_message k) (lines ++ text "quit\n" ∷ rest) ≡ some (writes_of k lines))
      × (service (print_int (pos j)) (writes_of k lines) ≡ (if j == k then lines else []))
unfolding client
client-service k j lines rest h short = (wrote, printed)
  where
    name : List ℕ
    name = text "serverfifo" ++ print_int (pos k)

    wrote : client (server_message k) (lines ++ text "quit\n" ∷ rest) ≡ some (writes_of k lines)
    wrote =
        rw
          (
            thread_read-server_message k,
            thread_write-lines name (take 19 (print_int (pos k) ++ text "write")) (pos k +ℤ pos 1)
                lines rest short,
            next_number k,
            take-print_int k h,
          )
          refl

    printed : service (print_int (pos j)) (writes_of k lines) ≡ (if j == k then lines else [])
    printed =
        service-request (print_int (pos j)) (text "server") (
          sent_to (text "serverfifo" ++ print_int (pos k)) lines
          ++ (some (text "clientfifo"), print_int (pos (k + 1))) ∷ [])
        ∙ service-sent_to (print_int (pos j)) (text "serverfifo" ++ print_int (pos k)) lines
            (print_int (pos (k + 1)))
        ∙ ap (λ b. if b then lines else []) (same_server j k)

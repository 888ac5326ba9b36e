-- ===== src/Readers/Logging.antt =====
-- logserver/server.c, whose writes logserver.c reads: what is logged of a message.
use cn.Base.{
  ℕ, zero, suc, ◌+◌, ◌≡◌, refl, ap, ap₂, ◌∙◌, Bool, true, false, ◌&&◌, Option, none, some, List, [],
  ◌∷◌, ◌++◌, if◌then◌else◌, ltb, length, take, replicate, map, arith,
}
use cn.Readers.{overwrite, cleared, every, allinone, log_to_all}
use cn.Readers.Lines.{
  is_terminated, text_of, texts, all_terminated, all_texts, rounds_terminated, has_zero-overwrite,
  before_zero-overwrite, read_rounds-all_texts,
}

-- The writes to the fifos of the logs, as the log server finds them in a round.
abbrev fifos : List (ℕ × List ℕ) → List (Option (List ℕ))
fifos [] = []
fifos ((j, readbuf) ∷ writes) = some readbuf ∷ fifos writes

-- Both programs with `n` clients, for the messages that these have sent, one after another.
unfoldable pub log_session : ℕ → List (List ℕ) → Option (List (List ℕ))
unfolding allinone log_to_all
log_session n messages =
    allinone (map (λ message. fifos (log_to_all n 0 (overwrite message (cleared 100)))) messages)

take-overwrite :
    (size : ℕ) (bytes : List ℕ)
    → take size (overwrite bytes (cleared size)) ≡ overwrite bytes (cleared size)
take-overwrite zero [] = refl
take-overwrite zero (b ∷ bytes) = refl
take-overwrite (suc size) [] = ap (◌∷◌ 0) (take-overwrite size [])
take-overwrite (suc size) (b ∷ bytes) = ap (◌∷◌ b) (take-overwrite size bytes)

length-overwrite : (size : ℕ) (bytes : List ℕ) → length (overwrite bytes (cleared size)) ≡ size
length-overwrite zero [] = refl
length-overwrite zero (b ∷ bytes) = refl
length-overwrite (suc size) [] = ap suc (length-overwrite size [])
length-overwrite (suc size) (b ∷ bytes) = ap suc (length-overwrite size bytes)

-- A buffer that is written as a whole is read as the message in it.
text_of-overwrite :
    (size : ℕ) (bytes : List ℕ) → text_of size (overwrite bytes (cleared size)) ≡ text_of size bytes
text_of-overwrite size bytes = rw (take-overwrite size bytes) (before_zero-overwrite size bytes)

is_terminated-overwrite :
    (size : ℕ) (bytes : List ℕ)
    → is_terminated size (overwrite bytes (cleared size)) ≡ is_terminated size bytes
is_terminated-overwrite size bytes =
    let whole : ltb size size ≡ false = ground arith in
    rw (length-overwrite size bytes, whole, take-overwrite size bytes)
      (has_zero-overwrite size bytes)

texts-cleared :
    (left j k : ℕ)
    → (texts 100 every j (fifos (log_to_all left k (cleared 100))) ≡ replicate left [])
      × (all_terminated 100 every j (fifos (log_to_all left k (cleared 100))) ≡ true)
unfolding texts all_terminated log_to_all
texts-cleared zero j k = (refl, refl)
texts-cleared (suc left) j k =
    let (empty, ends) = texts-cleared left (j + 1) (k + 1) in (ap (◌∷◌ []) empty, ends)

texts-log_to_all :
    (left : ℕ) (message : List ℕ)
    → is_terminated 100 message ≡ true
    → (texts 100 every 0 (fifos (log_to_all (suc left) 0 (overwrite message (cleared 100))))
        ≡ text_of 100 message ∷ replicate left [])
      × (all_terminated 100 every 0
            (fifos (log_to_all (suc left) 0 (overwrite message (cleared 100))))
          ≡ true)
unfolding texts all_terminated log_to_all
texts-log_to_all left message h =
    let (empty, ends) = texts-cleared left 1 1 in
    (
      ap₂ ◌∷◌ (text_of-overwrite 100 message) empty,
      ap₂ ◌&&◌ (is_terminated-overwrite 100 message ∙ h) ends,
    )

-- Every message has a zero among its first hundred bytes, or fewer bytes than these.
abbrev pub each_terminated : List (List ℕ) → Bool
each_terminated [] = true
each_terminated (message ∷ messages) = is_terminated 100 message && each_terminated messages

-- The text of each message, and an empty line for every client but one.
abbrev pub logged : ℕ → List (List ℕ) → List (List ℕ)
logged others [] = []
logged others (message ∷ messages) =
    (text_of 100 message ∷ replicate others []) ++ logged others messages

and_left : (a b : Bool) → (a && b) ≡ true → a ≡ true
and_left true b h = refl
and_left false b h = h

and_right : (a b : Bool) → (a && b) ≡ true → b ≡ true
and_right true b h = h
and_right false b h = cc

allinone-all_texts :
    (rounds : List (List (Option (List ℕ))))
    → allinone rounds
      ≡ (if rounds_terminated 100 every rounds then some (all_texts 100 every rounds) else none)
unfolding allinone
allinone-all_texts rounds = read_rounds-all_texts 100 every rounds

-- The rounds of the log server.
abbrev logs_of : ℕ → List (List ℕ) → List (List (Option (List ℕ)))
logs_of n messages =
    map (λ message. fifos (log_to_all n 0 (overwrite message (cleared 100)))) messages

all_texts-logs_of :
    (others : ℕ) (messages : List (List ℕ))
    → each_terminated messages ≡ true
    → (all_texts 100 every (logs_of (suc others) messages) ≡ logged others messages)
      × (rounds_terminated 100 every (logs_of (suc others) messages) ≡ true)
unfolding all_texts rounds_terminated
all_texts-logs_of others [] h = (refl, refl)
all_texts-logs_of others (message ∷ messages) h =
    let (mine, ends) =
      texts-log_to_all others message
        (and_left (is_terminated 100 message) (each_terminated messages) h) in
    let (later, all_end) =
      all_texts-logs_of others messages
        (and_right (is_terminated 100 message) (each_terminated messages) h) in
    (ap₂ ◌++◌ mine later, ap₂ ◌&&◌ ends all_end)

-- With one client or more: if every message has a zero among its first hundred bytes, or fewer bytes than these, the
-- log server prints the text of each, in order, and behind each an empty line for every client but the first: the
-- buffer is cleared within the loop over the clients.
pub log_session-logged :
    (others : ℕ) (messages : List (List ℕ))
    → each_terminated messages ≡ true
    → log_session (suc others) messages ≡ some (logged others messages)
unfolding log_session
log_session-logged others messages h =
    let (lines, ends) = all_texts-logs_of others messages h in
    allinone-all_texts (logs_of (suc others) messages)
    ∙ ap (λ b. if b then some (all_texts 100 every (logs_of (suc others) messages)) else none) ends
    ∙ ap some lines

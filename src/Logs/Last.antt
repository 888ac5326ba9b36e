-- ===== src/Logs/Last.antt =====
-- Whose messages are logged.
use cn.Base.{
  ℕ, zero, suc, ◌+◌, ◌-◌, ◌≡◌, refl, sym, ap, ◌∙◌, Bool, true, false, ◌&&◌, none, some, List, [],
  ◌∷◌, ◌++◌, ◌==◌, if◌then◌else◌, ltb, leb, ◌≤◌, length, length-append, get_elem?, arith,
  Bool-cases, inl, inr, append-nil, append_assoc,
}
use cn.Base.Int.{ℤ, pos, negsuc}
use cn.Logs.{
  max_logs, Logs, Event, server_starts, server_reads, less_one, start_server, read_log, log_message,
  log_step, log_steps, log_server,
}

-- After `started` servers have been started, with `n` logs, the messages that are logged: those of server k
-- if k is among them and one of the last argc-1 of the first n.
unfoldable pub logged_of : ℕ → ℕ → ℕ → List Event → List (List ℕ)
logged_of argc n started [] = []
logged_of argc n started (server_starts ∷ events) = logged_of argc n (started + 1) events
logged_of argc n started (server_reads k buf ∷ events) =
    let rest = logged_of argc n started events in
    if ltb k started && ltb k n && ltb n (k + argc) then buf ∷ rest else rest

get_elem?-snoc {ℓ} :
    {A : Type ℓ} (xs : List A) (x : A) (k : ℕ)
    → get_elem? (xs ++ (x ∷ [])) k ≡ (if k == length xs then some x else get_elem? xs k)
get_elem?-snoc [] x zero = refl
get_elem?-snoc [] x (suc k) = let other : (suc k == 0) ≡ false = ground arith in rw other refl
get_elem?-snoc (y ∷ xs) x zero =
    let other : (0 == suc (length xs)) ≡ false = ground arith in rw other refl
get_elem?-snoc (y ∷ xs) x (suc k) =
    let same : (suc k == suc (length xs)) ≡ (k == length xs) = ground arith in
    rw same (get_elem?-snoc xs x k)

-- The number in the shared memory after so many servers.
abbrev number_after : ℕ → ℕ → ℤ
number_after n started = if leb started n then pos (n - started) else negsuc (started - n - 1)

less_one-number_after :
    (n started : ℕ) → less_one (number_after n started) ≡ number_after n (started + 1)
unfolding less_one
less_one-number_after n started = elim (Bool-cases (ltb started n)) [
  | inl room ↦
      let now : leb started n ≡ true = ground (arith, room) in
      let then_too : leb (started + 1) n ≡ true = ground (arith, room) in
      let some_left : (n - started == 0) ≡ false = ground (arith, room) in
      let one : n - started - 1 ≡ n - (started + 1) = omega arith in
      rw (now, then_too, some_left) (ap pos one)
  | inr full ↦ elim (Bool-cases (leb started n)) [
    | inl now ↦
        let after : leb (started + 1) n ≡ false = ground (arith, full) in
        let none_left : (n - started == 0) ≡ true = ground (arith, full) in
        let first : 0 ≡ started + 1 - n - 1 = ground (arith, full, now) in
        rw (now, after, none_left) (ap negsuc first)
    | inr past ↦
        let after : leb (started + 1) n ≡ false = ground (arith, full) in
        let next : started - n - 1 + 1 ≡ started + 1 - n - 1 = ground (arith, full, past) in
        rw (past, after) (ap negsuc next)
  ]
]

-- The server k, if it runs, has the log n-1-k.
abbrev Lognos : ℕ → ℕ → List ℕ → Type 0
Lognos n started lognos =
    (length lognos ≡ (if leb started n then started else n))
    × ((k : ℕ) → get_elem? lognos k ≡ (if ltb k started && ltb k n then some (n - 1 - k) else none))

abbrev Reached : ℕ → ℕ → Logs → Type 0
Reached n started s = (s.number ≡ number_after n started) × Lognos n started s.lognos

start_server-opens :
    (n started : ℕ) (s : Logs)
    → ltb started n ≡ true
    → s.number ≡ number_after n started
    → start_server n s ≡ record s {
      number = pos (n - (started + 1));
      lognos = s.lognos ++ ((n - (started + 1)) ∷ []);
    }
unfolding start_server
start_server-opens n started s room number =
    let after : leb (started + 1) n ≡ true = ground (arith, room) in
    let there : ltb (n - (started + 1)) n ≡ true = ground (arith, room) in
    let next : less_one s.number ≡ pos (n - (started + 1)) =
      ap less_one number ∙ less_one-number_after n started ∙ rw after refl in
    rw (next, there) refl

start_server-exits :
    (n started : ℕ) (s : Logs)
    → ltb started n ≡ false
    → s.number ≡ number_after n started
    → start_server n s ≡ record s { number = negsuc (started + 1 - n - 1) }
unfolding start_server
start_server-exits n started s full number =
    let after : leb (started + 1) n ≡ false = ground (arith, full) in
    let next : less_one s.number ≡ negsuc (started + 1 - n - 1) =
      ap less_one number ∙ less_one-number_after n started ∙ rw after refl in
    rw next refl

-- The servers that have a log, after one more.
Lognos-snoc :
    (n started : ℕ) (lognos : List ℕ)
    → ltb started n ≡ true
    → Lognos n started lognos
    → Lognos n (started + 1) (lognos ++ ((n - (started + 1)) ∷ []))
Lognos-snoc n started lognos room (long, each) =
    let now : leb started n ≡ true = ground (arith, room) in
    let after : leb (started + 1) n ≡ true = ground (arith, room) in
    let len : length lognos ≡ started = long ∙ rw now refl in
    (length-append lognos ((n - (started + 1)) ∷ []) ∙ rw (len, after) refl, each_now len)
  where
    each_now :
        length lognos ≡ started
        → (k : ℕ)
        → get_elem? (lognos ++ ((n - (started + 1)) ∷ [])) k
          ≡ (if ltb k (started + 1) && ltb k n then some (n - 1 - k) else none)
    each_now len k =
        get_elem?-snoc lognos (n - (started + 1)) k ∙ elim (Bool-cases (k == started)) [
          | inl here ↦
              let in_range : ltb k (started + 1) && ltb k n ≡ true = ground (arith, here, room) in
              let mine : n - (started + 1) ≡ n - 1 - k = ground (arith, here) in
              rw (len, here, in_range) (ap some mine)
          | inr other ↦
              let same : ltb k (started + 1) && ltb k n ≡ ltb k started && ltb k n =
                ground (arith, other) in
              rw (len, other, same) (each k)
        ]

Lognos-same :
    (n started : ℕ) (lognos : List ℕ)
    → ltb started n ≡ false
    → Lognos n started lognos
    → Lognos n (started + 1) lognos
Lognos-same n started lognos full (long, each) =
    let after : leb (started + 1) n ≡ false = ground (arith, full) in
    let len : (if leb started n then started else n) ≡ n = ground (arith, full) in
    (long ∙ len ∙ rw after refl, each_now)
  where
    each_now :
        (k : ℕ)
        → get_elem? lognos k ≡ (if ltb k (started + 1) && ltb k n then some (n - 1 - k) else none)
    each_now k =
        let same : ltb k (started + 1) && ltb k n ≡ ltb k started && ltb k n =
          ground (arith, full) in
        rw same (each k)

start_server-Reached :
    (n started : ℕ) (s : Logs) → Reached n started s → Reached n (started + 1) (start_server n s)
start_server-Reached n started s (number, known) = elim (Bool-cases (ltb started n)) [
  | inl room ↦
      let after : leb (started + 1) n ≡ true = ground (arith, room) in
      let next : pos (n - (started + 1)) ≡ number_after n (started + 1) = rw after refl in
      rw (start_server-opens n started s room number)
        (next, Lognos-snoc n started s.lognos room known)
  | inr full ↦
      let after : leb (started + 1) n ≡ false = ground (arith, full) in
      let next : negsuc (started + 1 - n - 1) ≡ number_after n (started + 1) = rw after refl in
      rw (start_server-exits n started s full number)
        (next, Lognos-same n started s.lognos full known)
]

start_server-logged : (n : ℕ) (s : Logs) → (start_server n s).logged ≡ s.logged
unfolding start_server
start_server-logged n s = by_number (less_one s.number) refl
  where
    by_number : (z : ℤ) → less_one s.number ≡ z → (start_server n s).logged ≡ s.logged
    by_number (pos logno) e = elim (Bool-cases (ltb logno n)) [
      | inl there ↦ rw (e, there) refl
      | inr missing ↦ rw (e, missing) refl
    ]
    by_number (negsuc below) e = rw e refl

-- A message changes neither the number nor the servers.
log_message-Reached :
    (argc n started k : ℕ) (buf : List ℕ) (s : Logs)
    → Reached n started s
    → Reached n started (log_message argc k buf s)
      × ((log_message argc k buf s).logged
          ≡ s.logged ++ (if ltb k started && ltb k n && ltb n (k + argc) then buf ∷ [] else []))
unfolding log_message read_log
log_message-Reached argc n started k buf s (number, (long, each)) =
    elim (Bool-cases (ltb k started && ltb k n)) [
      | inl runs ↦
          let logno : get_elem? s.lognos k ≡ some (n - 1 - k) = each k ∙ rw runs refl in
          let watched : ltb (n - 1 - k) (argc - 1) ≡ ltb n (k + argc) = ground (arith, runs) in
          elim (Bool-cases (ltb n (k + argc))) [
            | inl yes_read ↦ rw (runs, logno, watched, yes_read) ((number, (long, each)), refl)
            | inr unread ↦
                rw (runs, logno, watched, unread)
                  ((number, (long, each)), sym (append-nil s.logged))
          ]
      | inr exited ↦
          let nobody : get_elem? s.lognos k ≡ none = each k ∙ rw exited refl in
          rw (exited, nobody) ((number, (long, each)), sym (append-nil s.logged))
    ]

append-choice {ℓ} :
    {A : Type ℓ} (b : Bool) (xs : List A) (x : A) (ys : List A)
    → (xs ++ (if b then x ∷ [] else [])) ++ ys ≡ xs ++ (if b then x ∷ ys else ys)
append-choice true xs x ys = append_assoc xs (x ∷ []) ys
append-choice false xs x ys = ap (λ l. l ++ ys) (append-nil xs)

log_steps-logged_of :
    (argc n started : ℕ) (events : List Event) (s : Logs)
    → Reached n started s
    → (log_steps argc n events s).logged ≡ s.logged ++ logged_of argc n started events
unfolding log_steps logged_of log_step
log_steps-logged_of argc n started [] s reached = sym (append-nil s.logged)
log_steps-logged_of argc n started (server_starts ∷ events) s reached =
    log_steps-logged_of argc n (started + 1) events (start_server n s)
      (start_server-Reached n started s reached)
    ∙ ap (λ l. l ++ logged_of argc n (started + 1) events) (start_server-logged n s)
log_steps-logged_of argc n started (server_reads k buf ∷ events) s reached =
    let (next, more) = log_message-Reached argc n started k buf s reached in
    log_steps-logged_of argc n started events (log_message argc k buf s) next
    ∙ ap (λ l. l ++ logged_of argc n started events) more
    ∙ append-choice (ltb k started && ltb k n && ltb n (k + argc)) s.logged buf
        (logged_of argc n started events)

start-Reached : (n : ℕ) → Reached n 0 (record { number = pos n; lognos = []; logged = [] })
start-Reached n =
    let none_yet : leb 0 n ≡ true = ground arith in
    let all : n ≡ n - 0 = omega arith in
    (ap pos all ∙ rw none_yet refl, (rw none_yet refl, each_none))
  where
    each_none : (k : ℕ) → get_elem? [] k ≡ (if ltb k 0 && ltb k n then some (n - 1 - k) else none)
    each_none k = let nobody : ltb k 0 && ltb k n ≡ false = ground arith in rw nobody refl

-- With at most ten logs, of which argc-1 are read, in whatever order servers are started and their users write: the log
-- server prints the messages of those servers that are among the last argc-1 of the first n, in order, and no
-- others. Its usual call has one argument, the number of logs, so that it prints those of the n-th server alone.
pub log_server-logged_of :
    (argc n : ℕ) (events : List Event)
    → n ≤ max_logs
    → argc ≤ n + 1
    → log_server argc n events ≡ some (logged_of argc n 0 events)
unfolding log_server
log_server-logged_of argc n events few read =
    let fits : leb n max_logs && leb (argc - 1) n ≡ true = ground (arith, few, read) in
    rw fits (
      ap some (
        log_steps-logged_of argc n 0 events (record { number = pos n; lognos = []; logged = [] })
          (start-Reached n)))

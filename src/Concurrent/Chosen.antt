-- ===== src/Concurrent/Chosen.antt =====
-- Which program a client gets.
use cn.Base.{
  ℕ, ◌+◌, ◌<◌, ◌≡◌, Option-cases, refl, ap₂, ◌∙◌, Bool, true, false, not, ltb, ◌&&◌, Option, none,
  some, List, [], ◌∷◌, ◌==◌, if◌then◌else◌, map, length, take, arith, inl, inr,
}
use cn.Nfs.Text.{text}
use cn.Readers.{overwrite, has_zero}
use cn.Inetd.{File, listener, connection, Table, Client, Started, assign, close, accept}
use cn.Concurrent.{Visit, choose, concurrent_child, Run, parent, concurrent_loop, concurrent}
use cn.Inetd.Tables.{dup2-open}
use cn.Concurrent.Lines.{chosen, line, IsService, buffer_of, choose-chosen}

-- A started process: its program, its input and output, and what it has on the socket of the server.
pub record View : Type 0 where
  pub program : List ℕ
  pub input : Option File
  pub output : Option File
  pub on_socket : Option File

abbrev pub view : ℕ → Started → View
view sfd s = record {
  program = s.servname;
  input = s.table 0;
  output = s.table 1;
  on_socket = s.table sfd;
}

abbrev pub given : ℕ → Client → View
given service c = record {
  program = if service == 1 then text "./lower" else text "./upper";
  input = some (connection c.number);
  output = some (connection c.number);
  on_socket = none;
}

-- The processes of the clients up to the first one whose choice is invalid.
abbrev pub all_given : Option ℕ → List Visit → List View
all_given previous [] = []
all_given previous (r ∷ visits) = elim (chosen previous r.bytes) [
  | none ↦ []
  | some service ↦
      let later = all_given (some service) visits in
      if r.client.forked then given service r.client ∷ later else later
]

abbrev pub ends : Option ℕ → List Visit → Bool
ends previous [] = false
ends previous (r ∷ visits) = elim (chosen previous r.bytes) [
  | none ↦ true
  | some service ↦ ends (some service) visits
]

-- A text comes from each client, of at most 100 bytes, and the descriptor of its connection is another one than
-- those of the socket, of the input and of the output.
abbrev pub is_visit : ℕ → Visit → Bool
is_visit sfd r =
    not (has_zero r.bytes)
    && ltb (length r.bytes) 101
    && not (r.client.nfd == sfd)
    && ltb 1 r.client.nfd

abbrev pub all_visits : ℕ → List Visit → Bool
all_visits sfd [] = true
all_visits sfd (r ∷ visits) = is_visit sfd r && all_visits sfd visits

child-given :
    (service sfd : ℕ) (c : Client) (t : Table)
    → (c.nfd == sfd) ≡ false
    → 1 < c.nfd
    → 1 < sfd
    → view sfd (concurrent_child service sfd c.nfd (accept c t)) ≡ given service c
unfolding concurrent_child accept close
child-given service sfd c t h input output =
    let n : (c.nfd == c.nfd) ≡ true = ground arith in
    let n' : (sfd == c.nfd) ≡ false = ground (arith, h) in
    let n0 : (c.nfd == 0) ≡ false = ground arith in
    let n1 : (0 == c.nfd) ≡ false = ground arith in
    let n2 : (1 == c.nfd) ≡ false = ground arith in
    let s : (sfd == sfd) ≡ true = ground arith in
    let s0 : (sfd == 0) ≡ false = ground arith in
    let s1 : (sfd == 1) ≡ false = ground arith in
    let t' = close sfd (accept c t) in
    let here : t' c.nfd ≡ some (connection c.number) = rw (h, n) refl in
    let first = dup2-open c.nfd 0 t' (connection c.number) here in
    let still : assign 0 (some (connection c.number)) t' c.nfd ≡ some (connection c.number) =
      rw n0 here in
    let second =
      dup2-open c.nfd 1 (assign 0 (some (connection c.number)) t') (connection c.number) still in
    rw (first, second, n1, n2, n', s1, s0, s) refl

-- What a run shows of the processes.
abbrev pub seen : ℕ → Run → List View × Bool
seen sfd run = (map (view sfd) run.started, run.exited)

add_view :
    (b : Bool) (sfd : ℕ) (v : View) (s : Started) (run : Run) (views : List View) (ended : Bool)
    → view sfd s ≡ v
    → seen sfd run ≡ (views, ended)
    → seen sfd (record run { started = if b then s ∷ run.started else run.started })
      ≡ (if b then v ∷ views else views, ended)
add_view true sfd v s run views ended e h = ap₂ (λ v r. (v ∷ r.0, r.1)) e h
add_view false sfd v s run views ended e h = h

loop-next :
    (sfd service : ℕ) (buffer : List ℕ) (r : Visit) (visits : List Visit) (t : Table)
    → choose (overwrite (take 100 r.bytes) buffer) ≡ some service
    → concurrent_loop sfd buffer (r ∷ visits) t ≡ (
        let later =
          concurrent_loop sfd
            (overwrite (take 100 r.bytes) buffer)
            visits
            (parent r.client (accept r.client t)) in
        let child = concurrent_child service sfd r.client.nfd (accept r.client t) in
        record later { started = if r.client.forked then child ∷ later.started else later.started })
unfolding concurrent_loop
loop-next sfd service buffer r visits t e = rw (e, concurrent_loop) refl

loop-exit :
    (sfd : ℕ) (buffer : List ℕ) (r : Visit) (visits : List Visit) (t : Table)
    → choose (overwrite (take 100 r.bytes) buffer) ≡ none
    → concurrent_loop sfd buffer (r ∷ visits) t ≡ record { started = []; exited = true }
unfolding concurrent_loop
loop-exit sfd buffer r visits t e = rw (e, concurrent_loop) refl

empty_run :
    (sfd : ℕ) (buffer : List ℕ) (t : Table)
    → seen sfd (concurrent_loop sfd buffer [] t) ≡ ([], false)
unfolding concurrent_loop
empty_run sfd buffer t = refl

loop-all_given :
    (sfd : ℕ) (previous : Option ℕ) (k : ℕ) (visits : List Visit) (t : Table)
    → 1 < sfd
    → IsService previous
    → all_visits sfd visits ≡ true
    → length (line previous) + k ≡ 250
    → seen sfd (concurrent_loop sfd (buffer_of previous k) visits t)
      ≡ (all_given previous visits, ends previous visits)
loop-all_given sfd previous k [] t output valid h full = empty_run sfd (buffer_of previous k) t
loop-all_given sfd previous k (r ∷ visits) t output valid h full =
    let text : has_zero r.bytes ≡ false = ground (arith, h) in
    let short : length r.bytes < 101 = ground (arith, h) in
    let other : (r.client.nfd == sfd) ≡ false = ground (arith, h) in
    let input : 1 < r.client.nfd = ground (arith, h) in
    let later : all_visits sfd visits ≡ true = ground (arith, h) in
    let (chose, buffer) = choose-chosen previous k r.bytes valid text short full in
    elim (Option-cases (chosen previous r.bytes)) [
      | inl e ↦
          rw (loop-exit sfd (buffer_of previous k) r visits t (chose ∙ e), e, all_given, ends) refl
      | inr (service, e) ↦
          let (left, written, full', valid') = buffer service e in
          let t' = accept r.client t in
          rw
            (
              loop-next sfd service (buffer_of previous k) r visits t (chose ∙ e),
              e,
              written,
              all_given,
              ends,
            )
            (add_view r.client.forked sfd (given service r.client)
              (concurrent_child service sfd r.client.nfd t')
              (concurrent_loop sfd (buffer_of (some service) left) visits (parent r.client t'))
              (all_given (some service) visits) (ends (some service) visits)
              (child-given service sfd r.client t other input output)
              (loop-all_given sfd (some service) left visits (parent r.client t') output valid'
                later full'))
    ]

-- The clients get, one after the other, the program of their choice with their connection as its input and output and
-- without the socket of the server, where a client that sends only the digit, or nothing, is read with what the one
-- before it has left in the buffer; the first choice that is none ends the server, and the clients after it get
-- nothing. The descriptors of the socket and of the connections are behind 1 and differ, and a client sends
-- at most 100 bytes and no zero.
pub concurrent-all_given :
    (sfd : ℕ) (visits : List Visit) (t : Table)
    → 1 < sfd
    → all_visits sfd visits ≡ true
    → seen sfd (concurrent sfd visits t) ≡ (all_given none visits, ends none visits)
unfolding concurrent
concurrent-all_given sfd visits t output h =
    loop-all_given sfd none 250 visits (assign sfd (some (listener 0)) t) output tt h refl

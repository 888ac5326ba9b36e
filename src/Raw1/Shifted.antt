-- ===== src/Raw1/Shifted.antt =====
-- What is left of a packet behind its header.
use cn.Base.{
  ℕ, zero, suc, ◌+◌, ◌*◌, ◌<◌, ◌≤◌, ◌≡◌, refl, ap, ◌∙◌, true, false, ◌&&◌, some, List, [], ◌∷◌,
  ◌++◌, ◌==◌, take, get_or, length, length-append, take-all, subst, if◌then◌else◌, leb, ltb, arith,
  Bool-cases, inl, inr,
}
use cn.Nfs.Text.{text}
use cn.Readers.{has_zero}
use cn.Sniffer.{recvfrom, print_ip_header}
use cn.Raw1.{
  hello_message, write, shift_loop, print_message, Header, raw_print_ip_header, receive_raw,
}

shift_loop-lookup :
    (left i : ℕ) (msg : ℕ → ℕ) (x : ℕ)
    → shift_loop left i msg x ≡ (if leb i x && ltb x (i + left) then msg (20 + x) else msg x)
unfolding shift_loop
shift_loop-lookup zero i msg x = ground arith
shift_loop-lookup (suc left) i msg x =
    shift_loop-lookup left (i + 1) (write i (msg (20 + i)) msg) x ∙ (elim (Bool-cases (x == i)) [
      | inl e ↦
          let same : x ≡ i = ground (arith, e) in
          let n : (20 + x == i) ≡ false = ground (arith, e) in rw (e, n, same) (ground arith)
      | inr n ↦ rw n (ground (arith, n))
    ])

get_or-behind :
    (header payload : List ℕ) (x d : ℕ)
    → get_or (header ++ payload) (length header + x) d ≡ get_or payload x d
get_or-behind [] payload x d = let e : 0 + x ≡ x = omega arith in rw e refl
get_or-behind (h ∷ header) payload x d =
    let e : suc (length header) + x ≡ suc (length header + x) = omega arith in
    rw e (get_or-behind header payload x d)

-- The bytes of the message, and behind it what was in the buffer.
abbrev pub behind : List ℕ → (ℕ → ℕ) → ℕ → ℕ
behind payload old x = get_or payload x (old (20 + x))

-- A packet with a header of twenty bytes, moved to the front.
shifted-behind :
    (header payload : List ℕ) (old : ℕ → ℕ) (x : ℕ)
    → length header ≡ 20
    → length payload ≤ 80
    → x < 80
    → shift_loop 80 0 (recvfrom (take 100 (header ++ payload)) old) x ≡ behind payload old x
unfolding recvfrom
shifted-behind header payload old x twenty fits inside =
    let packet = header ++ payload in
    let whole : take 100 packet ≡ packet =
      take-all 100 packet (omega (arith, length-append header payload)) in
    let within : (leb 0 x && ltb x (0 + 80)) ≡ true = ground arith in
    rw (shift_loop-lookup 80 0 (recvfrom (take 100 packet) old) x, within, whole)
      (subst (λ n. get_or packet (n + x) (old (20 + x)) ≡ get_or payload x (old (20 + x))) twenty
        (get_or-behind header payload x (old (20 + x))))

print_message-bytes :
    (s : List ℕ) (room : ℕ) (msg : ℕ → ℕ) (k : ℕ)
    → has_zero s ≡ false
    → length s < room
    → ((i : ℕ) → i ≤ length s → msg (k + i) ≡ get_or s i 0)
    → print_message room msg k ≡ some s
unfolding print_message
print_message-bytes s zero msg k h fits reads = absurd (omega arith)
print_message-bytes [] (suc room) msg k h fits reads =
    let here : k + 0 ≡ k = omega arith in
    rw (subst (λ x. msg x ≡ 0) here (reads 0 (omega arith))) refl
print_message-bytes (c ∷ s) (suc room) msg k h fits reads =
    let here : k + 0 ≡ k = omega arith in
    let more : (c == 0) ≡ false = ground (arith, h) in
    let later =
      print_message-bytes s room msg (k + 1) (ground (arith, h)) (omega arith) (λ i inside.
        let next : k + 1 + i ≡ k + suc i = omega arith in
        ap msg next ∙ reads (suc i) (omega arith)) in
    rw (subst (λ x. msg x ≡ c) here (reads 0 (omega arith)), more, later) refl

print_ip_header-same :
    (a b : ℕ → ℕ) → ((x : ℕ) → x < 80 → a x ≡ b x) → raw_print_ip_header a ≡ raw_print_ip_header b
unfolding raw_print_ip_header print_ip_header
print_ip_header-same a b h =
    rw
      (
        h 0 (omega arith),
        h 1 (omega arith),
        h 2 (omega arith),
        h 3 (omega arith),
        h 4 (omega arith),
        h 5 (omega arith),
        h 6 (omega arith),
        h 7 (omega arith),
        h 8 (omega arith),
        h 9 (omega arith),
        h 10 (omega arith),
        h 11 (omega arith),
        h 12 (omega arith),
        h 13 (omega arith),
        h 14 (omega arith),
        h 15 (omega arith),
        h 16 (omega arith),
        h 17 (omega arith),
        h 18 (omega arith),
        h 19 (omega arith),
      )
      refl

-- The numbers that stand where the message is read as an IP header: its characters, the two bytes that were sent
-- behind them, and the bytes of the buffer from the 28th on.
abbrev pub hello_header : ℕ → ℕ → (ℕ → ℕ) → Header
hello_header junk₁ junk₂ old = record {
  ip = record {
    version = 4;
    dwords = 8;
    header_length = 32;
    tos = 101;
    tot_len = 27756;
    id = 28416;
    ttl = old 28;
    protocol = old 29;
    check = old 30 * 256 + old 31;
    saddr = old 32 ∷ old 33 ∷ old 34 ∷ old 35 ∷ [];
    daddr = old 36 ∷ old 37 ∷ old 38 ∷ old 39 ∷ [];
  };
  frag_off = junk₁ + junk₂ * 256;
}

hello_message-bytes :
    (junk₁ junk₂ : ℕ) (old : ℕ → ℕ) (i : ℕ)
    → i ≤ 5
    → behind (hello_message junk₁ junk₂) old i ≡ get_or (text "Hello") i 0
unfolding hello_message
hello_message-bytes junk₁ junk₂ old zero h = refl
hello_message-bytes junk₁ junk₂ old (suc zero) h = refl
hello_message-bytes junk₁ junk₂ old (suc (suc zero)) h = refl
hello_message-bytes junk₁ junk₂ old (suc (suc (suc zero))) h = refl
hello_message-bytes junk₁ junk₂ old (suc (suc (suc (suc zero)))) h = refl
hello_message-bytes junk₁ junk₂ old (suc (suc (suc (suc (suc zero))))) h = refl
hello_message-bytes junk₁ junk₂ old (suc (suc (suc (suc (suc (suc i)))))) h = absurd (omega arith)

hello_message-read_as_header :
    (junk₁ junk₂ : ℕ) (old : ℕ → ℕ)
    → raw_print_ip_header (behind (hello_message junk₁ junk₂) old) ≡ hello_header junk₁ junk₂ old
unfolding hello_message raw_print_ip_header print_ip_header
hello_message-read_as_header junk₁ junk₂ old = refl

length-hello_message_message : (junk₁ junk₂ : ℕ) → length (hello_message junk₁ junk₂) ≡ 8
unfolding hello_message
length-hello_message_message junk₁ junk₂ = refl

-- Whatever header of twenty bytes the kernel puts in front of the server's message, and whatever is in the buffer,
-- the client prints "Hello"; what it then prints as the IP header is not that header, which is overwritten, but the
-- message and the old bytes of the buffer, read as one.
pub receive_raw-hello :
    (header : List ℕ) (junk₁ junk₂ : ℕ) (old : ℕ → ℕ)
    → length header ≡ 20
    → receive_raw old (header ++ hello_message junk₁ junk₂)
      ≡ some (text "Hello", hello_header junk₁ junk₂ old)
unfolding receive_raw
receive_raw-hello header junk₁ junk₂ old twenty =
    let msg = shift_loop 80 0 (recvfrom (take 100 (header ++ hello_message junk₁ junk₂)) old) in
    let moved : (x : ℕ) → x < 80 → msg x ≡ behind (hello_message junk₁ junk₂) old x = λ x inside.
      shifted-behind header (hello_message junk₁ junk₂) old x twenty
        (omega (arith, length-hello_message_message junk₁ junk₂)) inside in
    let printed = print_message-bytes (text "Hello") 100 msg 0 refl (omega arith) (λ i inside.
      let here : 0 + i ≡ i = omega arith in
      ap msg here ∙ moved i (omega arith) ∙ hello_message-bytes junk₁ junk₂ old i (omega arith)) in
    let as_header =
      print_ip_header-same msg (behind (hello_message junk₁ junk₂) old) moved
      ∙ hello_message-read_as_header junk₁ junk₂ old in
    rw (printed, as_header) refl

-- ===== src/Raw/Sending.antt =====
-- The packets that the programs of rawsockets/basic send.
use cn.Base.{
  ℕ, zero, suc, ◌+◌, ◌-◌, ◌*◌, ◌≤◌, ◌<◌, ◌≡◌, refl, sym, ap, ◌∙◌, true, false, some, List, [], ◌∷◌,
  ◌++◌, ◌==◌, arith, length, replicate, take, length-append, append_assoc, Returns,
}
use cn.Base.Int.{ℤ, is_negative}
use cn.Checksum.{compute_checksum}
use cn.Checksum.Fold.{IsBytes, compute_checksum-Stands}
use cn.Checksum.Verify.{set_word, get_word, HasWord, compute_checksum-set_word}
use cn.Packet.Segment.{append-IsBytes}
use cn.Raw.{
  csum, ip_header, tcp_header, udp_header, Call, sent, send_loop, fabricate, send_packet, send_tcp,
  send_udp,
}
use cn.Raw.Sum.{csum-compute_checksum, csum-zeros}

set_word-append :
    (a b : List ℕ) (i w : ℕ) → HasWord a i → set_word (a ++ b) i w ≡ set_word a i w ++ b
set_word-append [] b i w h = absurd h
set_word-append (x ∷ []) b i w h = absurd h
set_word-append (x ∷ y ∷ a) b zero w h = refl
set_word-append (x ∷ y ∷ a) b (suc i) w h = ap (λ t. x ∷ y ∷ t) (set_word-append a b i w h)

length-set_word : (a : List ℕ) (i w : ℕ) → length (set_word a i w) ≡ length a
length-set_word [] i w = refl
length-set_word (x ∷ []) i w = refl
length-set_word (x ∷ y ∷ a) zero w = refl
length-set_word (x ∷ y ∷ a) (suc i) w = ap (λ n. suc (suc n)) (length-set_word a i w)

take-block : (a b : List ℕ) (n : ℕ) → length a ≡ n → take n (a ++ b) ≡ a
take-block [] b zero h = refl
take-block [] b (suc n) h = absurd (omega (arith, h))
take-block (x ∷ a) b zero h = absurd (omega (arith, h))
take-block (x ∷ a) b (suc n) h = ap (◌∷◌ x) (take-block a b n (omega (arith, h)))

-- The headers with the checksum that the program puts into them, and its check over both.
unfoldable pub Verified : List ℕ → List ℕ → List ℕ → Type 0
Verified ip transport packet =
    (c : ℕ) × (packet ≡ set_word (ip ++ transport) 7 c) × (compute_checksum packet ≡ some 0)

-- Both headers have whole words, the word for the checksum is 0, and they are not too long.
unfoldable pub IsBlank : ℕ → List ℕ → Type 0
IsBlank n headers =
    (length headers ≡ 2 * n)
    × (n ≤ 1000)
    × IsBytes headers
    × HasWord headers 7
    × (get_word headers 7 ≡ 0)

fabricate-Verified :
    (n : ℕ) (ip transport : List ℕ)
    → IsBlank n (ip ++ transport)
    → Returns
        (λ buffer. Verified ip transport (take (length ip + length transport) buffer))
        (fabricate ip transport)
unfolding fabricate Verified IsBlank
fabricate-Verified n ip transport (size, short, bytes, word, blank) =
    let headers = ip ++ transport in
    let both : length ip + length transport ≡ 2 * n =
      omega (arith, size, length-append ip transport) in
    let zeros = 8192 - 2 * n in
    let (c, e, stands) = compute_checksum-Stands headers bytes in
    let summed : csum (2 * n) (headers ++ replicate zeros 0) ≡ some c =
      csum-zeros n zeros headers size (omega (arith, short))
      ∙ csum-compute_checksum n headers size (omega (arith, short)) bytes
      ∙ e in
    let packet = set_word headers 7 c in
    let buffer = packet ++ replicate zeros 0 in
    let joined : ip ++ (transport ++ replicate zeros 0) ≡ headers ++ replicate zeros 0 =
      sym (append_assoc ip transport (replicate zeros 0)) in
    let made : fabricate ip transport ≡ some buffer =
      rw (both, joined, summed) (ap some (set_word-append headers (replicate zeros 0) 7 c word)) in
    let kept : take (length ip + length transport) buffer ≡ packet =
      ap (λ k. take k buffer) both
      ∙ take-block packet (replicate zeros 0) (2 * n) (length-set_word headers 7 c ∙ size) in
    (buffer, made, (c, kept, rw kept (compute_checksum-set_word headers 7 c bytes word blank e)))

-- An address has four bytes.
unfoldable pub IsAddress : List ℕ → Type 0
IsAddress a = (length a ≡ 4) × IsBytes a

-- The call has its arguments, and the socket and its option are there.
pub record IsReady (call : Call) : Type 0 where
  pub arguments : call.argc ≡ 5
  pub source : IsAddress call.source
  pub dest : IsAddress call.dest
  pub socket : is_negative call.socket ≡ false
  pub option : is_negative call.setsockopt ≡ false

send_loop-bound : (n : ℕ) (results : List ℤ) → send_loop n results ≤ n
unfolding send_loop
send_loop-bound zero results = omega arith
send_loop-bound (suc n) [] = omega arith
send_loop-bound (suc n) (r ∷ results) = ground (arith, send_loop-bound n results)

fields-IsBytes :
    (protocol iph_len : ℕ)
    → protocol < 256
    → iph_len < 65536
    → IsBytes (ip_header protocol iph_len [] [])
fields-IsBytes protocol iph_len hp hl = omega (arith, hp, hl)

headers-IsBlank :
    (protocol iph_len : ℕ) (source dest transport : List ℕ) (n : ℕ)
    → protocol < 256
    → iph_len < 65536
    → IsAddress source
    → IsAddress dest
    → IsBytes transport
    → length transport + 24 ≡ 2 * n
    → n ≤ 1000
    → IsBlank n (ip_header protocol iph_len source dest ++ transport)
unfolding IsBlank IsAddress
headers-IsBlank protocol iph_len source dest transport n hp hl hs hd ht size hn =
    let addresses = source ++ dest in
    let tail : IsBytes (addresses ++ transport) =
      append-IsBytes addresses transport (append-IsBytes source dest hs.1 hd.1) ht in
    (
      omega (arith, length-append addresses transport, length-append source dest, hs.0, hd.0, size),
      hn,
      append-IsBytes (ip_header protocol iph_len [] []) (addresses ++ transport)
          (fields-IsBytes protocol iph_len hp hl) tail,
      tt,
      refl,
    )

-- When the program is called properly, it sends the packet over and over, at most 20 times.
send_packet-Verified :
    (call : Call) (ip transport : List ℕ) (n : ℕ)
    → IsReady call
    → IsBlank n (ip ++ transport)
    → (packet : List ℕ) × (k : ℕ) × (send_packet call ip transport
        ≡ some (sent packet call.source k))
      × (k ≤ 20)
      × Verified ip transport packet
unfolding send_packet
send_packet-Verified call ip transport n ready blank =
    let (buffer, made, verified) = fabricate-Verified n ip transport blank in
    let five : (call.argc == 5) ≡ true = ground (arith, ready.arguments) in
    (
      take (length ip + length transport) buffer,
      send_loop 20 call.sendto,
      rw (made, five, ready.socket, ready.option) refl,
      send_loop-bound 20 call.sendto,
      verified,
    )

tcp-IsBytes : (a b : ℕ) → IsBytes (tcp_header a b)
tcp-IsBytes a b = omega arith

udp-IsBytes : (a b : ℕ) → IsBytes (udp_header a b)
udp-IsBytes a b = omega arith

-- Called with five arguments, four-byte addresses and a socket that takes the option, client.c sends, to the
-- source address, at most 20 times, its two headers with a checksum in the word 7 that makes the checksum
-- of the whole packet 0: it is summed over the TCP header too, and not over the IP header alone.
pub send_tcp-Verified :
    (call : Call)
    → IsReady call
    → (packet : List ℕ) × (k : ℕ) × (send_tcp call ≡ some (sent packet call.source k))
      × (k ≤ 20)
      × Verified
          (ip_header 6 48 call.source call.dest)
          (tcp_header call.source_port call.dest_port)
          packet
unfolding send_tcp
send_tcp-Verified call ready =
    let transport = tcp_header call.source_port call.dest_port in
    send_packet-Verified call (ip_header 6 48 call.source call.dest) transport 24 ready (
      headers-IsBlank 6 48 call.source call.dest transport 24 (omega arith) (omega arith)
        ready.source ready.dest (tcp-IsBytes call.source_port call.dest_port) refl (omega arith))

-- The same of server.c, with a UDP header.
pub send_udp-Verified :
    (call : Call)
    → IsReady call
    → (packet : List ℕ) × (k : ℕ) × (send_udp call ≡ some (sent packet call.source k))
      × (k ≤ 20)
      × Verified
          (ip_header 17 32 call.source call.dest)
          (udp_header call.source_port call.dest_port)
          packet
unfolding send_udp
send_udp-Verified call ready =
    let transport = udp_header call.source_port call.dest_port in
    send_packet-Verified call (ip_header 17 32 call.source call.dest) transport 16 ready (
      headers-IsBlank 17 32 call.source call.dest transport 16 (omega arith) (omega arith)
        ready.source ready.dest (udp-IsBytes call.source_port call.dest_port) refl (omega arith))

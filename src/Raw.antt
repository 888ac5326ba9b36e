-- ===== src/Raw.antt =====
-- rawsockets/basic/client.c and server.c: a TCP and a UDP packet with hand-made headers, sent through raw
-- sockets. Memory is a list of bytes, as a little-endian host has it, with the layout of the x86 ABI: nine
-- bits of `iph_ihl` and `iph_ver` take two bytes, and a field of two or four bytes is aligned. Addresses
-- are what `inet_addr` returns, ports what `atoi` returns.
pub mod Sum
pub mod Sending
mod Tests
use cn.Base.{
  ℕ, zero, suc, ◌+◌, ◌-◌, ◌*◌, ◌/◌, ◌%◌, Bool, true, false, not, Option, none, some, List, [], ◌∷◌,
  ◌++◌, ◌==◌, if◌then◌else◌, ◌>>=◌, take, replicate, length,
}
use cn.Base.Int.{ℤ, is_negative}
use cn.Checksum.Verify.{set_word}
use cn.Packet.{htons, htonl}

-- The loop of `csum`: the sum of `n` words of memory, without a result if it is not there.
unfoldable pub sum_memory : ℕ → List ℕ → ℕ → Option ℕ
sum_memory zero buf sum = some sum
sum_memory (suc n) [] sum = none
sum_memory (suc n) (b ∷ []) sum = none
sum_memory (suc n) (b ∷ c ∷ buf) sum = sum_memory n buf (sum + (b + 256 * c))

-- `csum`
unfoldable pub csum : ℕ → List ℕ → Option ℕ
unfolding sum_memory
csum nwords buf = do
  sum ← sum_memory nwords buf 0
  let folded = sum / 65536 + sum % 65536
  some (65535 - (folded + folded / 65536) % 65536)

-- `struct ipheader` with its 24 bytes; the checksum is still 0, and so are the fields that are not set.
abbrev pub ip_header : ℕ → ℕ → List ℕ → List ℕ → List ℕ
ip_header iph_protocol iph_len source dest =
    5
    ∷ 4
    ∷ 16
    ∷ 0
    ∷ iph_len % 256
    ∷ iph_len / 256
    ∷ (htons 54321 ++ 0 ∷ 0 ∷ 0 ∷ 0 ∷ 64 ∷ iph_protocol ∷ 0 ∷ 0 ∷ (source ++ dest))

-- `struct tcpheader` of client.c, 24 bytes.
abbrev pub tcp_header : ℕ → ℕ → List ℕ
tcp_header srcport destport =
    htons srcport
    ++ (htons destport
        ++ (htonl 1 ++ 0 ∷ 0 ∷ 0 ∷ 0 ∷ (5 * 16) ∷ 0 ∷ 2 ∷ 0 ∷ (htons 32767 ++ replicate 6 0)))

-- `struct udpheader` of server.c, 8 bytes.
abbrev pub udp_header : ℕ → ℕ → List ℕ
udp_header srcport destport = htons srcport ++ (htons destport ++ (htons 8 ++ 0 ∷ 0 ∷ []))

abbrev pub pckt_len : ℕ
pckt_len = 8192

-- The arguments of the program, the results of `socket` and `setsockopt`, and those of `sendto`.
pub record Call : Type 0 where
  pub argc : ℕ
  pub source : List ℕ
  pub source_port : ℕ
  pub dest : List ℕ
  pub dest_port : ℕ
  pub socket : ℤ
  pub setsockopt : ℤ
  pub sendto : List ℤ

-- How `main` ends: it stops early, or it has handed this packet to `sendto`, for this address, and so many
-- times with success.
pub data Ending : Type 0 where
  invalid_parameters no_socket no_option : Ending
  sent : List ℕ → List ℕ → ℕ → Ending

-- The loop over `count`, which a failed call leaves.
unfoldable pub send_loop : ℕ → List ℤ → ℕ
send_loop zero results = 0
send_loop (suc n) [] = 0
send_loop (suc n) (r ∷ results) =
    let later = send_loop n results in if is_negative r then 0 else suc later

-- The memory of the packet with its checksum: `csum` is told the size in bytes.
unfoldable pub fabricate : List ℕ → List ℕ → Option (List ℕ)
unfolding csum
fabricate ip transport = do
  let size = length ip + length transport
  let buffer = ip ++ (transport ++ replicate (pckt_len - size) 0)
  c ← csum size buffer
  some (set_word buffer 7 c)

-- The part of `main` that the two programs have in common: `sin`, the source, is where the packet is sent.
unfoldable pub send_packet : Call → List ℕ → List ℕ → Option Ending
unfolding fabricate send_loop
send_packet call ip transport = do
  buffer ← fabricate ip transport
  some (
      if not (call.argc == 5)
      then invalid_parameters
      else if is_negative call.socket
      then no_socket
      else if is_negative call.setsockopt
      then no_option
      else sent (take (length ip + length transport) buffer) call.source (send_loop 20 call.sendto))

-- `main` of client.c and of server.c.
unfoldable pub send_tcp : Call → Option Ending
unfolding send_packet
send_tcp call =
    send_packet call (ip_header 6 (24 + 24) call.source call.dest)
      (tcp_header call.source_port call.dest_port)

unfoldable pub send_udp : Call → Option Ending
unfolding send_packet
send_udp call =
    send_packet call (ip_header 17 (24 + 8) call.source call.dest)
      (udp_header call.source_port call.dest_port)

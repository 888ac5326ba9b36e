-- ===== src/Packet.antt =====
-- tcp_injection/TCP-Packet-Injection.c: a TCP segment built by hand in a buffer, with its checksums,
-- and sent through a raw socket. Blocks of memory are lists of bytes, as a little-endian host has them.
pub mod Layout
pub mod Segment
mod Tests
use cn.Base.{
  ℕ, zero, suc, ◌+◌, ◌-◌, ◌*◌, ◌/◌, ◌%◌, Bool, true, false, Option, none, some, List, [], ◌∷◌, ◌++◌,
  ◌==◌, if◌then◌else◌, ◌>>=◌, length, take, drop, replicate,
}
use cn.Base.Int.{ℤ, pos, negsuc, is_negative, eqb_ℤ}
use cn.Checksum.{compute_checksum}
use cn.Checksum.Verify.{set_word}

-- `htons` and `htonl`: the most significant byte is first in memory.
abbrev pub htons : ℕ → List ℕ
htons v = v / 256 % 256 ∷ v % 256 ∷ []

abbrev pub htonl : ℕ → List ℕ
htonl v = v / 16777216 % 256 ∷ v / 65536 % 256 ∷ v / 256 % 256 ∷ v % 256 ∷ []

abbrev pub data_size : ℕ
data_size = 100

-- `inet_addr` of SRC_IP and DST_IP.
abbrev pub src_ip : List ℕ
src_ip = 192 ∷ 168 ∷ 0 ∷ 10 ∷ []

abbrev pub dst_ip : List ℕ
dst_ip = 192 ∷ 168 ∷ 0 ∷ 11 ∷ []

abbrev pub protocol_tcp : ℕ
protocol_tcp = 6

-- The total length of the IP packet: both headers and the payload.
abbrev pub tot_len : ℕ
tot_len = 20 + 20 + data_size

-- CreateEthernetHeader: `struct ethhdr` has the destination first.
abbrev pub create_ethernet_header : List ℕ
create_ethernet_header = replicate 6 0xbb ++ (replicate 6 0xaa ++ htons 0x0800)

-- CreateIPHeader before the checksum is filled in.
abbrev pub ip_fields : List ℕ
ip_fields =
    (4 * 16 + 5)
    ∷ 0
    ∷ (htons tot_len ++ (htons 111 ++ (0 ∷ 0 ∷ 111 ∷ protocol_tcp ∷ 0 ∷ 0 ∷ (src_ip ++ dst_ip))))

-- CreateIPHeader.
unfoldable pub create_ip_header : Option (List ℕ)
create_ip_header = do c ← compute_checksum ip_fields; some (set_word ip_fields 5 c)

-- CreateTcpHeader: the byte of the flags is what `malloc` returned (`garbage`), with SYN set.
abbrev pub create_tcp_header : ℕ → List ℕ
create_tcp_header garbage =
    htons 80
    ++ (htons 100
        ++ (htonl 111
            ++ (htonl 111
                ++ (5 * 16)
                  ∷ (garbage - garbage / 2 % 2 * 2 + 2)
                  ∷ (htons 100 ++ 0 ∷ 0 ∷ 0 ∷ 0 ∷ []))))

-- PseudoHeader: an `unsigned long` has four bytes, or four more that are zero; `padding` is what
-- `malloc` left behind the last field, up to `sizeof(PseudoHeader)`.
abbrev pub pseudo_header : Bool → List ℕ → ℕ → List ℕ
pseudo_header long_is_64 padding segment_len =
    let rest : List ℕ = 0 ∷ protocol_tcp ∷ (htons segment_len ++ padding) in
    if long_is_64
    then src_ip ++ (0 ∷ 0 ∷ 0 ∷ 0 ∷ (dst_ip ++ (0 ∷ 0 ∷ 0 ∷ 0 ∷ rest)))
    else src_ip ++ (dst_ip ++ rest)

-- CreatePseudoHeaderAndComputeTcpChecksum: the header with its check field filled in.
unfoldable pub tcp_checksum : Bool → List ℕ → List ℕ → List ℕ → Option (List ℕ)
tcp_checksum long_is_64 padding tcp_header payload = do
  let segment_len = tot_len - 5 * 4
  c ← compute_checksum (pseudo_header long_is_64 padding segment_len ++ (tcp_header ++ payload))
  some (set_word tcp_header 8 c)

-- `memcpy(buffer + offset, block, ...)`
unfoldable pub memcpy : List ℕ → ℕ → List ℕ → List ℕ
memcpy buffer offset block = take offset buffer ++ (block ++ drop (offset + length block) buffer)

-- The four copies of `main` into the buffer that `malloc(pkt_len)` returned.
unfoldable pub assemble : List ℕ → List ℕ → List ℕ → List ℕ → List ℕ → List ℕ
assemble buffer ethernet ip tcp payload =
    memcpy (memcpy (memcpy (memcpy buffer 0 ethernet) 14 ip) (14 + 5 * 4) tcp) (14 + 5 * 4 + 5 * 4)
      payload

-- What the kernel, `malloc` and the clock give: the results of the calls, the memory, the payload.
pub record World : Type 0 where
  pub socket : ℤ
  pub ioctl : ℤ
  pub bind : ℤ
  pub write : ℤ
  pub long_is_64 : Bool
  pub flags : ℕ
  pub padding : List ℕ
  pub buffer : List ℕ
  pub payload : List ℕ

-- How `main` ends: `exit(-1)` in CreateRawSocket or BindRawSocketToInterface, or the packet that was
-- handed to `write`, and whether SendRawPacket reports success.
pub data Ended : Type 0 where
  no_socket no_interface not_bound : Ended
  written : List ℕ → Bool → Ended

abbrev pub minus_one : ℤ
minus_one = negsuc 0

-- `main`; `none` would be a checksum that does not end.
unfoldable pub inject : World → Option Ended
inject w =
    if eqb_ℤ w.socket minus_one
    then some no_socket
    else if eqb_ℤ w.ioctl minus_one
    then some no_interface
    else if eqb_ℤ w.bind minus_one
    then some not_bound
    else do
      ip ← create_ip_header
      tcp ← tcp_checksum w.long_is_64 w.padding (create_tcp_header w.flags) w.payload
      some (
          written (assemble w.buffer create_ethernet_header ip tcp w.payload)
            (eqb_ℤ w.write (pos (14 + tot_len))))

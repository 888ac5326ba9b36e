-- ===== src/Sniffer.antt =====
-- rawsockets/basic/newclient.c: packets from a raw socket, printed to a file. The buffer is the memory that
-- `malloc` returned, a function from the offset to the byte there; what is printed are the numbers behind
-- the labels, and the texts of PrintData as lists of character codes. A pointer has 8 bytes.
pub mod Dump
pub mod Reading
mod Tests
use cn.Base.{
  ℕ, zero, suc, ◌+◌, ◌-◌, ◌*◌, ◌/◌, ◌%◌, Bool, true, false, not, ◌&&◌, List, [], ◌∷◌, ◌==◌, leb,
  if◌then◌else◌, get_or, length,
}

-- `recvfrom`: the packet overwrites the beginning of the buffer.
unfoldable pub recvfrom : List ℕ → (ℕ → ℕ) → ℕ → ℕ
recvfrom packet old k = get_or packet k (old k)

-- `ntohs` of the two bytes at an offset, and the four bytes of an address.
abbrev pub ntohs : (ℕ → ℕ) → ℕ → ℕ
ntohs buffer k = buffer k * 256 + buffer (k + 1)

abbrev pub inet_ntoa : (ℕ → ℕ) → ℕ → List ℕ
inet_ntoa buffer k = buffer k ∷ buffer (k + 1) ∷ buffer (k + 2) ∷ buffer (k + 3) ∷ []

-- The bit-fields of the first byte of `struct iphdr`.
abbrev pub ihl : (ℕ → ℕ) → ℕ
ihl buffer = buffer 0 % 16

-- What print_ip_header prints.
pub record IpHeader : Type 0 where
  pub version : ℕ
  pub dwords : ℕ
  pub header_length : ℕ
  pub tos : ℕ
  pub tot_len : ℕ
  pub id : ℕ
  pub ttl : ℕ
  pub protocol : ℕ
  pub check : ℕ
  pub saddr : List ℕ
  pub daddr : List ℕ

unfoldable pub print_ip_header : (ℕ → ℕ) → IpHeader
print_ip_header buffer = record {
  version = buffer 0 / 16;
  dwords = ihl buffer;
  header_length = ihl buffer * 4;
  tos = buffer 1;
  tot_len = ntohs buffer 2;
  id = ntohs buffer 4;
  ttl = buffer 8;
  protocol = buffer 9;
  check = ntohs buffer 10;
  saddr = inet_ntoa buffer 12;
  daddr = inet_ntoa buffer 16;
}

-- The pieces that PrintData prints, each in front of what follows: a number of blanks, `%02X`, the column of
-- text_column, and the end of a line.
abbrev pub blanks : ℕ → List ℕ → List ℕ
blanks zero out = out
blanks (suc n) out = 32 ∷ blanks n out

abbrev pub hex_digit : ℕ → ℕ
hex_digit d = if leb d 9 then 48 + d else 55 + d

unfoldable pub hex : ℕ → List ℕ → List ℕ
hex b out = 32 ∷ hex_digit (b / 16) ∷ hex_digit (b % 16) ∷ out

unfoldable pub character : ℕ → ℕ
character b = if leb 32 b && leb b 128 then b else 46

unfoldable pub text_column : (ℕ → ℕ) → ℕ → ℕ → List ℕ → List ℕ
unfolding character
text_column bytes j zero out = out
text_column bytes j (suc n) out = character (bytes j) ∷ text_column bytes (j + 1) n out

-- The body of the loop over i, before and after the byte is printed.
unfoldable pub before_byte : (ℕ → ℕ) → ℕ → List ℕ → List ℕ
unfolding text_column
before_byte bytes i out =
    let margin = if i % 16 == 0 then blanks 3 out else out in
    if not (i == 0) && (i % 16 == 0)
    then blanks 9 (text_column bytes (i - 16) 16 (10 ∷ margin))
    else margin

unfoldable pub after_byte : (ℕ → ℕ) → ℕ → ℕ → List ℕ → List ℕ
unfolding text_column
after_byte bytes size i out =
    if i + 1 == size
    then blanks (3 * (15 - i % 16))
        (blanks 9 (text_column bytes (i - i % 16) (i % 16 + 1) (10 ∷ out)))
    else out

-- The loop of PrintData, with the number of bytes that are left.
unfoldable pub print_from : (ℕ → ℕ) → ℕ → ℕ → ℕ → List ℕ
unfolding before_byte hex after_byte
print_from bytes size i zero = []
print_from bytes size i (suc left) =
    before_byte bytes i
      (hex (bytes i) (after_byte bytes size i (print_from bytes size (i + 1) left)))

-- PrintData.
abbrev pub print_data : (ℕ → ℕ) → ℕ → List ℕ
print_data bytes size = print_from bytes size 0 size

-- What print_udp_packet prints.
pub record UdpPacket : Type 0 where
  pub ip : IpHeader
  pub source : ℕ
  pub dest : ℕ
  pub len : ℕ
  pub check : ℕ
  pub ip_bytes : List ℕ
  pub udp_bytes : List ℕ
  pub payload : List ℕ

unfoldable pub print_udp_packet : (ℕ → ℕ) → ℕ → UdpPacket
unfolding print_ip_header print_from
print_udp_packet buffer size =
    let iphdrlen = ihl buffer * 4 in
    record {
      ip = print_ip_header buffer;
      source = ntohs buffer iphdrlen;
      dest = ntohs buffer (iphdrlen + 2);
      len = ntohs buffer (iphdrlen + 4);
      check = ntohs buffer (iphdrlen + 6);
      ip_bytes = print_data buffer iphdrlen;
      udp_bytes = print_data (λ k. buffer (iphdrlen + k)) 8;
      payload = print_data (λ k. buffer (iphdrlen + 8 + k)) (size - 8 - iphdrlen);
    }

pub data Printed : Type 0 where
  printed_ip : IpHeader → Printed
  printed_udp : UdpPacket → Printed

-- ProcessPacket.
unfoldable pub process_packet : (ℕ → ℕ) → ℕ → Printed
unfolding print_ip_header print_udp_packet
process_packet buffer size =
    if buffer 9 == 17
    then printed_udp (print_udp_packet buffer size)
    else printed_ip (print_ip_header buffer)

-- `main`: the packets that come, up to a failed `recvfrom`; the buffer keeps what is not overwritten.
unfoldable pub sniff : (ℕ → ℕ) → List (List ℕ) → List Printed
unfolding recvfrom process_packet
sniff old [] = []
sniff old (packet ∷ packets) =
    let buffer = recvfrom packet old in process_packet buffer (length packet) ∷ sniff buffer packets

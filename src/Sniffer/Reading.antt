-- ===== src/Sniffer/Reading.antt =====
-- What the sniffer reads in the packets of the other programs.
use cn.Base.{ℕ, ◌/◌, ◌%◌, ◌≡◌, refl, List, [], ◌∷◌, ◌++◌}
use cn.Checksum.Verify.{set_word}
use cn.Raw.{ip_header}
use cn.Sniffer.{recvfrom, process_packet, print_ip_header, printed_ip, IpHeader}

-- The packets of rawsockets/basic, whose header has another layout, are read as packets of version 0 and
-- protocol 0, whatever protocol they were given, with an address made of the time to live, the protocol and
-- the checksum.
pub process_packet-fabricated :
    (protocol iph_len c : ℕ) (source dest transport : List ℕ) (old : ℕ → ℕ) (size : ℕ)
    → (h : IpHeader) × (process_packet
          (recvfrom (set_word (ip_header protocol iph_len source dest ++ transport) 7 c) old)
          size
        ≡ printed_ip h)
      × (h.version ≡ 0)
      × (h.protocol ≡ 0)
      × (h.ttl ≡ 0)
      × (h.saddr ≡ 64 ∷ protocol ∷ c % 256 ∷ c / 256 ∷ [])
unfolding process_packet print_ip_header recvfrom
process_packet-fabricated protocol iph_len c source dest transport old size = (
  print_ip_header
      (recvfrom (set_word (ip_header protocol iph_len source dest ++ transport) 7 c) old),
  refl,
  refl,
  refl,
  refl,
  refl,
)

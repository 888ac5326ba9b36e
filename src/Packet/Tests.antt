-- ===== src/Packet/Tests.antt =====
-- Runs of the packet builder, and its theorems at concrete inputs.
use cn.Base.{◌≡◌, refl, some, true, [], ◌∷◌, replicate, ◌>>=◌}
use cn.Base.Int.{pos}
use cn.Checksum.{compute_checksum}
use cn.Packet.{World, no_interface, inject, create_ip_header, minus_one}

abbrev world : World
world = record {
  socket = pos 3;
  ioctl = pos 0;
  bind = pos 0;
  write = pos 154;
  long_is_64 = true;
  flags = 0;
  padding = 0 ∷ 0 ∷ 0 ∷ 0 ∷ [];
  buffer = replicate 154 0xcc;
  payload = replicate 100 7;
}

ip_header_accepted : (create_ip_header >>= compute_checksum) ≡ some 0
unfolding create_ip_header compute_checksum
ip_header_accepted = refl

no_interface_stops : inject (record world { ioctl = minus_one }) ≡ some no_interface
unfolding inject
no_interface_stops = refl

-- ===== src/Raw/Tests.antt =====
-- A call of client.c, and a block of three words.
use cn.Base.{ℕ, List, [], ◌∷◌, ◌≡◌, ◌≤◌, refl, some, arith}
use cn.Base.Int.{pos, negsuc}
use cn.Raw.{Call, sent, send_tcp, ip_header, tcp_header}
use cn.Raw.Sending.{send_tcp-Verified, Verified, IsReady, IsAddress}

abbrev call : Call
call = record {
  argc = 5;
  source = 192 ∷ 168 ∷ 0 ∷ 10 ∷ [];
  source_port = 23;
  dest = 192 ∷ 168 ∷ 0 ∷ 11 ∷ [];
  dest_port = 8008;
  socket = pos 3;
  setsockopt = pos 0;
  sendto = pos 48 ∷ pos 48 ∷ negsuc 0 ∷ [];
}

call-IsReady : IsReady call
unfolding IsAddress
call-IsReady = record {
  arguments = refl;
  source = (refl, omega arith);
  dest = (refl, omega arith);
  socket = refl;
  option = refl;
}

send_tcp-Verified_example :
    (packet : List ℕ) × (k : ℕ) × (send_tcp call ≡ some (sent packet call.source k))
    × (k ≤ 20)
    × Verified (ip_header 6 48 call.source call.dest) (tcp_header 23 8008) packet
send_tcp-Verified_example = send_tcp-Verified call call-IsReady

abbrev words : List ℕ
words = 69 ∷ 0 ∷ 255 ∷ 255 ∷ 17 ∷ 200 ∷ []

-- ===== src/Raw1.antt =====
-- rawsockets/raw1: server.c sends "Hello" over a raw socket, and client.c moves what it receives to the front by the
-- twenty bytes of an IP header before it prints it. The buffer is a function from the offset to the byte there,
-- as in Sniffer; a pointer has 8 bytes.
pub mod Shifted
mod Tests
use cn.Base.{
  ℕ, zero, suc, ◌+◌, ◌*◌, Option, none, some, List, [], ◌∷◌, ◌++◌, ◌==◌, take, if◌then◌else◌, ◌>>=◌,
}
use cn.Nfs.Text.{text}
use cn.Sniffer.{recvfrom, IpHeader}

-- The server's message: as many bytes as the pointer `msg` has, of which `strcpy` has written six.
unfoldable pub hello_message : ℕ → ℕ → List ℕ
hello_message junk₁ junk₂ = text "Hello" ++ 0 ∷ junk₁ ∷ junk₂ ∷ []

abbrev pub write : ℕ → ℕ → (ℕ → ℕ) → ℕ → ℕ
write k b msg x = if x == k then b else msg x

-- `msg[i]=msg[20+i];` for i, i+1, ..., of which there are `left`.
unfoldable pub shift_loop : ℕ → ℕ → (ℕ → ℕ) → ℕ → ℕ
shift_loop zero i msg = msg
shift_loop (suc left) i msg = shift_loop left (i + 1) (write i (msg (20 + i)) msg)

-- `%s`, for a buffer with `room` bytes from k on; there is no result if the text goes on behind it.
unfoldable pub print_message : ℕ → (ℕ → ℕ) → ℕ → Option (List ℕ)
print_message zero msg k = none
print_message (suc room) msg k =
    let rest = print_message room msg (k + 1) in
    if msg k == 0 then some [] else rest >>= λ s. some (msg k ∷ s)

-- The header that print_ip_header prints: the numbers that newclient.c prints too, and the offset of the fragment, of
-- which the bytes are not swapped.
pub record Header : Type 0 where
  pub ip : IpHeader
  pub frag_off : ℕ

unfoldable pub raw_print_ip_header : (ℕ → ℕ) → Header
unfolding cn.Sniffer.print_ip_header
raw_print_ip_header msg = record {
  ip = cn.Sniffer.print_ip_header msg;
  frag_off = msg 6 + msg 7 * 256;
}

-- What the client prints for a packet, of which it takes at most 100 bytes. The other bytes of the buffer are those of
-- `old`.
unfoldable pub receive_raw : (ℕ → ℕ) → List ℕ → Option (List ℕ × Header)
unfolding shift_loop print_message raw_print_ip_header recvfrom
receive_raw old packet =
    let msg = shift_loop 80 0 (recvfrom (take 100 packet) old) in
    print_message 100 msg 0 >>= λ s. some (s, raw_print_ip_header msg)

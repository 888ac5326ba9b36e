-- ===== src/Packet/Segment.antt =====
-- The TCP checksum, against the check that a receiver makes: RFC 793's pseudo header of 12 bytes.
use cn.Base.{
  ℕ, zero, suc, ◌+◌, ◌-◌, ◌%◌, ◌<◌, ◌≤◌, ◌≡◌, ◌↔◌, ap, subst, Bool, true, false, List, [], ◌∷◌,
  ◌++◌, arith, some, inl, inr, Returns,
}
use cn.Checksum.{compute_checksum}
use cn.Checksum.Fold.{total, IsBytes, Stands, compute_checksum-Stands}
use cn.Checksum.Verify.{set_word, get_word, HasWord, total-set_word, set_word-IsBytes, lt_or_zero}
use cn.Packet.{htons, src_ip, dst_ip, protocol_tcp, pseudo_header, tcp_checksum}

-- The pseudo header of the protocol: the addresses, a zero byte, the protocol, the segment's length.
abbrev pub protocol_header : ℕ → List ℕ
protocol_header segment_len = src_ip ++ (dst_ip ++ 0 ∷ protocol_tcp ∷ htons segment_len)

abbrev pub IsEven : List ℕ → Type 0
IsEven [] = Unit
IsEven (x ∷ []) = ⊥
IsEven (x ∷ y ∷ xs) = IsEven xs

total-append : (a b : List ℕ) → IsEven a → total (a ++ b) ≡ total a + total b
total-append [] b h = omega arith
total-append (x ∷ []) b h = absurd h
total-append (x ∷ y ∷ a) b h = omega (arith, total-append a b h)

pub append-IsBytes : (a b : List ℕ) → IsBytes a → IsBytes b → IsBytes (a ++ b)
append-IsBytes [] b ha hb = hb
append-IsBytes (x ∷ a) b ha hb = (ha.0, append-IsBytes a b ha.1 hb)

total-pseudo_header :
    (long_is_64 : Bool) (padding rest : List ℕ) (n : ℕ)
    → IsEven padding
    → total (pseudo_header long_is_64 padding n ++ rest)
      ≡ total (protocol_header n ++ rest) + total padding
total-pseudo_header true padding rest n h = omega (arith, total-append padding rest h)
total-pseudo_header false padding rest n h = omega (arith, total-append padding rest h)

pseudo_header-IsBytes :
    (long_is_64 : Bool) (padding : List ℕ)
    → IsBytes padding
    → IsBytes (pseudo_header long_is_64 padding 120)
pseudo_header-IsBytes true padding h =
    append-IsBytes (pseudo_header true [] 120) padding (omega arith) h
pseudo_header-IsBytes false padding h =
    append-IsBytes (pseudo_header false [] 120) padding (omega arith) h

set_word-IsEven : (bs : List ℕ) (i w : ℕ) → IsEven bs → IsEven (set_word bs i w)
set_word-IsEven [] i w h = tt
set_word-IsEven (b ∷ []) i w h = h
set_word-IsEven (b ∷ c ∷ bs) zero w h = h
set_word-IsEven (b ∷ c ∷ bs) (suc i) w h = set_word-IsEven bs i w h

-- The receiver's sum lacks what the padding added to the sender's.
padded_sum :
    (t p c d : ℕ)
    → 0 < t
    → c < 65536
    → d < 65536
    → Stands (65535 - c) (t + p)
    → Stands (65535 - d) (t + c)
    → (d ≡ 0) ↔ (p % 65535 ≡ 0)
padded_sum t p c d ht hc hd a b =
    let present : 0 < 65535 - d = elim (lt_or_zero (65535 - d)) [
      | inl q ↦ q
      | inr z ↦ let none_left : t + c ≤ 0 = b.2 (omega arith) in absurd (omega arith)
    ] in
    ((λ z. omega (arith, a.0, b.0)), λ z. omega (arith, a.0, b.0))

module _ (long_is_64 : Bool) (padding tcp payload : List ℕ) (even : IsEven padding)
    (bytes : IsBytes padding) where
  -- For a TCP header with an empty check field and any payload, the checksum is computed and written
  -- into the header; a receiver accepts the segment exactly if the bytes that `malloc` left behind the
  -- pseudo header have a sum that is a multiple of 65535, as no bytes and zero bytes have.
  pub tcp_checksum-accepted :
      IsBytes tcp
      → IsBytes payload
      → IsEven tcp
      → HasWord tcp 8
      → get_word tcp 8 ≡ 0
      → Returns
          (λ h.
            (compute_checksum (protocol_header 120 ++ (h ++ payload)) ≡ some 0)
            ↔ (total padding % 65535 ≡ 0))
          (tcp_checksum long_is_64 padding tcp payload)
  unfolding tcp_checksum
  tcp_checksum-accepted ht hp te field empty =
      let block = pseudo_header long_is_64 padding 120 ++ (tcp ++ payload) in
      let (c, e, (small, stands)) = compute_checksum-Stands block (
        append-IsBytes (pseudo_header long_is_64 padding 120) (tcp ++ payload)
          (pseudo_header-IsBytes long_is_64 padding bytes) (append-IsBytes tcp payload ht hp)) in
      let h = set_word tcp 8 c in
      let segment = protocol_header 120 ++ (h ++ payload) in
      let (d, e', (small', stands')) = compute_checksum-Stands segment (
        append-IsBytes (protocol_header 120) (h ++ payload) (omega arith)
          (append-IsBytes h payload (set_word-IsBytes tcp 8 c small ht) hp)) in
      let sum = total (protocol_header 120 ++ (tcp ++ payload)) in
      let sent : total block ≡ sum + total padding =
        total-pseudo_header long_is_64 padding (tcp ++ payload) 120 even in
      let received : total segment ≡ sum + c = omega (
        arith,
        total-append h payload (set_word-IsEven tcp 8 c te),
        total-append tcp payload te,
        total-set_word tcp 8 c field,
      ) in
      let accepted =
        padded_sum sum (total padding) c d (omega arith) small small'
          (subst (Stands (65535 - c)) sent stands) (subst (Stands (65535 - d)) received stands') in
      (h, rw e, rw e' ((λ z. accepted.0 (ground (arith, z))), λ z. ap some (accepted.1 z)))

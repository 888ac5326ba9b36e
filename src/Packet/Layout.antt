-- ===== src/Packet/Layout.antt =====
-- The copies of `main` fill the whole buffer, one header behind the other.
use cn.Base.{
  ℕ, suc, ◌+◌, ◌*◌, ◌≡◌, refl, ap, List, [], ◌∷◌, ◌++◌, append-nil, append_assoc, arith, length,
  take, drop, length-append, length-drop,
}
use cn.Packet.{memcpy, assemble}

take_all : (a rest : List ℕ) → take (length a) (a ++ rest) ≡ a
take_all [] rest = refl
take_all (x ∷ a) rest = ap (◌∷◌ x) (take_all a rest)

drop_more : (a rest : List ℕ) (k : ℕ) → drop (length a + k) (a ++ rest) ≡ drop k rest
drop_more [] rest k = let e : 0 + k ≡ k = omega arith in ap (λ t. drop t rest) e
drop_more (x ∷ a) rest k =
    let e : suc (length a) + k ≡ suc (length a + k) = omega arith in rw e (drop_more a rest k)

-- A copy behind what is written so far.
memcpy_next :
    (a rest block : List ℕ) (offset : ℕ)
    → length a ≡ offset
    → memcpy (a ++ rest) offset block ≡ (a ++ block) ++ drop (length block) rest
unfolding memcpy
memcpy_next a rest block offset h = rw (
  ← h,
  take_all a rest,
  drop_more a rest (length block),
  append_assoc a block (drop (length block) rest),
)

empty_of_length : (xs : List ℕ) → length xs ≡ 0 → xs ≡ []
empty_of_length [] h = refl
empty_of_length (x ∷ xs) h = absurd (omega arith)

-- Whatever the buffer of 154 bytes held, it ends as the Ethernet header, the IP header, the TCP header
-- and the payload, in this order and with nothing between them or behind them.
pub assemble-append :
    (buffer ethernet ip tcp payload : List ℕ)
    → length buffer ≡ 154
    → length ethernet ≡ 14
    → length ip ≡ 20
    → length tcp ≡ 20
    → length payload ≡ 100
    → assemble buffer ethernet ip tcp payload ≡ ethernet ++ (ip ++ (tcp ++ payload))
unfolding assemble
assemble-append buffer e i t p hb he hi ht hp =
    let r0 = drop (length e) buffer in
    let r1 = drop (length i) r0 in
    let r2 = drop (length t) r1 in
    let size : length (drop (length p) r2) ≡ 0 = omega (
      arith,
      length-drop {A = ℕ} (length e) buffer,
      length-drop {A = ℕ} (length i) r0,
      length-drop {A = ℕ} (length t) r1,
      length-drop {A = ℕ} (length p) r2,
    ) in
    rw (
      memcpy_next [] buffer e 0 refl,
      memcpy_next e r0 i 14 he,
      memcpy_next (e ++ i) r1 t (14 + 5 * 4) (omega (arith, length-append e i)),
      memcpy_next ((e ++ i) ++ t) r2 p (14 + 5 * 4 + 5 * 4)
          (omega (arith, length-append e i, length-append (e ++ i) t)),
      empty_of_length (drop (length p) r2) size,
      append-nil (((e ++ i) ++ t) ++ p),
      append_assoc (e ++ i) t p,
      append_assoc e i (t ++ p),
    )

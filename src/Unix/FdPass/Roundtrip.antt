-- ===== src/Unix/FdPass/Roundtrip.antt =====
-- What is sent is received.
use cn.Base.{ℕ, ◌≡◌, refl, ◌∙◌, false, List, [], ◌∷◌, ◌++◌}
use cn.Base.Int.{ℤ}
use cn.Unix.FdPass.{
  Control, Message, is_rights, find_rights, send_file_descriptor, recv_file_descriptor, got,
}

-- Control messages that carry no descriptor.
abbrev pub IsNoise : List Control → Type 0
IsNoise [] = Unit
IsNoise (c ∷ cs) = (is_rights c ≡ false) × IsNoise cs

-- The message as it arrives, with control messages that the receiver's kernel adds.
abbrev pub with_noise : List Control → List Control → Message → Message
with_noise before after m = record m { controls = before ++ (m.controls ++ after) }

find_rights-append :
    (before later : List Control)
    → IsNoise before
    → find_rights (before ++ later) ≡ find_rights later
unfolding find_rights
find_rights-append [] later h = refl
find_rights-append (c ∷ before) later (e, h) = rw e (find_rights-append before later h)

find_rights-sent :
    (fd : ℤ) (after : List Control) → find_rights ((send_file_descriptor fd).controls ++ after) ≡ fd
unfolding find_rights send_file_descriptor
find_rights-sent fd after = refl

-- The receiver gets the descriptor that was sent, whatever control messages of other kinds come before
-- it, whatever comes after it, and however many bytes arrive.
pub recv_file_descriptor-send_file_descriptor :
    (n : ℕ) (before after : List Control) (fd : ℤ)
    → IsNoise before
    → recv_file_descriptor (got n (with_noise before after (send_file_descriptor fd))) ≡ fd
unfolding recv_file_descriptor
recv_file_descriptor-send_file_descriptor n before after fd h =
    find_rights-append before ((send_file_descriptor fd).controls ++ after) h
    ∙ find_rights-sent fd after

pub recv_file_descriptor-sent :
    (fd : ℤ) → recv_file_descriptor (got 0 (send_file_descriptor fd)) ≡ fd
unfolding send_file_descriptor
recv_file_descriptor-sent fd = recv_file_descriptor-send_file_descriptor 0 [] [] fd tt

-- ===== src/Crc/Tests.antt =====
-- Runs of errcorrection/crc1.c, and its theorems at concrete inputs.
use cn.Base.{ℕ, ◌≡◌, refl, some, true, false, List, [], ◌∷◌, ◌++◌, replicate}
use cn.Crc.{
  Input, sent, improper, xor_row, overrun, send, receive, receive_digits, divide, reduce, shift_in,
  all_zero,
}
use cn.Crc.Roundtrip.{IsRead, receive-send}

-- Generator x^3 + x + 1, frame 110101.
abbrev sample : Input
sample = record { n = 3; g = 1 ∷ 0 ∷ 1 ∷ 1 ∷ []; m = 5; a = 1 ∷ 1 ∷ 0 ∷ 1 ∷ 0 ∷ 1 ∷ [] }

abbrev quotient : List ℕ
quotient = 1 ∷ 1 ∷ 1 ∷ 1 ∷ 0 ∷ 1 ∷ []

abbrev remainder : List ℕ
remainder = 1 ∷ 1 ∷ 1 ∷ []

sample_transmitted : send sample ≡ sent quotient remainder (sample.a ++ remainder)
unfolding send divide reduce shift_in xor_row
sample_transmitted = refl

sample-IsRead : IsRead sample
sample-IsRead = record { generator = refl; frame = refl }

receive-send_example :
    (sample.a ++ remainder ≡ sample.a ++ remainder)
    × (◌≡◌ {A = ℕ} 3 3)
    × (receive 3 sample.g [] (sample.a ++ remainder) ≡ some (quotient, replicate 3 0, true))
receive-send_example = receive-send sample sample-IsRead sample_transmitted []

changed_digit : (receive_digits 3 sample.g [] (0 ∷ 1 ∷ 0 ∷ 1 ∷ 0 ∷ 1 ∷ remainder)).2 ≡ false
unfolding receive_digits divide reduce shift_in xor_row all_zero
changed_digit = refl

short_frame : send (record sample { m = 2; a = 1 ∷ 1 ∷ 0 ∷ [] }) ≡ improper
unfolding send
short_frame = refl

-- Sixteen digits and two zeros.
too_long : send (record { n = 2; g = 1 ∷ 0 ∷ 1 ∷ []; m = 15; a = replicate 16 1 }) ≡ overrun
unfolding send divide reduce shift_in xor_row
too_long = refl

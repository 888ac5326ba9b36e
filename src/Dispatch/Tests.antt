-- ===== src/Dispatch/Tests.antt =====
-- The request "s2|-7|1200", and one of s1 alone, which has no arguments for it.
use cn.Base.{◌≡◌, refl, none, arith, Returns}
use cn.Base.Int.{pos, negsuc, ◌+ℤ◌}
use cn.Nfs.Text.{text, atoi, strtok}
use cn.Decimal.{print_int, print_digits}
use cn.Dispatch.{respond, dispatch, s1}
use cn.Dispatch.Sum.{IsShort, sum_request, respond-sum_request}

minus_seven-IsShort : IsShort (negsuc 6)
unfolding print_int print_digits
minus_seven-IsShort = omega arith

twelve_hundred-IsShort : IsShort (pos 1200)
unfolding print_int print_digits
twelve_hundred-IsShort = omega arith

respond-sum_request_example :
    Returns
      (λ answer. (answer ≡ print_int (negsuc 6 +ℤ pos 1200)) × (atoi answer ≡ negsuc 6 +ℤ pos 1200))
      (respond (sum_request (negsuc 6) (pos 1200)))
unfolding cn.Base.Int.◌+ℤ◌
respond-sum_request_example =
    respond-sum_request (negsuc 6) (pos 1200) minus_seven-IsShort twelve_hundred-IsShort refl refl
      refl

respond_s1 : respond (text "s1") ≡ none
unfolding respond dispatch s1 strtok
respond_s1 = refl

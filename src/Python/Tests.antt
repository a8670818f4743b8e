-- ===== src/Python/Tests.antt =====
-- Runs of the text functions on inputs of the program's own tests.
use flephant.Base.{◌≡◌, refl, true}
use flephant.Python.Text.{lower, upper, strip, isdigit, zfill, decimal}

zfill_short : zfill 6 "5930" ≡ "005930"
unfolding zfill
zfill_short = refl

zfill_sign : zfill 6 "-35" ≡ "-00035"
unfolding zfill
zfill_sign = refl

strip_both : strip "  PASS " ≡ "PASS"
unfolding strip
strip_both = refl

lower_buy : lower "BUY" ≡ "buy"
unfolding lower
lower_buy = refl

upper_pass : upper "Pass" ≡ "PASS"
unfolding upper
upper_pass = refl

isdigit_ticker : isdigit "005930" ≡ true
unfolding isdigit
isdigit_ticker = refl

decimal_code : decimal 5930 ≡ "5930"
unfolding decimal
decimal_code = refl

decimal_zero : decimal 0 ≡ "0"
unfolding decimal
decimal_zero = refl

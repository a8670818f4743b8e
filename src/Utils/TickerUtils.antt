-- ===== src/Utils/TickerUtils.antt =====
-- new/src/utils/ticker_utils.py: `pad_ticker` and `is_valid_ticker`.
use Prim.Native.String.{count}
use flephant.Base.{String, Bool, ◌&&◌, ◌==◌}
use flephant.Python.Text.{zfill, isdigit}

unfoldable pub pad_ticker : String → String
unfolding zfill
pad_ticker ticker = zfill 6 ticker

unfoldable pub is_valid_ticker : String → Bool
unfolding isdigit
is_valid_ticker ticker = count ticker == 6 && isdigit ticker

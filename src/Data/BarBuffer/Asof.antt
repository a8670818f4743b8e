-- ===== src/Data/BarBuffer/Asof.antt =====
-- `get_latest_asof` and `get_batch_asof`: the bars up to a time.
use flephant.Base.{
  String, Bool, true, false, Option, none, some, List, [], ◌∷◌, str_eq, if◌then◌else◌, keep, Dict,
  lookup, insert,
}
use flephant.Base.Int.{ℤ, leb_ℤ}
use flephant.Base.Result.{Result, ok, err}
use flephant.Python.Text.{replace_z}
use flephant.Python.Calendar.{Calendar}
use flephant.Python.Value.{Value, Fields, Runtime, null, str, get, text_of}
use flephant.Utils.TickerUtils.{pad_ticker}
use flephant.Data.BarBuffer.{BarBuffer, BufferError, invalid_datetime, latest}

module _ {F : Type 0} where
  -- `asof in (None, "")`
  unfoldable pub is_unset : Value F → Bool
  is_unset null = true
  is_unset (str s) = str_eq s ""
  is_unset _ = false

module _ {F : Type 0} ⦃py : Runtime F⦄ where
  module _ (cal : Calendar) where
    -- `_parse_bar_ts`
    unfoldable pub parse_bar_ts : Value F → Option ℤ
    parse_bar_ts value = cal.parse (replace_z (text_of value))

    -- a bar with a time that can be read and is not after the given one
    unfoldable pub is_asof : ℤ → Fields F → Bool
    is_asof asof bar = elim (parse_bar_ts (get "ts_close" bar)) [
      | none ↦ false
      | some instant ↦ leb_ℤ instant asof
    ]

    -- `get_latest_asof`
    unfoldable pub get_latest_asof :
        String → ℤ → Value F → BarBuffer F → Result BufferError (List (Fields F))
    get_latest_asof ticker n asof b =
        if is_unset asof then ok [] else (elim (lookup (pad_ticker ticker) b.buffers) [
          | none ↦ ok []
          | some bars ↦ elim (parse_bar_ts asof) [
            | none ↦ err invalid_datetime
            | some instant ↦ ok (latest n (keep (is_asof instant) bars))
          ]
        ])

    batch_asof_into :
        BarBuffer F
        → ℤ
        → Value F
        → Dict (List (Fields F))
        → List String
        → Result BufferError (Dict (List (Fields F)))
    batch_asof_into b n asof answer [] = ok answer
    batch_asof_into b n asof answer (ticker ∷ tickers) = elim (get_latest_asof ticker n asof b) [
      | err e ↦ err e
      | ok bars ↦ batch_asof_into b n asof (insert (pad_ticker ticker) bars answer) tickers
    ]

    -- `get_batch_asof`
    unfoldable pub get_batch_asof :
        List String → ℤ → Value F → BarBuffer F → Result BufferError (Dict (List (Fields F)))
    unfolding batch_asof_into
    get_batch_asof tickers n asof b = batch_asof_into b n asof [] tickers

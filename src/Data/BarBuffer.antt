-- ===== src/Data/BarBuffer.antt =====
-- new/src/data/bar_buffer.py: for each ticker the latest bars of a minute, at most so many. The time
-- stamps of bars are texts; a deque of bounded length is a list, the oldest bar first.
pub mod Asof
pub mod Stamps
pub mod Bounds
pub mod Latest
mod Examples
use flephant.Base.{
  ℕ, zero, suc, ◌-◌, String, Bool, true, false, not, Option, none, some, List, [], ◌∷◌, ◌++◌,
  str_eq, if◌then◌else◌, keep, length, drop, map, Dict, lookup, contains, insert,
}
use flephant.Base.Int.{ℤ, pos, negsuc, pos_part, ltb_ℤ, leb_ℤ}
use flephant.Base.Result.{Result, ok, err}
use flephant.Python.Text.{text_lt}
use flephant.Python.Value.{Value, Fields, Runtime, null, str, dict, get, get_or, has, put, text_of}
use flephant.Utils.TickerUtils.{pad_ticker}
use flephant.Execution.Gateway.Universe.{sorted_set}

pub record BarBuffer (F : Type 0) : Type 0 where
  pub max_bars : ℤ
  pub buffers : Dict (List (Fields F))

-- A ValueError by its cause; the last two are those of `deque` and `datetime.fromisoformat`.
pub data BufferError : Type 0 where
  not_a_dict negative_maxlen invalid_datetime : BufferError
  missing_fields : List String → BufferError

-- `_REQUIRED_FIELDS`, sorted
abbrev pub required_fields : List String
required_fields = "close" ∷ "high" ∷ "low" ∷ "open" ∷ "ticker" ∷ "ts_close" ∷ "volume" ∷ []

module _ {F : Type 0} where
  -- `BarBuffer(max_bars)`
  unfoldable pub empty_buffer : ℤ → BarBuffer F
  empty_buffer max_bars = record { max_bars = max_bars; buffers = [] }

  -- `_get_or_create`: the bars of a ticker, none for a new one
  unfoldable pub get_or_create : String → BarBuffer F → Result BufferError (List (Fields F))
  get_or_create ticker b = elim (lookup ticker b.buffers) [
    | some bars ↦ ok bars
    | none ↦ if ltb_ℤ b.max_bars (pos 0) then err negative_maxlen else ok []
  ]

  -- `deque.append` with a greatest length: the oldest bars give way
  unfoldable pub append_bounded : ℕ → List (Fields F) → Fields F → List (Fields F)
  append_bounded maxlen bars bar = drop (suc (length bars) - maxlen) (bars ++ bar ∷ [])

  -- `deque.extend`
  unfoldable pub extend_bounded : ℕ → List (Fields F) → List (Fields F) → List (Fields F)
  extend_bounded maxlen bars [] = bars
  extend_bounded maxlen bars (bar ∷ rest) =
      extend_bounded maxlen (append_bounded maxlen bars bar) rest

  -- `items[-n:]`, which is all of the list for `n = 0`
  unfoldable pub from_end : ℤ → List (Fields F) → List (Fields F)
  from_end (pos zero) bars = bars
  from_end (pos (suc n)) bars = drop (length bars - suc n) bars
  from_end (negsuc n) bars = drop (suc n) bars

  -- the end of `get_latest` and `get_latest_asof`
  unfoldable pub latest : ℤ → List (Fields F) → List (Fields F)
  latest n bars = if leb_ℤ (pos (length bars)) n then bars else from_end n bars

  -- `get_latest`
  unfoldable pub get_latest : String → ℤ → BarBuffer F → List (Fields F)
  get_latest ticker n b = elim (lookup (pad_ticker ticker) b.buffers) [
    | none ↦ []
    | some bars ↦ latest n bars
  ]

  batch_into : BarBuffer F → ℤ → Dict (List (Fields F)) → List String → Dict (List (Fields F))
  batch_into b n answer [] = answer
  batch_into b n answer (ticker ∷ tickers) =
      batch_into b n (insert (pad_ticker ticker) (get_latest ticker n b) answer) tickers

  -- `get_batch`
  unfoldable pub get_batch : List String → ℤ → BarBuffer F → Dict (List (Fields F))
  unfolding batch_into
  get_batch tickers n b = batch_into b n [] tickers

  -- the size of a ticker's buffer, 0 where there is none
  size_of : String → BarBuffer F → ℕ
  size_of ticker b = elim (lookup ticker b.buffers) [ none ↦ 0 | some bars ↦ length bars ]

  sizes_into : BarBuffer F → Dict ℕ → List String → Dict ℕ
  unfolding size_of
  sizes_into b answer [] = answer
  sizes_into b answer (ticker ∷ tickers) =
      sizes_into b (insert (pad_ticker ticker) (size_of (pad_ticker ticker) b) answer) tickers

  -- `missing_check`, but for the warnings
  unfoldable pub missing_check : List String → BarBuffer F → Dict ℕ
  unfolding sizes_into
  missing_check tickers b = sizes_into b [] tickers

  -- `clear`
  unfoldable pub clear : Option String → BarBuffer F → BarBuffer F
  clear none b = record b { buffers = [] }
  clear (some ticker) b =
      if contains (pad_ticker ticker) b.buffers
      then record b { buffers = insert (pad_ticker ticker) [] b.buffers }
      else b

  -- `tickers`
  unfoldable pub buffer_tickers : BarBuffer F → List String
  buffer_tickers b = sorted_set (map (λ e. e.0) b.buffers)

-- The calls that change a buffer.
pub data Call (F : Type 0) : Type 0 where
  pushes : Value F → Call F
  clears : Option String → Call F

module _ {F : Type 0} ⦃py : Runtime F⦄ where
  -- `str(bar.get("ts_close"))`
  unfoldable pub stamp : Fields F → String
  stamp bar = text_of (get "ts_close" bar)

  -- the bars with the new one in place of that of the same time, if there is one
  unfoldable pub replaced : String → Fields F → List (Fields F) → Option (List (Fields F))
  replaced ts bar [] = none
  replaced ts bar (existing ∷ rest) =
      let later = replaced ts bar rest in
      if str_eq (stamp existing) ts
      then some (bar ∷ rest)
      else (elim later [ none ↦ none | some bars ↦ some (existing ∷ bars) ])

  -- `items and ts_close < str(items[-1].get("ts_close", ""))`
  unfoldable pub is_late : String → List (Fields F) → Bool
  is_late ts [] = false
  is_late ts (bar ∷ []) = text_lt ts (text_of (get_or "ts_close" (str "") bar))
  is_late ts (bar ∷ next ∷ rest) = is_late ts (next ∷ rest)

  -- the bars of a ticker after a push
  unfoldable pub placed : ℕ → String → Fields F → List (Fields F) → List (Fields F)
  placed maxlen ts bar bars = elim (replaced ts bar bars) [
    | some items ↦ extend_bounded maxlen [] items
    | none ↦ if is_late ts bars then bars else append_bounded maxlen bars bar
  ]

  unfoldable pub normalized : Fields F → Fields F
  normalized bar = put "ticker" (str (pad_ticker (text_of (get "ticker" bar)))) bar

  push_into :
      Fields F
      → BarBuffer F
      → Result BufferError (List (Fields F))
      → Result BufferError (Unit {0}) × BarBuffer F
  push_into bar b (err e) = (err e, b)
  push_into bar b (ok bars) = (
    ok tt,
    record b {
      buffers =
          insert (pad_ticker (text_of (get "ticker" bar)))
            (placed (pos_part b.max_bars) (stamp (normalized bar)) (normalized bar) bars) b.buffers;
    },
  )

  push_checked : Fields F → BarBuffer F → List String → Result BufferError (Unit {0}) × BarBuffer F
  unfolding push_into
  push_checked bar b [] =
      push_into bar b (get_or_create (pad_ticker (text_of (get "ticker" bar))) b)
  push_checked bar b (name ∷ names) = (err (missing_fields (name ∷ names)), b)

  -- `push`
  unfoldable pub push : Value F → BarBuffer F → Result BufferError (Unit {0}) × BarBuffer F
  unfolding push_checked
  push (dict bar) b = push_checked bar b (keep (λ name. not (has name bar)) required_fields)
  push _ b = (err not_a_dict, b)

  unfoldable pub step : BarBuffer F → Call F → BarBuffer F
  step b (pushes bar) = (push bar b).1
  step b (clears ticker) = clear ticker b

  unfoldable pub run : BarBuffer F → List (Call F) → BarBuffer F
  run b [] = b
  run b (c ∷ cs) = run (step b c) cs

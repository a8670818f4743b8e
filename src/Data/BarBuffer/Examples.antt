-- ===== src/Data/BarBuffer/Examples.antt =====
-- A buffer for two bars of each ticker, and three bars of a morning.
use flephant.Base.{
  String, false, not, ◌≡◌, refl, none, some, List, [], ◌∷◌, str_eq, keep, if◌then◌else◌,
}
use flephant.Base.Int.{ℤ, pos}
use flephant.Base.Result.{ok}
use flephant.Python.Calendar.{Calendar}
use flephant.Python.Value.{Fields, int, str, dict, field, end, has, text_of}
use flephant.Python.Text.{text_lt}
use flephant.Python.Whole.{whole}
use flephant.Utils.TickerUtils.{pad_ticker}
use flephant.Data.BarBuffer.{
  BarBuffer, empty_buffer, required_fields, get_or_create, replaced, is_late, stamp, normalized,
  push, get_latest, Call, pushes, clears, run, step, clear, placed, append_bounded, extend_bounded,
}
use flephant.Data.BarBuffer.Bounds.{IsWellFormed, run-empty_buffer-IsWellFormed}
use flephant.Data.BarBuffer.Latest.{ticker_of, push_newest}

abbrev bar : String → String → Fields ℤ
bar ticker ts = field "ticker" (str ticker) (
    field "ts_close" (str ts) (
      field "open" (int (pos 70)) (
        field "high" (int (pos 72)) (
          field "low" (int (pos 69))
            (field "close" (int (pos 71)) (field "volume" (int (pos 1000)) end))))))

abbrev calls : List (Call ℤ)
calls =
    pushes (dict (bar "5930" "09:01"))
    ∷ pushes (dict (bar "005930" "09:03"))
    ∷ pushes (dict (bar "5930" "09:02"))
    ∷ pushes (dict (bar "5930" "09:03"))
    ∷ pushes (dict (bar "5930" "09:04"))
    ∷ clears (some "660")
    ∷ pushes (str "no bar")
    ∷ []

run-empty_buffer-IsWellFormed_example : IsWellFormed (run (empty_buffer (pos 2)) calls)
run-empty_buffer-IsWellFormed_example = run-empty_buffer-IsWellFormed (pos 2) calls

-- The bar of 09:02 comes too late.
late_ignored : run (empty_buffer (pos 2)) calls ≡ record {
  max_bars = pos 2;
  buffers = ("005930", bar "005930" "09:03" ∷ bar "005930" "09:04" ∷ []) ∷ [];
}
unfolding run step push clear keep get_or_create empty_buffer pad_ticker text_of placed replaced
    is_late append_bounded extend_bounded stamp normalized text_lt
late_ignored = refl

abbrev buffer : BarBuffer ℤ
buffer = record {
  max_bars = pos 2;
  buffers = ("005930", bar "005930" "09:01" ∷ bar "005930" "09:03" ∷ []) ∷ [];
}

complete : keep (λ name. not (has name (bar "5930" "09:04"))) required_fields ≡ []
unfolding keep
complete = refl

buffered :
    get_or_create (pad_ticker (ticker_of (bar "5930" "09:04"))) buffer
    ≡ ok (bar "005930" "09:01" ∷ bar "005930" "09:03" ∷ [])
unfolding get_or_create pad_ticker text_of
buffered = refl

time_is_new :
    replaced
      (stamp (normalized (bar "5930" "09:04")))
      (normalized (bar "5930" "09:04"))
      (bar "005930" "09:01" ∷ bar "005930" "09:03" ∷ [])
    ≡ none
unfolding replaced stamp text_of normalized
time_is_new = refl

not_late :
    is_late
      (stamp (normalized (bar "5930" "09:04")))
      (bar "005930" "09:01" ∷ bar "005930" "09:03" ∷ [])
    ≡ false
unfolding is_late text_lt stamp text_of normalized
not_late = refl

push_newest_example :
    let r = push (dict (bar "5930" "09:04")) buffer in
    (r.0 ≡ ok tt)
    × (get_latest "5930" (pos 1) r.1 ≡ normalized (bar "5930" "09:04") ∷ [])
    × ((ticker : String) (n : ℤ)
        → str_eq (pad_ticker "5930") (pad_ticker ticker) ≡ false
        → get_latest ticker n r.1 ≡ get_latest ticker n buffer)
unfolding text_of
push_newest_example =
    push_newest (bar "5930" "09:04") buffer 1 (bar "005930" "09:01" ∷ bar "005930" "09:03" ∷ [])
      refl complete buffered time_is_new not_late

abbrev calendar : Calendar
calendar = record {
  parse = λ s.
      if str_eq s "09:01" then some (pos 1) else if str_eq s "09:03" then some (pos 3) else none;
  render = λ n. "";
  latest = pos 1000000000;
}

-- ===== src/Data/BarBuffer/Latest.antt =====
-- What a reader gets: the bar just pushed, and never a bar of the future.
use flephant.Base.{
  ℕ, suc, ◌-◌, ◌≤◌, String, false, not, ◌≡◌, refl, ap, ◌∙◌, ◌⊎◌, none, List, [], ◌∷◌, ◌++◌, arith,
  str_eq, eq_refl, length, length-append, drop, drop-append, keep, insert, lookup-insert,
  if◌then◌else◌,
}
use flephant.Base.Int.{ℤ, pos, pos_part}
use flephant.Base.Result.{ok}
use flephant.Python.Calendar.{Calendar}
use flephant.Python.Value.{Value, Fields, Runtime, dict, get, has, text_of}
use flephant.Utils.TickerUtils.{pad_ticker}
use flephant.Data.BarBuffer.{
  BarBuffer, required_fields, append_bounded, from_end, latest, get_latest, stamp, get_or_create,
  replaced, is_late, placed, normalized, push_into, push_checked, push,
}

module _ {F : Type 0} where
  drop_all : (xs : List (Fields F)) (x : Fields F) → drop (length xs) (xs ++ x ∷ []) ≡ x ∷ []
  drop_all [] x = refl
  drop_all (y ∷ xs) x = drop_all xs x

  latest-append : (xs : List (Fields F)) (x : Fields F) → latest (pos 1) (xs ++ x ∷ []) ≡ x ∷ []
  unfolding latest from_end
  latest-append [] x = refl
  latest-append (y ∷ xs) x = ground (arith, length-append (y ∷ xs) (x ∷ []), drop_all xs x)

  -- The newest of a bounded list is the bar that was appended.
  latest-append_bounded :
      (m : ℕ) (bars : List (Fields F)) (bar : Fields F)
      → latest (pos 1) (append_bounded (suc m) bars bar) ≡ bar ∷ []
  unfolding append_bounded
  latest-append_bounded m bars bar =
      let n = suc (length bars) - suc m in
      ap (latest (pos 1)) (drop-append n bars (bar ∷ []) (omega arith))
      ∙ latest-append (drop n bars) bar

  -- The last bars of a list: those before them, which are none if there were too few.
  abbrev pub IsEnd : ℕ → List (Fields F) → List (Fields F) → Type 0
  IsEnd n bars all =
      (older : List (Fields F)) × (older ++ bars ≡ all)
      × (length bars ≤ n)
      × ((length bars ≡ n) ⊎ (older ≡ []))

  get_latest-insert :
      (ticker key : String) (n : ℤ) (bars : List (Fields F)) (b : BarBuffer F)
      → get_latest ticker n (record b { buffers = insert key bars b.buffers })
        ≡ (if str_eq key (pad_ticker ticker) then latest n bars else get_latest ticker n b)
  unfolding get_latest
  get_latest-insert ticker key n bars b =
      ground (arith, lookup-insert key (pad_ticker ticker) bars b.buffers)

module _ {F : Type 0} ⦃py : Runtime F⦄ where
  -- the bars of the ticker of a bar
  abbrev pub ticker_of : Fields F → String
  ticker_of bar = text_of (get "ticker" bar)

  placed-latest :
      (m : ℕ) (bar : Fields F) (bars : List (Fields F))
      → replaced (stamp bar) bar bars ≡ none
      → is_late (stamp bar) bars ≡ false
      → latest (pos 1) (placed (suc m) (stamp bar) bar bars) ≡ bar ∷ []
  unfolding placed
  placed-latest m bar bars new next = ground (arith, latest-append_bounded m bars bar)

  -- A dict that has all required fields, with a time stamp that its ticker has no bar of and that is
  -- not before its last bar's, is accepted by a buffer with room for at least one bar; then it is
  -- the newest bar of its ticker, and no other ticker's bars change.
  pub push_newest :
      (bar : Fields F) (b : BarBuffer F) (m : ℕ) (bars : List (Fields F))
      → b.max_bars ≡ pos (suc m)
      → keep (λ name. not (has name bar)) required_fields ≡ []
      → get_or_create (pad_ticker (ticker_of bar)) b ≡ ok bars
      → replaced (stamp (normalized bar)) (normalized bar) bars ≡ none
      → is_late (stamp (normalized bar)) bars ≡ false
      → let r = push (dict bar) b in
        (r.0 ≡ ok tt)
        × (get_latest (ticker_of bar) (pos 1) r.1 ≡ normalized bar ∷ [])
        × ((ticker : String) (n : ℤ)
            → str_eq (pad_ticker (ticker_of bar)) (pad_ticker ticker) ≡ false
            → get_latest ticker n r.1 ≡ get_latest ticker n b)
  unfolding push push_checked push_into
  push_newest bar b m bars room complete there new next =
      let key = pad_ticker (ticker_of bar) in
      let bars' = placed (pos_part b.max_bars) (stamp (normalized bar)) (normalized bar) bars in
      rw (complete, there)
        (
          refl,
          get_latest-insert (ticker_of bar) key (pos 1) bars' b ∙ newest key,
          λ ticker n other. get_latest-insert ticker key n bars' b ∙ rw other refl,
        )
    where
      newest :
          (key : String)
          → (if str_eq key key
              then latest
                  (pos 1)
                  (placed (pos_part b.max_bars) (stamp (normalized bar)) (normalized bar) bars)
              else get_latest (ticker_of bar) (pos 1) b)
            ≡ normalized bar ∷ []
      newest key = rw (eq_refl key, room) (placed-latest m (normalized bar) bars new next)

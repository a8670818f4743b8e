-- ===== src/DynamicUniverse/Holdings/Cases.antt =====
-- The outcomes of a promotion: nothing changes, or the entry is added, which is then new and has room.
use flephant.Base.{
  String, true, false, not, ◌||◌, ◌≡◌, Option, none, some, arith, length, contains, insert,
  if_cases,
}
use flephant.Base.Int.{ℤ, pos, leb_ℤ}
use flephant.Python.Text.{zfill}
use flephant.Python.Calendar.{Calendar}
use flephant.Python.Value.{Runtime, text_of}
use flephant.DynamicUniverse.Admission.Extract.{is_ticker}
use flephant.DynamicUniverse.Admission.Types.{AdmissionEvent, event_fields}
use flephant.DynamicUniverse.Holdings.{
  Holding, HoldingsManager, current_total_weight, entry_for, promote_to_holdings,
}

module _ {F : Type 0} ⦃py : Runtime F⦄ (cal : Calendar) (now : ℤ) (fresh : String)
    (e : AdmissionEvent) (h : HoldingsManager F) where
  pub promote_cases :
      (P : Option (Holding F) × HoldingsManager F → Type 0)
      → P (none, h)
      → (is_ticker (zfill 6 e.ticker) ≡ true
          → contains (zfill 6 e.ticker) h.holdings ≡ false
          → leb_ℤ h.max_size (pos (length h.holdings)) ≡ false
          → let entry = entry_for cal now fresh (zfill 6 e.ticker) (event_fields e) h in
            P (some entry, record h { holdings = insert (zfill 6 e.ticker) entry h.holdings }))
      → P (promote_to_holdings cal now fresh (event_fields e) h)
  unfolding promote_to_holdings event_fields text_of
  promote_cases P kept added =
      if_cases P (not (is_ticker (zfill 6 e.ticker)) || contains (zfill 6 e.ticker) h.holdings)
        (λ bad. kept)
        λ new.
          if_cases P (leb_ℤ h.max_size (pos (length h.holdings))) (λ full. kept)
            λ room.
              if_cases P
                (py.lt h.total_max_weight (py.add (current_total_weight h) h.per_stock_max_weight))
                (λ heavy. kept) (λ light. added (ground (arith, new)) (ground (arith, new)) room)

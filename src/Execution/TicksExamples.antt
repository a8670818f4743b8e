-- ===== src/Execution/TicksExamples.antt =====
-- The ticks of a gateway with three bands, given out of order.
use flephant.Base.{true, false, ◌≡◌, refl, [], ◌∷◌, none, arith}
use flephant.Base.Int.{ℤ, pos}
use flephant.Python.Value.{Fields, Items, int, dict, list, nil, cons, end, field}
use flephant.Python.Whole.{whole}
use flephant.Execution.Gateway.Types.{Gateway}
use flephant.Execution.Gateway.Normalize.{load_price_tick_bands, tick_size_for_price}
use flephant.Execution.Gateway.Ticks.{tick_scan, tick_size_for_price-tick_scan}

abbrev band : ℤ → ℤ → Fields ℤ
band min_price tick_size = field "min_price" (int min_price) (field "tick_size" (int tick_size) end)

abbrev bands : Items ℤ
bands =
    cons (dict (band (pos 2000) (pos 5)))
      (cons (dict (band (pos 0) (pos 1))) (cons (dict (band (pos 5000) (pos 10))) nil))

abbrev gateway : Gateway ℤ
gateway = record {
  mode = "paper";
  live_enabled = false;
  slippage_bps = pos 5;
  allowed_order_types = [];
  first_band = record { min_price = pos 0; tick_size = pos 1 };
  more_bands =
      record { min_price = pos 2000; tick_size = pos 5 }
      ∷ record { min_price = pos 5000; tick_size = pos 10 }
      ∷ [];
  kill_switch = none;
  has_audit_logger = true;
  kis_client = none;
  live_approval_proof = end;
}

loaded : load_price_tick_bands (list bands) ≡ gateway.first_band ∷ gateway.more_bands
unfolding load_price_tick_bands flephant.Utils.SafeCast.safe_lossless_int
loaded = refl

tick_size_for_price-tick_scan_example :
    tick_size_for_price gateway (pos 3500)
    ≡ tick_scan (pos 3500) gateway.first_band.tick_size (gateway.first_band ∷ gateway.more_bands)
tick_size_for_price-tick_scan_example =
    tick_size_for_price-tick_scan (pos 3500) (λ low high h e. ground (arith, h, e)) gateway bands
      loaded

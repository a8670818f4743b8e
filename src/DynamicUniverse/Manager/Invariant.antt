-- ===== src/DynamicUniverse/Manager/Invariant.antt =====
-- What holds of the holdings and the candidates together, and that exits keep it.
use flephant.Base.{
  ◌≤◌, String, Bool, true, ◌≡◌, Option, some, arith, eq_iff, length, All, Dict, lookup, contains,
  erase, insert, IsKeyed, erase-IsKeyed, lookup-erase_self, lookup-erase_ne, length-erase-le,
  erase-All, if_cases, option_cases,
}
use flephant.Base.Int.{ℤ, pos_part}
use flephant.Python.Text.{zfill}
use flephant.Python.Calendar.{Calendar}
use flephant.Python.Value.{Fields, Runtime}
use flephant.DynamicUniverse.Admission.Types.{AdmissionEngine}
use flephant.DynamicUniverse.Admission.Handle.{remove_from_pool}
use flephant.DynamicUniverse.Holdings.{HoldingsManager, ExitReason, ExitEvent, remove}
use flephant.DynamicUniverse.Exit.{ExitEngine, evaluate}
use flephant.DynamicUniverse.Exit.Close.{IsNamed}
use flephant.DynamicUniverse.Exit.Keeps.{evaluate_keeps}

-- No ticker is held twice or is twice a candidate, holdings stand under their own tickers, both stay
-- within their sizes, and what is held is a candidate.
pub record IsWellFormed {F : Type 0} (h : HoldingsManager F) (a : AdmissionEngine F) : Type 0 where
  pub keyed : IsKeyed h.holdings
  pub named : All IsNamed h.holdings
  pub sized : length h.holdings ≤ pos_part h.max_size
  pub pool_keyed : IsKeyed a.candidate_pool
  pub pool_sized : length a.candidate_pool ≤ pos_part a.candidate_pool_max
  pub held_in_pool :
      (t : String) → contains t h.holdings ≡ true → contains t a.candidate_pool ≡ true

module _ {F : Type 0} where
  held_after :
      (k t : String) (h : HoldingsManager F) (a : AdmissionEngine F)
      → IsWellFormed h a
      → contains t (erase k h.holdings) ≡ true
      → contains t (erase k a.candidate_pool) ≡ true
  held_after k t h a w held = ground (
    arith,
    eq_iff k t,
    lookup-erase_self k h.holdings w.keyed,
    lookup-erase_ne k t h.holdings,
    lookup-erase_ne k t a.candidate_pool,
    w.held_in_pool t,
  )

  both_erased :
      (k : String) (now : ℤ) (h : HoldingsManager F) (a : AdmissionEngine F)
      → IsWellFormed h a
      → IsWellFormed
          (record h { holdings = erase k h.holdings })
          (record a {
            candidate_pool = erase k a.candidate_pool;
            cooldown_map = insert k now a.cooldown_map;
          })
  both_erased k now h a w = record {
    keyed = erase-IsKeyed k h.holdings w.keyed;
    named = erase-All IsNamed k h.holdings w.named;
    sized = omega (arith, length-erase-le k h.holdings, w.sized);
    pool_keyed = erase-IsKeyed k a.candidate_pool w.pool_keyed;
    pool_sized = omega (arith, length-erase-le k a.candidate_pool, w.pool_sized);
    held_in_pool = λ t held. held_after k t h a w held;
  }

  -- A holding that is removed leaves both.
  exit-IsWellFormed :
      (cal : Calendar) (now : ℤ) (fresh raw : String) (reason : ExitReason) (h : HoldingsManager F)
      (a : AdmissionEngine F) (event : ExitEvent F)
      → IsWellFormed h a
      → (remove cal now fresh raw reason h).0 ≡ some event
      → IsWellFormed (remove cal now fresh raw reason h).1 (remove_from_pool now raw a).1
  unfolding remove remove_from_pool
  exit-IsWellFormed cal now fresh raw reason h a event w =
      option_cases
        (λ (r : Option (ExitEvent F) × HoldingsManager F).
          r.0 ≡ some event → IsWellFormed r.1 (remove_from_pool now raw a).1)
        (lookup (zfill 6 raw) h.holdings) (λ absent e. cc)
        λ entry held e.
          if_cases
            (λ (q : Bool × AdmissionEngine F).
              IsWellFormed (record h { holdings = erase (zfill 6 raw) h.holdings }) q.1)
            (contains (zfill 6 raw) a.candidate_pool) (λ there. both_erased (zfill 6 raw) now h a w)
            (λ gone. absurd (ground (arith, w.held_in_pool (zfill 6 raw))))

  pub evaluate-IsWellFormed :
      ⦃py : Runtime F⦄ (cal : Calendar) (fresh : String → String) (x : ExitEngine F)
      (current_snapshot : Dict (Fields F)) (trigger_state : Option (Fields F)) (now time : ℤ)
      (h : HoldingsManager F) (a : AdmissionEngine F)
      → IsWellFormed h a
      → let r = evaluate cal fresh x current_snapshot trigger_state now time h a in
        IsWellFormed r.1 r.2
  evaluate-IsWellFormed cal fresh x current_snapshot trigger_state now time =
      evaluate_keeps cal fresh x current_snapshot trigger_state now time IsWellFormed
        λ raw reason h a event w e. exit-IsWellFormed cal now (fresh raw) raw reason h a event w e

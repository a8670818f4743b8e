-- ===== src/Ops/SafetyGuards/Raises.antt =====
-- When `check_all` raises, and what it leaves behind then.
use flephant.Base.{
  String, true, false, ◌≡◌, refl, ◌∙◌, ◌↔◌, ◌⊎◌, Option, none, some, List, [], ◌∷◌, arith, All,
  Dict, insert, if_cases,
}
use flephant.Base.Int.{ℤ, pos}
use flephant.Base.Result.{Result, ok, err, ◌>>=◌}
use flephant.Python.Value.{
  Value, Fields, Runtime, Raised, bool, int, float, str, has, get, get_or, text_of,
}
use flephant.Utils.TickerUtils.{pad_ticker}
use flephant.Execution.KillSwitch.{KillSwitch, check_daily_pnl}
use flephant.Execution.KillSwitch.Latch.{check_daily_pnl_lem}
use flephant.Ops.SafetyGuards.{GuardResult, SafetyGuards, mismatches}
use flephant.Ops.SafetyGuards.Checks.{
  Checked, to_int, parsed, quantities_loop, quantities, reconcile_positions, mismatches_guard,
  position_guard, pnl_guard, finished, checks, check_all,
}

-- The result is a value and no exception.
abbrev pub IsOk : {A : Type 0} → Result Raised A → Type 0
IsOk {A} r = (a : A) × (r ≡ ok a)

bind-IsOk :
    {A : Type 0} {B : Type 0} {P : Type 0} {Q : Type 0} (m : Result Raised A)
    (next : A → Result Raised B)
    → (IsOk m ↔ P)
    → ((a : A) → IsOk (next a) ↔ Q)
    → IsOk (m >>= next) ↔ (P × Q)
bind-IsOk (ok a) next h k = (λ r. (h.0 (a, refl), (k a).0 r), λ pq. (k a).1 pq.1)
bind-IsOk (err e) next h k =
    (λ r. absurd (ground (arith, r.1)), λ pq. absurd (ground (arith, (h.1 pq.0).1)))

parsed-IsOk : (o : Option ℤ) → IsOk (parsed o) ↔ ((n : ℤ) × (o ≡ some n))
unfolding parsed
parsed-IsOk none = (λ h. absurd (ground (arith, h.1)), λ h. absurd (ground (arith, h.1)))
parsed-IsOk (some n) = (λ h. (n, refl), λ h. (n, refl))

map-IsOk :
    {A : Type 0} {B : Type 0} (m : Result Raised A) (f : A → B)
    → IsOk (m >>= λ a. ok (f a)) ↔ IsOk m
map-IsOk (ok a) f = (λ r. (a, refl), λ r. (f a, refl))
map-IsOk (err e) f = (λ r. absurd (ground (arith, r.1)), λ r. absurd (ground (arith, r.1)))

module _ {F : Type 0} ⦃py : Runtime F⦄ where
  -- A value that stands for a whole number, or for a float that can be cut to one.
  abbrev pub IsReadable : Value F → Type 0
  IsReadable (bool b) = Unit
  IsReadable (int n) = Unit
  IsReadable (float x) = py.is_finite x ≡ true
  IsReadable (str s) = (n : ℤ) × (py.parse_int s ≡ some n)
  IsReadable _ = ⊥

  -- So is the quantity of every position that has a ticker; a missing one counts as 0.
  abbrev pub AreReadable : List (Fields F) → Type 0
  AreReadable ps = All (λ p. has "ticker" p ≡ true → IsReadable (get_or "qty" (int (pos 0)) p)) ps

  -- Both lists are, where both are given.
  abbrev pub BothReadable : Option (List (Fields F)) → Option (List (Fields F)) → Type 0
  BothReadable (some s) (some k) = AreReadable s × AreReadable k
  BothReadable _ _ = Unit

  to_int-IsOk : (v : Value F) → IsOk (to_int v) ↔ IsReadable v
  unfolding to_int
  to_int-IsOk (bool true) = (λ h. tt, λ h. (_, refl))
  to_int-IsOk (bool false) = (λ h. tt, λ h. (_, refl))
  to_int-IsOk (int n) = (λ h. tt, λ h. (_, refl))
  to_int-IsOk (float x) =
      if_cases (λ (r : Result Raised ℤ). IsOk r ↔ (py.is_finite x ≡ true)) (py.is_finite x)
        (λ e. (λ h. e, λ h. (_, refl)))
        (λ e. (λ h. absurd (ground (arith, h.1)), λ h. absurd (ground (arith, e, h))))
  to_int-IsOk (str s) = parsed-IsOk (py.parse_int s)
  to_int-IsOk _ = (λ h. absurd (ground (arith, h.1)), λ h. absurd h)

  quantities_loop-IsOk :
      (ps : List (Fields F)) (d : Dict ℤ) → IsOk (quantities_loop ps d) ↔ AreReadable ps
  unfolding quantities_loop
  quantities_loop-IsOk [] d = (λ h. tt, λ h. (d, refl))
  quantities_loop-IsOk (p ∷ ps) d =
      let qty = get_or "qty" (int (pos 0)) p in
      let rest = quantities_loop-IsOk ps d in
      let both =
        bind-IsOk (to_int qty)
          (λ n. quantities_loop ps (insert (pad_ticker (text_of (get "ticker" p))) n d))
          (to_int-IsOk qty)
          (λ n. quantities_loop-IsOk ps (insert (pad_ticker (text_of (get "ticker" p))) n d)) in
      if_cases (λ (r : Result Raised (Dict ℤ)). IsOk r ↔ AreReadable (p ∷ ps)) (has "ticker" p)
        (λ there. (λ r. (λ e. (both.0 r).0, (both.0 r).1), λ h. both.1 (h.0 there, h.1)))
        (λ absent. (λ r. (λ e. absurd (ground (arith, absent, e)), rest.0 r), λ h. rest.1 h.1))

  reconcile_positions-IsOk :
      (g : SafetyGuards F) (s k : List (Fields F))
      → IsOk (reconcile_positions g s k) ↔ (AreReadable s × AreReadable k)
  unfolding reconcile_positions quantities
  reconcile_positions-IsOk g s k =
      bind-IsOk (quantities_loop s []) _ (quantities_loop-IsOk s []) λ sys_map.
        let inner = map-IsOk (quantities_loop k []) (mismatches g.reconciliation_tol_qty sys_map) in
        let kis = quantities_loop-IsOk k [] in (λ r. kis.0 (inner.0 r), λ h. inner.1 (kis.1 h))

  position_guard-IsOk :
      (g : SafetyGuards F) (now : String) (system kis : Option (List (Fields F)))
      (r : GuardResult F)
      → IsOk (position_guard g now system kis r) ↔ BothReadable system kis
  unfolding position_guard
  position_guard-IsOk g now none kis r = (λ h. tt, λ h. (r, refl))
  position_guard-IsOk g now (some s) none r = (λ h. tt, λ h. (r, refl))
  position_guard-IsOk g now (some s) (some k) r =
      let inner = map-IsOk (reconcile_positions g s k) (λ found. mismatches_guard now found r) in
      let both = reconcile_positions-IsOk g s k in
      (λ h. both.0 (inner.0 h), λ h. inner.1 (both.1 h))

  finished-IsOk :
      (g : SafetyGuards F) (m : Result Raised (GuardResult F)) → IsOk (finished g m).0 ↔ IsOk m
  unfolding finished
  finished-IsOk g (ok r) = (λ h. (r, refl), λ h. (r, refl))
  finished-IsOk g (err e) = (λ h. absurd (ground (arith, h.1)), λ h. absurd (ground (arith, h.1)))

  finished_silent :
      (g : SafetyGuards F) (m : Result Raised (GuardResult F)) (e : Raised)
      → (finished g m).0 ≡ err e
      → (finished g m).1 ≡ []
  unfolding finished
  finished_silent g (ok r) e h = absurd (ground (arith, h))
  finished_silent g (err x) e h = refl

  -- `check_all` gives a result exactly if it is not given both lists of positions, or if in both every
  -- position with a ticker has a quantity that `int` can read, whatever the prices, the loss and the
  -- switch are. Where it raises, nothing is handed to the audit log. Even so, if a switch and a loss are
  -- given, and the switch was active or the loss has reached the threshold, the switch is active
  -- afterwards, also where the call raises.
  pub check_all_answers :
      (g : SafetyGuards F) (now : String) (c : Checked F)
      → let r = check_all g now c in
        (((result : GuardResult F) × (r.0 ≡ ok result))
          ↔ BothReadable c.system_positions c.kis_positions)
        × ((e : Raised) → r.0 ≡ err e → r.1 ≡ [])
        × ((k : KillSwitch F) (pnl : F)
            → g.kill ≡ some k
            → c.pnl ≡ some pnl
            → (k.active ≡ true) ⊎ (py.le pnl (py.neg k.threshold) ≡ true)
            → (k' : KillSwitch F) × (r.2.kill ≡ some k') × (k'.active ≡ true))
  unfolding check_all checks pnl_guard
  check_all_answers g now c =
      let found = checks g now c in
      let done = finished-IsOk g found.0 in
      let read = position_guard-IsOk g now c.system_positions c.kis_positions _ in
      (
        (λ h. read.0 (done.0 h), λ h. done.1 (read.1 h)),
        λ e h. finished_silent g found.0 e h,
        λ k pnl kill given loss.
            let (answer, k') = check_daily_pnl now pnl k in
            let daily = check_daily_pnl_lem now pnl k in
            (k', rw (kill, given) refl, daily.0 ∙ daily.2 loss),
      )

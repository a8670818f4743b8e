-- ===== src/DynamicUniverse/Manager/Admits.antt =====
-- Admissions and promotions keep the invariant of the manager.
use flephant.Base.{
  String, Bool, true, false, ◌≡◌, refl, subst, some, arith, eq_iff, eq_refl, length, contains,
  insert, insert-IsKeyed, lookup-insert, length-insert, insert-All_new,
}
use flephant.Base.Int.{ℤ, pos, leb_ℤ}
use flephant.Base.Result.{ok}
use flephant.Python.Text.{zfill}
use flephant.Python.Padding.{zfill-zfill}
use flephant.Python.Calendar.{Calendar}
use flephant.Python.Value.{Fields, Runtime, nonempty}
use flephant.DynamicUniverse.Admission.Types.{AdmissionEvent, AdmissionEngine, event_fields}
use flephant.DynamicUniverse.Admission.Extract.{is_ticker}
use flephant.DynamicUniverse.Admission.Handle.{is_admissible, admission_event, handle_event}
use flephant.DynamicUniverse.Admission.Cases.{Handled, admitted, handle_event_cases}
use flephant.DynamicUniverse.Holdings.{Holding, HoldingsManager, entry_for, promote_to_holdings}
use flephant.DynamicUniverse.Holdings.Cases.{promote_cases}
use flephant.DynamicUniverse.Exit.Close.{IsNamed}
use flephant.DynamicUniverse.Manager.Invariant.{IsWellFormed}

nonempty_of : (s : String) → is_ticker s ≡ true → nonempty s ≡ true
unfolding is_ticker
nonempty_of s h = ground (arith, h)

module _ {F : Type 0} where
  -- The ticker of an event is padded and in the pool.
  abbrev pub IsCandidate : AdmissionEvent → AdmissionEngine F → Type 0
  IsCandidate e a = (contains e.ticker a.candidate_pool ≡ true) × (zfill 6 e.ticker ≡ e.ticker)

  added-IsWellFormed :
      (ticker : String) (e : AdmissionEvent) (h : HoldingsManager F) (a : AdmissionEngine F)
      → IsWellFormed h a
      → contains ticker a.candidate_pool ≡ false
      → leb_ℤ a.candidate_pool_max (pos (length a.candidate_pool)) ≡ false
      → IsWellFormed h (record a { candidate_pool = insert ticker e a.candidate_pool })
  added-IsWellFormed ticker e h a w new room = record {
    keyed = w.keyed;
    named = w.named;
    sized = w.sized;
    pool_keyed = insert-IsKeyed ticker e a.candidate_pool w.pool_keyed;
    pool_sized = ground (arith, room, length-insert ticker e a.candidate_pool, new);
    held_in_pool =
        λ t held. ground (arith, lookup-insert ticker t e a.candidate_pool, w.held_in_pool t held);
  }

  added-IsCandidate :
      (raw : String) (e : AdmissionEvent) (a : AdmissionEngine F)
      → e.ticker ≡ zfill 6 raw
      → IsCandidate e (record a { candidate_pool = insert (zfill 6 raw) e a.candidate_pool })
  added-IsCandidate raw e a t = rw t (
    ground (
      arith,
      lookup-insert (zfill 6 raw) (zfill 6 raw) e a.candidate_pool,
      eq_refl (zfill 6 raw),
    ),
    zfill-zfill 6 raw,
  )

  promoted-IsWellFormed :
      (key : String) (entry : Holding F) (h : HoldingsManager F) (a : AdmissionEngine F)
      → IsWellFormed h a
      → IsNamed (key, entry)
      → contains key h.holdings ≡ false
      → leb_ℤ h.max_size (pos (length h.holdings)) ≡ false
      → contains key a.candidate_pool ≡ true
      → IsWellFormed (record h { holdings = insert key entry h.holdings }) a
  promoted-IsWellFormed key entry h a w named new room candidate = record {
    keyed = insert-IsKeyed key entry h.holdings w.keyed;
    named = insert-All_new IsNamed key entry h.holdings new named w.named;
    sized = ground (arith, room, length-insert key entry h.holdings, new);
    pool_keyed = w.pool_keyed;
    pool_sized = w.pool_sized;
    held_in_pool = λ t held.
        ground
          (arith, eq_iff key t, lookup-insert key t entry h.holdings, w.held_in_pool t, candidate);
  }

module _ {F : Type 0} ⦃py : Runtime F⦄ (cal : Calendar) where
  module _ (h : HoldingsManager F) where
    abbrev IsSound : Handled F → Type 0
    IsSound r = IsWellFormed h r.1 × ((e : AdmissionEvent) → r.0 ≡ ok (some e) → IsCandidate e r.1)

    pub handle_event-IsSound :
        (pit_skip : Bool) (now : ℤ) (fresh : String) (event : Fields F) (a : AdmissionEngine F)
        → IsWellFormed h a
        → IsSound (handle_event cal pit_skip now fresh event a)
    unfolding is_admissible admission_event
    handle_event-IsSound pit_skip now fresh event a w =
        handle_event_cases cal pit_skip now fresh event a IsSound (λ x. (w, λ e k. cc))
          (w, λ e k. cc)
          λ normal raw ids p. (
            added-IsWellFormed (zfill 6 raw) _ h a w (ground (arith, p.2)) p.4,
            λ e k.
                subst
                  (λ z. IsCandidate z (admitted cal pit_skip now fresh event a (zfill 6 raw) ids).1)
                  {x = admission_event cal now fresh (zfill 6 raw) ids a} {y = e}
                  (ground (arith, k))
                  (added-IsCandidate raw (admission_event cal now fresh (zfill 6 raw) ids a) a
                    refl),
          )

  pub promote-IsWellFormed :
      (now : ℤ) (fresh : String) (e : AdmissionEvent) (h : HoldingsManager F)
      (a : AdmissionEngine F)
      → IsWellFormed h a
      → IsCandidate e a
      → IsWellFormed (promote_to_holdings cal now fresh (event_fields e) h).1 a
  unfolding entry_for
  promote-IsWellFormed now fresh e h a w c =
      promote_cases cal now fresh e h (λ r. IsWellFormed r.1 a) w
        λ valid new room.
          promoted-IsWellFormed (zfill 6 e.ticker) _ h a w
            (zfill-zfill 6 e.ticker, nonempty_of (zfill 6 e.ticker) valid) new room
            (ground (arith, c.0, c.1))

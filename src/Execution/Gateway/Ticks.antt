-- ===== src/Execution/Gateway/Ticks.antt =====
-- The tick of a price: the loop that stops at the first band above the price finds what a search of
-- all the bands finds.
use flephant.Base.{
  true, false, ◌≡◌, refl, subst, sym, List, [], ◌∷◌, arith, if◌then◌else◌, if_cases, Bool-cases,
  inl, inr,
}
use flephant.Base.Int.{ℤ, ◌≤ℤ◌, leb_ℤ}
use flephant.Python.Value.{Items, list, Runtime}
use flephant.Execution.Gateway.Types.{Band, Gateway}
use flephant.Execution.Gateway.Normalize.{
  insert_band, sort_bands, bands_of, load_price_tick_bands, tick_loop, tick_size_for_price,
}

-- No band is below the one before it.
abbrev IsAscending : List Band → Type 0
IsAscending [] = Unit
IsAscending (b ∷ []) = Unit
IsAscending (b ∷ c ∷ cs) = (b.min_price ≤ℤ c.min_price) × IsAscending (c ∷ cs)

-- A band before an ascending list.
abbrev IsBefore : Band → List Band → Type 0
IsBefore b [] = Unit
IsBefore b (c ∷ cs) = b.min_price ≤ℤ c.min_price

cons-IsAscending :
    (b : Band) (bs : List Band) → IsBefore b bs → IsAscending bs → IsAscending (b ∷ bs)
cons-IsAscending b [] h a = tt
cons-IsAscending b (c ∷ cs) h a = (h, a)

head-IsBefore : (b : Band) (bs : List Band) → IsAscending (b ∷ bs) → IsBefore b bs
head-IsBefore b [] a = tt
head-IsBefore b (c ∷ cs) a = a.0

tail-IsAscending : (b : Band) (bs : List Band) → IsAscending (b ∷ bs) → IsAscending bs
tail-IsAscending b [] a = tt
tail-IsAscending b (c ∷ cs) a = a.1

insert_band-IsBefore :
    (b c : Band) (cs : List Band)
    → c.min_price ≤ℤ b.min_price
    → IsBefore c cs
    → IsBefore c (insert_band b cs)
unfolding insert_band
insert_band-IsBefore b c [] h k = h
insert_band-IsBefore b c (d ∷ ds) h k =
    if_cases (IsBefore c) (leb_ℤ b.min_price d.min_price) (λ e. h) (λ e. k)

insert_band-IsAscending :
    (b : Band) (bs : List Band) → IsAscending bs → IsAscending (insert_band b bs)
unfolding insert_band
insert_band-IsAscending b [] a = tt
insert_band-IsAscending b (c ∷ cs) a =
    if_cases IsAscending (leb_ℤ b.min_price c.min_price) (λ e. (ground (arith, e), a))
      λ e.
        cons-IsAscending c (insert_band b cs)
          (insert_band-IsBefore b c cs (ground (arith, e)) (head-IsBefore c cs a))
          (insert_band-IsAscending b cs (tail-IsAscending c cs a))

sort_bands-IsAscending : (bs : List Band) → IsAscending (sort_bands bs)
unfolding sort_bands
sort_bands-IsAscending [] = tt
sort_bands-IsAscending (b ∷ bs) =
    insert_band-IsAscending b (sort_bands bs) (sort_bands-IsAscending bs)

module _ {F : Type 0} ⦃py : Runtime F⦄ (price : F) where
  -- The tick of the last of all the bands that the price reaches, or the given one.
  unfoldable pub tick_scan : ℤ → List Band → ℤ
  tick_scan tick_size [] = tick_size
  tick_scan tick_size (b ∷ bs) =
      tick_scan (if py.le (py.of_int b.min_price) price then b.tick_size else tick_size) bs

  module _
      (ordered : (low high : ℤ)
        → low ≤ℤ high
        → py.le (py.of_int high) price ≡ true
        → py.le (py.of_int low) price ≡ true) where
    unreached :
        (b : Band) (bs : List Band) (tick_size : ℤ)
        → IsAscending (b ∷ bs)
        → py.le (py.of_int b.min_price) price ≡ false
        → tick_scan tick_size bs ≡ tick_size
    unfolding tick_scan
    unreached b [] tick_size a n = refl
    unreached b (c ∷ cs) tick_size a n = elim (Bool-cases (py.le (py.of_int c.min_price) price)) [
      | inl reached ↦ absurd (ground (arith, n, ordered b.min_price c.min_price a.0 reached))
      | inr beyond ↦ rw beyond (unreached c cs tick_size a.1 beyond)
    ]

    loop-scan :
        (tick_size : ℤ) (bs : List Band)
        → IsAscending bs
        → tick_loop price tick_size bs ≡ tick_scan tick_size bs
    unfolding tick_loop tick_scan
    loop-scan tick_size [] a = refl
    loop-scan tick_size (b ∷ bs) a = elim (Bool-cases (py.le (py.of_int b.min_price) price)) [
      | inl reached ↦ rw reached (loop-scan b.tick_size bs (tail-IsAscending b bs a))
      | inr beyond ↦ rw beyond (sym (unreached b bs tick_size a beyond))
    ]

    -- Where the float comparison respects the order of the bands' prices, the tick that the gateway
    -- takes for a price, from the bands that it has loaded and sorted, is that of the last of all its
    -- bands that the price reaches, or of the first band if it reaches none: nothing is missed by
    -- stopping at the first band above the price.
    pub tick_size_for_price-tick_scan :
        (g : Gateway F) (raw : Items F)
        → load_price_tick_bands (list raw) ≡ g.first_band ∷ g.more_bands
        → tick_size_for_price g price
          ≡ tick_scan g.first_band.tick_size (g.first_band ∷ g.more_bands)
    unfolding load_price_tick_bands tick_size_for_price
    tick_size_for_price-tick_scan g raw loaded =
        loop-scan g.first_band.tick_size (g.first_band ∷ g.more_bands)
          (subst IsAscending loaded (sort_bands-IsAscending (bands_of raw)))

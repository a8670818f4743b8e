-- ===== src/Portfolio/Names.antt =====
-- How many names a plan aims at.
use flephant.Base.{
  ℕ, ◌≤◌, String, false, ◌≡◌, refl, List, [], ◌∷◌, length, length-take_le, map, arith, if_cases,
}
use flephant.Base.Int.{pos, ltb_ℤ}
use flephant.Python.Value.{Runtime}
use flephant.Portfolio.Types.{PortfolioManager, Targets}
use flephant.Portfolio.Targets.{
  take_int, sorted_by_weight, limit_names, clip_to, renormalized, clipped, limit_single, total_of,
  tiny, zero_weight,
}
use flephant.Portfolio.Plan.{Request, planned_targets}

length-map : {A : Type 0} {B : Type 0} (f : A → B) (xs : List A) → length (map f xs) ≡ length xs
length-map f [] = refl
length-map f (x ∷ xs) = omega (arith, length-map f xs)

module _ {F : Type 0} ⦃py : Runtime F⦄ where
  abbrev HasAtMost : ℕ → Targets F → Type 0
  HasAtMost n t = length t.weights ≤ n

  limited :
      (m : PortfolioManager F) (n : ℕ) (t : Targets F)
      → m.respect_ppo_weights ≡ false
      → m.max_names ≡ pos n
      → HasAtMost n (limit_names m t)
  unfolding limit_names take_int
  limited m n t free limit =
      if_cases (HasAtMost n) (ltb_ℤ m.max_names (pos (length t.weights)))
        (λ many. rw (free, limit) (length-take_le n (sorted_by_weight t.weights)))
        (λ few. ground (arith, few, limit))

  length-renormalized : (ws : List (String × F)) → length (renormalized ws) ≡ length ws
  unfolding renormalized
  length-renormalized ws =
      if_cases (λ (xs : List (String × F)). length xs ≡ length ws)
        (py.lt tiny (total_of zero_weight ws)) (λ e. length-map _ ws) (λ e. refl)

  clipped-HasAtMost :
      (m : PortfolioManager F) (n : ℕ) (t : Targets F) (above : List (String × F))
      → HasAtMost n t
      → HasAtMost n (clipped m t above)
  unfolding clipped
  clipped-HasAtMost m n t [] h = h
  clipped-HasAtMost m n t (e ∷ es) h =
      if_cases (HasAtMost n) m.respect_ppo_weights (λ e. h)
        λ e. omega (
          arith,
          h,
          length-renormalized (map (clip_to m.max_single_name) t.weights),
          length-map (clip_to m.max_single_name) t.weights,
        )

  -- Unless the weights of the allocator are to be respected, a plan aims at no more names than
  -- `max_names`, if that is not negative; the exits of the cold path count among them.
  pub planned_targets_few :
      (m : PortfolioManager F) (r : Request F) (n : ℕ)
      → m.respect_ppo_weights ≡ false
      → m.max_names ≡ pos n
      → length (planned_targets m r).weights ≤ n
  unfolding planned_targets limit_single
  planned_targets_few m r n free limit = clipped-HasAtMost m n _ _ (limited m n _ free limit)

-- ===== src/DynamicUniverse/Gate/Transitions.antt =====
-- What the log of transitions says, and who may pass the gate.
use flephant.Base.{
  String, Bool, true, false, not, ◌≡◌, refl, inl, inr, Option, some, List, [], ◌∷◌, ◌++◌, arith,
  if_cases, option_cases, Bool-cases,
}
use flephant.Base.Result.{Result, ok, err}
use flephant.Python.Text.{lower}
use flephant.Python.Value.{Value, Runtime, Raised}
use flephant.Utils.SafeCast.{is_in}
use flephant.DynamicUniverse.Gate.{
  Gate, Transition, forbidden_callers, transitions_of, is_stale, reload_enabled, reloaded,
  is_enabled, verdict, assert_enabled, reads,
}

-- A log that leads from one state to another: each entry begins where the one before it ended, and
-- changes the state.
abbrev pub LeadsTo : Bool → List Transition → Bool → Type 0
LeadsTo b [] c = b ≡ c
LeadsTo b (t ∷ ts) c = (t.from_state ≡ b) × (t.to_state ≡ not b) × LeadsTo t.to_state ts c

LeadsTo-append :
    (b c d : Bool) (ts us : List Transition)
    → LeadsTo b ts c
    → LeadsTo c us d
    → LeadsTo b (ts ++ us) d
LeadsTo-append b c d [] us h k = rw h k
LeadsTo-append b c d (t ∷ ts) us h k = (h.0, h.1, LeadsTo-append t.to_state c d ts us h.2 k)

transitions_of-LeadsTo : (b c : Bool) → LeadsTo b (transitions_of (some b) c) c
unfolding transitions_of
transitions_of-LeadsTo true true = refl
transitions_of-LeadsTo true false = (refl, refl, refl)
transitions_of-LeadsTo false true = (refl, refl, refl)
transitions_of-LeadsTo false false = refl

passed : (caller : String) (r : Result Raised Bool) → verdict caller r ≡ ok tt → r ≡ ok true
unfolding verdict
passed caller (ok true) h = refl
passed caller (ok false) h = cc
passed caller (err e) h = cc

module _ {F : Type 0} ⦃py : Runtime F⦄ where
  -- The gate holds a state to which the log leads.
  abbrev Reaches : Bool → Gate F → List Transition → Type 0
  Reaches b g log = (c : Bool) × (g.cached_enabled ≡ some c) × LeadsTo b log c

  reloaded-Reaches :
      (now : F) (g : Gate F) (b : Bool) (r : Result Raised Bool)
      → g.cached_enabled ≡ some b
      → let (answer, g', log) = reloaded now g r in Reaches b g' log
  unfolding reloaded
  reloaded-Reaches now g b (err e) h = (b, h, refl)
  reloaded-Reaches now g b (ok c) h = (c, refl, rw h (transitions_of-LeadsTo b c))

  is_enabled-Reaches :
      (now : F) (content : Option (Value F)) (g : Gate F) (b : Bool)
      → g.cached_enabled ≡ some b
      → let (answer, g', log) = is_enabled now content g in Reaches b g' log
  unfolding is_enabled
  is_enabled-Reaches now content g b h =
      option_cases Q g.cached_enabled (λ e. absurd (ground arith))
        λ enabled e.
          if_cases Q (is_stale now g) (λ stale. reloaded-Reaches now g b (reload_enabled content) h)
            (λ fresh. (b, h, refl))
    where
      Q : Result Raised Bool × Gate F × List Transition → Type 0
      Q r = Reaches b r.1 r.2

  -- However often the gate is read, and whatever the file holds at each time, a gate that has a state
  -- has one after it, and the log leads from the one to the other: each entry begins where the one
  -- before it ended and changes the state, so no change is missed and none is written twice.
  pub reads-LeadsTo :
      (calls : List (F × Option (Value F))) (g : Gate F) (b : Bool)
      → g.cached_enabled ≡ some b
      → (c : Bool) × ((reads calls g).0.cached_enabled ≡ some c) × LeadsTo b (reads calls g).1 c
  unfolding reads
  reads-LeadsTo [] g b h = (b, h, refl)
  reads-LeadsTo ((now, content) ∷ rest) g b h =
      let (c, e, first) = is_enabled-Reaches now content g b h in
      let (d, f, later) = reads-LeadsTo rest (is_enabled now content g).1 c e in
      (d, f, LeadsTo-append b c d (is_enabled now content g).2 _ first later)

  -- The answer of a read is the state that it leaves.
  abbrev IsKept : Result Raised Bool × Gate F × List Transition → Type 0
  IsKept r = (a : Bool) → r.0 ≡ ok a → r.1.cached_enabled ≡ some a

  reloaded-IsKept : (now : F) (g : Gate F) (r : Result Raised Bool) → IsKept (reloaded now g r)
  unfolding reloaded
  reloaded-IsKept now g (err e) a h = cc
  reloaded-IsKept now g (ok c) a h = cc

  is_enabled-IsKept :
      (now : F) (content : Option (Value F)) (g : Gate F) → IsKept (is_enabled now content g)
  unfolding is_enabled
  is_enabled-IsKept now content g =
      option_cases IsKept g.cached_enabled (λ e. reloaded-IsKept now g (reload_enabled content))
        λ enabled e.
          if_cases IsKept (is_stale now g) (λ stale. reloaded-IsKept now g (reload_enabled content))
            (λ fresh a h. ground arith)

  -- `assert_enabled` passes a caller exactly if it is none of the forbidden ones and the gate is read
  -- as enabled; then the gate that is left holds that state.
  pub assert_enabled_lem :
      (now : F) (content : Option (Value F)) (caller : String) (g : Gate F)
      → ((assert_enabled now content caller g).0 ≡ ok tt
          → (is_in (lower caller) forbidden_callers ≡ false)
            × ((is_enabled now content g).0 ≡ ok true)
            × ((assert_enabled now content caller g).1.cached_enabled ≡ some true))
        × (is_in (lower caller) forbidden_callers ≡ false
            → (is_enabled now content g).0 ≡ ok true
            → (assert_enabled now content caller g).0 ≡ ok tt)
  unfolding assert_enabled verdict
  assert_enabled_lem now content caller g = (
    λ h. elim (Bool-cases (is_in (lower caller) forbidden_callers)) [
      | inl forbidden ↦ absurd (ground (arith, forbidden))
      | inr free ↦
          let enabled = passed caller (is_enabled now content g).0 (ground arith) in
          (free, enabled, ground (arith, is_enabled-IsKept now content g true enabled))
    ],
    λ free enabled. rw (free, enabled) refl,
  )

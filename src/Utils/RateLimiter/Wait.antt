-- ===== src/Utils/RateLimiter/Wait.antt =====
-- `wait_and_acquire` ends once its time is over.
use flephant.Base.{ℕ, zero, suc, ◌+◌, ◌<◌, true, ◌≡◌, ◌≢◌, arith, if_cases, subst}
use flephant.Base.Int.{ℤ, pos}
use flephant.Python.Value.{Runtime}
use flephant.Utils.RateLimiter.{RateLimiter, Waited, waiting, acquire, wait_loop, wait_and_acquire}

module _ {F : Type 0} ⦃py : Runtime F⦄ (clock : ℕ → F) where
  -- At that reading of the clock no time is left.
  abbrev pub IsOver : F → ℕ → Type 0
  IsOver deadline n = py.le (py.sub deadline (clock n)) (py.of_int (pos 0)) ≡ true

  abbrev HasEnded : Waited × RateLimiter F → Type 0
  HasEnded x = x.0 ≢ waiting

  wait_loop_ends :
      (deadline : F) (tokens : ℤ) (fuel k reading : ℕ) (l : RateLimiter F)
      → k < fuel
      → IsOver deadline (suc (k + (k + reading)))
      → HasEnded (wait_loop clock deadline tokens fuel reading l)
  unfolding wait_loop
  wait_loop_ends deadline tokens zero k reading l enough over = absurd (omega (arith, enough))
  wait_loop_ends deadline tokens (suc fuel) zero reading l enough over =
      if_cases HasEnded (acquire (clock reading) tokens l).0 (λ e. λ w. cc)
        λ e.
          if_cases HasEnded (py.le (py.sub deadline (clock (suc reading))) (py.of_int (pos 0)))
            (λ late. λ w. cc) (λ early. absurd (ground (arith, early, over)))
  wait_loop_ends deadline tokens (suc fuel) (suc k) reading l enough over =
      if_cases HasEnded (acquire (clock reading) tokens l).0 (λ e. λ w. cc)
        λ e.
          if_cases HasEnded (py.le (py.sub deadline (clock (suc reading))) (py.of_int (pos 0)))
            (λ late. λ w. cc)
            λ early.
              if_cases HasEnded (py.eq l.refill_rate (py.of_int (pos 0))) (λ zero_rate. λ w. cc)
                λ rate.
                  let later : suc (suc k + (suc k + reading)) ≡ suc (k + (k + suc (suc reading))) =
                    omega arith in
                  wait_loop_ends deadline tokens fuel k (suc (suc reading))
                    (acquire (clock reading) tokens l).1 (omega (arith, enough))
                    (subst (IsOver deadline) later over)

  -- If the deadline has passed when the clock is read at the end of some round, `wait_and_acquire`
  -- has ended by that round: with more rounds than that it has the tokens, or it raises.
  pub wait_and_acquire_ends :
      (tokens : ℤ) (max_wait_sec : F) (fuel k : ℕ) (l : RateLimiter F)
      → k < fuel
      → IsOver (py.add (clock 0) max_wait_sec) (suc (k + (k + 1)))
      → (wait_and_acquire clock tokens max_wait_sec fuel l).0 ≢ waiting
  unfolding wait_and_acquire
  wait_and_acquire_ends tokens max_wait_sec fuel k l enough over =
      wait_loop_ends (py.add (clock 0) max_wait_sec) tokens fuel k 1 l enough over

-- ===== src/Utils/RateLimiter.antt =====
-- new/src/utils/rate_limiter.py: a bucket of tokens for the requests to one source. The lock makes each
-- method one step. The monotonic clock is a function: the n-th reading of it, in seconds.
pub mod Bounds
pub mod Wait
mod Examples
use flephant.Base.{ℕ, zero, suc, Bool, true, false, List, [], ◌∷◌, if◌then◌else◌}
use flephant.Base.Int.{ℤ, pos}
use flephant.Python.Value.{Runtime}

pub record RateLimiter (F : Type 0) : Type 0 where
  pub capacity : ℤ
  pub refill_rate : F
  pub tokens : F
  pub last_refill : F

-- What `stats` gives, without the name of the source.
pub record Stats (F : Type 0) : Type 0 where
  pub tokens : F
  pub capacity : ℤ
  pub refill_rate : F
  pub last_refill_ago_sec : F

-- How a call of `wait_and_acquire` ends, if it has ended after the given rounds.
pub data Waited : Type 0 where
  acquired rate_limit_exceeded zero_division waiting : Waited

module _ {F : Type 0} ⦃py : Runtime F⦄ where
  -- `min(a, b)`, which is the first argument unless the second is less
  unfoldable pub least : F → F → F
  least a b = if py.lt b a then b else a

  -- `max(a, b)`
  unfoldable pub greatest : F → F → F
  greatest a b = if py.lt a b then b else a

  -- a full bucket, as the constructor makes it
  unfoldable pub new_limiter : ℤ → F → F → RateLimiter F
  new_limiter capacity refill_rate now = record {
    capacity = capacity;
    refill_rate = refill_rate;
    tokens = py.of_int capacity;
    last_refill = now;
  }

  -- `_refill`
  unfoldable pub refill : F → RateLimiter F → RateLimiter F
  refill now l = record l {
    tokens =
        least (py.of_int l.capacity)
          (py.add l.tokens (py.mul (py.sub now l.last_refill) l.refill_rate));
    last_refill = now;
  }

  -- `acquire`
  unfoldable pub acquire : F → ℤ → RateLimiter F → Bool × RateLimiter F
  acquire now tokens l =
      let full = refill now l in
      if py.le (py.of_int tokens) full.tokens
      then (true, record full { tokens = py.sub full.tokens (py.of_int tokens) })
      else (false, full)

  -- `stats`, which reads the clock for the refill and once more after it
  stats : F → F → RateLimiter F → Stats F × RateLimiter F
  stats now later l =
      let full = refill now l in
      (
        record {
          tokens = py.round 4 full.tokens;
          capacity = full.capacity;
          refill_rate = full.refill_rate;
          last_refill_ago_sec = py.round 4 (py.sub later full.last_refill);
        },
        full,
      )

  -- a decimal literal of three places
  milli : ℤ → F
  milli n = py.div (py.of_int n) (py.of_int (pos 1000))

  -- what is slept between two rounds
  unfoldable pub pause : F → ℤ → RateLimiter F → F
  unfolding milli
  pause remaining tokens l =
      greatest
        (least (least (py.div (py.sub (py.of_int tokens) l.tokens) l.refill_rate) remaining)
          (milli (pos 50)))
        (milli (pos 1))

  -- The rounds of `wait_and_acquire`: each tries, reads the clock, and sleeps if there is time left.
  unfoldable pub wait_loop : (ℕ → F) → F → ℤ → ℕ → ℕ → RateLimiter F → Waited × RateLimiter F
  wait_loop clock deadline tokens zero reading l = (waiting, l)
  wait_loop clock deadline tokens (suc fuel) reading l =
      let (granted, l') = acquire (clock reading) tokens l in
      let rest = wait_loop clock deadline tokens fuel (suc (suc reading)) l' in
      if granted
      then (acquired, l')
      else if py.le (py.sub deadline (clock (suc reading))) (py.of_int (pos 0))
      then (rate_limit_exceeded, l')
      else if py.eq l.refill_rate (py.of_int (pos 0))
      then (zero_division, l')
      else rest

  -- `wait_and_acquire`, with so many rounds; the first reading of the clock sets the deadline
  unfoldable pub wait_and_acquire : (ℕ → F) → ℤ → F → ℕ → RateLimiter F → Waited × RateLimiter F
  wait_and_acquire clock tokens max_wait_sec fuel l =
      wait_loop clock (py.add (clock 0) max_wait_sec) tokens fuel 1 l

  -- Calls of `acquire`, each with the reading of the clock and the tokens it asks for.
  unfoldable pub acquire_all : List (F × ℤ) → RateLimiter F → RateLimiter F
  acquire_all [] l = l
  acquire_all ((now, tokens) ∷ calls) l = acquire_all calls (acquire now tokens l).1

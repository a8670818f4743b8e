-- ===== src/Utils/RateLimiter/Bounds.antt =====
-- The tokens of the bucket stay between nothing and its capacity.
use flephant.Base.{Bool, true, ◌≡◌, refl, ◌∙◌, subst, List, [], ◌∷◌, if_cases}
use flephant.Base.Int.{ℤ, pos, ◌≤ℤ◌}
use flephant.Python.Value.{Runtime}
use flephant.Utils.RateLimiter.{RateLimiter, new_limiter, least, refill, acquire, acquire_all}

-- What the bucket relies on of the order and the arithmetic of IEEE floats. A result may be infinite or
-- no number, so the laws of a difference ask for a subtrahend that stands for a whole number, or for a
-- difference that is finite, and the law of a product asks for finite factors.
pub record AreFloats (F : Type 0) ⦃py : Runtime F⦄ : Type 0 where
  pub lt_le : (a b : F) → py.lt a b ≡ true → py.le a b ≡ true
  pub le_int : (n : ℤ) → py.le (py.of_int n) (py.of_int n) ≡ true
  pub le_zero_int : (n : ℤ) → pos 0 ≤ℤ n → py.le (py.of_int (pos 0)) (py.of_int n) ≡ true
  pub le_zero_add :
      (a b : F)
      → py.le (py.of_int (pos 0)) a ≡ true
      → py.le (py.of_int (pos 0)) b ≡ true
      → py.le (py.of_int (pos 0)) (py.add a b) ≡ true
  pub le_zero_mul :
      (a b : F)
      → py.is_finite a ≡ true
      → py.is_finite b ≡ true
      → py.le (py.of_int (pos 0)) a ≡ true
      → py.le (py.of_int (pos 0)) b ≡ true
      → py.le (py.of_int (pos 0)) (py.mul a b) ≡ true
  pub le_zero_sub :
      (a b : F)
      → py.is_finite (py.sub a b) ≡ true
      → py.le b a ≡ true
      → py.le (py.of_int (pos 0)) (py.sub a b) ≡ true
  pub le_zero_sub_int :
      (a : F) (n : ℤ)
      → py.le (py.of_int n) a ≡ true
      → py.le (py.of_int (pos 0)) (py.sub a (py.of_int n)) ≡ true
  pub sub_int_le :
      (a b : F) (n : ℤ) → py.le a b ≡ true → pos 0 ≤ℤ n → py.le (py.sub a (py.of_int n)) b ≡ true

module _ {F : Type 0} ⦃py : Runtime F⦄ where
  -- The tokens are between 0 and the capacity, which is not negative.
  pub record IsFilled (l : RateLimiter F) : Type 0 where
    pub capacious : pos 0 ≤ℤ l.capacity
    pub some_left : py.le (py.of_int (pos 0)) l.tokens ≡ true
    pub within : py.le l.tokens (py.of_int l.capacity) ≡ true

  -- The clock does not go back from the one reading to the other, and a finite time is between them.
  abbrev pub IsNext : F → F → Type 0
  IsNext last now = (py.le last now ≡ true) × (py.is_finite (py.sub now last) ≡ true)

  -- From that reading on the clock does not go back, and no call asks for less than nothing.
  abbrev pub IsForward : F → List (F × ℤ) → Type 0
  IsForward last [] = Unit
  IsForward last ((now, tokens) ∷ calls) = IsNext last now × (pos 0 ≤ℤ tokens) × IsForward now calls

  -- A rate that is finite and not negative.
  abbrev pub IsRate : F → Type 0
  IsRate rate = (py.is_finite rate ≡ true) × (py.le (py.of_int (pos 0)) rate ≡ true)

  new_limiter-IsFilled :
      AreFloats F
      → (capacity : ℤ) (rate now : F) → pos 0 ≤ℤ capacity
      → IsFilled (new_limiter capacity rate now)
  unfolding new_limiter
  new_limiter-IsFilled floats capacity rate now h = record {
    capacious = h;
    some_left = floats.le_zero_int capacity h;
    within = floats.le_int capacity;
  }

  refill-IsFilled :
      AreFloats F
      → (now : F) (l : RateLimiter F) → IsRate l.refill_rate
      → IsNext l.last_refill now
      → IsFilled l
      → IsFilled (refill now l)
  unfolding refill least
  refill-IsFilled floats now l rate next h =
      let gain =
        floats.le_zero_mul (py.sub now l.last_refill) l.refill_rate next.1 rate.0
          (floats.le_zero_sub now l.last_refill next.1 next.0) rate.1 in
      let full = py.add l.tokens (py.mul (py.sub now l.last_refill) l.refill_rate) in
      let c = py.of_int l.capacity in
      record {
        capacious = h.capacious;
        some_left =
            if_cases (λ (x : F). py.le (py.of_int (pos 0)) x ≡ true) (py.lt full c)
              (λ e. floats.le_zero_add l.tokens _ h.some_left gain)
              (λ e. floats.le_zero_int l.capacity h.capacious);
        within =
            if_cases (λ (x : F). py.le x c ≡ true) (py.lt full c) (λ e. floats.lt_le full c e)
              (λ e. floats.le_int l.capacity);
      }

  acquire-IsFilled :
      AreFloats F
      → (now : F) (tokens : ℤ) (l : RateLimiter F) → IsRate l.refill_rate
      → IsNext l.last_refill now
      → pos 0 ≤ℤ tokens
      → IsFilled l
      → IsFilled (acquire now tokens l).1
  unfolding acquire
  acquire-IsFilled floats now tokens l rate next asked h =
      let full = refill-IsFilled floats now l rate next h in
      if_cases (λ (x : Bool × RateLimiter F). IsFilled x.1)
        (py.le (py.of_int tokens) (refill now l).tokens)
        (λ e. record {
          capacious = full.capacious;
          some_left = floats.le_zero_sub_int _ tokens e;
          within = floats.sub_int_le _ _ tokens full.within asked;
        })
        (λ e. full)

  -- What `acquire` leaves as it was, and the time of the last refill.
  abbrev IsAt : F → RateLimiter F → RateLimiter F → Type 0
  IsAt now l l' =
      (l'.capacity ≡ l.capacity) × (l'.refill_rate ≡ l.refill_rate) × (l'.last_refill ≡ now)

  acquire-IsAt : (now : F) (tokens : ℤ) (l : RateLimiter F) → IsAt now l (acquire now tokens l).1
  unfolding acquire refill
  acquire-IsAt now tokens l =
      if_cases (λ (x : Bool × RateLimiter F). IsAt now l x.1)
        (py.le (py.of_int tokens) (refill now l).tokens) (λ e. (refl, refl, refl))
        (λ e. (refl, refl, refl))

  acquire_all-capacity :
      (calls : List (F × ℤ)) (l : RateLimiter F) → (acquire_all calls l).capacity ≡ l.capacity
  unfolding acquire_all
  acquire_all-capacity [] l = refl
  acquire_all-capacity ((now, tokens) ∷ calls) l =
      acquire_all-capacity calls (acquire now tokens l).1 ∙ (acquire-IsAt now tokens l).0

  acquire_all-IsFilled :
      AreFloats F
      → (calls : List (F × ℤ)) (l : RateLimiter F) → IsRate l.refill_rate
      → IsForward l.last_refill calls
      → IsFilled l
      → IsFilled (acquire_all calls l)
  unfolding acquire_all
  acquire_all-IsFilled floats [] l rate forward h = h
  acquire_all-IsFilled floats ((now, tokens) ∷ calls) l rate forward h =
      let at = acquire-IsAt now tokens l in
      acquire_all-IsFilled floats calls (acquire now tokens l).1 (rw at.1 rate) (rw at.2 forward.2)
        (acquire-IsFilled floats now tokens l rate forward.0 forward.1 h)

  -- After any calls of `acquire` on a new bucket, granted or not, the tokens are at least 0 and at most
  -- the capacity that it was made with, if that is not negative, the rate is finite and not negative,
  -- no call asks for less than nothing, and the clock does not go back, with a finite time between
  -- its readings.
  pub acquire_all-new_limiter :
      AreFloats F
      → (capacity : ℤ) (rate start : F) (calls : List (F × ℤ)) → pos 0 ≤ℤ capacity
      → IsRate rate
      → IsForward start calls
      → (py.le (py.of_int (pos 0)) (acquire_all calls (new_limiter capacity rate start)).tokens
          ≡ true)
        × (py.le (acquire_all calls (new_limiter capacity rate start)).tokens (py.of_int capacity)
            ≡ true)
  unfolding new_limiter
  acquire_all-new_limiter floats capacity rate start calls h is_rate forward =
      let l = new_limiter capacity rate start in
      let filled =
        acquire_all-IsFilled floats calls l is_rate forward
          (new_limiter-IsFilled floats capacity rate start h) in
      (
        filled.some_left,
        subst (λ c. py.le (acquire_all calls l).tokens (py.of_int c) ≡ true)
            (acquire_all-capacity calls l) filled.within,
      )

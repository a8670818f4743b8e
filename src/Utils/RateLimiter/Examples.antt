-- ===== src/Utils/RateLimiter/Examples.antt =====
-- A bucket of two tokens over whole numbers, with a clock that is read once a second.
use flephant.Base.{ℕ, suc, ◌+◌, true, ◌≡◌, refl, ◌≢◌, List, [], ◌∷◌, arith}
use flephant.Base.Int.{ℤ, pos, ◌+ℤ◌, ◌-ℤ◌, ◌*ℤ◌, leb_ℤ, +ℤ_parts, -ℤ_parts}
use flephant.Python.Whole.{whole}
use flephant.Utils.RateLimiter.{RateLimiter, new_limiter, waiting, wait_and_acquire, acquire_all}
use flephant.Utils.RateLimiter.Bounds.{AreFloats, IsForward, acquire_all-new_limiter}
use flephant.Utils.RateLimiter.Wait.{IsOver, wait_and_acquire_ends}

abbrev seconds : ℕ → ℤ
seconds n = pos n

abbrev empty : RateLimiter ℤ
empty = record { capacity = pos 2; refill_rate = pos 0; tokens = pos 0; last_refill = pos 0 }

passed : IsOver seconds (whole.add (seconds 0) (pos 3)) (suc (1 + (1 + 1)))
unfolding ◌-ℤ◌ ◌+ℤ◌
passed = refl

wait_and_acquire_ends_example : (wait_and_acquire seconds (pos 1) (pos 3) 2 empty).0 ≢ waiting
wait_and_acquire_ends_example =
    wait_and_acquire_ends seconds (pos 1) (pos 3) 2 1 empty (omega arith) passed

le_zero_product :
    (a b : ℤ) → leb_ℤ (pos 0) a ≡ true → leb_ℤ (pos 0) b ≡ true → leb_ℤ (pos 0) (a *ℤ b) ≡ true
unfolding ◌*ℤ◌
le_zero_product (pos a) (pos b) h k = ground arith
le_zero_product (pos a) (ℤ.negsuc b) h k = absurd (ground (arith, k))
le_zero_product (ℤ.negsuc a) b h k = absurd (ground (arith, h))

floats : AreFloats ℤ
floats = record {
  lt_le = λ a b h. ground (arith, h);
  le_int = λ n. ground arith;
  le_zero_int = λ n h. ground (arith, h);
  le_zero_add = λ a b h k. ground (arith, h, k, +ℤ_parts a b);
  le_zero_mul = λ a b f g h k. le_zero_product a b h k;
  le_zero_sub = λ a b f h. ground (arith, h, -ℤ_parts a b);
  le_zero_sub_int = λ a n h. ground (arith, h, -ℤ_parts a n);
  sub_int_le = λ a b n h k. ground (arith, h, k, -ℤ_parts a n);
}

abbrev calls : List (ℤ × ℤ)
calls = (pos 1, pos 2) ∷ (pos 1, pos 1) ∷ (pos 5, pos 1) ∷ []

forward : IsForward (pos 0) calls
unfolding ◌-ℤ◌ ◌+ℤ◌ ◌*ℤ◌
forward =
    ((refl, refl), ground arith, ((refl, refl), ground arith, ((refl, refl), ground arith, tt)))

acquire_all-new_limiter_example :
    (whole.le (pos 0) (acquire_all calls (new_limiter (pos 2) (pos 1) (pos 0))).tokens ≡ true)
    × (whole.le (acquire_all calls (new_limiter (pos 2) (pos 1) (pos 0))).tokens (pos 2) ≡ true)
acquire_all-new_limiter_example =
    acquire_all-new_limiter floats (pos 2) (pos 1) (pos 0) calls (ground arith) (refl, refl) forward

-- ===== src/Python/Padding.antt =====
-- `zfill` gives a text of at least that length, and leaves such a text alone.
use Prim.Native.Char.{code}
use Prim.Native.String.{count}
use text.Mathlib.TextLemmas.{length-cons, length-append}
use flephant.Base.{
  ℕ, zero, suc, ◌+◌, ◌-◌, String, ◌||◌, ◌≡◌, refl, ◌∙◌, ap, arith, ◌==◌, if_cases, ◌+◌,
}
use flephant.Python.Text.{zeros, fill, zfill}

count-zeros : (n : ℕ) (s : String) → count (zeros n s) ≡ n + count s
unfolding zeros
count-zeros zero s = omega arith
count-zeros (suc n) s = omega (arith, length-append "0" (zeros n s), count-zeros n s)

count-fill : (n : ℕ) (s : String) → count (fill n s) ≡ n + count s
unfolding fill
count-fill n String.[] = count-zeros n String.[]
count-fill n (String.◌∷◌ c s) =
    if_cases (λ t. count t ≡ n + count (String.◌∷◌ c s)) (code c == 43 || code c == 45)
      (λ e. omega (arith, length-cons c (zeros n s), length-cons c s, count-zeros n s))
      (λ e. count-zeros n (String.◌∷◌ c s))

pub fill_nothing : (s : String) → fill 0 s ≡ s
unfolding fill zeros
fill_nothing String.[] = refl
fill_nothing (String.◌∷◌ c s) =
    if_cases (λ t. t ≡ String.◌∷◌ c s) (code c == 43 || code c == 45) (λ e. refl) (λ e. refl)

pub zfill-zfill : (n : ℕ) (s : String) → zfill n (zfill n s) ≡ zfill n s
unfolding zfill
zfill-zfill n s =
    ap (λ k. fill k (fill (n - count s) s)) (enough n s) ∙ fill_nothing (fill (n - count s) s)
  where
    enough : (n : ℕ) (s : String) → n - count (fill (n - count s) s) ≡ 0
    enough n s = omega (arith, count-fill (n - count s) s)

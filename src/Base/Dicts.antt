-- ===== src/Base/Dicts.antt =====
-- Python's `dict` with text keys, in insertion order: an assignment to a key that is there keeps
-- its place.
use Prim.Native.Nat.{suc, ◌≤◌}
use Prim.Native.String.{String}
use mathlib.Core.Path.{◌≡◌, refl, subst}
use mathlib.Core.Logic.{inl, inr}
use mathlib.Core.Bool.{Bool, true, false}
use mathlib.Core.Option.{Option, none, some}
use mathlib.Core.List.{List, [], ◌∷◌}
use native.Mathlib.Omega.{arith}
use text.Mathlib.Text.{◌==◌ as str_eq}
use text.Mathlib.TextEquality.{eq_iff}
use flephant.Base.Tests.{if◌then◌else◌, if_cases, Bool-cases}
use flephant.Base.Lists.{length, All}

abbrev pub Dict {ℓ} : Type ℓ → Type ℓ
Dict V = List (String × V)

module _ {ℓ} {V : Type ℓ} where
  -- `d.get(k)`
  abbrev pub lookup : String → Dict V → Option V
  lookup k [] = none
  lookup k ((j, v) ∷ d) = if str_eq j k then some v else lookup k d

  -- `k in d`
  abbrev pub contains : String → Dict V → Bool
  contains k d = elim (lookup k d) [ none ↦ false | some v ↦ true ]

  -- `d[k] = v`
  abbrev pub insert : String → V → Dict V → Dict V
  insert k v [] = (k, v) ∷ []
  insert k v ((j, w) ∷ d) = if str_eq j k then (j, v) ∷ d else (j, w) ∷ insert k v d

  -- `d.pop(k, None)`; keys do not repeat
  abbrev pub erase : String → Dict V → Dict V
  erase k [] = []
  erase k ((j, w) ∷ d) = if str_eq j k then d else (j, w) ∷ erase k d

  pub lookup-insert :
      (k j : String) (v : V) (d : Dict V)
      → lookup j (insert k v d) ≡ (if str_eq k j then some v else lookup j d)
  lookup-insert k j v [] = refl
  lookup-insert k j v ((i, w) ∷ d) =
      ground (arith, eq_iff k j, eq_iff i k, eq_iff i j, lookup-insert k j v d)

  -- No key is listed twice.
  abbrev pub IsKeyed : Dict V → Type 0
  IsKeyed [] = Unit
  IsKeyed ((j, w) ∷ d) = (contains j d ≡ false) × IsKeyed d

  pub lookup-erase_ne :
      (k j : String) (d : Dict V) → str_eq k j ≡ false → lookup j (erase k d) ≡ lookup j d
  lookup-erase_ne k j [] h = refl
  lookup-erase_ne k j ((i, w) ∷ d) h =
      ground (arith, eq_iff i k, eq_iff i j, eq_iff k j, lookup-erase_ne k j d h)

  pub lookup-erase_self : (k : String) (d : Dict V) → IsKeyed d → lookup k (erase k d) ≡ none
  lookup-erase_self k [] h = refl
  lookup-erase_self k ((i, w) ∷ d) h = ground (arith, eq_iff i k, lookup-erase_self k d h.1)

  pub insert-IsKeyed : (k : String) (v : V) (d : Dict V) → IsKeyed d → IsKeyed (insert k v d)
  insert-IsKeyed k v [] h = (refl, tt)
  insert-IsKeyed k v ((i, w) ∷ d) h =
      ground (arith, insert-IsKeyed k v d h.1, lookup-insert k i v d, eq_iff i k, eq_iff k i)

  pub erase-IsKeyed : (k : String) (d : Dict V) → IsKeyed d → IsKeyed (erase k d)
  erase-IsKeyed k [] h = tt
  erase-IsKeyed k ((i, w) ∷ d) h =
      ground (arith, erase-IsKeyed k d h.1, lookup-erase_ne k i d, eq_iff i k, eq_iff k i)

  pub length-insert :
      (k : String) (v : V) (d : Dict V)
      → length (insert k v d) ≡ (if contains k d then length d else suc (length d))
  length-insert k v [] = refl
  length-insert k v ((i, w) ∷ d) = ground (arith, length-insert k v d)

  pub length-erase-le : (k : String) (d : Dict V) → length (erase k d) ≤ length d
  length-erase-le k [] = omega arith
  length-erase-le k ((i, w) ∷ d) = ground (arith, length-erase-le k d)

  pub erase-All {κ} :
      (P : String × V → Type κ) (k : String) (d : Dict V) → All P d → All P (erase k d)
  erase-All P k [] h = tt
  erase-All P k ((j, w) ∷ d) h =
      if_cases (All P) (str_eq j k) (λ e. h.1) (λ e. (h.0, erase-All P k d h.1))

  -- An entry is added where its key is new.
  pub insert-All_new {κ} :
      (P : String × V → Type κ) (k : String) (v : V) (d : Dict V)
      → contains k d ≡ false
      → P (k, v)
      → All P d
      → All P (insert k v d)
  insert-All_new P k v [] n p h = (p, tt)
  insert-All_new P k v ((j, w) ∷ d) n p h =
      if_cases (All P) (str_eq j k) (λ e. absurd (ground (arith, e)))
        (λ e. (h.0, insert-All_new P k v d (ground (arith, e)) p h.1))

  -- A property of every value.
  abbrev pub AllValues {κ} : (V → Type κ) → Dict V → Type κ
  AllValues P d = All (λ e. P e.1) d

  pub insert-AllValues {κ} :
      (P : V → Type κ) (k : String) (v : V) (d : Dict V)
      → P v
      → AllValues P d
      → AllValues P (insert k v d)
  insert-AllValues P k v [] p h = (p, tt)
  insert-AllValues P k v ((j, w) ∷ d) p h =
      if_cases (AllValues P) (str_eq j k) (λ e. (p, h.1))
        (λ e. (h.0, insert-AllValues P k v d p h.1))

  pub erase-AllValues {κ} :
      (P : V → Type κ) (k : String) (d : Dict V) → AllValues P d → AllValues P (erase k d)
  erase-AllValues P k [] h = tt
  erase-AllValues P k ((j, w) ∷ d) h =
      if_cases (AllValues P) (str_eq j k) (λ e. h.1) (λ e. (h.0, erase-AllValues P k d h.1))

  pub lookup-AllValues {κ} :
      (P : V → Type κ) (k : String) (d : Dict V) {v : V} → AllValues P d → lookup k d ≡ some v → P v
  lookup-AllValues P k [] h e = cc
  lookup-AllValues P k ((j, w) ∷ d) h e = elim (Bool-cases (str_eq j k)) [
    | inl same ↦ subst P (ground arith) h.0
    | inr other ↦ lookup-AllValues P k d h.1 (ground arith)
  ]

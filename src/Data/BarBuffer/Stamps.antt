-- ===== src/Data/BarBuffer/Stamps.antt =====
-- The time stamps of a list of bars, and what a push makes of them.
use flephant.Base.{
  ℕ, zero, suc, ◌+◌, ◌-◌, ◌≤◌, String, true, false, ◌≡◌, refl, sym, ap, ◌∙◌, inl, inr, none, some,
  List, [], ◌∷◌, ◌++◌, arith, str_eq, eq_iff, length, length-append, length-drop, drop, map, All,
  append_nil, Bool-cases, Option-cases,
}
use flephant.Python.Text.{text_lt}
use flephant.Python.Order.{text_lt_total}
use flephant.Python.Value.{Value, Fields, Runtime, end, field, get, has, put, get_or, str, text_of}
use flephant.Data.BarBuffer.{append_bounded, extend_bounded, stamp, replaced, is_late}

-- Every text comes before the one after it.
abbrev pub IsIncreasing : List String → Type 0
IsIncreasing [] = Unit
IsIncreasing (s ∷ []) = Unit
IsIncreasing (s ∷ t ∷ ts) = (text_lt s t ≡ true) × IsIncreasing (t ∷ ts)

pub IsIncreasing-drop : (n : ℕ) (ss : List String) → IsIncreasing ss → IsIncreasing (drop n ss)
IsIncreasing-drop zero ss h = h
IsIncreasing-drop (suc n) [] h = tt
IsIncreasing-drop (suc n) (s ∷ []) h = IsIncreasing-drop n [] tt
IsIncreasing-drop (suc n) (s ∷ t ∷ ts) h = IsIncreasing-drop n (t ∷ ts) h.1

module _ {A : Type 0} {B : Type 0} (f : A → B) where
  pub map-drop : (n : ℕ) (xs : List A) → map f (drop n xs) ≡ drop n (map f xs)
  map-drop zero xs = refl
  map-drop (suc n) [] = refl
  map-drop (suc n) (x ∷ xs) = map-drop n xs

  pub length-map : (xs : List A) → length (map f xs) ≡ length xs
  length-map [] = refl
  length-map (x ∷ xs) = omega (arith, length-map xs)

  pub map-append : (xs ys : List A) → map f (xs ++ ys) ≡ map f xs ++ map f ys
  map-append [] ys = refl
  map-append (x ∷ xs) ys = cc (map-append xs ys)

no_excess : (n m : ℕ) → suc n ≤ m → suc n - m ≡ zero
no_excess n m h = omega arith

module _ {F : Type 0} where
  pub get-put_ne :
      (j k : String) (v : Value F) (d : Fields F) → str_eq k j ≡ false → get j (put k v d) ≡ get j d
  get-put_ne j k v end h = ground arith
  get-put_ne j k v (field i w d) h =
      ground (arith, get-put_ne j k v d, eq_iff i k, eq_iff k j, eq_iff i j)

  pub has-put_ne :
      (j k : String) (v : Value F) (d : Fields F) → str_eq k j ≡ false → has j (put k v d) ≡ has j d
  has-put_ne j k v end h = ground arith
  has-put_ne j k v (field i w d) h =
      ground (arith, has-put_ne j k v d, eq_iff i k, eq_iff k j, eq_iff i j)

  get_or-has : (k : String) (v : Value F) (d : Fields F) → has k d ≡ true → get_or k v d ≡ get k d
  get_or-has k v end h = cc
  get_or-has k v (field i w d) h = ground (arith, get_or-has k v d)

  pub length-append_bounded :
      (m : ℕ) (bars : List (Fields F)) (bar : Fields F) → length (append_bounded m bars bar) ≤ m
  unfolding append_bounded
  length-append_bounded m bars bar =
      omega (
        arith,
        length-drop (suc (length bars) - m) (bars ++ bar ∷ []),
        length-append bars (bar ∷ []),
      )

  append_bounded_room :
      (m : ℕ) (bars : List (Fields F)) (bar : Fields F)
      → suc (length bars) ≤ m
      → append_bounded m bars bar ≡ bars ++ bar ∷ []
  unfolding append_bounded
  append_bounded_room m bars bar h =
      ap (λ n. drop n (bars ++ bar ∷ [])) (no_excess (length bars) m h)

  append_assoc : (xs ys : List (Fields F)) (x : Fields F) → (xs ++ x ∷ []) ++ ys ≡ xs ++ x ∷ ys
  append_assoc [] ys x = refl
  append_assoc (y ∷ xs) ys x = cc (append_assoc xs ys x)

  -- Bars that all find room are appended as they are.
  pub extend_bounded_room :
      (m : ℕ) (bars more : List (Fields F))
      → length bars + length more ≤ m
      → extend_bounded m bars more ≡ bars ++ more
  unfolding extend_bounded
  extend_bounded_room m bars [] h = sym (append_nil bars)
  extend_bounded_room m bars (bar ∷ more) h = rw (append_bounded_room m bars bar (omega arith)) (
      extend_bounded_room m (bars ++ bar ∷ []) more (omega (arith, length-append bars (bar ∷ [])))
      ∙ append_assoc bars more bar)

module _ {F : Type 0} ⦃py : Runtime F⦄ where
  abbrev pub HasStamp : Fields F → Type 0
  HasStamp bar = has "ts_close" bar ≡ true

  -- A bar that takes the place of another has its time stamp.
  pub stamps-replaced :
      (ts : String) (bar : Fields F) (bars : List (Fields F))
      → stamp bar ≡ ts
      → (items : List (Fields F)) → replaced ts bar bars ≡ some items
      → map stamp items ≡ map stamp bars
  unfolding replaced
  stamps-replaced ts bar [] s items h = cc
  stamps-replaced ts bar (b ∷ bars) s items h = elim (Bool-cases (str_eq (stamp b) ts)) [
    | inl same ↦ ground (arith, eq_iff (stamp b) ts)
    | inr other ↦ elim (Option-cases (replaced ts bar bars)) [
      | inl e ↦ absurd (ground arith)
      | inr (later, e) ↦ ground (arith, stamps-replaced ts bar bars s later e)
    ]
  ]

  pub has-replaced :
      (ts : String) (bar : Fields F) (bars : List (Fields F))
      → HasStamp bar
      → All HasStamp bars
      → (items : List (Fields F)) → replaced ts bar bars ≡ some items
      → All HasStamp items
  unfolding replaced
  has-replaced ts bar [] s a items h = cc
  has-replaced ts bar (b ∷ bars) s a items h = elim (Bool-cases (str_eq (stamp b) ts)) [
    | inl same ↦ ground arith
    | inr other ↦ elim (Option-cases (replaced ts bar bars)) [
      | inl e ↦ absurd (ground arith)
      | inr (later, e) ↦ ground (arith, has-replaced ts bar bars s a.1 later e)
    ]
  ]

  not_replaced :
      (ts : String) (bar b : Fields F) (bars : List (Fields F))
      → replaced ts bar (b ∷ bars) ≡ none
      → (str_eq (stamp b) ts ≡ false) × (replaced ts bar bars ≡ none)
  unfolding replaced
  not_replaced ts bar b bars h = elim (Bool-cases (str_eq (stamp b) ts)) [
    | inl same ↦ absurd (ground arith)
    | inr other ↦ elim (Option-cases (replaced ts bar bars)) [
      | inl e ↦ (other, e)
      | inr (later, e) ↦ absurd (ground arith)
    ]
  ]

  in_order :
      (bar b : Fields F)
      → HasStamp b
      → str_eq (stamp b) (stamp bar) ≡ false
      → text_lt (stamp bar) (text_of (get_or "ts_close" (str "") b)) ≡ false
      → text_lt (stamp b) (stamp bar) ≡ true
  unfolding stamp
  in_order bar b a n l =
      text_lt_total (stamp b) (stamp bar) (cc (get_or-has "ts_close" (str "") b a, l)) n

  -- A bar with a new time stamp that is not late goes to the end.
  pub stamps-append :
      (bar : Fields F) (bars : List (Fields F))
      → All HasStamp bars
      → replaced (stamp bar) bar bars ≡ none
      → is_late (stamp bar) bars ≡ false
      → IsIncreasing (map stamp bars)
      → IsIncreasing (map stamp (bars ++ bar ∷ []))
  unfolding is_late
  stamps-append bar [] a r l h = tt
  stamps-append bar (b ∷ []) a r l h =
      (in_order bar b a.0 (not_replaced (stamp bar) bar b [] r).0 l, tt)
  stamps-append bar (b ∷ c ∷ bars) a r l h =
      (h.0, stamps-append bar (c ∷ bars) a.1 (not_replaced (stamp bar) bar b (c ∷ bars) r).1 l h.1)

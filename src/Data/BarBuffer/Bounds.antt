-- ===== src/Data/BarBuffer/Bounds.antt =====
-- What holds of every ticker's bars at all times.
use flephant.Base.{
  ℕ, suc, ◌-◌, ◌≤◌, String, not, ◌≡◌, refl, ◌∙◌, ap, subst, sym, Option, none, some, List, [], ◌∷◌,
  ◌++◌, arith, length, map, All, All-append, All-drop, keep, lookup, contains, AllValues,
  insert-AllValues, lookup-AllValues, if_cases, option_cases,
}
use flephant.Base.Int.{ℤ, pos, pos_part, ltb_ℤ}
use flephant.Base.Result.{Result, ok, err}
use flephant.Python.Value.{
  Value, Fields, Runtime, null, bool, int, float, str, list, dict, get, has, text_of,
}
use flephant.Utils.TickerUtils.{pad_ticker}
use flephant.Data.BarBuffer.{
  BarBuffer, BufferError, required_fields, empty_buffer, get_or_create, append_bounded,
  extend_bounded, stamp, replaced, is_late, placed, normalized, push_into, push_checked, push,
  clear, Call, pushes, clears, step, run,
}
use flephant.Data.BarBuffer.Stamps.{
  IsIncreasing, IsIncreasing-drop, map-drop, length-map, HasStamp, has-put_ne,
  length-append_bounded, extend_bounded_room, stamps-replaced, has-replaced, stamps-append,
}

module _ {F : Type 0} ⦃py : Runtime F⦄ where
  -- No more bars than allowed, each with a time stamp and after the one before it.
  abbrev pub IsBounded : ℕ → List (Fields F) → Type 0
  IsBounded m bars = (length bars ≤ m) × All HasStamp bars × IsIncreasing (map stamp bars)

  abbrev pub IsWellFormed : BarBuffer F → Type 0
  IsWellFormed b = AllValues (IsBounded (pos_part b.max_bars)) b.buffers

  append_bounded-IsBounded :
      (m : ℕ) (bars : List (Fields F)) (bar : Fields F)
      → All HasStamp (bars ++ bar ∷ [])
      → IsIncreasing (map stamp (bars ++ bar ∷ []))
      → IsBounded m (append_bounded m bars bar)
  unfolding append_bounded
  append_bounded-IsBounded m bars bar a h =
      let n = suc (length bars) - m in
      (
        length-append_bounded m bars bar,
        All-drop HasStamp n (bars ++ bar ∷ []) a,
        subst IsIncreasing (sym (map-drop stamp n (bars ++ bar ∷ [])))
            (IsIncreasing-drop n (map stamp (bars ++ bar ∷ [])) h),
      )

  replaced-IsBounded :
      (m : ℕ) (bar : Fields F) (bars items : List (Fields F))
      → HasStamp bar
      → IsBounded m bars
      → replaced (stamp bar) bar bars ≡ some items
      → IsBounded m (extend_bounded m [] items)
  replaced-IsBounded m bar bars items s h e =
      let same = stamps-replaced (stamp bar) bar bars refl items e in
      let size : length items ≤ m =
        omega (arith, h.0, length-map stamp items, length-map stamp bars, ap length same) in
      subst (IsBounded m) (sym (extend_bounded_room m [] items (omega (arith, size))))
        (size, has-replaced (stamp bar) bar bars s h.1 items e, subst IsIncreasing (sym same) h.2)

  placed-IsBounded :
      (m : ℕ) (bar : Fields F) (bars : List (Fields F))
      → HasStamp bar
      → IsBounded m bars
      → IsBounded m (placed m (stamp bar) bar bars)
  unfolding placed
  placed-IsBounded m bar bars s h =
      option_cases (IsBounded m) (replaced (stamp bar) bar bars)
        (λ new.
          if_cases (IsBounded m) (is_late (stamp bar) bars) (λ late. h)
            λ next.
              append_bounded-IsBounded m bars bar (All-append HasStamp bars (bar ∷ []) h.1 (s, tt))
                (stamps-append bar bars h.1 new next h.2))
        λ items e. replaced-IsBounded m bar bars items s h e

  normalized-HasStamp : (bar : Fields F) → HasStamp bar → HasStamp (normalized bar)
  unfolding normalized
  normalized-HasStamp bar h = has-put_ne "ts_close" "ticker" _ bar refl ∙ h

  required_stamp :
      (bar : Fields F) → keep (λ name. not (has name bar)) required_fields ≡ [] → HasStamp bar
  unfolding keep
  required_stamp bar h = ground arith

  get_or_create-IsBounded :
      (ticker : String) (b : BarBuffer F) (bars : List (Fields F))
      → IsWellFormed b
      → get_or_create ticker b ≡ ok bars
      → IsBounded (pos_part b.max_bars) bars
  unfolding get_or_create
  get_or_create-IsBounded ticker b bars h =
      option_cases Q (lookup ticker b.buffers)
        (λ absent.
          if_cases Q (ltb_ℤ b.max_bars (pos 0)) (λ n e. cc)
            λ n e. subst (IsBounded (pos_part b.max_bars)) {x = []} (ground arith) nothing)
        λ found there e.
          subst (IsBounded (pos_part b.max_bars)) {x = found} (ground arith)
            (lookup-AllValues (IsBounded (pos_part b.max_bars)) ticker b.buffers h there)
    where
      Q : Result BufferError (List (Fields F)) → Type 0
      Q r = r ≡ ok bars → IsBounded (pos_part b.max_bars) bars

      nothing : IsBounded (pos_part b.max_bars) []
      nothing = (omega arith, tt, tt)

  push_into-IsWellFormed :
      (bar : Fields F) (b : BarBuffer F) (r : Result BufferError (List (Fields F)))
      → HasStamp bar
      → IsWellFormed b
      → ((bars : List (Fields F)) → r ≡ ok bars → IsBounded (pos_part b.max_bars) bars)
      → IsWellFormed (push_into bar b r).1
  unfolding push_into
  push_into-IsWellFormed bar b (err e) s h g = h
  push_into-IsWellFormed bar b (ok bars) s h g =
      insert-AllValues (IsBounded (pos_part b.max_bars)) (pad_ticker (text_of (get "ticker" bar))) _
        b.buffers
        (placed-IsBounded (pos_part b.max_bars) (normalized bar) bars (normalized-HasStamp bar s)
          (g bars refl))
        h

  push_checked-IsWellFormed :
      (bar : Fields F) (b : BarBuffer F) (missing : List String)
      → (missing ≡ [] → HasStamp bar)
      → IsWellFormed b
      → IsWellFormed (push_checked bar b missing).1
  unfolding push_checked
  push_checked-IsWellFormed bar b [] s h =
      push_into-IsWellFormed bar b (get_or_create (pad_ticker (text_of (get "ticker" bar))) b)
        (s refl) h
        (λ bars e. get_or_create-IsBounded (pad_ticker (text_of (get "ticker" bar))) b bars h e)
  push_checked-IsWellFormed bar b (name ∷ names) s h = h

  pub push-IsWellFormed :
      (bar : Value F) (b : BarBuffer F) → IsWellFormed b → IsWellFormed (push bar b).1
  unfolding push
  push-IsWellFormed null b h = h
  push-IsWellFormed (bool x) b h = h
  push-IsWellFormed (int n) b h = h
  push-IsWellFormed (float x) b h = h
  push-IsWellFormed (str s) b h = h
  push-IsWellFormed (list vs) b h = h
  push-IsWellFormed (dict bar) b h =
      push_checked-IsWellFormed bar b (keep (λ name. not (has name bar)) required_fields)
        (required_stamp bar) h

  clear-IsWellFormed :
      (ticker : Option String) (b : BarBuffer F) → IsWellFormed b → IsWellFormed (clear ticker b)
  unfolding clear
  clear-IsWellFormed none b h = tt
  clear-IsWellFormed (some ticker) b h =
      if_cases IsWellFormed (contains (pad_ticker ticker) b.buffers)
        (λ e.
          insert-AllValues (IsBounded (pos_part b.max_bars)) (pad_ticker ticker) [] b.buffers
            (omega arith, tt, tt) h)
        (λ e. h)

  step-IsWellFormed : (b : BarBuffer F) (c : Call F) → IsWellFormed b → IsWellFormed (step b c)
  unfolding step
  step-IsWellFormed b (pushes bar) h = push-IsWellFormed bar b h
  step-IsWellFormed b (clears ticker) h = clear-IsWellFormed ticker b h

  run-IsWellFormed :
      (b : BarBuffer F) (cs : List (Call F)) → IsWellFormed b → IsWellFormed (run b cs)
  unfolding run
  run-IsWellFormed b [] h = h
  run-IsWellFormed b (c ∷ cs) h = run-IsWellFormed (step b c) cs (step-IsWellFormed b c h)

  -- After any pushes and clears on a new buffer, refused ones included, every ticker has no more bars
  -- than the size given to the buffer (none, if that is negative), each bar has a time stamp, and
  -- the stamps increase strictly, as texts, from the oldest bar to the newest.
  pub run-empty_buffer-IsWellFormed :
      (max_bars : ℤ) (cs : List (Call F)) → IsWellFormed (run (empty_buffer max_bars) cs)
  unfolding empty_buffer
  run-empty_buffer-IsWellFormed max_bars cs = run-IsWellFormed (empty_buffer max_bars) cs tt

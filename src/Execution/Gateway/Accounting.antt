-- ===== src/Execution/Gateway/Accounting.antt =====
-- The report of the broker path accounts for every delta, and its status says how they ended.
use flephant.Base.{
  ℕ, ◌+◌, String, true, false, not, ◌≡◌, refl, ◌↔◌, ◌⊎◌, inl, inr, ap, ◌∙◌, Option, none, some,
  List, [], ◌∷◌, ◌++◌, append_nil, arith, length, if_cases, option_cases, sym,
}
use flephant.Base.Int.{pos}
use flephant.Python.Value.{Value, Fields, Runtime}
use flephant.Execution.Gateway.Types.{
  Client, Gateway, SubmitRejection, invalid_delta, broker_submit_exception, refused, Fill,
  Rejection, rejected, World, Env,
}
use flephant.Execution.Gateway.Submit.{
  Tally, order_of, delta_is_valid, delta_price, answer_fields, broker_order_id,
  broker_response_rejection_reason, rejection, fill, submit_delta, submit_loop, answered,
  reject_one, fill_one, send,
}
use flephant.Execution.Gateway.Broker.{final_status, broker_report, submit_all}

append_one {ℓ} :
    {A : Type ℓ} (xs : List A) (y : A) (ys : List A) → (xs ++ y ∷ []) ++ ys ≡ xs ++ y ∷ ys
append_one [] y ys = refl
append_one (x ∷ xs) y ys = ap (λ zs. x ∷ zs) (append_one xs y ys)

module _ {F : Type 0} ⦃py : Runtime F⦄ (g : Gateway F) (client : Client F) where
  -- The fill has the ticker, the side and the quantity of the order of the delta, which is valid.
  abbrev pub IsFillOf : Fields F → Fill F → Type 0
  IsFillOf od f =
      let order = order_of client od in
      (f.ticker ≡ order.ticker)
      × (f.side ≡ order.side)
      × (f.qty ≡ order.qty)
      × (delta_is_valid g client od ≡ true)

  -- So has the rejection, and its reason says whether the delta is valid.
  abbrev pub IsRejectionOf : Fields F → Rejection F → Type 0
  IsRejectionOf od r =
      let order = order_of client od in
      (r.ticker ≡ order.ticker)
      × (r.side ≡ order.side)
      × (r.qty ≡ order.qty)
      × ((r.reason ≡ invalid_delta) ↔ (delta_is_valid g client od ≡ false))

  -- The deltas, taken apart into those of the fills and those of the rejections, both in their order.
  pub data IsAccounted : List (Fields F) → List (Fill F) → List (Rejection F) → Type 0 where
    all_done : IsAccounted [] [] []
    one_filled :
        {od : Fields F} {ods : List (Fields F)} {f : Fill F} {fs : List (Fill F)}
        {rs : List (Rejection F)}
        → IsFillOf od f
        → IsAccounted ods fs rs
        → IsAccounted (od ∷ ods) (f ∷ fs) rs
    one_refused :
        {od : Fields F} {ods : List (Fields F)} {fs : List (Fill F)} {r : Rejection F}
        {rs : List (Rejection F)}
        → IsRejectionOf od r
        → IsAccounted ods fs rs
        → IsAccounted (od ∷ ods) fs (r ∷ rs)

  -- A round adds a fill of its delta, or a rejection of it.
  abbrev AddsOne : Fields F → Tally F → Tally F → Type 0
  AddsOne od t t' =
      ((f : Fill F) × IsFillOf od f
        × (t'.fills ≡ t.fills ++ f ∷ [])
        × (t'.rejections ≡ t.rejections))
      ⊎ ((r : Rejection F) × IsRejectionOf od r
          × (t'.fills ≡ t.fills)
          × (t'.rejections ≡ t.rejections ++ r ∷ []))

  refused-AddsOne :
      (od : Fields F) (reason : SubmitRejection F) (t : Tally F)
      → ((reason ≡ invalid_delta) ↔ (delta_is_valid g client od ≡ false))
      → AddsOne od t (reject_one (order_of client od) reason t)
  unfolding reject_one rejection
  refused-AddsOne od reason t why =
      inr (rejection (order_of client od) reason, (refl, refl, refl, why), refl, refl)

  answered-AddsOne :
      (env : Env F) (od : Fields F) (answer : Option (Value F)) (t : Tally F)
      → delta_is_valid g client od ≡ true
      → AddsOne od t (answered env (order_of client od) (delta_price od) answer t)
  unfolding answered fill_one fill
  answered-AddsOne env od none t valid =
      refused-AddsOne od broker_submit_exception t (λ e. cc, λ e. cc)
  answered-AddsOne env od (some v) t valid =
      let answer = answer_fields v in
      option_cases (AddsOne od t) (broker_response_rejection_reason answer (broker_order_id answer))
        (λ e. inl (_, (refl, refl, refl, valid), refl, refl))
        (λ reason e. refused-AddsOne od (refused reason answer) t (λ e. cc, λ e. cc))

  submit_delta-AddsOne :
      (env : Env F) (od : Fields F) (t : Tally F) → AddsOne od t (submit_delta g env client od t)
  unfolding submit_delta
  submit_delta-AddsOne env od t =
      if_cases (AddsOne od t) (not (delta_is_valid g client od))
        (λ bad. refused-AddsOne od invalid_delta t (λ e. ground arith, λ e. refl))
        λ good.
          answered-AddsOne env od (env.submit_order t.world.trace (order_of client od))
            (record t { world = send (order_of client od) t.world }) (ground (arith, good))

  -- What the loop adds to the fills and the rejections accounts for its deltas.
  abbrev AddsAll : List (Fields F) → Tally F → Tally F → Type 0
  AddsAll ods t t' =
      (fs : List (Fill F)) × (rs : List (Rejection F)) × (t'.fills ≡ t.fills ++ fs)
      × (t'.rejections ≡ t.rejections ++ rs)
      × IsAccounted ods fs rs

  submit_loop-AddsAll :
      (env : Env F) (ods : List (Fields F)) (t : Tally F)
      → AddsAll ods t (submit_loop g env client ods t)
  unfolding submit_loop
  submit_loop-AddsAll env [] t =
      ([], [], sym (append_nil t.fills), sym (append_nil t.rejections), all_done)
  submit_loop-AddsAll env (od ∷ ods) t =
      let (fs, rs, f_eq, r_eq, rest) =
        submit_loop-AddsAll env ods (submit_delta g env client od t) in
      elim (submit_delta-AddsOne env od t) [
        | inl (f, is_fill, f_one, r_same) ↦ (
          f ∷ fs,
          rs,
          f_eq ∙ ap (λ xs. xs ++ fs) f_one ∙ append_one t.fills f fs,
          r_eq ∙ ap (λ xs. xs ++ rs) r_same,
          one_filled is_fill rest,
        )
        | inr (r, is_rejection, f_same, r_one) ↦ (
          fs,
          r ∷ rs,
          f_eq ∙ ap (λ xs. xs ++ fs) f_same,
          r_eq ∙ ap (λ xs. xs ++ rs) r_one ∙ append_one t.rejections r rs,
          one_refused is_rejection rest,
        )
      ]

  length-IsAccounted :
      {ods : List (Fields F)} {fs : List (Fill F)} {rs : List (Rejection F)}
      → IsAccounted ods fs rs
      → length fs + length rs ≡ length ods
  length-IsAccounted all_done = omega arith
  length-IsAccounted (one_filled h rest) = omega (arith, length-IsAccounted rest)
  length-IsAccounted (one_refused h rest) = omega (arith, length-IsAccounted rest)

module _ {F : Type 0} ⦃py : Runtime F⦄ where
  final_status_rejected :
      (n : ℕ) (fs : List (Fill F)) (rs : List (Rejection F))
      → length fs + length rs ≡ n
      → (final_status fs rs ≡ rejected) ↔ (length rs ≡ n)
  unfolding final_status
  final_status_rejected n [] rs h = (λ e. omega (arith, h), λ e. refl)
  final_status_rejected n (f ∷ fs) [] h = ground (arith, h)
  final_status_rejected n (f ∷ fs) (r ∷ rs) h = (λ e. cc, λ e. absurd (omega (arith, h, e)))

  -- The broker path accounts for every delta: its fills and rejections are the deltas taken apart, each
  -- delta in one of the two, once and in its order, with the ticker, the side and the quantity that
  -- were read from it; what is filled is valid, and what is refused as an invalid delta is what is not.
  -- The status is `rejected` exactly if the rejections are as many as the deltas.
  pub submit_all_accounts :
      (g : Gateway F) (env : Env F) (client : Client F) (plan decision : String)
      (ods : List (Fields F)) (w : World F)
      → let report = (submit_all g env client plan decision ods w).0 in
        IsAccounted g client ods report.fills report.rejections
        × ((report.status ≡ rejected) ↔ (length report.rejections ≡ length ods))
  unfolding submit_all broker_report
  submit_all_accounts g env client plan decision ods w =
      let start : Tally F = record {
        world = w;
        fills = [];
        rejections = [];
        estimated_cost = py.of_int (pos 0);
      } in
      let done = submit_loop g env client ods start in
      let (fs, rs, f_eq, r_eq, taken) = submit_loop-AddsAll g client env ods start in
      let accounted : IsAccounted g client ods done.fills done.rejections = rw (f_eq, r_eq) taken in
      (
        accounted,
        final_status_rejected (length ods) done.fills done.rejections
            (length-IsAccounted g client accounted),
      )

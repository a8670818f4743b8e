-- ===== src/Ops/JobStore/Refinement.antt =====
-- The table implements a history of runs: a function from identifiers to runs.
use flephant.Base.{
  String, true, ◌&&◌, ◌≡◌, refl, ap, ◌∙◌, ◌↔◌, Option, none, some, List, [], ◌∷◌, str_eq, eq_iff,
  arith, if◌then◌else◌, any, lookup, contains, IsKeyed, insert-IsKeyed, lookup-insert, if_cases,
  option_cases, Bool-cases, inl, inr, subst, sym, eq_refl,
}
use flephant.Base.Result.{Result}
use flephant.Ops.JobStore.{
  Json, Row, Table, Finish, StoreError, started_row, finished_row, create_run, finish_run,
  has_passed_target, Call, creates, finishes, step, run,
}

-- A history: the run under each identifier, if there is one.
abbrev pub History : Type 0
History = String → Option Row

-- What the table says.
abbrev pub history_of : Table → History
history_of rows id = lookup id rows

unfoldable pub finished_or_none : {F : Type 0} → Json F → Finish F → Option Row → Option Row
finished_or_none json f none = none
finished_or_none json f (some r) = some (finished_row json f r)

module _ {F : Type 0} (json : Json F) where
  -- The calls on a history: a new identifier starts a run, a known one is left alone; a known run is
  -- finished.
  unfoldable pub history_step : History → Call F → History
  unfolding finished_or_none
  history_step h (creates run_id s) id = elim (h run_id) [
    | none ↦ if str_eq run_id id then some (started_row json s) else h id
    | some r ↦ h id
  ]
  history_step h (finishes run_id f) id =
      if str_eq run_id id then finished_or_none json f (h id) else h id

  unfoldable pub history_run : History → List (Call F) → History
  history_run h [] = h
  history_run h (c ∷ cs) = history_run (history_step h c) cs

  step-history :
      (rows : Table) (c : Call F) (id : String)
      → lookup id (step json rows c) ≡ history_step (history_of rows) c id
  unfolding step history_step create_run finish_run finished_or_none
  step-history rows (creates run_id s) id =
      ground (arith, lookup-insert run_id id (started_row json s) rows)
  step-history rows (finishes run_id f) id =
      option_cases
        (λ (t : Table).
          lookup id t
          ≡ (if str_eq run_id id then finished_or_none json f (lookup id rows) else lookup id rows))
        (lookup run_id rows) (λ absent. ground (arith, eq_iff run_id id))
        λ r found.
          ground (arith, eq_iff run_id id, lookup-insert run_id id (finished_row json f r) rows)

  step-IsKeyed : (rows : Table) (c : Call F) → IsKeyed rows → IsKeyed (step json rows c)
  unfolding step create_run finish_run
  step-IsKeyed rows (creates run_id s) h =
      if_cases (λ (q : Result StoreError String × Table). IsKeyed q.1) (contains run_id rows)
        (λ e. h) (λ e. insert-IsKeyed run_id (started_row json s) rows h)
  step-IsKeyed rows (finishes run_id f) h =
      option_cases IsKeyed (lookup run_id rows) (λ e. h)
        (λ r e. insert-IsKeyed run_id (finished_row json f r) rows h)

  run-IsKeyed : (rows : Table) (cs : List (Call F)) → IsKeyed rows → IsKeyed (run json rows cs)
  unfolding run
  run-IsKeyed rows [] h = h
  run-IsKeyed rows (c ∷ cs) h = run-IsKeyed (step json rows c) cs (step-IsKeyed rows c h)

  run_history :
      (rows : Table) (cs : List (Call F))
      → history_of (run json rows cs) ≡ history_run (history_of rows) cs
  unfolding run history_run
  run_history rows [] = refl
  run_history rows (c ∷ cs) =
      run_history (step json rows c) cs
      ∙ ap (λ h. history_run h cs) (λ i id. step-history rows c id i)

-- A run of that target has passed.
abbrev pub IsPassed : String → History → Type 0
IsPassed target h =
    (id : String) × (r : Row) × (h id ≡ some r) × (r.target_end_date ≡ target) × (r.status ≡ "PASS")

has_passed_target_found :
    (target : String) (rows : Table)
    → IsKeyed rows
    → has_passed_target target rows ≡ true
    → IsPassed target (history_of rows)
unfolding has_passed_target any
has_passed_target_found target [] h p = cc
has_passed_target_found target ((k, r) ∷ rows) h p =
    elim (Bool-cases (str_eq r.target_end_date target && str_eq r.status "PASS")) [
      | inl yes' ↦ (
        k,
        r,
        ground (arith, eq_refl k),
        ground (arith, yes', eq_iff r.target_end_date target),
        ground (arith, yes', eq_iff r.status "PASS"),
      )
      | inr no' ↦
          let (id, found, e, t, s) =
            has_passed_target_found target rows h.1 (ground (arith, no', p)) in
          (id, found, ground (arith, h.0, e, eq_iff k id), t, s)
    ]

passes :
    (target : String) (r : Row)
    → r.target_end_date ≡ target
    → r.status ≡ "PASS"
    → str_eq r.target_end_date target && str_eq r.status "PASS" ≡ true
passes target r t s = rw (t, s) (ground (arith, eq_refl target))

has_passed_target_of :
    (target id : String) (r : Row) (rows : Table)
    → lookup id rows ≡ some r
    → r.target_end_date ≡ target
    → r.status ≡ "PASS"
    → has_passed_target target rows ≡ true
unfolding has_passed_target any
has_passed_target_of target id r [] e t s = cc
has_passed_target_of target id r ((k, q) ∷ rows) e t s = elim (Bool-cases (str_eq k id)) [
  | inl here ↦
      let p =
        subst (λ z. str_eq z.target_end_date target && str_eq z.status "PASS" ≡ true) {x = r}
          {y = q} (ground (arith, e, here)) (passes target r t s) in
      ground (arith, p)
  | inr later ↦ ground (arith, has_passed_target_of target id r rows (ground (arith, e, later)) t s)
]

-- From an empty table, after any runs started and finished, the table is the history that the same
-- calls make of an empty one, where an identifier that is taken starts nothing and an unknown one
-- finishes nothing; and a target has passed exactly if the history has a run of it with that status.
pub run-refines :
    {F : Type 0} (json : Json F) (cs : List (Call F))
    → (history_of (run json [] cs) ≡ history_run json (λ id. none) cs)
      × ((target : String)
          → (has_passed_target target (run json [] cs) ≡ true)
            ↔ IsPassed target (history_run json (λ id. none) cs))
run-refines json cs =
    let same = run_history json [] cs in
    let keyed = run-IsKeyed json [] cs tt in
    (
      same,
      λ target. (
        λ p. subst (IsPassed target) same (has_passed_target_found target (run json [] cs) keyed p),
        λ p.
            let (id, r, e, t, s) = subst (IsPassed target) (sym same) p in
            has_passed_target_of target id r (run json [] cs) e t s,
      ),
    )

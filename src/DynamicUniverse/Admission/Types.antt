-- ===== src/DynamicUniverse/Admission/Types.antt =====
-- The state of `AdmissionEngine` and the events of admission. The rules and the two universes are
-- what the constructor has read. Instants are whole microseconds.
use flephant.Base.{String, List, [], ◌∷◌, Dict}
use flephant.Base.Int.{ℤ}
use flephant.Python.Value.{Items, Fields, Raised, str, int, list, nil, cons, end, field}

-- `admission_event`
pub record AdmissionEvent : Type 0 where
  pub admission_event_id : String
  pub ts : String
  pub ticker : String
  pub trigger_ids : List String
  pub ttl_sec : ℤ
  pub admitted_at : String

pub record AdmissionEngine (F : Type 0) : Type 0 where
  pub min_trigger_count : ℤ
  pub cooldown_sec : ℤ
  pub candidate_pool_max : ℤ
  pub ttl_sec : ℤ
  pub admission_rules : List (Fields F)
  pub trade_tickers : List String
  pub watch_tickers : List String
  pub candidate_pool : Dict AdmissionEvent
  pub cooldown_map : Dict ℤ

-- What `handle_event` raises.
pub data AdmissionError : Type 0 where
  pit_violation : AdmissionError
  raised : Raised → AdmissionError

module _ {F : Type 0} where
  texts : List String → Items F
  texts [] = nil
  texts (s ∷ ss) = cons (str s) (texts ss)

  -- the event as the dict that it is
  unfoldable pub event_fields : AdmissionEvent → Fields F
  unfolding texts
  event_fields e = field "admission_event_id" (str e.admission_event_id) (
      field "ts" (str e.ts) (
        field "ticker" (str e.ticker) (
          field "trigger_ids" (list (texts e.trigger_ids))
            (field "ttl_sec" (int e.ttl_sec) (field "admitted_at" (str e.admitted_at) end)))))

-- ===== src/Python/Calendar.antt =====
-- What the sources use of `datetime`, given by the standard library: instants are whole microseconds.
use flephant.Base.{String, Option}
use flephant.Base.Int.{ℤ}

-- `datetime.fromisoformat` (a text without a zone is in KST; `none` for ValueError), `isoformat`,
-- and `datetime.max`, beyond which a sum raises OverflowError. A timedelta that is too long itself raises
-- the same, and is always beyond it.
pub record Calendar : Type 0 where
  pub parse : String → Option ℤ
  pub render : ℤ → String
  pub latest : ℤ

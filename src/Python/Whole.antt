-- ===== src/Python/Whole.antt =====
-- A runtime whose floats are whole numbers, to run the program on in the tests.
use flephant.Base.{true, none, ◌/◌}
use flephant.Base.Int.{ℤ, pos, pos_part, ◌+ℤ◌, ◌-ℤ◌, ◌*ℤ◌, ltb_ℤ, leb_ℤ, eqb_ℤ}
use flephant.Python.Value.{Runtime, show_int}

-- Rounded down for positive numbers, which is all that the tests divide.
abbrev quotient : ℤ → ℤ → ℤ
quotient a b = pos (pos_part a / pos_part b)

instance abbrev pub whole : Runtime ℤ
whole = record {
  of_int = λ n. n;
  parse = λ s. none;
  parse_int = λ s. none;
  is_finite = λ x. true;
  is_integer = λ x. true;
  truncate = λ x. x;
  ceil = λ x. x;
  floor = λ x. x;
  lt = ltb_ℤ;
  le = leb_ℤ;
  eq = eqb_ℤ;
  add = ◌+ℤ◌;
  sub = ◌-ℤ◌;
  mul = ◌*ℤ◌;
  div = quotient;
  neg = λ x. pos 0 -ℤ x;
  round = λ digits x. x;
  show = show_int;
  show_list = λ vs. "[...]";
  show_dict = λ d. "{...}";
  repr = λ v. "...";
}

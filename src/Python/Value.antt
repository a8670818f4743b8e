-- ===== src/Python/Value.antt =====
-- Values whose type the program only learns by `isinstance`: the content of decisions, proofs,
-- configuration and messages. The type of floats is a parameter.
use flephant.Base.{
  ℕ, String, Bool, true, false, not, Option, List, [], ◌∷◌, ◌==◌, str_eq, if◌then◌else◌,
}
use flephant.Base.Int.{ℤ, pos, negsuc}
use flephant.Python.Text.{decimal}
use Prim.Native.String.{◌++◌ as join}

mutual
  pub data Value (F : Type 0) : Type 0 where
    null : Value F
    bool : Bool → Value F
    int : ℤ → Value F
    float : F → Value F
    str : String → Value F
    list : Items F → Value F
    dict : Fields F → Value F

  pub data Items (F : Type 0) : Type 0 where
    nil : Items F
    cons : Value F → Items F → Items F

  pub data Fields (F : Type 0) : Type 0 where
    end : Fields F
    field : String → Value F → Fields F → Fields F

-- What the interpreter does with a float, and the text of a list or a dict: given by the platform.
pub record Runtime (F : Type 0) : Type 0 where
  pub of_int : ℤ → F
  pub parse : String → Option F  -- `float(text)`; `none` for ValueError
  pub parse_int : String → Option ℤ  -- `int(text)`; `none` for ValueError
  pub is_finite : F → Bool
  pub is_integer : F → Bool
  pub truncate : F → ℤ  -- `int(x)`
  pub ceil : F → ℤ
  pub floor : F → ℤ
  pub lt : F → F → Bool
  pub le : F → F → Bool
  pub eq : F → F → Bool
  pub add : F → F → F
  pub sub : F → F → F
  pub mul : F → F → F
  pub div : F → F → F
  pub neg : F → F
  pub round : ℕ → F → F
  pub show : F → String
  pub show_list : Items F → String
  pub show_dict : Fields F → String
  pub repr : Value F → String

module _ {F : Type 0} where
  -- `d.get(k)`: `None` where the key is missing
  abbrev pub get : String → Fields F → Value F
  get k end = null
  get k (field j v d) = if str_eq j k then v else get k d

  -- `k in d`
  abbrev pub has : String → Fields F → Bool
  has k end = false
  has k (field j v d) = if str_eq j k then true else has k d

  -- `d.get(k, default)`
  abbrev pub get_or : String → Value F → Fields F → Value F
  get_or k default end = default
  get_or k default (field j v d) = if str_eq j k then v else get_or k default d

  -- `d[k] = v`
  abbrev pub put : String → Value F → Fields F → Fields F
  put k v end = field k v end
  put k v (field j w d) = if str_eq j k then field j v d else field j w (put k v d)

  -- `isinstance(value, dict)`
  abbrev pub is_dict : Value F → Bool
  is_dict (dict d) = true
  is_dict _ = false

  -- The fields of a value that is a dict; no field of any other.
  abbrev pub fields_of : Value F → Fields F
  fields_of (dict d) = d
  fields_of _ = end

  abbrev pub is_null : Value F → Bool
  is_null null = true
  is_null _ = false

  abbrev pub items : Items F → List (Value F)
  items nil = []
  items (cons v vs) = v ∷ items vs

abbrev pub nonempty : String → Bool
nonempty s = not (str_eq s "")

-- An operation that a value of that type does not have, or a value that a conversion refuses.
pub data Raised : Type 0 where
  type_error attribute_error value_error : Raised

-- `str(n)`
abbrev pub show_int : ℤ → String
show_int (pos n) = decimal n
show_int (negsuc n) = join "-" (decimal (ℕ.suc n))

module _ {F : Type 0} ⦃py : Runtime F⦄ where
  -- `bool(value)`
  unfoldable pub truthy : Value F → Bool
  truthy null = false
  truthy (bool b) = b
  truthy (int (pos n)) = not (n == 0)
  truthy (int (negsuc n)) = true
  truthy (float x) = not (py.eq x (py.of_int (pos 0)))
  truthy (str s) = nonempty s
  truthy (list nil) = false
  truthy (list (cons v vs)) = true
  truthy (dict end) = false
  truthy (dict (field k v d)) = true

  -- `a or b`
  unfoldable pub or_else : Value F → Value F → Value F
  unfolding truthy
  or_else a b = if truthy a then a else b

  -- `str(value)`
  unfoldable pub text_of : Value F → String
  text_of null = "None"
  text_of (bool true) = "True"
  text_of (bool false) = "False"
  text_of (int n) = show_int n
  text_of (float x) = py.show x
  text_of (str s) = s
  text_of (list vs) = py.show_list vs
  text_of (dict d) = py.show_dict d

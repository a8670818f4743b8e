-- ===== src/Python/Text.antt =====
-- The methods of Python's `str` that the program calls. Letters and digits are those of ASCII, so
-- case mapping and `isdigit` are modelled on ASCII text; white space is Python's full list.
use Prim.Native.Nat.{Ordering}
use Prim.Native.Char.{Char, code}
use Prim.Native.String.{char_at, count, compare}
use Prim.Native.String.{◌++◌ as join}
use flephant.Base.{
  ℕ, zero, suc, ◌+◌, ◌-◌, ◌/◌, ◌%◌, Bool, true, false, ◌&&◌, ◌||◌, String, ltb, leb, ◌==◌,
  if◌then◌else◌,
}

abbrev in_range : ℕ → ℕ → ℕ → Bool
in_range lo hi c = leb lo c && leb c hi

-- `c.isspace()`
unfoldable pub is_space : Char → Bool
is_space ch =
    let c = code ch in
    in_range 9 13 c
    || in_range 28 32 c
    || c == 0x85
    || c == 0xa0
    || c == 0x1680
    || in_range 0x2000 0x200a c
    || c == 0x2028
    || c == 0x2029
    || c == 0x202f
    || c == 0x205f
    || c == 0x3000

unfoldable pub is_digit : Char → Bool
is_digit ch = in_range 48 57 (code ch)

lower_char : Char → Char
lower_char ch =
    if in_range 65 90 (code ch) then char_at "abcdefghijklmnopqrstuvwxyz" (code ch - 65) else ch

upper_char : Char → Char
upper_char ch =
    if in_range 97 122 (code ch) then char_at "ABCDEFGHIJKLMNOPQRSTUVWXYZ" (code ch - 97) else ch

-- `s.lower()`
unfoldable pub lower : String → String
unfolding lower_char
lower String.[] = String.[]
lower (String.◌∷◌ c s) = String.◌∷◌ (lower_char c) (lower s)

-- `s.upper()`
unfoldable pub upper : String → String
unfolding upper_char
upper String.[] = String.[]
upper (String.◌∷◌ c s) = String.◌∷◌ (upper_char c) (upper s)

unfoldable pub lstrip : String → String
unfolding is_space
lstrip String.[] = String.[]
lstrip (String.◌∷◌ c s) = let rest = lstrip s in if is_space c then rest else String.◌∷◌ c s

is_empty : String → Bool
is_empty String.[] = true
is_empty (String.◌∷◌ c s) = false

unfoldable pub rstrip : String → String
unfolding is_space is_empty
rstrip String.[] = String.[]
rstrip (String.◌∷◌ c s) =
    let rest = rstrip s in if is_space c && is_empty rest then String.[] else String.◌∷◌ c rest

-- `s.strip()`
unfoldable pub strip : String → String
unfolding lstrip rstrip
strip s = rstrip (lstrip s)

all_digits : String → Bool
unfolding is_digit
all_digits String.[] = true
all_digits (String.◌∷◌ c s) = is_digit c && all_digits s

-- `s.isdigit()`: false for the empty text
unfoldable pub isdigit : String → Bool
unfolding all_digits
isdigit String.[] = false
isdigit (String.◌∷◌ c s) = all_digits (String.◌∷◌ c s)

unfoldable pub zeros : ℕ → String → String
zeros zero s = s
zeros (suc n) s = join "0" (zeros n s)

-- a leading sign stays in front of the zeros
unfoldable pub fill : ℕ → String → String
unfolding zeros
fill n String.[] = zeros n String.[]
fill n (String.◌∷◌ c s) =
    if code c == 43 || code c == 45 then String.◌∷◌ c (zeros n s) else zeros n (String.◌∷◌ c s)

-- `s.zfill(n)`
unfoldable pub zfill : ℕ → String → String
unfolding fill
zfill n s = fill (n - count s) s

-- Decimal digits, least significant last; `n + 1` rounds are enough for `n`.
decimal_loop : ℕ → ℕ → String → String
decimal_loop zero n acc = acc
decimal_loop (suc f) n acc =
    let acc' = join (String.◌∷◌ (char_at "0123456789" (n % 10)) String.[]) acc in
    let rest = decimal_loop f (n / 10) acc' in if ltb n 10 then acc' else rest

-- `str(n)` of a natural number
unfoldable pub decimal : ℕ → String
unfolding decimal_loop
decimal n = decimal_loop (n + 1) n ""

-- `s < t`
unfoldable pub text_lt : String → String → Bool
text_lt s t = elim (compare s t) [ Ordering.lt ↦ true | _ ↦ false ]

-- `s.replace("Z", "+00:00")`
unfoldable pub replace_z : String → String
replace_z String.[] = String.[]
replace_z (String.◌∷◌ c s) =
    let rest = replace_z s in if code c == 90 then join "+00:00" rest else String.◌∷◌ c rest

-- ===== src/Prelude/Text.antt =====
-- What the program does with texts: prefixes, substrings and ASCII case, on lists of code points,
-- and texts compared whole.
use Prim.Native.Char.{code}
use Prim.Native.Nat.{ℕ, zero, suc, ◌+◌, ◌-◌, ◌*◌, ◌/◌, ◌%◌}
use Prim.Native.String.{String, ◌++◌ as append}
use mathlib.Core.Bool.{Bool, true, false, ◌&&◌, ◌||◌}
use mathlib.Core.List.{List, [], ◌∷◌}
use mathlib.Core.Option.{Option, none, some}
use encodeswarmr.Prelude.Int.{ℤ, pos, ◌-ℤ◌}
use encodeswarmr.Prelude.Tests.{leb, ltb, ◌==◌, if◌then◌else◌}

abbrev pub codes : String → List ℕ
codes String.[] = []
codes (String.◌∷◌ c s) = code c ∷ codes s

-- strings.HasPrefix(s, prefix), the prefix first.
unfoldable pub has_prefix : List ℕ → List ℕ → Bool
has_prefix [] s = true
has_prefix (p ∷ ps) [] = false
has_prefix (p ∷ ps) (c ∷ s) = c == p && has_prefix ps s

-- strings.Contains(s, phrase), the phrase first.
unfoldable pub contains : List ℕ → List ℕ → Bool
unfolding has_prefix
contains phrase [] = has_prefix phrase []
contains phrase (c ∷ s) = has_prefix phrase (c ∷ s) || contains phrase s

-- strings.ToLower on the ASCII letters.
unfoldable pub to_lower : ℕ → ℕ
to_lower c = if leb b'A' c && leb c b'Z' then c + 32 else c

-- The rest of a text behind so many characters.
unfoldable pub drop_chars : ℕ → String → String
drop_chars zero s = s
drop_chars (suc n) String.[] = String.[]
drop_chars (suc n) (String.◌∷◌ c s) = drop_chars n s

abbrev pub is_blank : String → Bool
is_blank String.[] = true
is_blank (String.◌∷◌ c s) = false

-- Without the slashes at the end.
unfoldable pub trim_slashes : String → String
trim_slashes String.[] = String.[]
trim_slashes (String.◌∷◌ c s) =
    let rest = trim_slashes s in
    if code c == b'/' && is_blank rest then String.[] else String.◌∷◌ c rest

unfoldable pub has_slash : String → Bool
has_slash String.[] = false
has_slash (String.◌∷◌ c s) = code c == b'/' || has_slash s

-- What stands behind the last slash.
unfoldable pub last_element : String → String
unfolding has_slash
last_element String.[] = String.[]
last_element (String.◌∷◌ c s) =
    let rest = last_element s in
    if has_slash s then rest else if code c == b'/' then s else String.◌∷◌ c s

-- filepath.Base
unfoldable pub base_name : String → String
unfolding trim_slashes last_element
base_name s =
    if is_blank s
    then "."
    else if is_blank (trim_slashes s)
    then "/"
    else last_element (trim_slashes s)

-- The concatenation of the pieces.
unfoldable pub join : List String → String
join [] = String.[]
join (s ∷ ss) = append s (join ss)

unfoldable pub digit : ℕ → String
digit zero = "0"
digit (suc zero) = "1"
digit (suc (suc zero)) = "2"
digit (suc (suc (suc zero))) = "3"
digit (suc (suc (suc (suc zero)))) = "4"
digit (suc (suc (suc (suc (suc zero))))) = "5"
digit (suc (suc (suc (suc (suc (suc zero)))))) = "6"
digit (suc (suc (suc (suc (suc (suc (suc zero))))))) = "7"
digit (suc (suc (suc (suc (suc (suc (suc (suc zero)))))))) = "8"
digit n = "9"

-- A number in decimal; the number itself is fuel enough for its digits.
unfoldable pub decimal_from : ℕ → ℕ → String
unfolding digit
decimal_from zero n = digit (n % 10)
decimal_from (suc fuel) n =
    let front = decimal_from fuel (n / 10) in
    if ltb n 10 then digit n else append front (digit (n % 10))

-- %04d
unfoldable pub decimal_4 : ℕ → String
unfolding decimal_from
decimal_4 n =
    append (if ltb n 10 then "000" else if ltb n 100 then "00" else if ltb n 1000 then "0" else "")
      (decimal_from n n)

-- The rest of a list behind so many items.
unfoldable pub drop_codes : ℕ → List ℕ → List ℕ
drop_codes zero s = s
drop_codes (suc n) [] = []
drop_codes (suc n) (c ∷ s) = drop_codes n s

unfoldable pub digits_value : ℕ → List ℕ → Option ℕ
digits_value acc [] = some acc
digits_value acc (c ∷ cs) =
    let rest = digits_value (acc * 10 + (c - 48)) cs in
    if leb b'0' c && leb c b'9' then rest else none

abbrev pub int_max : ℕ
int_max = 9223372036854775807

abbrev pub non_negative : Option ℕ → Option ℤ
non_negative none = none
non_negative (some n) = if leb n int_max then some (pos n) else none

abbrev pub non_positive : Option ℕ → Option ℤ
non_positive none = none
non_positive (some n) = if leb n (int_max + 1) then some (pos 0 -ℤ pos n) else none

abbrev pub is_nil {ℓ} : {A : Type ℓ} → List A → Bool
is_nil [] = true
is_nil (x ∷ xs) = false

-- The digits of a number: at least one.
unfoldable pub some_digits : List ℕ → Option ℕ
unfolding digits_value
some_digits cs = if is_nil cs then none else digits_value 0 cs

-- strconv.Atoi: a sign if there is one, and digits of a number that fits 64 bits.
unfoldable pub atoi : List ℕ → Option ℤ
unfolding some_digits ◌-ℤ◌
atoi [] = none
atoi (c ∷ cs) =
    if c == b'-'
    then non_positive (some_digits cs)
    else if c == b'+'
    then non_negative (some_digits cs)
    else non_negative (some_digits (c ∷ cs))

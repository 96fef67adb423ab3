-- ===== src/Engine/Json.antt =====
-- The values that encoding/json decodes into a map[string]any. A number is kept as what the code
-- asks of it: whether it is zero, and the texts that %v and, cut off to an int, %d print for it;
-- any other value as the text that %v prints.
use text.Mathlib.Text.{◌==◌ as str_eq}
use encodeswarmr.Prelude.{
  String, Bool, true, false, List, [], ◌∷◌, Option, none, some, if◌then◌else◌,
}

pub data Json : Type 0 where
  str : String → Json
  flag : Bool → Json
  number : Bool → String → String → Json
  other : String → Json

abbrev pub Config : Type 0
Config = List (String × Json)

unfoldable pub get : String → Config → Option Json
get key [] = none
get key (kv ∷ rest) = let more = get key rest in if str_eq kv.0 key then some kv.1 else more

-- m[key] = value
unfoldable pub set_json : String → Json → Config → Config
set_json key value [] = (key, value) ∷ []
set_json key value (kv ∷ rest) =
    let later = kv ∷ set_json key value rest in
    if str_eq kv.0 key then (key, value) ∷ rest else later

-- s, _ := m[key].(string)
abbrev pub as_text : Option Json → String
as_text (some (Json.str s)) = s
as_text _ = ""

-- b, _ := m[key].(bool)
abbrev pub as_flag : Option Json → Bool
as_flag (some (Json.flag b)) = b
as_flag _ = false

-- fmt.Sprintf("%v", x)
abbrev pub shown : Json → String
shown (Json.str s) = s
shown (Json.flag b) = if b then "true" else "false"
shown (Json.number zero v d) = v
shown (Json.other s) = s

abbrev pub is_present : Option Json → Bool
is_present none = false
is_present (some v) = true

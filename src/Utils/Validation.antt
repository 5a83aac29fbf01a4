-- ===== src/Utils/Validation.antt =====
-- common/utils.py: `validate_uuid`, `validate_user_id`, `validate_password`,
-- `validate_code_length`. A decoded JSON value is a `Value`.
use the_grid_x.Base.{
  ℕ, zero, suc, ℤ, Bool, true, false, ◌&&◌, ◌||◌, Option, none, some, List, [], ◌∷◌, ltb, leb, ◌==◌,
  if◌then◌else◌, length, Text, is_empty,
}

-- What `json.loads` makes of a JSON value. A float counts ten-thousandths; of a list or a dict
-- only whether it has an item matters here.
pub data Value : Type 0 where
  null : Value
  boolean : Bool → Value
  int : ℤ → Value
  real : ℤ → Value
  str : Text → Value
  container : (filled : Bool) → Value

abbrev pub newline : ℕ
newline = 10

abbrev pub is_digit : ℕ → Bool
is_digit c = leb b'0' c && leb c b'9'

-- `[0-9a-f]` under `re.IGNORECASE`
unfoldable pub is_hex : ℕ → Bool
is_hex c = is_digit c || leb b'a' c && leb c b'f' || leb b'A' c && leb c b'F'

-- `[89ab]` under `re.IGNORECASE`
unfoldable pub is_variant : ℕ → Bool
is_variant c = c == b'8' || c == b'9' || c == b'a' || c == b'b' || c == b'A' || c == b'B'

abbrev pub Class : Type 0
Class = ℕ → Bool

-- `c{n}` in front of a pattern.
abbrev pub times : ℕ → Class → List Class → List Class
times zero c rest = rest
times (suc n) c rest = c ∷ times n c rest

abbrev pub dash : Class
dash c = c == b'-'

-- `[0-9a-f]{8}-[0-9a-f]{4}-4[0-9a-f]{3}-[89ab][0-9a-f]{3}-[0-9a-f]{12}`
unfoldable pub uuid_pattern : List Class
uuid_pattern = times 8 is_hex (
    dash
    ∷ times 4 is_hex (
        dash
        ∷ (λ c. c == b'4')
        ∷ times 3 is_hex (dash ∷ is_variant ∷ times 3 is_hex (dash ∷ times 12 is_hex []))))

-- `re.match(r'^…$', s)` of a sequence of classes. In Python `$` also stands before a newline at
-- the end of the string.
unfoldable pub match_classes : List Class → Text → Bool
match_classes [] [] = true
match_classes [] (c ∷ s) = c == newline && is_empty s
match_classes (p ∷ ps) [] = false
match_classes (p ∷ ps) (c ∷ s) = p c && match_classes ps s

unfoldable pub validate_uuid : Text → Bool
validate_uuid value = match_classes uuid_pattern value

-- `[a-zA-Z0-9_-]`
unfoldable pub is_id_char : ℕ → Bool
is_id_char c =
    leb b'a' c && leb c b'z' || leb b'A' c && leb c b'Z' || is_digit c || c == b'_' || c == b'-'

-- `[a-zA-Z0-9_-]*$`
unfoldable pub match_id_rest : Text → Bool
match_id_rest [] = true
match_id_rest (c ∷ s) = if is_id_char c then match_id_rest s else c == newline && is_empty s

-- `re.match(r'^[a-zA-Z0-9_-]+$', s)`
unfoldable pub match_id : Text → Bool
match_id [] = false
match_id (c ∷ s) = is_id_char c && match_id_rest s

unfoldable pub validate_user_id : Value → Bool
validate_user_id (str s) =
    if is_empty s
    then false
    else if ltb (length s) 1 || ltb 64 (length s)
    then false
    else match_id s
validate_user_id _ = false

pub data PasswordError : Type 0 where
  required too_short too_long : PasswordError

unfoldable pub validate_password : Value → Bool × Option PasswordError
validate_password (str s) =
    if is_empty s
    then (false, some required)
    else if ltb (length s) 8
    then (false, some too_short)
    else if ltb 128 (length s)
    then (false, some too_long)
    else (true, none)
validate_password _ = (false, some required)

unfoldable pub validate_code_length : Value → ℕ → Bool
validate_code_length (str s) max_length = ltb 0 (length s) && leb (length s) max_length
validate_code_length _ max_length = false

-- ===== src/Api/Request.antt =====
-- coordinator/main.py: what a request to submit a job holds, and how an endpoint can end.
use the_grid_x.Base.{
  ℕ, ◌/◌, ℤ, pos, negsuc, suc, ◌-ℤ◌, Bool, false, not, ◌||◌, ltb, Option, none, some, List, [], ◌∷◌,
  Text, text, text_eq, is_empty, length, if◌then◌else◌, or_else,
}
use the_grid_x.Database.{is_zero}
use the_grid_x.Utils.{Value, null, boolean, int, real, str, container}

-- `raise HTTPException(…)`, or an exception that the general handler answers with 500.
pub data HttpError : Type 0 where
  bad_request not_found payment_required internal_error : HttpError

pub data Response {ℓ} (A : Type ℓ) : Type ℓ where
  answer : A → Response A
  http_error : HttpError → Response A

-- The common/constants.py names of the codes.
abbrev pub status_code : HttpError → ℕ
status_code bad_request = 400
status_code payment_required = 402
status_code not_found = 404
status_code internal_error = 500

-- `body.get("limits") or {}`: falsy, a dict with what it has under "timeout_s" (null if nothing),
-- or some other value, which has no `get`.
pub data Limits : Type 0 where
  no_limits other_limits : Limits
  timeout_limit : Value → Limits

-- A key that is missing is none.
pub record SubmitBody : Type 0 where
  pub code : Option Value
  pub language : Option Value
  pub user_id : Option Value
  pub limits : Limits

-- The truth value in Python.
abbrev pub is_truthy : Value → Bool
is_truthy null = false
is_truthy (boolean b) = b
is_truthy (int z) = not (is_zero z)
is_truthy (real z) = not (is_zero z)
is_truthy (str s) = not (is_empty s)
is_truthy (container filled) = filled

abbrev pub supported : List Text
supported = text "python" ∷ text "javascript" ∷ text "node" ∷ text "bash" ∷ []

abbrev pub is_among : Text → List Text → Bool
is_among s [] = false
is_among s (x ∷ xs) = text_eq s x || is_among s xs

-- `code`, where it is a string that is neither empty nor too long.
unfoldable pub checked_code : Option Value → Option Text
checked_code (some (str s)) = if is_empty s || ltb 1_000_000 (length s) then none else some s
checked_code _ = none

-- `language`, where it is supported; "python" where it is missing.
unfoldable pub checked_language : Option Value → Option Text
checked_language none = some (text "python")
checked_language (some (str s)) = if is_among s supported then some s else none
checked_language (some _) = none

-- `int(…)` of a float drops the fraction.
abbrev pub truncate : ℤ → ℤ
truncate (pos n) = pos (n / 10000)
truncate (negsuc n) = pos 0 -ℤ pos (suc n / 10000)

-- `int(s)` of a string is a parameter.
module _ (parse_int : Text → Option ℤ) where
  -- `int(timeout_seconds)`, and 60 where it raises TypeError or ValueError.
  unfoldable pub to_int : Value → ℤ
  to_int null = pos 60
  to_int (boolean b) = if b then pos 1 else pos 0
  to_int (int z) = z
  to_int (real z) = truncate z
  to_int (str s) = or_else (parse_int s) (pos 60)
  to_int (container filled) = pos 60

  -- `limits.get("timeout_s") or 60`, as an int; none where `limits` has no `get`.
  unfoldable pub timeout_of : Limits → Option ℤ
  timeout_of no_limits = some (pos 60)
  timeout_of other_limits = none
  timeout_of (timeout_limit v) = some (if is_truthy v then to_int v else pos 60)

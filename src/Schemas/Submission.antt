-- ===== src/Schemas/Submission.antt =====
-- common/schemas.py: `JobSubmission.validate`, against the checks of `submit_job`.
use the_grid_x.Base.{
  ◌≡◌, refl, Bool, true, false, ◌&&◌, ltb, Option, none, some, is_some, is_empty, length,
  if◌then◌else◌, arith,
}
use the_grid_x.Utils.{Value, container}
use the_grid_x.Utils as Utils
use the_grid_x.Api.{is_among, supported, checked_code, checked_language}
use the_grid_x.Schemas.Values.{
  Json, null, boolean, int, real, str, array, object, no_items, item, no_fields, field,
}

pub record JobSubmission : Type 0 where
  pub code : Json
  pub language : Json
  pub user_id : Json
  pub limits : Json

pub data SubmissionError : Type 0 where
  code_required code_too_long unsupported_language : SubmissionError

-- `language in [...]`
abbrev pub json_among : Json → Bool
json_among (str s) = is_among s supported
json_among _ = false

abbrev pub after_code : (language : Json) → Bool × Option SubmissionError
after_code language =
    if json_among language then (true, none) else (false, some unsupported_language)

unfoldable pub validate_submission : JobSubmission → Bool × Option SubmissionError
validate_submission s = elim s.code [
  | str code ↦
      if is_empty code
      then (false, some code_required)
      else if ltb 1_000_000 (length code)
      then (false, some code_too_long)
      else after_code s.language
  | _ ↦ (false, some code_required)
]

-- The value as the validation of the endpoints sees it.
abbrev pub value_of : Json → Value
value_of null = Utils.null
value_of (boolean b) = Utils.boolean b
value_of (int z) = Utils.int z
value_of (real z) = Utils.real z
value_of (str s) = Utils.str s
value_of (array no_items) = container false
value_of (array (item j r)) = container true
value_of (object no_fields) = container false
value_of (object (field k j r)) = container true

language_checked :
    (language : Json)
    → (after_code language).0 ≡ is_some (checked_language (some (value_of language)))
unfolding checked_language
language_checked null = refl
language_checked (boolean b) = refl
language_checked (int z) = refl
language_checked (real z) = refl
language_checked (str s) = ground arith
language_checked (array no_items) = refl
language_checked (array (item j r)) = refl
language_checked (object no_fields) = refl
language_checked (object (field k j r)) = refl

checked_at :
    (code language user_id limits : Json)
    → (validate_submission
        (record { code = code; language = language; user_id = user_id; limits = limits })).0
      ≡ (is_some (checked_code (some (value_of code)))
          && is_some (checked_language (some (value_of language))))
unfolding validate_submission checked_code
checked_at null language u l = refl
checked_at (boolean b) language u l = refl
checked_at (int z) language u l = refl
checked_at (real z) language u l = refl
checked_at (str s) language u l = ground (arith, language_checked language)
checked_at (array no_items) language u l = refl
checked_at (array (item j r)) language u l = refl
checked_at (object no_fields) language u l = refl
checked_at (object (field k j r)) language u l = refl

-- `JobSubmission.validate` accepts exactly the submissions whose code and language the endpoint
-- that submits a job accepts.
pub validate_submission-checked :
    (s : JobSubmission)
    → (validate_submission s).0 ≡ (
        is_some (checked_code (some (value_of s.code)))
        && is_some (checked_language (some (value_of s.language))))
validate_submission-checked s = checked_at s.code s.language s.user_id s.limits

-- ===== src/Tests/Schemas.antt =====
-- common/schemas.py: the checks of a submission, on one that is accepted.
use the_grid_x.Base.{◌≡◌, ◌&&◌, is_some, some, text}
use the_grid_x.Api.{checked_code, checked_language}
use the_grid_x.Schemas.{null, str}
use the_grid_x.Schemas.Submission.{
  JobSubmission, validate_submission, value_of, validate_submission-checked,
}

abbrev submission : JobSubmission
submission = record {
  code = str (text "print(1)");
  language = str (text "node");
  user_id = null;
  limits = null;
}

validate_submission-checked_example : (validate_submission submission).0 ≡ (
    is_some (checked_code (some (value_of submission.code)))
    && is_some (checked_language (some (value_of submission.language))))
validate_submission-checked_example = validate_submission-checked submission
